-- ===== src/Reduce/TaskManager.antt =====
-- reducer/servicer/task_manager.py. The event loop runs one coroutine at a time and the queues have
-- no bound, so a call of a method here has no interleaving with the running tasks: a task is the
-- data that `asyncio.create_task` gets, and what it computes is a function of its queue.
pub mod Invariant
pub mod Tasks
pub mod Windows
use numaflow_python.Base.{
  ℕ, Bool, true, false, Option, none, some, List, [], ◌∷◌, ◌++◌, ◌==◌, if◌then◌else◌,
}
use numaflow_python.Base.Text.{Str, str, ℤ}
use numaflow_python.Base.Dict
use numaflow_python.Base.Dict.{Dict}
use numaflow_python.Shared.Queue.{Queue, Item, item, stream_eof, read_iterator}
use numaflow_python.Shared.Queue
use numaflow_python.Shared.Server.{Exception, Result, ok, raised}
use numaflow_python.Shared.Proto.{Protobuf, Datum, DateTime}
use numaflow_python.Reduce.Keys.{Window, build_unique_key_name, build_window_hash}

-- `WindowOperation`, as the integers of the request
abbrev pub open_operation : ℕ
open_operation = 0

abbrev pub append_operation : ℕ
append_operation = 4

-- `ReduceRequest`
pub record Request (pb : Protobuf) : Type 0 where
  pub operation : ℕ
  pub windows : List (Window pb)
  pub payload : Datum

-- `ReduceResult`; its future is `invoke_reduce` on these fields
pub record Task (pb : Protobuf) : Type 0 where
  pub keys : List Str
  pub window : Window pb
  pub iterator : Queue Datum

-- `background_tasks` names the tasks by their keys
pub record TaskManager (pb : Protobuf) : Type 0 where
  pub tasks : Dict (Task pb)
  pub background_tasks : List Str

abbrev pub invalid_windows : Exception
invalid_windows = record {
  repr = str "UDFError('reduce create operation error: invalid number of windows')";
}

module _ {pb : Protobuf} where
  abbrev pub init : TaskManager pb
  init = record { tasks = []; background_tasks = [] }

  new_task : Request pb → Window pb → Task pb
  new_task req w = record { keys = req.payload.keys; window = w; iterator = [] }

  -- `await task.iterator.put(d)`, on the object that the dictionary holds
  pub put_item : TaskManager pb → Str → Task pb → Item Datum → TaskManager pb
  put_item tm k t x = record tm {
    tasks = Dict.put tm.tasks k (record t { iterator = Queue.put t.iterator x });
  }

  unfoldable pub create_in : TaskManager pb → Request pb → Window pb → TaskManager pb
  unfolding new_task put_item
  create_in tm req w =
      let k = build_unique_key_name pb req.payload.keys w in
      elim (Dict.get tm.tasks k) [
        | some result ↦ put_item tm k result (item req.payload)
        | none ↦
            let result = new_task req w in
            let tm' : TaskManager pb = record {
              tasks = Dict.put tm.tasks k result;
              background_tasks = tm.background_tasks ++ k ∷ [];
            } in
            put_item tm' k result (item req.payload)
      ]

  unfoldable pub with_window :
      (Window pb → Result (TaskManager pb)) → List (Window pb) → Result (TaskManager pb)
  with_window f [] = raised invalid_windows
  with_window f (w ∷ []) = f w
  with_window f (v ∷ w ∷ ws) = raised invalid_windows

  unfoldable pub create_task : TaskManager pb → Request pb → Result (TaskManager pb)
  unfolding create_in with_window
  create_task tm req = with_window (λ w. ok (create_in tm req w)) req.windows

  unfoldable pub append_task : TaskManager pb → Request pb → Result (TaskManager pb)
  unfolding put_item with_window
  append_task tm req =
      with_window
        (λ w.
          let k = build_unique_key_name pb req.payload.keys w in
          elim (Dict.get tm.tasks k) [
            | none ↦ create_task tm req
            | some result ↦ ok (put_item tm k result (item req.payload))
          ])
        req.windows

  send_eof : Dict (Task pb) → Dict (Task pb)
  send_eof [] = []
  send_eof ((k, t) ∷ d) = (k, record t { iterator = Queue.put t.iterator stream_eof }) ∷ send_eof d

  unfoldable pub stream_send_eof : TaskManager pb → TaskManager pb
  unfolding send_eof
  stream_send_eof tm = record tm { tasks = send_eof tm.tasks }

  unfoldable pub get_tasks : TaskManager pb → List (Task pb)
  get_tasks tm = Dict.values tm.tasks

  add_window : Dict (Window pb) → Window pb → Dict (Window pb)
  add_window windows w =
      let h = build_window_hash pb w in
      elim (Dict.get windows h) [ none ↦ Dict.put windows h w | some _ ↦ windows ]

  unique_windows : Dict (Window pb) → List (Task pb) → Dict (Window pb)
  unfolding add_window
  unique_windows windows [] = windows
  unique_windows windows (t ∷ ts) = unique_windows (add_window windows t.window) ts

  unfoldable pub get_unique_windows : TaskManager pb → Dict (Window pb)
  unfolding unique_windows
  get_unique_windows tm = unique_windows [] (Dict.values tm.tasks)
