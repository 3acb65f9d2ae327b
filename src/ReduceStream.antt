-- ===== src/ReduceStream.antt =====
-- The reduce streamer (packages/pynumaflow/pynumaflow/reducestreamer), servicer/task_manager.py. Its tasks
-- are those of the reducer; each has also a queue for its results, which a consumer task copies to one
-- queue for all results. Of the servicer, the loop over the requests is here, and what one task
-- contributes.
pub mod Handler
pub mod Server
pub mod Servicer
use numaflow_python.Base.{
  Bool, true, false, Option, none, some, List, [], ◌∷◌, ◌++◌, ◌==◌, if◌then◌else◌,
}
use numaflow_python.Base.Text.{Str, str, ℤ}
use numaflow_python.Base.Dict
use numaflow_python.Shared.Queue.{Item, item, stream_eof, read_iterator, Queue}
use numaflow_python.Shared.Queue
use numaflow_python.Shared.Server.{Exception, Result, ok, raised}
use numaflow_python.Shared.Proto.{Protobuf, Datum, Message, DateTime}
use numaflow_python.Reduce.Keys.{Window, build_unique_key_name}
use numaflow_python.Reduce.TaskManager.{
  Request, Task, TaskManager, open_operation, append_operation, invalid_windows,
}
use numaflow_python.Reduce.Servicer.{Metadata, Response, result}

abbrev pub invalid_windows_append : Exception
invalid_windows_append = record {
  repr = str "UDFError('reduce append operation error: invalid number of windows')";
}

module _ {pb : Protobuf} where
  -- The guard on the number of windows, with its error.
  unfoldable pub with_one_window :
      Exception → (Window pb → Result (TaskManager pb)) → List (Window pb) → Result (TaskManager pb)
  with_one_window err f [] = raised err
  with_one_window err f (w ∷ []) = f w
  with_one_window err f (v ∷ w ∷ ws) = raised err

  -- `await curr_task.iterator.put(d)`, on the object that the dictionary holds
  unfoldable pub put_item : TaskManager pb → Str → Task pb → Item Datum → TaskManager pb
  put_item tm k t x = record tm {
    tasks = Dict.put tm.tasks k (record t { iterator = Queue.put t.iterator x });
  }

  -- What comes after the guard. A new task is two of the event loop, and `background_tasks` gets both: the
  -- consumer of its results, and the call of its handler.
  unfoldable pub create_in : TaskManager pb → Request pb → Window pb → TaskManager pb
  unfolding put_item
  create_in tm req w =
      let k = build_unique_key_name pb req.payload.keys w in
      elim (Dict.get tm.tasks k) [
        | some curr_task ↦ put_item tm k curr_task (item req.payload)
        | none ↦
            let curr_task : Task pb = record {
              keys = req.payload.keys;
              window = w;
              iterator = [];
            } in
            let tm' : TaskManager pb = record {
              tasks = Dict.put tm.tasks k curr_task;
              background_tasks = tm.background_tasks ++ k ∷ k ∷ [];
            } in
            put_item tm' k curr_task (item req.payload)
      ]

  unfoldable pub create_task : TaskManager pb → Request pb → Result (TaskManager pb)
  unfolding with_one_window create_in
  create_task tm req = with_one_window invalid_windows (λ w. ok (create_in tm req w)) req.windows

  unfoldable pub send_datum_to_task : TaskManager pb → Request pb → Result (TaskManager pb)
  unfolding with_one_window create_task put_item
  send_datum_to_task tm req =
      with_one_window invalid_windows_append
        (λ w.
          let k = build_unique_key_name pb req.payload.keys w in
          elim (Dict.get tm.tasks k) [
            | none ↦ create_task tm req
            | some t ↦ ok (put_item tm k t (item req.payload))
          ])
        req.windows

  unfoldable pub on_request : TaskManager pb → Request pb → Result (TaskManager pb)
  on_request tm request =
      if request.operation == open_operation
      then create_task tm request
      else if request.operation == append_operation
      then send_datum_to_task tm request
      else ok tm

  -- The loop of `process_input_stream`; an exception ends it, and is put into the queue of all results.
  unfoldable pub process : TaskManager pb → List (Request pb) → TaskManager pb × Option Exception
  process tm [] = (tm, none)
  process tm (r ∷ rs) = elim (on_request tm r) [ ok tm' ↦ process tm' rs | raised e ↦ (tm, some e) ]

  unfoldable pub write_all : Window pb → List Message → List (Response pb)
  write_all window [] = []
  write_all window (msg ∷ msgs) = result msg window ∷ write_all window msgs

  -- What a task puts into the queue of all results.
  unfoldable pub write_to_global_queue : Queue Message → Window pb → List (Response pb)
  unfolding write_all
  write_to_global_queue input_queue window = write_all window (read_iterator input_queue).yielded
