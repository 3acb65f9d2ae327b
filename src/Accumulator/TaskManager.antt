-- ===== src/Accumulator/TaskManager.antt =====
-- accumulator/servicer/task_manager.py. As in the reducer, a call of a method here has no interleaving
-- with the running tasks, and a task is what `asyncio.create_task` gets. `close_task` waits until the
-- task has ended, and removes it; the model keeps it, with its queue, in `finished`. It is a model of
-- the runs in which these waits end: after a handler that raises or never returns the loop stays in
-- `close_task`.
pub mod Sessions
pub mod Streams
pub mod Ended
pub mod Errors
use numaflow_python.Base.{
  ℕ, Bool, true, false, Option, none, some, List, [], ◌∷◌, ◌++◌, ◌==◌, if◌then◌else◌,
}
use numaflow_python.Base.Text.{Str, Bytes, str, join}
use numaflow_python.Base.Dict
use numaflow_python.Base.Dict.{Dict}
use numaflow_python.Shared.Queue.{Queue, Item, item, stream_eof}
use numaflow_python.Shared.Queue
use numaflow_python.Shared.Server.{Exception}
use numaflow_python.Shared.Proto.{DateTime}

-- `accumulator.Datum`
pub record Datum : Type 0 where
  pub keys : List Str
  pub value : Bytes
  pub event_time : DateTime
  pub watermark : DateTime
  pub headers : Dict Str
  pub id : Str

-- `WindowOperation`
abbrev pub open_operation : ℕ
open_operation = 0

abbrev pub close_operation : ℕ
close_operation = 1

abbrev pub append_operation : ℕ
append_operation = 2

-- `AccumulatorRequest`; the task manager does not read its window
pub record Request : Type 0 where
  pub operation : ℕ
  pub payload : Datum

-- `AccumulatorResult`
pub record Task : Type 0 where
  pub keys : List Str
  pub iterator : Queue Datum

pub record TaskManager : Type 0 where
  pub tasks : Dict Task
  pub finished : Dict Task
  -- the exceptions that the loop over the requests puts into `global_result_queue`
  pub errors : List Exception

unfoldable pub build_unique_key_name : List Str → Str
build_unique_key_name keys = join b':' keys

abbrev pub unified_key : Request → Str
unified_key req = build_unique_key_name req.payload.keys

abbrev pub init : TaskManager
init = record { tasks = []; finished = []; errors = [] }

abbrev pub task_not_found : Exception
task_not_found = record { repr = str "BaseException('accumulator task not found')" }

put_item : TaskManager → Str → Task → Item Datum → TaskManager
put_item tm k t x = record tm {
  tasks = Dict.put tm.tasks k (record t { iterator = Queue.put t.iterator x });
}

unfoldable pub create_task : TaskManager → Request → TaskManager
unfolding put_item
create_task tm req =
    let k = unified_key req in
    elim (Dict.get tm.tasks k) [
      | some t ↦ put_item tm k t (item req.payload)
      | none ↦
          let t : Task = record { keys = req.payload.keys; iterator = [] } in
          put_item (record tm { tasks = Dict.put tm.tasks k t }) k t (item req.payload)
    ]

unfoldable pub send_datum_to_task : TaskManager → Request → TaskManager
unfolding put_item
send_datum_to_task tm req =
    let k = unified_key req in
    elim (Dict.get tm.tasks k) [
      | none ↦ create_task tm req
      | some t ↦ put_item tm k t (item req.payload)
    ]

-- A task with the end put behind what its queue holds.
abbrev pub ended : Task → Task
ended t = record t { iterator = Queue.put t.iterator stream_eof }

unfoldable pub close_task : TaskManager → Request → TaskManager
close_task tm req =
    let k = unified_key req in
    elim (Dict.get tm.tasks k) [
      | some t ↦ record tm {
        tasks = Dict.pop tm.tasks k;
        finished = tm.finished ++ (k, ended t) ∷ [];
      }
      | none ↦ record tm { errors = tm.errors ++ task_not_found ∷ [] }
    ]

unfoldable pub on_request : TaskManager → Request → TaskManager
unfolding create_task send_datum_to_task close_task
on_request tm request =
    if request.operation == open_operation
    then create_task tm request
    else if request.operation == append_operation
    then send_datum_to_task tm request
    else if request.operation == close_operation
    then close_task tm request
    else tm

unfoldable pub process : TaskManager → List Request → TaskManager
unfolding on_request
process tm [] = tm
process tm (r ∷ rs) = process (on_request tm r) rs

-- `stream_send_eof`
unfoldable pub end_all : Dict Task → Dict Task
end_all [] = []
end_all ((k, t) ∷ d) = (k, ended t) ∷ end_all d

-- The loop, the end for all tasks that are left, and `tasks.clear()`.
unfoldable pub process_input_stream : List Request → TaskManager
unfolding process end_all
process_input_stream rs =
    let tm = process init rs in record tm { tasks = []; finished = tm.finished ++ end_all tm.tasks }
