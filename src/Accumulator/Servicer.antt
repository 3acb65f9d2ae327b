-- ===== src/Accumulator/Servicer.antt =====
-- accumulator/servicer/async_servicer.py, and `__invoke_accumulator` and `process_input_stream` of the
-- task manager: the task manager as the producer of Shared/Streams. A handler is a function of what its
-- iterator has yielded so far and whether it has ended.
pub mod Laws
pub mod Replies
pub mod Errors
use numaflow_python.Base.{
  ◌≡◌, ℕ, Bool, true, false, Option, none, some, List, [], ◌∷◌, ◌++◌, map, ◌==◌, if◌then◌else◌,
}
use numaflow_python.Base.Text.{Str, Bytes, str}
use numaflow_python.Base.Dict
use numaflow_python.Base.Dict.{Dict}
use numaflow_python.Base.Dict.Keys.{Distinct}
use numaflow_python.Shared.Queue.{Queue, Read, item, stream_eof, read_iterator}
use numaflow_python.Shared.Server.{
  Exception, Effect, err_udf_exception_string, handle_async_error, Rpc,
}
use numaflow_python.Shared.Proto.{Protobuf, DateTime}
use numaflow_python.Shared.Streams.{
  Command, feed, finish, skip, Session, Reaction, go, await_task, report, Manager, Status, working,
  finished, crashed, Produced, StreamFn,
}
use numaflow_python.Accumulator.TaskManager.{
  Datum, Request, Task, TaskManager, init, unified_key, open_operation, append_operation,
  close_operation, create_task, send_datum_to_task, close_task, task_not_found,
}
use numaflow_python.Accumulator.TaskManager.Sessions.{is_data}
use numaflow_python.Accumulator.Watermarks.{Message, Payload, Response, write_to_global_queue}
use numaflow_python.Accumulator.Watermarks

-- `accumulator_pb2.AccumulatorRequest`; the keyed window of its operation is converted and not read
pub record AccumulatorRequest (pb : Protobuf) : Type 0 where
  pub event : ℕ
  pub payload : Watermarks.Payload pb

unfoldable pub datum_generator : (pb : Protobuf) → List (AccumulatorRequest pb) → List Request
datum_generator pb [] = []
datum_generator pb (d ∷ ds) =
    record {
      operation = d.event;
      payload = record {
        keys = d.payload.keys;
        value = d.payload.value;
        event_time = pb.to_datetime d.payload.event_time;
        watermark = pb.to_datetime d.payload.watermark;
        headers = d.payload.headers;
        id = d.payload.id;
      };
    }
    ∷ datum_generator pb ds

abbrev pub Callable : Type 0
Callable = Read Datum → Produced Message

-- A function, or a class of which each task gets a new instance.
pub data Handler : Type 0 where
  function : Callable → Handler
  builder : (Unit {0} → Callable) → Handler

unfoldable pub new_instance : Handler → Callable
new_instance (function f) = f
new_instance (builder create) = create tt

abbrev pub session_of : Option Task → Option (Session (List Str) Datum)
session_of none = none
session_of (some t) = some (record { info = t.keys; datums = (read_iterator t.iterator).yielded })

-- `close_task` up to its waits. The model takes the task out of the dictionary before them, the code
-- after; in between nothing else looks into it.
unfoldable pub close_turn : TaskManager → Request → Reaction (List Str) Datum TaskManager
close_turn tm req = elim (session_of (Dict.get tm.tasks (unified_key req))) [
  | none ↦ report task_not_found
  | some s ↦ await_task (unified_key req) s (close_task tm req)
]

-- One turn of the loop of `process_input_stream`.
unfoldable pub turn : TaskManager → Request → Reaction (List Str) Datum TaskManager
unfolding close_turn
turn tm request =
    if request.operation == open_operation
    then go (create_task tm request)
    else if request.operation == append_operation
    then go (send_datum_to_task tm request)
    else if request.operation == close_operation
    then close_turn tm request
    else go tm

-- What a request asks for.
abbrev pub command : Request → Command (List Str) Datum
command r =
    if is_data r
    then feed (unified_key r) r.payload.keys r.payload
    else if r.operation == close_operation
    then finish (unified_key r)
    else skip

-- The names are distinct, and no open task has been given the end of its input.
pub record IsValid (tm : TaskManager) : Type 0 where
  pub distinct : Distinct (Dict.keys tm.tasks)
  pub open_tasks :
      (k : Str) (t : Task)
      → Dict.get tm.tasks k ≡ some t
      → t.iterator ≡ map item (read_iterator t.iterator).yielded

abbrev pub manager : Manager
manager = record {
  Req = Request;
  Info = List Str;
  D = Datum;
  TM = TaskManager;
  init = init;
  on_request = turn;
  task = λ tm k. session_of (Dict.get tm.tasks k);
  command = command;
  IsValid = IsValid;
}

abbrev after_handler : Status → Queue Message
after_handler finished = stream_eof ∷ []
after_handler working = []
after_handler (crashed e) = []

-- The local queue of a task.
unfoldable pub result_queue : Produced Message → Queue Message
result_queue p = map item p.output ++ after_handler p.status

-- Nothing follows the results of the tasks.
abbrev pub no_trailer : (pb : Protobuf) → TaskManager → List (Response pb)
no_trailer pb tm = []

unfoldable pub on_error : Str → Exception → List Effect
on_error container_type e = handle_async_error e (err_udf_exception_string container_type)

-- `timestamp_pb2.Timestamp()`, `datetime.fromtimestamp(0)` and `datetime.fromtimestamp(-1)`
module _ (pb : Protobuf) (unset : pb.Timestamp) (epoch first : DateTime) (handler : Handler) where
  -- A task: the handler, and the consumer of its queue.
  unfoldable pub invoke_accumulator : List Str → Read Datum → Produced (Response pb)
  unfolding result_queue
  invoke_accumulator keys request_iterator =
      let p = new_instance handler request_iterator in
      record {
        output = (write_to_global_queue pb unset epoch keys first (result_queue p)).0;
        status = p.status;
      }

  -- `AccumulateFn`
  abbrev pub AccumulateFn : Str → List (AccumulatorRequest pb) → Rpc (Response pb) → Type 0
  AccumulateFn container_type requests rpc =
      StreamFn manager invoke_accumulator (no_trailer pb) (on_error container_type)
        (datum_generator pb requests) rpc
