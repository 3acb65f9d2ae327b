-- ===== src/ReduceStream/Servicer.antt =====
-- reducestreamer/servicer/async_servicer.py, and `__invoke_reduce` and `process_input_stream` of the task
-- manager: the task manager as the producer of Shared/Streams. A handler is a function of its keys, the
-- metadata, and what its iterator has yielded so far and whether that has ended.
pub mod Laws
pub mod Replies
pub mod Errors
use numaflow_python.Base.{
  ◌≡◌, Bool, true, false, Option, none, some, List, [], ◌∷◌, map, ◌==◌, if◌then◌else◌,
}
use numaflow_python.Base.Text.{Str, ℤ}
use numaflow_python.Base.Dict
use numaflow_python.Shared.Queue.{Queue, Read, item, read_iterator}
use numaflow_python.Shared.Server.{
  Exception, ok, raised, Effect, err_udf_exception_string, handle_async_error, Rpc,
}
use numaflow_python.Shared.Proto.{Protobuf, Datum, DateTime, Message}
use numaflow_python.Shared.Streams.{
  Command, feed, skip, reject, Session, Reaction, go, abort, Manager, Produced, StreamFn,
}
use numaflow_python.Shared.Streams.Queues.{IsOpen}
use numaflow_python.Reduce.Keys.{Window, build_unique_key_name}
use numaflow_python.Reduce.TaskManager.{
  Request, Task, TaskManager, init, open_operation, invalid_windows, stream_send_eof,
  get_unique_windows,
}
use numaflow_python.Reduce.Servicer.{Metadata, ReduceRequest, Response, eof, datum_generator}
use numaflow_python.Reduce.Servicer.Routing.{is_data}
use numaflow_python.ReduceStream.{invalid_windows_append, on_request, write_to_global_queue}

abbrev pub Callable : Type 0
Callable = List Str → Metadata → Read Datum → Produced Message

-- A function, or a class of which each task gets a new instance.
pub data Handler : Type 0 where
  function : Callable → Handler
  builder : (Unit {0} → Callable) → Handler

unfoldable pub new_instance : Handler → Callable
new_instance (function f) = f
new_instance (builder create) = create tt

unfoldable pub on_error : Str → Exception → List Effect
on_error container_type e = handle_async_error e (err_udf_exception_string container_type)

-- The keys and the window of a task.
abbrev pub Info : Protobuf → Type 0
Info pb = List Str × Window pb

module _ {pb : Protobuf} where
  abbrev pub session_of : Option (Task pb) → Option (Session (Info pb) Datum)
  session_of none = none
  session_of (some t) =
      some (record { info = (t.keys, t.window); datums = (read_iterator t.iterator).yielded })

  -- One turn of the loop of `process_input_stream`; an exception ends the loop.
  unfoldable pub turn : TaskManager pb → Request pb → Reaction (Info pb) Datum (TaskManager pb)
  turn tm request = elim (on_request tm request) [ ok tm' ↦ go tm' | raised e ↦ abort e ]

  -- The error names the operation.
  abbrev pub windows_error : Request pb → Exception
  windows_error r =
      if r.operation == open_operation then invalid_windows else invalid_windows_append

  abbrev pub placed : Request pb → List (Window pb) → Command (Info pb) Datum
  placed r [] = reject (windows_error r)
  placed r (w ∷ []) = feed (build_unique_key_name pb r.payload.keys w) (r.payload.keys, w) r.payload
  placed r (v ∷ w ∷ ws) = reject (windows_error r)

  -- What a request asks for.
  abbrev pub command : Request pb → Command (Info pb) Datum
  command r = if is_data r then placed r r.windows else skip

  -- No task has been given the end of its input.
  pub record IsValid (tm : TaskManager pb) : Type 0 where
    pub open_tasks : (k : Str) (t : Task pb) → Dict.get tm.tasks k ≡ some t → IsOpen t.iterator

abbrev pub manager : Protobuf → Manager
manager pb = record {
  Req = Request pb;
  Info = Info pb;
  D = Datum;
  TM = TaskManager pb;
  init = init;
  on_request = turn;
  task = λ tm k. session_of (Dict.get tm.tasks k);
  command = command;
  IsValid = IsValid;
}

module _ {pb : Protobuf} where
  -- The end of each window, when all tasks have ended.
  unfoldable pub window_ends : TaskManager pb → List (Response pb)
  window_ends tm = map eof (Dict.values (get_unique_windows (stream_send_eof tm)))

  -- `from_ms` is `datetime.fromtimestamp(ms / 1e3, timezone.utc)`, which divides as a float.
  abbrev pub metadata : (ℤ → DateTime) → Window pb → Metadata
  metadata from_ms window = record {
    start = from_ms (pb.to_milliseconds window.start);
    end = from_ms (pb.to_milliseconds window.end);
  }

  module _ (from_ms : ℤ → DateTime) (handler : Handler) where
    -- A task: the handler, which puts messages into its local queue, and the consumer of that queue.
    unfoldable pub invoke_reduce : Info pb → Read Datum → Produced (Response pb)
    invoke_reduce (keys, window) request_iterator =
        let p = new_instance handler keys (metadata from_ms window) request_iterator in
        record { output = write_to_global_queue (map item p.output) window; status = p.status }

    -- `ReduceFn`
    abbrev pub ReduceFn : Str → List (ReduceRequest pb) → Rpc (Response pb) → Type 0
    ReduceFn container_type requests rpc =
        StreamFn (manager pb) invoke_reduce window_ends (on_error container_type)
          (datum_generator requests) rpc
