-- ===== src/Reduce/Servicer.antt =====
-- reducer/servicer/async_servicer.py, and `__invoke_reduce` of the task manager. The user's handler is
-- a function of the keys, the datums that its iterator yields and the metadata. `reduce_fn` is the rpc
-- when no handler raises before its future is awaited. In the code a handler that raises ends the
-- process at once, also while requests are read or other futures are awaited, and then its error is the
-- one of the rpc; nothing is said here of such runs.
pub mod Routing
pub mod Replies
use numaflow_python.Base.{
  ℕ, Bool, true, false, Option, none, some, List, [], ◌∷◌, ◌++◌, map, ◌==◌, if◌then◌else◌,
}
use numaflow_python.Base.Text.{Str, Bytes, ℤ, str}
use numaflow_python.Base.Dict
use numaflow_python.Shared.Queue.{Read, read_iterator}
use numaflow_python.Shared.Server.{
  Exception, Result, ok, raised, Effect, abort, unknown, err_udf_exception_string, exit_on_error,
  handle_async_error, Rpc, send, return, fail,
}
use numaflow_python.Shared.Proto.{Protobuf, Payload, datum_of, Datum, DateTime, Message}
use numaflow_python.Reduce.Keys.{Window}
use numaflow_python.Reduce.TaskManager.{
  Request, Task, TaskManager, init, open_operation, append_operation, create_task, append_task,
  stream_send_eof, get_tasks, get_unique_windows,
}

-- `Metadata`: the ends of the interval window
pub record Metadata : Type 0 where
  pub start : DateTime
  pub end : DateTime

abbrev pub Callable : Type 0
Callable = List Str → List Datum → Metadata → Result (List Message)

-- A function, or a class of which each task gets a new instance.
pub data Handler : Type 0 where
  function : Callable → Handler
  builder : (Unit {0} → Callable) → Handler

-- `reduce_pb2.ReduceRequest`
pub record ReduceRequest (pb : Protobuf) : Type 0 where
  pub event : ℕ
  pub windows : List (Window pb)
  pub payload : Payload pb

-- `reduce_pb2.ReduceResponse`, with a result or with `EOF=True`
pub data Response (pb : Protobuf) : Type 0 where
  result : Message → Window pb → Response pb
  eof : Window pb → Response pb

pub data Future : Type 0 where
  done : List Message → Future
  crashed : List Effect → Future

unfoldable pub new_instance : Handler → Callable
new_instance (function f) = f
new_instance (builder create) = create tt

-- What is left of a handler's call: its messages, or the abort of the rpc and the end of the process.
unfoldable pub future_of : Result (List Message) → Future
future_of (ok msgs) = done msgs
future_of (raised err) = crashed (abort unknown err.repr ∷ exit_on_error err.repr false false)

module _ {pb : Protobuf} where
  unfoldable pub datum_generator : List (ReduceRequest pb) → List (Request pb)
  datum_generator [] = []
  datum_generator (d ∷ ds) =
      record { operation = d.event; windows = d.windows; payload = datum_of pb d.payload }
      ∷ datum_generator ds

  unfoldable pub on_request : TaskManager pb → Request pb → Result (TaskManager pb)
  on_request tm request =
      if request.operation == open_operation
      then create_task tm request
      else if request.operation == append_operation
      then append_task tm request
      else ok tm

  -- The loop over the requests; an exception leaves it, and the state stays as it was.
  unfoldable pub process : TaskManager pb → List (Request pb) → TaskManager pb × Option Exception
  process tm [] = (tm, none)
  process tm (r ∷ rs) = elim (on_request tm r) [ ok tm' ↦ process tm' rs | raised e ↦ (tm, some e) ]

  -- `from_ms` is `datetime.fromtimestamp(ms / 1e3, timezone.utc)`, which divides as a float.
  module _ (from_ms : ℤ → DateTime) (handler : Handler) where
    unfoldable pub invoke_reduce : Task pb → Future
    unfolding new_instance future_of
    invoke_reduce t = future_of (
        new_instance handler t.keys (read_iterator t.iterator).yielded (record {
          start = from_ms (pb.to_milliseconds t.window.start);
          end = from_ms (pb.to_milliseconds t.window.end);
        }))

    -- The loop over the tasks, with a handler that raises met when its future is awaited, and what comes after it.
    unfoldable pub collect : List (Task pb) → Rpc (Response pb) → Rpc (Response pb)
    collect [] after = after
    collect (t ∷ ts) after =
        let rest = collect ts after in
        elim (invoke_reduce t) [
          | done msgs ↦ send (map (λ msg. result msg t.window) msgs) rest
          | crashed effects ↦ fail effects
        ]

    unfoldable pub reduce_fn : Str → List (ReduceRequest pb) → Rpc (Response pb)
    reduce_fn container_type request_iterator =
        let (tm, error) = process init (datum_generator request_iterator) in
        elim error [
          | some e ↦ fail (handle_async_error e (err_udf_exception_string container_type))
          | none ↦
              let tm' = stream_send_eof tm in
              collect (get_tasks tm') (send (map eof (Dict.values (get_unique_windows tm'))) return)
        ]
