-- ===== src/Map.antt =====
-- The mapper (packages/pynumaflow/pynumaflow/mapper): the asynchronous servicer, which waits for its
-- tasks by a loop over a set, and the synchronous one with a pool of threads.
pub mod SyncServer
pub mod AsyncServer
pub mod Replies
pub mod Errors
use numaflow_python.Base.{Bool, true, List, [], ◌∷◌, ◌++◌}
use numaflow_python.Base.Text.{Str, str}
use numaflow_python.Shared.Server.{
  Exception, Result, ok, raised, Effect, stop_iteration, err_udf_exception_string, exit_on_error,
  handle_async_error,
}
use numaflow_python.Shared.Proto.{Protobuf, Datum, Message, datum_of}
use numaflow_python.Shared.MapProto.{MapRequest, MapResponse, handshake_response, results_response}
use numaflow_python.Shared.Workers.{gather, loop_over_set, WorkerServer}

-- The user's function of one datum.
abbrev pub MapCallable : Type 0
MapCallable = List Str → Datum → Result (List Message)

-- What the task of a request puts: one response, or the exception.
unfoldable pub put_result : Str → Result (List Message) → List (Result MapResponse)
put_result id (ok msgs) = ok (results_response id msgs) ∷ []
put_result id (raised err) = raised err ∷ []

module _ (pb : Protobuf) (handler : MapCallable) where
  unfoldable pub invoke_map : MapRequest pb → List (Result MapResponse)
  unfolding put_result
  invoke_map req = put_result req.id (handler req.payload.keys (datum_of pb req.payload))

  module _ (container_type : Str) where
    unfoldable pub async_error : Exception → List Effect
    unfolding handle_async_error
    async_error e = handle_async_error e (err_udf_exception_string container_type)

    -- `AsyncMapServicer`
    abbrev pub async_server : WorkerServer
    async_server = record {
      Req = MapRequest pb;
      Out = MapResponse;
      sot = λ req. req.sot;
      handshake = handshake_response;
      invoke = invoke_map;
      waiting = loop_over_set;
      on_error = async_error;
      no_request = stop_iteration (str "StopAsyncIteration");
      no_handshake = record {
        repr = str "MapError('MapFn: expected handshake as the first message')";
      };
    }

    module _ (multiproc : Bool) where
      unfoldable pub sync_error : Exception → List Effect
      unfolding exit_on_error
      sync_error e =
          exit_on_error (err_udf_exception_string container_type ++ (str ": " ++ e.repr)) multiproc
            true

      -- `SyncMapServicer`
      abbrev pub sync_server : WorkerServer
      sync_server = record {
        Req = MapRequest pb;
        Out = MapResponse;
        sot = λ req. req.sot;
        handshake = handshake_response;
        invoke = invoke_map;
        waiting = gather;
        on_error = sync_error;
        no_request = stop_iteration (str "StopIteration");
        no_handshake = record {
          repr = str "MapError('MapFn: expected handshake as the first message')";
        };
      }
