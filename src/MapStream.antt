-- ===== src/MapStream.antt =====
-- The map streamer (packages/pynumaflow/pynumaflow/mapstreamer): one task for each request, which puts each
-- message as the handler yields it.
pub mod Server
pub mod Replies
pub mod Errors
use numaflow_python.Base.{Bool, true, Option, none, some, List, [], ◌∷◌, ◌++◌, map}
use numaflow_python.Base.Text.{Str, str}
use numaflow_python.Shared.Server.{
  Exception, Result, ok, raised, Effect, stop_iteration, err_udf_exception_string,
  handle_async_error,
}
use numaflow_python.Shared.Proto.{Protobuf, Datum, Message, datum_of}
use numaflow_python.Shared.MapProto.{
  MapRequest, MapResponse, handshake_response, results_response, eot_response,
}
use numaflow_python.Shared.Workers.{gather, WorkerServer}

-- What the generator of the user yields, and the exception that ends it, if one does.
pub record Generated : Type 0 where
  pub yielded : List Message
  pub error : Option Exception

abbrev pub MapStreamCallable : Type 0
MapStreamCallable = List Str → Datum → Generated

-- One response for each message.
unfoldable pub stream_responses : Str → List Message → List MapResponse
stream_responses id [] = []
stream_responses id (msg ∷ msgs) = results_response id (msg ∷ []) ∷ stream_responses id msgs

abbrev after_messages : Str → Option Exception → Result MapResponse
after_messages id none = ok (eot_response id)
after_messages id (some err) = raised err

module _ (pb : Protobuf) (handler : MapStreamCallable) where
  unfoldable pub invoke_map_stream : MapRequest pb → List (Result MapResponse)
  unfolding stream_responses
  invoke_map_stream req =
      let g = handler req.payload.keys (datum_of pb req.payload) in
      map ok (stream_responses req.id g.yielded) ++ after_messages req.id g.error ∷ []

  module _ (container_type : Str) where
    unfoldable pub async_error : Exception → List Effect
    unfolding handle_async_error
    async_error e = handle_async_error e (err_udf_exception_string container_type)

    -- `AsyncMapStreamServicer`
    abbrev pub async_server : WorkerServer
    async_server = record {
      Req = MapRequest pb;
      Out = MapResponse;
      sot = λ req. req.sot;
      handshake = handshake_response;
      invoke = invoke_map_stream;
      waiting = gather;
      on_error = async_error;
      no_request = stop_iteration (str "StopAsyncIteration");
      no_handshake = record {
        repr = str "MapStreamError('MapStreamFn: expected handshake as the first message')";
      };
    }
