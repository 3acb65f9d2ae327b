-- ===== src/BatchMap.antt =====
-- The batch mapper (packages/pynumaflow/pynumaflow/batchmapper): the data types and the servicer.
pub mod Server
pub mod Replies
use numaflow_python.Base.{
  Bool, true, false, Option, none, some, List, [], ◌∷◌, ◌++◌, map, if◌then◌else◌,
}
use numaflow_python.Base.Text.{Str, Bytes, str}
use numaflow_python.Base.Dict.{Dict}
use numaflow_python.Shared.Queue.{Queue}
use numaflow_python.Shared.Server.{
  Exception, Effect, stop_iteration, err_udf_exception_string, handle_async_error, Rpc, send,
  return, fail,
}
use numaflow_python.Shared.Proto.{Protobuf, DateTime, Message}
use numaflow_python.Shared.MapProto.{
  MapRequest, MapResponse, handshake_response, results_response, eot_response,
}
use numaflow_python.Shared.Batches.{BatchHandler, BatchServer, batch_loop}

-- `batchmapper.Datum`
pub record Datum : Type 0 where
  pub keys : List Str
  pub value : Bytes
  pub event_time : DateTime
  pub watermark : DateTime
  pub headers : Dict Str
  pub id : Str

-- `batchmapper.BatchResponse`
pub record BatchResponse : Type 0 where
  pub id : Str
  pub messages : List Message

unfoldable pub from_id : Str → BatchResponse
from_id id_ = record { id = id_; messages = [] }

unfoldable pub append : BatchResponse → Message → BatchResponse
append r message = record r { messages = r.messages ++ message ∷ [] }

-- The loop over the responses of a batch, and the end of transmission after it.
unfoldable pub batch_responses : List BatchResponse → List MapResponse
batch_responses [] = eot_response [] ∷ []
batch_responses (r ∷ rs) = results_response r.id r.messages ∷ batch_responses rs

module _ (pb : Protobuf) (container_type : Str)
    (handler : BatchHandler Datum (List BatchResponse)) where
  unfoldable pub batch_error : Exception → List Effect
  unfolding handle_async_error
  batch_error err = handle_async_error err (err_udf_exception_string container_type)

  unfoldable pub datum_of_request : MapRequest pb → Datum
  datum_of_request d = record {
    keys = d.payload.keys;
    value = d.payload.value;
    event_time = pb.to_datetime d.payload.event_time;
    watermark = pb.to_datetime d.payload.watermark;
    headers = d.payload.headers;
    id = d.id;
  }

  -- The rpc returns at the end of the stream, whether or not a batch is unfinished.
  abbrev pub batch_server : BatchServer
  batch_server = record {
    Req = MapRequest pb;
    D = Datum;
    R = List BatchResponse;
    Resp = MapResponse;
    eot = λ d. d.eot;
    datum = datum_of_request;
    handler = handler;
    responses = batch_responses;
    on_error = batch_error;
    at_end = λ _. return;
  }

  unfoldable pub map_fn : List (MapRequest pb) → Rpc MapResponse
  map_fn [] = fail (batch_error (stop_iteration (str "StopAsyncIteration")))
  map_fn (req ∷ request_iterator) =
      if req.sot
      then send (handshake_response ∷ []) (batch_loop batch_server none request_iterator)
      else fail (
          batch_error (record {
            repr = str "BatchMapError('BatchMapFn: expected handshake as the first message')";
          }))
