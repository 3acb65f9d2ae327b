-- ===== src/Transform.antt =====
-- The source transformer (packages/pynumaflow/pynumaflow/sourcetransformer): the asynchronous servicer,
-- which waits by `asyncio.gather`, and the synchronous one with a pool of threads.
pub mod SyncServer
pub mod AsyncServer
pub mod Replies
pub mod Errors
use numaflow_python.Base.{Bool, true, List, [], ◌∷◌, ◌++◌}
use numaflow_python.Base.Text.{Str, Bytes, str}
use numaflow_python.Shared.Server.{
  Exception, Result, ok, raised, Effect, stop_iteration, err_udf_exception_string, exit_on_error,
  handle_async_error,
}
use numaflow_python.Shared.Proto.{Protobuf, Datum, DateTime, Payload, datum_of}
use numaflow_python.Shared.Workers.{gather, WorkerServer}

-- `sourcetransformer.Message`
pub record Message : Type 0 where
  pub value : Bytes
  pub event_time : DateTime
  pub keys : List Str
  pub tags : List Str

abbrev pub TransformCallable : Type 0
TransformCallable = List Str → Datum → Result (List Message)

-- `SourceTransformRequest`
pub record TransformRequest (pb : Protobuf) : Type 0 where
  pub payload : Payload pb
  pub id : Str
  pub sot : Bool

-- `SourceTransformResponse.Result`
pub record TransformResult (pb : Protobuf) : Type 0 where
  pub keys : List Str
  pub value : Bytes
  pub tags : List Str
  pub event_time : pb.Timestamp

pub data TransformResponse (pb : Protobuf) : Type 0 where
  handshake_response : TransformResponse pb
  results_response : Str → List (TransformResult pb) → TransformResponse pb

module _ (pb : Protobuf) where
  -- The loop over the messages of the handler.
  unfoldable pub results_of : List Message → List (TransformResult pb)
  results_of [] = []
  results_of (msg ∷ msgs) =
      record {
        keys = msg.keys;
        value = msg.value;
        tags = msg.tags;
        event_time = pb.from_datetime msg.event_time;
      }
      ∷ results_of msgs

  unfoldable pub put_result : Str → Result (List Message) → List (Result (TransformResponse pb))
  unfolding results_of
  put_result id (ok msgs) = ok (results_response id (results_of msgs)) ∷ []
  put_result id (raised err) = raised err ∷ []

  module _ (handler : TransformCallable) where
    unfoldable pub invoke_transform : TransformRequest pb → List (Result (TransformResponse pb))
    unfolding put_result
    invoke_transform req = put_result req.id (handler req.payload.keys (datum_of pb req.payload))

    module _ (container_type : Str) where
      unfoldable pub async_error : Exception → List Effect
      unfolding handle_async_error
      async_error e = handle_async_error e (err_udf_exception_string container_type)

      abbrev pub expected_handshake : Exception
      expected_handshake = record {
        repr = str "Exception('SourceTransformFn: expected handshake message')";
      }

      -- `SourceTransformAsyncServicer`
      abbrev pub async_server : WorkerServer
      async_server = record {
        Req = TransformRequest pb;
        Out = TransformResponse pb;
        sot = λ req. req.sot;
        handshake = handshake_response;
        invoke = invoke_transform;
        waiting = gather;
        on_error = async_error;
        no_request = stop_iteration (str "StopAsyncIteration");
        no_handshake = expected_handshake;
      }

      module _ (multiproc : Bool) where
        unfoldable pub sync_error : Exception → List Effect
        unfolding exit_on_error
        sync_error e =
            exit_on_error (err_udf_exception_string container_type ++ (str ": " ++ e.repr))
              multiproc true

        -- `SourceTransformServicer`
        abbrev pub sync_server : WorkerServer
        sync_server = record {
          Req = TransformRequest pb;
          Out = TransformResponse pb;
          sot = λ req. req.sot;
          handshake = handshake_response;
          invoke = invoke_transform;
          waiting = gather;
          on_error = sync_error;
          no_request = stop_iteration (str "StopIteration");
          no_handshake = expected_handshake;
        }
