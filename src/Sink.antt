-- ===== src/Sink.antt =====
-- The sinker (packages/pynumaflow/pynumaflow/sinker): the data types, the asynchronous and the
-- synchronous servicer. In the synchronous one the handler runs in a thread; if it raises, the
-- process is killed, in the model when the thread is joined, in the code possibly sooner.
pub mod SyncServer
pub mod Fallback
pub mod AsyncServer
pub mod Replies
use numaflow_python.Base.{
  ℕ, Bool, true, false, Option, none, some, List, [], ◌∷◌, ◌++◌, map, if◌then◌else◌,
}
use numaflow_python.Base.Text.{Str, Bytes, str}
use numaflow_python.Base.Dict.{Dict}
use numaflow_python.Shared.Queue.{Queue, Read, read_iterator}
use numaflow_python.Shared.Server.{
  Exception, Result, ok, raised, Effect, stop_iteration, err_udf_exception_string, exit_on_error,
  handle_async_error, Rpc, send, return, fail, block,
}
use numaflow_python.Shared.Proto.{Protobuf, DateTime}
use numaflow_python.Shared.Batches.{BatchHandler, BatchServer, batch_loop}

-- `sinker.Datum`
pub record Datum : Type 0 where
  pub keys : List Str
  pub sink_msg_id : Str
  pub value : Bytes
  pub event_time : DateTime
  pub watermark : DateTime
  pub headers : Dict Str

-- `sinker.Response`
pub record Response : Type 0 where
  pub id : Str
  pub success : Bool
  pub err : Option Str
  pub fallback : Bool

unfoldable pub as_success : Str → Response
as_success id_ = record { id = id_; success = true; err = none; fallback = false }

unfoldable pub as_failure : Str → Str → Response
as_failure id_ err_msg = record { id = id_; success = false; err = some err_msg; fallback = false }

unfoldable pub as_fallback : Str → Response
as_fallback id_ = record { id = id_; success = false; err = none; fallback = true }

pub data Status : Type 0 where
  success_status failure_status fallback_status : Status

-- `SinkResponse.Result`; a message field that is not set reads as empty
pub record SinkResult : Type 0 where
  pub id : Str
  pub status : Status
  pub err_msg : Str

abbrev or_unset : Option Str → Str
or_unset none = []
or_unset (some s) = s

unfoldable pub build_sink_response : Response → SinkResult
build_sink_response rspn =
    if rspn.success
    then record { id = rspn.id; status = success_status; err_msg = [] }
    else if rspn.fallback
    then record { id = rspn.id; status = fallback_status; err_msg = [] }
    else record { id = rspn.id; status = failure_status; err_msg = or_unset rspn.err }

unfoldable pub build_sink_resp_results : List Response → List SinkResult
unfolding build_sink_response
build_sink_resp_results [] = []
build_sink_resp_results (r ∷ rs) = build_sink_response r ∷ build_sink_resp_results rs

-- `SinkRequest`: the request, `status.eot` and `handshake.sot`
pub record SinkRequest (pb : Protobuf) : Type 0 where
  pub keys : List Str
  pub value : Bytes
  pub event_time : pb.Timestamp
  pub watermark : pb.Timestamp
  pub id : Str
  pub headers : Dict Str
  pub eot : Bool
  pub sot : Bool

pub data SinkResponse : Type 0 where
  handshake_response : SinkResponse
  results_response : List SinkResult → SinkResponse
  eot_response : SinkResponse

abbrev pub Handler : Type 0
Handler = BatchHandler Datum (List Response)

-- What the task of a batch sends when it has ended.
unfoldable pub batch_responses : List Response → List SinkResponse
unfolding build_sink_resp_results
batch_responses rspns = results_response (build_sink_resp_results rspns) ∷ eot_response ∷ []

module _ (pb : Protobuf) where
  unfoldable pub datum_from_sink_req : SinkRequest pb → Datum
  datum_from_sink_req d = record {
    keys = d.keys;
    sink_msg_id = d.id;
    value = d.value;
    event_time = pb.to_datetime d.event_time;
    watermark = pb.to_datetime d.watermark;
    headers = d.headers;
  }

  abbrev pub is_eot : SinkRequest pb → Bool
  is_eot d = d.eot

  module _ (container_type : Str) (handler : Handler) where
    unfoldable pub async_error : Exception → List Effect
    unfolding handle_async_error
    async_error err = handle_async_error err (err_udf_exception_string container_type)

    -- The rpc returns at the end of the stream, whether or not a batch is unfinished.
    abbrev pub async_end : Option (Queue Datum) → Rpc SinkResponse
    async_end cur_task = return

    abbrev pub async_server : BatchServer
    async_server = record {
      Req = SinkRequest pb;
      D = Datum;
      R = List Response;
      Resp = SinkResponse;
      eot = is_eot;
      datum = datum_from_sink_req;
      handler = handler;
      responses = batch_responses;
      on_error = async_error;
      at_end = async_end;
    }

    unfoldable pub async_sink_fn : List (SinkRequest pb) → Rpc SinkResponse
    async_sink_fn [] = fail (async_error (stop_iteration (str "StopAsyncIteration")))
    async_sink_fn (req ∷ request_iterator) =
        if req.sot
        then send (handshake_response ∷ []) (batch_loop async_server none request_iterator)
        else fail
            (async_error (record { repr = str "Exception('ReadFn: expected handshake message')" }))

  module _ (handler : Handler) where
    unfoldable pub sync_error : Exception → List Effect
    unfolding exit_on_error
    sync_error err = exit_on_error (str "UDSinkError: " ++ err.repr) false true

    -- `cur_task.join()`: the queue of an unfinished batch gets no end.
    unfoldable pub join_unfinished : Option (Result (List Response)) → Rpc SinkResponse
    unfolding sync_error
    join_unfinished none = block
    join_unfinished (some (ok rspns)) = return
    join_unfinished (some (raised err)) = fail (sync_error err)

    unfoldable pub sync_end : Option (Queue Datum) → Rpc SinkResponse
    unfolding join_unfinished
    sync_end none = return
    sync_end (some req_queue) = join_unfinished (handler (read_iterator req_queue))

    abbrev pub sync_server : BatchServer
    sync_server = record {
      Req = SinkRequest pb;
      D = Datum;
      R = List Response;
      Resp = SinkResponse;
      eot = is_eot;
      datum = datum_from_sink_req;
      handler = handler;
      responses = batch_responses;
      on_error = sync_error;
      at_end = sync_end;
    }

    unfoldable pub sync_sink_fn : List (SinkRequest pb) → Rpc SinkResponse
    sync_sink_fn [] = fail (sync_error (stop_iteration (str "StopIteration")))
    sync_sink_fn (req ∷ request_iterator) =
        if req.sot
        then send (handshake_response ∷ []) (batch_loop sync_server none request_iterator)
        else fail
            (sync_error (record { repr = str "Exception('SinkFn: expected handshake message')" }))
