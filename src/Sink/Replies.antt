-- ===== src/Sink/Replies.antt =====
-- What the sink servicers send, batch by batch, and how the rpc ends.
use mathlib.Core.List.{append-nil}
use numaflow_python.Base.{
  ◌≡◌, refl, Bool, true, false, Option, none, some, List, [], ◌∷◌, ◌++◌, map, All, flat_map,
}
use numaflow_python.Base.Text.{Str, str}
use numaflow_python.Shared.Queue.{read_iterator-items}
use numaflow_python.Shared.Server.{
  stop_iteration, Exception, Result, ok, raised, returned, failed, blocked, fail,
}
use numaflow_python.Shared.Proto.{Protobuf}
use numaflow_python.Shared.Batches.{
  BatchServer, Batch, replies_agree, batch_loop-Succeeds, batch_loop_raises, stream, Succeeds,
  replies, outcome_of,
}
use numaflow_python.Sink.{
  Datum, Response, SinkResult, SinkRequest, SinkResponse, batch_responses, handshake_response,
  results_response, eot_response, Handler, success_status, failure_status, fallback_status,
  datum_from_sink_req, is_eot, build_sink_resp_results, as_success, as_failure, as_fallback,
  async_error, async_server, async_sink_fn, sync_error, sync_end, sync_server, sync_sink_fn,
}

abbrev pub starts_with_handshake : (pb : Protobuf) → List (SinkRequest pb) → Bool
starts_with_handshake pb [] = false
starts_with_handshake pb (r ∷ rs) = r.sot

-- What a handler may report of a message.
pub data Report : Type 0 where
  succeeded : Str → Report
  failed_with : Str → Str → Report
  to_fallback : Str → Report

abbrev pub response_of : Report → Response
response_of (succeeded id) = as_success id
response_of (failed_with id msg) = as_failure id msg
response_of (to_fallback id) = as_fallback id

-- What the platform reads from a result.
abbrev pub report_of : SinkResult → Report
report_of r = elim r.status [
  | success_status ↦ succeeded r.id
  | failure_status ↦ failed_with r.id r.err_msg
  | fallback_status ↦ to_fallback r.id
]

module _ (pb : Protobuf) (container_type : Str) (handler : Handler) where
  abbrev pub async : BatchServer
  async = async_server pb container_type handler

  -- What the handler is to see of a request.
  abbrev pub datum_for : SinkRequest pb → Datum
  datum_for d = record {
    keys = d.keys;
    sink_msg_id = d.id;
    value = d.value;
    event_time = pb.to_datetime d.event_time;
    watermark = pb.to_datetime d.watermark;
    headers = d.headers;
  }

  -- What the platform is to get for a batch: the results, in one response, and an end of transmission.
  abbrev pub answers_of : Option (Result (List Response)) → List SinkResponse
  answers_of (some (ok rspns)) =
      results_response (build_sink_resp_results rspns) ∷ eot_response ∷ []
  answers_of (some (raised e)) = []
  answers_of none = []

  abbrev pub answers : Batch async → List SinkResponse
  answers b = answers_of (handler (record { yielded = map datum_for b.body; ended = true }))

  -- After a handshake, whatever the batches and the unfinished rest: if the handler returns on each
  -- batch, called with exactly the datums of that batch, then the rpc returns, and it has sent the
  -- handshake and, for each batch in order, the results and an end of transmission.
  pub async_sink_fn_serves :
      (req : SinkRequest pb) (bs : List (Batch async)) (tail : List (SinkRequest pb))
      → req.sot ≡ true
      → All (λ d. is_eot pb d ≡ false) tail
      → All (Succeeds async) bs
      → async_sink_fn pb container_type handler (req ∷ stream async bs tail)
        ≡ record { sent = handshake_response ∷ flat_map answers bs; outcome = returned }
  unfolding async_sink_fn datum_from_sink_req batch_responses
  async_sink_fn_serves req bs tail sot rest h = rw (
    sot,
    batch_loop-Succeeds async bs tail rest h,
    append-nil,
    replies_agree async answers_of (λ r. refl) bs h,
  )

  -- If the handler raises on a batch, after batches on which it returned, then the responses of those
  -- have been sent, and the rpc fails with that error; what follows on the stream has no effect.
  pub async_sink_fn_raises :
      (req : SinkRequest pb) (bs cs : List (Batch async)) (b : Batch async)
      (tail : List (SinkRequest pb)) (err : Exception)
      → req.sot ≡ true
      → All (λ d. is_eot pb d ≡ false) tail
      → All (Succeeds async) bs
      → outcome_of async b ≡ some (raised err)
      → async_sink_fn pb container_type handler (req ∷ stream async (bs ++ b ∷ cs) tail) ≡ record {
        sent = handshake_response ∷ flat_map (replies async) bs;
        outcome = failed (async_error pb container_type handler err);
      }
  unfolding async_sink_fn
  async_sink_fn_raises req bs cs b tail err sot rest h e =
      rw (sot, batch_loop_raises async bs cs b tail err rest h e)

module _ (pb : Protobuf) (handler : Handler) where
  abbrev pub sync : BatchServer
  sync = sync_server pb handler

  -- A stream that ends inside a batch, after batches on which the handler returned: if the handler
  -- waits for more datums, then the synchronous rpc never returns.
  pub sync_sink_fn_blocks :
      (req d : SinkRequest pb) (bs : List (Batch sync)) (tail : List (SinkRequest pb))
      → req.sot ≡ true
      → All (λ r. is_eot pb r ≡ false) (d ∷ tail)
      → All (Succeeds sync) bs
      → handler (record { yielded = map (datum_from_sink_req pb) (d ∷ tail); ended = false }) ≡ none
      → sync_sink_fn pb handler (req ∷ stream sync bs (d ∷ tail))
        ≡ record { sent = handshake_response ∷ flat_map (replies sync) bs; outcome = blocked }
  unfolding sync_sink_fn sync_end
  sync_sink_fn_blocks req d bs tail sot rest h e =
      rw (sot, batch_loop-Succeeds sync bs (d ∷ tail) rest h)
        (rw ((read_iterator-items (map (datum_from_sink_req pb) (d ∷ tail)) []).1, e, append-nil))

-- What is missing, with the name of the exception at the end of a stream, and of the function.
abbrev pub refusal : {pb : Protobuf} → Str → Str → List (SinkRequest pb) → Exception
refusal stop name [] = stop_iteration stop
refusal stop name (r ∷ rs) = record {
  repr = str "Exception('" ++ (name ++ str ": expected handshake message')");
}

-- Nothing is sent and the rpc fails, in both servicers, when the stream is empty or its first request
-- is no handshake; the error says which it was. The asynchronous one says `ReadFn` for `SinkFn`.
pub sink_fn_needs_handshake :
    (pb : Protobuf) (container_type : Str) (handler : Handler) (reqs : List (SinkRequest pb))
    → starts_with_handshake pb reqs ≡ false
    → (async_sink_fn pb container_type handler reqs
        ≡ fail (
            async_error pb container_type handler
              (refusal (str "StopAsyncIteration") (str "ReadFn") reqs)))
      × (sync_sink_fn pb handler reqs
          ≡ fail (sync_error pb handler (refusal (str "StopIteration") (str "SinkFn") reqs)))
unfolding async_sink_fn sync_sink_fn
sink_fn_needs_handshake pb container_type handler [] h = (refl, refl)
sink_fn_needs_handshake pb container_type handler (r ∷ rs) h = (rw h refl, rw h refl)

-- What the handler reports of the messages of a batch, by the constructors of `Response`, is what the
-- platform reads from the results: ids, order, outcome and the message of a failure.
pub report_of-build_sink_resp_results :
    (reports : List Report)
    → map report_of (build_sink_resp_results (map response_of reports)) ≡ reports
unfolding build_sink_resp_results as_success as_failure as_fallback
report_of-build_sink_resp_results [] = refl
report_of-build_sink_resp_results (succeeded id ∷ rs) = rw (report_of-build_sink_resp_results rs)
report_of-build_sink_resp_results (failed_with id msg ∷ rs) =
    rw (report_of-build_sink_resp_results rs)
report_of-build_sink_resp_results (to_fallback id ∷ rs) = rw (report_of-build_sink_resp_results rs)
