-- ===== src/BatchMap/Replies.antt =====
-- What the batch map servicer sends.
use mathlib.Core.List.{append-nil}
use numaflow_python.Base.{
  ◌≡◌, refl, true, false, Option, none, some, List, [], ◌∷◌, ◌++◌, map, All, flat_map,
}
use numaflow_python.Base.Text.{Str}
use numaflow_python.Shared.Server.{Exception, Result, ok, raised, returned, failed}
use numaflow_python.Shared.Proto.{Protobuf}
use numaflow_python.Shared.MapProto.{
  MapRequest, MapResponse, handshake_response, results_response, eot_response,
}
use numaflow_python.Shared.Batches.{
  BatchHandler, BatchServer, Batch, stream, Succeeds, replies, outcome_of, batch_loop-Succeeds,
  batch_loop_raises, replies_agree,
}
use numaflow_python.BatchMap.{
  Datum, BatchResponse, batch_error, batch_server, map_fn, batch_responses, datum_of_request,
}

-- The responses for a batch are those of the handler, with their ids and messages, in order, and then
-- one end of transmission.
pub batch_responses_exact :
    (rs : List BatchResponse)
    → batch_responses rs ≡ map (λ r. results_response r.id r.messages) rs ++ eot_response [] ∷ []
unfolding batch_responses
batch_responses_exact [] = refl
batch_responses_exact (r ∷ rs) = rw (batch_responses_exact rs)

module _ (pb : Protobuf) (container_type : Str)
    (handler : BatchHandler Datum (List BatchResponse)) where
  abbrev pub server : BatchServer
  server = batch_server pb container_type handler

  -- What the handler is to see of a request.
  abbrev pub datum_for : MapRequest pb → Datum
  datum_for d = record {
    keys = d.payload.keys;
    value = d.payload.value;
    event_time = pb.to_datetime d.payload.event_time;
    watermark = pb.to_datetime d.payload.watermark;
    headers = d.payload.headers;
    id = d.id;
  }

  -- What the platform is to get for a batch: a response for each result, with its id and messages, and
  -- an end of transmission.
  abbrev pub answers_of : Option (Result (List BatchResponse)) → List MapResponse
  answers_of (some (ok rs)) = map (λ r. results_response r.id r.messages) rs ++ eot_response [] ∷ []
  answers_of (some (raised e)) = []
  answers_of none = []

  abbrev pub answers : Batch server → List MapResponse
  answers b = answers_of (handler (record { yielded = map datum_for b.body; ended = true }))

  -- After a handshake, whatever the batches and the unfinished rest: if the handler returns on each
  -- batch, called with exactly the datums of that batch, then the rpc returns, and it has sent the
  -- handshake and, for each batch in order, the responses and an end of transmission.
  pub map_fn_serves :
      (req : MapRequest pb) (bs : List (Batch server)) (tail : List (MapRequest pb))
      → req.sot ≡ true
      → All (λ d. d.eot ≡ false) tail
      → All (Succeeds server) bs
      → map_fn pb container_type handler (req ∷ stream server bs tail)
        ≡ record { sent = handshake_response ∷ flat_map answers bs; outcome = returned }
  unfolding map_fn datum_of_request
  map_fn_serves req bs tail sot rest h = rw (
    sot,
    batch_loop-Succeeds server bs tail rest h,
    append-nil,
    replies_agree server answers_of batch_responses_exact bs h,
  )

  -- If the handler raises on a batch, after batches on which it returned, then the responses of those
  -- have been sent, and the rpc fails with that error; what follows on the stream has no effect.
  pub map_fn_raises :
      (req : MapRequest pb) (bs cs : List (Batch server)) (b : Batch server)
      (tail : List (MapRequest pb)) (err : Exception)
      → req.sot ≡ true
      → All (λ d. d.eot ≡ false) tail
      → All (Succeeds server) bs
      → outcome_of server b ≡ some (raised err)
      → map_fn pb container_type handler (req ∷ stream server (bs ++ b ∷ cs) tail) ≡ record {
        sent = handshake_response ∷ flat_map (replies server) bs;
        outcome = failed (batch_error pb container_type handler err);
      }
  unfolding map_fn
  map_fn_raises req bs cs b tail err sot rest h e =
      rw (sot, batch_loop_raises server bs cs b tail err rest h e)
