-- ===== src/Tests/WorkerErrorTests.antt =====
-- The mapper, the map streamer and the source transformer, when a handler raises.
use mathlib.Core.List.{Perm, Sublist}
use numaflow_python.Base.{
  ◌≡◌, inl, refl, true, false, some, List, [], ◌∷◌, ◌++◌, map, flat_map, All, Some,
}
use numaflow_python.Base.Text.{str}
use numaflow_python.Shared.Queue.{item, stream_eof, read_iterator}
use numaflow_python.Shared.Server.{Exception, Result, ok, raised, Effect, Rpc, failed}
use numaflow_python.Shared.MapProto.{MapResponse, handshake_response, results_response}
use numaflow_python.Shared.Interleave.{flatten}
use numaflow_python.Shared.Workers.{gather, consume, Serves, served}
use numaflow_python.Map
use numaflow_python.Map.{MapCallable}
use numaflow_python.Map.Errors.{sync_map_fn_raises}
use numaflow_python.MapStream
use numaflow_python.MapStream.{MapStreamCallable}
use numaflow_python.MapStream.Errors.{map_stream_fn_raises, answers_to}
use numaflow_python.Tests.Fixtures.{pb, note}
use numaflow_python.Tests.WorkerTests.{request, ended, ended_rests, one-Run, two-Run}

abbrev boom : Exception
boom = record { repr = str "ValueError('boom')" }

module _ {Req Out : Type 0} (invoke : Req → List (Result Out)) where
  raises-Serves :
      (on_error : Exception → List Effect) (r : Req)
      → invoke r ≡ raised boom ∷ []
      → Serves invoke gather on_error
          (r ∷ [])
          (record { sent = []; outcome = failed (on_error boom) })
  unfolding consume read_iterator
  raises-Serves on_error r e = record {
    final = ended invoke (item (raised boom) ∷ stream_eof ∷ []);
    run = one-Run invoke r (raised boom) e;
    at_rest = ended_rests invoke _;
    consumed = refl;
  }

  sends_then_raises-Serves :
      (on_error : Exception → List Effect) (r : Req) (x : Out)
      → invoke r ≡ ok x ∷ raised boom ∷ []
      → Serves invoke gather on_error
          (r ∷ [])
          (record { sent = x ∷ []; outcome = failed (on_error boom) })
  unfolding consume read_iterator
  sends_then_raises-Serves on_error r x e = record {
    final = ended invoke (item (ok x) ∷ item (raised boom) ∷ stream_eof ∷ []);
    run = two-Run invoke r (ok x) (raised boom) e;
    at_rest = ended_rests invoke _;
    consumed = refl;
  }

abbrev fail_map : MapCallable
fail_map keys datum = raised boom

abbrev map_failed : Rpc MapResponse
map_failed = record {
  sent = handshake_response ∷ [];
  outcome = failed (Map.sync_error pb fail_map (str "udf") false boom);
}

sync_map_fn_raises_example :
    (e : Exception) × Some (Map.Errors.Throws pb fail_map e) (request false ∷ [])
    × (ys : List MapResponse) × (rest : List MapResponse) × (map_failed ≡ record {
      sent = handshake_response ∷ ys;
      outcome = failed (Map.sync_error pb fail_map (str "udf") false e);
    })
    × Perm (ys ++ rest) (flat_map (Map.Errors.answer_to pb fail_map) (request false ∷ []))
unfolding Map.invoke_map
sync_map_fn_raises_example =
    sync_map_fn_raises pb fail_map (str "udf") false (request true) (request false ∷ []) map_failed
      refl (inl (boom, refl))
      (served refl (raises-Serves (Map.invoke_map pb fail_map) _ (request false) refl) refl)

abbrev fail_stream : MapStreamCallable
fail_stream keys datum = record { yielded = note ∷ []; error = some boom }

abbrev stream_failed : Rpc MapResponse
stream_failed = record {
  sent = handshake_response ∷ results_response (str "i") (note ∷ []) ∷ [];
  outcome = failed (MapStream.async_error pb fail_stream (str "udf") boom);
}

map_stream_fn_raises_example :
    (e : Exception) × Some (MapStream.Errors.Throws pb fail_stream e) (request false ∷ [])
    × (ys : List MapResponse) × (rest : List MapResponse) × (stream_failed ≡ record {
      sent = handshake_response ∷ ys;
      outcome = failed (MapStream.async_error pb fail_stream (str "udf") e);
    })
    × Perm (ys ++ rest) (flatten (map (answers_to pb fail_stream) (request false ∷ [])))
    × All (λ xs. Sublist xs (ys ++ rest)) (map (answers_to pb fail_stream) (request false ∷ []))
unfolding MapStream.invoke_map_stream
map_stream_fn_raises_example =
    map_stream_fn_raises pb fail_stream (str "udf") (request true) (request false ∷ [])
      stream_failed refl (inl (boom, refl))
      (served refl
        (sends_then_raises-Serves (MapStream.invoke_map_stream pb fail_stream) _ (request false) _
          refl)
        refl)
