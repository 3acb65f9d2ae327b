-- ===== src/Tests/WorkerTests.antt =====
-- The mapper, the map streamer and the source transformer.
use mathlib.Core.List.{Perm, Sublist}
use numaflow_python.Base.{◌≡◌, refl, Bool, true, false, none, List, [], ◌∷◌, ◌++◌, map, All}
use numaflow_python.Base.Text.{str}
use numaflow_python.Shared.Queue.{Queue, item, stream_eof, put, read_iterator}
use numaflow_python.Shared.Server.{Exception, Result, ok, Effect, Rpc, returned, blocked}
use numaflow_python.Shared.MapProto.{
  MapRequest, MapResponse, handshake_response, results_response, eot_response,
}
use numaflow_python.Shared.Interleave.{flatten}
use numaflow_python.Shared.Workers.{
  gather, State, start, active, closed, Step, read, emit, discard, close, crash, Run, stop, step,
  consume, Serves, WorkerFn, served,
}
use numaflow_python.Shared.Workers.Pool.{Pool, shut_pool, PoolFn, first_rpc}
use numaflow_python.Map
use numaflow_python.Map.{MapCallable}
use numaflow_python.Map.Replies
use numaflow_python.Map.Replies.{sync_map_fn_delivers, async_map_fn_can_hang}
use numaflow_python.MapStream
use numaflow_python.MapStream.{MapStreamCallable}
use numaflow_python.MapStream.Replies.{map_stream_fn_delivers, responses_to}
use numaflow_python.Transform
use numaflow_python.Transform.Replies.{transform_fn_delivers, Delivered}
use numaflow_python.Tests.Fixtures.{pb, payload, note}

abbrev pub request : Bool → MapRequest pb
request sot = record { payload = payload []; id = str "i"; eot = false; sot = sot }

abbrev echo : MapCallable
echo keys datum = ok (note ∷ [])

middle-ne-nil : {A : Type 0} (us : List A) (x : A) (vs : List A) → ¬ ([] ≡ us ++ x ∷ vs)
middle-ne-nil [] x vs e = cc
middle-ne-nil (u ∷ us) x vs e = cc

module _ {Req Out : Type 0} (invoke : Req → List (Result Out)) where
  abbrev pub ended : Queue (Result Out) → State Req Out
  ended q = record { requests = []; running = []; queue = q; phase = closed }

  pub ended_rests :
      (q : Queue (Result Out)) → ¬ ((t : State Req Out) × Step invoke gather (ended q) t)
  ended_rests q (t, read r rs a e u) = cc
  ended_rests q (t, emit us x xs vs e u) = middle-ne-nil us (x ∷ xs) vs e
  ended_rests q (t, discard us vs e u) = middle-ne-nil us [] vs e
  ended_rests q (t, close a e c u) = cc
  ended_rests q (t, crash a e w n u) = cc

  abbrev put_of : List (Result Out) → List (Result Out) → State Req Out
  put_of done rest = record {
    requests = [];
    running = rest ∷ [];
    queue = map item done;
    phase = active;
  }

  -- The schedules of one request whose task puts one or two items.
  pub one-Run :
      (r : Req) (x : Result Out)
      → invoke r ≡ x ∷ []
      → Run invoke gather (start (r ∷ [])) (ended (item x ∷ stream_eof ∷ []))
  unfolding put
  one-Run r x e = step {t = put_of [] (x ∷ [])} (read r [] refl refl (rw e)) (
      step {t = put_of (x ∷ []) []} (emit [] x [] [] refl refl)
        (step (discard [] [] refl refl) (step (close refl refl refl refl) stop)))

  pub two-Run :
      (r : Req) (x y : Result Out)
      → invoke r ≡ x ∷ y ∷ []
      → Run invoke gather (start (r ∷ [])) (ended (item x ∷ item y ∷ stream_eof ∷ []))
  unfolding put
  two-Run r x y e = step {t = put_of [] (x ∷ y ∷ [])} (read r [] refl refl (rw e)) (
      step {t = put_of (x ∷ []) (y ∷ [])} (emit [] x (y ∷ []) [] refl refl) (
        step {t = put_of (x ∷ y ∷ []) []} (emit [] y [] [] refl refl)
          (step (discard [] [] refl refl) (step (close refl refl refl refl) stop))))

  one-Serves :
      (on_error : Exception → List Effect) (r : Req) (x : Out)
      → invoke r ≡ ok x ∷ []
      → Serves invoke gather on_error (r ∷ []) (record { sent = x ∷ []; outcome = returned })
  unfolding consume read_iterator
  one-Serves on_error r x e = record {
    final = ended (item (ok x) ∷ stream_eof ∷ []);
    run = one-Run r (ok x) e;
    at_rest = ended_rests _;
    consumed = refl;
  }

  two-Serves :
      (on_error : Exception → List Effect) (r : Req) (x y : Out)
      → invoke r ≡ ok x ∷ ok y ∷ []
      → Serves invoke gather on_error (r ∷ []) (record { sent = x ∷ y ∷ []; outcome = returned })
  unfolding consume read_iterator
  two-Serves on_error r x y e = record {
    final = ended (item (ok x) ∷ item (ok y) ∷ stream_eof ∷ []);
    run = two-Run r (ok x) (ok y) e;
    at_rest = ended_rests _;
    consumed = refl;
  }

abbrev mapped : Rpc MapResponse
mapped = record {
  sent = handshake_response ∷ results_response (str "i") (note ∷ []) ∷ [];
  outcome = returned;
}

sync_map_fn_delivers_example :
    (ys : List MapResponse) × (mapped
      ≡ record { sent = handshake_response ∷ ys; outcome = returned })
    × Perm ys (map (Map.Replies.response_to pb echo) (request false ∷ []))
unfolding Map.invoke_map
sync_map_fn_delivers_example =
    sync_map_fn_delivers pb echo (str "udf") false (request true) (request false ∷ []) mapped refl
      (tt, tt) (served refl (one-Serves (Map.invoke_map pb echo) _ (request false) _ refl) refl)

async_map_fn_can_hang_example :
    WorkerFn (Map.async_server pb echo (str "udf")) (request true ∷ request false ∷ []) (record {
      sent = handshake_response ∷ results_response (str "i") (note ∷ []) ∷ [];
      outcome = blocked;
    })
async_map_fn_can_hang_example =
    async_map_fn_can_hang pb echo (str "udf") (request true) (request false) [] refl (tt, tt)

abbrev stream_echo : MapStreamCallable
stream_echo keys datum = record { yielded = note ∷ []; error = none }

abbrev streamed : Rpc MapResponse
streamed = record {
  sent = handshake_response ∷ results_response (str "i") (note ∷ []) ∷ eot_response (str "i") ∷ [];
  outcome = returned;
}

map_stream_fn_delivers_example :
    (ys : List MapResponse) × (streamed
      ≡ record { sent = handshake_response ∷ ys; outcome = returned })
    × Perm ys (flatten (map (responses_to pb stream_echo) (request false ∷ [])))
    × All (λ xs. Sublist xs ys) (map (responses_to pb stream_echo) (request false ∷ []))
unfolding MapStream.invoke_map_stream
map_stream_fn_delivers_example =
    map_stream_fn_delivers pb stream_echo (str "udf") (request true) (request false ∷ []) streamed
      refl (refl, tt)
      (served refl
        (two-Serves (MapStream.invoke_map_stream pb stream_echo) _ (request false) _ _ refl) refl)

abbrev stamp : Transform.TransformCallable
stamp keys datum = ok (record { value = []; event_time = 3000; keys = keys; tags = [] } ∷ [])

abbrev pub transform_request : Bool → Transform.TransformRequest pb
transform_request sot = record { payload = payload []; id = str "i"; sot = sot }

abbrev transformed : Rpc (Transform.TransformResponse pb)
transformed = record {
  sent =
      Transform.TransformResponse.handshake_response
      ∷ Transform.TransformResponse.results_response (str "i")
          (record { keys = []; value = []; tags = []; event_time = 3 } ∷ [])
      ∷ [];
  outcome = returned;
}

transform_fn_delivers_example :
    Delivered pb stamp (transform_request false ∷ []) transformed
    × ((r : Transform.TransformRequest pb) (rs : List (Transform.TransformRequest pb))
          (later : Rpc (Transform.TransformResponse pb)) (last : Pool)
        → PoolFn
            (Transform.sync_server pb stamp (str "udf") false)
            shut_pool
            (transform_request true ∷ r ∷ rs)
            later
            last
        → later ≡ record {
          sent = Transform.TransformResponse.handshake_response ∷ [];
          outcome = blocked;
        })
unfolding Transform.invoke_transform
transform_fn_delivers_example =
    (transform_fn_delivers pb stamp (str "udf") false (transform_request true)
        (transform_request false ∷ []) transformed refl (tt, tt)).1
      shut_pool
      (first_rpc (
        served refl
          (one-Serves (Transform.invoke_transform pb stamp) _ (transform_request false) _ refl)
          refl))
