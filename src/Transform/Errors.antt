-- ===== src/Transform/Errors.antt =====
-- The source transform servicers, when the user's handler raises.
use mathlib.Core.List.{Perm}
use numaflow_python.Base.{
  ◌≡◌, inl, inr, refl, subst, Bool, true, List, [], ◌∷◌, ◌++◌, map, flat_map, Some, Some-weaken,
}
use numaflow_python.Base.Text.{Str}
use numaflow_python.Shared.Server.{Exception, Result, ok, raised, Effect, Rpc, failed}
use numaflow_python.Shared.Proto.{Protobuf, datum_of}
use numaflow_python.Shared.Interleave.{Interleaves, Interleaves-perm, flatten}
use numaflow_python.Shared.Workers.{WorkerFn, responses}
use numaflow_python.Shared.Workers.Failing.{IsRaised, PutsException, WorkerFn-fails}
use numaflow_python.Transform.{
  Message, TransformCallable, TransformRequest, TransformResponse, handshake_response,
  results_response, results_of, invoke_transform, put_result, async_server, sync_server,
  async_error, sync_error,
}

module _ (pb : Protobuf) where
  abbrev answer : Str → Result (List Message) → List (TransformResponse pb)
  answer id (ok msgs) = results_response id (results_of pb msgs) ∷ []
  answer id (raised e) = []

  responses-put_result :
      (id : Str) (r : Result (List Message)) → responses (put_result pb id r) ≡ answer id r
  unfolding put_result
  responses-put_result id (ok msgs) = refl
  responses-put_result id (raised e) = refl

  put_result-IsRaised :
      (id : Str) (r : Result (List Message)) (e : Exception)
      → r ≡ raised e
      → Some IsRaised (put_result pb id r)
  unfolding put_result
  put_result-IsRaised id r e h = rw h (inl (e, refl))

  put_result-PutsException :
      (id : Str) (r : Result (List Message)) (e : Exception)
      → PutsException e (put_result pb id r)
      → r ≡ raised e
  unfolding put_result
  put_result-PutsException id (ok msgs) e (inl p) = cc
  put_result-PutsException id (ok msgs) e (inr s) = absurd s
  put_result-PutsException id (raised x) e (inl p) = cc
  put_result-PutsException id (raised x) e (inr s) = absurd s

module _ (pb : Protobuf) (handler : TransformCallable) where
  abbrev handled : TransformRequest pb → Result (List Message)
  handled req = handler req.payload.keys (datum_of pb req.payload)

  -- The handler raises this exception on the request.
  abbrev pub Throws : Exception → TransformRequest pb → Type 0
  Throws e req = handled req ≡ raised e

  -- The response to a request on which the handler returns; none if it raises.
  abbrev pub answer_to : TransformRequest pb → List (TransformResponse pb)
  answer_to req = answer pb req.id (handled req)

  flatten-answers :
      (reqs : List (TransformRequest pb))
      → flatten (map responses (map (invoke_transform pb handler) reqs)) ≡ flat_map answer_to reqs
  unfolding invoke_transform
  flatten-answers [] = refl
  flatten-answers (r ∷ rs) = rw (responses-put_result pb r.id (handled r), flatten-answers rs)

  abbrev RaisesOn : List (TransformRequest pb) → Type 0
  RaisesOn reqs = Some (λ r. (e : Exception) × Throws e r) reqs

  invoke_transform-IsRaised :
      (reqs : List (TransformRequest pb))
      → RaisesOn reqs
      → Some (λ r. Some IsRaised (invoke_transform pb handler r)) reqs
  unfolding invoke_transform
  invoke_transform-IsRaised =
      Some-weaken (λ r. (e : Exception) × Throws e r)
        (λ r. Some IsRaised (invoke_transform pb handler r))
        (λ r w. put_result-IsRaised pb r.id (handled r) w.0 w.1)

  -- The rpc has failed after the handshake and some responses, by an exception that the handler raises
  -- on one of the requests; the responses are, in some order and each at most once, to requests on which
  -- the handler returns.
  abbrev pub Failed :
      (Exception → List Effect) → List (TransformRequest pb) → Rpc (TransformResponse pb) → Type 0
  Failed on_error reqs rpc =
      (e : Exception) × Some (Throws e) reqs
      × (ys : List (TransformResponse pb)) × (rest : List (TransformResponse pb)) × (rpc
          ≡ record { sent = handshake_response ∷ ys; outcome = failed (on_error e) })
      × Perm (ys ++ rest) (flat_map answer_to reqs)

  failed_of :
      (on_error : Exception → List Effect) (reqs : List (TransformRequest pb))
      (rpc : Rpc (TransformResponse pb))
      → ((e : Exception) × Some (λ r. PutsException e (invoke_transform pb handler r)) reqs
          × (ys : List (TransformResponse pb)) × (rest : List (TransformResponse pb)) × (rpc
              ≡ record { sent = handshake_response ∷ ys; outcome = failed (on_error e) })
          × Interleaves (map responses (map (invoke_transform pb handler) reqs)) (ys ++ rest))
      → Failed on_error reqs rpc
  unfolding invoke_transform
  failed_of on_error reqs rpc (e, r, ys, rest, p, i) = (
    e,
    Some-weaken (λ r. PutsException e (invoke_transform pb handler r)) (Throws e)
        (λ r w. put_result-PutsException pb r.id (handled r) e w) reqs r,
    ys,
    rest,
    p,
    subst (Perm (ys ++ rest)) (flatten-answers reqs) (Interleaves-perm i),
  )

  -- In every schedule, of the asynchronous and of the synchronous servicer: after a handshake, if the
  -- handler raises on some request, the rpc fails, by an exception that the handler raises on one of
  -- the requests; what it has sent after the handshake are, in some order and each at most once,
  -- responses to requests on which the handler returns.
  pub transform_fn_raises :
      (container_type : Str) (multiproc : Bool) (req : TransformRequest pb)
      (reqs : List (TransformRequest pb)) (rpc : Rpc (TransformResponse pb))
      → req.sot ≡ true
      → RaisesOn reqs
      → (WorkerFn (async_server pb handler container_type) (req ∷ reqs) rpc
          → Failed (async_error pb handler container_type) reqs rpc)
        × (WorkerFn (sync_server pb handler container_type multiproc) (req ∷ reqs) rpc
            → Failed (sync_error pb handler container_type multiproc) reqs rpc)
  transform_fn_raises container_type multiproc req reqs rpc h s = (
    λ f. failed_of (async_error pb handler container_type) reqs rpc (
        WorkerFn-fails (async_server pb handler container_type) req reqs rpc refl h
          (invoke_transform-IsRaised reqs s) f),
    λ f. failed_of (sync_error pb handler container_type multiproc) reqs rpc (
        WorkerFn-fails (sync_server pb handler container_type multiproc) req reqs rpc refl h
          (invoke_transform-IsRaised reqs s) f),
  )
