-- ===== src/Map/Errors.antt =====
-- The synchronous map servicer, when the user's handler raises.
use mathlib.Core.List.{Perm}
use numaflow_python.Base.{
  ◌≡◌, inl, inr, refl, subst, Bool, true, List, [], ◌∷◌, ◌++◌, map, flat_map, Some, Some-weaken,
}
use numaflow_python.Base.Text.{Str}
use numaflow_python.Shared.Server.{Exception, Result, ok, raised, Rpc, failed}
use numaflow_python.Shared.Proto.{Protobuf, Message, datum_of}
use numaflow_python.Shared.MapProto.{MapRequest, MapResponse, handshake_response, results_response}
use numaflow_python.Shared.Interleave.{Interleaves-perm, flatten}
use numaflow_python.Shared.Workers.{WorkerFn, responses}
use numaflow_python.Shared.Workers.Failing.{IsRaised, PutsException, WorkerFn-fails}
use numaflow_python.Map.{MapCallable, invoke_map, put_result, sync_server, sync_error}

abbrev answer : Str → Result (List Message) → List MapResponse
answer id (ok msgs) = results_response id msgs ∷ []
answer id (raised e) = []

responses-put_result :
    (id : Str) (r : Result (List Message)) → responses (put_result id r) ≡ answer id r
unfolding put_result
responses-put_result id (ok msgs) = refl
responses-put_result id (raised e) = refl

put_result-IsRaised :
    (id : Str) (r : Result (List Message)) (e : Exception)
    → r ≡ raised e
    → Some IsRaised (put_result id r)
unfolding put_result
put_result-IsRaised id r e h = rw h (inl (e, refl))

put_result-PutsException :
    (id : Str) (r : Result (List Message)) (e : Exception)
    → PutsException e (put_result id r)
    → r ≡ raised e
unfolding put_result
put_result-PutsException id (ok msgs) e (inl p) = cc
put_result-PutsException id (ok msgs) e (inr s) = absurd s
put_result-PutsException id (raised x) e (inl p) = cc
put_result-PutsException id (raised x) e (inr s) = absurd s

module _ (pb : Protobuf) (handler : MapCallable) where
  abbrev handled : MapRequest pb → Result (List Message)
  handled req = handler req.payload.keys (datum_of pb req.payload)

  -- The handler raises this exception on the request.
  abbrev pub Throws : Exception → MapRequest pb → Type 0
  Throws e req = handled req ≡ raised e

  -- The response to a request on which the handler returns; none if it raises.
  abbrev pub answer_to : MapRequest pb → List MapResponse
  answer_to req = answer req.id (handled req)

  flatten-answers :
      (reqs : List (MapRequest pb))
      → flatten (map responses (map (invoke_map pb handler) reqs)) ≡ flat_map answer_to reqs
  unfolding invoke_map
  flatten-answers [] = refl
  flatten-answers (r ∷ rs) = rw (responses-put_result r.id (handled r), flatten-answers rs)

  -- The synchronous servicer, in every schedule of its threads: after a handshake, if the handler raises on
  -- some request, the rpc fails, by an exception that the handler raises on one of the requests; what
  -- it has sent after the handshake are, in some order and each at most once, responses to requests on
  -- which the handler returns.
  pub sync_map_fn_raises :
      (container_type : Str) (multiproc : Bool) (req : MapRequest pb) (reqs : List (MapRequest pb))
      (rpc : Rpc MapResponse)
      → req.sot ≡ true
      → Some (λ r. (e : Exception) × Throws e r) reqs
      → WorkerFn (sync_server pb handler container_type multiproc) (req ∷ reqs) rpc
      → (e : Exception) × Some (Throws e) reqs
        × (ys : List MapResponse) × (rest : List MapResponse) × (rpc ≡ record {
          sent = handshake_response ∷ ys;
          outcome = failed (sync_error pb handler container_type multiproc e);
        })
        × Perm (ys ++ rest) (flat_map answer_to reqs)
  unfolding invoke_map
  sync_map_fn_raises container_type multiproc req reqs rpc h s f =
      let (e, r, ys, rest, p, i) =
        WorkerFn-fails (sync_server pb handler container_type multiproc) req reqs rpc refl h
          (Some-weaken (λ r. (e : Exception) × Throws e r)
            (λ r. Some IsRaised (invoke_map pb handler r))
            (λ r w. put_result-IsRaised r.id (handled r) w.0 w.1) reqs s)
          f in
      (
        e,
        Some-weaken (λ r. PutsException e (invoke_map pb handler r)) (Throws e)
            (λ r w. put_result-PutsException r.id (handled r) e w) reqs r,
        ys,
        rest,
        p,
        subst (Perm (ys ++ rest)) (flatten-answers reqs) (Interleaves-perm i),
      )
