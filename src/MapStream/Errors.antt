-- ===== src/MapStream/Errors.antt =====
-- The map stream servicer, when the user's generator raises.
use mathlib.Core.List.{Perm, Sublist}
use numaflow_python.Base.{
  ◌≡◌, inl, inr, refl, subst, true, Option, none, some, List, [], ◌∷◌, ◌++◌, map, All, Some,
  Some-weaken,
}
use numaflow_python.Base.Text.{Str}
use numaflow_python.Shared.Server.{Exception, ok, Rpc, failed}
use numaflow_python.Shared.Proto.{Protobuf}
use numaflow_python.Shared.MapProto.{MapRequest, MapResponse, handshake_response, eot_response}
use numaflow_python.Shared.Interleave.{Interleaves, Interleaves-perm, Interleaves-sublist, flatten}
use numaflow_python.Shared.Workers.{WorkerFn, responses}
use numaflow_python.Shared.Workers.Failing.{IsRaised, PutsException, WorkerFn-fails}
use numaflow_python.MapStream.{
  MapStreamCallable, after_messages, stream_responses, invoke_map_stream, async_server, async_error,
}
use numaflow_python.MapStream.Replies.{generated, responses-puts}

-- The end of transmission, if the generator has ended.
abbrev end_of : Str → Option Exception → List MapResponse
end_of id none = eot_response id ∷ []
end_of id (some e) = []

responses-after :
    (id : Str) (o : Option Exception) → responses (after_messages id o ∷ []) ≡ end_of id o
unfolding after_messages
responses-after id none = refl
responses-after id (some e) = refl

stream-IsRaised :
    (out : List MapResponse) (id : Str) (o : Option Exception) (e : Exception)
    → o ≡ some e
    → Some IsRaised (map ok out ++ after_messages id o ∷ [])
unfolding after_messages
stream-IsRaised [] id o e h = rw h (inl (e, refl))
stream-IsRaised (m ∷ out) id o e h = inr (stream-IsRaised out id o e h)

stream-PutsException :
    (out : List MapResponse) (id : Str) (o : Option Exception) (e : Exception)
    → PutsException e (map ok out ++ after_messages id o ∷ [])
    → o ≡ some e
unfolding after_messages
stream-PutsException [] id none e (inl p) = cc
stream-PutsException [] id (some x) e (inl p) = cc
stream-PutsException [] id o e (inr s) = absurd s
stream-PutsException (m ∷ out) id o e (inl p) = cc
stream-PutsException (m ∷ out) id o e (inr s) = stream-PutsException out id o e s

module _ (pb : Protobuf) (handler : MapStreamCallable) where
  -- The generator for the request ends by this exception.
  abbrev pub Throws : Exception → MapRequest pb → Type 0
  Throws e req = (generated pb handler req).error ≡ some e

  -- The responses to a request: each message that its generator yields, with the id of the request, and
  -- the end of transmission for the id, unless it raises.
  abbrev pub answers_to : MapRequest pb → List MapResponse
  answers_to req =
      stream_responses req.id (generated pb handler req).yielded
      ++ end_of req.id (generated pb handler req).error

  answers :
      (reqs : List (MapRequest pb))
      → map responses (map (invoke_map_stream pb handler) reqs) ≡ map answers_to reqs
  unfolding invoke_map_stream
  answers [] = refl
  answers (r ∷ rs) = rw (
    responses-puts (stream_responses r.id (generated pb handler r).yielded) _,
    responses-after r.id (generated pb handler r).error,
    answers rs,
  )

  -- In every schedule of the tasks: after a handshake, if the generator for some request raises, the rpc
  -- fails, by an exception that ends the generator of one of the requests; what it has sent after the
  -- handshake is the beginning of a sequence that holds all messages that the generators yield, each
  -- as often, and those of one request in its generator's order, followed by the end of transmission
  -- only if that generator did not raise.
  pub map_stream_fn_raises :
      (container_type : Str) (req : MapRequest pb) (reqs : List (MapRequest pb))
      (rpc : Rpc MapResponse)
      → req.sot ≡ true
      → Some (λ r. (e : Exception) × Throws e r) reqs
      → WorkerFn (async_server pb handler container_type) (req ∷ reqs) rpc
      → (e : Exception) × Some (Throws e) reqs
        × (ys : List MapResponse) × (rest : List MapResponse) × (rpc ≡ record {
          sent = handshake_response ∷ ys;
          outcome = failed (async_error pb handler container_type e);
        })
        × Perm (ys ++ rest) (flatten (map answers_to reqs))
        × All (λ xs. Sublist xs (ys ++ rest)) (map answers_to reqs)
  unfolding invoke_map_stream
  map_stream_fn_raises container_type req reqs rpc h s f =
      let (e, r, ys, rest, p, i) =
        WorkerFn-fails (async_server pb handler container_type) req reqs rpc refl h
          (Some-weaken (λ r. (e : Exception) × Throws e r)
            (λ r. Some IsRaised (invoke_map_stream pb handler r))
            (λ r w.
              stream-IsRaised (stream_responses r.id (generated pb handler r).yielded) r.id _ w.0
                w.1)
            reqs s)
          f in
      let i' = subst (λ l. Interleaves l (ys ++ rest)) (answers reqs) i in
      (
        e,
        Some-weaken (λ r. PutsException e (invoke_map_stream pb handler r)) (Throws e)
            (λ r w.
              stream-PutsException (stream_responses r.id (generated pb handler r).yielded) r.id _ e
                w)
            reqs r,
        ys,
        rest,
        p,
        Interleaves-perm i',
        Interleaves-sublist i',
      )
