-- ===== src/Transform/Replies.antt =====
-- What the source transform servicers deliver.
use mathlib.Core.List.{Perm}
use numaflow_python.Base.{◌≡◌, refl, subst, Bool, true, List, [], ◌∷◌, map, All}
use numaflow_python.Base.Text.{Str}
use numaflow_python.Shared.Server.{Result, ok, raised, Rpc, returned, blocked}
use numaflow_python.Shared.Proto.{Protobuf, datum_of}
use numaflow_python.Shared.Interleave.{Interleaves-perm, flatten}
use numaflow_python.Shared.Workers.{WorkerFn, responses}
use numaflow_python.Shared.Workers.{IsOk}
use numaflow_python.Shared.Workers.Pool.{
  Pool, open_pool, PoolFn, PoolFn-first, PoolFn-later, PoolFn-shut,
}
use numaflow_python.Shared.Workers.Rpcs.{WorkerFn-delivers}
use numaflow_python.Transform.{
  Message, TransformCallable, TransformRequest, TransformResponse, handshake_response,
  results_response, TransformResult, results_of, invoke_transform, put_result, async_server,
  sync_server,
}

module _ (pb : Protobuf) (handler : TransformCallable) where
  abbrev messages : Result (List Message) → List Message
  messages (ok msgs) = msgs
  messages (raised e) = []

  -- The result that a message stands for, with the message's own event time.
  abbrev pub result_of : Message → TransformResult pb
  result_of msg = record {
    keys = msg.keys;
    value = msg.value;
    tags = msg.tags;
    event_time = pb.from_datetime msg.event_time;
  }

  results_of-map : (msgs : List Message) → results_of pb msgs ≡ map result_of msgs
  unfolding results_of
  results_of-map [] = refl
  results_of-map (msg ∷ msgs) = rw (results_of-map msgs)

  -- The response to a request: its id, and the results for all messages of the handler, in order.
  abbrev pub response_to : TransformRequest pb → TransformResponse pb
  response_to req =
      results_response req.id
        (map result_of (messages (handler req.payload.keys (datum_of pb req.payload))))

  abbrev pub Returns : TransformRequest pb → Type 0
  Returns req = IsOk (handler req.payload.keys (datum_of pb req.payload))

  put_result-ok :
      (id : Str) (r : Result (List Message))
      → IsOk r
      → put_result pb id r ≡ ok (results_response id (map result_of (messages r))) ∷ []
  unfolding put_result
  put_result-ok id (ok msgs) h = rw (results_of-map msgs)
  put_result-ok id (raised e) h = absurd h

  invoke-IsOk :
      (reqs : List (TransformRequest pb))
      → All Returns reqs
      → All (All IsOk) (map (invoke_transform pb handler) reqs)
  unfolding invoke_transform
  invoke-IsOk [] h = tt
  invoke-IsOk (r ∷ rs) h = (rw (put_result-ok r.id _ h.0) (tt, tt), invoke-IsOk rs h.1)

  flatten-invoke :
      (reqs : List (TransformRequest pb))
      → All Returns reqs
      → flatten (map responses (map (invoke_transform pb handler) reqs)) ≡ map response_to reqs
  unfolding invoke_transform
  flatten-invoke [] h = refl
  flatten-invoke (r ∷ rs) h = rw (put_result-ok r.id _ h.0, flatten-invoke rs h.1)

  -- The rpc has returned, after the handshake and one response to each request, in some order.
  abbrev pub Delivered : List (TransformRequest pb) → Rpc (TransformResponse pb) → Type 0
  Delivered reqs rpc =
      (ys : List (TransformResponse pb)) × (rpc
        ≡ record { sent = handshake_response ∷ ys; outcome = returned })
      × Perm ys (map response_to reqs)

  -- In every schedule, for any rpc of the asynchronous servicer and for the first rpc on an object of the
  -- synchronous one: after a handshake, if the handler returns for each request, the rpc returns, and it
  -- has sent the handshake and then exactly one response to each request, in some order; and the
  -- synchronous object has then shut its pool down, so that a later rpc on it with a handshake and at
  -- least one request sends the handshake and waits for ever.
  pub transform_fn_delivers :
      (container_type : Str) (multiproc : Bool) (req : TransformRequest pb)
      (reqs : List (TransformRequest pb)) (rpc : Rpc (TransformResponse pb))
      → req.sot ≡ true
      → All Returns reqs
      → (WorkerFn (async_server pb handler container_type) (req ∷ reqs) rpc → Delivered reqs rpc)
        × ((after : Pool)
            → PoolFn
                (sync_server pb handler container_type multiproc)
                open_pool
                (req ∷ reqs)
                rpc
                after
            → Delivered reqs rpc
              × ((r : TransformRequest pb) (rs : List (TransformRequest pb))
                    (later : Rpc (TransformResponse pb)) (last : Pool)
                  → PoolFn
                      (sync_server pb handler container_type multiproc)
                      after
                      (req ∷ r ∷ rs)
                      later
                      last
                  → later ≡ record { sent = handshake_response ∷ []; outcome = blocked }))
  transform_fn_delivers container_type multiproc req reqs rpc h all_ok = (
    λ f.
        let (ys, e, i) =
          WorkerFn-delivers (async_server pb handler container_type) req reqs rpc refl h
            (invoke-IsOk reqs all_ok) f in
        (ys, e, subst (Perm ys) (flatten-invoke reqs all_ok) (Interleaves-perm i)),
    λ after f.
        let (ys, e, i) =
          WorkerFn-delivers (sync_server pb handler container_type multiproc) req reqs rpc refl h
            (invoke-IsOk reqs all_ok)
            (PoolFn-first (sync_server pb handler container_type multiproc) f) in
        (
          (ys, e, subst (Perm ys) (flatten-invoke reqs all_ok) (Interleaves-perm i)),
          λ r rs later last g. PoolFn-later (sync_server pb handler container_type multiproc) h (
              subst
                (λ p.
                  PoolFn (sync_server pb handler container_type multiproc) p (req ∷ r ∷ rs) later
                    last)
                (PoolFn-shut (sync_server pb handler container_type multiproc) f) g),
        ),
  )
