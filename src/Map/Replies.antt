-- ===== src/Map/Replies.antt =====
-- What the map servicers deliver.
use mathlib.Core.List.{Perm}
use numaflow_python.Base.{◌≡◌, ◌≢◌, refl, sym, ap, subst, Bool, true, List, [], ◌∷◌, map, All}
use numaflow_python.Base.Text.{Str}
use numaflow_python.Shared.Server.{Result, ok, raised, Rpc, returned, blocked}
use numaflow_python.Shared.Proto.{Protobuf, Message, datum_of}
use numaflow_python.Shared.MapProto.{MapRequest, MapResponse, handshake_response, results_response}
use numaflow_python.Shared.Interleave.{Interleaves-perm, flatten}
use numaflow_python.Shared.Workers.{WorkerFn, served, responses}
use numaflow_python.Shared.Workers.{IsOk}
use numaflow_python.Shared.Workers.Rpcs.{WorkerFn-delivers}
use numaflow_python.Shared.Workers.SetLoop.{loop_can_hang}
use numaflow_python.Map.{MapCallable, invoke_map, put_result, sync_server, async_server}

module _ (pb : Protobuf) (handler : MapCallable) where
  abbrev messages : Result (List Message) → List Message
  messages (ok msgs) = msgs
  messages (raised e) = []

  -- The response to a request: its id, and what the handler returns for its keys and its datum.
  abbrev pub response_to : MapRequest pb → MapResponse
  response_to req =
      results_response req.id (messages (handler req.payload.keys (datum_of pb req.payload)))

  abbrev pub Returns : MapRequest pb → Type 0
  Returns req = IsOk (handler req.payload.keys (datum_of pb req.payload))

  put_result-ok :
      (id : Str) (r : Result (List Message))
      → IsOk r
      → put_result id r ≡ ok (results_response id (messages r)) ∷ []
  unfolding put_result
  put_result-ok id (ok msgs) h = refl
  put_result-ok id (raised e) h = absurd h

  invoke-IsOk :
      (reqs : List (MapRequest pb))
      → All Returns reqs
      → All (All IsOk) (map (invoke_map pb handler) reqs)
  unfolding invoke_map
  invoke-IsOk [] h = tt
  invoke-IsOk (r ∷ rs) h = (rw (put_result-ok r.id _ h.0) (tt, tt), invoke-IsOk rs h.1)

  flatten-invoke :
      (reqs : List (MapRequest pb))
      → All Returns reqs
      → flatten (map responses (map (invoke_map pb handler) reqs)) ≡ map response_to reqs
  unfolding invoke_map
  flatten-invoke [] h = refl
  flatten-invoke (r ∷ rs) h = rw (put_result-ok r.id _ h.0, flatten-invoke rs h.1)

  -- The synchronous servicer, in every schedule of its threads: after a handshake, if the handler
  -- returns for each request, the rpc returns, and it has sent the handshake and then exactly one
  -- response to each request, in some order.
  pub sync_map_fn_delivers :
      (container_type : Str) (multiproc : Bool) (req : MapRequest pb) (reqs : List (MapRequest pb))
      (rpc : Rpc MapResponse)
      → req.sot ≡ true
      → All Returns reqs
      → WorkerFn (sync_server pb handler container_type multiproc) (req ∷ reqs) rpc
      → (ys : List MapResponse) × (rpc
          ≡ record { sent = handshake_response ∷ ys; outcome = returned })
        × Perm ys (map response_to reqs)
  sync_map_fn_delivers container_type multiproc req reqs rpc h all_ok f =
      let (ys, e, i) =
        WorkerFn-delivers (sync_server pb handler container_type multiproc) req reqs rpc refl h
          (invoke-IsOk reqs all_ok) f in
      (ys, e, subst (Perm ys) (flatten-invoke reqs all_ok) (Interleaves-perm i))

  put_result-ne-nil : (id : Str) (r : Result (List Message)) → put_result id r ≢ []
  unfolding put_result
  put_result-ne-nil id (ok msgs) e = cc
  put_result-ne-nil id (raised x) e = cc

  -- The asynchronous servicer need not return: after a handshake, whatever the requests, if there is one
  -- and the handler returns for each, some schedule of the tasks, with nothing left to do at its end,
  -- sends the handshake and the responses to all requests in their order, and then waits for ever.
  pub async_map_fn_can_hang :
      (container_type : Str) (req r : MapRequest pb) (rs : List (MapRequest pb))
      → req.sot ≡ true
      → All Returns (r ∷ rs)
      → WorkerFn
          (async_server pb handler container_type)
          (req ∷ r ∷ rs)
          (record { sent = handshake_response ∷ map response_to (r ∷ rs); outcome = blocked })
  unfolding invoke_map
  async_map_fn_can_hang container_type req r rs h all_ok =
      served h
        (loop_can_hang (invoke_map pb handler) _ r rs (put_result-ne-nil r.id _)
          (invoke-IsOk (r ∷ rs) all_ok))
        (ap (λ l. record { sent = handshake_response ∷ l; outcome = blocked })
          (sym (flatten-invoke (r ∷ rs) all_ok)))
