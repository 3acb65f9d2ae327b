-- ===== src/MapStream/Replies.antt =====
-- What the map stream servicer delivers.
use mathlib.Core.List.{Perm, Sublist}
use numaflow_python.Base.{◌≡◌, refl, ap, subst, true, none, List, [], ◌∷◌, ◌++◌, map, All}
use numaflow_python.Base.Text.{Str}
use numaflow_python.Shared.Server.{Result, ok, Rpc, returned}
use numaflow_python.Shared.Proto.{Protobuf, datum_of}
use numaflow_python.Shared.MapProto.{MapRequest, MapResponse, handshake_response, eot_response}
use numaflow_python.Shared.Interleave.{Interleaves, Interleaves-perm, Interleaves-sublist, flatten}
use numaflow_python.Shared.Workers.{WorkerFn, responses}
use numaflow_python.Shared.Workers.{IsOk}
use numaflow_python.Shared.Workers.Rpcs.{WorkerFn-delivers}
use numaflow_python.MapStream.{
  MapStreamCallable, Generated, after_messages, stream_responses, invoke_map_stream, async_server,
}

pub responses-puts :
    (out : List MapResponse) (x : Result MapResponse)
    → responses (map ok out ++ x ∷ []) ≡ out ++ responses (x ∷ [])
responses-puts [] x = refl
responses-puts (o ∷ out) x = ap (λ l. o ∷ l) (responses-puts out x)

puts-IsOk : (out : List MapResponse) (id : Str) → All IsOk (map ok out ++ ok (eot_response id) ∷ [])
puts-IsOk [] id = (tt, tt)
puts-IsOk (o ∷ out) id = (tt, puts-IsOk out id)

module _ (pb : Protobuf) (handler : MapStreamCallable) where
  -- What the generator makes of a request.
  abbrev pub generated : MapRequest pb → Generated
  generated req = handler req.payload.keys (datum_of pb req.payload)

  -- The responses to a request: each message of the generator with the id of the request, and then the
  -- end of transmission for the id.
  abbrev pub responses_to : MapRequest pb → List MapResponse
  responses_to req = stream_responses req.id (generated req).yielded ++ eot_response req.id ∷ []

  abbrev pub Returns : MapRequest pb → Type 0
  Returns req = (generated req).error ≡ none

  invoke-IsOk :
      (reqs : List (MapRequest pb))
      → All Returns reqs
      → All (All IsOk) (map (invoke_map_stream pb handler) reqs)
  unfolding invoke_map_stream
  invoke-IsOk [] h = tt
  invoke-IsOk (r ∷ rs) h = (rw (h.0, after_messages) (puts-IsOk _ r.id), invoke-IsOk rs h.1)

  responses-invoke :
      (reqs : List (MapRequest pb))
      → All Returns reqs
      → map responses (map (invoke_map_stream pb handler) reqs) ≡ map responses_to reqs
  unfolding invoke_map_stream
  responses-invoke [] h = refl
  responses-invoke (r ∷ rs) h = rw (
    responses-puts (stream_responses r.id (generated r).yielded) _,
    h.0,
    after_messages,
    responses-invoke rs h.1,
  )

  -- In every schedule of the tasks: after a handshake, if no generator raises, the rpc returns; what it
  -- has sent after the handshake holds the responses to all requests, each as often, and those to one
  -- request in the order of its generator, with the end of transmission for the id last.
  pub map_stream_fn_delivers :
      (container_type : Str) (req : MapRequest pb) (reqs : List (MapRequest pb))
      (rpc : Rpc MapResponse)
      → req.sot ≡ true
      → All Returns reqs
      → WorkerFn (async_server pb handler container_type) (req ∷ reqs) rpc
      → (ys : List MapResponse) × (rpc
          ≡ record { sent = handshake_response ∷ ys; outcome = returned })
        × Perm ys (flatten (map responses_to reqs))
        × All (λ xs. Sublist xs ys) (map responses_to reqs)
  map_stream_fn_delivers container_type req reqs rpc h all_ok f =
      let (ys, e, i) =
        WorkerFn-delivers (async_server pb handler container_type) req reqs rpc refl h
          (invoke-IsOk reqs all_ok) f in
      let i' = subst (λ l. Interleaves l ys) (responses-invoke reqs all_ok) i in
      (ys, e, Interleaves-perm i', Interleaves-sublist i')
