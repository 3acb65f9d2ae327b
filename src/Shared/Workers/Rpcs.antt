-- ===== src/Shared/Workers/Rpcs.antt =====
-- The rpc of a servicer with one task for each request, from the handshake to its end.
use numaflow_python.Base.{◌≡◌, subst, true, List, ◌∷◌, map, All}
use numaflow_python.Shared.Server.{Result, Rpc, returned}
use numaflow_python.Shared.Interleave.{Interleaves}
use numaflow_python.Shared.Workers.{
  gather, Serves, responses, before_error, ending, WorkerServer, WorkerFn, refused, served,
}
use numaflow_python.Shared.Workers.{IsOk}
use numaflow_python.Shared.Workers.Serving.{gather-Serves, gather_delivers}

module _ (server : WorkerServer) where
  open server use {Req, Out, sot, handshake, invoke, waiting, on_error}

  -- After a handshake, with tasks that put no exception: the rpc returns, and has sent the handshake
  -- and then an interleaving of the responses to the requests.
  pub WorkerFn-delivers :
      (req : Req) (reqs : List Req) (rpc : Rpc Out)
      → waiting ≡ gather
      → sot req ≡ true
      → All (All IsOk) (map invoke reqs)
      → WorkerFn server (req ∷ reqs) rpc
      → (ys : List Out) × (rpc ≡ record { sent = handshake ∷ ys; outcome = returned })
        × Interleaves (map responses (map invoke reqs)) ys
  WorkerFn-delivers req reqs rpc g h all_ok (refused n e) = cc
  WorkerFn-delivers req reqs rpc g h all_ok (served {rest = rest} _ s e) =
      let (i, q) =
        gather_delivers invoke on_error reqs rest all_ok
          (subst (λ w. Serves invoke w on_error reqs rest) g s) in
      (rest.sent, cc, i)

  -- After a handshake, if the tasks put exceptions: the client gets the responses before the first one
  -- in some interleaving of what the tasks put, and the rpc ends by that exception.
  pub WorkerFn-ends :
      (req : Req) (reqs : List Req) (rpc : Rpc Out)
      → waiting ≡ gather
      → sot req ≡ true
      → WorkerFn server (req ∷ reqs) rpc
      → (zs : List (Result Out)) × Interleaves (map invoke reqs) zs
        × (rpc ≡ record { sent = handshake ∷ before_error zs; outcome = ending on_error zs })
  WorkerFn-ends req reqs rpc g h (refused n e) = cc
  WorkerFn-ends req reqs rpc g h (served {rest = rest} _ s e) =
      let (zs, i, p) =
        gather-Serves invoke on_error reqs rest
          (subst (λ w. Serves invoke w on_error reqs rest) g s) in
      (zs, i, cc)
