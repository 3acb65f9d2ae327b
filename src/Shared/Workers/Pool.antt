-- ===== src/Shared/Workers/Pool.antt =====
-- A servicer object whose pool of threads is made in `__init__` and shut down at the end of an rpc, as in
-- sourcetransformer/servicer/_servicer.py. On a pool that is shut down `submit` raises; the exception ends
-- the reader of the requests, is logged, and the queue of results gets no end.
use numaflow_python.Base.{◌≡◌, refl, ◌∙◌, ap, true, false, List, [], ◌∷◌}
use numaflow_python.Shared.Queue.{Queue, stream_eof}
use numaflow_python.Shared.Server.{Result, Rpc, blocked, send, fail}
use numaflow_python.Shared.Workers.{WorkerServer, WorkerFn, consume}
use numaflow_python.Shared.Workers.Consuming.{consume-nil}

pub data Pool : Type 0 where
  open_pool shut_pool : Pool

-- `_process_requests` with a pool that is shut down: without a request, nothing is submitted.
unfoldable pub process_when_shut : {Req Out : Type 0} → List Req → Queue (Result Out)
process_when_shut [] = stream_eof ∷ []
process_when_shut (r ∷ rs) = []

-- One rpc on the servicer object, from the state of its pool to the next. After a failed rpc there is no
-- next one: the process ends.
pub data PoolFn (server : WorkerServer)
    : Pool → List (server.Req) → Rpc (server.Out) → Pool → Type 0 where
  first_rpc :
      {reqs : List (server.Req)} {rpc : Rpc (server.Out)}
      → WorkerFn server reqs rpc
      → PoolFn server open_pool reqs rpc shut_pool
  later_empty :
      {rpc : Rpc (server.Out)}
      → rpc ≡ fail (server.on_error server.no_request)
      → PoolFn server shut_pool [] rpc shut_pool
  later_refused :
      {req : server.Req} {reqs : List (server.Req)} {rpc : Rpc (server.Out)}
      → server.sot req ≡ false
      → rpc ≡ fail (server.on_error server.no_handshake)
      → PoolFn server shut_pool (req ∷ reqs) rpc shut_pool
  later_rpc :
      {req : server.Req} {reqs : List (server.Req)} {rpc : Rpc (server.Out)}
      → server.sot req ≡ true
      → rpc ≡ send (server.handshake ∷ []) (consume server.on_error (process_when_shut reqs))
      → PoolFn server shut_pool (req ∷ reqs) rpc shut_pool

module _ (server : WorkerServer) where
  open server use {Req, Out, sot, handshake}

  pub PoolFn-first :
      {reqs : List Req} {rpc : Rpc Out} {after : Pool}
      → PoolFn server open_pool reqs rpc after
      → WorkerFn server reqs rpc
  PoolFn-first (first_rpc f) = f

  -- After an rpc the pool is shut down.
  pub PoolFn-shut :
      {before after : Pool} {reqs : List Req} {rpc : Rpc Out}
      → PoolFn server before reqs rpc after
      → after ≡ shut_pool
  PoolFn-shut (first_rpc f) = refl
  PoolFn-shut (later_empty e) = refl
  PoolFn-shut (later_refused n e) = refl
  PoolFn-shut (later_rpc h e) = refl

  -- A later rpc with a handshake and a request is answered by the handshake alone, and waits for ever.
  pub PoolFn-later :
      {req r : Req} {rs : List Req} {rpc : Rpc Out} {after : Pool}
      → sot req ≡ true
      → PoolFn server shut_pool (req ∷ r ∷ rs) rpc after
      → rpc ≡ record { sent = handshake ∷ []; outcome = blocked }
  unfolding process_when_shut
  PoolFn-later h (later_refused n e) = cc
  PoolFn-later h (later_rpc _ e) = e ∙ ap (send (handshake ∷ [])) (consume-nil server.on_error)
