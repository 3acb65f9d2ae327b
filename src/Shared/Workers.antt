-- ===== src/Shared/Workers.antt =====
-- A servicer that starts one task for each request, with one queue for the results of all of them:
-- `_process_inputs` and its consumer in mapper, mapstreamer and sourcetransformer, and
-- `_process_requests` with a pool of threads. The scheduler is a relation: at any time the reader may
-- take the next request, a task may put its next result, and a task that has put all may go.
pub mod Runs
pub mod Progress
pub mod Serving
pub mod SetLoop
pub mod Rpcs
pub mod Failing
pub mod Consuming
pub mod Pool
use numaflow_python.Base.{
  ◌≡◌, ◌≢◌, refl, Bool, true, false, Option, none, some, List, [], ◌∷◌, ◌++◌, map, arith, All,
}
use numaflow_python.Shared.Queue.{Queue, Item, item, stream_eof, put, Read, read_iterator}
use numaflow_python.Shared.Server.{
  Exception, Result, ok, raised, Effect, Rpc, Outcome, returned, failed, blocked, send, return,
  fail, block,
}

-- How the producer waits for its tasks after the last request: for all at once (`asyncio.gather`, or
-- the shutdown of the pool), or by a loop over the set of running tasks.
pub data Waiting : Type 0 where
  gather : Waiting
  loop_over_set : Waiting

-- The producer reads and waits; or it has put the end of the queue; or an exception has ended it,
-- which is logged, and nothing is put.
pub data Phase : Type 0 where
  active : Phase
  closed : Phase
  crashed : Phase

-- `Out` is what the tasks put: a response, or the exception of the handler.
pub record State (Req Out : Type 0) : Type 0 where
  pub requests : List Req
  -- for each task of `background_tasks`, what it has still to put
  pub running : List (List (Result Out))
  pub queue : Queue (Result Out)
  pub phase : Phase

abbrev pub start : {Req Out : Type 0} → List Req → State Req Out
start reqs = record { requests = reqs; running = []; queue = []; phase = active }

abbrev pub IsDone : {Out : Type 0} → List (Result Out) → Type 0
IsDone xs = xs ≡ []

-- When the wait ends well. The loop over the set awaits its tasks in turn. A task that is done is
-- passed at once. At one that is not done the loop is suspended until it is; the done callback
-- `background_tasks.discard` runs before the loop goes on, so the set has another size, and the
-- iterator of the set raises `RuntimeError`: set changed size during iteration.
abbrev pub CanClose : {Out : Type 0} → Waiting → List (List (Result Out)) → Type 0
CanClose gather running = running ≡ []
CanClose loop_over_set running = All IsDone running

module _ {Req Out : Type 0} (invoke : Req → List (Result Out)) (waiting : Waiting) where
  pub data Step : State Req Out → State Req Out → Type 0 where
    -- `asyncio.create_task(self._invoke_map(req, result_queue))`, `executor.submit(...)`
    read :
        {s t : State Req Out} (r : Req) (rs : List Req)
        → s.phase ≡ active
        → s.requests ≡ r ∷ rs
        → t ≡ record s { requests = rs; running = s.running ++ invoke r ∷ [] }
        → Step s t
    -- a task puts its next result
    emit :
        {s t : State Req Out} (us : List (List (Result Out))) (x : Result Out)
        (xs : List (Result Out)) (vs : List (List (Result Out)))
        → s.running ≡ us ++ (x ∷ xs) ∷ vs
        → t ≡ record s { running = us ++ xs ∷ vs; queue = put s.queue (item x) }
        → Step s t
    -- the done callback of a task
    discard :
        {s t : State Req Out} (us vs : List (List (Result Out)))
        → s.running ≡ us ++ [] ∷ vs
        → t ≡ record s { running = us ++ vs }
        → Step s t
    -- all requests are read and all tasks are done
    close :
        {s t : State Req Out}
        → s.phase ≡ active
        → s.requests ≡ []
        → CanClose waiting s.running
        → t ≡ record s { queue = put s.queue stream_eof; phase = closed }
        → Step s t
    -- the loop over the set starts while some task is not done
    crash :
        {s t : State Req Out}
        → s.phase ≡ active
        → s.requests ≡ []
        → waiting ≡ loop_over_set
        → ¬ All IsDone s.running
        → t ≡ record s { phase = crashed }
        → Step s t

  pub data Run : State Req Out → State Req Out → Type 0 where
    stop : {s : State Req Out} → Run s s
    step : {s t u : State Req Out} → Step s t → Run t u → Run s u

abbrev pub IsOk : {Out : Type 0} → Result Out → Type 0
IsOk (ok o) = Unit
IsOk (raised e) = ⊥

module _ {Out : Type 0} where
  abbrev pub responses : List (Result Out) → List Out
  responses [] = []
  responses (ok o ∷ rest) = o ∷ responses rest
  responses (raised e ∷ rest) = responses rest

  -- The responses before the first exception.
  abbrev pub before_error : List (Result Out) → List Out
  before_error [] = []
  before_error (ok o ∷ rest) = o ∷ before_error rest
  before_error (raised e ∷ rest) = []

-- The consumer: it forwards responses, and fails at the first exception.
module _ {Out : Type 0} (on_error : Exception → List Effect) where
  forward : List (Result Out) → Bool → Rpc Out
  forward [] true = return
  forward [] false = block
  forward (ok o ∷ rest) ended = send (o ∷ []) (forward rest ended)
  forward (raised e ∷ rest) ended = fail (on_error e)

  unfoldable pub consume : Queue (Result Out) → Rpc Out
  unfolding forward
  consume q = let r = read_iterator q in forward r.yielded r.ended

  -- How the consumer ends.
  abbrev pub ending : List (Result Out) → Outcome
  ending [] = returned
  ending (ok o ∷ rest) = ending rest
  ending (raised e ∷ rest) = failed (on_error e)

  forward-eq :
      (xs : List (Result Out))
      → forward xs true ≡ record { sent = before_error xs; outcome = ending xs }
  unfolding forward
  forward-eq [] = refl
  forward-eq (ok o ∷ xs) = rw (forward-eq xs)
  forward-eq (raised e ∷ xs) = refl

  forward-open :
      (xs : List (Result Out))
      → All IsOk xs
      → forward xs false ≡ record { sent = responses xs; outcome = blocked }
  unfolding forward
  forward-open [] h = refl
  forward-open (ok o ∷ xs) h = rw (forward-open xs h.1)
  forward-open (raised e ∷ xs) h = absurd h.0

  -- Without an end and without an exception, all is sent and the consumer waits.
  pub consume-open :
      (q : Queue (Result Out)) (zs : List (Result Out))
      → read_iterator q ≡ record { yielded = zs; ended = false }
      → All IsOk zs
      → consume q ≡ record { sent = responses zs; outcome = blocked }
  unfolding consume
  consume-open q zs e h = rw e (forward-open zs h)

  pub consume-ended :
      (q : Queue (Result Out)) (zs : List (Result Out))
      → read_iterator q ≡ record { yielded = zs; ended = true }
      → consume q ≡ record { sent = before_error zs; outcome = ending zs }
  unfolding consume
  consume-ended q zs e = rw e (forward-eq zs)

-- An rpc as the client sees it, for one schedule that has run until nothing is left to do. The
-- consumer takes the items in the order of the queue, so when it runs makes no difference.
module _ {Req Out : Type 0} (invoke : Req → List (Result Out)) (waiting : Waiting)
    (on_error : Exception → List Effect) where
  pub record Serves (reqs : List Req) (rpc : Rpc Out) : Type 0 where
    pub final : State Req Out
    pub run : Run invoke waiting (start reqs) final
    pub at_rest : ¬ ((t : State Req Out) × Step invoke waiting final t)
    pub consumed : rpc ≡ consume on_error final.queue

-- What a servicer with one task for each request is built from.
pub record WorkerServer : Type 1 where
  pub Req : Type 0
  pub Out : Type 0
  -- `req.handshake and req.handshake.sot`
  pub sot : Req → Bool
  pub handshake : Out
  -- what the task of a request puts into the queue
  pub invoke : Req → List (Result Out)
  pub waiting : Waiting
  pub on_error : Exception → List Effect
  -- what is raised on an empty stream, and on a first request that is no handshake
  pub no_request : Exception
  pub no_handshake : Exception

-- The rpc: the handshake, then the tasks for the requests after it.
pub data WorkerFn (server : WorkerServer) : List (server.Req) → Rpc (server.Out) → Type 0 where
  empty_stream :
      {rpc : Rpc (server.Out)}
      → rpc ≡ fail (server.on_error server.no_request)
      → WorkerFn server [] rpc
  refused :
      {req : server.Req} {reqs : List (server.Req)} {rpc : Rpc (server.Out)}
      → server.sot req ≡ false
      → rpc ≡ fail (server.on_error server.no_handshake)
      → WorkerFn server (req ∷ reqs) rpc
  served :
      {req : server.Req} {reqs : List (server.Req)} {rest rpc : Rpc (server.Out)}
      → server.sot req ≡ true
      → Serves server.invoke server.waiting server.on_error reqs rest
      → rpc ≡ send (server.handshake ∷ []) rest
      → WorkerFn server (req ∷ reqs) rpc
