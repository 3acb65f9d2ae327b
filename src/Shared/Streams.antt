-- ===== src/Shared/Streams.antt =====
-- A servicer that feeds long-lived tasks while it reads its stream, as in accumulator and
-- reducestreamer: `process_input_stream` is the producer, each task runs the user's handler and copies
-- the results to `global_result_queue`, and the rpc forwards what it reads from that queue. The
-- scheduler is a relation: at any time the producer, if it does not wait, may go on, and a task may put
-- its next result, or end.
pub mod Reference
pub mod Causality
pub mod Invariant
pub mod Emission
pub mod Steps
pub mod Turns
pub mod Reachable
pub mod Progress
pub mod Serving
pub mod Completion
pub mod Total
pub mod Completes
pub mod Queues
pub mod Errors
pub mod Costs
pub mod Finite
pub mod Stuck
pub mod Rests
pub use numaflow_python.Shared.Managers.{
  Command, feed, finish, skip, reject, Session, Reaction, go, await_task, report, abort, added,
  Manager, Reacts, ManagerLaws,
}
use numaflow_python.Base.{
  ◌≡◌, Bool, true, false, Option, none, some, List, [], ◌∷◌, ◌++◌, map, if◌then◌else◌,
}
use numaflow_python.Base.Text.{Str, str_eq}
use numaflow_python.Shared.Queue.{Queue, Read, item, stream_eof, put}
use numaflow_python.Shared.Server.{Exception, Result, ok, raised, Effect, Rpc}
use numaflow_python.Shared.Workers.{consume}

pub data Status : Type 0 where
  working : Status
  finished : Status
  crashed : Exception → Status

-- What a task has put when it has read what its iterator yields, and how its handler is then.
pub record Produced (Out : Type 0) : Type 0 where
  pub output : List Out
  pub status : Status

pub data LanePhase : Type 0 where
  running over broken : LanePhase

-- What the task of a name has put into the queue of all results.
pub record Lane (Out : Type 0) : Type 0 where
  pub sent : List Out
  pub phase : LanePhase

abbrev pub fresh : {Out : Type 0} → Lane Out
fresh = record { sent = []; phase = running }

abbrev pub set_lane : {Out : Type 0} → (Str → Lane Out) → Str → Lane Out → Str → Lane Out
set_lane lanes k lane j = if str_eq k j then lane else lanes j

-- The producer reads; or it has ended all tasks and waits for them; or it has put the end of the
-- queue; or an exception has ended it.
pub data Phase : Type 0 where
  reading draining closed aborted : Phase

-- The tasks have been given the end of their input.
abbrev pub is_drained : Phase → Bool
is_drained reading = false
is_drained draining = true
is_drained closed = true
is_drained aborted = false

-- A result with the name of the task that it is from.
abbrev pub Tagged : Type 0 → Type 0
Tagged Out = Option Str × Out

abbrev pub open_input : {Info D : Type 0} → Bool → Option (Session Info D) → Option (Info × Read D)
open_input ended none = none
open_input ended (some s) = some (s.info, record { yielded = s.datums; ended = ended })

-- What the task of a name can read: the one that is waited for has got its end.
abbrev pub input_of :
    {Info D : Type 0}
    → Str
    → Option (Str × Session Info D)
    → Bool
    → Option (Session Info D)
    → Option (Info × Read D)
input_of k none ended o = open_input ended o
input_of k (some (j, s)) ended o =
    if str_eq j k then open_input true (some s) else open_input ended o

pub record State (manager : Manager) (Out : Type 0) : Type 0 where
  pub requests : List (manager.Req)
  pub tm : manager.TM
  -- the task that `close_task` waits for
  pub waiting : Option (Str × Session (manager.Info) (manager.D))
  pub lanes : Str → Lane Out
  pub queue : Queue (Result (Tagged Out))
  pub phase : Phase

-- `work` is what a task makes of what it was started with and what its iterator yields; `trailer` what
-- the producer puts when all tasks have ended.
module _ (manager : Manager) {Out : Type 0} (work : manager.Info → Read (manager.D) → Produced Out)
    (trailer : manager.TM → List Out) where
  open manager use {Req, Info, D, TM, init, on_request, task}

  abbrev pub start : List Req → State manager Out
  start reqs = record {
    requests = reqs;
    tm = init;
    waiting = none;
    lanes = λ _. fresh;
    queue = [];
    phase = reading;
  }

  abbrev pub input : State manager Out → Str → Option (Info × Read D)
  input s k = input_of k s.waiting (is_drained s.phase) (task s.tm k)

  pub data Step : State manager Out → State manager Out → Type 0 where
    -- one turn of the loop over the requests
    read :
        {s t : State manager Out} (r : Req) (rs : List Req) (tm : TM)
        → s.phase ≡ reading
        → s.waiting ≡ none
        → s.requests ≡ r ∷ rs
        → on_request s.tm r ≡ go tm
        → t ≡ record s { requests = rs; tm = tm }
        → Step s t
    -- a turn that begins to wait for a task
    wait :
        {s t : State manager Out} (r : Req) (rs : List Req) (k : Str) (x : Session Info D) (tm : TM)
        → s.phase ≡ reading
        → s.waiting ≡ none
        → s.requests ≡ r ∷ rs
        → on_request s.tm r ≡ await_task k x tm
        → t ≡ record s { requests = rs; tm = tm; waiting = some (k, x) }
        → Step s t
    -- the task has ended; the next one of this name starts afresh
    resume :
        {s t : State manager Out} (k : Str) (x : Session Info D)
        → s.waiting ≡ some (k, x)
        → (s.lanes k).phase ≡ over
        → t ≡ record s { waiting = none; lanes = set_lane s.lanes k fresh }
        → Step s t
    -- a turn that puts an exception
    complain :
        {s t : State manager Out} (r : Req) (rs : List Req) (e : Exception)
        → s.phase ≡ reading
        → s.waiting ≡ none
        → s.requests ≡ r ∷ rs
        → on_request s.tm r ≡ report e
        → t ≡ record s { requests = rs; queue = put s.queue (item (raised e)) }
        → Step s t
    -- a turn that raises: the exception is put, and the producer returns
    give_up :
        {s t : State manager Out} (r : Req) (rs : List Req) (e : Exception)
        → s.phase ≡ reading
        → s.waiting ≡ none
        → s.requests ≡ r ∷ rs
        → on_request s.tm r ≡ abort e
        → t ≡ record s { requests = rs; queue = put s.queue (item (raised e)); phase = aborted }
        → Step s t
    -- the end of the stream: every task gets the end of its input
    drain :
        {s t : State manager Out}
        → s.phase ≡ reading
        → s.waiting ≡ none
        → s.requests ≡ []
        → t ≡ record s { phase = draining }
        → Step s t
    -- a task puts its next result
    emit :
        {s t : State manager Out} (k : Str) (i : Info) (r : Read D) (x : Out) (rest : List Out)
        → input s k ≡ some (i, r)
        → (s.lanes k).phase ≡ running
        → (work i r).output ≡ (s.lanes k).sent ++ x ∷ rest
        → t ≡ record s {
          lanes =
              set_lane s.lanes k (record { sent = (s.lanes k).sent ++ x ∷ []; phase = running });
          queue = put s.queue (item (ok (some k, x)));
        }
        → Step s t
    -- a task ends: its handler has returned, and all its results are put
    leave :
        {s t : State manager Out} (k : Str) (i : Info) (r : Read D)
        → input s k ≡ some (i, r)
        → (s.lanes k).phase ≡ running
        → (work i r).output ≡ (s.lanes k).sent
        → (work i r).status ≡ finished
        → t ≡ record s {
          lanes = set_lane s.lanes k (record { sent = (s.lanes k).sent; phase = over });
        }
        → Step s t
    -- the handler of a task raises; what is put after the exception is never read
    break :
        {s t : State manager Out} (k : Str) (i : Info) (r : Read D) (e : Exception)
        → input s k ≡ some (i, r)
        → (s.lanes k).phase ≡ running
        → (work i r).status ≡ crashed e
        → t ≡ record s {
          lanes = set_lane s.lanes k (record { sent = (s.lanes k).sent; phase = broken });
          queue = put s.queue (item (raised e));
        }
        → Step s t
    -- all tasks have ended
    close :
        {s t : State manager Out}
        → s.phase ≡ draining
        → ((k : Str) (x : Session Info D) → task s.tm k ≡ some x → (s.lanes k).phase ≡ over)
        → t ≡ record s {
          queue = s.queue ++ (map (λ o. item (ok (none, o))) (trailer s.tm) ++ stream_eof ∷ []);
          phase = closed;
        }
        → Step s t

  pub data Run : State manager Out → State manager Out → Type 0 where
    stop : {s : State manager Out} → Run s s
    step : {s t u : State manager Out} → Step s t → Run t u → Run s u

-- The queue as its reader sees it.
abbrev pub untag : {Out : Type 0} → Queue (Result (Tagged Out)) → Queue (Result Out)
untag [] = []
untag (stream_eof ∷ q) = stream_eof ∷ untag q
untag (item (ok (k, x)) ∷ q) = item (ok x) ∷ untag q
untag (item (raised e) ∷ q) = item (raised e) ∷ untag q

-- The rpc as the client sees it, for one schedule that has run until nothing is left to do.
module _ (manager : Manager) {Out : Type 0} (work : manager.Info → Read (manager.D) → Produced Out)
    (trailer : manager.TM → List Out) (on_error : Exception → List Effect) where
  pub record StreamFn (reqs : List (manager.Req)) (rpc : Rpc Out) : Type 0 where
    pub final : State manager Out
    pub run : Run manager work trailer (start manager work trailer reqs) final
    pub at_rest : ¬ ((t : State manager Out) × Step manager work trailer final t)
    pub consumed : rpc ≡ consume on_error (untag final.queue)
