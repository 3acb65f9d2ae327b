-- ===== src/Shared/Managers.antt =====
-- What the task managers of accumulator and reducestreamer have in common: they start a task for a name,
-- feed it, and in the accumulator end it.
use numaflow_python.Base.{◌≡◌, Option, none, some, List, [], ◌∷◌, ◌++◌, if◌then◌else◌}
use numaflow_python.Base.Text.{Str, str_eq}
use numaflow_python.Shared.Server.{Exception}

-- What the producer has to do with a request.
pub data Command (Info D : Type 0) : Type 0 where
  -- give a datum to the task of a name, which is started if there is none
  feed : Str → Info → D → Command Info D
  -- end the task of a name
  finish : Str → Command Info D
  skip : Command Info D
  -- the request is refused
  reject : Exception → Command Info D

-- One task: what it was started with, and the datums that it was given.
pub record Session (Info D : Type 0) : Type 0 where
  pub info : Info
  pub datums : List D

-- What a method of the task manager does: it returns, or goes on to wait for a task that it has taken
-- out, or puts an exception into the queue of all results, or raises.
pub data Reaction (Info D TM : Type 0) : Type 0 where
  go : TM → Reaction Info D TM
  await_task : Str → Session Info D → TM → Reaction Info D TM
  report : Exception → Reaction Info D TM
  abort : Exception → Reaction Info D TM

abbrev pub added : {Info D : Type 0} → Option (Session Info D) → Info → D → Session Info D
added none i d = record { info = i; datums = d ∷ [] }
added (some s) i d = record s { datums = s.datums ++ d ∷ [] }

-- The task manager as the scheduler sees it.
pub record Manager : Type 1 where
  pub Req : Type 0
  pub Info : Type 0
  pub D : Type 0
  pub TM : Type 0
  pub init : TM
  pub on_request : TM → Req → Reaction Info D TM
  -- the open task of a name, with what its iterator has been given
  pub task : TM → Str → Option (Session Info D)
  -- what the request asks for
  pub command : Req → Command Info D
  pub IsValid : TM → Type 0

module _ (manager : Manager) where
  open manager use {Req, Info, D, TM, init, on_request, task, command, IsValid}

  -- The reaction is the one that the request asks for, and other names are left alone.
  abbrev pub Reacts : TM → Command Info D → Reaction Info D TM → Type 0
  Reacts tm (feed j i d) (go tm') =
      IsValid tm'
      × ((k : Str) → task tm' k ≡ (if str_eq j k then some (added (task tm j) i d) else task tm k))
  Reacts tm (finish j) (await_task j' x tm') =
      (j' ≡ j)
      × (task tm j ≡ some x)
      × IsValid tm'
      × ((k : Str) → task tm' k ≡ (if str_eq j k then none else task tm k))
  Reacts tm (finish j) (report e) = task tm j ≡ none
  Reacts tm skip (go tm') = tm' ≡ tm
  Reacts tm (reject e) (abort e') = e' ≡ e
  Reacts tm _ _ = ⊥

  -- What the producer relies on.
  pub record ManagerLaws : Type 0 where
    pub init_valid : IsValid init
    pub init_task : (k : Str) → task init k ≡ none
    pub reacts : (tm : TM) (r : Req) → IsValid tm → Reacts tm (command r) (on_request tm r)
