-- ===== src/Shared/Streams/Errors.antt =====
-- What holds in every state that a schedule reaches, whatever the requests and the handlers: the errors
-- that were met are in the queue, and no task has put what its handler has not made.
pub mod Tasks
pub mod Turns
pub mod Steps
pub mod Outcome
pub mod Clean
pub mod Clearing
pub mod Returning
use mathlib.Core.List.{append_assoc, append-nil}
use numaflow_python.Base.{
  ◌≡◌, ◌⊎◌, inl, inr, refl, sym, ap, ◌∙◌, subst, Option, none, some, List, [], ◌∷◌, ◌++◌, All, Some,
  Some-append_left,
}
use numaflow_python.Base.Text.{Str}
use numaflow_python.Shared.Queue.{Queue, Read, Item, item, stream_eof}
use numaflow_python.Shared.Server.{Exception, Result, ok, raised}
use numaflow_python.Shared.Streams.{
  Session, report, abort, Manager, Produced, crashed, running, broken, Lane, fresh, Phase, reading,
  draining, closed, aborted, Tagged, State, input,
}

module _ {Out : Type 0} where
  abbrev pub IsRaised : Item (Result (Tagged Out)) → Type 0
  IsRaised stream_eof = ⊥
  IsRaised (item (ok x)) = ⊥
  IsRaised (item (raised e)) = Unit

  abbrev pub IsEnd : Item (Result (Tagged Out)) → Type 0
  IsEnd stream_eof = Unit
  IsEnd (item x) = ⊥

  abbrev pub HasRaised : Queue (Result (Tagged Out)) → Type 0
  HasRaised q = Some IsRaised q

  -- What the phase of the producer says of the queue.
  abbrev pub Shows : Phase → Queue (Result (Tagged Out)) → Type 0
  Shows reading q = Unit
  Shows draining q = Unit
  Shows closed q = Some IsEnd q
  Shows aborted q = HasRaised q

  pub Shows-append :
      (p : Phase) (q more : Queue (Result (Tagged Out))) → Shows p q → Shows p (q ++ more)
  Shows-append reading q more h = tt
  Shows-append draining q more h = tt
  Shows-append closed q more h = Some-append_left IsEnd q more h
  Shows-append aborted q more h = Some-append_left IsRaised q more h

module _ {Info D Out : Type 0} (work : Info → Read D → Produced Out) where
  -- A name without a task has a fresh lane; a task that runs has put a beginning of its output.
  abbrev pub Begins : Option (Info × Read D) → Lane Out → Type 0
  Begins none lane = lane ≡ fresh
  Begins (some (i, r)) lane =
      lane.phase ≡ running → (rest : List Out) × ((work i r).output ≡ lane.sent ++ rest)

module _ (manager : Manager) {Out : Type 0} (work : manager.Info → Read (manager.D) → Produced Out)
    (trailer : manager.TM → List Out) (reqs : List (manager.Req)) where
  open manager use {Req, Info, D, TM, on_request, IsValid}

  -- The error is a handler's, or it is what the task manager makes of one of the requests.
  abbrev pub Origin : Exception → Type 0
  Origin e =
      ((i : Info) × (r : Read D) × ((work i r).status ≡ crashed e))
      ⊎ Some
          (λ r.
            (tm : TM) × IsValid tm × ((on_request tm r ≡ report e) ⊎ (on_request tm r ≡ abort e)))
          reqs

  abbrev pub HasOrigin : Item (Result (Tagged Out)) → Type 0
  HasOrigin stream_eof = Unit
  HasOrigin (item (ok x)) = Unit
  HasOrigin (item (raised e)) = Origin e

  pub record Sound (s : State manager Out) : Type 0 where
    pub past : List Req
    pub split : reqs ≡ past ++ s.requests
    pub valid : IsValid s.tm
    pub begins : (k : Str) → Begins work (input manager work trailer s k) (s.lanes k)
    pub broken_raises : (k : Str) → (s.lanes k).phase ≡ broken → HasRaised s.queue
    pub shows : Shows s.phase s.queue
    pub origins : All HasOrigin s.queue
