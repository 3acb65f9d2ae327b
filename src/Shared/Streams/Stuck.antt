-- ===== src/Shared/Streams/Stuck.antt =====
-- When nothing is left to do: no task can put or end, and the producer waits or has ended.
use mathlib.Core.List.{append-nil}
use numaflow_python.Base.{
  ◌≡◌, ◌≢◌, ◌⊎◌, inl, inr, refl, sym, ap, ◌∙◌, Option, none, some, List, [], ◌∷◌, ◌++◌,
}
use numaflow_python.Base.Text.{Str}
use numaflow_python.Shared.Queue.{Read}
use numaflow_python.Shared.Server.{Exception}
use numaflow_python.Shared.Streams.{
  Session, Manager, ManagerLaws, Produced, Status, working, finished, crashed, LanePhase, running,
  over, broken, reading, draining, State, input, Step, read, wait, resume, complain, give_up, drain,
  emit, leave, break, close,
}
use numaflow_python.Shared.Streams.Errors.{Begins}

ne-longer : {A : Type 0} (xs : List A) (y : A) (ys : List A) → xs ++ [] ≢ xs ++ y ∷ ys
ne-longer [] y ys e = cc
ne-longer (x ∷ xs) y ys e = ne-longer xs y ys cc

module _ (manager : Manager) (laws : ManagerLaws manager) {Out : Type 0}
    (work : manager.Info → Read (manager.D) → Produced Out) (trailer : manager.TM → List Out) where
  open manager use {Req, Info, D, TM, on_request, task}

  abbrev pub CanStep : State manager Out → Type 0
  CanStep s = (t : State manager Out) × Step manager work trailer s t

  -- The task of the name can put nothing, and does not end.
  pub record Stuck (s : State manager Out) (k : Str) : Type 0 where
    pub no_emit :
        (i : Info) (r : Read D) (x : Out) (rest : List Out)
        → input manager work trailer s k ≡ some (i, r)
        → (s.lanes k).phase ≡ running
        → (work i r).output ≢ (s.lanes k).sent ++ x ∷ rest
    pub no_leave :
        (i : Info) (r : Read D)
        → input manager work trailer s k ≡ some (i, r)
        → (s.lanes k).phase ≡ running
        → (work i r).status ≢ finished
    pub no_break :
        (i : Info) (r : Read D) (e : Exception)
        → input manager work trailer s k ≡ some (i, r)
        → (s.lanes k).phase ≡ running
        → (work i r).status ≢ crashed e

  -- The producer cannot go on.
  pub record Idle (s : State manager Out) : Type 0 where
    pub not_reading : s.phase ≡ reading → s.waiting ≢ none
    pub waits : (k : Str) (x : Session Info D) → s.waiting ≡ some (k, x) → (s.lanes k).phase ≢ over
    pub not_drained :
        s.phase ≡ draining
        → ¬ ((k : Str) (x : Session Info D) → task s.tm k ≡ some x → (s.lanes k).phase ≡ over)

  pub Stuck-rests : (s : State manager Out) → Idle s → ((k : Str) → Stuck s k) → ¬ CanStep s
  Stuck-rests s i l (t, read r rs tm p w e g q) = i.not_reading p w
  Stuck-rests s i l (t, wait r rs k x tm p w e g q) = i.not_reading p w
  Stuck-rests s i l (t, resume k x w o q) = i.waits k x w o
  Stuck-rests s i l (t, complain r rs x p w e g q) = i.not_reading p w
  Stuck-rests s i l (t, give_up r rs x p w e g q) = i.not_reading p w
  Stuck-rests s i l (t, drain p w e q) = i.not_reading p w
  Stuck-rests s i l (t, emit k j r x rest h p e q) = (l k).no_emit j r x rest h p e
  Stuck-rests s i l (t, leave k j r h p e f q) = (l k).no_leave j r h p f
  Stuck-rests s i l (t, break k j r x h p f q) = (l k).no_break j r x h p f
  Stuck-rests s i l (t, close p o q) = i.not_drained p o

  module _ (s : State manager Out) where
    not_running : (k : Str) → (s.lanes k).phase ≢ running → Stuck s k
    not_running k n = record {
      no_emit = λ i r x rest h p e. n p;
      no_leave = λ i r h p e. n p;
      no_break = λ i r e h p f. n p;
    }

    pub no_input : (k : Str) → input manager work trailer s k ≡ none → Stuck s k
    no_input k n = record {
      no_emit = λ i r x rest h p e. let z = sym n ∙ h in cc;
      no_leave = λ i r h p e. let z = sym n ∙ h in cc;
      no_break = λ i r e h p f. let z = sym n ∙ h in cc;
    }

    -- A task that works on, and has put all that it has made so far.
    works_on :
        (k : Str) (i : Info) (r : Read D)
        → input manager work trailer s k ≡ some (i, r)
        → (work i r).output ≡ (s.lanes k).sent ++ []
        → (work i r).status ≡ working
        → Stuck s k
    works_on k i r h b w = record {
      no_emit = λ i' r' x rest h' p e.
          let same = sym h ∙ h' in
          let i_is : i ≡ i' = cc in
          let r_is : r ≡ r' = cc in
          ne-longer (s.lanes k).sent x rest
            (sym b ∙ ap (λ j. (work j r).output) i_is ∙ ap (λ q. (work i' q).output) r_is ∙ e);
      no_leave = λ i' r' h' p e.
          let same = sym h ∙ h' in
          let i_is : i ≡ i' = cc in
          let r_is : r ≡ r' = cc in
          let z =
            sym w ∙ ap (λ j. (work j r).status) i_is ∙ ap (λ q. (work i' q).status) r_is ∙ e in
          cc;
      no_break = λ i' r' x h' p e.
          let same = sym h ∙ h' in
          let i_is : i ≡ i' = cc in
          let r_is : r ≡ r' = cc in
          let z =
            sym w ∙ ap (λ j. (work j r).status) i_is ∙ ap (λ q. (work i' q).status) r_is ∙ e in
          cc;
    }

    by_status :
        (k : Str) (i : Info) (r : Read D) (st : Status)
        → input manager work trailer s k ≡ some (i, r)
        → (s.lanes k).phase ≡ running
        → (work i r).output ≡ (s.lanes k).sent ++ []
        → (work i r).status ≡ st
        → CanStep s ⊎ Stuck s k
    by_status k i r working h p b e = inr (works_on k i r h b e)
    by_status k i r finished h p b e =
        inl (_, leave k i r h p (b ∙ append-nil (s.lanes k).sent) e refl)
    by_status k i r (crashed x) h p b e = inl (_, break k i r x h p e refl)

    by_rest :
        (k : Str) (i : Info) (r : Read D) (rest : List Out)
        → input manager work trailer s k ≡ some (i, r)
        → (s.lanes k).phase ≡ running
        → (work i r).output ≡ (s.lanes k).sent ++ rest
        → CanStep s ⊎ Stuck s k
    by_rest k i r [] h p b = by_status k i r (work i r).status h p b refl
    by_rest k i r (x ∷ rest) h p b = inl (_, emit k i r x rest h p b refl)

    pub by_input :
        (k : Str) (y : Option (Info × Read D)) (l : LanePhase)
        → input manager work trailer s k ≡ y
        → (s.lanes k).phase ≡ l
        → Begins work y (s.lanes k)
        → CanStep s ⊎ Stuck s k
    by_input k none l h p b = inr (no_input k h)
    by_input k (some (i, r)) running h p b = let (rest, q) = b p in by_rest k i r rest h p q
    by_input k (some (i, r)) over h p b = inr (not_running k (λ q. let z = sym p ∙ q in cc))
    by_input k (some (i, r)) broken h p b = inr (not_running k (λ q. let z = sym p ∙ q in cc))
