-- ===== src/Shared/Streams/Progress.antt =====
-- No deadlock: a schedule with nothing left to do has put the end of the queue.
use mathlib.Core.List.{append-nil}
use numaflow_python.Base.{
  ◌≡◌, refl, ap, ◌∙◌, subst, ◌⊎◌, inl, inr, true, Option, none, some, List, [], ◌∷◌, ◌++◌,
}
use numaflow_python.Base.Text.{Str, str_eq_refl}
use numaflow_python.Shared.Queue.{Read}
use numaflow_python.Shared.Streams.{
  Command, Session, Reaction, go, await_task, report, abort, Manager, ManagerLaws, Produced,
  LanePhase, running, over, broken, Phase, reading, draining, closed, aborted, is_drained,
  open_input, input_of, State, Step, read, wait, resume, complain, give_up, drain, emit, leave,
  break, close, input,
}
use numaflow_python.Shared.Streams.Causality.{IsCausal, Returns, Agrees, AgreesOpen}
use numaflow_python.Shared.Streams.Steps.{Inv}
use numaflow_python.Shared.Streams.Turns.{ne-aborted, running-ne-closed, settled}

module _ (manager : Manager) (laws : ManagerLaws manager) {Out : Type 0}
    (work : manager.Info → Read (manager.D) → Produced Out) (trailer : manager.TM → List Out)
    (causal : IsCausal work) (returns : Returns work)
    (all : List (Command (manager.Info) (manager.D))) (s : State manager Out)
    (inv : Inv manager laws work trailer causal returns all s) where
  open manager use {Req, Info, D, TM, on_request, task}

  abbrev CanStep : Type 0
  CanStep = (t : State manager Out) × Step manager work trailer s t

  -- A task that has all of its input and is not over can go on.
  task_can-Step :
      (k : Str) (i : Info) (ds : List D)
      → input manager work trailer s k ≡ some (i, record { yielded = ds; ended = true })
      → CanStep ⊎ ((s.lanes k).phase ≡ over)
  task_can-Step k i ds h = by_phase (s.lanes k).phase refl
    where
      agrees : Agrees work i (record { yielded = ds; ended = true }) (s.lanes k)
      agrees = subst (λ y. AgreesOpen work y (s.lanes k)) h (inv.lane_inv k).agrees

      by_rest : (rest : List Out) → agrees.rest ≡ rest → (s.lanes k).phase ≡ running → CanStep
      by_rest [] e p = (
        _,
        leave k i _ h p
            (agrees.begins ∙ ap (λ l. (s.lanes k).sent ++ l) e ∙ append-nil (s.lanes k).sent)
            (returns i ds) refl,
      )
      by_rest (x ∷ rest) e p =
          (_, emit k i _ x rest h p (agrees.begins ∙ ap (λ l. (s.lanes k).sent ++ l) e) refl)

      by_phase : (p : LanePhase) → (s.lanes k).phase ≡ p → CanStep ⊎ ((s.lanes k).phase ≡ over)
      by_phase running p = inl (by_rest agrees.rest refl p)
      by_phase over p = inr p
      by_phase broken p = absurd (agrees.unbroken p)

  turn_can-Step :
      (r : Req) (rs : List Req)
      → s.phase ≡ reading
      → s.waiting ≡ none
      → s.requests ≡ r ∷ rs
      → CanStep
  turn_can-Step r rs p w e = by_reaction (on_request s.tm r) refl
    where
      by_reaction : (x : Reaction Info D TM) → on_request s.tm r ≡ x → CanStep
      by_reaction (go tm) g = (_, read r rs tm p w e g refl)
      by_reaction (await_task k x tm) g = (_, wait r rs k x tm p w e g refl)
      by_reaction (report x) g = (_, complain r rs x p w e g refl)
      by_reaction (abort x) g = (_, give_up r rs x p w e g refl)

  reading_can-Step : s.phase ≡ reading → CanStep
  reading_can-Step p = by_waiting s.waiting refl
    where
      by_requests : (rs : List Req) → s.requests ≡ rs → s.waiting ≡ none → CanStep
      by_requests [] e w = (_, drain p w e refl)
      by_requests (r ∷ rs) e w = turn_can-Step r rs p w e

      by_waiting : (w : Option (Str × Session Info D)) → s.waiting ≡ w → CanStep
      by_waiting none w = by_requests s.requests refl w
      by_waiting (some (j, x)) w =
          elim (task_can-Step j x.info x.datums (
            ap (λ w. input_of j w (is_drained s.phase) (task s.tm j)) w
            ∙ (rw (str_eq_refl j) refl))) [ inl c ↦ c | inr o ↦ (_, resume j x w o refl) ]

  -- With nothing left to do, the queue is ended.
  pub rest-closed : ¬ CanStep → s.phase ≡ closed
  rest-closed rest = by_phase s.phase refl
    where
      task_is_over :
          s.phase ≡ draining
          → (k : Str) (x : Session Info D) → task s.tm k ≡ some x
          → (s.lanes k).phase ≡ over
      task_is_over p k x e =
          let (e', w) = settled manager laws work trailer causal returns all s inv draining p in
          elim (task_can-Step k x.info x.datums (
            ap (λ w. input_of k w (is_drained s.phase) (task s.tm k)) w
            ∙ ap (λ p. open_input (is_drained p) (task s.tm k)) p
            ∙ ap (open_input true) e)) [ inl c ↦ absurd (rest c) | inr o ↦ o ]

      by_phase : (p : Phase) → s.phase ≡ p → s.phase ≡ closed
      by_phase reading p = absurd (rest (reading_can-Step p))
      by_phase draining p = absurd (rest (_, close p (task_is_over p) refl))
      by_phase closed p = p
      by_phase aborted p = absurd (ne-aborted manager laws work trailer causal returns all s inv p)

  -- When the queue is ended, nothing is left to do.
  pub closed-rests : s.phase ≡ closed → ¬ CanStep
  closed-rests c (t, read r rs tm p w e g q) = cc
  closed-rests c (t, wait r rs k x tm p w e g q) = cc
  closed-rests c (t, resume k x w o q) =
      let (e, n, o) = settled manager laws work trailer causal returns all s inv closed c in cc
  closed-rests c (t, complain r rs x p w e g q) = cc
  closed-rests c (t, give_up r rs x p w e g q) = cc
  closed-rests c (t, drain p w e q) = cc
  closed-rests c (t, emit k i r x rest h p e q) =
      running-ne-closed manager laws work trailer causal returns all s inv k (i, r) h p c
  closed-rests c (t, leave k i r h p e f q) =
      running-ne-closed manager laws work trailer causal returns all s inv k (i, r) h p c
  closed-rests c (t, break k i r x h p f q) =
      running-ne-closed manager laws work trailer causal returns all s inv k (i, r) h p c
  closed-rests c (t, close p o q) = cc
