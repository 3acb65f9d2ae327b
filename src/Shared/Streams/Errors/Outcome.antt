-- ===== src/Shared/Streams/Errors/Outcome.antt =====
-- Whatever the requests and the handlers, a schedule with nothing left to do has ended its rpc.
use mathlib.Core.List.{append-nil}
use numaflow_python.Base.{
  ◌≡◌, ◌≢◌, ◌⊎◌, inl, inr, refl, sym, ap, ◌∙◌, subst, true, Option, none, some, List, [], ◌∷◌, ◌++◌,
  All, Some,
}
use numaflow_python.Base.Text.{Str, str_eq_refl}
use numaflow_python.Shared.Queue.{Queue, Read, item, stream_eof}
use numaflow_python.Shared.Server.{
  Exception, Result, ok, raised, Effect, Rpc, Outcome, returned, failed,
}
use numaflow_python.Shared.Workers.{consume}
use numaflow_python.Shared.Workers.Consuming.{consume-end, consume-ok, consume-raised}
use numaflow_python.Shared.Streams.{
  Session, Reaction, go, await_task, report, abort, Manager, ManagerLaws, Produced, Status, working,
  finished, crashed, LanePhase, running, over, broken, Phase, reading, draining, closed, aborted,
  is_drained, Tagged, open_input, input_of, State, input, Step, read, wait, resume, complain,
  give_up, drain, emit, leave, break, close, untag, StreamFn,
}
use numaflow_python.Shared.Streams.Causality.{IsCausal}
use numaflow_python.Shared.Streams.Errors.{
  IsEnd, HasRaised, Shows, Begins, Origin, HasOrigin, Sound,
}
use numaflow_python.Shared.Streams.Errors.Steps.{Sound-start, Run-Sound}

has_raised : {Out : Type 0} (q : Queue (Result (Tagged Out))) → HasRaised q ⊎ (¬ HasRaised q)
has_raised [] = inr (λ s. s)
has_raised (stream_eof ∷ q) = elim (has_raised q) [
  | inl h ↦ inl (inr h)
  | inr n ↦ inr (λ s. elim s [ inl x ↦ x | inr y ↦ n y ])
]
has_raised (item (ok x) ∷ q) = elim (has_raised q) [
  | inl h ↦ inl (inr h)
  | inr n ↦ inr (λ s. elim s [ inl x ↦ x | inr y ↦ n y ])
]
has_raised (item (raised e) ∷ q) = inl (inl tt)

module _ (manager : Manager) {Out : Type 0} (work : manager.Info → Read (manager.D) → Produced Out)
    (trailer : manager.TM → List Out) (reqs : List (manager.Req))
    (on_error : Exception → List Effect) where
  -- The rpc returns, or fails by an error that was met.
  abbrev pub Ended : Outcome → Type 0
  Ended o =
      (o ≡ returned)
      ⊎ ((e : Exception) × (o ≡ failed (on_error e)) × Origin manager work trailer reqs e)

  -- The reader of a queue with an error or an end in it comes to an end.
  consume-Ended :
      (q : Queue (Result (Tagged Out)))
      → All (HasOrigin manager work trailer reqs) q
      → HasRaised q ⊎ Some IsEnd q
      → Ended (consume on_error (untag q)).outcome
  consume-Ended [] h (inl s) = absurd s
  consume-Ended [] h (inr s) = absurd s
  consume-Ended (stream_eof ∷ q) h s = inl (ap (λ r. r.outcome) (consume-end on_error (untag q)))
  consume-Ended (item (raised e) ∷ q) h s =
      inr (e, ap (λ r. r.outcome) (consume-raised on_error e (untag q)), h.0)
  consume-Ended (item (ok (k, x)) ∷ q) h s =
      subst Ended (sym (ap (λ r. r.outcome) (consume-ok on_error x (untag q)))) (
        consume-Ended q h.1 (elim s [
          | inl (inl y) ↦ absurd y
          | inl (inr y) ↦ inl y
          | inr (inl y) ↦ absurd y
          | inr (inr y) ↦ inr y
        ]))

module _ (manager : Manager) (laws : ManagerLaws manager) {Out : Type 0}
    (work : manager.Info → Read (manager.D) → Produced Out) (trailer : manager.TM → List Out)
    (causal : IsCausal work) (reqs : List (manager.Req)) where
  open manager use {Req, Info, D, TM, on_request, task}

  -- With all of its input, a task's handler returns or raises.
  abbrev pub Ends : Type 0
  Ends =
      (i : Info) (ds : List D) → (work i (record { yielded = ds; ended = true })).status ≢ working

  module _ (ends : Ends) (s : State manager Out) (v : Sound manager work trailer reqs s)
      (rest : ¬ ((t : State manager Out) × Step manager work trailer s t)) where
    -- A task that has all of its input is over or broken.
    task_stopped :
        (k : Str) (i : Info) (ds : List D)
        → input manager work trailer s k ≡ some (i, record { yielded = ds; ended = true })
        → ((s.lanes k).phase ≡ over) ⊎ ((s.lanes k).phase ≡ broken)
    task_stopped k i ds h = by_phase (s.lanes k).phase refl
      where
        by_status :
            (st : Status)
            → (work i (record { yielded = ds; ended = true })).status ≡ st
            → (s.lanes k).phase ≡ running
            → (work i (record { yielded = ds; ended = true })).output ≡ (s.lanes k).sent
            → ⊥
        by_status working e p b = ends i ds e
        by_status finished e p b = rest (_, leave k i _ h p b e refl)
        by_status (crashed x) e p b = rest (_, break k i _ x h p e refl)

        by_rest :
            (more : List Out)
            → (s.lanes k).phase ≡ running
            → (work i (record { yielded = ds; ended = true })).output ≡ (s.lanes k).sent ++ more
            → ⊥
        by_rest [] p b =
            by_status (work i (record { yielded = ds; ended = true })).status refl p
              (b ∙ append-nil (s.lanes k).sent)
        by_rest (x ∷ more) p b = rest (_, emit k i _ x more h p b refl)

        by_phase :
            (p : LanePhase)
            → (s.lanes k).phase ≡ p
            → ((s.lanes k).phase ≡ over) ⊎ ((s.lanes k).phase ≡ broken)
        by_phase running p =
            let (more, b) = subst (λ y. Begins work y (s.lanes k)) h (v.begins k) p in
            absurd (by_rest more p b)
        by_phase over p = inl p
        by_phase broken p = inr p

    no_turn :
        (r : Req) (rs : List Req) (x : Reaction Info D TM)
        → s.phase ≡ reading
        → s.waiting ≡ none
        → s.requests ≡ r ∷ rs
        → on_request s.tm r ≢ x
    no_turn r rs (go tm) p w e g = rest (_, read r rs tm p w e g refl)
    no_turn r rs (await_task k x tm) p w e g = rest (_, wait r rs k x tm p w e g refl)
    no_turn r rs (report x) p w e g = rest (_, complain r rs x p w e g refl)
    no_turn r rs (abort x) p w e g = rest (_, give_up r rs x p w e g refl)

    by_requests : (rs : List Req) → s.requests ≡ rs → s.phase ≡ reading → s.waiting ≡ none → ⊥
    by_requests [] e p w = rest (_, drain p w e refl)
    by_requests (r ∷ rs) e p w = no_turn r rs (on_request s.tm r) p w e refl

    -- Without an error, the producer has put the end.
    by_phase :
        (p : Phase)
        → s.phase ≡ p
        → s.waiting ≡ none
        → ¬ HasRaised s.queue
        → HasRaised s.queue ⊎ Some IsEnd s.queue
    by_phase reading p w n = absurd (by_requests s.requests refl p w)
    by_phase draining p w n = absurd (
        rest (
          _,
          close p
              (λ k x e.
                elim (task_stopped k x.info x.datums (
                  ap (λ w. input_of k w (is_drained s.phase) (task s.tm k)) w
                  ∙ ap (λ p. open_input (is_drained p) (task s.tm k)) p
                  ∙ ap (open_input true) e)) [
                    | inl o ↦ o
                    | inr b ↦ absurd (n (v.broken_raises k b))
                  ])
              refl,
        ))
    by_phase closed p w n = inr (subst (λ p. Shows p s.queue) p v.shows)
    by_phase aborted p w n = inl (subst (λ p. Shows p s.queue) p v.shows)

    pub rest_decided : HasRaised s.queue ⊎ Some IsEnd s.queue
    rest_decided = elim (has_raised s.queue) [ inl h ↦ inl h | inr n ↦ by_waiting s.waiting refl n ]
      where
        by_waiting :
            (w : Option (Str × Session Info D))
            → s.waiting ≡ w
            → ¬ HasRaised s.queue
            → HasRaised s.queue ⊎ Some IsEnd s.queue
        by_waiting none w n = by_phase s.phase refl w n
        by_waiting (some (j, x)) w n =
            elim (task_stopped j x.info x.datums (
              ap (λ w. input_of j w (is_drained s.phase) (task s.tm j)) w
              ∙ (rw (str_eq_refl j) refl))) [
                | inl o ↦ absurd (rest (_, resume j x w o refl))
                | inr b ↦ inl (v.broken_raises j b)
              ]

  -- Whatever the requests, and whether handlers return or raise: in every schedule with nothing left to
  -- do, the rpc has returned or failed, by an error that was met.
  pub StreamFn-Ended :
      (on_error : Exception → List Effect) (rpc : Rpc Out)
      → Ends
      → StreamFn manager work trailer on_error reqs rpc
      → Ended manager work trailer reqs on_error rpc.outcome
  StreamFn-Ended on_error rpc ends fn =
      let v =
        Run-Sound manager laws work trailer causal reqs fn.run
          (Sound-start manager laws work trailer causal reqs) in
      subst (λ r. Ended manager work trailer reqs on_error r.outcome) (sym fn.consumed)
        (consume-Ended manager work trailer reqs on_error fn.final.queue v.origins
          (rest_decided ends fn.final v fn.at_rest))
