-- ===== src/Shared/Streams/Rests.antt =====
-- Whatever the requests and the handlers, what a schedule has begun, it can bring to an end: in each state
-- it can be decided whether something is left to do, and no schedule runs for ever.
use mathlib.Core.WellFounded.{Acc}
use numaflow_python.Base.{
  ◌≡◌, ◌≢◌, ◌⊎◌, inl, inr, refl, sym, ap, ◌∙◌, subst, Option, none, some, List, [], ◌∷◌,
}
use numaflow_python.Base.Text.{Str}
use numaflow_python.Shared.Queue.{Read}
use numaflow_python.Shared.Server.{Exception, Effect}
use numaflow_python.Shared.Workers.{consume}
use numaflow_python.Shared.Streams.{
  Session, Reaction, go, await_task, report, abort, Manager, ManagerLaws, Produced, LanePhase,
  running, over, broken, Phase, reading, draining, closed, aborted, State, start, input, read, wait,
  resume, complain, give_up, drain, close, Run, stop, step, untag, StreamFn,
}
use numaflow_python.Shared.Streams.Causality.{IsCausal}
use numaflow_python.Shared.Streams.Completion.{Among, follow}
use numaflow_python.Shared.Streams.Errors.{Begins, Sound}
use numaflow_python.Shared.Streams.Errors.Steps.{Sound-start, Step-Sound, Run-Sound}
use numaflow_python.Shared.Streams.Costs.{Named, input-Among}
use numaflow_python.Shared.Streams.Finite.{Follows, start-Named, Step-Named, Run-Named, state-Acc}
use numaflow_python.Shared.Streams.Stuck.{CanStep, Stuck, Stuck-rests, no_input, by_input}

module _ (manager : Manager) (laws : ManagerLaws manager) {Out : Type 0}
    (work : manager.Info → Read (manager.D) → Produced Out) (trailer : manager.TM → List Out) where
  open manager use {Req, Info, D, TM, on_request, task}

  module _ (s : State manager Out) where
    -- Some task goes on, or all of these names are stuck.
    tasks_go_on :
        (ks : List Str)
        → ((k : Str) → Begins work (input manager work trailer s k) (s.lanes k))
        → CanStep manager laws work trailer s
          ⊎ ((k : Str) → Among k ks → Stuck manager laws work trailer s k)
    tasks_go_on [] b = inr (λ k a. absurd a)
    tasks_go_on (j ∷ ks) b =
        elim (by_input manager laws work trailer s j _ (s.lanes j).phase refl refl (b j)) [
          | inl c ↦ inl c
          | inr st ↦ elim (tasks_go_on ks b) [
            | inl c ↦ inl c
            | inr h ↦ inr (λ k a. elim a [
              | inl e ↦ subst (λ n. Stuck manager laws work trailer s n) e st
              | inr a' ↦ h k a'
            ])
          ]
        ]

    all_Stuck :
        (ks : List Str)
        → Named manager laws work trailer ks s
        → ((k : Str) → Among k ks → Stuck manager laws work trailer s k)
        → (k : Str) (y : Option (Info × Read D)) → input manager work trailer s k ≡ y
        → Stuck manager laws work trailer s k
    all_Stuck ks n h k none e = no_input manager laws work trailer s k e
    all_Stuck ks n h k (some y) e = h k (
        input-Among manager laws work trailer ks k s.waiting (task s.tm k) _ y (n.open_tasks k)
          n.waited e)

    turn_goes_on :
        (r : Req) (rs : List Req) (x : Reaction Info D TM)
        → s.phase ≡ reading
        → s.waiting ≡ none
        → s.requests ≡ r ∷ rs
        → on_request s.tm r ≡ x
        → CanStep manager laws work trailer s
    turn_goes_on r rs (go tm) p w e g = (_, read r rs tm p w e g refl)
    turn_goes_on r rs (await_task k x tm) p w e g = (_, wait r rs k x tm p w e g refl)
    turn_goes_on r rs (report x) p w e g = (_, complain r rs x p w e g refl)
    turn_goes_on r rs (abort x) p w e g = (_, give_up r rs x p w e g refl)

    reading_goes_on :
        (rs : List Req)
        → s.requests ≡ rs
        → s.phase ≡ reading
        → s.waiting ≡ none
        → CanStep manager laws work trailer s
    reading_goes_on [] e p w = (_, drain p w e refl)
    reading_goes_on (r ∷ rs) e p w = turn_goes_on r rs (on_request s.tm r) p w e refl

    reads :
        (p : Phase) (w : Option (Str × Session Info D))
        → s.phase ≡ p
        → s.waiting ≡ w
        → CanStep manager laws work trailer s ⊎ (s.phase ≡ reading → s.waiting ≢ none)
    reads reading none p w = inl (reading_goes_on s.requests refl p w)
    reads reading (some x) p w = inr (λ q e. let z = sym w ∙ e in cc)
    reads draining w p e = inr (λ q. let z = sym p ∙ q in cc)
    reads closed w p e = inr (λ q. let z = sym p ∙ q in cc)
    reads aborted w p e = inr (λ q. let z = sym p ∙ q in cc)

    is_over : (l : LanePhase) → (l ≡ over) ⊎ (l ≢ over)
    is_over running = inr (λ e. cc)
    is_over over = inl refl
    is_over broken = inr (λ e. cc)

    resumes :
        (w : Option (Str × Session Info D))
        → s.waiting ≡ w
        → CanStep manager laws work trailer s
          ⊎ ((k : Str) (x : Session Info D) → s.waiting ≡ some (k, x) → (s.lanes k).phase ≢ over)
    resumes none w = inr (λ k x e. let z = sym w ∙ e in cc)
    resumes (some (j, y)) w = elim (is_over (s.lanes j).phase) [
      | inl o ↦ inl (_, resume j y w o refl)
      | inr n ↦ inr (λ k x e q.
          let z = sym w ∙ e in let m : j ≡ k = cc in n (ap (λ k. (s.lanes k).phase) m ∙ q))
    ]

    -- All tasks of these names are over, or one is not.
    all_over :
        (ks : List Str)
        → ((k : Str) (x : Session Info D)
            → Among k ks
            → task s.tm k ≡ some x
            → (s.lanes k).phase ≡ over)
          ⊎ ((k : Str) × (x : Session Info D) × (task s.tm k ≡ some x) × ((s.lanes k).phase ≢ over))
    all_over [] = inl (λ k x a e. absurd a)
    all_over (j ∷ ks) = elim (all_over ks) [ inr c ↦ inr c | inl h ↦ by_task (task s.tm j) refl h ]
      where
        by_task :
            (o : Option (Session Info D))
            → task s.tm j ≡ o
            → ((k : Str) (x : Session Info D)
                → Among k ks
                → task s.tm k ≡ some x
                → (s.lanes k).phase ≡ over)
            → ((k : Str) (x : Session Info D)
                → Among k (j ∷ ks)
                → task s.tm k ≡ some x
                → (s.lanes k).phase ≡ over)
              ⊎ ((k : Str) × (x : Session Info D) × (task s.tm k ≡ some x)
                  × ((s.lanes k).phase ≢ over))
        by_task none e h = inl (λ k x a q. elim a [
          | inl m ↦ let z = sym e ∙ ap (task s.tm) m ∙ q in cc
          | inr a' ↦ h k x a' q
        ])
        by_task (some y) e h = elim (is_over (s.lanes j).phase) [
          | inl v ↦ inl (λ k x a q. elim a [
            | inl m ↦ subst (λ n. (s.lanes n).phase ≡ over) m v
            | inr a' ↦ h k x a' q
          ])
          | inr n ↦ inr (j, y, e, n)
        ]

    closes :
        (ks : List Str) (p : Phase)
        → Named manager laws work trailer ks s
        → s.phase ≡ p
        → CanStep manager laws work trailer s
          ⊎ (s.phase ≡ draining
              → ¬ (
                  (k : Str) (x : Session Info D) → task s.tm k ≡ some x → (s.lanes k).phase ≡ over))
    closes ks draining n p = elim (all_over ks) [
      | inl h ↦ inl (_, close p (λ k x e. h k x (n.open_tasks k x e) e) refl)
      | inr (k, x, e, m) ↦ inr (λ q h. m (h k x e))
    ]
    closes ks reading n p = inr (λ q. let z = sym p ∙ q in cc)
    closes ks closed n p = inr (λ q. let z = sym p ∙ q in cc)
    closes ks aborted n p = inr (λ q. let z = sym p ∙ q in cc)

    -- Something is left to do, or nothing.
    decide :
        (ks : List Str)
        → Named manager laws work trailer ks s
        → ((k : Str) → Begins work (input manager work trailer s k) (s.lanes k))
        → CanStep manager laws work trailer s ⊎ (¬ CanStep manager laws work trailer s)
    decide ks n b = elim (tasks_go_on ks b) [
      | inl c ↦ inl c
      | inr h ↦ elim (reads s.phase s.waiting refl refl) [
        | inl c ↦ inl c
        | inr r ↦ elim (resumes s.waiting refl) [
          | inl c ↦ inl c
          | inr w ↦ elim (closes ks s.phase n refl) [
            | inl c ↦ inl c
            | inr d ↦ inr (
                Stuck-rests manager laws work trailer s
                  (record { not_reading = r; waits = w; not_drained = d })
                  (λ k. all_Stuck ks n h k (input manager work trailer s k) refl))
          ]
        ]
      ]
    ]

  module _ (causal : IsCausal work) (reqs : List Req) where
    finish_run :
        (ks : List Str) (s : State manager Out)
        → Acc (Follows manager laws work trailer) s
        → Named manager laws work trailer ks s
        → Sound manager work trailer reqs s
        → (t : State manager Out) × Run manager work trailer s t
          × (¬ CanStep manager laws work trailer t)
    finish_run ks s (Acc.intro _ smaller) n v = elim (decide s ks n v.begins) [
      | inr r ↦ (s, stop, r)
      | inl (t, st) ↦
          let (js, n') = Step-Named manager laws work trailer ks s t n st in
          let (u, run, r) =
            finish_run js t (smaller t st) n'
              (Step-Sound manager laws work trailer causal reqs s v t st) in
          (u, step st run, r)
    ]

    -- What a schedule has begun cannot go on for ever, and can be brought to a state in which nothing is
    -- left to do.
    pub Run-finishes :
        (on_error : Exception → List Effect) (s : State manager Out)
        → Run manager work trailer (start manager work trailer reqs) s
        → Acc (Follows manager laws work trailer) s
          × (t : State manager Out) × Run manager work trailer s t
          × StreamFn manager work trailer on_error reqs (consume on_error (untag t.queue))
    Run-finishes on_error s run =
        let (ks, n) =
          Run-Named manager laws work trailer [] run (start-Named manager laws work trailer reqs) in
        let a = state-Acc manager laws work trailer ks s n in
        let v =
          Run-Sound manager laws work trailer causal reqs run
            (Sound-start manager laws work trailer causal reqs) in
        let (t, more, r) = finish_run ks s a n v in
        (
          a,
          t,
          more,
          record {
            final = t;
            run = follow manager work trailer run more;
            at_rest = r;
            consumed = refl;
          },
        )
