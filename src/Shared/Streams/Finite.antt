-- ===== src/Shared/Streams/Finite.antt =====
-- No schedule runs for ever, whatever the requests and the handlers: a step of the producer lowers what
-- is left to read, and a step of a task lowers what the tasks can still put with the input they have.
use mathlib.Core.WellFounded.{Acc}
use numaflow_python.Base.{
  ℕ, zero, suc, ◌<◌, ◌≡◌, ◌⊎◌, inl, inr, sym, ap, ◌∙◌, subst, Option, none, some, List, [], ◌∷◌,
  ◌++◌, arith, Bool-cases,
}
use numaflow_python.Base.Text.{Str, str_eq, str_eq_iff}
use numaflow_python.Shared.Queue.{Read, put}
use numaflow_python.Shared.Streams.{
  Command, feed, finish, skip, reject, Session, go, await_task, Manager, Reacts, ManagerLaws,
  Produced, running, over, broken, State, start, Step, read, wait, resume, complain, give_up, drain,
  emit, leave, break, close, Run, stop, step,
}
use numaflow_python.Shared.Streams.Completion.{Among}
use numaflow_python.Shared.Streams.Costs.{to_read, to_put, Named, set_lane-lt, length-put}

module _ (manager : Manager) (laws : ManagerLaws manager) {Out : Type 0}
    (work : manager.Info → Read (manager.D) → Produced Out) (trailer : manager.TM → List Out) where
  open manager use {Req, Info, D, TM, init, on_request, task, command, IsValid}

  -- A step of the producer, or a step of a task.
  abbrev pub Moves : List Str → State manager Out → State manager Out → Type 0
  Moves ks s t =
      ((to_read manager laws work trailer t < to_read manager laws work trailer s)
        × (js : List Str) × Named manager laws work trailer js t)
      ⊎ ((to_read manager laws work trailer t ≡ to_read manager laws work trailer s)
          × (to_put manager laws work trailer ks t < to_put manager laws work trailer ks s)
          × Named manager laws work trailer ks t)

  module _ (ks : List Str) (s : State manager Out) (n : Named manager laws work trailer ks s) where
    go_Named :
        (c : Command Info D) (tm : TM)
        → Reacts manager s.tm c (go tm)
        → (js : List Str) × IsValid tm
          × ((k : Str) (x : Session Info D) → task tm k ≡ some x → Among k js)
    go_Named (feed j i d) tm h = (
      j ∷ ks,
      h.0,
      λ k x e. elim (Bool-cases (str_eq j k)) [
        | inl q ↦ inl ((str_eq_iff j k).0 q)
        | inr q ↦ let g = sym (h.1 k) ∙ e in inr (n.open_tasks k x (rw q at g))
      ],
    )
    go_Named (finish j) tm h = absurd h
    go_Named skip tm h = (
      ks,
      subst IsValid (sym h) n.valid,
      λ k x e. n.open_tasks k x (sym (ap (λ m. task m k) h) ∙ e),
    )
    go_Named (reject e) tm h = absurd h

    await_Named :
        (c : Command Info D) (j : Str) (x : Session Info D) (tm : TM)
        → Reacts manager s.tm c (await_task j x tm)
        → IsValid tm
          × ((k : Str) (y : Session Info D) → task tm k ≡ some y → Among k ks)
          × Among j ks
    await_Named (feed j' i d) j x tm h = absurd h
    await_Named (finish j') j x tm h = (
      h.2,
      λ k y e.
          let g = sym (h.3 k) ∙ e in
          elim (Bool-cases (str_eq j' k)) [
            | inl q ↦ let g' : ◌≡◌ {A = Option (Session Info D)} none (some y) = (rw q at g) in cc
            | inr q ↦ n.open_tasks k y (rw q at g)
          ],
      subst (λ m. Among m ks) (sym (h.0)) (n.open_tasks j' x h.1),
    )
    await_Named skip j x tm h = absurd h
    await_Named (reject e) j x tm h = absurd h

    reacts : (r : Req) (x : _) → on_request s.tm r ≡ x → Reacts manager s.tm (command r) x
    reacts r x g = subst (Reacts manager s.tm (command r)) g (laws.reacts s.tm r n.valid)

    pub Step-Moves : (t : State manager Out) → Step manager work trailer s t → Moves ks s t
    unfolding put
    Step-Moves t (read r rs tm p w e g q) =
        let (js, iv, o) = go_Named (command r) tm (reacts r (go tm) g) in
        inl (
          rw (q, e) (omega arith),
          js,
          subst (Named manager laws work trailer js) (sym q)
              (record { valid = iv; open_tasks = o; waited = λ k x z. let z' = sym w ∙ z in cc }),
        )
    Step-Moves t (wait r rs k x tm p w e g q) =
        let (iv, o, a) = await_Named (command r) k x tm (reacts r (await_task k x tm) g) in
        inl (
          rw (q, e, w) (omega arith),
          ks,
          subst (Named manager laws work trailer ks) (sym q) (record {
            valid = iv;
            open_tasks = o;
            waited = λ j y z. let m : k ≡ j = cc in subst (λ m. Among m ks) m a;
          }),
        )
    Step-Moves t (resume k x w o q) = inl (
      rw (q, w) (omega arith),
      ks,
      subst (Named manager laws work trailer ks) (sym q)
          (record { valid = n.valid; open_tasks = n.open_tasks; waited = λ j y z. cc }),
    )
    Step-Moves t (complain r rs x p w e g q) = inl (
      rw (q, e) (omega arith),
      ks,
      subst (Named manager laws work trailer ks) (sym q)
          (record { valid = n.valid; open_tasks = n.open_tasks; waited = n.waited }),
    )
    Step-Moves t (give_up r rs x p w e g q) = inl (
      rw (q, e, p) (omega arith),
      ks,
      subst (Named manager laws work trailer ks) (sym q)
          (record { valid = n.valid; open_tasks = n.open_tasks; waited = n.waited }),
    )
    Step-Moves t (drain p w e q) = inl (
      rw (q, p) (omega arith),
      ks,
      subst (Named manager laws work trailer ks) (sym q)
          (record { valid = n.valid; open_tasks = n.open_tasks; waited = n.waited }),
    )
    Step-Moves t (emit k i r x rest h p e q) =
        let c =
          set_lane-lt manager laws work trailer ks s n k
            (record { sent = (s.lanes k).sent ++ x ∷ []; phase = running }) (i, r) h
            (rw (p, e)
              (omega
                (arith, length-put (s.lanes k).sent x rest, length-put (s.lanes k).sent x []))) in
        inr (
          ap (to_read manager laws work trailer) q,
          subst (λ t. to_put manager laws work trailer ks t < to_put manager laws work trailer ks s)
              (sym q) c,
          subst (Named manager laws work trailer ks) (sym q)
              (record { valid = n.valid; open_tasks = n.open_tasks; waited = n.waited }),
        )
    Step-Moves t (leave k i r h p e f q) =
        let c =
          set_lane-lt manager laws work trailer ks s n k
            (record { sent = (s.lanes k).sent; phase = over }) (i, r) h (rw p (omega arith)) in
        inr (
          ap (to_read manager laws work trailer) q,
          subst (λ t. to_put manager laws work trailer ks t < to_put manager laws work trailer ks s)
              (sym q) c,
          subst (Named manager laws work trailer ks) (sym q)
              (record { valid = n.valid; open_tasks = n.open_tasks; waited = n.waited }),
        )
    Step-Moves t (break k i r x h p f q) =
        let c =
          set_lane-lt manager laws work trailer ks s n k
            (record { sent = (s.lanes k).sent; phase = broken }) (i, r) h (rw p (omega arith)) in
        inr (
          ap (to_read manager laws work trailer) q,
          subst (λ t. to_put manager laws work trailer ks t < to_put manager laws work trailer ks s)
              (sym q) c,
          subst (Named manager laws work trailer ks) (sym q)
              (record { valid = n.valid; open_tasks = n.open_tasks; waited = n.waited }),
        )
    Step-Moves t (close p o q) = inl (
      rw (q, p) (omega arith),
      ks,
      subst (Named manager laws work trailer ks) (sym q)
          (record { valid = n.valid; open_tasks = n.open_tasks; waited = n.waited }),
    )

  abbrev pub Follows : State manager Out → State manager Out → Type 0
  Follows t s = Step manager work trailer s t

  Named-Acc :
      (a b : ℕ) (ks : List Str) (s : State manager Out)
      → to_read manager laws work trailer s < a
      → to_put manager laws work trailer ks s < b
      → Named manager laws work trailer ks s
      → Acc Follows s
  Named-Acc zero b ks s p l n = absurd (omega (arith, p))
  Named-Acc (suc a) zero ks s p l n = absurd (omega (arith, l))
  Named-Acc (suc a) (suc b) ks s p l n = Acc.intro s (λ t st. elim (Step-Moves ks s n t st) [
    | inl (q, js, n') ↦
        Named-Acc a (suc (to_put manager laws work trailer js t)) js t (omega (arith, p, q))
          (omega arith) n'
    | inr (q, r, n') ↦ Named-Acc (suc a) b ks t (omega (arith, p, q)) (omega (arith, l, r)) n'
  ])

  pub start-Named :
      (reqs : List Req) → Named manager laws work trailer [] (start manager work trailer reqs)
  start-Named reqs = record {
    valid = laws.init_valid;
    open_tasks = λ k x e. let e' = sym (laws.init_task k) ∙ e in cc;
    waited = λ k x e. cc;
  }

  pub Step-Named :
      (ks : List Str) (s t : State manager Out)
      → Named manager laws work trailer ks s
      → Step manager work trailer s t
      → (js : List Str) × Named manager laws work trailer js t
  Step-Named ks s t n st = elim (Step-Moves ks s n t st) [
    | inl (q, js, n') ↦ (js, n')
    | inr (q, r, n') ↦ (ks, n')
  ]

  pub Run-Named :
      {s t : State manager Out} (ks : List Str)
      → Run manager work trailer s t
      → Named manager laws work trailer ks s
      → (js : List Str) × Named manager laws work trailer js t
  Run-Named ks stop n = (ks, n)
  Run-Named ks (step {s = s} {t = t} st run) n =
      let (js, n') = Step-Named ks s t n st in Run-Named js run n'

  -- No sequence of steps goes on for ever.
  pub state-Acc :
      (ks : List Str) (s : State manager Out) → Named manager laws work trailer ks s → Acc Follows s
  state-Acc ks s n =
      Named-Acc (suc (to_read manager laws work trailer s))
        (suc (to_put manager laws work trailer ks s)) ks s (omega arith) (omega arith) n
