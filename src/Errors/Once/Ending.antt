-- ===== src/Errors/Once/Ending.antt =====
-- How often the function is executed.
use numaflow_python.Base.{
  ℕ, ◌≡◌, ◌≢◌, refl, ap, ◌∙◌, subst, ◌⊎◌, inl, inr, true, Option, none, some, List, ◌∷◌, ◌++◌,
}
use numaflow_python.Base.Text.{Str}
use numaflow_python.Shared.Server.{Exception}
use numaflow_python.Errors.{
  Call, Files, Op, run_ops, interrupted, Outcome, persisted, func_raised, already_executed, Thread,
  absent, calling, locked, writing, ended, State, start, operations, Step, acquire, Run, stop, step,
}
use numaflow_python.Errors.Once.{
  holds, Fresh, Spectator, Executes, AtMostOnce, nobody, somebody, Inv, Inv-start,
}
use numaflow_python.Errors.Once.Steps.{Step-Inv, CanStep, holder_can-Step}

-- One of the calls on the files raised, after those before it were made.
abbrev pub Interrupted : Files → List Op → Files → Type 0
Interrupted before ops files =
    (made : List Op) × (op : Op) × (rest : List Op) × (ops ≡ made ++ op ∷ rest)
    × ((files ≡ run_ops before made) ⊎ (files ≡ interrupted (run_ops before made) op))

module _ (container_type : Str) (calls : ℕ → Option Call) (before : Files) where
  Run-Inv :
      {s t : State}
      → Run container_type s t
      → Inv container_type calls before s
      → Inv container_type calls before t
  Run-Inv stop v = v
  Run-Inv (step {s = s} {t = t} st run) v =
      Run-Inv run (Step-Inv container_type calls before s v t st)

  -- In every interleaving of any number of threads, with file system calls that may fail at any point: no
  -- thread has come past the test of `done`, and the files are untouched; or just one thread has, the
  -- files are what its calls so far make of them, and all of them if it has returned without an exception,
  -- and every other thread has not come to the test or has been refused.
  pub persist_critical_error-AtMostOnce :
      (s : State)
      → Run container_type (start calls before) s
      → AtMostOnce container_type calls before s
  persist_critical_error-AtMostOnce s run =
      (Run-Inv run (Inv-start container_type calls before)).progress

  -- At any time at most one thread is between taking the lock and giving it back.
  pub lock_excludes :
      (s : State) (i j : ℕ)
      → Run container_type (start calls before) s
      → holds (s.threads i) ≡ true
      → holds (s.threads j) ≡ true
      → i ≡ j
  lock_excludes s i j run h k =
      let inv = Run-Inv run (Inv-start container_type calls before) in
      let a = inv.mutex i h in let b = inv.mutex j k in cc

  module _ (s : State) (inv : Inv container_type calls before s)
      (rest : ¬ CanStep container_type calls before s inv) where
    all_ended : (j : ℕ) → (s.threads j ≡ absent) ⊎ ((o : Outcome) × (s.threads j ≡ ended o))
    all_ended j = by_thread (s.threads j) refl
      where
        by_lock : (l : Option ℕ) → s.lock ≡ l → (c : Call) → s.threads j ≡ calling c → ⊥
        by_lock none l c e = rest (_, acquire j c e l refl)
        by_lock (some k) l c e =
            rest (holder_can-Step container_type calls before s inv k _ refl (inv.owner k l))

        by_thread :
            (t : Thread)
            → s.threads j ≡ t
            → (s.threads j ≡ absent) ⊎ ((o : Outcome) × (s.threads j ≡ ended o))
        by_thread absent e = inl e
        by_thread (calling c) e = absurd (by_lock s.lock refl c e)
        by_thread (locked c) e =
            absurd (rest (holder_can-Step container_type calls before s inv j (locked c) e refl))
        by_thread (writing ops) e =
            absurd (rest (holder_can-Step container_type calls before s inv j (writing ops) e refl))
        by_thread (ended o) e = inr (o, e)

    refused : (d : Call) (o : Outcome) → Spectator (some d) (ended o) → o ≡ already_executed
    refused d persisted h = absurd h
    refused d (func_raised x) h = absurd h
    refused d already_executed h = refl

    other_ended :
        (j : ℕ) (d : Call)
        → Spectator (calls j) (s.threads j)
        → calls j ≡ some d
        → s.threads j ≡ ended already_executed
    other_ended j d h e =
        let h' : Spectator (some d) (s.threads j) = subst (λ c. Spectator c (s.threads j)) e h in
        elim (all_ended j) [
          | inl q ↦ let a = subst (Spectator (some d)) q h' in cc
          | inr (o, q) ↦ q ∙ ap ended (refused d o (subst (Spectator (some d)) q h'))
        ]

    executed :
        (ops : List Op) (o : Outcome) (t : Thread) (files : Files)
        → t ≡ ended o
        → Executes before ops (ended o) files
        → ((t ≡ ended persisted) × (files ≡ run_ops before ops))
          ⊎ ((e : Exception) × (t ≡ ended (func_raised e)) × Interrupted before ops files)
    executed ops persisted t files q x = inl (q, x)
    executed ops (func_raised e) t files q x = inr (e, q, x)
    executed ops already_executed t files q x = absurd x

    abbrev OneExecuted : Type 0
    OneExecuted =
        (k : ℕ) × (b : Call) × (now : ℕ) × (calls k ≡ some b)
        × (((s.threads k ≡ ended persisted)
              × (s.files ≡ run_ops before (operations container_type b now)))
            ⊎ ((e : Exception) × (s.threads k ≡ ended (func_raised e))
                × Interrupted before (operations container_type b now) s.files))
        × ((j : ℕ) (d : Call) → j ≢ k → calls j ≡ some d → s.threads j ≡ ended already_executed)

    one_executed : (i : ℕ) (c : Call) → calls i ≡ some c → OneExecuted
    one_executed i c e = elim inv.progress [
      | nobody d f u ↦
          let u' : Fresh (some c) (s.threads i) = subst (λ x. Fresh x (s.threads i)) e (u i) in
          elim (all_ended i) [
            | inl q ↦ let a = subst (Fresh (some c)) q u' in cc
            | inr (o, q) ↦ absurd (subst (Fresh (some c)) q u')
          ]
      | somebody k b now d q x u ↦ elim (all_ended k) [
        | inl a ↦
            absurd (subst (λ t. Executes before (operations container_type b now) t s.files) a x)
        | inr (o, a) ↦ (
          k,
          b,
          now,
          q,
          executed (operations container_type b now) o (s.threads k) s.files a
              (subst (λ t. Executes before (operations container_type b now) t s.files) a x),
          λ j d n. other_ended j d (u j n),
        )
      ]
    ]

  -- When no thread can go on and at least one has called, just one thread has executed the function: its
  -- entry is written, with all calls on the files made; or one of those calls raised, and the files are
  -- what the calls before it make of them, and possibly what that call has left half done. Every other
  -- thread that has called is refused, so no thread waits for ever.
  pub rest_one_executes :
      (s : State) (i : ℕ) (c : Call)
      → Run container_type (start calls before) s
      → ¬ ((t : State) × Step container_type s t)
      → calls i ≡ some c
      → (k : ℕ) × (b : Call) × (now : ℕ) × (calls k ≡ some b)
        × (((s.threads k ≡ ended persisted)
              × (s.files ≡ run_ops before (operations container_type b now)))
            ⊎ ((e : Exception) × (s.threads k ≡ ended (func_raised e))
                × Interrupted before (operations container_type b now) s.files))
        × ((j : ℕ) (d : Call) → j ≢ k → calls j ≡ some d → s.threads j ≡ ended already_executed)
  rest_one_executes s i c run rest e =
      one_executed s (Run-Inv run (Inv-start container_type calls before)) rest i c e
