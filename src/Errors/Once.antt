-- ===== src/Errors/Once.antt =====
-- Of all the threads that call `persist_critical_error`, one executes.
pub mod Moves
pub mod Steps
pub mod Ending
use mathlib.Core.List.{append-nil, append_assoc}
use numaflow_python.Base.{
  ℕ, ◌≡◌, ◌≢◌, refl, sym, ap, ◌∙◌, subst, ◌⊎◌, inl, inr, Bool, true, false, Option, none, some,
  List, [], ◌∷◌, ◌++◌, ◌==◌, ==_iff, if◌then◌else◌, arith, Bool-cases,
}
use numaflow_python.Base.Text.{Str}
use numaflow_python.Shared.Server.{Exception}
use numaflow_python.Errors.{
  Call, Files, Op, run_op, run_ops, interrupted, Outcome, persisted, func_raised, already_executed,
  Thread, absent, calling, locked, writing, ended, State, set_thread, thread_of, start, operations,
  Step, acquire, refuse, begin, perform, break, finish, Run, stop, step,
}

-- The thread has the lock.
abbrev pub holds : Thread → Bool
holds absent = false
holds (calling c) = false
holds (locked c) = true
holds (writing ops) = true
holds (ended o) = false

-- A thread that has not come to `self.done`.
abbrev pub Fresh : Option Call → Thread → Type 0
Fresh c (calling d) = c ≡ some d
Fresh c (locked d) = c ≡ some d
Fresh c absent = c ≡ none
Fresh c (writing ops) = ⊥
Fresh c (ended o) = ⊥

-- A thread that does not execute the function.
abbrev pub Spectator : Option Call → Thread → Type 0
Spectator c (ended already_executed) = Unit
Spectator c t = Fresh c t

pub Fresh-Spectator : (c : Option Call) (t : Thread) → Fresh c t → Spectator c t
Fresh-Spectator c absent h = h
Fresh-Spectator c (calling d) h = h
Fresh-Spectator c (locked d) h = h
Fresh-Spectator c (writing ops) h = absurd h
Fresh-Spectator c (ended o) h = absurd h

pub run_ops-append :
    (files : Files) (xs ys : List Op) → run_ops files (xs ++ ys) ≡ run_ops (run_ops files xs) ys
run_ops-append files [] ys = refl
run_ops-append files (x ∷ xs) ys = run_ops-append (run_op files x) xs ys

-- The thread that executes `ops` on the files: how far it is, and what it leaves.
abbrev pub Executes : Files → List Op → Thread → Files → Type 0
Executes before ops (writing rest) files =
    (made : List Op) × (ops ≡ made ++ rest) × (files ≡ run_ops before made)
Executes before ops (ended persisted) files = files ≡ run_ops before ops
Executes before ops (ended (func_raised e)) files =
    (made : List Op) × (op : Op) × (rest : List Op) × (ops ≡ made ++ op ∷ rest)
    × ((files ≡ run_ops before made) ⊎ (files ≡ interrupted (run_ops before made) op))
Executes before ops _ files = ⊥

module _ (container_type : Str) (calls : ℕ → Option Call) (before : Files) where
  -- No thread has executed the function, or just one, whose arguments and time are these.
  pub data AtMostOnce (s : State) : Type 0 where
    nobody :
        s.done ≡ false → s.files ≡ before → ((j : ℕ) → Fresh (calls j) (s.threads j)) → AtMostOnce s
    somebody :
        (i : ℕ) (c : Call) (now : ℕ)
        → s.done ≡ true
        → calls i ≡ some c
        → Executes before (operations container_type c now) (s.threads i) s.files
        → ((j : ℕ) → j ≢ i → Spectator (calls j) (s.threads j))
        → AtMostOnce s

  pub record Inv (s : State) : Type 0 where
    pub mutex : (j : ℕ) → holds (s.threads j) ≡ true → s.lock ≡ some j
    pub owner : (j : ℕ) → s.lock ≡ some j → holds (s.threads j) ≡ true
    pub progress : AtMostOnce s

  Fresh-start : (c : Option Call) → Fresh c (thread_of c) × (holds (thread_of c) ≡ false)
  Fresh-start none = (refl, refl)
  Fresh-start (some c) = (refl, refl)

  pub Inv-start : Inv (start calls before)
  Inv-start = record {
    mutex = λ j h. let e = (Fresh-start (calls j)).1 in cc;
    owner = λ j h. cc;
    progress = nobody refl refl (λ j. (Fresh-start (calls j)).0);
  }
