-- ===== src/Errors/Once/Steps.antt =====
-- Every step keeps the invariant, and the thread with the lock can make one.
use mathlib.Core.List.{append-nil, append_assoc}
use numaflow_python.Base.{
  ℕ, ◌≡◌, refl, sym, ap, ◌∙◌, subst, ◌⊎◌, inl, inr, true, Option, none, some, List, [], ◌∷◌, ◌++◌,
  Bool-cases,
}
use numaflow_python.Base.Text.{Str}
use numaflow_python.Shared.Server.{Exception}
use numaflow_python.Errors.{
  Call, Files, Op, run_op, run_ops, interrupted, persisted, func_raised, already_executed, Thread,
  absent, calling, locked, writing, ended, State, operations, Step, acquire, refuse, begin, perform,
  break, finish,
}
use numaflow_python.Errors.Once.{holds, run_ops-append, Executes, Inv}
use numaflow_python.Errors.Once.Moves.{
  free, others_wait, moved, AtMostOnce-acquire, AtMostOnce-refuse, AtMostOnce-begin, goes_on,
}

module _ (container_type : Str) (calls : ℕ → Option Call) (before : Files) (s : State)
    (inv : Inv container_type calls before s) where
  -- What a perform step makes of the files.
  performed :
      (op : Op) (rest ops : List Op)
      → Executes before ops (writing (op ∷ rest)) s.files
      → Executes before ops (writing rest) (run_op s.files op)
  performed op rest ops (made, e, f) = (
    made ++ op ∷ [],
    e ∙ sym (append_assoc made (op ∷ []) rest),
    ap (λ z. run_op z op) f ∙ sym (run_ops-append before made (op ∷ [])),
  )

  broken :
      (op : Op) (rest ops : List Op) (x : Exception) (files : Files)
      → (files ≡ s.files) ⊎ (files ≡ interrupted s.files op)
      → Executes before ops (writing (op ∷ rest)) s.files
      → Executes before ops (ended (func_raised x)) files
  broken op rest ops x files (inl h) (made, e, f) = (made, op, rest, e, inl (h ∙ f))
  broken op rest ops x files (inr h) (made, e, f) =
      (made, op, rest, e, inr (h ∙ ap (λ z. interrupted z op) f))

  completed :
      (ops : List Op)
      → Executes before ops (writing []) s.files
      → Executes before ops (ended persisted) s.files
  completed ops (made, e, f) = f ∙ ap (run_ops before) (sym (append-nil made) ∙ sym e)

  holder : (i : ℕ) (t : Thread) → s.threads i ≡ t → holds t ≡ true → holds (s.threads i) ≡ true
  holder i t e h = ap holds e ∙ h

  pub Step-Inv : (t : State) → Step container_type s t → Inv container_type calls before t
  Step-Inv t (acquire i c e l q) = subst (Inv container_type calls before) (sym q) (
      moved container_type calls before s inv i (locked c) (some i) s.done s.files
        (λ j n. free container_type calls before s inv l j) refl
        (AtMostOnce-acquire container_type calls before s inv i c e))
  Step-Inv t (refuse i c e d q) = subst (Inv container_type calls before) (sym q) (
      moved container_type calls before s inv i (ended already_executed) none s.done s.files
        (others_wait container_type calls before s inv i (holder i _ e refl)) refl
        (AtMostOnce-refuse container_type calls before s inv i c e d))
  Step-Inv t (begin i c now e d q) =
      let h = holder i _ e refl in
      subst (Inv container_type calls before) (sym q) (
        moved container_type calls before s inv i (writing (operations container_type c now)) s.lock
          true s.files (others_wait container_type calls before s inv i h) (inv.mutex i h)
          (AtMostOnce-begin container_type calls before s inv i c now e d))
  Step-Inv t (perform i op ops e q) =
      let h = holder i _ e refl in
      subst (Inv container_type calls before) (sym q) (
        moved container_type calls before s inv i (writing ops) s.lock s.done (run_op s.files op)
          (others_wait container_type calls before s inv i h) (inv.mutex i h)
          (goes_on container_type calls before s inv i (op ∷ ops) (writing ops) s.lock
            (run_op s.files op) e (λ all. performed op ops all)))
  Step-Inv t (break i op ops x files e f q) = subst (Inv container_type calls before) (sym q) (
      moved container_type calls before s inv i (ended (func_raised x)) none s.done files
        (others_wait container_type calls before s inv i (holder i _ e refl)) refl
        (goes_on container_type calls before s inv i (op ∷ ops) (ended (func_raised x)) none files e
          (λ all. broken op ops all x files f)))
  Step-Inv t (finish i e q) = subst (Inv container_type calls before) (sym q) (
      moved container_type calls before s inv i (ended persisted) none s.done s.files
        (others_wait container_type calls before s inv i (holder i _ e refl)) refl
        (goes_on container_type calls before s inv i [] (ended persisted) none s.files e completed))

  abbrev pub CanStep : Type 0
  CanStep = (t : State) × Step container_type s t

  pub holder_can-Step : (i : ℕ) (t : Thread) → s.threads i ≡ t → holds t ≡ true → CanStep
  holder_can-Step i absent e h = cc
  holder_can-Step i (calling c) e h = cc
  holder_can-Step i (locked c) e h = elim (Bool-cases s.done) [
    | inl d ↦ (_, refuse i c e d refl)
    | inr d ↦ (_, begin i c 0 e d refl)
  ]
  holder_can-Step i (writing []) e h = (_, finish i e refl)
  holder_can-Step i (writing (op ∷ ops)) e h = (_, perform i op ops e refl)
  holder_can-Step i (ended o) e h = cc
