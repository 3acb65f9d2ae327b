-- ===== src/Tests/ErrorTests.antt =====
-- Persisted errors: one thread calls, another does not.
use numaflow_python.Base.{
  ℕ, ◌≡◌, ◌≢◌, refl, ◌⊎◌, inl, inr, Option, none, some, [], ◌==◌, if◌then◌else◌, Bool-cases,
}
use numaflow_python.Base.Text.{Str, str}
use numaflow_python.Shared.Server.{Exception}
use numaflow_python.Errors.{
  Call, Files, run_ops, persist_critical_error_to_file, persisted, func_raised, already_executed,
  ended, State, start, operations, Step, acquire, refuse, begin, perform, break, finish, Run, stop,
  step,
}
use numaflow_python.Errors.Once.{AtMostOnce}
use numaflow_python.Errors.Once.Ending.{
  persist_critical_error-AtMostOnce, rest_one_executes, Interrupted,
}

abbrev udf : Str
udf = str "udf"

abbrev call : Call
call = record { error_code = []; error_message = str "m"; error_details = str "d" }

abbrev calls : ℕ → Option Call
calls i = if 0 == i then some call else none

abbrev no_files : Files
no_files p = none

-- The thread has returned.
abbrev over : (s : State) × Run udf (start calls no_files) s
unfolding persist_critical_error_to_file
over = (
  _,
  step (acquire 0 call refl refl refl) (
      step (begin 0 call 7 refl refl refl) (
        step (perform 0 _ _ refl refl) (
          step (perform 0 _ _ refl refl) (
            step (perform 0 _ _ refl refl)
              (step (perform 0 _ _ refl refl) (step (finish 0 refl refl) stop)))))),
)

over_rests : ¬ ((t : State) × Step udf over.0 t)
unfolding over
over_rests (t, acquire i c e l q) = elim (Bool-cases (0 == i)) [
  | inl h ↦ let e' = (rw h at e) in cc
  | inr h ↦ let e' = (rw h at e) in cc
]
over_rests (t, refuse i c e d q) = elim (Bool-cases (0 == i)) [
  | inl h ↦ let e' = (rw h at e) in cc
  | inr h ↦ let e' = (rw h at e) in cc
]
over_rests (t, begin i c now e d q) = cc
over_rests (t, perform i op ops e q) = elim (Bool-cases (0 == i)) [
  | inl h ↦ let e' = (rw h at e) in cc
  | inr h ↦ let e' = (rw h at e) in cc
]
over_rests (t, break i op ops x files e f q) = elim (Bool-cases (0 == i)) [
  | inl h ↦ let e' = (rw h at e) in cc
  | inr h ↦ let e' = (rw h at e) in cc
]
over_rests (t, finish i e q) = elim (Bool-cases (0 == i)) [
  | inl h ↦ let e' = (rw h at e) in cc
  | inr h ↦ let e' = (rw h at e) in cc
]

persist_critical_error-AtMostOnce_example : AtMostOnce udf calls no_files over.0
persist_critical_error-AtMostOnce_example =
    persist_critical_error-AtMostOnce udf calls no_files over.0 over.1

rest_one_executes_example :
    (k : ℕ) × (b : Call) × (now : ℕ) × (calls k ≡ some b)
    × (((over.0.threads k ≡ ended persisted)
          × (over.0.files ≡ run_ops no_files (operations udf b now)))
        ⊎ ((e : Exception) × (over.0.threads k ≡ ended (func_raised e))
            × Interrupted no_files (operations udf b now) over.0.files))
    × ((j : ℕ) (d : Call) → j ≢ k → calls j ≡ some d → over.0.threads j ≡ ended already_executed)
rest_one_executes_example =
    rest_one_executes udf calls no_files over.0 0 call over.1 over_rests refl
