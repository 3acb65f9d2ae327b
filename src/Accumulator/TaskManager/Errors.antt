-- ===== src/Accumulator/TaskManager/Errors.antt =====
-- The errors of the loop over the requests.
use mathlib.Core.List.{append-nil, append_assoc}
use numaflow_python.Base.{
  ◌≡◌, refl, sym, ap, ◌∙◌, inl, inr, Bool, true, false, ◌&&◌, not, Option, none, some, List, [],
  ◌∷◌, ◌++◌, ◌==◌, if◌then◌else◌, arith, Option-cases, Bool-cases, subst,
}
use numaflow_python.Base.Text.{Str, str_eq}
use numaflow_python.Base.Dict
use numaflow_python.Base.Dict.{Dict}
use numaflow_python.Shared.Server.{Exception}
use numaflow_python.Accumulator.TaskManager.{
  Datum, Request, Task, TaskManager, init, unified_key, close_operation, create_task, close_task,
  on_request, process, process_input_stream, task_not_found,
}
use numaflow_python.Accumulator.TaskManager.Sessions.{
  Lane, idle, is_data, lane_step, lane_run, queue_of, filled,
}
use numaflow_python.Accumulator.TaskManager.Streams.{
  Follows, on_request-data, on_request-close, on_request-other, on_request-Follows, init-Follows,
}

abbrev is_none : {A : Type 0} → Option A → Bool
is_none none = true
is_none (some a) = false

abbrev pub is_close : Request → Bool
is_close r = not (is_data r) && (r.operation == close_operation)

-- The errors for the requests after `past`: one for each CLOSE at which no session of its name is open.
abbrev pub unmatched : List Request → List Request → List Exception
unmatched past [] = []
unmatched past (r ∷ rs) =
    let rest = unmatched (past ++ r ∷ []) rs in
    if is_close r && is_none (lane_run (unified_key r) idle past).current
    then task_not_found ∷ rest
    else rest

lane_run-append :
    (k : Str) (lane : Lane) (rs : List Request) (r : Request)
    → lane_run k lane (rs ++ r ∷ [])
      ≡ (if str_eq (unified_key r) k then lane_step (lane_run k lane rs) r else lane_run k lane rs)
lane_run-append k lane [] r = refl
lane_run-append k lane (q ∷ rs) r =
    lane_run-append k (if str_eq (unified_key q) k then lane_step lane q else lane) rs r

is_none-filled :
    (o : Option Task) (p : Option (List Datum)) → queue_of o ≡ filled p → is_none o ≡ is_none p
is_none-filled none none e = refl
is_none-filled (some t) (some ds) e = refl
is_none-filled none (some ds) e = cc
is_none-filled (some t) none e = cc

create_task-errors : (tm : TaskManager) (r : Request) → (create_task tm r).errors ≡ tm.errors
unfolding create_task
create_task-errors tm r = ground arith

close_task-errors :
    (tm : TaskManager) (r : Request)
    → (close_task tm r).errors
      ≡ tm.errors
        ++ (if is_none (Dict.get tm.tasks (unified_key r)) then task_not_found ∷ [] else [])
unfolding close_task
close_task-errors tm r = elim (Option-cases (Dict.get tm.tasks (unified_key r))) [
  | inl e ↦ rw (e, close_task) refl
  | inr (t, e) ↦ rw (e, close_task) (sym (append-nil tm.errors))
]

on_request-errors :
    (tm : TaskManager) (r : Request)
    → (on_request tm r).errors
      ≡ tm.errors
        ++ (if is_close r && is_none (Dict.get tm.tasks (unified_key r))
            then task_not_found ∷ []
            else [])
on_request-errors tm r = elim (Bool-cases (is_data r)) [
  | inl d ↦
      ap (λ u. u.errors) (on_request-data tm r d)
      ∙ create_task-errors tm r
      ∙ (rw d (sym (append-nil tm.errors)))
  | inr d ↦ elim (Bool-cases (r.operation == close_operation)) [
    | inl c ↦
        ap (λ u. u.errors) (on_request-close tm r d c) ∙ close_task-errors tm r ∙ (rw (d, c) refl)
    | inr c ↦
        ap (λ u. u.errors) (on_request-other tm r d c) ∙ (rw (d, c) (sym (append-nil tm.errors)))
  ]
]

process-errors :
    (tm : TaskManager) (past rs : List Request)
    → ((k : Str) → Follows k tm (lane_run k idle past))
    → (process tm rs).errors ≡ tm.errors ++ unmatched past rs
unfolding process
process-errors tm past [] f = sym (append-nil tm.errors)
process-errors tm past (r ∷ rs) f =
    let h : is_none (Dict.get tm.tasks (unified_key r))
        ≡ is_none (lane_run (unified_key r) idle past).current =
      is_none-filled _ _ (Follows.current (f (unified_key r))) in
    process-errors (on_request tm r) (past ++ r ∷ []) rs (λ k.
      subst (Follows k (on_request tm r)) (sym (lane_run-append k idle past r))
        (on_request-Follows k tm r _ (f k)))
    ∙ ap (λ l. l ++ unmatched (past ++ r ∷ []) rs) (on_request-errors tm r)
    ∙ append_assoc tm.errors _ _
    ∙ (rw h (ground arith))

-- Whatever the requests, in the runs in which the waits for closed tasks end: the loop puts one error
-- into the queue of all results for each CLOSE at which no task of its name is open, and no other.
pub process_input_stream-errors :
    (rs : List Request) → (process_input_stream rs).errors ≡ unmatched [] rs
unfolding process_input_stream
process_input_stream-errors rs = process-errors init [] rs (λ k. init-Follows k)
