-- ===== src/Reduce/Servicer/Routing.antt =====
-- Which datums reach which task.
use mathlib.Core.List.{append-nil, append_assoc}
use mathlib.Core.Bool.{false≢true}
use numaflow_python.Base.{
  ◌≡◌, refl, sym, ◌∙◌, ◌⊎◌, inl, inr, Bool, true, false, ◌&&◌, ◌||◌, Option, none, some, List, [],
  ◌∷◌, ◌++◌, map, ◌==◌, if◌then◌else◌, arith, Bool-cases,
}
use numaflow_python.Base.Text.{Str}
use numaflow_python.Shared.Queue.{item, put}
use numaflow_python.Shared.Server.{ok, raised}
use numaflow_python.Shared.Proto.{Protobuf, Datum}
use numaflow_python.Reduce.TaskManager.{
  TaskManager, Request, create_task, open_operation, append_operation, invalid_windows,
}
use numaflow_python.Reduce.TaskManager.Tasks.{
  is_for, route, lacks_window, queue_of, append_task-eq-create_task,
}
use numaflow_python.Reduce.TaskManager.Invariant.{IsValid, create_task_cases}
use numaflow_python.Reduce.Servicer.{on_request, process}

module _ {pb : Protobuf} where
  -- The operation is OPEN or APPEND.
  abbrev pub is_data : Request pb → Bool
  is_data req = req.operation == open_operation || req.operation == append_operation

  abbrev pub target : Request pb → Option Str
  target req = if is_data req then route req.payload req.windows else none

  -- The datums for the task `k`, in the order of the requests.
  abbrev pub datums_for : Str → List (Request pb) → List Datum
  datums_for k [] = []
  datums_for k (r ∷ rs) =
      if is_for k (target r) then r.payload ∷ datums_for k rs else datums_for k rs

  on_request-eq :
      (tm : TaskManager pb) (req : Request pb)
      → on_request tm req ≡ (if is_data req then create_task tm req else ok tm)
  unfolding on_request
  on_request-eq tm req = ground (arith, append_task-eq-create_task tm req)

  -- A data request that has not exactly one window.
  abbrev pub is_bad : Request pb → Bool
  is_bad req = is_data req && lacks_window req.windows

  abbrev pub has_bad : List (Request pb) → Bool
  has_bad [] = false
  has_bad (r ∷ rs) = is_bad r || has_bad rs

  on_request_cases :
      (tm : TaskManager pb) (req : Request pb)
      → ((is_bad req ≡ true) × (on_request tm req ≡ raised invalid_windows))
        ⊎ ((tm' : TaskManager pb) × (is_bad req ≡ false)
            × (on_request tm req ≡ ok tm')
            × (IsValid tm → IsValid tm')
            × ((k : Str)
                → queue_of tm' k ≡ (
                    if is_for k (target req)
                    then put (queue_of tm k) (item req.payload)
                    else queue_of tm k)))
  on_request_cases tm req = elim (Bool-cases (is_data req)) [
    | inl d ↦ elim (create_task_cases tm req) [
      | inl (l, e) ↦ inl (ground arith, on_request-eq tm req ∙ (rw d e))
      | inr (tm', l, c) ↦
          inr (tm', ground arith, on_request-eq tm req ∙ (rw d c.0), c.1, λ k. rw d (c.2 k))
    ]
    | inr d ↦ inr (tm, ground arith, on_request-eq tm req ∙ (rw d refl), λ v. v, λ k. rw d refl)
  ]

  -- The loop ends with an error exactly when a data request has not exactly one window.
  pub process_error :
      (tm : TaskManager pb) (rs : List (Request pb))
      → (process tm rs).1 ≡ (if has_bad rs then some invalid_windows else none)
  unfolding process
  process_error tm [] = refl
  process_error tm (r ∷ rs) = elim (on_request_cases tm r) [
    | inl (b, e) ↦ rw (e, process, b)
    | inr (tm', b, e, _, _) ↦ rw (e, process, b) (process_error tm' rs)
  ]

  -- If every data request has one window, then the loop leaves a well-formed state in which the queue
  -- of each name holds what it held before and then the datums of the requests with that name.
  pub process_routes :
      (tm : TaskManager pb) (rs : List (Request pb))
      → IsValid tm
      → has_bad rs ≡ false
      → IsValid (process tm rs).0
        × ((k : Str) → queue_of (process tm rs).0 k ≡ queue_of tm k ++ map item (datums_for k rs))
  unfolding process put
  process_routes tm [] v h = (v, λ k. sym (append-nil _))
  process_routes tm (r ∷ rs) v h = elim (on_request_cases tm r) [
    | inl (b, e) ↦ absurd (false≢true (ground arith))
    | inr (tm', b, e, keep, q) ↦
        let (v', q') = process_routes tm' rs (keep v) (ground arith) in
        rw (e, process)
          (
            v',
            λ k.
                q' k
                ∙ ground (
                  arith,
                  q k,
                  append_assoc (queue_of tm k) (item r.payload ∷ []) (map item (datums_for k rs)),
                ),
          )
  ]
