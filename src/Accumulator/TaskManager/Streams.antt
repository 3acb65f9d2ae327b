-- ===== src/Accumulator/TaskManager/Streams.antt =====
-- The task manager keeps, for each name, what the reference for the name says.
use mathlib.Core.List.{append-nil, map-append}
use numaflow_python.Base.{
  ◌≡◌, refl, sym, ap, ◌∙◌, inl, inr, true, false, Option, none, some, List, [], ◌∷◌, ◌++◌, map,
  ◌==◌, if◌then◌else◌, arith, Option-cases, Bool-cases,
}
use numaflow_python.Base.Text.{Str, str_eq, str_eq_iff}
use numaflow_python.Base.Dict
use numaflow_python.Base.Dict.{Dict}
use numaflow_python.Base.Dict.Keys.{Distinct, pop-Distinct, get-pop}
use numaflow_python.Shared.Queue.{Queue, item, put}
use numaflow_python.Accumulator.TaskManager.{
  Datum, Request, Task, TaskManager, init, unified_key, close_operation, create_task, close_task,
  on_request, process, ended,
}
use numaflow_python.Accumulator.TaskManager.Sessions.{
  Lane, idle, with_datum, close_lane, is_data, lane_step, lane_run, queues_for, queue_of, filled,
  full, added-filled, queues_for-append, current_of, send-eq-create, current_of-create_task,
  create_task-Distinct, create_task-finished,
}

pub record Follows (k : Str) (tm : TaskManager) (lane : Lane) : Type 0 where
  pub closed : queues_for k tm.finished ≡ map full lane.closed
  pub current : current_of tm k ≡ filled lane.current
  pub distinct : Distinct (Dict.keys tm.tasks)

filled-none : (o : Option (List Datum)) → none ≡ filled o → o ≡ none
filled-none none e = refl
filled-none (some ds) e = cc

filled-some :
    (q : Queue Datum) (o : Option (List Datum))
    → some q ≡ filled o
    → (ds : List Datum) × (o ≡ some ds) × (q ≡ map item ds)
filled-some q none e = cc
filled-some q (some ds) e = (ds, refl, cc)

pub on_request-data :
    (tm : TaskManager) (r : Request) → is_data r ≡ true → on_request tm r ≡ create_task tm r
unfolding on_request
on_request-data tm r d = ground (arith, send-eq-create tm r)

pub on_request-close :
    (tm : TaskManager) (r : Request)
    → is_data r ≡ false
    → (r.operation == close_operation) ≡ true
    → on_request tm r ≡ close_task tm r
unfolding on_request
on_request-close tm r d c = ground arith

pub on_request-other :
    (tm : TaskManager) (r : Request)
    → is_data r ≡ false
    → (r.operation == close_operation) ≡ false
    → on_request tm r ≡ tm
unfolding on_request
on_request-other tm r d c = ground arith

module _ (k : Str) where
  create_task-Follows :
      (tm : TaskManager) (r : Request) (lane : Lane)
      → Follows k tm lane
      → Follows k (create_task tm r) (
          if str_eq (unified_key r) k
          then record { closed = lane.closed; current = some (with_datum lane.current r.payload) }
          else lane)
  create_task-Follows tm r lane f = elim (Bool-cases (str_eq (unified_key r) k)) [
    | inl e ↦
        let h : current_of tm (unified_key r) ≡ filled lane.current =
          ap (current_of tm) ((str_eq_iff (unified_key r) k).0 e) ∙ f.current in
        rw e (record {
          closed = ap (queues_for k) (create_task-finished tm r) ∙ f.closed;
          current =
              current_of-create_task tm r k
              ∙ (rw (e, h) (ap (λ q. some q) (added-filled lane.current r.payload)));
          distinct = create_task-Distinct tm r f.distinct;
        })
    | inr e ↦ rw e (record {
      closed = ap (queues_for k) (create_task-finished tm r) ∙ f.closed;
      current = current_of-create_task tm r k ∙ (rw e f.current);
      distinct = create_task-Distinct tm r f.distinct;
    })
  ]

  abbrev close_step : Lane → Lane
  close_step lane = record { closed = close_lane lane.closed lane.current; current = none }

  close_found :
      (tm : TaskManager) (j : Str) (t : Task) (lane : Lane)
      → Dict.get tm.tasks j ≡ some t
      → Follows k tm lane
      → Follows k
          (record tm { tasks = Dict.pop tm.tasks j; finished = tm.finished ++ (j, ended t) ∷ [] })
          (if str_eq j k then close_step lane else lane)
  unfolding put
  close_found tm j t lane g f = elim (Bool-cases (str_eq j k)) [
    | inl e ↦
        let (ds, p, q) =
          filled-some t.iterator lane.current
            (sym (ap queue_of g) ∙ ap (current_of tm) ((str_eq_iff j k).0 e) ∙ f.current) in
        rw e (record {
          closed =
              queues_for-append k tm.finished _
              ∙ (rw (e, f.closed, q, p) (sym (map-append full lane.closed (ds ∷ []))));
          current = ap queue_of (get-pop tm.tasks j k f.distinct) ∙ (rw e refl);
          distinct = pop-Distinct tm.tasks j f.distinct;
        })
    | inr e ↦ rw e (record {
      closed = queues_for-append k tm.finished _ ∙ (rw (e, f.closed, append-nil) refl);
      current = ap queue_of (get-pop tm.tasks j k f.distinct) ∙ (rw e f.current);
      distinct = pop-Distinct tm.tasks j f.distinct;
    })
  ]

  close_task-Follows :
      (tm : TaskManager) (r : Request) (lane : Lane)
      → Follows k tm lane
      → Follows k (close_task tm r) (if str_eq (unified_key r) k then close_step lane else lane)
  unfolding close_task
  close_task-Follows tm r lane f = elim (Option-cases (Dict.get tm.tasks (unified_key r))) [
    | inr (t, g) ↦ rw (g, close_task) (close_found tm (unified_key r) t lane g f)
    | inl g ↦ elim (Bool-cases (str_eq (unified_key r) k)) [
      | inr e ↦
          rw (g, close_task, e)
            (record { closed = f.closed; current = f.current; distinct = f.distinct })
      | inl e ↦
          let h : none ≡ filled lane.current =
            sym (ap queue_of g)
            ∙ ap (current_of tm) ((str_eq_iff (unified_key r) k).0 e)
            ∙ f.current in
          let n = filled-none lane.current h in
          rw (g, close_task, e, n)
            (record { closed = f.closed; current = f.current ∙ ap filled n; distinct = f.distinct })
    ]
  ]

  pub on_request-Follows :
      (tm : TaskManager) (r : Request) (lane : Lane)
      → Follows k tm lane
      → Follows k (on_request tm r) (if str_eq (unified_key r) k then lane_step lane r else lane)
  on_request-Follows tm r lane f = elim (Bool-cases (is_data r)) [
    | inl d ↦
        let e : on_request tm r ≡ create_task tm r = on_request-data tm r d in
        rw (e, d) (create_task-Follows tm r lane f)
    | inr d ↦ elim (Bool-cases (r.operation == close_operation)) [
      | inl c ↦
          let e : on_request tm r ≡ close_task tm r = on_request-close tm r d c in
          rw (e, d, c) (close_task-Follows tm r lane f)
      | inr c ↦
          let e : on_request tm r ≡ tm = on_request-other tm r d c in rw (e, d, c) (ground arith)
    ]
  ]

  pub process-Follows :
      (tm : TaskManager) (rs : List Request) (lane : Lane)
      → Follows k tm lane
      → Follows k (process tm rs) (lane_run k lane rs)
  unfolding process
  process-Follows tm [] lane f = f
  process-Follows tm (r ∷ rs) lane f =
      process-Follows (on_request tm r) rs _ (on_request-Follows tm r lane f)

  pub init-Follows : Follows k init idle
  unfolding Dict.get
  init-Follows = record { closed = refl; current = refl; distinct = tt }
