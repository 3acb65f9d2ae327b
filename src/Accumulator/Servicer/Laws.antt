-- ===== src/Accumulator/Servicer/Laws.antt =====
-- The task manager does what the producer relies on.
use numaflow_python.Base.{
  ◌≡◌, refl, sym, ap, ◌∙◌, subst, inl, inr, true, false, Option, none, some, [], ◌==◌,
  if◌then◌else◌, arith, Bool-cases, Option-cases,
}
use numaflow_python.Base.Text.{Str, str_eq, str_eq_iff, str_eq_refl}
use numaflow_python.Base.Dict
use numaflow_python.Base.Dict.{Dict, get-put}
use numaflow_python.Base.Dict.Keys.{Distinct, pop-Distinct, get-pop}
use numaflow_python.Shared.Queue.{item, put, read_iterator}
use numaflow_python.Shared.Streams.Queues.{IsOpen, yielded-put, put-IsOpen}
use numaflow_python.Shared.Streams.{finish, go, added, Reacts, ManagerLaws}
use numaflow_python.Accumulator.TaskManager.{
  Request, Task, TaskManager, unified_key, close_operation, create_task, close_task,
}
use numaflow_python.Accumulator.TaskManager.Sessions.{is_data, send-eq-create, create_task-Distinct}
use numaflow_python.Accumulator.Servicer.{session_of, close_turn, turn, command, IsValid, manager}

abbrev with_datum : Option Task → Request → Task
with_datum none r = record { keys = r.payload.keys; iterator = put [] (item r.payload) }
with_datum (some t) r = record t { iterator = put t.iterator (item r.payload) }

get-create_task :
    (tm : TaskManager) (r : Request) (k : Str)
    → Dict.get (create_task tm r).tasks k ≡ (
        if str_eq (unified_key r) k
        then some (with_datum (Dict.get tm.tasks (unified_key r)) r)
        else Dict.get tm.tasks k)
unfolding create_task
get-create_task tm r k = elim (Option-cases (Dict.get tm.tasks (unified_key r))) [
  | inl e ↦
      simp (e, create_task, get-put)
        (ground (arith, str_eq_iff (unified_key r) k, str_eq_refl (unified_key r)))
  | inr (t, e) ↦ simp (e, create_task, get-put) (ground (arith, str_eq_iff (unified_key r) k))
]

OpenOption : Option Task → Type 0
OpenOption o = (t : Task) → o ≡ some t → IsOpen t.iterator

session_of-with_datum :
    (o : Option Task) (r : Request)
    → OpenOption o
    → (session_of (some (with_datum o r)) ≡ some (added (session_of o) r.payload.keys r.payload))
      × IsOpen (with_datum o r).iterator
unfolding OpenOption put read_iterator
session_of-with_datum none r h = (refl, refl)
session_of-with_datum (some t) r h = (
  ap (λ ds. some (record { info = t.keys; datums = ds }))
      (yielded-put t.iterator r.payload (h t refl)),
  put-IsOpen t.iterator r.payload (h t refl),
)

create_task-Reacts :
    (tm : TaskManager) (r : Request)
    → IsValid tm
    → IsValid (create_task tm r)
      × ((k : Str)
          → session_of (Dict.get (create_task tm r).tasks k) ≡ (
              if str_eq (unified_key r) k
              then some
                  (added (session_of (Dict.get tm.tasks (unified_key r))) r.payload.keys r.payload)
              else session_of (Dict.get tm.tasks k)))
unfolding OpenOption
create_task-Reacts tm r v =
    let (e, o) =
      session_of-with_datum (Dict.get tm.tasks (unified_key r)) r (v.open_tasks (unified_key r)) in
    (
      record {
        distinct = create_task-Distinct tm r v.distinct;
        open_tasks = λ k t q. elim (Bool-cases (str_eq (unified_key r) k)) [
          | inl h ↦
              let p : some (with_datum (Dict.get tm.tasks (unified_key r)) r) ≡ some t =
                sym (get-create_task tm r k ∙ (rw h refl)) ∙ q in
              let p' : with_datum (Dict.get tm.tasks (unified_key r)) r ≡ t = cc in
              subst (λ u. IsOpen u.iterator) p' o
          | inr h ↦ v.open_tasks k t (sym (get-create_task tm r k ∙ (rw h refl)) ∙ q)
        ];
      },
      λ k. elim (Bool-cases (str_eq (unified_key r) k)) [
        | inl h ↦ ap session_of (get-create_task tm r k) ∙ (rw h e)
        | inr h ↦ ap session_of (get-create_task tm r k) ∙ (rw h refl)
      ],
    )

turn-data : (tm : TaskManager) (r : Request) → is_data r ≡ true → turn tm r ≡ go (create_task tm r)
unfolding turn
turn-data tm r d = ground (arith, send-eq-create tm r)

turn-close :
    (tm : TaskManager) (r : Request)
    → is_data r ≡ false
    → (r.operation == close_operation) ≡ true
    → turn tm r ≡ close_turn tm r
unfolding turn
turn-close tm r d c = ground arith

turn-other :
    (tm : TaskManager) (r : Request)
    → is_data r ≡ false
    → (r.operation == close_operation) ≡ false
    → turn tm r ≡ go tm
unfolding turn
turn-other tm r d c = ground arith

tasks-close_task :
    (tm : TaskManager) (r : Request) (t : Task)
    → Dict.get tm.tasks (unified_key r) ≡ some t
    → (close_task tm r).tasks ≡ Dict.pop tm.tasks (unified_key r)
unfolding close_task
tasks-close_task tm r t e = rw (e, close_task) refl

get-close_task :
    (tm : TaskManager) (r : Request) (t : Task) (k : Str)
    → Distinct (Dict.keys tm.tasks)
    → Dict.get tm.tasks (unified_key r) ≡ some t
    → Dict.get (close_task tm r).tasks k
      ≡ (if str_eq (unified_key r) k then none else Dict.get tm.tasks k)
get-close_task tm r t k v e =
    ap (λ d. Dict.get d k) (tasks-close_task tm r t e) ∙ get-pop tm.tasks (unified_key r) k v

close_task-IsValid :
    (tm : TaskManager) (r : Request) (t : Task)
    → IsValid tm
    → Dict.get tm.tasks (unified_key r) ≡ some t
    → IsValid (close_task tm r)
close_task-IsValid tm r t v e = record {
  distinct =
      subst (λ d. Distinct (Dict.keys d)) (sym (tasks-close_task tm r t e))
        (pop-Distinct tm.tasks (unified_key r) v.distinct);
  open_tasks = λ k u q.
      let g = sym (get-close_task tm r t k v.distinct e) ∙ q in
      elim (Bool-cases (str_eq (unified_key r) k)) [
        | inl h ↦ let g' : ◌≡◌ {A = Option Task} none (some u) = (rw h at g) in cc
        | inr h ↦ v.open_tasks k u (rw h at g)
      ];
}

close_turn-Reacts :
    (tm : TaskManager) (r : Request)
    → IsValid tm
    → Reacts manager tm (finish (unified_key r)) (close_turn tm r)
unfolding close_turn
close_turn-Reacts tm r v = elim (Option-cases (Dict.get tm.tasks (unified_key r))) [
  | inl e ↦ rw (e, close_turn) (ap session_of e)
  | inr (t, e) ↦
      rw (e, close_turn)
        (
          refl,
          ap session_of e,
          close_task-IsValid tm r t v e,
          λ k. elim (Bool-cases (str_eq (unified_key r) k)) [
            | inl h ↦ rw (get-close_task tm r t k v.distinct e, h) refl
            | inr h ↦ rw (get-close_task tm r t k v.distinct e, h) refl
          ],
        )
]

turn-Reacts :
    (tm : TaskManager) (r : Request) → IsValid tm → Reacts manager tm (command r) (turn tm r)
turn-Reacts tm r v = elim (Bool-cases (is_data r)) [
  | inl d ↦ rw (d, turn-data tm r d) (create_task-Reacts tm r v)
  | inr d ↦ elim (Bool-cases (r.operation == close_operation)) [
    | inl c ↦ rw (d, c, turn-close tm r d c) (close_turn-Reacts tm r v)
    | inr c ↦ rw (d, c, turn-other tm r d c) refl
  ]
]

pub laws : ManagerLaws manager
unfolding Dict.get
laws = record {
  init_valid = record { distinct = tt; open_tasks = λ k t q. cc };
  init_task = λ k. refl;
  reacts = turn-Reacts;
}
