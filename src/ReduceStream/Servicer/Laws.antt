-- ===== src/ReduceStream/Servicer/Laws.antt =====
-- The task manager does what the producer relies on.
use numaflow_python.Base.{
  ◌≡◌, refl, sym, ap, ◌∙◌, subst, inl, inr, true, false, Option, none, some, List, [], ◌∷◌,
  if◌then◌else◌, arith, Bool-cases, Option-cases,
}
use numaflow_python.Base.Text.{Str, str_eq, str_eq_iff, str_eq_refl}
use numaflow_python.Base.Dict
use numaflow_python.Base.Dict.{get-put}
use numaflow_python.Shared.Queue.{item, put, read_iterator}
use numaflow_python.Shared.Proto.{Protobuf}
use numaflow_python.Shared.Streams.{go, abort, added, Reacts, ManagerLaws}
use numaflow_python.Shared.Streams.Queues.{IsOpen, yielded-put, put-IsOpen}
use numaflow_python.Reduce.Keys.{Window}
use numaflow_python.Reduce.TaskManager.{Request, Task, TaskManager}
use numaflow_python.Reduce.TaskManager.Tasks.{name_of, lacks_window}
use numaflow_python.Reduce.Servicer.Routing.{is_data}
use numaflow_python.ReduceStream.{
  put_item, create_in, with_one_window, create_task, send_datum_to_task, on_request,
}
use numaflow_python.ReduceStream.Servicer.{
  session_of, turn, windows_error, placed, command, IsValid, manager,
}

module _ {pb : Protobuf} where
  abbrev with_datum : Option (Task pb) → Request pb → Window pb → Task pb
  with_datum none r w = record {
    keys = r.payload.keys;
    window = w;
    iterator = put [] (item r.payload);
  }
  with_datum (some t) r w = record t { iterator = put t.iterator (item r.payload) }

  get-create_in :
      (tm : TaskManager pb) (r : Request pb) (w : Window pb) (k : Str)
      → Dict.get (create_in tm r w).tasks k ≡ (
          if str_eq (name_of r w) k
          then some (with_datum (Dict.get tm.tasks (name_of r w)) r w)
          else Dict.get tm.tasks k)
  unfolding create_in put_item
  get-create_in tm r w k = elim (Option-cases (Dict.get tm.tasks (name_of r w))) [
    | inl e ↦
        simp (e, create_in, put_item, get-put)
          (ground (arith, str_eq_iff (name_of r w) k, str_eq_refl (name_of r w)))
    | inr (t, e) ↦
        simp (e, create_in, put_item, get-put) (ground (arith, str_eq_iff (name_of r w) k))
  ]

  OpenOption : Option (Task pb) → Type 0
  OpenOption o = (t : Task pb) → o ≡ some t → IsOpen t.iterator

  session_of-with_datum :
      (o : Option (Task pb)) (r : Request pb) (w : Window pb)
      → OpenOption o
      → (session_of (some (with_datum o r w))
          ≡ some (added (session_of o) (r.payload.keys, w) r.payload))
        × IsOpen (with_datum o r w).iterator
  unfolding OpenOption put read_iterator
  session_of-with_datum none r w h = (refl, refl)
  session_of-with_datum (some t) r w h = (
    ap (λ ds. some (record { info = (t.keys, t.window); datums = ds }))
        (yielded-put t.iterator r.payload (h t refl)),
    put-IsOpen t.iterator r.payload (h t refl),
  )

  create_in-Reacts :
      (tm : TaskManager pb) (r : Request pb) (w : Window pb)
      → IsValid tm
      → Reacts (manager pb) tm (placed r (w ∷ [])) (go (create_in tm r w))
  unfolding OpenOption
  create_in-Reacts tm r w v =
      let (e, o) =
        session_of-with_datum (Dict.get tm.tasks (name_of r w)) r w (v.open_tasks (name_of r w)) in
      (
        record {
          open_tasks = λ k t q. elim (Bool-cases (str_eq (name_of r w) k)) [
            | inl h ↦
                let p : some (with_datum (Dict.get tm.tasks (name_of r w)) r w) ≡ some t =
                  sym (get-create_in tm r w k ∙ (rw h refl)) ∙ q in
                let p' : with_datum (Dict.get tm.tasks (name_of r w)) r w ≡ t = cc in
                subst (λ u. IsOpen u.iterator) p' o
            | inr h ↦ v.open_tasks k t (sym (get-create_in tm r w k ∙ (rw h refl)) ∙ q)
          ];
        },
        λ k. elim (Bool-cases (str_eq (name_of r w) k)) [
          | inl h ↦ ap session_of (get-create_in tm r w k) ∙ (rw h e)
          | inr h ↦ ap session_of (get-create_in tm r w k) ∙ (rw h refl)
        ],
      )

  turn-one :
      (tm : TaskManager pb) (r : Request pb) (w : Window pb)
      → is_data r ≡ true
      → r.windows ≡ w ∷ []
      → turn tm r ≡ go (create_in tm r w)
  unfolding turn on_request create_task send_datum_to_task with_one_window create_in put_item
  turn-one tm r w d e = ground arith

  turn-bad :
      (tm : TaskManager pb) (r : Request pb) (ws : List (Window pb))
      → is_data r ≡ true
      → r.windows ≡ ws
      → lacks_window ws ≡ true
      → turn tm r ≡ abort (windows_error r)
  unfolding turn on_request create_task send_datum_to_task with_one_window
  turn-bad tm r [] d e l = ground arith
  turn-bad tm r (w ∷ []) d e l = cc
  turn-bad tm r (v ∷ w ∷ ws) d e l = ground arith

  turn-other : (tm : TaskManager pb) (r : Request pb) → is_data r ≡ false → turn tm r ≡ go tm
  unfolding turn on_request
  turn-other tm r d = ground arith

  data-Reacts :
      (tm : TaskManager pb) (r : Request pb) (ws : List (Window pb))
      → IsValid tm
      → is_data r ≡ true
      → r.windows ≡ ws
      → Reacts (manager pb) tm (placed r ws) (turn tm r)
  data-Reacts tm r [] v d e = rw (turn-bad tm r [] d e refl) refl
  data-Reacts tm r (w ∷ []) v d e = rw (turn-one tm r w d e) (create_in-Reacts tm r w v)
  data-Reacts tm r (w ∷ x ∷ ws) v d e = rw (turn-bad tm r (w ∷ x ∷ ws) d e refl) refl

  turn-Reacts :
      (tm : TaskManager pb) (r : Request pb)
      → IsValid tm
      → Reacts (manager pb) tm (command r) (turn tm r)
  turn-Reacts tm r v = elim (Bool-cases (is_data r)) [
    | inl d ↦ rw d (data-Reacts tm r r.windows v d refl)
    | inr d ↦ rw (d, turn-other tm r d) refl
  ]

  pub laws : ManagerLaws (manager pb)
  unfolding Dict.get
  laws = record {
    init_valid = record { open_tasks = λ k t q. cc };
    init_task = λ k. refl;
    reacts = turn-Reacts;
  }
