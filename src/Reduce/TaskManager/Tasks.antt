-- ===== src/Reduce/TaskManager/Tasks.antt =====
-- What `create_task` and `append_task` do to the dictionary of tasks and to the queues.
use numaflow_python.Base.{
  ◌≡◌, inl, inr, Bool, true, false, Option, none, some, List, [], ◌∷◌, if◌then◌else◌, arith,
  Option-cases, Bool-cases,
}
use numaflow_python.Base.Text.{Str, str_eq, str_eq_iff, str_eq_refl}
use numaflow_python.Base.Dict
use numaflow_python.Base.Dict.{Dict, get-put}
use numaflow_python.Shared.Queue.{Queue, item, stream_eof, put}
use numaflow_python.Shared.Proto.{Protobuf, Datum}
use numaflow_python.Reduce.Keys.{Window, build_unique_key_name}
use numaflow_python.Reduce.TaskManager.{
  Task, TaskManager, Request, create_task, append_task, create_in, stream_send_eof, send_eof,
}

abbrev pub iterator_of : {pb : Protobuf} → Option (Task pb) → Queue Datum
iterator_of none = []
iterator_of (some t) = t.iterator

abbrev pub is_for : Str → Option Str → Bool
is_for k none = false
is_for k (some j) = str_eq j k

module _ {pb : Protobuf} where
  -- The name of the task that a request is for, if it has one window.
  abbrev pub route : Datum → List (Window pb) → Option Str
  route d [] = none
  route d (w ∷ []) = some (build_unique_key_name pb d.keys w)
  route d (v ∷ w ∷ ws) = none

  abbrev pub lacks_window : List (Window pb) → Bool
  lacks_window [] = true
  lacks_window (w ∷ []) = false
  lacks_window (v ∷ w ∷ ws) = true

  -- All that was put into the queue of the task of that name.
  abbrev pub queue_of : TaskManager pb → Str → Queue Datum
  queue_of tm k = iterator_of (Dict.get tm.tasks k)

  abbrev pub name_of : Request pb → Window pb → Str
  name_of req w = build_unique_key_name pb req.payload.keys w

  -- Opening a keyed window and appending to it do the same, on every request and in every state: the
  -- same error when there is not exactly one window, and else the same new state.
  pub append_task-eq-create_task :
      (tm : TaskManager pb) (req : Request pb) → append_task tm req ≡ create_task tm req
  unfolding append_task create_task create_in
  append_task-eq-create_task tm req = ground arith

  pub queue_of-create_in :
      (tm : TaskManager pb) (req : Request pb) (w : Window pb) (k : Str)
      → queue_of (create_in tm req w) k ≡ (
          if str_eq (name_of req w) k
          then put (queue_of tm k) (item req.payload)
          else queue_of tm k)
  unfolding create_in
  queue_of-create_in tm req w k = elim (Option-cases (Dict.get tm.tasks (name_of req w))) [
    | inl e ↦
        simp (e, create_in, get-put)
          (ground (arith, str_eq_iff (name_of req w) k, str_eq_refl (name_of req w)))
    | inr (t, e) ↦ simp (e, create_in, get-put) (ground (arith, str_eq_iff (name_of req w) k))
  ]

  get-send_eof :
      (d : Dict (Task pb)) (k : Str) (t : Task pb)
      → Dict.get (send_eof d) k ≡ some t
      → (u : Task pb) × (Dict.get d k ≡ some u) × (t.iterator ≡ put u.iterator stream_eof)
  unfolding Dict.get send_eof
  get-send_eof [] k t e = cc
  get-send_eof ((j, u) ∷ d) k t e = elim (Bool-cases (str_eq j k)) [
    | inl p ↦ (u, ground arith, ground arith)
    | inr p ↦ let (v, q, r) = get-send_eof d k t (ground arith) in (v, ground arith, r)
  ]

  -- At the end of the stream each task keeps its queue, and gets the end behind it.
  pub get-stream_send_eof :
      (tm : TaskManager pb) (k : Str) (t : Task pb)
      → Dict.get (stream_send_eof tm).tasks k ≡ some t
      → (u : Task pb) × (Dict.get tm.tasks k ≡ some u) × (t.iterator ≡ put u.iterator stream_eof)
  unfolding stream_send_eof
  get-stream_send_eof tm k t e = get-send_eof tm.tasks k t e
