-- ===== src/Reduce/TaskManager/Invariant.antt =====
-- The well-formed states of the task manager.
use numaflow_python.Base.{
  ◌≡◌, ◌≢◌, refl, sym, ◌∙◌, ◌⊎◌, inl, inr, true, false, some, List, [], ◌∷◌, if◌then◌else◌, arith,
  Option-cases, Bool-cases, All, subst,
}
use numaflow_python.Base.Text.{Str, str_eq, str_eq_iff}
use numaflow_python.Base.Dict
use numaflow_python.Base.Dict.{Dict, put-put}
use numaflow_python.Base.Dict.Keys.{Distinct, put-Distinct, keys-put_old, keys-put_new}
use numaflow_python.Shared.Queue.{Queue, Item, item, put}
use numaflow_python.Shared.Server.{ok, raised}
use numaflow_python.Shared.Proto.{Protobuf}
use numaflow_python.Reduce.Keys.{Window, build_unique_key_name}
use numaflow_python.Reduce.TaskManager.{
  Task, TaskManager, Request, init, create_task, create_in, invalid_windows,
}
use numaflow_python.Reduce.TaskManager.Tasks.{
  name_of, is_for, route, lacks_window, queue_of, queue_of-create_in,
}

module _ {ℓ κ} {V : Type ℓ} (P : Str × V → Type κ) where
  All-put : (d : Dict V) (k : Str) (v : V) → All P d → P (k, v) → All P (Dict.put d k v)
  unfolding Dict.put
  All-put [] k v h p = (p, tt)
  All-put ((j, w) ∷ d) k v h p = elim (Bool-cases (str_eq j k)) [
    | inl e ↦ rw e (subst (λ i. P (i, v)) (sym ((str_eq_iff j k).0 e)) p, h.1)
    | inr e ↦ rw e (h.0, All-put d k v h.1 p)
  ]

  All-get : (d : Dict V) (k : Str) (v : V) → All P d → Dict.get d k ≡ some v → P (k, v)
  unfolding Dict.get
  All-get [] k v h e = cc
  All-get ((j, w) ∷ d) k v h e = elim (Bool-cases (str_eq j k)) [
    | inl q ↦ subst P (ground (arith, (str_eq_iff j k).0 q)) h.0
    | inr q ↦ All-get d k v h.1 (ground arith)
  ]

put-ne-nil {ℓ} : {A : Type ℓ} (q : Queue A) (x : Item A) → put q x ≢ []
unfolding put
put-ne-nil [] x e = cc
put-ne-nil (y ∷ q) x e = cc

module _ {pb : Protobuf} where
  -- A task stands under its own name, and something was put into its queue.
  abbrev pub IsEntry : Str × Task pb → Type 0
  IsEntry (k, t) = (k ≡ build_unique_key_name pb t.keys t.window) × (t.iterator ≢ [])

  pub record IsValid (tm : TaskManager pb) : Type 0 where
    pub distinct : Distinct (Dict.keys tm.tasks)
    pub background : tm.background_tasks ≡ Dict.keys tm.tasks
    pub entries : All IsEntry tm.tasks

  pub init-IsValid : IsValid (init {pb = pb})
  init-IsValid = record { distinct = tt; background = refl; entries = tt }

  abbrev new_result : Request pb → Window pb → Task pb
  new_result req w = record {
    keys = req.payload.keys;
    window = w;
    iterator = put [] (item req.payload);
  }

  create_in-IsValid :
      (tm : TaskManager pb) (req : Request pb) (w : Window pb)
      → IsValid tm
      → IsValid (create_in tm req w)
  unfolding create_in
  create_in-IsValid tm req w v = elim (Option-cases (Dict.get tm.tasks (name_of req w))) [
    | inl e ↦
        rw (e, create_in)
          (record {
            distinct = put-Distinct _ _ _ (put-Distinct _ _ _ v.distinct);
            background = rw (put-put, keys-put_new tm.tasks _ (new_result req w) e, v.background);
            entries = rw put-put (All-put IsEntry tm.tasks _ _ v.entries (refl, put-ne-nil _ _));
          })
    | inr (t, e) ↦
        rw (e, create_in)
          (record {
            distinct = put-Distinct _ _ _ v.distinct;
            background = v.background ∙ sym (keys-put_old tm.tasks _ _ t e);
            entries =
                All-put IsEntry tm.tasks _ _ v.entries
                  ((All-get IsEntry tm.tasks _ t v.entries e).0, put-ne-nil _ _);
          })
  ]

  -- `create_task` raises exactly when there is not one window; else the state stays well formed, and
  -- the datum goes to the end of the queue of its task and of no other.
  abbrev pub Created : TaskManager pb → Request pb → TaskManager pb → Type 0
  Created tm req tm' =
      (create_task tm req ≡ ok tm')
      × (IsValid tm → IsValid tm')
      × ((k : Str)
          → queue_of tm' k ≡ (
              if is_for k (route req.payload req.windows)
              then put (queue_of tm k) (item req.payload)
              else queue_of tm k))

  create_windows :
      (tm : TaskManager pb) (req : Request pb) (ws : List (Window pb))
      → req.windows ≡ ws
      → ((lacks_window ws ≡ true) × (create_task tm req ≡ raised invalid_windows))
        ⊎ ((tm' : TaskManager pb) × (lacks_window ws ≡ false) × Created tm req tm')
  unfolding create_task
  create_windows tm req [] e = inl (refl, ground arith)
  create_windows tm req (w ∷ []) e = inr (
    create_in tm req w,
    refl,
    (ground arith, create_in-IsValid tm req w, λ k. simp e (queue_of-create_in tm req w k)),
  )
  create_windows tm req (v ∷ w ∷ ws) e = inl (refl, ground arith)

  pub create_task_cases :
      (tm : TaskManager pb) (req : Request pb)
      → ((lacks_window req.windows ≡ true) × (create_task tm req ≡ raised invalid_windows))
        ⊎ ((tm' : TaskManager pb) × (lacks_window req.windows ≡ false) × Created tm req tm')
  create_task_cases tm req = create_windows tm req req.windows refl
