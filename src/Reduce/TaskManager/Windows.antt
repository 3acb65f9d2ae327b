-- ===== src/Reduce/TaskManager/Windows.antt =====
-- `get_unique_windows`: one window for each hash, and which.
use numaflow_python.Base.{
  ◌≡◌, inl, inr, Option, none, some, List, [], ◌∷◌, if◌then◌else◌, arith, Option-cases,
}
use numaflow_python.Base.Text.{Str, str_eq, str_eq_iff}
use numaflow_python.Base.Dict
use numaflow_python.Base.Dict.{Dict, get-put}
use numaflow_python.Base.Dict.Keys.{Distinct, put-Distinct}
use numaflow_python.Shared.Proto.{Protobuf}
use numaflow_python.Reduce.Keys.{Window, build_window_hash}
use numaflow_python.Reduce.TaskManager.{
  Task, TaskManager, add_window, unique_windows, get_unique_windows,
}

abbrev or_else {ℓ} : {A : Type ℓ} → Option A → Option A → Option A
or_else none y = y
or_else (some x) y = some x

module _ {pb : Protobuf} where
  -- The window of the first task whose window has that hash.
  abbrev pub first_window : Str → List (Task pb) → Option (Window pb)
  first_window h [] = none
  first_window h (t ∷ ts) =
      if str_eq (build_window_hash pb t.window) h then some t.window else first_window h ts

  add_window-Distinct :
      (d : Dict (Window pb)) (w : Window pb)
      → Distinct (Dict.keys d)
      → Distinct (Dict.keys (add_window d w))
  unfolding add_window
  add_window-Distinct d w h = elim (Option-cases (Dict.get d (build_window_hash pb w))) [
    | inl e ↦ rw (e, add_window) (put-Distinct d _ w h)
    | inr (v, e) ↦ rw (e, add_window) h
  ]

  get-add_window :
      (d : Dict (Window pb)) (w : Window pb) (h : Str)
      → Dict.get (add_window d w) h
        ≡ or_else (Dict.get d h) (if str_eq (build_window_hash pb w) h then some w else none)
  unfolding add_window
  get-add_window d w h = elim (Option-cases (Dict.get d (build_window_hash pb w))) [
    | inl e ↦
        rw (e, add_window)
          (ground
            (arith, get-put d (build_window_hash pb w) h w, str_eq_iff (build_window_hash pb w) h))
    | inr (v, e) ↦ rw (e, add_window) (ground (arith, str_eq_iff (build_window_hash pb w) h))
  ]

  unique_windows-Distinct :
      (d : Dict (Window pb)) (ts : List (Task pb))
      → Distinct (Dict.keys d)
      → Distinct (Dict.keys (unique_windows d ts))
  unfolding unique_windows
  unique_windows-Distinct d [] h = h
  unique_windows-Distinct d (t ∷ ts) h =
      unique_windows-Distinct (add_window d t.window) ts (add_window-Distinct d t.window h)

  get-unique_windows :
      (d : Dict (Window pb)) (ts : List (Task pb)) (h : Str)
      → Dict.get (unique_windows d ts) h ≡ or_else (Dict.get d h) (first_window h ts)
  unfolding unique_windows
  get-unique_windows d [] h = ground arith
  get-unique_windows d (t ∷ ts) h =
      ground (arith, get-unique_windows (add_window d t.window) ts h, get-add_window d t.window h)

  -- The hashes in the result are distinct, and under each hash stands the window of the first task
  -- with that hash: so every window of a task is represented, once, and by a window of a task.
  pub get_unique_windows_exact :
      (tm : TaskManager pb)
      → Distinct (Dict.keys (get_unique_windows tm))
        × ((h : Str) → Dict.get (get_unique_windows tm) h ≡ first_window h (Dict.values tm.tasks))
  unfolding get_unique_windows Dict.get
  get_unique_windows_exact tm = (
    unique_windows-Distinct [] (Dict.values tm.tasks) tt,
    λ h. get-unique_windows [] (Dict.values tm.tasks) h,
  )
