-- ===== src/Reduce/Keys.antt =====
-- reducer/servicer/task_manager.py, `build_unique_key_name` and `build_window_hash`; the copies in
-- reducestreamer are the same. What names a task, and when two names are equal.
use mathlib.Core.List.{append_assoc}
use numaflow_python.Base.{◌≡◌, refl, List, [], ◌∷◌, ◌++◌, All}
use numaflow_python.Base.Text.{Str, str_int, join}
use numaflow_python.Base.Text.Numerals.{
  Free, split_first, str_int-Free, str_int-injective, join-injective,
}
use numaflow_python.Shared.Proto.{Protobuf}

-- `ReduceWindow`: an interval and a slot
pub record Window (pb : Protobuf) : Type 0 where
  pub start : pb.Timestamp
  pub end : pb.Timestamp
  pub slot : Str

module _ (pb : Protobuf) where
  open pb use {to_milliseconds}

  unfoldable pub build_window_hash : Window pb → Str
  build_window_hash w = str_int (to_milliseconds w.start) ++ b':' ∷ str_int (to_milliseconds w.end)

  unfoldable pub build_unique_key_name : List Str → Window pb → Str
  build_unique_key_name keys w =
      str_int (to_milliseconds w.start)
      ++ b':' ∷ (str_int (to_milliseconds w.end) ++ b':' ∷ join b':' keys)

  -- Both ends of the interval agree to the millisecond.
  pub record SameInterval (v w : Window pb) : Type 0 where
    pub starts : to_milliseconds v.start ≡ to_milliseconds w.start
    pub ends : to_milliseconds v.end ≡ to_milliseconds w.end

  -- Two windows have one hash only when their intervals agree to the millisecond.
  pub build_window_hash-injective :
      (v w : Window pb) → build_window_hash v ≡ build_window_hash w → SameInterval v w
  unfolding build_window_hash
  build_window_hash-injective v w e =
      let (p, q) = split_first b':' _ _ _ _ (str_int-Free _) (str_int-Free _) e in
      record { starts = str_int-injective _ _ p; ends = str_int-injective _ _ q }

  -- If no key holds the delimiter and there are keys on both sides, then two tasks have one name only
  -- when they have the same keys and intervals that agree to the millisecond.
  pub build_unique_key_name-injective :
      (k l : Str) (ks ls : List Str) (v w : Window pb)
      → All (Free b':') (k ∷ ks)
      → All (Free b':') (l ∷ ls)
      → build_unique_key_name (k ∷ ks) v ≡ build_unique_key_name (l ∷ ls) w
      → SameInterval v w × (k ∷ ks ≡ l ∷ ls)
  unfolding build_unique_key_name
  build_unique_key_name-injective k l ks ls v w hk hl e =
      let (p, r) = split_first b':' _ _ _ _ (str_int-Free _) (str_int-Free _) e in
      let (q, s) = split_first b':' _ _ _ _ (str_int-Free _) (str_int-Free _) r in
      (
        record { starts = str_int-injective _ _ p; ends = str_int-injective _ _ q },
        join-injective b':' k l ks ls hk hl s,
      )

  -- The name does not tell apart a key that holds the delimiter and the two keys that it joins: the
  -- keys `x`, `y` and the one key `x:y` have one name in every window, whatever keys come after.
  pub build_unique_key_name_collision :
      (x y : Str) (ks : List Str) (w : Window pb)
      → build_unique_key_name (x ∷ y ∷ ks) w ≡ build_unique_key_name ((x ++ b':' ∷ y) ∷ ks) w
  unfolding build_unique_key_name join
  build_unique_key_name_collision x y [] w = refl
  build_unique_key_name_collision x y (k ∷ ks) w = simp append_assoc
