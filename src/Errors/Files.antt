-- ===== src/Errors/Files.antt =====
-- The files that `_persist_critical_error_to_file` leaves.
use mathlib.Core.List.{append_cancel_left}
use numaflow_python.Base.{
  ℕ, ◌≡◌, ◌≢◌, refl, sym, inl, inr, false, none, some, [], ◌∷◌, ◌++◌, arith, Bool-cases, All, ◌≤◌,
  ◌<◌,
}
use numaflow_python.Base.Text.{Str, str, str_eq, str_eq_iff, str_eq_refl, decimal}
use numaflow_python.Base.Text.Numerals.{decimal_bound}
use numaflow_python.Errors.{
  current_critical_error_file, Call, whole, Files, run_ops, is_absolute, ends_with_slash, path_join,
  ends_with_slash, entry_of, container_dir, current_file_path, final_file_path,
  persist_critical_error_to_file,
}

path_join_cancel :
    (p x y : Str)
    → is_absolute x ≡ false
    → is_absolute y ≡ false
    → path_join p x ≡ path_join p y
    → x ≡ y
unfolding path_join
path_join_cancel p x y a b e = elim (Bool-cases (ends_with_slash p)) [
  | inl h ↦ append_cancel_left p x y (rw (path_join, a, b, h) at e)
  | inr h ↦ let q = append_cancel_left p (b'/' ∷ x) (b'/' ∷ y) (rw (path_join, a, b, h) at e) in cc
]

abbrev suffix : Str
suffix = str "-udf.json"

numbered-ne-current :
    (s : Str)
    → All (λ c. (48 ≤ c) × (c < 58)) s
    → (is_absolute (s ++ suffix) ≡ false) × (s ++ suffix ≢ current_critical_error_file)
numbered-ne-current [] h = (refl, λ e. cc)
numbered-ne-current (c ∷ s) h =
    (ground (arith, h.0.0, h.0.1), λ e. let q : c ≡ b'c' = cc in absurd (omega (arith, h.0.1, q)))

module _ (container_type : Str) (dir_path : Str) (now : ℕ) where
  abbrev current : Str
  current = current_file_path container_type dir_path

  abbrev final : Str
  final = final_file_path container_type dir_path now

  current-ne-final : current ≢ final
  current-ne-final e =
      let (a, n) = numbered-ne-current (decimal now) (decimal_bound now) in
      n (
        sym (
          path_join_cancel (container_dir container_type dir_path) current_critical_error_file
            (decimal now ++ suffix) refl a e))

  str_eq-ne : {x y : Str} → x ≢ y → str_eq x y ≡ false
  str_eq-ne {x} {y} n = elim (Bool-cases (str_eq x y)) [
    | inl h ↦ absurd (n ((str_eq_iff x y).0 h))
    | inr h ↦ h
  ]

  -- Whatever files there are: when no call on the file system raises, the file with the time in its name
  -- holds the entry for the arguments, the intermediate file is gone, and all other files are as before.
  pub persist_critical_error_to_file_lem :
      (files : Files) (call : Call)
      → let after =
          run_ops files (persist_critical_error_to_file container_type dir_path call now) in
        (after (final_file_path container_type dir_path now)
          ≡ some (whole (entry_of container_type call now)))
        × (after (current_file_path container_type dir_path) ≡ none)
        × ((p : Str)
            → p ≢ current_file_path container_type dir_path
            → p ≢ final_file_path container_type dir_path now
            → after p ≡ files p)
  unfolding persist_critical_error_to_file
  persist_critical_error_to_file_lem files call =
      let d = str_eq-ne current-ne-final in
      let d' = str_eq-ne (λ e. current-ne-final (sym e)) in
      (
        rw (str_eq_refl final, str_eq_refl current) refl,
        rw (d', str_eq_refl current) refl,
        λ p a b. rw (str_eq-ne (λ e. b (sym e)), str_eq-ne (λ e. a (sym e))) refl,
      )
