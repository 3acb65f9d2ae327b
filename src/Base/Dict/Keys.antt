-- ===== src/Base/Dict/Keys.antt =====
-- The keys of a dictionary are distinct, and stand in the order of the first write.
use mathlib.Core.Path.{◌≡◌, refl}
use mathlib.Core.Logic.{◌≢◌, inl, inr}
use mathlib.Core.Option.{none, some}
use mathlib.Core.List.{List, [], ◌∷◌, ◌++◌}
use native.Mathlib.Omega.{arith}
use numaflow_python.Base.Tests.{Bool-cases}
use numaflow_python.Base.Lists.{All}
use numaflow_python.Base.Text.{Str, str_eq, str_eq_iff}
use numaflow_python.Base.Tests.{if◌then◌else◌}
use numaflow_python.Base.Dict.{Dict, get, put, pop, keys}

abbrev pub Distinct : List Str → Type 0
Distinct [] = Unit
Distinct (x ∷ xs) = All (λ y. y ≢ x) xs × Distinct xs

module _ {ℓ} {V : Type ℓ} where
  All-keys-put :
      (P : Str → Type 0) (d : Dict V) (k : Str) (v : V)
      → P k
      → All P (keys d)
      → All P (keys (put d k v))
  unfolding put
  All-keys-put P [] k v p h = (p, tt)
  All-keys-put P ((j, w) ∷ d) k v p h = elim (Bool-cases (str_eq j k)) [
    | inl e ↦ rw e h
    | inr e ↦ rw e (h.0, All-keys-put P d k v p h.1)
  ]

  pub put-Distinct :
      (d : Dict V) (k : Str) (v : V) → Distinct (keys d) → Distinct (keys (put d k v))
  unfolding put
  put-Distinct [] k v h = (tt, tt)
  put-Distinct ((j, w) ∷ d) k v h = elim (Bool-cases (str_eq j k)) [
    | inl e ↦ rw e h
    | inr e ↦ rw e (
      All-keys-put (λ y. y ≢ j) d k v (λ q. ground (arith, str_eq_iff j k)) h.0,
      put-Distinct d k v h.1,
    )
  ]

  pub keys-put_old : (d : Dict V) (k : Str) (v w : V) → get d k ≡ some w → keys (put d k v) ≡ keys d
  unfolding get put
  keys-put_old [] k v w e = cc
  keys-put_old ((j, u) ∷ d) k v w e = ground (arith, keys-put_old d k v w)

  pub keys-put_new :
      (d : Dict V) (k : Str) (v : V) → get d k ≡ none → keys (put d k v) ≡ keys d ++ k ∷ []
  unfolding get put
  keys-put_new [] k v e = refl
  keys-put_new ((j, u) ∷ d) k v e = ground (arith, keys-put_new d k v)

  get-absent : (d : Dict V) (k : Str) → All (λ y. y ≢ k) (keys d) → get d k ≡ none
  unfolding get
  get-absent [] k h = refl
  get-absent ((j, v) ∷ d) k h = elim (Bool-cases (str_eq j k)) [
    | inl e ↦ absurd (h.0 ((str_eq_iff j k).0 e))
    | inr e ↦ rw e (get-absent d k h.1)
  ]

  -- After `pop` the key is gone, and the other keys have their values.
  pub get-pop :
      (d : Dict V) (k j : Str)
      → Distinct (keys d)
      → get (pop d k) j ≡ (if str_eq k j then none else get d j)
  unfolding get pop
  get-pop [] k j h = ground arith
  get-pop ((i, v) ∷ d) k j h = elim (Bool-cases (str_eq i k)) [
    | inl e ↦ ground (arith, str_eq_iff i k, str_eq_iff i j, str_eq_iff k j, get-absent d i h.0)
    | inr e ↦ ground (arith, str_eq_iff i k, str_eq_iff i j, str_eq_iff k j, get-pop d k j h.1)
  ]

  All-keys-pop : (P : Str → Type 0) (d : Dict V) (k : Str) → All P (keys d) → All P (keys (pop d k))
  unfolding pop
  All-keys-pop P [] k h = tt
  All-keys-pop P ((i, v) ∷ d) k h = elim (Bool-cases (str_eq i k)) [
    | inl e ↦ rw e h.1
    | inr e ↦ rw e (h.0, All-keys-pop P d k h.1)
  ]

  pub pop-Distinct : (d : Dict V) (k : Str) → Distinct (keys d) → Distinct (keys (pop d k))
  unfolding pop
  pop-Distinct [] k h = tt
  pop-Distinct ((i, v) ∷ d) k h = elim (Bool-cases (str_eq i k)) [
    | inl e ↦ rw e h.1
    | inr e ↦ rw e (All-keys-pop (λ y. y ≢ i) d k h.0, pop-Distinct d k h.1)
  ]
