-- ===== src/Base/Lists.antt =====
-- Lists: predicates by recursion, lengths over the native numbers, concatenation of results.
use Prim.Native.Nat.{ℕ, suc}
use mathlib.Core.Path.{◌≡◌, refl}
use mathlib.Core.Bool.{Bool}
use mathlib.Core.Logic.{◌⊎◌, inl, inr}
use mathlib.Core.Path.{ap}
use mathlib.Core.List.{List, [], ◌∷◌, ◌++◌, map}
use numaflow_python.Base.Tests.{if◌then◌else◌}

abbrev pub All {ℓ κ} : {A : Type ℓ} → (A → Type κ) → List A → Type κ
All P [] = Unit
All P (x ∷ xs) = P x × All P xs

module _ {ℓ} {A : Type ℓ} where
  abbrev pub length : List A → ℕ
  length [] = 0
  length (x ∷ xs) = suc (length xs)

  -- The items that pass a test, `[x for x in xs if p(x)]`.
  abbrev pub select : (A → Bool) → List A → List A
  select p [] = []
  select p (x ∷ xs) = if p x then x ∷ select p xs else select p xs

module _ {ℓ κ} {A : Type ℓ} {B : Type κ} where
  abbrev pub flat_map : (A → List B) → List A → List B
  flat_map f [] = []
  flat_map f (x ∷ xs) = f x ++ flat_map f xs

module _ {ℓ κ} {A : Type ℓ} (P : A → Type κ) where
  pub All-append : (xs ys : List A) → All P xs → All P ys → All P (xs ++ ys)
  All-append [] ys hx hy = hy
  All-append (x ∷ xs) ys hx hy = (hx.0, All-append xs ys hx.1 hy)

module _ {ℓ κ} {A : Type ℓ} {B : Type κ} (f g : A → List B) where
  -- Functions that agree everywhere give the same.
  pub flat_map-eq : ((x : A) → f x ≡ g x) → (xs : List A) → flat_map f xs ≡ flat_map g xs
  flat_map-eq h [] = refl
  flat_map-eq h (x ∷ xs) = rw (h x, flat_map-eq h xs) refl

-- Some item of a list has the property.
abbrev pub Some {ℓ} : {A : Type ℓ} → (A → Type 0) → List A → Type 0
Some P [] = ⊥
Some P (x ∷ xs) = P x ⊎ Some P xs

module _ {ℓ} {A : Type ℓ} (P Q : A → Type 0) where
  pub Some-weaken : ((x : A) → P x → Q x) → (xs : List A) → Some P xs → Some Q xs
  Some-weaken f [] s = absurd s
  Some-weaken f (x ∷ xs) (inl p) = inl (f x p)
  Some-weaken f (x ∷ xs) (inr s) = inr (Some-weaken f xs s)

module _ {ℓ κ} {A : Type ℓ} {B : Type κ} (P : B → Type 0) (f : A → B) where
  pub Some-map : (xs : List A) → Some P (map f xs) ≡ Some (λ x. P (f x)) xs
  Some-map [] = refl
  Some-map (x ∷ xs) = ap (λ t. P (f x) ⊎ t) (Some-map xs)

module _ {ℓ} {A : Type ℓ} (P : A → Type 0) where
  pub Some-append_left : (xs ys : List A) → Some P xs → Some P (xs ++ ys)
  Some-append_left [] ys s = absurd s
  Some-append_left (x ∷ xs) ys (inl p) = inl p
  Some-append_left (x ∷ xs) ys (inr s) = inr (Some-append_left xs ys s)

  pub Some-append_right : (xs ys : List A) → Some P ys → Some P (xs ++ ys)
  Some-append_right [] ys s = s
  Some-append_right (x ∷ xs) ys s = inr (Some-append_right xs ys s)

  pub Some-witness : (xs : List A) → Some P xs → (x : A) × P x
  Some-witness [] s = absurd s
  Some-witness (x ∷ xs) (inl p) = (x, p)
  Some-witness (x ∷ xs) (inr s) = Some-witness xs s
