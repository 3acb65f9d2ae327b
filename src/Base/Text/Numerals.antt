-- ===== src/Base/Text/Numerals.antt =====
-- Decimal numerals and joined texts can be read back.
use Prim.Native.Nat.{ℕ, zero, suc, ◌+◌, ◌-◌, ◌*◌, ◌/◌, ◌≤◌, ◌<◌}
use mathlib.Core.Path.{◌≡◌, refl, ap, sym, ◌∙◌, subst}
use mathlib.Core.Logic.{◌≢◌, inl, inr}
use mathlib.Core.List.{List, [], ◌∷◌, ◌++◌, foldl, foldl-append}
use native.Mathlib.Omega.{arith}
use numaflow_python.Base.Tests.{ltb, Bool-cases}
use numaflow_python.Base.Lists.{All, All-append}
use numaflow_python.Base.Text.{Str, ℤ, pos, negsuc, decimal_digits, decimal, str_int, join}

-- The text does not hold the character.
abbrev pub Free : ℕ → Str → Type 0
Free sep = All (λ c. c ≢ sep)

abbrev value_step : ℕ → ℕ → ℕ
value_step n c = n * 10 + (c - 48)

-- `int(s)` of a text of digits.
value : Str → ℕ
value = foldl value_step 0

value-decimal_digits : (f n : ℕ) → n < f → value (decimal_digits f n) ≡ n
unfolding value decimal_digits
value-decimal_digits zero n h = elim h [ ]
value-decimal_digits (suc f) n h = elim (Bool-cases (ltb n 10)) [
  | inl e ↦ rw e (omega arith)
  | inr e ↦ rw (e, foldl-append) (ground (arith, value-decimal_digits f (n / 10)))
]

pub decimal-injective : (m n : ℕ) → decimal m ≡ decimal n → m ≡ n
unfolding decimal
decimal-injective m n e =
    sym (value-decimal_digits (suc m) m (omega arith))
    ∙ ap value e
    ∙ value-decimal_digits (suc n) n (omega arith)

digit_bound : (f n : ℕ) → All (λ c. (48 ≤ c) × (c < 58)) (decimal_digits f n)
unfolding decimal_digits
digit_bound zero n = tt
digit_bound (suc f) n = elim (Bool-cases (ltb n 10)) [
  | inl e ↦ rw e ((omega arith, ground arith), tt)
  | inr e ↦ rw e (All-append _ _ _ (digit_bound f (n / 10)) ((omega arith, omega arith), tt))
]

Free-of-digits : (s : Str) → All (λ c. (48 ≤ c) × (c < 58)) s → Free b':' s
Free-of-digits [] h = tt
Free-of-digits (c ∷ s) h = ((λ e. absurd (omega arith)), Free-of-digits s h.1)

decimal-Free : (n : ℕ) → Free b':' (decimal n)
unfolding decimal
decimal-Free n = Free-of-digits _ (digit_bound (suc n) n)

-- A numeral does not begin with a sign.
decimal-ne-minus : (n : ℕ) (s : Str) → decimal n ≢ b'-' ∷ s
unfolding decimal
decimal-ne-minus n s e =
    let h = subst (All (λ c. (48 ≤ c) × (c < 58))) e (digit_bound (suc n) n) in
    absurd (omega (arith, h.0.0))

pub str_int-Free : (i : ℤ) → Free b':' (str_int i)
unfolding str_int
str_int-Free (pos n) = decimal-Free n
str_int-Free (negsuc n) = ((λ e. absurd (omega arith)), decimal-Free (suc n))

tail_of : Str → Str
tail_of [] = []
tail_of (c ∷ s) = s

pub str_int-injective : (i j : ℤ) → str_int i ≡ str_int j → i ≡ j
unfolding str_int tail_of
str_int-injective (pos m) (pos n) e = ap pos (decimal-injective m n e)
str_int-injective (pos m) (negsuc n) e = absurd (decimal-ne-minus m _ e)
str_int-injective (negsuc m) (pos n) e = absurd (decimal-ne-minus n _ (sym e))
str_int-injective (negsuc m) (negsuc n) e =
    ap negsuc (omega (arith, decimal-injective (suc m) (suc n) (ap tail_of e)))

module _ (sep : ℕ) where
  -- The text before the first separator and the rest are determined.
  pub split_first :
      (x y r s : Str) → Free sep x → Free sep y → x ++ sep ∷ r ≡ y ++ sep ∷ s → (x ≡ y) × (r ≡ s)
  split_first [] [] r s hx hy e = (refl, cc)
  split_first [] (b ∷ y) r s hx hy e = absurd (hy.0 (cc))
  split_first (a ∷ x) [] r s hx hy e = absurd (hx.0 (cc))
  split_first (a ∷ x) (b ∷ y) r s hx hy e =
      let (p, q) = split_first x y r s hx.1 hy.1 (cc) in (cc, q)

  Free-append : (x r : Str) → ¬ Free sep (x ++ sep ∷ r)
  Free-append [] r h = h.0 refl
  Free-append (a ∷ x) r h = Free-append x r h.1

  -- Joined texts can be told apart, if no part holds the separator and there is a part.
  pub join-injective :
      (x y : Str) (xs ys : List Str)
      → All (Free sep) (x ∷ xs)
      → All (Free sep) (y ∷ ys)
      → join sep (x ∷ xs) ≡ join sep (y ∷ ys)
      → x ∷ xs ≡ y ∷ ys
  unfolding join
  join-injective x y [] [] hx hy e = ap (λ (z : Str). z ∷ []) e
  join-injective x y [] (v ∷ ys) hx hy e = absurd (Free-append y _ (subst (Free sep) e hx.0))
  join-injective x y (u ∷ xs) [] hx hy e = absurd (Free-append x _ (subst (Free sep) (sym e) hy.0))
  join-injective x y (u ∷ xs) (v ∷ ys) hx hy e =
      let (p, q) = split_first x y _ _ hx.0 hy.0 e in
      let rest = join-injective u v xs ys hx.1 hy.1 q in cc

-- A numeral is a text of digits.
pub decimal_bound : (n : ℕ) → All (λ c. (48 ≤ c) × (c < 58)) (decimal n)
unfolding decimal
decimal_bound n = digit_bound (suc n) n
