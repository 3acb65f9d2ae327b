-- ===== src/Base/Text.antt =====
-- Python's `str` and `bytes` as lists of code points, decimal numerals and `str.join`.
pub mod Numerals
use Prim.Native.Nat.{ℕ, zero, suc, ◌+◌, ◌/◌, ◌%◌}
use Prim.Native.Char.{code}
use Prim.Native.String.{String}
use mathlib.Core.Path.{◌≡◌, refl}
use mathlib.Core.Logic.{◌↔◌}
use mathlib.Core.Bool.{Bool, true, false, ◌&&◌}
use mathlib.Core.List.{List, [], ◌∷◌, ◌++◌}
use native.Mathlib.Omega.{arith}
use numaflow_python.Base.Tests.{◌==◌, ltb, if◌then◌else◌}

abbrev pub Str : Type 0
Str = List ℕ

abbrev pub Bytes : Type 0
Bytes = List ℕ

-- The code points of a literal.
abbrev pub str : String → Str
str String.[] = []
str (String.◌∷◌ c s) = code c ∷ str s

unfoldable pub str_eq : Str → Str → Bool
str_eq [] [] = true
str_eq [] (b ∷ y) = false
str_eq (a ∷ x) [] = false
str_eq (a ∷ x) (b ∷ y) = (a == b) && str_eq x y

pub str_eq_iff : (x y : Str) → (str_eq x y ≡ true) ↔ (x ≡ y)
unfolding str_eq
str_eq_iff [] [] = (λ _. refl, λ _. refl)
str_eq_iff [] (b ∷ y) = (λ h. cc, λ h. cc)
str_eq_iff (a ∷ x) [] = (λ h. cc, λ h. cc)
str_eq_iff (a ∷ x) (b ∷ y) =
    (λ h. ground (arith, (str_eq_iff x y).0), λ h. ground (arith, (str_eq_iff x y).1))

pub str_eq_refl : (x : Str) → str_eq x x ≡ true
str_eq_refl x = (str_eq_iff x x).1 refl

-- `sep.join(parts)` for a separator of one character.
unfoldable pub join : ℕ → List Str → Str
join sep [] = []
join sep (x ∷ []) = x
join sep (x ∷ y ∷ rest) = x ++ sep ∷ join sep (y ∷ rest)

-- `str(n)`, digits from the most significant on; the fuel is more than the number of digits.
decimal_digits : ℕ → ℕ → Str
decimal_digits zero n = []
decimal_digits (suc f) n =
    let rest = decimal_digits f (n / 10) in
    if ltb n 10 then (48 + n) ∷ [] else rest ++ (48 + n % 10) ∷ []

unfoldable pub decimal : ℕ → Str
unfolding decimal_digits
decimal n = decimal_digits (suc n) n

-- Python's `int`; `negsuc n` is -(n + 1).
pub data ℤ : Type 0 where
  pos : ℕ → ℤ
  negsuc : ℕ → ℤ

-- `str(i)` of an `int`.
unfoldable pub str_int : ℤ → Str
str_int (pos n) = decimal n
str_int (negsuc n) = b'-' ∷ decimal (suc n)
