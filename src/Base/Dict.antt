-- ===== src/Base/Dict.antt =====
-- Python's `dict` with `str` keys: entries in the order of insertion. A write to a key that is there
-- keeps its place.
pub mod Keys
use mathlib.Core.Path.{◌≡◌, refl}
use mathlib.Core.Option.{Option, none, some}
use mathlib.Core.List.{List, [], ◌∷◌}
use native.Mathlib.Omega.{arith}
use numaflow_python.Base.Tests.{if◌then◌else◌}
use numaflow_python.Base.Text.{Str, str_eq, str_eq_iff}

abbrev pub Dict {ℓ} : Type ℓ → Type ℓ
Dict V = List (Str × V)

module _ {ℓ} {V : Type ℓ} where
  -- `d.get(k, None)`
  unfoldable pub get : Dict V → Str → Option V
  get [] k = none
  get ((j, v) ∷ d) k = if str_eq j k then some v else get d k

  -- `d[k] = v`
  unfoldable pub put : Dict V → Str → V → Dict V
  put [] k v = (k, v) ∷ []
  put ((j, w) ∷ d) k v = if str_eq j k then (j, v) ∷ d else (j, w) ∷ put d k v

  -- `d.pop(k)`
  unfoldable pub pop : Dict V → Str → Dict V
  pop [] k = []
  pop ((j, w) ∷ d) k = if str_eq j k then d else (j, w) ∷ pop d k

  abbrev pub keys : Dict V → List Str
  keys [] = []
  keys ((j, v) ∷ d) = j ∷ keys d

  abbrev pub values : Dict V → List V
  values [] = []
  values ((j, v) ∷ d) = v ∷ values d

  pub get-put :
      (d : Dict V) (k j : Str) (v : V)
      → get (put d k v) j ≡ (if str_eq k j then some v else get d j)
  unfolding get put
  get-put [] k j v = refl
  get-put ((i, w) ∷ d) k j v =
      ground (arith, str_eq_iff k j, str_eq_iff i k, str_eq_iff i j, get-put d k j v)

  pub put-put : (d : Dict V) (k : Str) (v w : V) → put (put d k v) k w ≡ put d k w
  unfolding put
  put-put [] k v w = ground (arith, str_eq_iff k k)
  put-put ((i, u) ∷ d) k v w = ground (arith, put-put d k v w)
