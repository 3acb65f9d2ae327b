-- ===== src/Shared/Interleave.antt =====
-- Interleavings: what several sequential producers may put into one queue.
pub mod Errors
use mathlib.Core.List.{append_assoc, Perm, perm_middle, Sublist, nil-sublist}
use mathlib.Core.List.Perm
use mathlib.Core.List.Sublist
use numaflow_python.Base.{◌≡◌, refl, sym, ap, ◌∙◌, List, [], ◌∷◌, ◌++◌, All, subst}

module _ {ℓ} {A : Type ℓ} where
  -- One producer after another puts its next item, or has none left and goes.
  pub data Interleaves : List (List A) → List A → Type ℓ where
    end : Interleaves [] []
    emit :
        {xss yss : List (List A)} {zs : List A} (us : List (List A)) (x : A) (xs : List A)
        (vs : List (List A))
        → xss ≡ us ++ (x ∷ xs) ∷ vs
        → yss ≡ us ++ xs ∷ vs
        → Interleaves yss zs
        → Interleaves xss (x ∷ zs)
    leave :
        {xss yss : List (List A)} {zs : List A} (us vs : List (List A))
        → xss ≡ us ++ [] ∷ vs
        → yss ≡ us ++ vs
        → Interleaves yss zs
        → Interleaves xss zs

  abbrev pub flatten : List (List A) → List A
  flatten [] = []
  flatten (xs ∷ xss) = xs ++ flatten xss

  flatten-append : (us vs : List (List A)) → flatten (us ++ vs) ≡ flatten us ++ flatten vs
  flatten-append [] vs = refl
  flatten-append (u ∷ us) vs = rw (flatten-append us vs, append_assoc u)

  -- An interleaving has the items of all producers, each as often.
  pub Interleaves-perm :
      {xss : List (List A)} {zs : List A} → Interleaves xss zs → Perm zs (flatten xss)
  Interleaves-perm end = Perm.refl []
  Interleaves-perm (emit {zs = zs} us x xs vs e f h) =
      rw (e, flatten-append us ((x ∷ xs) ∷ vs))
        (Perm.trans
          (Perm.cons x (
            subst (λ l. Perm zs l) (ap flatten f ∙ flatten-append us (xs ∷ vs))
              (Interleaves-perm h)))
          (Perm.symm (perm_middle (flatten us) (xs ++ flatten vs))))
  Interleaves-perm (leave us vs e f h) =
      rw (e, flatten-append us ([] ∷ vs)) (rw (← flatten-append us vs, ← f) (Interleaves-perm h))

  All-weaken :
      (P Q : List A → Type ℓ)
      → ((xs : List A) → P xs → Q xs)
      → (xss : List (List A)) → All P xss
      → All Q xss
  All-weaken P Q f [] h = tt
  All-weaken P Q f (xs ∷ xss) h = (f xs h.0, All-weaken P Q f xss h.1)

  -- A statement about all lists of `us ++ ys ∷ vs` changes at `ys` alone, and weakens elsewhere.
  All-middle :
      (P Q : List A → Type ℓ) (us vs : List (List A)) (xs ys : List A)
      → ((l : List A) → P l → Q l)
      → (P xs → Q ys)
      → All P (us ++ xs ∷ vs)
      → All Q (us ++ ys ∷ vs)
  All-middle P Q [] vs xs ys f g h = (g h.0, All-weaken P Q f vs h.1)
  All-middle P Q (u ∷ us) vs xs ys f g h = (f u h.0, All-middle P Q us vs xs ys f g h.1)

  All-insert :
      (P : List A → Type ℓ) (us vs : List (List A)) (ys : List A)
      → P ys
      → All P (us ++ vs)
      → All P (us ++ ys ∷ vs)
  All-insert P [] vs ys p h = (p, h)
  All-insert P (u ∷ us) vs ys p h = (h.0, All-insert P us vs ys p h.1)

  -- Each producer's items stand in the interleaving in their order.
  pub Interleaves-sublist :
      {xss : List (List A)} {zs : List A} → Interleaves xss zs → All (λ xs. Sublist xs zs) xss
  Interleaves-sublist end = tt
  Interleaves-sublist (emit {zs = zs} us x xs vs e f h) = rw e (
      All-middle (λ l. Sublist l zs) (λ l. Sublist l (x ∷ zs)) us vs xs (x ∷ xs)
        (λ l. Sublist.cons x) (Sublist.cons-cons x) (rw (← f) (Interleaves-sublist h)))
  Interleaves-sublist (leave {zs = zs} us vs e f h) =
      rw e (
        All-insert (λ l. Sublist l zs) us vs [] (nil-sublist zs) (rw (← f) (Interleaves-sublist h)))

module _ {ℓ κ} {A : Type ℓ} (P : A → Type κ) where
  All-take :
      (us : List (List A)) (x : A) (xs : List A) (vs : List (List A))
      → All (All P) (us ++ (x ∷ xs) ∷ vs)
      → P x × All (All P) (us ++ xs ∷ vs)
  All-take [] x xs vs h = (h.0.0, (h.0.1, h.1))
  All-take (u ∷ us) x xs vs h = let (p, q) = All-take us x xs vs h.1 in (p, (h.0, q))

  All-drop :
      (us vs : List (List A)) (xs : List A) → All (All P) (us ++ xs ∷ vs) → All (All P) (us ++ vs)
  All-drop [] vs xs h = h.1
  All-drop (u ∷ us) vs xs h = (h.0, All-drop us vs xs h.1)

  -- What holds of all items of the producers holds of the interleaving.
  pub Interleaves-All :
      {xss : List (List A)} {zs : List A} → Interleaves xss zs → All (All P) xss → All P zs
  Interleaves-All end h = tt
  Interleaves-All (emit us x xs vs e f i) h =
      let (p, q) = All-take us x xs vs (subst (All (All P)) e h) in
      (p, Interleaves-All i (subst (All (All P)) (sym f) q))
  Interleaves-All (leave us vs e f i) h =
      Interleaves-All i (subst (All (All P)) (sym f) (All-drop us vs [] (subst (All (All P)) e h)))
