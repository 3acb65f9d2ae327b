-- ===== src/Shared/Interleave/Errors.antt =====
-- What some producer puts, the interleaving has, and the other way round.
use numaflow_python.Base.{◌⊎◌, inl, inr, sym, subst, List, [], ◌∷◌, ◌++◌, Some}
use numaflow_python.Shared.Interleave
use numaflow_python.Shared.Interleave.{Interleaves}

module _ {ℓ} {A : Type ℓ} (P : A → Type 0) where
  Some-take :
      (us : List (List A)) (x : A) (xs : List A) (vs : List (List A))
      → Some (Some P) (us ++ (x ∷ xs) ∷ vs)
      → P x ⊎ Some (Some P) (us ++ xs ∷ vs)
  Some-take [] x xs vs (inl (inl p)) = inl p
  Some-take [] x xs vs (inl (inr s)) = inr (inl s)
  Some-take [] x xs vs (inr s) = inr (inr s)
  Some-take (u ∷ us) x xs vs (inl s) = inr (inl s)
  Some-take (u ∷ us) x xs vs (inr s) = elim (Some-take us x xs vs s) [
    | inl p ↦ inl p
    | inr q ↦ inr (inr q)
  ]

  Some-put :
      (us : List (List A)) (x : A) (xs : List A) (vs : List (List A))
      → P x ⊎ Some (Some P) (us ++ xs ∷ vs)
      → Some (Some P) (us ++ (x ∷ xs) ∷ vs)
  Some-put [] x xs vs (inl p) = inl (inl p)
  Some-put [] x xs vs (inr (inl s)) = inl (inr s)
  Some-put [] x xs vs (inr (inr s)) = inr s
  Some-put (u ∷ us) x xs vs (inl p) = inr (Some-put us x xs vs (inl p))
  Some-put (u ∷ us) x xs vs (inr (inl s)) = inl s
  Some-put (u ∷ us) x xs vs (inr (inr s)) = inr (Some-put us x xs vs (inr s))

  Some-drop : (us vs : List (List A)) → Some (Some P) (us ++ [] ∷ vs) → Some (Some P) (us ++ vs)
  Some-drop [] vs (inl s) = absurd s
  Some-drop [] vs (inr s) = s
  Some-drop (u ∷ us) vs (inl s) = inl s
  Some-drop (u ∷ us) vs (inr s) = inr (Some-drop us vs s)

  Some-insert : (us vs : List (List A)) → Some (Some P) (us ++ vs) → Some (Some P) (us ++ [] ∷ vs)
  Some-insert [] vs s = inr s
  Some-insert (u ∷ us) vs (inl s) = inl s
  Some-insert (u ∷ us) vs (inr s) = inr (Some-insert us vs s)

  -- An item that a producer puts arrives.
  pub Interleaves-Some :
      {xss : List (List A)} {zs : List A} → Interleaves xss zs → Some (Some P) xss → Some P zs
  Interleaves-Some Interleave.end s = absurd s
  Interleaves-Some (Interleave.emit us x xs vs e f i) s =
      elim (Some-take us x xs vs (subst (Some (Some P)) e s)) [
        | inl p ↦ inl p
        | inr q ↦ inr (Interleaves-Some i (subst (Some (Some P)) (sym f) q))
      ]
  Interleaves-Some (Interleave.leave us vs e f i) s =
      Interleaves-Some i
        (subst (Some (Some P)) (sym f) (Some-drop us vs (subst (Some (Some P)) e s)))

  -- An item that arrives, some producer puts.
  pub Some-Interleaves :
      {xss : List (List A)} {zs : List A} → Interleaves xss zs → Some P zs → Some (Some P) xss
  Some-Interleaves Interleave.end s = absurd s
  Some-Interleaves (Interleave.emit us x xs vs e f i) (inl p) =
      subst (Some (Some P)) (sym e) (Some-put us x xs vs (inl p))
  Some-Interleaves (Interleave.emit us x xs vs e f i) (inr s) =
      subst (Some (Some P)) (sym e)
        (Some-put us x xs vs (inr (subst (Some (Some P)) f (Some-Interleaves i s))))
  Some-Interleaves (Interleave.leave us vs e f i) s =
      subst (Some (Some P)) (sym e)
        (Some-insert us vs (subst (Some (Some P)) f (Some-Interleaves i s)))
