-- ===== src/Shared/Streams/Errors/Tasks.antt =====
-- The task of one name, when the producer or the task goes on.
use mathlib.Core.List.{append_assoc, append-nil}
use numaflow_python.Base.{
  ◌≡◌, ◌⊎◌, inl, inr, refl, sym, ap, ◌∙◌, subst, Bool, true, false, Option, none, some, List, [],
  ◌∷◌, ◌++◌, if◌then◌else◌, Bool-cases,
}
use numaflow_python.Base.Text.{Str, str_eq, str_eq_iff}
use numaflow_python.Shared.Queue.{Read}
use numaflow_python.Shared.Streams.{
  Session, added, Produced, broken, Lane, fresh, open_input, input_of,
}
use numaflow_python.Shared.Streams.Causality.{IsCausal}
use numaflow_python.Shared.Streams.Errors.{Begins}

module _ {Info D Out : Type 0} (work : Info → Read D → Produced Out) where
  pub Begins-fresh : (o : Option (Info × Read D)) → Begins work o fresh
  Begins-fresh none = refl
  Begins-fresh (some (i, r)) = λ p. ((work i r).output, refl)

  module _ (causal : IsCausal work) where
    -- More input keeps what a running task has put.
    Begins-more :
        (i : Info) (ds more : List D) (e : Bool) (lane : Lane Out)
        → Begins work (some (i, record { yielded = ds; ended = false })) lane
        → Begins work (some (i, record { yielded = ds ++ more; ended = e })) lane
    Begins-more i ds more e lane b p =
        let (rest, h) = b p in
        let (new, g) = causal.keeps i ds more e in
        (rest ++ new, g ∙ ap (λ l. l ++ new) h ∙ append_assoc lane.sent rest new)

    Begins-added :
        (o : Option (Session Info D)) (i : Info) (d : D) (lane : Lane Out)
        → Begins work (open_input false o) lane
        → Begins work (open_input false (some (added o i d))) lane
    Begins-added none i d lane e =
        subst (Begins work (some (i, record { yielded = d ∷ []; ended = false }))) (sym e)
          (Begins-fresh (some (i, record { yielded = d ∷ []; ended = false })))
    Begins-added (some s) i d lane b = Begins-more s.info s.datums (d ∷ []) false lane b

    pub Begins-ended :
        (o : Option (Session Info D)) (lane : Lane Out)
        → Begins work (open_input false o) lane
        → Begins work (open_input true o) lane
    Begins-ended none lane b = b
    Begins-ended (some s) lane b =
        subst (λ ds. Begins work (some (s.info, record { yielded = ds; ended = true })) lane)
          (append-nil s.datums) (Begins-more s.info s.datums [] true lane b)

    -- A datum for the name `j`, as the name `k` sees it.
    pub Begins-feed :
        (j k : Str) (i : Info) (d : D) (o o' oj : Option (Session Info D)) (lane : Lane Out)
        → (j ≡ k → oj ≡ o)
        → o' ≡ (if str_eq j k then some (added oj i d) else o)
        → Begins work (open_input false o) lane
        → Begins work (open_input false o') lane
    Begins-feed j k i d o o' oj lane same e b = elim (Bool-cases (str_eq j k)) [
      | inl h ↦
          let q : o' ≡ some (added o i d) = e ∙ (rw (h, same ((str_eq_iff j k).0 h)) refl) in
          rw q (Begins-added o i d lane b)
      | inr h ↦ let q : o' ≡ o = e ∙ (rw h refl) in rw q b
    ]

    -- The end of the task of the name `j`, which is waited for from now on.
    pub Begins-finish :
        (j k : Str) (x : Session Info D) (o o' oj : Option (Session Info D)) (lane : Lane Out)
        → (j ≡ k → oj ≡ o)
        → oj ≡ some x
        → o' ≡ (if str_eq j k then none else o)
        → Begins work (open_input false o) lane
        → Begins work (input_of k (some (j, x)) false o') lane
    Begins-finish j k x o o' oj lane same f e b = elim (Bool-cases (str_eq j k)) [
      | inl h ↦
          let p : o ≡ some x = sym (same ((str_eq_iff j k).0 h)) ∙ f in
          rw h (Begins-ended (some x) lane (subst (λ z. Begins work (open_input false z) lane) p b))
      | inr h ↦ let q : o' ≡ o = e ∙ (rw h refl) in rw (h, q) b
    ]

  -- The wait is over.
  pub Begins-resume :
      (j k : Str) (x : Session Info D) (ended : Bool) (o : Option (Session Info D))
      (lane : Lane Out)
      → Begins work (input_of k (some (j, x)) ended o) lane
      → Begins work (input_of k none ended o) (if str_eq j k then fresh else lane)
  Begins-resume j k x ended o lane b = elim (Bool-cases (str_eq j k)) [
    | inl h ↦ rw h (Begins-fresh (open_input ended o))
    | inr h ↦ rw h (
        subst (λ c. Begins work (if c then open_input true (some x) else open_input ended o) lane) h
          b)
  ]

  -- The task of the name `j` puts a result, or stops.
  pub Begins-set :
      (j k : Str) (y z : Option (Info × Read D)) (l new : Lane Out)
      → (j ≡ k → y ≡ z)
      → Begins work y new
      → Begins work z l
      → Begins work z (if str_eq j k then new else l)
  Begins-set j k y z l new same b c = elim (Bool-cases (str_eq j k)) [
    | inl h ↦ rw h (subst (λ z. Begins work z new) (same ((str_eq_iff j k).0 h)) b)
    | inr h ↦ rw h c
  ]

-- A lane that is broken now was broken before, or has been broken by this step.
pub broken_set :
    {Out : Type 0} (j k : Str) (l new : Lane Out)
    → (if str_eq j k then new else l).phase ≡ broken
    → (new.phase ≡ broken) ⊎ (l.phase ≡ broken)
broken_set j k l new p = elim (Bool-cases (str_eq j k)) [
  | inl h ↦ inl (rw h at p)
  | inr h ↦ inr (rw h at p)
]
