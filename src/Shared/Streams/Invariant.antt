-- ===== src/Shared/Streams/Invariant.antt =====
-- What holds in every state that a schedule reaches.
use mathlib.Core.List.{append_assoc, append-nil}
use numaflow_python.Base.{
  ◌≡◌, refl, sym, ap, ◌∙◌, subst, inl, inr, Bool, true, false, Option, none, some, List, [], ◌∷◌,
  ◌++◌, flat_map, if◌then◌else◌, Bool-cases,
}
use numaflow_python.Base.Text.{Str, str_eq, str_eq_iff}
use numaflow_python.Shared.Queue.{Read, Item, item}
use numaflow_python.Shared.Server.{Result, ok}
use numaflow_python.Shared.Streams.{
  Command, feed, finish, skip, Session, added, Produced, Lane, over, fresh, Tagged, open_input,
  input_of,
}
use numaflow_python.Shared.Streams.Reference.{idle, history, history-append}
use numaflow_python.Shared.Streams.Causality.{
  IsCausal, results, Agrees, AgreesOpen, Agrees-fresh, Agrees-more,
}

-- What the task of the name `k` has put, by the tags.
abbrev pub from_task : {Out : Type 0} → Str → List (Str × Out) → List Out
from_task k [] = []
from_task k ((j, x) ∷ rest) = if str_eq j k then x ∷ from_task k rest else from_task k rest

pub from_task-append :
    {Out : Type 0} (k : Str) (xs ys : List (Str × Out))
    → from_task k (xs ++ ys) ≡ from_task k xs ++ from_task k ys
from_task-append k [] ys = refl
from_task-append k ((j, x) ∷ xs) ys = elim (Bool-cases (str_eq j k)) [
  | inl e ↦ rw (e, from_task-append k xs ys)
  | inr e ↦ rw (e, from_task-append k xs ys)
]

pub flat_map-append :
    {A B : Type 0} (f : A → List B) (xs ys : List A)
    → flat_map f (xs ++ ys) ≡ flat_map f xs ++ flat_map f ys
flat_map-append f [] ys = refl
flat_map-append f (x ∷ xs) ys = rw (flat_map-append f xs ys, append_assoc)

abbrev pub entry : {Out : Type 0} → Str × Out → Item (Result (Tagged Out))
entry (k, x) = item (ok (some k, x))

module _ {Info D : Type 0} where
  -- The session that is waited for, if it is one of the name `k`.
  abbrev pub waiting_for : Str → Option (Str × Session Info D) → List (Session Info D)
  waiting_for k none = []
  waiting_for k (some (j, s)) = if str_eq j k then s ∷ [] else []

module _ {Info D Out : Type 0} (work : Info → Read D → Produced Out) (k : Str) where
  -- For one name: the results of the tasks that are done, and what the present one has put so far, are
  -- all that is in the queue from this name.
  pub record LaneInv (past : List (Command Info D)) (waiting : Option (Str × Session Info D))
      (ended : Bool) (open_task : Option (Session Info D)) (lane : Lane Out)
      (entries : List (Str × Out)) : Type 0 where
    pub done : List (Session Info D)
    pub archived : from_task k entries ≡ flat_map (results work) done ++ lane.sent
    pub reference :
        history k idle past ≡ record { ended = done ++ waiting_for k waiting; current = open_task }
    pub agrees : AgreesOpen work (input_of k waiting ended open_task) lane

  pub LaneInv-start : LaneInv [] none false none fresh []
  LaneInv-start = record { done = []; archived = refl; reference = refl; agrees = refl }

  module _ (causal : IsCausal work) where
    Agrees-added :
        (o : Option (Session Info D)) (i : Info) (d : D) (lane : Lane Out)
        → AgreesOpen work (open_input false o) lane
        → AgreesOpen work (open_input false (some (added o i d))) lane
    Agrees-added none i d lane e =
        subst (Agrees work i _) (sym e)
          (Agrees-fresh work i (record { yielded = d ∷ []; ended = false }))
    Agrees-added (some s) i d lane a = Agrees-more work causal s.info s.datums (d ∷ []) false lane a

    pub Agrees-ended :
        (o : Option (Session Info D)) (lane : Lane Out)
        → AgreesOpen work (open_input false o) lane
        → AgreesOpen work (open_input true o) lane
    Agrees-ended none lane a = a
    Agrees-ended (some s) lane a =
        subst (λ ds. Agrees work s.info (record { yielded = ds; ended = true }) lane)
          (append-nil s.datums) (Agrees-more work causal s.info s.datums [] true lane a)

    -- A datum for the name `j`.
    pub LaneInv-feed :
        (past : List (Command Info D)) (j : Str) (i : Info) (d : D)
        (o o' oj : Option (Session Info D)) (lane : Lane Out) (entries : List (Str × Out))
        → (j ≡ k → oj ≡ o)
        → o' ≡ (if str_eq j k then some (added oj i d) else o)
        → LaneInv past none false o lane entries
        → LaneInv (past ++ feed j i d ∷ []) none false o' lane entries
    LaneInv-feed past j i d o o' oj lane entries same e v = elim (Bool-cases (str_eq j k)) [
      | inl h ↦
          let q : o' ≡ some (added o i d) = e ∙ (rw (h, same ((str_eq_iff j k).0 h)) refl) in
          record {
            done = v.done;
            archived = v.archived;
            reference = history-append k idle past (feed j i d) ∙ (rw (v.reference, h, q) refl);
            agrees = rw q (Agrees-added o i d lane v.agrees);
          }
      | inr h ↦
          let q : o' ≡ o = e ∙ (rw h refl) in
          record {
            done = v.done;
            archived = v.archived;
            reference = history-append k idle past (feed j i d) ∙ (rw (h, q) v.reference);
            agrees = rw q v.agrees;
          }
    ]

    pub LaneInv-skip :
        (past : List (Command Info D)) (o : Option (Session Info D)) (lane : Lane Out)
        (entries : List (Str × Out))
        → LaneInv past none false o lane entries
        → LaneInv (past ++ skip ∷ []) none false o lane entries
    LaneInv-skip past o lane entries v = record {
      done = v.done;
      archived = v.archived;
      reference = history-append k idle past skip ∙ v.reference;
      agrees = v.agrees;
    }

    -- The end of the task `x` of the name `j`, which is now waited for.
    pub LaneInv-finish :
        (past : List (Command Info D)) (j : Str) (x : Session Info D)
        (o o' oj : Option (Session Info D)) (lane : Lane Out) (entries : List (Str × Out))
        → (j ≡ k → oj ≡ o)
        → oj ≡ some x
        → o' ≡ (if str_eq j k then none else o)
        → LaneInv past none false o lane entries
        → LaneInv (past ++ finish j ∷ []) (some (j, x)) false o' lane entries
    LaneInv-finish past j x o o' oj lane entries same f e v = elim (Bool-cases (str_eq j k)) [
      | inl h ↦
          let q : o' ≡ none = e ∙ (rw h refl) in
          let p : o ≡ some x = sym (same ((str_eq_iff j k).0 h)) ∙ f in
          let a = subst (λ z. AgreesOpen work (open_input false z) lane) p v.agrees in
          record {
            done = v.done;
            archived = v.archived;
            reference =
                history-append k idle past (finish j)
                ∙ (rw (v.reference, h, q, p, append-nil) refl);
            agrees = rw h (Agrees-ended (some x) lane a);
          }
      | inr h ↦
          let q : o' ≡ o = e ∙ (rw h refl) in
          record {
            done = v.done;
            archived = v.archived;
            reference = history-append k idle past (finish j) ∙ (rw (h, q) v.reference);
            agrees = rw (h, q) v.agrees;
          }
    ]

    -- The wait is over.
    pub LaneInv-resume :
        (past : List (Command Info D)) (j : Str) (x : Session Info D) (o : Option (Session Info D))
        (lane : Lane Out) (entries : List (Str × Out))
        → (j ≡ k → lane.phase ≡ over)
        → (j ≡ k → o ≡ none)
        → LaneInv past (some (j, x)) false o lane entries
        → LaneInv past none false o (if str_eq j k then fresh else lane) entries
    LaneInv-resume past j x o lane entries ended gone v = elim (Bool-cases (str_eq j k)) [
      | inl h ↦
          let p = (str_eq_iff j k).0 h in
          let g = gone p in
          let a : Agrees work x.info (record { yielded = x.datums; ended = true }) lane =
            subst
              (λ b.
                AgreesOpen work (if b then open_input true (some x) else open_input false o) lane)
              h v.agrees in
          let all_put : results work x ≡ lane.sent =
            a.begins ∙ ap (λ l. lane.sent ++ l) (a.complete (ended p)).1 ∙ append-nil lane.sent in
          rw h (record {
            done = v.done ++ x ∷ [];
            archived =
                v.archived
                ∙ (rw
                    (
                      flat_map-append (results work) v.done (x ∷ []),
                      all_put,
                      append-nil,
                      append-nil,
                    )
                    refl);
            reference = v.reference ∙ (rw (h, append-nil) refl);
            agrees = rw g refl;
          })
      | inr h ↦ rw h (record {
        done = v.done;
        archived = v.archived;
        reference = v.reference ∙ (rw h refl);
        agrees =
            subst
              (λ b.
                AgreesOpen work (if b then open_input true (some x) else open_input false o) lane)
              h v.agrees;
      })
    ]
