-- ===== src/Shared/Streams/Emission.antt =====
-- One name, when a task puts a result or ends, and when the stream ends.
use mathlib.Core.List.{append_assoc, append-nil}
use numaflow_python.Base.{
  ◌≡◌, refl, sym, ◌∙◌, inl, inr, Bool, true, false, Option, none, some, List, [], ◌∷◌, ◌++◌,
  flat_map, if◌then◌else◌, Bool-cases,
}
use numaflow_python.Base.Text.{Str, str_eq, str_eq_iff}
use numaflow_python.Shared.Queue.{Read}
use numaflow_python.Shared.Streams.{
  Command, Session, finished, Produced, Lane, running, over, input_of,
}
use numaflow_python.Shared.Streams.Causality.{IsCausal, results, Agrees}
use numaflow_python.Shared.Streams.Invariant.{LaneInv, Agrees-ended, from_task-append}

module _ {Info D Out : Type 0} (work : Info → Read D → Produced Out) where
  Agrees-emit :
      (i : Info) (r : Read D) (lane : Lane Out) (x : Out) (rest : List Out)
      → lane.phase ≡ running
      → (work i r).output ≡ lane.sent ++ x ∷ rest
      → Agrees work i r (record { sent = lane.sent ++ x ∷ []; phase = running })
  Agrees-emit i r lane x rest p e = record {
    rest = rest;
    begins = e ∙ sym (append_assoc lane.sent (x ∷ []) rest);
    complete = λ q. cc;
    unbroken = λ q. cc;
  }

  Agrees-leave :
      (i : Info) (r : Read D) (lane : Lane Out)
      → (work i r).output ≡ lane.sent
      → (work i r).status ≡ finished
      → Agrees work i r (record { sent = lane.sent; phase = over })
  Agrees-leave i r lane e f = record {
    rest = [];
    begins = e ∙ sym (append-nil lane.sent);
    complete = λ q. (f, refl);
    unbroken = λ q. cc;
  }

  module _ (k : Str) (past : List (Command Info D)) (waiting : Option (Str × Session Info D))
      (ended : Bool) (o : Option (Session Info D)) (lane : Lane Out)
      (entries : List (Str × Out)) where
    -- The task of the name `j` puts `x`.
    pub LaneInv-emit :
        (j : Str) (i : Info) (r : Read D) (x : Out) (rest : List Out) (own : Lane Out)
        → (j ≡ k → own ≡ lane)
        → (j ≡ k → input_of k waiting ended o ≡ some (i, r))
        → own.phase ≡ running
        → (work i r).output ≡ own.sent ++ x ∷ rest
        → LaneInv work k past waiting ended o lane entries
        → LaneInv work k past waiting ended o
            (if str_eq j k then record { sent = own.sent ++ x ∷ []; phase = running } else lane)
            (entries ++ (j, x) ∷ [])
    LaneInv-emit j i r x rest own same reads p e v = elim (Bool-cases (str_eq j k)) [
      | inl h ↦
          let q = (str_eq_iff j k).0 h in
          let s = same q in
          rw h (record {
            done = v.done;
            archived =
                from_task-append k entries ((j, x) ∷ [])
                ∙ (rw (h, v.archived, s) (append_assoc (flat_map (results work) v.done) _ _));
            reference = v.reference;
            agrees = rw (reads q) (Agrees-emit i r own x rest p e);
          })
      | inr h ↦ rw h (record {
        done = v.done;
        archived = from_task-append k entries ((j, x) ∷ []) ∙ (rw (h, append-nil) v.archived);
        reference = v.reference;
        agrees = v.agrees;
      })
    ]

    -- The task of the name `j` ends.
    pub LaneInv-leave :
        (j : Str) (i : Info) (r : Read D) (own : Lane Out)
        → (j ≡ k → own ≡ lane)
        → (j ≡ k → input_of k waiting ended o ≡ some (i, r))
        → (work i r).output ≡ own.sent
        → (work i r).status ≡ finished
        → LaneInv work k past waiting ended o lane entries
        → LaneInv work k past waiting ended o
            (if str_eq j k then record { sent = own.sent; phase = over } else lane)
            entries
    LaneInv-leave j i r own same reads e f v = elim (Bool-cases (str_eq j k)) [
      | inl h ↦
          let q = (str_eq_iff j k).0 h in
          let s = same q in
          rw h (record {
            done = v.done;
            archived = v.archived ∙ (rw s refl);
            reference = v.reference;
            agrees = rw (reads q) (Agrees-leave i r own e f);
          })
      | inr h ↦ rw h v
    ]

  -- The stream ends, and every task gets the end of its input.
  pub LaneInv-drain :
      (causal : IsCausal work) (k : Str) (past : List (Command Info D))
      (o : Option (Session Info D)) (lane : Lane Out) (entries : List (Str × Out))
      → LaneInv work k past none false o lane entries
      → LaneInv work k past none true o lane entries
  LaneInv-drain causal k past o lane entries v = record {
    done = v.done;
    archived = v.archived;
    reference = v.reference;
    agrees = Agrees-ended work k causal o lane v.agrees;
  }
