-- ===== src/Shared/Streams/Completion.antt =====
-- A task that has all of its input can put the rest of its results, and end.
use numaflow_python.Base.{
  ◌≡◌, refl, sym, ap, ◌∙◌, ◌⊎◌, inl, inr, true, none, some, List, [], ◌∷◌, ◌++◌, if◌then◌else◌,
  Bool-cases,
}
use mathlib.Core.List.{append-nil, append_assoc}
use numaflow_python.Base.Text.{Str, str_eq, str_eq_iff, str_eq_refl}
use numaflow_python.Shared.Queue.{Queue, Read, item, put}
use numaflow_python.Shared.Server.{Result, ok}
use numaflow_python.Shared.Streams.{
  Command, feed, finish, skip, reject, Session, added, Manager, Produced, Lane, running, over,
  set_lane, Tagged, State, emit, leave, Run, stop, step, input,
}
use numaflow_python.Shared.Streams.Reference.{History, with_current, history}
use numaflow_python.Shared.Streams.Causality.{Returns}

abbrev pub Among : Str → List Str → Type 0
Among k [] = ⊥
Among k (j ∷ js) = (j ≡ k) ⊎ Among k js

module _ {Info D : Type 0} where
  abbrev pub names : List (Command Info D) → List Str
  names [] = []
  names (feed j i d ∷ cs) = j ∷ names cs
  names (finish j ∷ cs) = names cs
  names (skip ∷ cs) = names cs
  names (reject e ∷ cs) = names cs

  abbrev fed : History Info D → Info → D → History Info D
  fed h i d = record { ended = h.ended; current = some (added h.current i d) }

  abbrev ended : History Info D → History Info D
  ended h = record { ended = with_current h.ended h.current; current = none }

  -- A name with an open task has been given a datum.
  pub open-Among :
      (k : Str) (h : History Info D) (x : Session Info D) (cs : List (Command Info D))
      → h.current ≡ none
      → (history k h cs).current ≡ some x
      → Among k (names cs)
  open-Among k h x [] n e = cc
  open-Among k h x (feed j i d ∷ cs) n e = elim (Bool-cases (str_eq j k)) [
    | inl q ↦ inl ((str_eq_iff j k).0 q)
    | inr q ↦ inr (
        open-Among k h x cs n
          (sym (ap (λ b. (history k (if b then fed h i d else h) cs).current) q) ∙ e))
  ]
  open-Among k h x (finish j ∷ cs) n e = elim (Bool-cases (str_eq j k)) [
    | inl q ↦
        open-Among k (ended h) x cs refl
          (sym (ap (λ b. (history k (if b then ended h else h) cs).current) q) ∙ e)
    | inr q ↦
        open-Among k h x cs n
          (sym (ap (λ b. (history k (if b then ended h else h) cs).current) q) ∙ e)
  ]
  open-Among k h x (skip ∷ cs) n e = open-Among k h x cs n e
  open-Among k h x (reject r ∷ cs) n e = open-Among k h x cs n e

module _ (manager : Manager) {Out : Type 0} (work : manager.Info → Read (manager.D) → Produced Out)
    (trailer : manager.TM → List Out) where
  pub follow :
      {s t u : State manager Out}
      → Run manager work trailer s t
      → Run manager work trailer t u
      → Run manager work trailer s u
  follow stop b = b
  follow (step st a) b = step st (follow a b)

  -- A run in which only tasks go on, and those that are over stay so.
  pub record Works (s : State manager Out) (k : Str) : Type 0 where
    pub lanes : Str → Lane Out
    pub queue : Queue (Result (Tagged Out))
    pub run : Run manager work trailer s (record s { lanes = lanes; queue = queue })
    pub ends : (lanes k).phase ≡ over
    pub keeps : (j : Str) → (s.lanes j).phase ≡ over → (lanes j).phase ≡ over

  keeps_over :
      (lanes : Str → Lane Out) (k : Str) (lane : Lane Out)
      → (lanes k).phase ≡ running
      → (j : Str) → (lanes j).phase ≡ over
      → (set_lane lanes k lane j).phase ≡ over
  keeps_over lanes k lane p j o = elim (Bool-cases (str_eq k j)) [
    | inl q ↦ let e = (str_eq_iff k j).0 q in let f = ap (λ z. (lanes z).phase) e in cc
    | inr q ↦ rw q o
  ]

  -- A task with all of its input puts the rest of its results, and ends.
  pub finish_lane :
      (returns : Returns work) (rest : List Out) (s : State manager Out) (k : Str)
      (i : manager.Info) (ds : List (manager.D))
      → input manager work trailer s k ≡ some (i, record { yielded = ds; ended = true })
      → (s.lanes k).phase ≡ running
      → (work i (record { yielded = ds; ended = true })).output ≡ (s.lanes k).sent ++ rest
      → Works s k
  finish_lane returns [] s k i ds h p e = record {
    lanes = set_lane s.lanes k (record { sent = (s.lanes k).sent; phase = over });
    queue = s.queue;
    run = step (leave k i _ h p (e ∙ append-nil (s.lanes k).sent) (returns i ds) refl) stop;
    ends = rw str_eq_refl refl;
    keeps = keeps_over s.lanes k _ p;
  }
  finish_lane returns (x ∷ rest) s k i ds h p e =
      let s' : State manager Out = record s {
        lanes = set_lane s.lanes k (record { sent = (s.lanes k).sent ++ x ∷ []; phase = running });
        queue = put s.queue (item (ok (some k, x)));
      } in
      let w = finish_lane returns rest s' k i ds h (rw str_eq_refl refl) (
        e
        ∙ sym (append_assoc (s.lanes k).sent (x ∷ []) rest)
        ∙ ap (λ l. l ++ rest) (rw str_eq_refl refl)) in
      record {
        lanes = w.lanes;
        queue = w.queue;
        run = step (emit k i _ x rest h p e refl) w.run;
        ends = w.ends;
        keeps = λ j o. w.keeps j (keeps_over s.lanes k _ p j o);
      }
