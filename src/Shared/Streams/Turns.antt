-- ===== src/Shared/Streams/Turns.antt =====
-- The invariant at the end of a wait and at the end of the stream, and what it says of the phases.
use mathlib.Core.List.{map-append}
use numaflow_python.Base.{
  ◌≡◌, ◌≢◌, refl, sym, ap, ◌∙◌, subst, true, false, Option, none, some, List, [], ◌∷◌, ◌++◌, map,
}
use numaflow_python.Base.Text.{Str}
use numaflow_python.Shared.Queue.{Queue, Read, put}
use numaflow_python.Shared.Server.{Result}
use numaflow_python.Shared.Streams.{
  Command, Session, Manager, ManagerLaws, Produced, Lane, running, over, fresh, set_lane, Phase,
  reading, draining, closed, aborted, is_drained, Tagged, open_input, input_of, State, input,
}
use numaflow_python.Shared.Streams.Causality.{IsCausal, Returns}
use numaflow_python.Shared.Streams.Invariant.{LaneInv, LaneInv-resume, entry}
use numaflow_python.Shared.Streams.Emission.{LaneInv-drain}
use numaflow_python.Shared.Streams.Steps.{QueueOf, Quiet, Inv, reading_lane, reading_queue}

module _ (manager : Manager) (laws : ManagerLaws manager) {Out : Type 0}
    (work : manager.Info → Read (manager.D) → Produced Out) (trailer : manager.TM → List Out)
    (causal : IsCausal work) (returns : Returns work) where
  open manager use {Req, Info, D, TM, init, on_request, task, command, IsValid}

  abbrev pub Invariant : List (Command Info D) → State manager Out → Type 0
  Invariant all s = Inv manager laws work trailer causal returns all s

  abbrev pub Queued : Phase → TM → Queue (Result (Tagged Out)) → List (Str × Out) → Type 0
  Queued p tm q entries = QueueOf manager laws work trailer causal returns p tm q entries

  abbrev pub Settled : Phase → State manager Out → Type 0
  Settled p s = Quiet manager laws work trailer causal returns p s

  module _ (all : List (Command Info D)) (s : State manager Out) (inv : Invariant all s) where
    pub settled : (p : Phase) → s.phase ≡ p → Settled p s
    settled p e = subst (λ p. Settled p s) e inv.quiet

    pub ne-aborted : s.phase ≢ aborted
    ne-aborted e = settled aborted e

    pub waiting-reading : (y : Str × Session Info D) → s.waiting ≡ some y → s.phase ≡ reading
    waiting-reading y w = by_phase s.phase refl
      where
        by_phase : (p : Phase) → s.phase ≡ p → s.phase ≡ reading
        by_phase reading e = e
        by_phase draining e = let h = (settled draining e).1 in cc
        by_phase closed e = let h = (settled closed e).1 in cc
        by_phase aborted e = absurd (ne-aborted e)

    -- A task that is running finds the queue not ended.
    pub running-ne-closed :
        (k : Str) (y : Info × Read D)
        → input manager work trailer s k ≡ some y
        → (s.lanes k).phase ≡ running
        → s.phase ≢ closed
    running-ne-closed k y h r c = by_task (task s.tm k) refl
      where
        reads : open_input true (task s.tm k) ≡ some y
        reads =
            sym (ap (λ w. input_of k w true (task s.tm k)) (settled closed c).1)
            ∙ sym (ap (λ p. input_of k s.waiting (is_drained p) (task s.tm k)) c)
            ∙ h

        by_task : (o : Option (Session Info D)) → task s.tm k ≡ o → ⊥
        by_task none e = let q = sym (ap (open_input true) e) ∙ reads in cc
        by_task (some x) e = let q = (settled closed c).2 k x e in cc

    pub Inv-resume :
        (t : State manager Out) (j : Str) (x : Session Info D)
        → s.waiting ≡ some (j, x)
        → (s.lanes j).phase ≡ over
        → t ≡ record s { waiting = none; lanes = set_lane s.lanes j fresh }
        → Invariant all t
    Inv-resume t j x w o q =
        let p = waiting-reading (j, x) w in
        subst (Invariant all)
          (sym (
            q ∙ (λ i. record {
              requests = s.requests;
              tm = s.tm;
              waiting = none;
              lanes = set_lane s.lanes j fresh;
              queue = s.queue;
              phase = p i;
            })))
          (record {
            past = inv.past;
            entries = inv.entries;
            valid = inv.valid;
            split = inv.split;
            clean = inv.clean;
            gone = λ j' x' z. cc;
            lane_inv = λ k.
                LaneInv-resume work k causal inv.past j x (task s.tm k) (s.lanes k) inv.entries
                  (λ e. subst (λ n. (s.lanes n).phase ≡ over) e o)
                  (λ e. subst (λ n. task s.tm n ≡ none) e (inv.gone j x w))
                  (subst
                    (λ w. LaneInv work k inv.past w false (task s.tm k) (s.lanes k) inv.entries) w
                    (subst
                      (λ p.
                        LaneInv work k inv.past s.waiting (is_drained p) (task s.tm k) (s.lanes k)
                          inv.entries)
                      p (inv.lane_inv k)));
            queue_is = reading_queue manager laws work trailer causal returns all s inv p;
            quiet = tt;
          })

    pub Inv-drain :
        (t : State manager Out)
        → s.phase ≡ reading
        → s.waiting ≡ none
        → s.requests ≡ []
        → t ≡ record s { phase = draining }
        → Invariant all t
    Inv-drain t p w e q =
        subst (Invariant all)
          (sym (
            q ∙ (λ i. record {
              requests = e i;
              tm = s.tm;
              waiting = w i;
              lanes = s.lanes;
              queue = s.queue;
              phase = draining;
            })))
          (record {
            past = inv.past;
            entries = inv.entries;
            valid = inv.valid;
            split = inv.split ∙ ap (λ l. inv.past ++ map command l) e;
            clean = tt;
            gone = λ j x z. cc;
            lane_inv = λ k.
                LaneInv-drain work causal k inv.past (task s.tm k) (s.lanes k) inv.entries
                  (reading_lane manager laws work trailer causal returns all s inv p w k);
            queue_is = reading_queue manager laws work trailer causal returns all s inv p;
            quiet = (refl, refl);
          })

    pub Queued-put :
        (p : Phase) (x : Str × Out)
        → p ≢ closed
        → Queued p s.tm s.queue inv.entries
        → Queued p s.tm (put s.queue (entry x)) (inv.entries ++ x ∷ [])
    unfolding put
    Queued-put reading x n h = rw h (sym (map-append entry inv.entries (x ∷ [])))
    Queued-put draining x n h = rw h (sym (map-append entry inv.entries (x ∷ [])))
    Queued-put closed x n h = absurd (n refl)
    Queued-put aborted x n h = rw h (sym (map-append entry inv.entries (x ∷ [])))

    pub Settled-lanes :
        (p : Phase) (lanes : Str → Lane Out) (q : Queue (Result (Tagged Out)))
        → p ≢ closed
        → Settled p s
        → Settled p (record s { lanes = lanes; queue = q })
    Settled-lanes reading lanes q n h = tt
    Settled-lanes draining lanes q n h = h
    Settled-lanes closed lanes q n h = absurd (n refl)
    Settled-lanes aborted lanes q n h = h
