-- ===== src/Shared/Streams/Reachable.antt =====
-- Every step of the scheduler keeps the invariant, so every state that a schedule reaches has it.
use numaflow_python.Base.{◌≡◌, ◌≢◌, sym, ap, ◌∙◌, subst, none, some, List, [], ◌∷◌, ◌++◌, map}
use numaflow_python.Base.Text.{Str}
use numaflow_python.Shared.Queue.{Read, item, stream_eof, put}
use numaflow_python.Shared.Server.{Exception, ok}
use numaflow_python.Shared.Streams.{
  Command, feed, finish, skip, reject, Session, report, abort, Manager, Reacts, ManagerLaws,
  Produced, finished, running, over, set_lane, reading, draining, closed, is_drained, State, Step,
  read, wait, resume, complain, give_up, drain, emit, leave, break, close, Run, stop, step, input,
}
use numaflow_python.Shared.Streams.Reference.{IsClean}
use numaflow_python.Shared.Streams.Causality.{IsCausal, Returns, never_crashed}
use numaflow_python.Shared.Streams.Invariant.{LaneInv}
use numaflow_python.Shared.Streams.Emission.{LaneInv-emit, LaneInv-leave}
use numaflow_python.Shared.Streams.Steps.{
  QueueOf, Inv, Inv-read, Inv-wait, reading_lane, head-IsClean,
}
use numaflow_python.Shared.Streams.Turns.{
  Inv-resume, Inv-drain, Queued-put, Settled-lanes, running-ne-closed, settled,
}

module _ (manager : Manager) (laws : ManagerLaws manager) {Out : Type 0}
    (work : manager.Info → Read (manager.D) → Produced Out) (trailer : manager.TM → List Out)
    (causal : IsCausal work) (returns : Returns work) where
  open manager use {Req, Info, D, TM, init, on_request, task, command, IsValid}

  abbrev Valid : List (Command Info D) → State manager Out → Type 0
  Valid all s = Inv manager laws work trailer causal returns all s

  module _ (all : List (Command Info D)) (s : State manager Out) (inv : Valid all s) where
    -- `j` puts `x`.
    Inv-emit :
        (t : State manager Out) (j : Str) (i : Info) (r : Read D) (x : Out) (rest : List Out)
        → input manager work trailer s j ≡ some (i, r)
        → (s.lanes j).phase ≡ running
        → (work i r).output ≡ (s.lanes j).sent ++ x ∷ rest
        → t ≡ record s {
          lanes =
              set_lane s.lanes j (record { sent = (s.lanes j).sent ++ x ∷ []; phase = running });
          queue = put s.queue (item (ok (some j, x)));
        }
        → Valid all t
    Inv-emit t j i r x rest h p e q =
        let n = running-ne-closed manager laws work trailer causal returns all s inv j (i, r) h p in
        subst (Valid all) (sym q) (record {
          past = inv.past;
          entries = inv.entries ++ (j, x) ∷ [];
          valid = inv.valid;
          split = inv.split;
          clean = inv.clean;
          gone = inv.gone;
          lane_inv = λ k.
              LaneInv-emit work k inv.past s.waiting (is_drained s.phase) (task s.tm k) (s.lanes k)
                inv.entries j i r x rest (s.lanes j) (ap s.lanes)
                (λ m. subst (λ n. input manager work trailer s n ≡ some (i, r)) m h) p e
                (inv.lane_inv k);
          queue_is =
              Queued-put manager laws work trailer causal returns all s inv s.phase (j, x) n
                inv.queue_is;
          quiet =
              Settled-lanes manager laws work trailer causal returns all s inv s.phase _ _ n
                inv.quiet;
        })

    -- `j` ends.
    Inv-leave :
        (t : State manager Out) (j : Str) (i : Info) (r : Read D)
        → input manager work trailer s j ≡ some (i, r)
        → (s.lanes j).phase ≡ running
        → (work i r).output ≡ (s.lanes j).sent
        → (work i r).status ≡ finished
        → t ≡ record s {
          lanes = set_lane s.lanes j (record { sent = (s.lanes j).sent; phase = over });
        }
        → Valid all t
    Inv-leave t j i r h p e f q =
        let n = running-ne-closed manager laws work trailer causal returns all s inv j (i, r) h p in
        subst (Valid all) (sym q) (record {
          past = inv.past;
          entries = inv.entries;
          valid = inv.valid;
          split = inv.split;
          clean = inv.clean;
          gone = inv.gone;
          lane_inv = λ k.
              LaneInv-leave work k inv.past s.waiting (is_drained s.phase) (task s.tm k) (s.lanes k)
                inv.entries j i r (s.lanes j) (ap s.lanes)
                (λ m. subst (λ n. input manager work trailer s n ≡ some (i, r)) m h) e f
                (inv.lane_inv k);
          queue_is = inv.queue_is;
          quiet =
              Settled-lanes manager laws work trailer causal returns all s inv s.phase _ s.queue n
                inv.quiet;
        })

    Inv-close :
        (t : State manager Out)
        → s.phase ≡ draining
        → ((k : Str) (x : Session Info D) → task s.tm k ≡ some x → (s.lanes k).phase ≡ over)
        → t ≡ record s {
          queue = s.queue ++ (map (λ o. item (ok (none, o))) (trailer s.tm) ++ stream_eof ∷ []);
          phase = closed;
        }
        → Valid all t
    Inv-close t p over_all q =
        let (e, w) = settled manager laws work trailer causal returns all s inv draining p in
        subst (Valid all) (sym q) (record {
          past = inv.past;
          entries = inv.entries;
          valid = inv.valid;
          split = inv.split;
          clean = inv.clean;
          gone = inv.gone;
          lane_inv = λ k.
              subst
                (λ p.
                  LaneInv work k inv.past s.waiting (is_drained p) (task s.tm k) (s.lanes k)
                    inv.entries)
                p (inv.lane_inv k);
          queue_is =
              ap (λ l. l ++ (map (λ o. item (ok (none, o))) (trailer s.tm) ++ stream_eof ∷ []))
                (subst
                  (λ p. QueueOf manager laws work trailer causal returns p s.tm s.queue inv.entries)
                  p inv.queue_is);
          quiet = (e, w, over_all);
        })

    -- A request that the task manager complains of is not acceptable.
    no_complaint :
        (r : Req) (rs : List Req) (e : Exception)
        → s.phase ≡ reading
        → s.waiting ≡ none
        → s.requests ≡ r ∷ rs
        → on_request s.tm r ≢ report e
    no_complaint r rs e p w q g =
        by_command (command r)
          (subst (Reacts manager s.tm (command r)) g (laws.reacts s.tm r inv.valid))
          (head-IsClean manager laws work trailer causal returns all s inv r rs q)
      where
        by_command :
            (c : Command Info D)
            → Reacts manager s.tm c (report e)
            → IsClean inv.past (c ∷ map command rs)
            → ⊥
        by_command (feed j i d) h a = h
        by_command (finish j) h a =
            let v = reading_lane manager laws work trailer causal returns all s inv p w j in
            a.0 (ap (λ z. z.current) v.reference ∙ h)
        by_command skip h a = h
        by_command (reject x) h a = h

    no_abort :
        (r : Req) (rs : List Req) (e : Exception)
        → s.requests ≡ r ∷ rs
        → on_request s.tm r ≢ abort e
    no_abort r rs e q g =
        by_command (command r)
          (subst (Reacts manager s.tm (command r)) g (laws.reacts s.tm r inv.valid))
          (head-IsClean manager laws work trailer causal returns all s inv r rs q)
      where
        by_command :
            (c : Command Info D)
            → Reacts manager s.tm c (abort e)
            → IsClean inv.past (c ∷ map command rs)
            → ⊥
        by_command (feed j i d) h a = h
        by_command (finish j) h a = h
        by_command skip h a = h
        by_command (reject x) h a = a.0

    pub Step-Inv : (t : State manager Out) → Step manager work trailer s t → Valid all t
    Step-Inv t (read r rs tm p w e g q) =
        Inv-read manager laws work trailer causal returns all s inv t r rs tm p w e g q
    Step-Inv t (wait r rs k x tm p w e g q) =
        Inv-wait manager laws work trailer causal returns all s inv t r rs k x tm p w e g q
    Step-Inv t (resume k x w o q) =
        Inv-resume manager laws work trailer causal returns all s inv t k x w o q
    Step-Inv t (complain r rs e p w h g q) = absurd (no_complaint r rs e p w h g)
    Step-Inv t (give_up r rs e p w h g q) = absurd (no_abort r rs e h g)
    Step-Inv t (drain p w e q) =
        Inv-drain manager laws work trailer causal returns all s inv t p w e q
    Step-Inv t (emit k i r x rest h p e q) = Inv-emit t k i r x rest h p e q
    Step-Inv t (leave k i r h p e f q) = Inv-leave t k i r h p e f q
    Step-Inv t (break k i r e h p f q) = absurd (never_crashed work causal returns i r e f)
    Step-Inv t (close p o q) = Inv-close t p o q

  pub Run-Inv :
      (all : List (Command Info D)) {s t : State manager Out}
      → Run manager work trailer s t
      → Valid all s
      → Valid all t
  Run-Inv all stop v = v
  Run-Inv all (step {s = s} {t = t} st run) v = Run-Inv all run (Step-Inv all s v t st)
