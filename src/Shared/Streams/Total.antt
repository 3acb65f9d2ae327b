-- ===== src/Shared/Streams/Total.antt =====
-- From every state that a schedule reaches, it can go on to its end.
use numaflow_python.Base.{
  ◌≡◌, refl, ap, ◌∙◌, subst, inl, inr, true, Option, none, some, List, [], ◌∷◌,
}
use numaflow_python.Base.Text.{Str, str_eq_refl}
use numaflow_python.Shared.Queue.{Queue, Read}
use numaflow_python.Shared.Server.{Result}
use numaflow_python.Shared.Streams.{
  Command, Session, Reaction, go, await_task, report, abort, Manager, ManagerLaws, Produced, Lane,
  LanePhase, running, over, broken, Phase, reading, draining, closed, aborted, is_drained, Tagged,
  open_input, input_of, State, Step, read, wait, resume, complain, give_up, drain, close, Run, stop,
  step, input,
}
use numaflow_python.Shared.Streams.Causality.{IsCausal, Returns, Agrees, AgreesOpen}
use numaflow_python.Shared.Streams.Steps.{Inv}
use numaflow_python.Shared.Streams.Turns.{ne-aborted, settled}
use numaflow_python.Shared.Streams.Reachable.{Step-Inv, Run-Inv}
use numaflow_python.Shared.Streams.Completion.{Among, names, open-Among, follow, Works, finish_lane}

module _ (manager : Manager) (laws : ManagerLaws manager) {Out : Type 0}
    (work : manager.Info → Read (manager.D) → Produced Out) (trailer : manager.TM → List Out)
    (causal : IsCausal work) (returns : Returns work)
    (all : List (Command (manager.Info) (manager.D))) where
  open manager use {Req, Info, D, TM, on_request, task, command}

  abbrev Valid : State manager Out → Type 0
  Valid s = Inv manager laws work trailer causal returns all s

  abbrev Leads : State manager Out → State manager Out → Type 0
  Leads s t = Run manager work trailer s t

  abbrev CanClose : State manager Out → Type 0
  CanClose s = (t : State manager Out) × Leads s t × (t.phase ≡ closed)

  prepend : {s t : State manager Out} → Leads s t → CanClose t → CanClose s
  prepend a (u, b, c) = (u, follow manager work trailer a b, c)

  finish_task :
      (s : State manager Out) (k : Str) (x : Session Info D)
      → Valid s
      → input manager work trailer s k ≡ some (x.info, record { yielded = x.datums; ended = true })
      → Works manager work trailer s k
  finish_task s k x inv h = by_phase (s.lanes k).phase refl
    where
      agrees : Agrees work x.info (record { yielded = x.datums; ended = true }) (s.lanes k)
      agrees = subst (λ y. AgreesOpen work y (s.lanes k)) h (inv.lane_inv k).agrees

      by_phase : (p : LanePhase) → (s.lanes k).phase ≡ p → Works manager work trailer s k
      by_phase running p =
          finish_lane manager work trailer returns agrees.rest s k x.info x.datums h p agrees.begins
      by_phase over p = record {
        lanes = s.lanes;
        queue = s.queue;
        run = stop;
        ends = p;
        keeps = λ j o. o;
      }
      by_phase broken p = absurd (agrees.unbroken p)

  drained_input :
      (s : State manager Out) (k : Str) (x : Session Info D)
      → Valid s
      → s.phase ≡ draining
      → task s.tm k ≡ some x
      → input manager work trailer s k ≡ some (x.info, record { yielded = x.datums; ended = true })
  drained_input s k x inv p e =
      let (_, w) = settled manager laws work trailer causal returns all s inv draining p in
      ap (λ w. input_of k w (is_drained s.phase) (task s.tm k)) w
      ∙ ap (λ p. open_input (is_drained p) (task s.tm k)) p
      ∙ ap (open_input true) e

  -- Some tasks more are over, and all that have been.
  record Drained (s : State manager Out) (ks : List Str) : Type 0 where
    lanes : Str → Lane Out
    queue : Queue (Result (Tagged Out))
    run : Leads s (record s { lanes = lanes; queue = queue })
    ends :
        (k : Str) (x : Session Info D) → Among k ks → task s.tm k ≡ some x → (lanes k).phase ≡ over
    keeps : (j : Str) → (s.lanes j).phase ≡ over → (lanes j).phase ≡ over

  finish_first :
      (s : State manager Out) (k : Str) → Valid s → s.phase ≡ draining → Drained s (k ∷ [])
  finish_first s k inv p = by_task (task s.tm k) refl
    where
      by_task : (o : Option (Session Info D)) → task s.tm k ≡ o → Drained s (k ∷ [])
      by_task none e = record {
        lanes = s.lanes;
        queue = s.queue;
        run = stop;
        ends = λ j x m f. elim m [ inl q ↦ let g = ap (task s.tm) q in cc | inr n ↦ absurd n ];
        keeps = λ j o. o;
      }
      by_task (some x) e =
          let w = finish_task s k x inv (drained_input s k x inv p e) in
          record {
            lanes = w.lanes;
            queue = w.queue;
            run = w.run;
            ends = λ j y m f. elim m [
              | inl q ↦ subst (λ i. (w.lanes i).phase ≡ over) q w.ends
              | inr n ↦ absurd n
            ];
            keeps = w.keeps;
          }

  finish_all : (ks : List Str) (s : State manager Out) → Valid s → s.phase ≡ draining → Drained s ks
  finish_all [] s inv p = record {
    lanes = s.lanes;
    queue = s.queue;
    run = stop;
    ends = λ j x m f. absurd m;
    keeps = λ j o. o;
  }
  finish_all (k ∷ ks) s inv p =
      let a = finish_first s k inv p in
      let s' : State manager Out = record s { lanes = a.lanes; queue = a.queue } in
      let b = finish_all ks s' (Run-Inv manager laws work trailer causal returns all a.run inv) p in
      record {
        lanes = b.lanes;
        queue = b.queue;
        run = follow manager work trailer a.run b.run;
        ends =
            λ j x m f. elim m [ inl q ↦ b.keeps j (a.ends j x (inl q) f) | inr n ↦ b.ends j x n f ];
        keeps = λ j o. b.keeps j (a.keeps j o);
      }

  draining-CanClose : (s : State manager Out) → Valid s → s.phase ≡ draining → CanClose s
  draining-CanClose s inv p =
      let (_, w) = settled manager laws work trailer causal returns all s inv draining p in
      let d = finish_all (names inv.past) s inv p in
      let named : (k : Str) (x : Session Info D) → task s.tm k ≡ some x → Among k (names inv.past) =
        λ k x e.
          open-Among k _ x inv.past refl (ap (λ h. h.current) (inv.lane_inv k).reference ∙ e) in
      prepend d.run (_, step (close p (λ k x e. d.ends k x (named k x e) e) refl) stop, refl)

  -- The wait for a task can end.
  waiting-CanClose :
      (s : State manager Out) (k : Str) (x : Session Info D)
      → Valid s
      → s.waiting ≡ some (k, x)
      → ((s' : State manager Out)
          → Valid s'
          → s'.phase ≡ s.phase
          → s'.waiting ≡ none
          → s'.requests ≡ s.requests
          → CanClose s')
      → CanClose s
  waiting-CanClose s k x inv w next =
      let d =
        finish_task s k x inv
          (ap (λ w. input_of k w (is_drained s.phase) (task s.tm k)) w ∙ (rw str_eq_refl refl)) in
      let run = follow manager work trailer d.run (step (resume k x w d.ends refl) stop) in
      prepend run
        (next _ (Run-Inv manager laws work trailer causal returns all run inv) refl refl refl)

  turn-CanClose :
      (r : Req) (rs : List Req) (s : State manager Out)
      → Valid s
      → s.phase ≡ reading
      → s.waiting ≡ none
      → s.requests ≡ r ∷ rs
      → ((s' : State manager Out)
          → Valid s'
          → s'.phase ≡ reading
          → s'.waiting ≡ none
          → s'.requests ≡ rs
          → CanClose s')
      → CanClose s
  turn-CanClose r rs s inv p w e next = by_reaction (on_request s.tm r) refl
    where
      valid_next : (t : State manager Out) → Step manager work trailer s t → Valid t
      valid_next t st = Step-Inv manager laws work trailer causal returns all s inv t st

      by_reaction : (x : Reaction Info D TM) → on_request s.tm r ≡ x → CanClose s
      by_reaction (go tm) g =
          let st = read r rs tm p w e g refl in
          prepend (step st stop) (next _ (valid_next _ st) p w refl)
      by_reaction (await_task k x tm) g =
          let st = wait r rs k x tm p w e g refl in
          prepend (step st stop)
            (waiting-CanClose _ k x (valid_next _ st) refl (λ s' v q n f. next s' v (q ∙ p) n f))
      by_reaction (report x) g =
          let st = complain r rs x p w e g refl in
          prepend (step st stop) (next _ (valid_next _ st) p w refl)
      by_reaction (abort x) g = absurd (
          ne-aborted manager laws work trailer causal returns all _
            (valid_next _ (give_up r rs x p w e g refl)) refl)

  reading-CanClose :
      (rs : List Req) (s : State manager Out)
      → Valid s
      → s.phase ≡ reading
      → s.waiting ≡ none
      → s.requests ≡ rs
      → CanClose s
  reading-CanClose [] s inv p w e =
      let st = drain p w e refl in
      prepend (step st stop) (
        draining-CanClose _ (Step-Inv manager laws work trailer causal returns all s inv _ st) refl)
  reading-CanClose (r ∷ rs) s inv p w e = turn-CanClose r rs s inv p w e (reading-CanClose rs)

  -- The end of the queue can be reached from every valid state.
  pub Inv-CanClose : (s : State manager Out) → Valid s → CanClose s
  Inv-CanClose s inv = by_phase s.phase refl
    where
      by_waiting : (o : _) → s.waiting ≡ o → s.phase ≡ reading → CanClose s
      by_waiting none w p = reading-CanClose s.requests s inv p w refl
      by_waiting (some (k, x)) w p =
          waiting-CanClose s k x inv w (λ s' v q n f. reading-CanClose s.requests s' v (q ∙ p) n f)

      by_phase : (p : Phase) → s.phase ≡ p → CanClose s
      by_phase reading p = by_waiting s.waiting refl p
      by_phase draining p = draining-CanClose s inv p
      by_phase closed p = (s, stop, p)
      by_phase aborted p = absurd (ne-aborted manager laws work trailer causal returns all s inv p)
