-- ===== src/Shared/Streams/Serving.antt =====
-- What the client gets from a schedule that has run until nothing is left to do.
use mathlib.Core.List.{append-nil}
use numaflow_python.Base.{
  ◌≡◌, refl, sym, ap, ◌∙◌, subst, true, Option, none, some, List, [], ◌∷◌, ◌++◌, map, flat_map,
}
use numaflow_python.Base.Text.{Str}
use numaflow_python.Shared.Queue.{Read, item, stream_eof, read_iterator-items}
use numaflow_python.Shared.Server.{Exception, ok, Effect, Rpc, returned}
use numaflow_python.Shared.Workers.{consume, consume-ended, before_error, ending}
use numaflow_python.Shared.Streams.{
  Command, Session, go, await_task, report, abort, Manager, ManagerLaws, Produced, Lane, over,
  closed, is_drained, State, Step, read, wait, resume, complain, give_up, drain, emit, leave, break,
  close, Run, stop, step, untag, StreamFn,
}
use numaflow_python.Shared.Streams.Reference.{sessions, IsClean}
use numaflow_python.Shared.Streams.Causality.{IsCausal, Returns, results, Agrees}
use numaflow_python.Shared.Streams.Invariant.{LaneInv, from_task, flat_map-append, entry}
use numaflow_python.Shared.Streams.Steps.{Inv, Inv-start, QueueOf}
use numaflow_python.Shared.Streams.Turns.{ne-aborted, settled}
use numaflow_python.Shared.Streams.Reachable.{Step-Inv, Run-Inv}
use numaflow_python.Shared.Streams.Progress.{rest-closed}

abbrev pub untagged : {Out : Type 0} → List (Str × Out) → List Out
untagged [] = []
untagged ((k, x) ∷ rest) = x ∷ untagged rest

module _ {Out : Type 0} where
  untag-queue :
      (entries : List (Str × Out)) (os : List Out)
      → untag (map entry entries ++ (map (λ o. item (ok (none, o))) os ++ stream_eof ∷ []))
        ≡ map item (map ok (untagged entries ++ os)) ++ stream_eof ∷ []
  untag-queue [] [] = refl
  untag-queue [] (o ∷ os) = ap (λ q. item (ok o) ∷ q) (untag-queue [] os)
  untag-queue ((k, x) ∷ entries) os = ap (λ q. item (ok x) ∷ q) (untag-queue entries os)

  before_error-map :
      (on_error : Exception → List Effect) (os : List Out)
      → (before_error (map ok os) ≡ os) × (ending on_error (map ok os) ≡ returned)
  before_error-map on_error [] = (refl, refl)
  before_error-map on_error (o ∷ os) =
      let (p, q) = before_error-map on_error os in (ap (λ l. o ∷ l) p, q)

  consume-queue :
      (on_error : Exception → List Effect) (entries : List (Str × Out)) (os : List Out)
      → consume on_error
          (untag (map entry entries ++ (map (λ o. item (ok (none, o))) os ++ stream_eof ∷ [])))
        ≡ record { sent = untagged entries ++ os; outcome = returned }
  consume-queue on_error entries os =
      let zs = map ok (untagged entries ++ os) in
      let (p, q) = before_error-map on_error (untagged entries ++ os) in
      ap (consume on_error) (untag-queue entries os)
      ∙ consume-ended on_error _ zs (read_iterator-items zs []).0
      ∙ (rw (p, q) refl)

module _ {Info D Out : Type 0} (work : Info → Read D → Produced Out) (k : Str) where
  -- When all tasks are over, all the results of all sessions are there.
  LaneInv-sessions :
      (past : List (Command Info D)) (o : Option (Session Info D)) (lane : Lane Out)
      (entries : List (Str × Out))
      → ((x : Session Info D) → o ≡ some x → lane.phase ≡ over)
      → LaneInv work k past none true o lane entries
      → from_task k entries ≡ flat_map (results work) (sessions k past)
  LaneInv-sessions past none lane entries over_all v =
      v.archived ∙ (rw (v.agrees, v.reference, append-nil, append-nil) refl)
  LaneInv-sessions past (some x) lane entries over_all v =
      let a : Agrees work x.info (record { yielded = x.datums; ended = true }) lane = v.agrees in
      let e : results work x ≡ lane.sent =
        a.begins
        ∙ ap (λ l. lane.sent ++ l) (a.complete (over_all x refl)).1
        ∙ append-nil lane.sent in
      v.archived
      ∙ (rw (v.reference, append-nil, flat_map-append (results work) v.done (x ∷ []), e, append-nil)
          refl)

module _ (manager : Manager) where
  open manager use {Req, TM, on_request}

  -- The task manager after the requests.
  unfoldable pub after : TM → List Req → TM
  after tm [] = tm
  after tm (r ∷ rs) = elim (on_request tm r) [
    | go tm' ↦ after tm' rs
    | await_task k x tm' ↦ after tm' rs
    | report e ↦ after tm rs
    | abort e ↦ tm
  ]

module _ (manager : Manager) (laws : ManagerLaws manager) {Out : Type 0}
    (work : manager.Info → Read (manager.D) → Produced Out) (trailer : manager.TM → List Out)
    (causal : IsCausal work) (returns : Returns work) where
  open manager use {Req, Info, D, TM, init, on_request, task, command}

  abbrev outlook : State manager Out → TM
  outlook s = after manager s.tm s.requests

  Step-outlook :
      (all : List (Command Info D)) (s t : State manager Out)
      → Inv manager laws work trailer causal returns all s
      → Step manager work trailer s t
      → outlook t ≡ outlook s
  unfolding after
  Step-outlook all s t inv (read r rs tm p w e g q) = ap outlook q ∙ sym (rw (e, after, g) refl)
  Step-outlook all s t inv (wait r rs k x tm p w e g q) = ap outlook q ∙ sym (rw (e, after, g) refl)
  Step-outlook all s t inv (resume k x w o q) = ap outlook q
  Step-outlook all s t inv (complain r rs x p w e g q) = ap outlook q ∙ sym (rw (e, after, g) refl)
  Step-outlook all s t inv (give_up r rs x p w e g q) = absurd (
      ne-aborted manager laws work trailer causal returns all t
        (Step-Inv manager laws work trailer causal returns all s inv t (give_up r rs x p w e g q))
        (ap (λ u. u.phase) q))
  Step-outlook all s t inv (drain p w e q) = ap outlook q
  Step-outlook all s t inv (emit k i r x rest h p e q) = ap outlook q
  Step-outlook all s t inv (leave k i r h p e f q) = ap outlook q
  Step-outlook all s t inv (break k i r x h p f q) = ap outlook q
  Step-outlook all s t inv (close p o q) = ap outlook q

  Run-outlook :
      (all : List (Command Info D)) {s t : State manager Out}
      → Run manager work trailer s t
      → Inv manager laws work trailer causal returns all s
      → outlook t ≡ outlook s
  Run-outlook all stop inv = refl
  Run-outlook all (step {s = s} {t = t} st run) inv =
      Run-outlook all run (Step-Inv manager laws work trailer causal returns all s inv t st)
      ∙ Step-outlook all s t inv st

  -- The results of the tasks of each name, task after task, and what the producer puts at the end.
  pub record Delivers (reqs : List Req) (rpc : Rpc Out) : Type 0 where
    pub entries : List (Str × Out)
    pub sends : rpc ≡ record {
      sent = untagged entries ++ trailer (after manager init reqs);
      outcome = returned;
    }
    pub by_name :
        (k : Str) → from_task k entries ≡ flat_map (results work) (sessions k (map command reqs))

  pub StreamFn-Delivers :
      (on_error : Exception → List Effect) (reqs : List Req) (rpc : Rpc Out)
      → IsClean [] (map command reqs)
      → StreamFn manager work trailer on_error reqs rpc
      → Delivers reqs rpc
  unfolding after
  StreamFn-Delivers on_error reqs rpc clean s =
      let start_inv = Inv-start manager laws work trailer causal returns reqs clean in
      let inv =
        Run-Inv manager laws work trailer causal returns (map command reqs) s.run start_inv in
      let c =
        rest-closed manager laws work trailer causal returns (map command reqs) s.final inv
          s.at_rest in
      let (e, w, o) =
        settled manager laws work trailer causal returns (map command reqs) s.final inv closed c in
      let tm : s.final.tm ≡ after manager init reqs =
        sym (ap (after manager s.final.tm) e) ∙ Run-outlook (map command reqs) s.run start_inv in
      let all : map command reqs ≡ inv.past =
        inv.split ∙ ap (λ l. inv.past ++ map command l) e ∙ append-nil inv.past in
      record {
        entries = inv.entries;
        sends =
            s.consumed
            ∙ ap (λ q. consume on_error (untag q))
                (subst
                  (λ p.
                    QueueOf manager laws work trailer causal returns p s.final.tm s.final.queue
                      inv.entries)
                  c inv.queue_is)
            ∙ consume-queue on_error inv.entries (trailer s.final.tm)
            ∙ ap (λ m. record { sent = untagged inv.entries ++ trailer m; outcome = returned }) tm;
        by_name = λ k.
            LaneInv-sessions work k inv.past (task s.final.tm k) (s.final.lanes k) inv.entries (o k)
              (subst
                (λ w.
                  LaneInv work k inv.past w true (task s.final.tm k) (s.final.lanes k) inv.entries)
                w
                (subst
                  (λ p.
                    LaneInv work k inv.past s.final.waiting (is_drained p) (task s.final.tm k)
                      (s.final.lanes k) inv.entries)
                  c (inv.lane_inv k)))
            ∙ ap (λ l. flat_map (results work) (sessions k l)) (sym all);
      }
