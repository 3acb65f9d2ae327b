-- ===== src/Shared/Streams/Steps.antt =====
-- Every step of the scheduler keeps the invariant.
use mathlib.Core.List.{append_assoc}
use numaflow_python.Base.{
  ◌≡◌, refl, sym, ap, ◌∙◌, subst, false, none, some, List, [], ◌∷◌, ◌++◌, map,
}
use numaflow_python.Base.Text.{Str, str_eq_refl}
use numaflow_python.Shared.Queue.{Queue, Read, item, stream_eof}
use numaflow_python.Shared.Server.{Result, ok}
use numaflow_python.Shared.Streams.{
  Command, feed, finish, skip, reject, Session, go, await_task, Manager, Reacts, ManagerLaws,
  Produced, over, fresh, Phase, reading, draining, closed, aborted, is_drained, Tagged, State,
  start,
}
use numaflow_python.Shared.Streams.Reference.{IsClean}
use numaflow_python.Shared.Streams.Causality.{IsCausal, Returns}
use numaflow_python.Shared.Streams.Invariant.{
  LaneInv, LaneInv-start, LaneInv-feed, LaneInv-skip, LaneInv-finish, entry,
}

module _ (manager : Manager) (laws : ManagerLaws manager) {Out : Type 0}
    (work : manager.Info → Read (manager.D) → Produced Out) (trailer : manager.TM → List Out)
    (causal : IsCausal work) (returns : Returns work) where
  open manager use {Req, Info, D, TM, init, on_request, task, command, IsValid}

  -- The queue, before and after its end.
  abbrev pub QueueOf : Phase → TM → Queue (Result (Tagged Out)) → List (Str × Out) → Type 0
  QueueOf closed tm q entries =
      q ≡ map entry entries ++ (map (λ o. item (ok (none, o))) (trailer tm) ++ stream_eof ∷ [])
  QueueOf _ tm q entries = q ≡ map entry entries

  -- When the tasks have their ends, all requests are read and none is waited for; at the end all tasks
  -- are over.
  abbrev pub Quiet : Phase → State manager Out → Type 0
  Quiet reading s = Unit
  Quiet draining s = (s.requests ≡ []) × (s.waiting ≡ none)
  Quiet closed s =
      (s.requests ≡ [])
      × (s.waiting ≡ none)
      × ((k : Str) (x : Session Info D) → task s.tm k ≡ some x → (s.lanes k).phase ≡ over)
  Quiet aborted s = ⊥

  pub record Inv (all : List (Command Info D)) (s : State manager Out) : Type 0 where
    pub past : List (Command Info D)
    pub entries : List (Str × Out)
    pub valid : IsValid s.tm
    pub split : all ≡ past ++ map command s.requests
    pub clean : IsClean past (map command s.requests)
    pub gone : (j : Str) (x : Session Info D) → s.waiting ≡ some (j, x) → task s.tm j ≡ none
    pub lane_inv :
        (k : Str)
        → LaneInv work k past s.waiting (is_drained s.phase) (task s.tm k) (s.lanes k) entries
    pub queue_is : QueueOf s.phase s.tm s.queue entries
    pub quiet : Quiet s.phase s

  pub Inv-start :
      (reqs : List Req)
      → IsClean [] (map command reqs)
      → Inv (map command reqs) (start manager work trailer reqs)
  Inv-start reqs clean = record {
    past = [];
    entries = [];
    valid = laws.init_valid;
    split = refl;
    clean = clean;
    gone = λ j x q. cc;
    lane_inv = λ k.
        subst (λ o. LaneInv work k [] none false o fresh []) (sym (laws.init_task k))
          (LaneInv-start work k);
    queue_is = refl;
    quiet = tt;
  }

  module _ (all : List (Command Info D)) (s : State manager Out) (inv : Inv all s) where
    -- The facts of a state in which the producer reads and does not wait.
    pub reading_lane :
        s.phase ≡ reading
        → s.waiting ≡ none
        → (k : Str) → LaneInv work k inv.past none false (task s.tm k) (s.lanes k) inv.entries
    reading_lane p w k =
        subst (λ w. LaneInv work k inv.past w false (task s.tm k) (s.lanes k) inv.entries) w
          (subst
            (λ p.
              LaneInv work k inv.past s.waiting (is_drained p) (task s.tm k) (s.lanes k)
                inv.entries)
            p (inv.lane_inv k))

    pub reading_queue : s.phase ≡ reading → s.queue ≡ map entry inv.entries
    reading_queue p = subst (λ p. QueueOf p s.tm s.queue inv.entries) p inv.queue_is

    head_split :
        (r : Req) (rs : List Req)
        → s.requests ≡ r ∷ rs
        → all ≡ (inv.past ++ command r ∷ []) ++ map command rs
    head_split r rs e =
        inv.split
        ∙ ap (λ l. inv.past ++ map command l) e
        ∙ sym (append_assoc inv.past (command r ∷ []) (map command rs))

    pub head-IsClean :
        (r : Req) (rs : List Req)
        → s.requests ≡ r ∷ rs
        → IsClean inv.past (command r ∷ map command rs)
    head-IsClean r rs e = subst (λ l. IsClean inv.past (map command l)) e inv.clean

    read_case :
        (c : Command Info D) (tm : TM)
        → Reacts manager s.tm c (go tm)
        → s.phase ≡ reading
        → s.waiting ≡ none
        → IsValid tm
          × ((k : Str)
              → LaneInv work k (inv.past ++ c ∷ []) none false (task tm k) (s.lanes k) inv.entries)
    read_case (feed j i d) tm h p w = (
      h.0,
      λ k.
          LaneInv-feed work k causal inv.past j i d (task s.tm k) (task tm k) (task s.tm j)
            (s.lanes k) inv.entries (ap (task s.tm)) (h.1 k) (reading_lane p w k),
    )
    read_case (finish j) tm h p w = absurd h
    read_case skip tm h p w = (
      subst IsValid (sym h) inv.valid,
      λ k. LaneInv-skip work k causal inv.past (task tm k) (s.lanes k) inv.entries (
          subst (λ m. LaneInv work k inv.past none false (task m k) (s.lanes k) inv.entries) (sym h)
            (reading_lane p w k)),
    )
    read_case (reject e) tm h p w = absurd h

    pub Inv-read :
        (t : State manager Out) (r : Req) (rs : List Req) (tm : TM)
        → s.phase ≡ reading
        → s.waiting ≡ none
        → s.requests ≡ r ∷ rs
        → on_request s.tm r ≡ go tm
        → t ≡ record s { requests = rs; tm = tm }
        → Inv all t
    Inv-read t r rs tm p w e g q =
        let (v, lanes) =
          read_case (command r) tm
            (subst (Reacts manager s.tm (command r)) g (laws.reacts s.tm r inv.valid)) p w in
        subst (Inv all)
          (sym (
            q ∙ (λ i. record {
              requests = rs;
              tm = tm;
              waiting = w i;
              lanes = s.lanes;
              queue = s.queue;
              phase = p i;
            })))
          (record {
            past = inv.past ++ command r ∷ [];
            entries = inv.entries;
            valid = v;
            split = head_split r rs e;
            clean = (head-IsClean r rs e).1;
            gone = λ j x z. cc;
            lane_inv = lanes;
            queue_is = reading_queue p;
            quiet = tt;
          })

    wait_case :
        (c : Command Info D) (j : Str) (x : Session Info D) (tm : TM)
        → Reacts manager s.tm c (await_task j x tm)
        → s.phase ≡ reading
        → s.waiting ≡ none
        → IsValid tm
          × (task tm j ≡ none)
          × ((k : Str)
              → LaneInv work k
                  (inv.past ++ c ∷ [])
                  (some (j, x))
                  false
                  (task tm k)
                  (s.lanes k)
                  inv.entries)
    wait_case (feed j' i d) j x tm h p w = absurd h
    wait_case (finish j') j x tm h p w =
        let z : j ≡ j' = h.0 in
        (
          h.2,
          h.3 j ∙ (rw (z, str_eq_refl j') refl),
          λ k.
              subst
                (λ n.
                  LaneInv work k (inv.past ++ finish j' ∷ []) (some (n, x)) false (task tm k)
                    (s.lanes k) inv.entries)
                (sym z)
                (LaneInv-finish work k causal inv.past j' x (task s.tm k) (task tm k) (task s.tm j')
                  (s.lanes k) inv.entries (ap (task s.tm)) h.1 (h.3 k) (reading_lane p w k)),
        )
    wait_case skip j x tm h p w = absurd h
    wait_case (reject e) j x tm h p w = absurd h

    pub Inv-wait :
        (t : State manager Out) (r : Req) (rs : List Req) (j : Str) (x : Session Info D) (tm : TM)
        → s.phase ≡ reading
        → s.waiting ≡ none
        → s.requests ≡ r ∷ rs
        → on_request s.tm r ≡ await_task j x tm
        → t ≡ record s { requests = rs; tm = tm; waiting = some (j, x) }
        → Inv all t
    Inv-wait t r rs j x tm p w e g q =
        let (v, gone, lanes) =
          wait_case (command r) j x tm
            (subst (Reacts manager s.tm (command r)) g (laws.reacts s.tm r inv.valid)) p w in
        subst (Inv all)
          (sym (
            q ∙ (λ i. record {
              requests = rs;
              tm = tm;
              waiting = some (j, x);
              lanes = s.lanes;
              queue = s.queue;
              phase = p i;
            })))
          (record {
            past = inv.past ++ command r ∷ [];
            entries = inv.entries;
            valid = v;
            split = head_split r rs e;
            clean = (head-IsClean r rs e).1;
            gone = λ j' x' z. let n : j ≡ j' = cc in subst (λ n. task tm n ≡ none) n gone;
            lane_inv = lanes;
            queue_is = reading_queue p;
            quiet = tt;
          })
