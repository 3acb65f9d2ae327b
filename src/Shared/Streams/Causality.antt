-- ===== src/Shared/Streams/Causality.antt =====
-- What is asked of the tasks: more input does not take back what they have put, and with all of its
-- input a task ends.
use mathlib.Core.List.{append_assoc}
use numaflow_python.Base.{
  ◌≡◌, ◌≢◌, refl, ap, ◌∙◌, Bool, true, false, Option, none, some, List, [], ◌++◌,
}
use numaflow_python.Shared.Queue.{Read}
use numaflow_python.Shared.Server.{Exception}
use numaflow_python.Shared.Streams.{
  Status, working, finished, crashed, Produced, Session, LanePhase, running, over, broken, Lane,
  fresh,
}

module _ {Info D Out : Type 0} (work : Info → Read D → Produced Out) where
  -- More datums, or the end of them: a task that works on keeps what it has put, and one that does not
  -- stays as it is.
  pub record IsCausal : Type 0 where
    pub keeps :
        (i : Info) (ds more : List D) (e : Bool)
        → (rest : List Out) × ((work i (record { yielded = ds ++ more; ended = e })).output
            ≡ (work i (record { yielded = ds; ended = false })).output ++ rest)
    pub settles :
        (i : Info) (ds more : List D) (e : Bool)
        → (work i (record { yielded = ds; ended = false })).status ≢ working
        → work i (record { yielded = ds ++ more; ended = e })
          ≡ work i (record { yielded = ds; ended = false })

  -- With all of its input, a task's handler returns.
  abbrev pub Returns : Type 0
  Returns =
      (i : Info) (ds : List D) → (work i (record { yielded = ds; ended = true })).status ≡ finished

  -- What the task of a session puts in all.
  abbrev pub results : Session Info D → List Out
  results s = (work s.info (record { yielded = s.datums; ended = true })).output

  -- The task with this input has put a beginning of its results, and all of them if it is over.
  pub record Agrees (i : Info) (r : Read D) (lane : Lane Out) : Type 0 where
    pub rest : List Out
    pub begins : (work i r).output ≡ lane.sent ++ rest
    pub complete : lane.phase ≡ over → ((work i r).status ≡ finished) × (rest ≡ [])
    pub unbroken : lane.phase ≢ broken

  abbrev pub AgreesOpen : Option (Info × Read D) → Lane Out → Type 0
  AgreesOpen none lane = lane ≡ fresh
  AgreesOpen (some (i, r)) lane = Agrees i r lane

  pub Agrees-fresh : (i : Info) (r : Read D) → Agrees i r fresh
  Agrees-fresh i r = record {
    rest = (work i r).output;
    begins = refl;
    complete = λ q. cc;
    unbroken = λ q. cc;
  }

  module _ (causal : IsCausal) where
    finished-ne-working : {st : Status} → st ≡ finished → st ≢ working
    finished-ne-working e q = cc

    pub Agrees-more :
        (i : Info) (ds more : List D) (e : Bool) (lane : Lane Out)
        → Agrees i (record { yielded = ds; ended = false }) lane
        → Agrees i (record { yielded = ds ++ more; ended = e }) lane
    Agrees-more i ds more e lane a = by_phase lane.phase refl
      where
        by_phase :
            (p : LanePhase)
            → lane.phase ≡ p
            → Agrees i (record { yielded = ds ++ more; ended = e }) lane
        by_phase broken q = absurd (a.unbroken q)
        by_phase running q =
            let (rest, h) = causal.keeps i ds more e in
            record {
              rest = a.rest ++ rest;
              begins = h ∙ ap (λ l. l ++ rest) a.begins ∙ append_assoc lane.sent a.rest rest;
              complete = λ o. cc;
              unbroken = a.unbroken;
            }
        by_phase over q =
            let same = causal.settles i ds more e (finished-ne-working (a.complete q).0) in
            record {
              rest = a.rest;
              begins = ap (λ p. p.output) same ∙ a.begins;
              complete = λ o. (ap (λ p. p.status) same ∙ (a.complete q).0, (a.complete q).1);
              unbroken = a.unbroken;
            }

    never_crashed_at :
        Returns
        → (i : Info) (ds : List D) (b : Bool) (e : Exception)
        → (work i (record { yielded = ds; ended = b })).status ≢ crashed e
    never_crashed_at returns i ds true e q = let p = returns i ds in cc
    never_crashed_at returns i ds false e q =
        let same = causal.settles i ds [] true (λ w. cc) in
        let p = returns i (ds ++ []) in let p' = ap (λ p. p.status) same in cc

    -- A handler that returns with all of its input does not raise before.
    pub never_crashed :
        Returns → (i : Info) (r : Read D) (e : Exception) → (work i r).status ≢ crashed e
    never_crashed returns i r e = never_crashed_at returns i r.yielded r.ended e
