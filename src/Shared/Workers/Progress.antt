-- ===== src/Shared/Workers/Progress.antt =====
-- No schedule runs for ever, and a producer that waits by `gather` gets to the end in every one.
use numaflow_python.Base.{
  ℕ, zero, suc, ◌+◌, ◌<◌, ◌≡◌, ◌≢◌, refl, sym, ap, ◌∙◌, List, [], ◌∷◌, ◌++◌, arith, length,
}
use numaflow_python.Shared.Server.{Result}
use numaflow_python.Shared.Workers.{
  Waiting, gather, Phase, active, closed, crashed, State, start, Step, read, emit, discard, close,
  crash, Run, stop, step,
}

abbrev phase_cost : Phase → ℕ
phase_cost active = 1
phase_cost closed = 0
phase_cost crashed = 0

abbrev running_cost {ℓ} : {A : Type ℓ} → List (List A) → ℕ
running_cost [] = 0
running_cost (xs ∷ xss) = suc (length xs + running_cost xss)

running_cost-middle {ℓ} :
    {A : Type ℓ} (us : List (List A)) (xs : List A) (vs : List (List A))
    → running_cost (us ++ xs ∷ vs) ≡ suc (length xs + (running_cost us + running_cost vs))
running_cost-middle [] xs vs = omega arith
running_cost-middle (u ∷ us) xs vs = omega (arith, running_cost-middle us xs vs)

running_cost-append {ℓ} :
    {A : Type ℓ} (us vs : List (List A))
    → running_cost (us ++ vs) ≡ running_cost us + running_cost vs
running_cost-append [] vs = omega arith
running_cost-append (u ∷ us) vs = omega (arith, running_cost-append us vs)

module _ {Req Out : Type 0} (invoke : Req → List (Result Out)) where
  abbrev request_cost : List Req → ℕ
  request_cost [] = 0
  request_cost (r ∷ rs) = suc (suc (length (invoke r) + request_cost rs))

  -- The steps that are left.
  abbrev pub measure : State Req Out → ℕ
  measure s = request_cost s.requests + running_cost s.running + phase_cost s.phase

  -- Each step lowers the measure, so no schedule is infinite.
  pub Step-measure :
      (waiting : Waiting) {s t : State Req Out} → Step invoke waiting s t → measure t < measure s
  Step-measure waiting {s} (read r rs a e q) =
      rw (q, e)
        (omega (
          arith,
          running_cost-middle s.running (invoke r) [],
          running_cost-append s.running (invoke r ∷ []),
        ))
  Step-measure waiting {s} (emit us x xs vs e q) =
      rw (q, e) (omega (arith, running_cost-middle us xs vs, running_cost-middle us (x ∷ xs) vs))
  Step-measure waiting {s} (discard us vs e q) =
      rw (q, e) (omega (arith, running_cost-middle us [] vs, running_cost-append us vs))
  Step-measure waiting {s} (close a e can q) = rw (q, a) (omega arith)
  Step-measure waiting {s} (crash a e w n q) = rw (q, a) (omega arith)

  next_running :
      (s : State Req Out) (xss : List (List (Result Out)))
      → s.requests ≡ []
      → s.running ≡ xss
      → s.phase ≡ active
      → (t : State Req Out) × Step invoke gather s t
  next_running s [] e r a = (_, close a e r refl)
  next_running s ([] ∷ vs) e r a = (_, discard [] vs r refl)
  next_running s ((x ∷ xs) ∷ vs) e r a = (_, emit [] x xs vs r refl)

  next-Step :
      (s : State Req Out) (rs : List Req)
      → s.requests ≡ rs
      → s.phase ≡ active
      → (t : State Req Out) × Step invoke gather s t
  next-Step s [] e a = next_running s s.running e refl a
  next-Step s (r ∷ rs) e a = (_, read r rs a e refl)

  -- With `gather` there is a step from every state in which the producer is active.
  pub gather_progress :
      (s : State Req Out) → s.phase ≡ active → (t : State Req Out) × Step invoke gather s t
  gather_progress s a = next-Step s s.requests refl a

  -- With `gather` a producer does not crash.
  gather-ne-crashed :
      {s t : State Req Out} → Step invoke gather s t → s.phase ≢ crashed → t.phase ≢ crashed
  gather-ne-crashed (read r rs a e q) h c = h (sym (ap (λ u. u.phase) q) ∙ c)
  gather-ne-crashed (emit us x xs vs e q) h c = h (sym (ap (λ u. u.phase) q) ∙ c)
  gather-ne-crashed (discard us vs e q) h c = h (sym (ap (λ u. u.phase) q) ∙ c)
  gather-ne-crashed (close a e can q) h c = cc (ap (λ u. u.phase) q)
  gather-ne-crashed (crash a e w n q) h c = cc

  finish_from :
      (n : ℕ) (s : State Req Out) (p : Phase)
      → measure s < n
      → s.phase ≡ p
      → p ≢ crashed
      → (t : State Req Out) × Run invoke gather s t × (t.phase ≡ closed)
  finish_from zero s p m e h = elim m [ ]
  finish_from (suc n) s closed m e h = (s, stop, e)
  finish_from (suc n) s crashed m e h = absurd (h refl)
  finish_from (suc n) s active m e h =
      let (t, st) = gather_progress s e in
      let (u, run, c) =
        finish_from n t t.phase (omega (arith, Step-measure gather st)) refl
          (gather-ne-crashed st (λ q. cc)) in
      (u, step st run, c)

  pub Run-ne-crashed :
      {s t : State Req Out} → Run invoke gather s t → s.phase ≢ crashed → t.phase ≢ crashed
  Run-ne-crashed stop h = h
  Run-ne-crashed (step st run) h = Run-ne-crashed run (gather-ne-crashed st h)

  -- With `gather`, every state that a schedule can reach from the start can go on to one in which the
  -- end of the queue is put.
  pub gather_total :
      (reqs : List Req) (s : State Req Out)
      → Run invoke gather (start reqs) s
      → (t : State Req Out) × Run invoke gather s t × (t.phase ≡ closed)
  gather_total reqs s run =
      finish_from (suc (measure s)) s s.phase (omega arith) refl (Run-ne-crashed run (λ q. cc))
