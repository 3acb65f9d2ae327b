-- ===== src/Shared/Workers/Runs.antt =====
-- What is in the queue after a run of the scheduler.
use mathlib.Core.List.{append_assoc, append-nil, map-append}
use numaflow_python.Base.{
  ◌≡◌, refl, sym, ap, ◌∙◌, subst, inl, inr, ◌⊎◌, true, false, List, [], ◌∷◌, ◌++◌, map, All,
}
use numaflow_python.Shared.Queue.{item, stream_eof, put, read_iterator, read_iterator-items}
use numaflow_python.Shared.Server.{Result}
use numaflow_python.Shared.Interleave
use numaflow_python.Shared.Interleave.{Interleaves}
use numaflow_python.Shared.Workers.{
  Waiting, gather, loop_over_set, active, closed, crashed, State, start, IsDone, CanClose, Step,
  read, emit, discard, close, crash, Run, stop, step,
}

module _ {Req Out : Type 0} (invoke : Req → List (Result Out)) (waiting : Waiting) where
  -- All that is still to be put: by the running tasks, and by those of the unread requests.
  abbrev pub remaining : State Req Out → List (List (Result Out))
  remaining s = s.running ++ map invoke s.requests

  IsDone-Interleaves :
      {A : Type 0} (xss : List (List A)) → All (λ xs. xs ≡ []) xss → Interleaves xss []
  IsDone-Interleaves [] h = Interleave.end
  IsDone-Interleaves (xs ∷ xss) h =
      Interleave.leave [] xss (ap (λ l. l ∷ xss) h.0) refl (IsDone-Interleaves xss h.1)

  CanClose-Interleaves :
      (w : Waiting) (xss : List (List (Result Out))) → CanClose w xss → Interleaves xss []
  CanClose-Interleaves gather xss h = subst (λ l. Interleaves l []) (sym h) Interleave.end
  CanClose-Interleaves loop_over_set xss h = IsDone-Interleaves xss h

  CanClose-IsDone : (w : Waiting) (xss : List (List (Result Out))) → CanClose w xss → All IsDone xss
  CanClose-IsDone gather xss h = subst (All IsDone) (sym h) tt
  CanClose-IsDone loop_over_set xss h = h

  not-IsDone_middle :
      (us vs : List (List (Result Out))) (x : Result Out) (xs : List (Result Out))
      → ¬ All IsDone (us ++ (x ∷ xs) ∷ vs)
  not-IsDone_middle [] vs x xs h = cc (h.0)
  not-IsDone_middle (u ∷ us) vs x xs h = not-IsDone_middle us vs x xs h.1

  IsDone-without :
      (us vs : List (List (Result Out))) → All IsDone (us ++ [] ∷ vs) → All IsDone (us ++ vs)
  IsDone-without [] vs h = h.1
  IsDone-without (u ∷ us) vs h = (h.0, IsDone-without us vs h.1)

  -- After the end nothing is put.
  queue-Run-closed :
      {s t : State Req Out}
      → Run invoke waiting s t
      → s.phase ≡ closed
      → All IsDone s.running
      → t.queue ≡ s.queue
  queue-Run-closed stop c h = refl
  queue-Run-closed (step (read r rs a e q) run) c h = cc
  queue-Run-closed (step (emit us x xs vs e q) run) c h =
      absurd (not-IsDone_middle us vs x xs (subst (All IsDone) e h))
  queue-Run-closed (step (discard us vs e q) run) c h =
      queue-Run-closed run (ap (λ u. u.phase) q ∙ c) (
        subst (All IsDone) (sym (ap (λ u. u.running) q))
          (IsDone-without us vs (subst (All IsDone) e h)))
      ∙ ap (λ u. u.queue) q
  queue-Run-closed (step (close a e can q) run) c h = cc
  queue-Run-closed (step (crash a e w n q) run) c h = cc

  -- A producer that has crashed stays so.
  pub phase-Run-crashed :
      {s t : State Req Out} → Run invoke waiting s t → s.phase ≡ crashed → t.phase ≡ crashed
  phase-Run-crashed stop c = c
  phase-Run-crashed (step (read r rs a e q) run) c = cc
  phase-Run-crashed (step (emit us x xs vs e q) run) c =
      phase-Run-crashed run (ap (λ u. u.phase) q ∙ c)
  phase-Run-crashed (step (discard us vs e q) run) c =
      phase-Run-crashed run (ap (λ u. u.phase) q ∙ c)
  phase-Run-crashed (step (close a e can q) run) c = cc
  phase-Run-crashed (step (crash a e w n q) run) c = cc

  abbrev Produced : State Req Out → State Req Out → Type 0
  Produced s t =
      (zs : List (Result Out)) × (t.queue ≡ s.queue ++ (map item zs ++ stream_eof ∷ []))
      × Interleaves (remaining s) zs

  -- One more result in front.
  Produced-emit :
      (s u t : State Req Out) (us : List (List (Result Out))) (x : Result Out)
      (xs : List (Result Out)) (vs : List (List (Result Out)))
      → s.running ≡ us ++ (x ∷ xs) ∷ vs
      → u ≡ record s { running = us ++ xs ∷ vs; queue = put s.queue (item x) }
      → Produced u t
      → Produced s t
  unfolding put
  Produced-emit s u t us x xs vs e q (zs, p, i) = (
    x ∷ zs,
    p ∙ ap (λ v. v.queue ++ (map item zs ++ stream_eof ∷ [])) q ∙ append_assoc s.queue _ _,
    Interleave.emit us x xs (vs ++ map invoke s.requests)
        (ap (λ l. l ++ map invoke s.requests) e ∙ append_assoc us _ _)
        (ap remaining q ∙ append_assoc us _ _) i,
  )

  phase-Run-closed :
      {s t : State Req Out}
      → Run invoke waiting s t
      → s.phase ≡ active
      → t.phase ≡ closed
      → Produced s t
  unfolding put
  phase-Run-closed stop a c = cc
  phase-Run-closed {s} (step (read r rs b e q) run) a c =
      let (zs, p, i) = phase-Run-closed run (ap (λ u. u.phase) q ∙ a) c in
      (
        zs,
        p ∙ ap (λ u. u.queue ++ (map item zs ++ stream_eof ∷ [])) q,
        subst (λ l. Interleaves l zs)
            (ap remaining q
              ∙ append_assoc s.running _ _
              ∙ ap (λ l. s.running ++ map invoke l) (sym e))
            i,
      )
  phase-Run-closed {s} {t} (step {t = u} (emit us x xs vs e q) run) a c =
      Produced-emit s u t us x xs vs e q (phase-Run-closed run (ap (λ u. u.phase) q ∙ a) c)
  phase-Run-closed {s} (step (discard us vs e q) run) a c =
      let (zs, p, i) = phase-Run-closed run (ap (λ u. u.phase) q ∙ a) c in
      (
        zs,
        p ∙ ap (λ u. u.queue ++ (map item zs ++ stream_eof ∷ [])) q,
        Interleave.leave us (vs ++ map invoke s.requests)
            (ap (λ l. l ++ map invoke s.requests) e ∙ append_assoc us _ _)
            (ap remaining q ∙ append_assoc us _ _) i,
      )
  phase-Run-closed {s} (step (close b e can q) run) a c = (
    [],
    queue-Run-closed run (ap (λ u. u.phase) q)
          (subst (All IsDone) (sym (ap (λ u. u.running) q)) (CanClose-IsDone waiting s.running can))
        ∙ ap (λ u. u.queue) q,
    subst (λ l. Interleaves l [])
        (sym (ap (λ l. s.running ++ map invoke l) e ∙ append-nil s.running))
        (CanClose-Interleaves waiting s.running can),
  )
  phase-Run-closed (step (crash _ _ _ _ q) run) a c =
      let p = phase-Run-crashed run (ap (λ u. u.phase) q) in cc

  -- When a run from the start has closed the queue, the queue holds an interleaving of what the tasks
  -- of all requests put, and then the end.
  pub Run-closed :
      {t : State Req Out} (reqs : List Req)
      → Run invoke waiting (start reqs) t
      → t.phase ≡ closed
      → (zs : List (Result Out)) × (read_iterator t.queue ≡ record { yielded = zs; ended = true })
        × Interleaves (map invoke reqs) zs
  Run-closed reqs run c =
      let (zs, p, i) = phase-Run-closed run refl c in
      (zs, ap read_iterator p ∙ (read_iterator-items zs []).0, i)

  abbrev Unended : State Req Out → Type 0
  Unended s = (s.phase ≡ closed) ⊎ ((zs : List (Result Out)) × (s.queue ≡ map item zs))

  Step-Unended : {s t : State Req Out} → Step invoke waiting s t → Unended s → Unended t
  unfolding put
  Step-Unended (read r rs a e q) (inl c) = cc
  Step-Unended (emit us x xs vs e q) (inl c) = inl (ap (λ u. u.phase) q ∙ c)
  Step-Unended (discard us vs e q) (inl c) = inl (ap (λ u. u.phase) q ∙ c)
  Step-Unended (close a e can q) _ = inl (ap (λ u. u.phase) q)
  Step-Unended (crash a e w n q) (inl c) = cc
  Step-Unended (read r rs a e q) (inr (zs, h)) = inr (zs, ap (λ u. u.queue) q ∙ h)
  Step-Unended (emit us x xs vs e q) (inr (zs, h)) = inr (
    zs ++ x ∷ [],
    ap (λ u. u.queue) q ∙ ap (λ l. l ++ item x ∷ []) h ∙ sym (map-append item zs (x ∷ [])),
  )
  Step-Unended (discard us vs e q) (inr (zs, h)) = inr (zs, ap (λ u. u.queue) q ∙ h)
  Step-Unended (crash a e w n q) (inr (zs, h)) = inr (zs, ap (λ u. u.queue) q ∙ h)

  Run-Unended : {s t : State Req Out} → Run invoke waiting s t → Unended s → Unended t
  Run-Unended stop h = h
  Run-Unended (step st run) h = Run-Unended run (Step-Unended st h)

  -- When a run from the start has crashed the producer, the queue has no end, and gets none in any
  -- continuation: its reader waits for ever.
  pub Run-crashed :
      {s t : State Req Out} (reqs : List Req)
      → Run invoke waiting (start reqs) s
      → s.phase ≡ crashed
      → Run invoke waiting s t
      → (read_iterator t.queue).ended ≡ false
  Run-crashed {s} {t} reqs run c more =
      let p = phase-Run-crashed more c in
      elim (Run-Unended more (Run-Unended run (inr ([], refl)))) [
        | inl q ↦ cc
        | inr (zs, q) ↦
            ap (λ l. (read_iterator l).ended) q ∙ ap (λ r. r.ended) (read_iterator-items zs []).1
      ]
