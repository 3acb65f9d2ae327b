-- ===== src/Shared/Streams/Errors/Returning.antt =====
-- What the client learns from an rpc that returns: no request was refused.
use numaflow_python.Base.{
  ◌≡◌, ◌≢◌, inl, inr, refl, sym, ap, ◌∙◌, subst, List, [], ◌∷◌, ◌++◌, map, Some,
}
use numaflow_python.Shared.Queue.{Queue, Read, item, stream_eof}
use numaflow_python.Shared.Server.{Exception, Result, ok, raised, Effect, Rpc, returned}
use numaflow_python.Shared.Workers.{consume}
use numaflow_python.Shared.Workers.Consuming.{consume-nil, consume-ok, consume-raised}
use numaflow_python.Shared.Streams.{
  Manager, ManagerLaws, Produced, Phase, reading, draining, closed, aborted, Tagged, State, untag,
  StreamFn,
}
use numaflow_python.Shared.Streams.Reference.{IsClean}
use numaflow_python.Shared.Streams.Errors.{IsEnd, HasRaised}
use numaflow_python.Shared.Streams.Errors.Clean.{Decided, Clear, Clear-start}
use numaflow_python.Shared.Streams.Errors.Clearing.{Run-Clear}

module _ {Out : Type 0} (on_error : Exception → List Effect) where
  abbrev Returns : Queue (Result (Tagged Out)) → Type 0
  Returns q = (consume on_error (untag q)).outcome ≡ returned

  -- The consumer comes to an end of the queue only past items that are not errors.
  returned_past :
      (before rest : Queue (Result (Tagged Out)))
      → ¬ Some IsEnd before
      → Returns (before ++ rest)
      → ¬ HasRaised before
  returned_past [] rest n h s = s
  returned_past (stream_eof ∷ q) rest n h s = n (inl tt)
  returned_past (item (raised e) ∷ q) rest n h s =
      let h' = sym (ap (λ r. r.outcome) (consume-raised on_error e (untag (q ++ rest)))) ∙ h in cc
  returned_past (item (ok (k, x)) ∷ q) rest n h (inl s) = s
  returned_past (item (ok (k, x)) ∷ q) rest n h (inr s) =
      returned_past q rest (λ t. n (inr t))
        (sym (ap (λ r. r.outcome) (consume-ok on_error x (untag (q ++ rest)))) ∙ h) s

  ne-returned : (q : Queue (Result (Tagged Out))) → ¬ Some IsEnd q → ¬ Returns q
  ne-returned [] n h =
      let h' = sym (ap (λ r. r.outcome) (consume-nil {Out = Out} on_error)) ∙ h in cc
  ne-returned (stream_eof ∷ q) n h = n (inl tt)
  ne-returned (item (raised e) ∷ q) n h =
      let h' = sym (ap (λ r. r.outcome) (consume-raised on_error e (untag q))) ∙ h in cc
  ne-returned (item (ok (k, x)) ∷ q) n h =
      ne-returned q (λ t. n (inr t))
        (sym (ap (λ r. r.outcome) (consume-ok on_error x (untag q))) ∙ h)

module _ (manager : Manager) (laws : ManagerLaws manager) {Out : Type 0}
    (work : manager.Info → Read (manager.D) → Produced Out) (trailer : manager.TM → List Out)
    (reqs : List (manager.Req)) (on_error : Exception → List Effect) where
  open manager use {command}

  Decided-IsClean :
      (q : Queue (Result (Tagged Out)))
      → Decided manager laws work trailer reqs q
      → Returns on_error q
      → IsClean [] (map command reqs)
  Decided-IsClean q d h = elim d.verdict [
    | inl r ↦ absurd (
        returned_past on_error d.before (stream_eof ∷ d.rest) d.open_before
          (subst (Returns on_error) d.is h) r)
    | inr c ↦ c
  ]

  Clear-IsClean :
      (s : State manager Out)
      → Clear manager laws work trailer reqs s
      → Returns on_error s.queue
      → IsClean [] (map command reqs)
  Clear-IsClean s v h = by_phase s.phase refl
    where
      still_open : s.phase ≢ closed → IsClean [] (map command reqs)
      still_open n = absurd (ne-returned on_error s.queue (v.open_queue n) h)

      by_phase : (p : Phase) → s.phase ≡ p → IsClean [] (map command reqs)
      by_phase reading p = still_open (λ q. let z = sym p ∙ q in cc)
      by_phase draining p = still_open (λ q. let z = sym p ∙ q in cc)
      by_phase closed p = Decided-IsClean s.queue (v.decided p) h
      by_phase aborted p = still_open (λ q. let z = sym p ∙ q in cc)

  -- An rpc that returns has read all requests, and none of them was one that the task manager refuses.
  pub StreamFn-IsClean :
      (rpc : Rpc Out)
      → StreamFn manager work trailer on_error reqs rpc
      → rpc.outcome ≡ returned
      → IsClean [] (map command reqs)
  StreamFn-IsClean rpc fn h =
      Clear-IsClean fn.final
        (Run-Clear manager laws work trailer reqs fn.run
          (Clear-start manager laws work trailer reqs))
        (ap (λ r. r.outcome) (sym fn.consumed) ∙ h)
