-- ===== src/Shared/Workers/Failing.antt =====
-- A servicer with one task for each request, when a handler raises.
use numaflow_python.Base.{
  ◌≡◌, inl, inr, refl, sym, ap, ◌∙◌, subst, true, List, [], ◌∷◌, ◌++◌, map, Some, Some-map,
}
use numaflow_python.Shared.Server.{Exception, Result, ok, raised, Effect, Rpc, failed}
use numaflow_python.Shared.Interleave.{Interleaves}
use numaflow_python.Shared.Interleave.Errors.{Interleaves-Some, Some-Interleaves}
use numaflow_python.Shared.Workers.{gather, responses, before_error, ending, WorkerServer, WorkerFn}
use numaflow_python.Shared.Workers.Serving.{Interleaves-responses}
use numaflow_python.Shared.Workers.Rpcs.{WorkerFn-ends}

-- The exception is put.
abbrev pub PutsException : {Out : Type 0} → Exception → List (Result Out) → Type 0
PutsException e xs = Some (λ x. x ≡ raised e) xs

module _ {Out : Type 0} where
  abbrev pub IsRaised : Result Out → Type 0
  IsRaised x = (e : Exception) × (x ≡ raised e)

  -- What is sent before the first exception is the beginning of all responses.
  before_error_rest :
      (zs : List (Result Out)) → (rest : List Out) × (responses zs ≡ before_error zs ++ rest)
  before_error_rest [] = ([], refl)
  before_error_rest (ok o ∷ zs) = let (rest, e) = before_error_rest zs in (rest, ap (λ l. o ∷ l) e)
  before_error_rest (raised x ∷ zs) = (responses zs, refl)

  ending-raised :
      (on_error : Exception → List Effect) (zs : List (Result Out))
      → Some IsRaised zs
      → (e : Exception) × PutsException e zs × (ending on_error zs ≡ failed (on_error e))
  ending-raised on_error [] s = absurd s
  ending-raised on_error (ok o ∷ zs) (inl (e, p)) = cc
  ending-raised on_error (ok o ∷ zs) (inr s) =
      let (e, p, q) = ending-raised on_error zs s in (e, inr p, q)
  ending-raised on_error (raised x ∷ zs) s = (x, inl refl, refl)

module _ (server : WorkerServer) where
  open server use {Req, Out, sot, handshake, invoke, waiting, on_error}

  -- After a handshake, if the task of some request puts an exception: the rpc fails by an exception that
  -- the task of a request puts, and what it has sent after the handshake begins an interleaving of the
  -- responses to the requests.
  pub WorkerFn-fails :
      (req : Req) (reqs : List Req) (rpc : Rpc Out)
      → waiting ≡ gather
      → sot req ≡ true
      → Some (λ r. Some IsRaised (invoke r)) reqs
      → WorkerFn server (req ∷ reqs) rpc
      → (e : Exception) × Some (λ r. PutsException e (invoke r)) reqs
        × (ys : List Out) × (rest : List Out) × (rpc
            ≡ record { sent = handshake ∷ ys; outcome = failed (on_error e) })
        × Interleaves (map responses (map invoke reqs)) (ys ++ rest)
  WorkerFn-fails req reqs rpc g h s f =
      let (zs, i, p) = WorkerFn-ends server req reqs rpc g h f in
      let arrived =
        Interleaves-Some IsRaised i
          (subst (λ t. t) (sym (Some-map (Some IsRaised) invoke reqs)) s) in
      let (e, r, q) = ending-raised on_error zs arrived in
      let (rest, b) = before_error_rest zs in
      (
        e,
        subst (λ t. t) (Some-map (PutsException e) invoke reqs)
            (Some-Interleaves (λ x. x ≡ raised e) i r),
        before_error zs,
        rest,
        p ∙ ap (λ o. record { sent = handshake ∷ before_error zs; outcome = o }) q,
        subst (Interleaves (map responses (map invoke reqs))) b (Interleaves-responses i),
      )
