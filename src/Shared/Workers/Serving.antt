-- ===== src/Shared/Workers/Serving.antt =====
-- What a client gets from a servicer with one task for each request.
use mathlib.Core.List.{map-append}
use numaflow_python.Base.{◌≡◌, refl, sym, ap, ◌∙◌, subst, List, [], ◌∷◌, ◌++◌, map, All}
use numaflow_python.Shared.Server.{Exception, Result, ok, raised, Effect, Rpc, returned}
use numaflow_python.Shared.Interleave
use numaflow_python.Shared.Interleave.{Interleaves, Interleaves-All}
use numaflow_python.Shared.Workers.{
  gather, Phase, active, closed, crashed, consume-ended, IsOk, responses, before_error, ending,
  Serves,
}
use numaflow_python.Shared.Workers.Runs.{Run-closed}
use numaflow_python.Shared.Workers.Progress.{gather_progress, Run-ne-crashed}

map-middle :
    {A B : Type 0} (f : A → B) (us : List A) (x : A) (vs : List A)
    → map f (us ++ x ∷ vs) ≡ map f us ++ f x ∷ map f vs
map-middle f us x vs = map-append f us (x ∷ vs)

module _ {Out : Type 0} where
  -- The responses of an interleaving interleave the responses of the tasks.
  pub Interleaves-responses :
      {xss : List (List (Result Out))} {zs : List (Result Out)}
      → Interleaves xss zs
      → Interleaves (map responses xss) (responses zs)
  Interleaves-responses Interleave.end = Interleave.end
  Interleaves-responses (Interleave.emit us (ok o) xs vs e f i) =
      Interleave.emit (map responses us) o (responses xs) (map responses vs)
        (ap (map responses) e ∙ map-middle responses us (ok o ∷ xs) vs)
        (ap (map responses) f ∙ map-middle responses us xs vs) (Interleaves-responses i)
  Interleaves-responses (Interleave.emit {zs = zs} us (raised x) xs vs e f i) =
      subst (λ l. Interleaves l (responses zs))
        (ap (map responses) f
          ∙ map-middle responses us xs vs
          ∙ sym (ap (map responses) e ∙ map-middle responses us (raised x ∷ xs) vs))
        (Interleaves-responses i)
  Interleaves-responses (Interleave.leave us vs e f i) =
      Interleave.leave (map responses us) (map responses vs)
        (ap (map responses) e ∙ map-middle responses us [] vs)
        (ap (map responses) f ∙ map-append responses us vs) (Interleaves-responses i)

module _ {Out : Type 0} (on_error : Exception → List Effect) where
  before_error-ok :
      (zs : List (Result Out))
      → All IsOk zs
      → (before_error zs ≡ responses zs) × (ending on_error zs ≡ returned)
  before_error-ok [] h = (refl, refl)
  before_error-ok (ok o ∷ zs) h = let (p, q) = before_error-ok zs h.1 in (ap (λ l. o ∷ l) p, q)
  before_error-ok (raised e ∷ zs) h = absurd h.0

module _ {Req Out : Type 0} (invoke : Req → List (Result Out))
    (on_error : Exception → List Effect) where
  -- With `gather`, the client of any schedule that has come to rest has got the responses before the
  -- first exception in some interleaving of what the tasks put, and the rpc ends by that exception.
  pub gather-Serves :
      (reqs : List Req) (rpc : Rpc Out)
      → Serves invoke gather on_error reqs rpc
      → (zs : List (Result Out)) × Interleaves (map invoke reqs) zs
        × (rpc ≡ record { sent = before_error zs; outcome = ending on_error zs })
  gather-Serves reqs rpc s = by_phase s.final.phase refl
    where
      by_phase :
          (p : Phase)
          → s.final.phase ≡ p
          → (zs : List (Result Out)) × Interleaves (map invoke reqs) zs
            × (rpc ≡ record { sent = before_error zs; outcome = ending on_error zs })
      by_phase active e = absurd (s.at_rest (gather_progress invoke s.final e))
      by_phase crashed e = absurd (Run-ne-crashed invoke s.run (λ q. cc) e)
      by_phase closed e =
          let (zs, r, i) = Run-closed invoke gather reqs s.run e in
          (zs, i, s.consumed ∙ consume-ended on_error s.final.queue zs r)

  -- If no task puts an exception, the rpc returns, and what it has sent interleaves the responses to
  -- the requests.
  pub gather_delivers :
      (reqs : List Req) (rpc : Rpc Out)
      → All (All IsOk) (map invoke reqs)
      → Serves invoke gather on_error reqs rpc
      → Interleaves (map responses (map invoke reqs)) rpc.sent × (rpc.outcome ≡ returned)
  gather_delivers reqs rpc h s =
      let (zs, i, e) = gather-Serves reqs rpc s in
      let (p, q) = before_error-ok on_error zs (Interleaves-All IsOk i h) in
      (
        subst (λ l. Interleaves (map responses (map invoke reqs)) l)
            (sym p ∙ sym (ap (λ r. r.sent) e)) (Interleaves-responses i),
        ap (λ r. r.outcome) e ∙ q,
      )
