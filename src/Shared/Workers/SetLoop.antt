-- ===== src/Shared/Workers/SetLoop.antt =====
-- A producer that waits by a loop over the set of its running tasks (mapper/_servicer/_async_servicer.py).
use mathlib.Core.List.{append_assoc, append-nil}
use numaflow_python.Base.{
  ◌≡◌, ◌≢◌, refl, sym, ap, ◌∙◌, subst, List, [], ◌∷◌, ◌++◌, map, All, All-append,
}
use numaflow_python.Shared.Queue.{Queue, item, put, read_iterator-items}
use numaflow_python.Shared.Server.{Exception, Result, ok, raised, Effect, Rpc, blocked}
use numaflow_python.Shared.Interleave.{Interleaves, flatten}
use numaflow_python.Shared.Workers.{
  loop_over_set, active, closed, crashed, State, Step, read, emit, discard, close, crash, Run, stop,
  step, consume-ended, consume-open, responses, before_error, ending, Serves,
}
use numaflow_python.Shared.Workers.Runs.{Run-closed}
use numaflow_python.Shared.Workers.{IsOk}

middle-ne-nil {ℓ} : {A : Type ℓ} (us : List A) (x : A) (vs : List A) → ¬ ([] ≡ us ++ x ∷ vs)
middle-ne-nil [] x vs e = cc
middle-ne-nil (u ∷ us) x vs e = cc

module _ {Out : Type 0} where
  flatten-All : (xss : List (List (Result Out))) → All (All IsOk) xss → All IsOk (flatten xss)
  flatten-All [] h = tt
  flatten-All (xs ∷ xss) h = All-append IsOk xs (flatten xss) h.0 (flatten-All xss h.1)

  responses-append :
      (xs ys : List (Result Out)) → responses (xs ++ ys) ≡ responses xs ++ responses ys
  responses-append [] ys = refl
  responses-append (ok o ∷ xs) ys = rw (responses-append xs ys)
  responses-append (raised e ∷ xs) ys = responses-append xs ys

  responses-flatten :
      (xss : List (List (Result Out))) → responses (flatten xss) ≡ flatten (map responses xss)
  responses-flatten [] = refl
  responses-flatten (xs ∷ xss) = rw (responses-append xs (flatten xss), responses-flatten xss)

module _ {Req Out : Type 0} (invoke : Req → List (Result Out)) where
  abbrev reading : List (List (Result Out)) → List Req → State Req Out
  reading running reqs = record { requests = reqs; running = running; queue = []; phase = active }

  chain :
      {s t u : State Req Out}
      → Run invoke loop_over_set s t
      → Run invoke loop_over_set t u
      → Run invoke loop_over_set s u
  chain stop b = b
  chain (step st a) b = step st (chain a b)

  -- All requests are read before any task has put its result.
  read_all :
      (running : List (List (Result Out))) (reqs : List Req)
      → Run invoke loop_over_set (reading running reqs) (reading (running ++ map invoke reqs) [])
  read_all running [] =
      subst (λ l. Run invoke loop_over_set (reading running []) (reading l []))
        (sym (append-nil running)) stop
  read_all running (r ∷ rs) =
      subst (λ l. Run invoke loop_over_set (reading running (r ∷ rs)) (reading l []))
        (append_assoc running (invoke r ∷ []) (map invoke rs))
        (step (read r rs refl refl refl) (read_all (running ++ invoke r ∷ []) rs))

  snoc :
      {s t u : State Req Out}
      → Run invoke loop_over_set s t
      → Step invoke loop_over_set t u
      → Run invoke loop_over_set s u
  snoc stop st = step st stop
  snoc (step a run) st = step a (snoc run st)

  abbrev stuck : List (List (Result Out)) → Queue (Result Out) → State Req Out
  stuck running q = record { requests = []; running = running; queue = q; phase = crashed }

  -- After the crash the tasks go on, one after another, and put all that they have.
  empty_all :
      (running : List (List (Result Out))) (q : Queue (Result Out))
      → Run invoke loop_over_set (stuck running q) (stuck [] (q ++ map item (flatten running)))
  unfolding put
  empty_all [] q =
      subst (λ l. Run invoke loop_over_set (stuck [] q) (stuck [] l)) (sym (append-nil q)) stop
  empty_all ([] ∷ vs) q = step (discard [] vs refl refl) (empty_all vs q)
  empty_all ((x ∷ xs) ∷ vs) q =
      subst (λ l. Run invoke loop_over_set (stuck ((x ∷ xs) ∷ vs) q) (stuck [] l))
        (append_assoc q (item x ∷ []) (map item (flatten (xs ∷ vs))))
        (step (emit [] x xs vs refl refl) (empty_all (xs ∷ vs) (q ++ item x ∷ [])))

  stuck_rests :
      (q : Queue (Result Out)) → ¬ ((t : State Req Out) × Step invoke loop_over_set (stuck [] q) t)
  stuck_rests q (t, read r rs a e p) = cc
  stuck_rests q (t, emit us x xs vs e p) = middle-ne-nil us (x ∷ xs) vs e
  stuck_rests q (t, discard us vs e p) = middle-ne-nil us [] vs e
  stuck_rests q (t, close a e can p) = cc
  stuck_rests q (t, crash a e w n p) = cc

  -- Whenever the first request's task has something to put, there is a schedule that crashes the
  -- producer: all requests are read, and the loop over the set starts, before that task is done. If no
  -- task puts an exception, the rpc then sends all responses, and waits for ever.
  pub loop_can_hang :
      (on_error : Exception → List Effect) (r : Req) (rs : List Req)
      → invoke r ≢ []
      → All (All IsOk) (map invoke (r ∷ rs))
      → Serves invoke loop_over_set on_error
          (r ∷ rs)
          (record { sent = flatten (map responses (map invoke (r ∷ rs))); outcome = blocked })
  loop_can_hang on_error r rs h all_ok = record {
    final = stuck [] (map item (flatten (map invoke (r ∷ rs))));
    run =
        chain (snoc (read_all [] (r ∷ rs)) (crash refl refl refl (λ d. h d.0) refl))
          (empty_all (map invoke (r ∷ rs)) []);
    at_rest = stuck_rests _;
    consumed = sym (
        consume-open on_error _ (flatten (map invoke (r ∷ rs)))
          (read_iterator-items (flatten (map invoke (r ∷ rs))) []).1
          (flatten-All (map invoke (r ∷ rs)) all_ok)
        ∙ ap (λ l. record { sent = l; outcome = blocked })
            (responses-flatten (map invoke (r ∷ rs))));
  }

  -- A schedule in which every task was done when the loop over the set started delivers as with
  -- `gather`.
  pub loop-Serves :
      (on_error : Exception → List Effect) (reqs : List Req) (rpc : Rpc Out)
      (s : Serves invoke loop_over_set on_error reqs rpc)
      → s.final.phase ≡ closed
      → (zs : List (Result Out)) × Interleaves (map invoke reqs) zs
        × (rpc ≡ record { sent = before_error zs; outcome = ending on_error zs })
  loop-Serves on_error reqs rpc s e =
      let (zs, r, i) = Run-closed invoke loop_over_set reqs s.run e in
      (zs, i, s.consumed ∙ consume-ended on_error s.final.queue zs r)
