-- ===== src/Shared/Streams/Completes.antt =====
-- Every schedule can be brought to an end at which the rpc returns.
use numaflow_python.Base.{◌≡◌, refl, List, [], map}
use numaflow_python.Shared.Queue.{Read}
use numaflow_python.Shared.Server.{Exception, Effect}
use numaflow_python.Shared.Workers.{consume}
use numaflow_python.Shared.Streams.{
  Manager, ManagerLaws, Produced, closed, State, Run, start, untag, StreamFn,
}
use numaflow_python.Shared.Streams.Reference.{IsClean}
use numaflow_python.Shared.Streams.Causality.{IsCausal, Returns}
use numaflow_python.Shared.Streams.Steps.{Inv-start}
use numaflow_python.Shared.Streams.Reachable.{Run-Inv}
use numaflow_python.Shared.Streams.Progress.{closed-rests}
use numaflow_python.Shared.Streams.Completion.{follow}
use numaflow_python.Shared.Streams.Total.{Inv-CanClose}

module _ (manager : Manager) (laws : ManagerLaws manager) {Out : Type 0}
    (work : manager.Info → Read (manager.D) → Produced Out) (trailer : manager.TM → List Out)
    (causal : IsCausal work) (returns : Returns work) where
  open manager use {Req, command}

  -- A run to the end of the queue is a run of the rpc.
  pub closed-StreamFn :
      (on_error : Exception → List Effect) (reqs : List Req) (s : State manager Out)
      → IsClean [] (map command reqs)
      → Run manager work trailer (start manager work trailer reqs) s
      → s.phase ≡ closed
      → StreamFn manager work trailer on_error reqs (consume on_error (untag s.queue))
  closed-StreamFn on_error reqs s clean run c = record {
    final = s;
    run = run;
    at_rest =
        closed-rests manager laws work trailer causal returns (map command reqs) s
          (Run-Inv manager laws work trailer causal returns (map command reqs) run
            (Inv-start manager laws work trailer causal returns reqs clean))
          c;
    consumed = refl;
  }

  -- What a schedule has begun, it can bring to its end.
  pub Run-completes :
      (on_error : Exception → List Effect) (reqs : List Req) (s : State manager Out)
      → IsClean [] (map command reqs)
      → Run manager work trailer (start manager work trailer reqs) s
      → (t : State manager Out) × Run manager work trailer s t
        × StreamFn manager work trailer on_error reqs (consume on_error (untag t.queue))
  Run-completes on_error reqs s clean run =
      let inv =
        Run-Inv manager laws work trailer causal returns (map command reqs) run
          (Inv-start manager laws work trailer causal returns reqs clean) in
      let (t, more, c) =
        Inv-CanClose manager laws work trailer causal returns (map command reqs) s inv in
      (t, more, closed-StreamFn on_error reqs t clean (follow manager work trailer run more) c)
