-- ===== src/Accumulator/Servicer/Errors.antt =====
-- `AccumulateFn` whatever the requests, with handlers that may raise.
use mathlib.Core.WellFounded.{Acc}
use numaflow_python.Base.{
  [], map, ◌≡◌, ◌≢◌, ◌⊎◌, inl, inr, true, List, Some, Some-weaken, Some-witness, ◌==◌, Bool-cases,
  Option-cases,
}
use numaflow_python.Base.Text.{Str}
use numaflow_python.Base.Dict
use numaflow_python.Shared.Queue.{Read}
use numaflow_python.Shared.Server.{Exception, Rpc, Outcome, returned, failed}
use numaflow_python.Shared.Proto.{Protobuf, DateTime}
use numaflow_python.Shared.Workers.{consume}
use numaflow_python.Shared.Streams.Finite.{Follows}
use numaflow_python.Shared.Streams.Rests.{Run-finishes}
use numaflow_python.Shared.Streams.{State, Run, start, untag, working, crashed, report, abort}
use numaflow_python.Shared.Streams.Causality.{IsCausal}
use numaflow_python.Shared.Streams.Reference.{IsClean}
use numaflow_python.Shared.Streams.Errors.Outcome.{StreamFn-Ended}
use numaflow_python.Shared.Streams.Errors.Returning.{StreamFn-IsClean}
use numaflow_python.Accumulator.TaskManager.{
  Datum, Request, TaskManager, open_operation, append_operation, close_operation, unified_key,
  task_not_found,
}
use numaflow_python.Accumulator.Watermarks.{Response}
use numaflow_python.Accumulator.Servicer.{
  AccumulatorRequest, datum_generator, Handler, new_instance, session_of, command, close_turn, turn,
  manager, IsValid, invoke_accumulator, no_trailer, on_error, AccumulateFn,
}
use numaflow_python.Accumulator.Servicer.Laws.{laws}
use numaflow_python.Accumulator.Servicer.Replies.{calls, work, work-IsCausal}

-- A request that asks to end a task.
abbrev pub Closes : Request → Type 0
Closes r = (r.operation == close_operation) ≡ true

close_turn-report :
    (tm : TaskManager) (r : Request) (e : Exception)
    → close_turn tm r ≡ report e
    → e ≡ task_not_found
unfolding close_turn
close_turn-report tm r e h = elim (Option-cases (session_of (Dict.get tm.tasks (unified_key r)))) [
  | inl q ↦ let h' = (rw (q, close_turn) at h) in cc
  | inr (s, q) ↦ let h' = (rw (q, close_turn) at h) in cc
]

close_turn-ne-abort : (tm : TaskManager) (r : Request) (e : Exception) → close_turn tm r ≢ abort e
unfolding close_turn
close_turn-ne-abort tm r e h =
    elim (Option-cases (session_of (Dict.get tm.tasks (unified_key r)))) [
      | inl q ↦ let h' = (rw (q, close_turn) at h) in cc
      | inr (s, q) ↦ let h' = (rw (q, close_turn) at h) in cc
    ]

-- The loop's only error is a CLOSE without a task.
turn-report :
    (tm : TaskManager) (r : Request) (e : Exception)
    → (turn tm r ≡ report e) ⊎ (turn tm r ≡ abort e)
    → (e ≡ task_not_found) × Closes r
unfolding turn
turn-report tm r e h = elim (Bool-cases (r.operation == open_operation)) [
  | inl a ↦ elim h [
    | inl p ↦ (let p' = (rw (a, turn) at p) in cc)
    | inr p ↦ (let p' = (rw (a, turn) at p) in cc)
  ]
  | inr a ↦ elim (Bool-cases (r.operation == append_operation)) [
    | inl b ↦ elim h [
      | inl p ↦ (let p' = (rw (a, b, turn) at p) in cc)
      | inr p ↦ (let p' = (rw (a, b, turn) at p) in cc)
    ]
    | inr b ↦ elim (Bool-cases (r.operation == close_operation)) [
      | inl c ↦ elim h [
        | inl p ↦ (close_turn-report tm r e (rw (a, b, c, turn) at p), c)
        | inr p ↦ absurd (close_turn-ne-abort tm r e (rw (a, b, c, turn) at p))
      ]
      | inr c ↦ elim h [
        | inl p ↦ (let p' = (rw (a, b, c, turn) at p) in cc)
        | inr p ↦ (let p' = (rw (a, b, c, turn) at p) in cc)
      ]
    ]
  ]
]

-- The task manager makes the error of the request.
abbrev Makes : Exception → Request → Type 0
Makes e r = (tm : TaskManager) × IsValid tm × ((turn tm r ≡ report e) ⊎ (turn tm r ≡ abort e))

met_by_request :
    (e : Exception) (requests : List Request)
    → Some (Makes e) requests
    → (e ≡ task_not_found) × Some Closes requests
met_by_request e requests s =
    let (r, (tm, v, h)) = Some-witness (Makes e) requests s in
    (
      (turn-report tm r e h).0,
      Some-weaken (Makes e) Closes (λ r m. (turn-report m.0 r e m.2).1) requests s,
    )

module _ (pb : Protobuf) (unset : pb.Timestamp) (epoch first : DateTime) (handler : Handler) where
  -- The error is one that the user's handler raises, or that of a CLOSE without a task.
  abbrev pub Met : List Request → Exception → Type 0
  Met requests e =
      ((r : Read Datum) × ((new_instance handler r).status ≡ crashed e))
      ⊎ ((e ≡ task_not_found) × Some Closes requests)

  -- The rpc has returned, and no CLOSE was without a task; or it has failed by an error that was met.
  abbrev pub Ended : Str → List (AccumulatorRequest pb) → Outcome → Type 0
  Ended container_type requests outcome =
      ((outcome ≡ returned) × IsClean [] (map command (datum_generator pb requests)))
      ⊎ ((e : Exception) × (outcome ≡ failed (on_error container_type e))
          × Met (datum_generator pb requests) e)

  -- Whatever the requests, for a handler that more input never makes take back a result or change its
  -- mind once it has returned or raised, and that returns or raises at the end of its input: in every
  -- schedule of the tasks that has run until nothing is left to do, the rpc does not wait for ever. It
  -- has returned, and then no CLOSE was without a task, or it has failed by an error that the handler
  -- raises on some input, or by the one for a CLOSE without a task, of which there is then one among the
  -- requests.
  pub AccumulateFn-ends :
      (container_type : Str) (requests : List (AccumulatorRequest pb)) (rpc : Rpc (Response pb))
      → IsCausal (calls handler)
      → ((ds : List Datum)
          → (new_instance handler (record { yielded = ds; ended = true })).status ≢ working)
      → AccumulateFn pb unset epoch first handler container_type requests rpc
      → ((rpc.outcome ≡ returned) × IsClean [] (map command (datum_generator pb requests)))
        ⊎ ((e : Exception) × (rpc.outcome ≡ failed (on_error container_type e))
            × Met (datum_generator pb requests) e)
  unfolding invoke_accumulator
  AccumulateFn-ends container_type requests rpc causal ends fn =
      elim (StreamFn-Ended manager laws (work pb unset epoch first handler) (no_trailer pb)
        (work-IsCausal pb unset epoch first handler causal) (datum_generator pb requests)
        (on_error container_type) rpc (λ keys ds. ends ds) fn) [
          | inl h ↦ inl (
            h,
            StreamFn-IsClean manager laws (work pb unset epoch first handler) (no_trailer pb)
                (datum_generator pb requests) (on_error container_type) rpc fn h,
          )
          | inr (e, h, inl (i, r, p)) ↦ inr (e, h, inl (r, p))
          | inr (e, h, inr s) ↦ inr (e, h, inr (met_by_request e (datum_generator pb requests) s))
        ]

  -- Whatever the requests, for a handler that more input never makes take back a result or change its
  -- mind once it has returned or raised, and that returns or raises at the end of its input: no schedule
  -- runs for ever, since from each state that one has reached the steps that follow are well-founded, and
  -- each can be brought to a state in which nothing is left to do; and then the rpc does not wait, but has
  -- returned, and no CLOSE was without a task, or has failed by an error of the handler or of a CLOSE
  -- without a task.
  pub AccumulateFn-finishes :
      (container_type : Str) (requests : List (AccumulatorRequest pb))
      (s : State manager (Response pb))
      → IsCausal (calls handler)
      → ((ds : List Datum)
          → (new_instance handler (record { yielded = ds; ended = true })).status ≢ working)
      → Run manager
          (work pb unset epoch first handler)
          (no_trailer pb)
          (start manager
            (work pb unset epoch first handler)
            (no_trailer pb)
            (datum_generator pb requests))
          s
      → Acc (Follows manager laws (work pb unset epoch first handler) (no_trailer pb)) s
        × (t : State manager (Response pb)) × Run manager
            (work pb unset epoch first handler)
            (no_trailer pb)
            s
            t
        × AccumulateFn pb unset epoch first handler container_type requests
            (consume (on_error container_type) (untag t.queue))
        × Ended container_type requests (consume (on_error container_type) (untag t.queue)).outcome
  unfolding invoke_accumulator
  AccumulateFn-finishes container_type requests s causal ends run =
      let (a, t, more, fn) =
        Run-finishes manager laws (work pb unset epoch first handler) (no_trailer pb)
          (work-IsCausal pb unset epoch first handler causal) (datum_generator pb requests)
          (on_error container_type) s run in
      (a, t, more, fn, AccumulateFn-ends container_type requests _ causal ends fn)
