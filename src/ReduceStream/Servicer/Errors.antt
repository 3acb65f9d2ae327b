-- ===== src/ReduceStream/Servicer/Errors.antt =====
-- `ReduceFn` of the reduce streamer whatever the requests, with handlers that may raise.
use mathlib.Core.WellFounded.{Acc}
use numaflow_python.Base.{
  ◌≡◌, ◌≢◌, ◌⊎◌, inl, inr, refl, sym, ap, subst, true, List, [], map, Some, Some-weaken,
}
use numaflow_python.Base.Text.{Str, ℤ}
use numaflow_python.Shared.Queue.{Read}
use numaflow_python.Shared.Server.{Exception, Result, ok, raised, Rpc, Outcome, returned, failed}
use numaflow_python.Shared.Proto.{Protobuf, Datum, DateTime}
use numaflow_python.Shared.Workers.{consume}
use numaflow_python.Shared.Streams.Finite.{Follows}
use numaflow_python.Shared.Streams.Rests.{Run-finishes}
use numaflow_python.Shared.Streams.{
  State, Run, start, untag, Command, feed, finish, skip, reject, working, crashed, report, abort,
  Reacts,
}
use numaflow_python.Shared.Streams.Causality.{IsCausal}
use numaflow_python.Shared.Streams.Reference.{IsClean}
use numaflow_python.Shared.Streams.Errors.Outcome.{StreamFn-Ended}
use numaflow_python.Shared.Streams.Errors.Returning.{StreamFn-IsClean}
use numaflow_python.Reduce.TaskManager.{Request, TaskManager}
use numaflow_python.Reduce.Servicer.{Metadata, ReduceRequest, Response, datum_generator}
use numaflow_python.ReduceStream.{on_request}
use numaflow_python.ReduceStream.Servicer.{
  Handler, new_instance, turn, command, manager, IsValid, Info, invoke_reduce, window_ends,
  on_error, metadata, ReduceFn,
}
use numaflow_python.ReduceStream.Servicer.Laws.{laws}
use numaflow_python.ReduceStream.Servicer.Replies.{calls, work, work-IsCausal}

module _ {pb : Protobuf} where
  -- The task manager makes the error of the request.
  abbrev Makes : Exception → Request pb → Type 0
  Makes e r = (tm : TaskManager pb) × IsValid tm × ((turn tm r ≡ report e) ⊎ (turn tm r ≡ abort e))

  -- The request is refused with this error.
  abbrev pub Refused : Exception → Request pb → Type 0
  Refused e r = command r ≡ reject e

  turn-ne-report : (tm : TaskManager pb) (r : Request pb) (e : Exception) → turn tm r ≢ report e
  unfolding turn
  turn-ne-report tm r e h = by_result (on_request tm r) refl
    where
      by_result : (x : Result (TaskManager pb)) → on_request tm r ≡ x → ⊥
      by_result (ok tm') q = let h' = (rw (q, turn) at h) in cc
      by_result (raised x) q = let h' = (rw (q, turn) at h) in cc

  aborts-Refused :
      (tm : TaskManager pb) (e : Exception) (c : Command (Info pb) Datum)
      → Reacts (manager pb) tm c (abort e)
      → c ≡ reject e
  aborts-Refused tm e (feed j i d) h = absurd h
  aborts-Refused tm e (finish j) h = absurd h
  aborts-Refused tm e skip h = absurd h
  aborts-Refused tm e (reject x) h = ap reject (sym h)

  Makes-Refused : (e : Exception) (r : Request pb) → Makes e r → Refused e r
  Makes-Refused e r (tm, v, inl h) = absurd (turn-ne-report tm r e h)
  Makes-Refused e r (tm, v, inr h) =
      aborts-Refused tm e (command r)
        (subst (Reacts (manager pb) tm (command r)) h (laws.reacts tm r v))

  module _ (from_ms : ℤ → DateTime) (handler : Handler) where
    -- The error is one that the user's handler raises, or that of a request that is refused.
    abbrev pub Met : List (Request pb) → Exception → Type 0
    Met requests e =
        ((keys : List Str) × (m : Metadata) × (r : Read Datum) × ((new_instance handler keys m
              r).status
            ≡ crashed e))
        ⊎ Some (Refused e) requests

    -- The rpc has returned, and no request was refused; or it has failed by an error that was met.
    abbrev pub Ended : Str → List (ReduceRequest pb) → Outcome → Type 0
    Ended container_type requests outcome =
        ((outcome ≡ returned) × IsClean [] (map command (datum_generator requests)))
        ⊎ ((e : Exception) × (outcome ≡ failed (on_error container_type e))
            × Met (datum_generator requests) e)

    -- Whatever the requests, for a handler that more input never makes take back a result or change its
    -- mind once it has returned or raised, and that returns or raises at the end of its input: in
    -- every schedule of the tasks that has run until nothing is left to do, the rpc does not wait for
    -- ever. It has returned, and then each request was one that is not refused, or it has failed by an
    -- error that the handler raises on some input, or by the one of a request that has not exactly one
    -- window.
    pub ReduceFn-ends :
        (container_type : Str) (requests : List (ReduceRequest pb)) (rpc : Rpc (Response pb))
        → IsCausal (calls handler)
        → ((keys : List Str) (m : Metadata) (ds : List Datum)
            → (new_instance handler keys m (record { yielded = ds; ended = true })).status
              ≢ working)
        → ReduceFn from_ms handler container_type requests rpc
        → ((rpc.outcome ≡ returned) × IsClean [] (map command (datum_generator requests)))
          ⊎ ((e : Exception) × (rpc.outcome ≡ failed (on_error container_type e))
              × Met (datum_generator requests) e)
    unfolding invoke_reduce
    ReduceFn-ends container_type requests rpc causal ends fn =
        elim (StreamFn-Ended (manager pb) laws (work from_ms handler) window_ends
          (work-IsCausal from_ms handler causal) (datum_generator requests)
          (on_error container_type) rpc (λ i ds. ends i.0 (metadata from_ms i.1) ds) fn) [
            | inl h ↦ inl (
              h,
              StreamFn-IsClean (manager pb) laws (work from_ms handler) window_ends
                  (datum_generator requests) (on_error container_type) rpc fn h,
            )
            | inr (e, h, inl (i, r, p)) ↦ inr (e, h, inl (i.0, metadata from_ms i.1, r, p))
            | inr (e, h, inr s) ↦ inr (
              e,
              h,
              inr (
                  Some-weaken (Makes e) (Refused e) (Makes-Refused e) (datum_generator requests) s),
            )
          ]

    -- Whatever the requests, for a handler that more input never makes take back a result or change its
    -- mind once it has returned or raised, and that returns or raises at the end of its input: no schedule
    -- runs for ever, since from each state that one has reached the steps that follow are well-founded,
    -- and each can be brought to a state in which nothing is left to do; and then the rpc does not wait,
    -- but has returned, and no request was refused, or has failed by an error of the handler or of a
    -- request that has not exactly one window.
    pub ReduceFn-finishes :
        (container_type : Str) (requests : List (ReduceRequest pb))
        (s : State (manager pb) (Response pb))
        → IsCausal (calls handler)
        → ((keys : List Str) (m : Metadata) (ds : List Datum)
            → (new_instance handler keys m (record { yielded = ds; ended = true })).status
              ≢ working)
        → Run
            (manager pb)
            (work from_ms handler)
            window_ends
            (start (manager pb) (work from_ms handler) window_ends (datum_generator requests))
            s
        → Acc (Follows (manager pb) laws (work from_ms handler) window_ends) s
          × (t : State (manager pb) (Response pb)) × Run
              (manager pb)
              (work from_ms handler)
              window_ends
              s
              t
          × ReduceFn from_ms handler container_type requests
              (consume (on_error container_type) (untag t.queue))
          × Ended container_type requests
              (consume (on_error container_type) (untag t.queue)).outcome
    unfolding invoke_reduce
    ReduceFn-finishes container_type requests s causal ends run =
        let (a, t, more, fn) =
          Run-finishes (manager pb) laws (work from_ms handler) window_ends
            (work-IsCausal from_ms handler causal) (datum_generator requests)
            (on_error container_type) s run in
        (a, t, more, fn, ReduceFn-ends container_type requests _ causal ends fn)
