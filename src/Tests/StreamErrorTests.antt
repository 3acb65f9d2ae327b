-- ===== src/Tests/StreamErrorTests.antt =====
-- The accumulator and the reduce streamer, with one request that is an error.
use mathlib.Core.WellFounded.{Acc}
use numaflow_python.Base.{◌≡◌, ◌⊎◌, refl, none, List, [], ◌∷◌, map}
use numaflow_python.Base.Text.{str}
use numaflow_python.Base.Dict.{get}
use numaflow_python.Shared.Queue.{item, stream_eof, read_iterator}
use numaflow_python.Shared.Queue
use numaflow_python.Shared.Server.{Exception, raised, Rpc, returned, failed}
use numaflow_python.Shared.Proto.{datum_of}
use numaflow_python.Shared.Workers.{consume}
use numaflow_python.Shared.Streams.{
  fresh, closed, aborted, State, Step, read, wait, resume, complain, give_up, drain, emit, leave,
  break, close, Run, stop, step, start, untag,
}
use numaflow_python.Shared.Streams.Reference.{IsClean}
use numaflow_python.Shared.Streams.Finite.{Follows}
use numaflow_python.Accumulator
use numaflow_python.Accumulator.TaskManager.{task_not_found, build_unique_key_name}
use numaflow_python.Accumulator.Servicer.Errors.{AccumulateFn-ends, AccumulateFn-finishes}
use numaflow_python.Reduce
use numaflow_python.Reduce.TaskManager.{invalid_windows}
use numaflow_python.Reduce.Servicer.{ReduceRequest, datum_generator}
use numaflow_python.ReduceStream
use numaflow_python.ReduceStream.{on_request, create_task, with_one_window}
use numaflow_python.ReduceStream.Servicer.Errors.{Met, ReduceFn-ends, ReduceFn-finishes}
use numaflow_python.Tests.Fixtures.{pb, from_ms, payload}
use numaflow_python.Tests.StreamTests
use numaflow_python.Tests.ReduceStreamTests

abbrev close_request : Accumulator.Servicer.AccumulatorRequest pb
close_request = record StreamTests.request { event = 1 }

abbrev refused : Rpc (Accumulator.Watermarks.Response pb)
refused = record {
  sent = [];
  outcome = failed (Accumulator.Servicer.on_error (str "udf") task_not_found);
}

abbrev close_final : State Accumulator.Servicer.manager (Accumulator.Watermarks.Response pb)
close_final = record {
  requests = [];
  tm = Accumulator.TaskManager.init;
  waiting = none;
  lanes = λ _. fresh;
  queue = item (raised task_not_found) ∷ stream_eof ∷ [];
  phase = closed;
}

close_final_rests : ¬ (
    (t : State Accumulator.Servicer.manager (Accumulator.Watermarks.Response pb)) × Step
      Accumulator.Servicer.manager
      (Accumulator.Servicer.Replies.work pb 0 0 1 StreamTests.echo)
      (Accumulator.Servicer.no_trailer pb)
      close_final
      t)
unfolding get
close_final_rests (t, read r rs tm p w e g q) = cc
close_final_rests (t, wait r rs k x tm p w e g q) = cc
close_final_rests (t, resume k x w o q) = cc
close_final_rests (t, complain r rs x p w e g q) = cc
close_final_rests (t, give_up r rs x p w e g q) = cc
close_final_rests (t, drain p w e q) = cc
close_final_rests (t, emit k i r x rest h p e q) = cc
close_final_rests (t, leave k i r h p e f q) = cc
close_final_rests (t, break k i r x h p f q) = cc
close_final_rests (t, close p o q) = cc

close_served :
    Accumulator.Servicer.AccumulateFn pb 0 0 1 StreamTests.echo
      (str "udf")
      (close_request ∷ [])
      refused
unfolding Accumulator.Servicer.datum_generator Accumulator.Servicer.turn
    Accumulator.Servicer.close_turn Accumulator.Servicer.invoke_accumulator Queue.put get consume
    read_iterator
close_served = record {
  final = close_final;
  run =
      step (complain _ [] task_not_found refl refl refl refl refl)
        (step (drain refl refl refl refl) (step (close refl (λ k x e. cc) refl) stop));
  at_rest = close_final_rests;
  consumed = refl;
}

AccumulateFn-ends_example :
    ((refused.outcome ≡ returned)
      × IsClean [] (
          map Accumulator.Servicer.command
            (Accumulator.Servicer.datum_generator pb (close_request ∷ []))))
    ⊎ ((e : Exception) × (refused.outcome ≡ failed (Accumulator.Servicer.on_error (str "udf") e))
        × Accumulator.Servicer.Errors.Met pb 0 0 1 StreamTests.echo
            (Accumulator.Servicer.datum_generator pb (close_request ∷ []))
            e)
unfolding Accumulator.Servicer.new_instance
AccumulateFn-ends_example =
    AccumulateFn-ends pb 0 0 1 StreamTests.echo (str "udf") (close_request ∷ []) refused
      StreamTests.causal (λ ds. λ q. cc) close_served

abbrev close_start : State Accumulator.Servicer.manager (Accumulator.Watermarks.Response pb)
close_start =
    start Accumulator.Servicer.manager (Accumulator.Servicer.Replies.work pb 0 0 1 StreamTests.echo)
      (Accumulator.Servicer.no_trailer pb)
      (Accumulator.Servicer.datum_generator pb (close_request ∷ []))

AccumulateFn-finishes_example :
    Acc
      (Follows Accumulator.Servicer.manager Accumulator.Servicer.Laws.laws
        (Accumulator.Servicer.Replies.work pb 0 0 1 StreamTests.echo)
        (Accumulator.Servicer.no_trailer pb))
      close_start
    × (t : State Accumulator.Servicer.manager (Accumulator.Watermarks.Response pb)) × Run
        Accumulator.Servicer.manager
        (Accumulator.Servicer.Replies.work pb 0 0 1 StreamTests.echo)
        (Accumulator.Servicer.no_trailer pb)
        close_start
        t
    × Accumulator.Servicer.AccumulateFn pb 0 0 1 StreamTests.echo
        (str "udf")
        (close_request ∷ [])
        (consume (Accumulator.Servicer.on_error (str "udf")) (untag t.queue))
    × Accumulator.Servicer.Errors.Ended pb 0 0 1 StreamTests.echo
        (str "udf")
        (close_request ∷ [])
        (consume (Accumulator.Servicer.on_error (str "udf")) (untag t.queue)).outcome
unfolding Accumulator.Servicer.invoke_accumulator Accumulator.Servicer.new_instance
AccumulateFn-finishes_example =
    AccumulateFn-finishes pb 0 0 1 StreamTests.echo (str "udf") (close_request ∷ []) close_start
      StreamTests.causal (λ ds. λ q. cc) stop

abbrev bad_requests : List (ReduceRequest pb)
bad_requests = record { event = 0; windows = []; payload = payload [] } ∷ []

abbrev bad_final : State (ReduceStream.Servicer.manager pb) (Reduce.Servicer.Response pb)
bad_final = record {
  requests = [];
  tm = Reduce.TaskManager.init;
  waiting = none;
  lanes = λ _. fresh;
  queue = item (raised invalid_windows) ∷ [];
  phase = aborted;
}

bad_final_rests : ¬ (
    (t : State (ReduceStream.Servicer.manager pb) (Reduce.Servicer.Response pb)) × Step
      (ReduceStream.Servicer.manager pb)
      (ReduceStream.Servicer.Replies.work from_ms ReduceStreamTests.echo)
      ReduceStream.Servicer.window_ends
      bad_final
      t)
unfolding get
bad_final_rests (t, read r rs tm p w e g q) = cc
bad_final_rests (t, wait r rs k x tm p w e g q) = cc
bad_final_rests (t, resume k x w o q) = cc
bad_final_rests (t, complain r rs x p w e g q) = cc
bad_final_rests (t, give_up r rs x p w e g q) = cc
bad_final_rests (t, drain p w e q) = cc
bad_final_rests (t, emit k i r x rest h p e q) = cc
bad_final_rests (t, leave k i r h p e f q) = cc
bad_final_rests (t, break k i r x h p f q) = cc
bad_final_rests (t, close p o q) = cc

abbrev bad_rpc : Rpc (Reduce.Servicer.Response pb)
bad_rpc = record {
  sent = [];
  outcome = failed (ReduceStream.Servicer.on_error (str "udf") invalid_windows);
}

bad_served :
    ReduceStream.Servicer.ReduceFn from_ms ReduceStreamTests.echo (str "udf") bad_requests bad_rpc
unfolding datum_generator datum_of ReduceStream.Servicer.turn on_request create_task with_one_window
    ReduceStream.Servicer.invoke_reduce Queue.put get consume read_iterator
bad_served = record {
  final = bad_final;
  run = step (give_up _ [] invalid_windows refl refl refl refl refl) stop;
  at_rest = bad_final_rests;
  consumed = refl;
}

ReduceFn-ends_example :
    ((bad_rpc.outcome ≡ returned)
      × IsClean [] (map ReduceStream.Servicer.command (datum_generator bad_requests)))
    ⊎ ((e : Exception) × (bad_rpc.outcome ≡ failed (ReduceStream.Servicer.on_error (str "udf") e))
        × Met from_ms ReduceStreamTests.echo (datum_generator bad_requests) e)
unfolding ReduceStream.Servicer.new_instance
ReduceFn-ends_example =
    ReduceFn-ends from_ms ReduceStreamTests.echo (str "udf") bad_requests bad_rpc
      ReduceStreamTests.causal (λ keys m ds. λ q. cc) bad_served

abbrev bad_start : State (ReduceStream.Servicer.manager pb) (Reduce.Servicer.Response pb)
bad_start =
    start (ReduceStream.Servicer.manager pb)
      (ReduceStream.Servicer.Replies.work from_ms ReduceStreamTests.echo)
      ReduceStream.Servicer.window_ends (datum_generator bad_requests)

ReduceFn-finishes_example :
    Acc
      (Follows
        (ReduceStream.Servicer.manager pb)
        ReduceStream.Servicer.Laws.laws
        (ReduceStream.Servicer.Replies.work from_ms ReduceStreamTests.echo)
        ReduceStream.Servicer.window_ends)
      bad_start
    × (t : State (ReduceStream.Servicer.manager pb) (Reduce.Servicer.Response pb)) × Run
        (ReduceStream.Servicer.manager pb)
        (ReduceStream.Servicer.Replies.work from_ms ReduceStreamTests.echo)
        ReduceStream.Servicer.window_ends
        bad_start
        t
    × ReduceStream.Servicer.ReduceFn from_ms ReduceStreamTests.echo
        (str "udf")
        bad_requests
        (consume (ReduceStream.Servicer.on_error (str "udf")) (untag t.queue))
    × ReduceStream.Servicer.Errors.Ended from_ms ReduceStreamTests.echo
        (str "udf")
        bad_requests
        (consume (ReduceStream.Servicer.on_error (str "udf")) (untag t.queue)).outcome
unfolding ReduceStream.Servicer.invoke_reduce ReduceStream.Servicer.new_instance
ReduceFn-finishes_example =
    ReduceFn-finishes from_ms ReduceStreamTests.echo (str "udf") bad_requests bad_start
      ReduceStreamTests.causal (λ keys m ds. λ q. cc) stop
