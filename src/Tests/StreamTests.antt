-- ===== src/Tests/StreamTests.antt =====
-- The accumulator and the reduce streamer, with a schedule of one request.
use mathlib.Core.List.{map-append}
use numaflow_python.Base.{
  ◌≡◌, refl, Bool, true, false, none, some, List, [], ◌∷◌, map, flat_map, if◌then◌else◌,
}
use numaflow_python.Base.Text.{Str, str, str_eq, join}
use numaflow_python.Base.Dict.{get, put}
use numaflow_python.Shared.Queue.{Read, Item, item, stream_eof, read_iterator}
use numaflow_python.Shared.Queue
use numaflow_python.Shared.Server.{Rpc, returned}
use numaflow_python.Shared.Workers.{consume}
use numaflow_python.Shared.Streams.{
  Command, working, finished, State, read, drain, emit, leave, close, stop, step, start,
}
use numaflow_python.Shared.Streams.Reference.{sessions}
use numaflow_python.Shared.Streams.Causality.{IsCausal, Returns}
use numaflow_python.Shared.Streams.Invariant.{from_task}
use numaflow_python.Shared.Streams.Serving.{untagged}
use numaflow_python.Shared.Streams.Completes.{closed-StreamFn}
use numaflow_python.Accumulator
use numaflow_python.Accumulator.TaskManager.{Datum, Task, build_unique_key_name}
use numaflow_python.Accumulator.Watermarks.{Message, Response, write_to_global_queue}
use numaflow_python.Accumulator.Servicer.{
  AccumulatorRequest, session_of, datum_generator, Handler, function, new_instance, command, turn,
  manager, result_queue, invoke_accumulator, no_trailer, on_error, AccumulateFn,
}
use numaflow_python.Accumulator.Servicer.Replies.{
  calls, work, replies, work-IsCausal, AccumulateFn-sends,
}
use numaflow_python.Accumulator.Servicer.Laws.{laws}
use numaflow_python.Tests.Fixtures.{pb, if_over}

abbrev note : Message
note = record {
  value = str "n";
  keys = [];
  tags = [];
  watermark = some 9;
  event_time = none;
  headers = [];
  id = [];
}

-- A note for each datum.
abbrev pub echo : Handler
echo = function (λ r. record {
  output = map (λ d. note) r.yielded;
  status = if r.ended then finished else working;
})

pub causal : IsCausal (calls echo)
unfolding new_instance
causal = record {
  keeps = λ i ds more e. (map (λ d. note) more, map-append (λ d. note) ds more);
  settles = λ i ds more e n. absurd (n refl);
}

returns : Returns (calls echo)
unfolding new_instance
returns i ds = refl

abbrev pub request : AccumulatorRequest pb
request = record {
  event = 0;
  payload = record {
    keys = str "a" ∷ [];
    value = str "v";
    event_time = 7;
    watermark = 5;
    headers = [];
    id = str "i";
  };
}

abbrev answers : List (Response pb)
answers = (write_to_global_queue pb 0 0 (str "a" ∷ []) 1 (item note ∷ stream_eof ∷ [])).0

abbrev answered : Rpc (Response pb)
answered = record { sent = answers; outcome = returned }

abbrev start_state : State manager (Response pb)
start_state = start manager (work pb 0 0 1 echo) (no_trailer pb) (datum_generator pb (request ∷ []))

session_of-if :
    (b : Bool) (t : Task) (x : _) → session_of (if b then some t else none) ≡ some x → b ≡ true
session_of-if true t x e = refl
session_of-if false t x e = cc

served : AccumulateFn pb 0 0 1 echo (str "udf") (request ∷ []) answered
unfolding datum_generator turn invoke_accumulator new_instance result_queue write_to_global_queue
    read_iterator Queue.put get put consume build_unique_key_name join str_eq
    Accumulator.TaskManager.create_task
served =
    closed-StreamFn manager laws (work pb 0 0 1 echo) (no_trailer pb)
      (work-IsCausal pb 0 0 1 echo causal) (λ keys ds. refl) (on_error (str "udf"))
      (datum_generator pb (request ∷ [])) _ (tt, tt)
      (step (read _ [] _ refl refl refl refl refl) (
        step (drain refl refl refl refl) (
          step (emit (str "a") _ _ _ _ refl refl refl refl) (
            step (emit (str "a") _ _ _ _ refl refl refl refl) (
              step (leave (str "a") _ _ refl refl refl refl refl) (
                step (close refl (λ k x e. if_over _ _ _ (session_of-if _ _ x e) refl) refl)
                  stop))))))
      refl

abbrev requests : List (AccumulatorRequest pb)
requests = request ∷ []

abbrev commands : List (Command (List Str) Datum)
commands = map command (datum_generator pb requests)

AccumulateFn-sends_example :
    (entries : List (Str × Response pb)) × (answered
      ≡ record { sent = untagged entries; outcome = returned })
    × ((k : Str) → from_task k entries ≡ flat_map (replies pb 0 0 1 echo) (sessions k commands))
unfolding datum_generator
AccumulateFn-sends_example =
    AccumulateFn-sends pb 0 0 1 echo (str "udf") requests answered causal returns (tt, tt) served
