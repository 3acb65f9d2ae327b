-- ===== src/Tests/ReduceStreamTests.antt =====
-- The reduce streamer, with a schedule of one request.
use mathlib.Core.List.{map-append}
use numaflow_python.Base.{
  ◌≡◌, refl, Bool, true, false, none, some, List, [], ◌∷◌, ◌++◌, map, flat_map, if◌then◌else◌,
}
use numaflow_python.Base.Text.{Str, str, str_eq, join, str_int, decimal}
use numaflow_python.Base.Dict.{get, put}
use numaflow_python.Shared.Queue.{read_iterator}
use numaflow_python.Shared.Queue
use numaflow_python.Shared.Server.{Rpc, returned}
use numaflow_python.Shared.Proto.{Datum, datum_of}
use numaflow_python.Shared.Workers.{consume}
use numaflow_python.Shared.Streams.{
  Command, working, finished, State, read, drain, emit, leave, close, stop, step, start,
}
use numaflow_python.Shared.Streams.Reference.{sessions}
use numaflow_python.Shared.Streams.Causality.{IsCausal, Returns}
use numaflow_python.Shared.Streams.Invariant.{from_task}
use numaflow_python.Shared.Streams.Serving.{untagged}
use numaflow_python.Shared.Streams.Completes.{closed-StreamFn}
use numaflow_python.Reduce.Keys.{Window, build_unique_key_name, build_window_hash}
use numaflow_python.Reduce.TaskManager.{Task, init, stream_send_eof, get_unique_windows}
use numaflow_python.Reduce.Servicer.{ReduceRequest, Response, result, eof, datum_generator}
use numaflow_python.ReduceStream.{
  put_item, create_in, on_request, create_task, process, write_all, write_to_global_queue,
  with_one_window,
}
use numaflow_python.ReduceStream.Servicer.{
  Info, Handler, function, new_instance, session_of, turn, command, manager, window_ends,
  invoke_reduce, on_error, ReduceFn,
}
use numaflow_python.ReduceStream.Servicer.Laws.{laws}
use numaflow_python.ReduceStream.Servicer.Replies.{
  calls, work, replies, work-IsCausal, ReduceFn-sends,
}
use numaflow_python.Tests.Fixtures.{pb, if_over, from_ms, payload, note}

-- A note for each datum.
abbrev pub echo : Handler
echo = function (λ keys md r. record {
  output = map (λ d. note) r.yielded;
  status = if r.ended then finished else working;
})

pub causal : IsCausal (calls echo)
unfolding new_instance
causal = record {
  keeps = λ i ds more e. (map (λ d. note) more, map-append (λ d. note) ds more);
  settles = λ i ds more e n. absurd (n refl);
}

returns : Returns (calls echo)
unfolding new_instance
returns i ds = refl

abbrev window : Window pb
window = record { start = 60000; end = 120000; slot = str "slot-0" }

abbrev requests : List (ReduceRequest pb)
requests = record { event = 0; windows = window ∷ []; payload = payload (str "a" ∷ []) } ∷ []

abbrev answered : Rpc (Response pb)
answered = record { sent = result note window ∷ eof window ∷ []; outcome = returned }

abbrev start_state : State (manager pb) (Response pb)
start_state = start (manager pb) (work from_ms echo) window_ends (datum_generator requests)

session_of-if :
    (b : Bool) (t : Task pb) (x : _) → session_of (if b then some t else none) ≡ some x → b ≡ true
session_of-if true t x e = refl
session_of-if false t x e = cc

served : ReduceFn from_ms echo (str "udf") requests answered
unfolding datum_generator datum_of turn on_request create_task with_one_window create_in put_item
    invoke_reduce new_instance write_to_global_queue write_all read_iterator Queue.put get put
    consume build_unique_key_name str_int decimal join str_eq window_ends get_unique_windows
    stream_send_eof build_window_hash
served =
    closed-StreamFn (manager pb) laws (work from_ms echo) window_ends
      (work-IsCausal from_ms echo causal) (λ i ds. refl) (on_error (str "udf"))
      (datum_generator requests) _ (tt, tt)
      (step (read _ [] _ refl refl refl refl refl) (
        step (drain refl refl refl refl) (
          step (emit (str "60000:120000:a") _ _ _ _ refl refl refl refl) (
            step (leave (str "60000:120000:a") _ _ refl refl refl refl refl) (
              step (close refl (λ k x e. if_over _ _ _ (session_of-if _ _ x e) refl) refl) stop)))))
      refl

abbrev commands : List (Command (Info pb) Datum)
commands = map command (datum_generator requests)

ReduceFn-sends_example :
    (entries : List (Str × Response pb)) × (answered ≡ record {
      sent = untagged entries ++ window_ends (process init (datum_generator requests)).0;
      outcome = returned;
    })
    × ((k : Str) → from_task k entries ≡ flat_map (replies from_ms echo) (sessions k commands))
unfolding datum_generator
ReduceFn-sends_example =
    ReduceFn-sends from_ms echo (str "udf") requests answered causal returns refl served
