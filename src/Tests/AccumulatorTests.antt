-- ===== src/Tests/AccumulatorTests.antt =====
-- The accumulator.
use numaflow_python.Base.{ℕ, ◌≡◌, refl, true, none, some, List, [], ◌∷◌, ◌++◌, map, length}
use numaflow_python.Base.Text.{str, str_eq, join}
use numaflow_python.Shared.Queue.{item, stream_eof, read_iterator}
use numaflow_python.Accumulator.TaskManager.{
  Datum, Request, build_unique_key_name, process_input_stream,
}
use numaflow_python.Accumulator.TaskManager.Sessions.{sessions, queues_for}
use numaflow_python.Accumulator.TaskManager.Ended.{tasks_read_their_sessions}
use numaflow_python.Accumulator.TaskManager.Errors.{unmatched, process_input_stream-errors}
use numaflow_python.Accumulator.Watermarks.{Message, write_to_global_queue}
use numaflow_python.Accumulator.Watermarks.Latest.{
  IsLatest, result_of, eof_at, write_to_global_queue-IsLatest,
}
use numaflow_python.Tests.Fixtures.{pb}

abbrev datum : ℕ → Datum
datum n = record {
  keys = str "a" ∷ [];
  value = str "v";
  event_time = n;
  watermark = n;
  headers = [];
  id = str "i";
}

abbrev request : ℕ → ℕ → Request
request operation n = record { operation = operation; payload = datum n }

-- Two datums, the end of the task, and one more datum, which starts another task.
abbrev requests : List Request
requests = request 0 1 ∷ request 2 2 ∷ request 1 3 ∷ request 2 4 ∷ []

sessions_are : sessions (str "a") requests ≡ (datum 1 ∷ datum 2 ∷ []) ∷ (datum 4 ∷ []) ∷ []
unfolding build_unique_key_name str_eq join
sessions_are = refl

tasks_read_their_sessions_example :
    map read_iterator (queues_for (str "a") (process_input_stream requests).finished)
    ≡ map (λ ds. record { yielded = ds; ended = true }) (sessions (str "a") requests)
tasks_read_their_sessions_example = tasks_read_their_sessions (str "a") requests

-- A task is closed twice.
abbrev closed_twice : List Request
closed_twice = request 0 1 ∷ request 1 2 ∷ request 1 3 ∷ []

process_input_stream-errors_example :
    (process_input_stream closed_twice).errors ≡ unmatched [] closed_twice
process_input_stream-errors_example = process_input_stream-errors closed_twice

abbrev message_at : ℕ → Message
message_at w = record {
  value = [];
  keys = [];
  tags = [];
  watermark = some w;
  event_time = none;
  headers = [];
  id = [];
}

write_to_global_queue-IsLatest_example :
    (x y : ℕ) × (rest : List _) × IsLatest 1 (message_at 9 ∷ message_at 5 ∷ []) x
    × IsLatest 1 (message_at 9 ∷ message_at 5 ∷ message_at 12 ∷ []) y
    × (length rest ≡ 1)
    × (write_to_global_queue pb 0 0
          (str "a" ∷ [])
          1
          (map item (message_at 9 ∷ message_at 5 ∷ message_at 12 ∷ []) ++ stream_eof ∷ [])
        ≡ (
          (write_to_global_queue pb 0 0 (str "a" ∷ []) 1 (map item (message_at 9 ∷ []))).0
              ++ result_of pb 0 0 (str "a" ∷ []) (message_at 5) x
                ∷ (rest ++ eof_at pb 0 0 (str "a" ∷ []) y ∷ []),
          y,
        ))
write_to_global_queue-IsLatest_example =
    write_to_global_queue-IsLatest pb 0 0 (str "a" ∷ []) 1 (message_at 9 ∷ []) (message_at 5)
      (message_at 12 ∷ [])
