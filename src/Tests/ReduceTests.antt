-- ===== src/Tests/ReduceTests.antt =====
-- The reducer.
use numaflow_python.Base.{◌≡◌, refl, true, List, [], ◌∷◌, ◌++◌, map, flat_map, arith, if◌then◌else◌}
use numaflow_python.Base.Text.{Str, str, str_eq, str_int, decimal, join}
use numaflow_python.Base.Dict
use numaflow_python.Base.Dict.Keys.{Distinct}
use numaflow_python.Shared.Queue.{item, stream_eof, put, read_iterator}
use numaflow_python.Shared.Server.{ok, raised, returned}
use numaflow_python.Shared.Proto.{Datum, datum_of}
use numaflow_python.Reduce.Keys.{
  Window, SameInterval, build_unique_key_name, build_unique_key_name-injective,
}
use numaflow_python.Reduce.TaskManager.{
  Request, Task, get_tasks, get_unique_windows, create_task, append_task, stream_send_eof,
}
use numaflow_python.Reduce.TaskManager.Windows.{first_window, get_unique_windows_exact}
use numaflow_python.Reduce.Servicer.{
  Handler, function, ReduceRequest, eof, datum_generator, process, on_request, invoke_reduce,
  reduce_fn,
}
use numaflow_python.Reduce.Servicer.Routing.{datums_for}
use numaflow_python.Reduce.Servicer.Replies.{
  final, replies, reduce_fn_success, tasks_read_their_datums,
}
use numaflow_python.Tests.Fixtures.{pb, from_ms, payload, note}

abbrev window : Window pb
window = record { start = 60; end = 120; slot = str "slot-0" }

abbrev request : List Str → ReduceRequest pb
request keys = record { event = 0; windows = window ∷ []; payload = payload keys }

abbrev append_request : List Str → ReduceRequest pb
append_request keys = record { event = 4; windows = window ∷ []; payload = payload keys }

abbrev requests : List (ReduceRequest pb)
requests =
    request (str "a" ∷ []) ∷ append_request (str "b" ∷ []) ∷ append_request (str "a" ∷ []) ∷ []

abbrev counter : Handler
counter = function (λ keys datums md. ok (note ∷ []))

abbrev name_a : Str
name_a = build_unique_key_name pb (str "a" ∷ []) window

-- The name of a task, as the code prints it.
name_a_is : name_a ≡ str "60:120:a"
unfolding build_unique_key_name str_int decimal join
name_a_is = refl

build_unique_key_name-injective_example :
    SameInterval pb window window × (str "a" ∷ str "b" ∷ [] ≡ str "a" ∷ str "b" ∷ [])
build_unique_key_name-injective_example =
    build_unique_key_name-injective pb (str "a") (str "a") (str "b" ∷ []) (str "b" ∷ []) window
      window (omega arith) (omega arith) refl

abbrev first : Request pb
first = record {
  operation = 0;
  windows = window ∷ [];
  payload = datum_of pb (payload (str "a" ∷ []));
}

get_unique_windows_exact_example :
    Distinct (Dict.keys (get_unique_windows (final requests)))
    × ((h : Str)
        → Dict.get (get_unique_windows (final requests)) h
          ≡ first_window h (Dict.values (final requests).tasks))
get_unique_windows_exact_example = get_unique_windows_exact (final requests)

abbrev datum_a : Datum
unfolding datum_of
datum_a = datum_of pb (payload (str "a" ∷ []))

abbrev task_a : Task pb
task_a = record {
  keys = str "a" ∷ [];
  window = window;
  iterator = item datum_a ∷ item datum_a ∷ stream_eof ∷ [];
}

tasks_read_their_datums_example :
    read_iterator task_a.iterator
    ≡ record { yielded = datums_for name_a (datum_generator requests); ended = true }
unfolding get_tasks stream_send_eof process on_request create_task append_task datum_generator
    Dict.put Dict.get put str_eq build_unique_key_name str_int decimal join invoke_reduce datum_of
tasks_read_their_datums_example = tasks_read_their_datums requests name_a task_a refl refl

reduce_fn_success_example : reduce_fn from_ms counter (str "udf") requests ≡ record {
  sent =
      flat_map (replies from_ms counter) (get_tasks (final requests))
      ++ map eof (Dict.values (get_unique_windows (final requests)));
  outcome = returned;
}
unfolding get_tasks stream_send_eof process on_request create_task append_task datum_generator
    Dict.put Dict.get put str_eq build_unique_key_name str_int decimal join invoke_reduce datum_of
reduce_fn_success_example = reduce_fn_success from_ms counter (str "udf") requests refl (
  record { messages = note ∷ []; is_done = refl },
  (record { messages = note ∷ []; is_done = refl }, tt),
)

-- A handler that raises for the key `b`.
abbrev faulty : Handler
faulty = function (λ keys datums md. elim keys [
  | [] ↦ ok []
  | k ∷ ks ↦ if str_eq k (str "b") then raised (record { repr = str "E()" }) else ok (note ∷ [])
])
