-- ===== src/Tests/StartTests.antt =====
-- The servers of all classes, with calls that return, and with one that raises.
use numaflow_python.Base.{◌≡◌, ◌↔◌, inl, inr, refl, true, none, some, List, [], ◌∷◌, All, Some}
use numaflow_python.Base.Text.{Str, str, str_eq, pos}
use numaflow_python.Shared.Server.{ok}
use numaflow_python.Servers.Starting
use numaflow_python.Servers.Starting.{Call, create_server, System}
use numaflow_python.Servers.Starting.Sequence.{Returns}
use numaflow_python.Servers.Given.{function, class_object, function_handler, builder}
use numaflow_python.Servers.Classes.{accumulator_async, sink_async, User, info_file, serve}
use numaflow_python.Servers.Listening.{options}
use numaflow_python.Servers.Order.{Listens, serve_announces}
use numaflow_python.Servers.Contents.{Ends, Tells, serve-Tells}
use numaflow_python.Servers.Accepting.{Accepts, get_handler-Accepts}
use numaflow_python.Accumulator
use numaflow_python.Reduce
use numaflow_python.ReduceStream
use numaflow_python.Sink

abbrev sys : System
sys = record {
  perform = λ c. ok tt;
  getenv = λ name. some (str "fb-udsink");
  version = str "0.11";
  dumps = λ info. info.version;
}

abbrev user : User Str
user = record { given = class_object true (str "Sum"); init_args = []; init_kwargs = none }

abbrev before : List Call
before =
    create_server none (options (Sink.AsyncServer.default_arguments (pos 4)))
    ∷ Call.add_insecure_port (str "unix:///var/run/numaflow/fb-sink.sock")
    ∷ Call.add_servicer Starting.sink_service
    ∷ Call.start_server
    ∷ []

abbrev remaining : List Call
remaining =
    Call.write_text (str "/var/run/numaflow/fb-sinker-server-info") (str "0.11")
    ∷ Call.write_text (str "/var/run/numaflow/fb-sinker-server-info") (str "U+005C__END__")
    ∷ Call.append_cleanup (pos 5)
    ∷ Call.wait_for_termination
    ∷ []

serve_announces_example :
    All (Returns sys) before
    × Listens sys sink_async (Sink.AsyncServer.default_arguments (pos 4)) before
    × (str "/var/run/numaflow/fb-sinker-server-info"
        ≡ info_file sys sink_async (Sink.AsyncServer.default_arguments (pos 4)))
unfolding serve Sink.AsyncServer.init Sink.AsyncServer.aexec Sink.Fallback.fallback_arguments
    Starting.common_init Starting.start_async_server Starting.write str_eq
serve_announces_example =
    serve_announces sys sink_async user (Sink.AsyncServer.default_arguments (pos 4)) before
      remaining (str "/var/run/numaflow/fb-sinker-server-info") refl

serve-Tells_example :
    let io = serve sys accumulator_async user (Accumulator.Server.default_arguments (pos 4)) in
    (io.result ≡ ok tt)
    × Ends sys io.calls
    × Tells sys accumulator_async (Accumulator.Server.default_arguments (pos 4)) io.calls
    × Some
        (λ x. x ≡ create_server none (options (Accumulator.Server.default_arguments (pos 4))))
        io.calls
unfolding Accumulator.Handler.get_handler
serve-Tells_example =
    serve-Tells sys accumulator_async user (Accumulator.Server.default_arguments (pos 4))
      (builder [] (some []), refl) (λ x. refl)

get_handler-Accepts_example :
    ((Accumulator.Handler.get_handler {V = Str} function [] (some []) ≡ inr function_handler)
      ↔ Accepts {V = Str} function [] [] function_handler)
    × ((Reduce.Handler.get_handler {V = Str} function [] (some []) ≡ inr function_handler)
        ↔ Accepts {V = Str} function [] [] function_handler)
    × ((ReduceStream.Handler.get_handler {V = Str} function [] (some []) ≡ inr function_handler)
        ↔ Accepts {V = Str} function [] [] function_handler)
    × (Accumulator.Handler.get_handler {V = Str} function [] none ≡ inr function_handler)
    × ((text : Str) × (Reduce.Handler.get_handler {V = Str} function [] none ≡ inl text))
    × (ReduceStream.Handler.get_handler {V = Str} function [] none ≡ inr function_handler)
get_handler-Accepts_example = get_handler-Accepts function [] [] function_handler
