-- ===== src/Servers/Starting.antt =====
-- How a server is started: `start_async_server`, `sync_server_start` and `_run_server` of
-- shared/server.py, and `write` of info/server.py. Everything that these call outside the package (grpc,
-- the file of the server's information) is a sequence of calls, each of which may raise. Logging is
-- left out.
pub mod Sequence
use numaflow_python.Base.{
  Bool, true, false, not, ◌&&◌, Option, none, some, List, [], ◌∷◌, ◌++◌, if◌then◌else◌,
}
use numaflow_python.Base.Text.{Str, str, ℤ, pos}
use numaflow_python.Shared.Server.{Exception, Result, ok, raised}
use numaflow_python.Info.{ServerInfo, get_default_server_info, eof}
use numaflow_python.Servers.{max_num_threads, capped}

-- What the functions `add_..._to_server` of the generated code add.
pub data Service : Type 0 where
  map_service reduce_service sink_service source_service side_input_service : Service
  source_transform_service accumulator_service : Service

pub data UdfType : Type 0 where
  map reduce sink source side_input source_transformer : UdfType

pub data Call : Type 0 where
  -- `grpc.aio.server(options)`, or `grpc.server(ThreadPoolExecutor(max_workers), options)`
  create_server : Option ℤ → List (Str × ℤ) → Call
  add_insecure_port : Str → Call
  add_servicer : Service → Call
  start_server : Call
  -- `open(info_file, "w+")`, and what is written to it
  open_file : Str → Call
  write_text : Str → Str → Call
  -- `cleanup_coroutines.append(server_graceful_shutdown())`, with the seconds of grace
  append_cleanup : ℤ → Call
  wait_for_termination : Call

-- What the code takes from elsewhere: what a call does, `os.getenv`, `get_sdk_version()` and the text
-- that `json.dump` writes.
pub record System : Type 0 where
  pub perform : Call → Result (Unit {0})
  pub getenv : Str → Option Str
  pub version : Str
  pub dumps : ServerInfo → Str

-- The calls that are made, the one that raises included, and how it ends.
pub record Io : Type 0 where
  pub calls : List Call
  pub result : Result (Unit {0})

abbrev pub continue : List Call → Result (Unit {0}) → (Unit {0} → Io) → Io
continue cs (ok u) f = record { calls = cs ++ (f u).calls; result = (f u).result }
continue cs (raised e) f = record { calls = cs; result = raised e }

infixl 5 ◌>>◌
abbrev pub ◌>>◌ : Io → Io → Io
m >> n = continue m.calls m.result (λ _. n)

abbrev pub pass : Io
pass = record { calls = []; result = ok tt }

abbrev pub is_empty : Str → Bool
is_empty [] = true
is_empty (c ∷ cs) = false

-- `if server_info and server_info_file`
abbrev pub given : Option ServerInfo → Option Str → Option (ServerInfo × Str)
given (some info) (some path) = if is_empty path then none else some (info, path)
given _ _ = none

abbrev or_default : Str → Option ServerInfo → ServerInfo
or_default version none = get_default_server_info version
or_default version (some info) = info

-- The branches on the type of the function; there is none for `UDFType.Reduce`.
abbrev pub servicer_of : UdfType → Option Service
servicer_of map = some map_service
servicer_of sink = some sink_service
servicer_of source_transformer = some source_transform_service
servicer_of source = some source_service
servicer_of side_input = some side_input_service
servicer_of reduce = none

module _ (sys : System) where
  abbrev pub call : Call → Io
  call c = record { calls = c ∷ []; result = sys.perform c }

  abbrev add : Option Service → Io
  add none = pass
  add (some s) = call (add_servicer s)

  unfoldable pub write : ServerInfo → Str → Io
  write server_info info_file =
      call (open_file info_file)
      >> call (write_text info_file (sys.dumps server_info))
      >> call (write_text info_file eof)

  abbrev pub write_given : Option (ServerInfo × Str) → Io
  write_given none = pass
  write_given (some (info, path)) = write info path

  unfoldable pub run_server :
      Str → ℤ → List (Str × ℤ) → UdfType → Option Str → Option ServerInfo → Io
  unfolding write
  run_server bind_address threads_per_proc server_options udf_type server_info_file server_info =
      call (create_server (some threads_per_proc) server_options)
      >> add (servicer_of udf_type)
      >> call (add_insecure_port bind_address)
      >> call start_server
      >> write_given (given server_info server_info_file)
      >> call wait_for_termination

  unfoldable pub sync_server_start :
      Str → ℤ → Str → List (Str × ℤ) → Option ServerInfo → UdfType → Io
  unfolding run_server
  sync_server_start bind_address max_threads server_info_file server_options server_info udf_type =
      run_server bind_address max_threads server_options udf_type (some server_info_file)
        (some (or_default sys.version server_info))

  unfoldable pub start_async_server : Str → Option ServerInfo → Io
  unfolding write
  start_async_server server_info_file server_info =
      call start_server
      >> write (or_default sys.version server_info) server_info_file
      >> call (append_cleanup (pos 5))
      >> call wait_for_termination

-- The arguments of a server's constructor but for the user's function.
pub record Arguments : Type 0 where
  pub sock_path : Str
  pub max_message_size : ℤ
  pub max_threads : ℤ
  pub server_info_file : Str

-- The arguments by default; `NUM_THREADS_DEFAULT` is read from the environment.
abbrev pub defaults : Str → Str → ℤ → Arguments
defaults sock_path server_info_file num_threads_default = record {
  sock_path = sock_path;
  max_message_size = pos 67108864;
  max_threads = num_threads_default;
  server_info_file = server_info_file;
}

pub record Server : Type 0 where
  pub sock_path : Str
  pub max_message_size : ℤ
  pub max_threads : ℤ
  pub server_info_file : Str
  pub server_options : List (Str × ℤ)

-- The assignments that the constructors have in common.
unfoldable pub common_init : Arguments → Server
common_init args = record {
  sock_path = str "unix://" ++ args.sock_path;
  max_message_size = args.max_message_size;
  max_threads = capped args.max_threads max_num_threads;
  server_info_file = args.server_info_file;
  server_options =
      (str "grpc.max_send_message_length", args.max_message_size)
      ∷ (str "grpc.max_receive_message_length", args.max_message_size)
      ∷ [];
}
