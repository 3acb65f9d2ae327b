-- ===== src/Servers/Listening.antt =====
-- Each server makes the calls of the plan for its kind, with what it is to offer and to tell.
use numaflow_python.Base.{
  ◌≡◌, inl, inr, refl, Option, none, some, List, [], ◌∷◌, ◌++◌, if◌then◌else◌, Bool-cases,
}
use numaflow_python.Base.Text.{Str, str, ℤ}
use numaflow_python.Base.Dict
use numaflow_python.Base.Dict.{Dict}
use numaflow_python.Info.{
  map_mode_key, MapMode, map_mode, minimum_numaflow_version, uds, python, ServerInfo,
}
use numaflow_python.Servers.{max_num_threads, capped}
use numaflow_python.Servers.Starting.{
  Call, create_server, add_insecure_port, add_servicer, System, ◌>>◌, call, servicer_of,
  start_async_server, sync_server_start, UdfType, Arguments, common_init,
}
use numaflow_python.Servers.Starting.Sequence.{Performs}
use numaflow_python.Servers.Announcing.{
  async_calls, async_calls-Performs, sync_calls, sync_calls-Performs,
}
use numaflow_python.Servers.Classes.{
  ServerClass, accumulator_async, batch_map_async, map_async, map_sync, map_stream_async,
  reduce_async, reduce_stream_async, side_input_sync, sink_async, sink_sync, source_async,
  source_transform_async, source_transform_sync, is_sync, service, container, mode, User, socket,
  info_file, Accepted, serve,
}
use numaflow_python.Accumulator
use numaflow_python.BatchMap
use numaflow_python.Map
use numaflow_python.MapStream
use numaflow_python.Reduce
use numaflow_python.ReduceStream
use numaflow_python.SideInput
use numaflow_python.Sink
use numaflow_python.Sink.Fallback.{
  is_fallback, fallback_sink_sock_path, fallback_sink_server_info_file_path,
}
use numaflow_python.Source
use numaflow_python.Transform

abbrev pub mode_metadata : Option MapMode → Dict Str
mode_metadata none = []
mode_metadata (some m) = Dict.put [] map_mode_key (map_mode m)

abbrev pub options : Arguments → List (Str × ℤ)
options args =
    (str "grpc.max_send_message_length", args.max_message_size)
    ∷ (str "grpc.max_receive_message_length", args.max_message_size)
    ∷ []

module _ (sys : System) where
  abbrev pub announced : ServerClass → ServerInfo
  announced c = record {
    protocol = uds;
    language = python;
    minimum_numaflow_version = minimum_numaflow_version (container c);
    version = sys.version;
    metadata = mode_metadata (mode c);
  }

  abbrev pub calls_of : ServerClass → Arguments → List Call
  calls_of c args =
      if is_sync c
      then sync_calls sys (options args) (capped args.max_threads max_num_threads)
          (str "unix://" ++ socket sys c args) (service c) (announced c) (info_file sys c args)
      else async_calls sys (options args) (str "unix://" ++ socket sys c args) (service c)
          (announced c) (info_file sys c args)

  -- The code of the two kinds, at the address and with the file that it has been given.
  by_async :
      (c : ServerClass) (args : Arguments) (address path : Str)
      → Performs sys
          (call sys (create_server none (options args))
            >> call sys (add_insecure_port (str "unix://" ++ address))
            >> call sys (add_servicer (service c))
            >> start_async_server sys path (some (announced c)))
          (async_calls sys (options args) (str "unix://" ++ address) (service c) (announced c) path)
  by_async c args address path =
      async_calls-Performs sys (options args) (str "unix://" ++ address) (service c) (announced c)
        path

  by_sync :
      (c : ServerClass) (udf : UdfType) (args : Arguments) (address path : Str)
      → servicer_of udf ≡ some (service c)
      → Performs sys
          (sync_server_start sys
            (str "unix://" ++ address)
            (capped args.max_threads max_num_threads)
            path
            (options args)
            (some (announced c))
            udf)
          (sync_calls sys
            (options args)
            (capped args.max_threads max_num_threads)
            (str "unix://" ++ address)
            (service c)
            (announced c)
            path)
  by_sync c udf args address path e =
      sync_calls-Performs sys (options args) (capped args.max_threads max_num_threads)
        (str "unix://" ++ address) udf (service c) (announced c) path e

  pub serve-Performs :
      {V : Type 0} (c : ServerClass) (user : User V) (args : Arguments)
      → Accepted c user
      → Performs sys (serve sys c user args) (calls_of c args)
  unfolding serve common_init Accumulator.Server.init Accumulator.Server.aexec BatchMap.Server.init
      BatchMap.Server.aexec Map.AsyncServer.init Map.AsyncServer.aexec Map.SyncServer.init
      Map.SyncServer.start MapStream.Server.init MapStream.Server.aexec Reduce.Server.init
      Reduce.Server.aexec ReduceStream.Server.init ReduceStream.Server.aexec SideInput.Server.init
      SideInput.Server.start Sink.AsyncServer.init Sink.AsyncServer.aexec Sink.SyncServer.init
      Sink.SyncServer.start Sink.Fallback.fallback_arguments Source.Server.init Source.Server.aexec
      Transform.AsyncServer.init Transform.AsyncServer.aexec Transform.SyncServer.init
      Transform.SyncServer.start
  serve-Performs accumulator_async user args (h, e) =
      rw e (by_async accumulator_async args args.sock_path args.server_info_file)
  serve-Performs batch_map_async user args a =
      by_async batch_map_async args args.sock_path args.server_info_file
  serve-Performs map_async user args a =
      by_async map_async args args.sock_path args.server_info_file
  serve-Performs map_sync user args a =
      by_sync map_sync UdfType.map args args.sock_path args.server_info_file refl
  serve-Performs map_stream_async user args a =
      by_async map_stream_async args args.sock_path args.server_info_file
  serve-Performs reduce_async user args (h, e) =
      rw e (by_async reduce_async args args.sock_path args.server_info_file)
  serve-Performs reduce_stream_async user args (h, e) =
      rw e (by_async reduce_stream_async args args.sock_path args.server_info_file)
  serve-Performs side_input_sync user args a =
      by_sync side_input_sync UdfType.side_input args args.sock_path args.server_info_file refl
  serve-Performs sink_async user args a = elim (Bool-cases (is_fallback sys.getenv)) [
    | inl h ↦
        rw h (by_async sink_async args fallback_sink_sock_path fallback_sink_server_info_file_path)
    | inr h ↦ rw h (by_async sink_async args args.sock_path args.server_info_file)
  ]
  serve-Performs sink_sync user args a = elim (Bool-cases (is_fallback sys.getenv)) [
    | inl h ↦ rw h (
        by_sync sink_sync UdfType.sink args fallback_sink_sock_path
          fallback_sink_server_info_file_path refl)
    | inr h ↦ rw h (by_sync sink_sync UdfType.sink args args.sock_path args.server_info_file refl)
  ]
  serve-Performs source_async user args a =
      by_async source_async args args.sock_path args.server_info_file
  serve-Performs source_transform_async user args a =
      by_async source_transform_async args args.sock_path args.server_info_file
  serve-Performs source_transform_sync user args a =
      by_sync source_transform_sync UdfType.source_transformer args args.sock_path
        args.server_info_file refl
