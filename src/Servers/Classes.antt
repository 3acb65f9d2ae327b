-- ===== src/Servers/Classes.antt =====
-- The servers other than the multiprocess ones: what each is to offer and to tell, apart from its code,
-- and its start, from the constructor on.
use numaflow_python.Base.{
  ◌≡◌, ◌⊎◌, inl, inr, Bool, true, false, Option, none, some, List, [], ◌∷◌, ◌++◌, if◌then◌else◌,
}
use numaflow_python.Base.Text.{Str, str_eq}
use numaflow_python.Base.Dict.{Dict}
use numaflow_python.Info.{MapMode, unary_map, stream_map, batch_map, ContainerType}
use numaflow_python.Servers.Starting.{
  Service, map_service, reduce_service, sink_service, source_service, side_input_service,
  source_transform_service, accumulator_service, Call, open_file, write_text, System, Io, pass,
  Arguments, Server,
}
use numaflow_python.Servers.Given.{Given, Handler, or_empty}
use numaflow_python.Accumulator
use numaflow_python.BatchMap
use numaflow_python.Map
use numaflow_python.MapStream
use numaflow_python.Reduce
use numaflow_python.ReduceStream
use numaflow_python.SideInput
use numaflow_python.Sink
use numaflow_python.Sink.Fallback.{
  is_fallback, fallback_sink_sock_path, fallback_sink_server_info_file_path,
}
use numaflow_python.Source
use numaflow_python.Transform

pub data ServerClass : Type 0 where
  accumulator_async batch_map_async map_async map_sync map_stream_async reduce_async : ServerClass
  reduce_stream_async side_input_sync sink_async sink_sync source_async : ServerClass
  source_transform_async source_transform_sync : ServerClass

abbrev pub is_sync : ServerClass → Bool
is_sync map_sync = true
is_sync side_input_sync = true
is_sync sink_sync = true
is_sync source_transform_sync = true
is_sync _ = false

abbrev pub service : ServerClass → Service
service accumulator_async = accumulator_service
service batch_map_async = map_service
service map_async = map_service
service map_sync = map_service
service map_stream_async = map_service
service reduce_async = reduce_service
service reduce_stream_async = reduce_service
service side_input_sync = side_input_service
service sink_async = sink_service
service sink_sync = sink_service
service source_async = source_service
service source_transform_async = source_transform_service
service source_transform_sync = source_transform_service

abbrev pub container : ServerClass → ContainerType
container accumulator_async = ContainerType.accumulator
container batch_map_async = ContainerType.mapper
container map_async = ContainerType.mapper
container map_sync = ContainerType.mapper
container map_stream_async = ContainerType.mapper
container reduce_async = ContainerType.reducer
container reduce_stream_async = ContainerType.reducestreamer
container side_input_sync = ContainerType.sideinput
container sink_async = ContainerType.sinker
container sink_sync = ContainerType.sinker
container source_async = ContainerType.sourcer
container source_transform_async = ContainerType.sourcetransformer
container source_transform_sync = ContainerType.sourcetransformer

-- How the mappers are called; the others have no mode.
abbrev pub mode : ServerClass → Option MapMode
mode batch_map_async = some batch_map
mode map_async = some unary_map
mode map_sync = some unary_map
mode map_stream_async = some stream_map
mode _ = none

abbrev pub is_sink : ServerClass → Bool
is_sink sink_async = true
is_sink sink_sync = true
is_sink _ = false

-- What the user passes as the handler, where this may be a class with arguments.
pub record User (V : Type 0) : Type 0 where
  pub given : Given
  pub init_args : List V
  pub init_kwargs : Option (Dict V)

-- A server that was constructed is started.
abbrev pub start_if_built : {V : Type 0} → (Server → Io) → Str ⊎ (Handler V × Server) → Io
start_if_built start (inl error) = pass
start_if_built start (inr (handler, server)) = start server

-- The user's handler is one that the server takes.
abbrev pub Accepted : {V : Type 0} → ServerClass → User V → Type 0
Accepted {V} accumulator_async user =
    (h : Handler V) × (Accumulator.Handler.get_handler user.given user.init_args
        (or_empty user.init_kwargs)
      ≡ inr h)
Accepted {V} reduce_async user =
    (h : Handler V) × (Reduce.Handler.get_handler user.given user.init_args
        (or_empty user.init_kwargs)
      ≡ inr h)
Accepted {V} reduce_stream_async user =
    (h : Handler V) × (ReduceStream.Handler.get_handler user.given user.init_args
        (or_empty user.init_kwargs)
      ≡ inr h)
Accepted {V} _ user = Unit

module _ (sys : System) where
  -- Sinks in the container of the fallback sink have another address and another file.
  abbrev pub falls_back : ServerClass → Bool
  falls_back c = if is_sink c then is_fallback sys.getenv else false

  abbrev pub socket : ServerClass → Arguments → Str
  socket c args = if falls_back c then fallback_sink_sock_path else args.sock_path

  abbrev pub info_file : ServerClass → Arguments → Str
  info_file c args =
      if falls_back c then fallback_sink_server_info_file_path else args.server_info_file

  -- The constructor of a class, and then `start`; the asynchronous ones run `aexec`.
  unfoldable pub serve : {V : Type 0} → ServerClass → User V → Arguments → Io
  serve accumulator_async user args =
      start_if_built (Accumulator.Server.aexec sys)
        (Accumulator.Server.init user.given user.init_args user.init_kwargs args)
  serve batch_map_async user args = BatchMap.Server.aexec sys (BatchMap.Server.init args)
  serve map_async user args = Map.AsyncServer.aexec sys (Map.AsyncServer.init args)
  serve map_sync user args = Map.SyncServer.start sys (Map.SyncServer.init args)
  serve map_stream_async user args = MapStream.Server.aexec sys (MapStream.Server.init args)
  serve reduce_async user args =
      start_if_built (Reduce.Server.aexec sys)
        (Reduce.Server.init user.given user.init_args user.init_kwargs args)
  serve reduce_stream_async user args =
      start_if_built (ReduceStream.Server.aexec sys)
        (ReduceStream.Server.init user.given user.init_args user.init_kwargs args)
  serve side_input_sync user args = SideInput.Server.start sys (SideInput.Server.init args)
  serve sink_async user args = Sink.AsyncServer.aexec sys (Sink.AsyncServer.init sys.getenv args)
  serve sink_sync user args = Sink.SyncServer.start sys (Sink.SyncServer.init sys.getenv args)
  serve source_async user args = Source.Server.aexec sys (Source.Server.init args)
  serve source_transform_async user args =
      Transform.AsyncServer.aexec sys (Transform.AsyncServer.init args)
  serve source_transform_sync user args =
      Transform.SyncServer.start sys (Transform.SyncServer.init args)

-- What a file holds after some calls: opening it empties it, writing appends.
abbrev pub contents : Option Str → Str → List Call → Option Str
contents now path [] = now
contents now path (open_file p ∷ cs) = contents (if str_eq p path then some [] else now) path cs
contents none path (write_text p text ∷ cs) = contents none path cs
contents (some t) path (write_text p text ∷ cs) =
    contents (if str_eq p path then some (t ++ text) else some t) path cs
contents now path (_ ∷ cs) = contents now path cs
