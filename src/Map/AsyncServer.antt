-- ===== src/Map/AsyncServer.antt =====
-- `MapAsyncServer` (packages/pynumaflow/pynumaflow/mapper/async_server.py): its constructor, and how it starts.
use numaflow_python.Base.{none, some}
use numaflow_python.Base.Text.{str, ℤ}
use numaflow_python.Base.Dict
use numaflow_python.Info.{
  ContainerType, minimum_numaflow_version, get_default_server_info, unary_map, map_mode,
  map_mode_key,
}
use numaflow_python.Servers.Starting.{
  System, Io, ◌>>◌, call, Arguments, defaults, Server, common_init, create_server,
  add_insecure_port, add_servicer, start_async_server, map_service,
}

abbrev pub default_arguments : ℤ → Arguments
default_arguments =
    defaults (str "/var/run/numaflow/map.sock") (str "/var/run/numaflow/mapper-server-info")

unfoldable pub init : Arguments → Server
unfolding common_init
init args = common_init args

module _ (sys : System) where
  unfoldable pub aexec : Server → Io
  unfolding start_async_server
  aexec server =
      let info = get_default_server_info sys.version in
      call sys (create_server none server.server_options)
      >> call sys (add_insecure_port server.sock_path)
      >> call sys (add_servicer map_service)
      >> start_async_server sys server.server_info_file (
          some (record info {
            minimum_numaflow_version = minimum_numaflow_version ContainerType.mapper;
            metadata = Dict.put info.metadata map_mode_key (map_mode unary_map);
          }))
