-- ===== src/Map/SyncServer.antt =====
-- `MapServer` (packages/pynumaflow/pynumaflow/mapper/sync_server.py): its constructor, and how it starts.
use numaflow_python.Base.{some}
use numaflow_python.Base.Text.{str, ℤ}
use numaflow_python.Base.Dict
use numaflow_python.Info.{
  ContainerType, minimum_numaflow_version, get_default_server_info, unary_map, map_mode,
  map_mode_key,
}
use numaflow_python.Servers.Starting.{
  System, Io, Arguments, defaults, Server, common_init, UdfType, sync_server_start,
}

abbrev pub default_arguments : ℤ → Arguments
default_arguments =
    defaults (str "/var/run/numaflow/map.sock") (str "/var/run/numaflow/mapper-server-info")

unfoldable pub init : Arguments → Server
unfolding common_init
init args = common_init args

module _ (sys : System) where
  unfoldable pub start : Server → Io
  unfolding sync_server_start
  start server =
      let info = get_default_server_info sys.version in
      sync_server_start sys server.sock_path server.max_threads server.server_info_file
        server.server_options
        (some (record info {
          minimum_numaflow_version = minimum_numaflow_version ContainerType.mapper;
          metadata = Dict.put info.metadata map_mode_key (map_mode unary_map);
        }))
        UdfType.map
