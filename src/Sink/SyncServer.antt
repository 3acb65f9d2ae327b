-- ===== src/Sink/SyncServer.antt =====
-- `SinkServer` (packages/pynumaflow/pynumaflow/sinker/server.py): its constructor, and how it starts.
use numaflow_python.Base.{some, Option}
use numaflow_python.Base.Text.{Str, str, ℤ}
use numaflow_python.Info.{ContainerType, minimum_numaflow_version, get_default_server_info}
use numaflow_python.Servers.Starting.{
  System, Io, Arguments, defaults, Server, common_init, UdfType, sync_server_start,
}
use numaflow_python.Sink.Fallback.{fallback_arguments}

abbrev pub default_arguments : ℤ → Arguments
default_arguments =
    defaults (str "/var/run/numaflow/sink.sock") (str "/var/run/numaflow/sinker-server-info")

unfoldable pub init : (Str → Option Str) → Arguments → Server
unfolding common_init fallback_arguments
init getenv args = common_init (fallback_arguments getenv args)

module _ (sys : System) where
  unfoldable pub start : Server → Io
  unfolding sync_server_start
  start server =
      let info = get_default_server_info sys.version in
      sync_server_start sys server.sock_path server.max_threads server.server_info_file
        server.server_options
        (some (record info {
          minimum_numaflow_version = minimum_numaflow_version ContainerType.sinker;
        }))
        UdfType.sink
