-- ===== src/Sink/AsyncServer.antt =====
-- `SinkAsyncServer` (packages/pynumaflow/pynumaflow/sinker/async_server.py): its constructor, and how it starts.
use numaflow_python.Base.{none, some, Option}
use numaflow_python.Base.Text.{Str, str, ℤ}
use numaflow_python.Info.{ContainerType, minimum_numaflow_version, get_default_server_info}
use numaflow_python.Servers.Starting.{
  System, Io, ◌>>◌, call, Arguments, defaults, Server, common_init, create_server,
  add_insecure_port, add_servicer, start_async_server, sink_service,
}
use numaflow_python.Sink.Fallback.{fallback_arguments}

abbrev pub default_arguments : ℤ → Arguments
default_arguments =
    defaults (str "/var/run/numaflow/sink.sock") (str "/var/run/numaflow/sinker-server-info")

unfoldable pub init : (Str → Option Str) → Arguments → Server
unfolding common_init fallback_arguments
init getenv args = common_init (fallback_arguments getenv args)

module _ (sys : System) where
  unfoldable pub aexec : Server → Io
  unfolding start_async_server
  aexec server =
      let info = get_default_server_info sys.version in
      call sys (create_server none server.server_options)
      >> call sys (add_insecure_port server.sock_path)
      >> call sys (add_servicer sink_service)
      >> start_async_server sys server.server_info_file (
          some (record info {
            minimum_numaflow_version = minimum_numaflow_version ContainerType.sinker;
          }))
