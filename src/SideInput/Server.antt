-- ===== src/SideInput/Server.antt =====
-- `SideInputServer` (packages/pynumaflow/pynumaflow/sideinput/server.py): its constructor, and how it starts.
use numaflow_python.Base.{some}
use numaflow_python.Base.Text.{str, ℤ}
use numaflow_python.Info.{ContainerType, minimum_numaflow_version, get_default_server_info}
use numaflow_python.Servers.Starting.{
  System, Io, Arguments, defaults, Server, common_init, UdfType, sync_server_start,
}

abbrev pub default_arguments : ℤ → Arguments
default_arguments =
    defaults (str "/var/run/numaflow/sideinput.sock")
      (str "/var/run/numaflow/sideinput-server-info")

unfoldable pub init : Arguments → Server
unfolding common_init
init args = common_init args

module _ (sys : System) where
  unfoldable pub start : Server → Io
  unfolding sync_server_start
  start server =
      let info = get_default_server_info sys.version in
      sync_server_start sys server.sock_path server.max_threads server.server_info_file
        server.server_options
        (some (record info {
          minimum_numaflow_version = minimum_numaflow_version ContainerType.sideinput;
        }))
        UdfType.side_input
