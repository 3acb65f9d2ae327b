-- ===== src/Reduce/Server.antt =====
-- `ReduceAsyncServer` (packages/pynumaflow/pynumaflow/reducer/async_server.py): its constructor, and how it starts.
use numaflow_python.Base.{◌⊎◌, none, some, Option, List}
use numaflow_python.Base.Text.{Str, str, ℤ}
use numaflow_python.Base.Dict.{Dict}
use numaflow_python.Info.{ContainerType, minimum_numaflow_version, get_default_server_info}
use numaflow_python.Servers.Starting.{
  System, Io, ◌>>◌, call, Arguments, defaults, Server, common_init, create_server,
  add_insecure_port, add_servicer, start_async_server, reduce_service,
}
use numaflow_python.Servers.Given.{Given, Handler, or_empty, with_server}
use numaflow_python.Reduce.Handler.{get_handler}

abbrev pub default_arguments : ℤ → Arguments
default_arguments =
    defaults (str "/var/run/numaflow/reduce.sock") (str "/var/run/numaflow/reducer-server-info")

-- The handler and the server, or the text of the TypeError.
unfoldable pub init :
    {V : Type 0} → Given → List V → Option (Dict V) → Arguments → Str ⊎ (Handler V × Server)
unfolding common_init
init given init_args init_kwargs args =
    with_server (common_init args) (get_handler given init_args (or_empty init_kwargs))

module _ (sys : System) where
  unfoldable pub aexec : Server → Io
  unfolding start_async_server
  aexec server =
      let info = get_default_server_info sys.version in
      call sys (create_server none server.server_options)
      >> call sys (add_insecure_port server.sock_path)
      >> call sys (add_servicer reduce_service)
      >> start_async_server sys server.server_info_file (
          some (record info {
            minimum_numaflow_version = minimum_numaflow_version ContainerType.reducer;
          }))
