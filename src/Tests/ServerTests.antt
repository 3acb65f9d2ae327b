-- ===== src/Tests/ServerTests.antt =====
-- The multiprocess map server on a machine with four CPUs.
use numaflow_python.Base.{◌*◌, ◌≡◌, Option, none, some, length}
use numaflow_python.Base.Text.{Str, str, pos, str_int}
use numaflow_python.Base.Dict
use numaflow_python.Base.Dict.Keys.{Distinct}
use numaflow_python.Info.{map_mode_key, multiproc_key, minimum_numaflow_version}
use numaflow_python.Servers.{
  max_num_threads, mapper, MultiprocServer, init, server_info, start, container_type,
}
use numaflow_python.Servers.Multiproc.{Bounded, Counts, start_bounds}

abbrev env : Str → Option Str
env name = some (str "2")

abbrev map_server : MultiprocServer
map_server = init 4 (pos 100) (str "/map.sock") (pos 1000) (pos 4) (str "/info")

start_bounds_example :
    let started = start env (str "0.11") mapper map_server in
    Bounded (pos 100) (2 * 4) map_server.process_count
    × Counts map_server.process_count (length started.addresses)
    × Distinct started.addresses
    × Bounded (pos 4) max_num_threads started.threads_per_proc
    × (started.written.minimum_numaflow_version ≡ minimum_numaflow_version (container_type mapper))
    × (Dict.get started.written.metadata multiproc_key ≡ some (str_int map_server.process_count))
    × (Dict.get (server_info env (str "0.11") mapper map_server).metadata map_mode_key
        ≡ some (str "unary-map"))
    × (Dict.get started.written.metadata map_mode_key ≡ none)
start_bounds_example =
    start_bounds env (str "0.11") 4 (pos 100) (pos 4) (str "/map.sock") (pos 1000) (str "/info")
      mapper
