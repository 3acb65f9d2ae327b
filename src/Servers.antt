-- ===== src/Servers.antt =====
-- The start of the multiprocess servers: mapper/multiproc_server.py, sourcetransformer/multiproc_server.py,
-- and `start_multiproc_server` of shared/server.py. A worker is the address that its process binds; grpc and the processes
-- themselves are not modelled. `env` is `os.getenv`, `version` what `get_sdk_version` returns, and
-- `cpu_count` is `_PROCESS_COUNT`.
pub mod Multiproc
pub mod Starting
pub mod Given
pub mod Classes
pub mod Announcing
pub mod Listening
pub mod Order
pub mod Contents
pub mod Accepting
use numaflow_python.Base.{
  ℕ, zero, suc, ◌*◌, ◌≡◌, Bool, true, false, Option, none, some, List, [], ◌∷◌, ◌++◌, if◌then◌else◌,
  ltb,
}
use numaflow_python.Base.Text.{Str, str, ℤ, pos, negsuc, decimal, str_int}
use numaflow_python.Base.Dict
use numaflow_python.Base.Dict.{Dict}
use numaflow_python.Info.{
  map_mode_key, multiproc_key, metadata_envs, unary_map, map_mode, ContainerType,
  minimum_numaflow_version, ServerInfo, get_default_server_info, get_metadata_env,
}

abbrev pub max_num_threads : ℕ
max_num_threads = 16

abbrev pub multiproc_map_sock_addr : Str
multiproc_map_sock_addr = str "/var/run/numaflow/multiproc"

-- The two servers that fork: `MapMultiprocServer` and `SourceTransformMultiProcServer`.
pub data Udf : Type 0 where
  mapper source_transformer : Udf

abbrev pub container_type : Udf → ContainerType
container_type mapper = ContainerType.mapper
container_type source_transformer = ContainerType.sourcetransformer

abbrev pub min : ℕ → ℕ → ℕ
min m n = if ltb n m then n else m

-- `min(i, n)` of an `int` and a bound that is not negative.
unfoldable pub capped : ℤ → ℕ → ℤ
capped (pos m) n = pos (min m n)
capped (negsuc m) n = negsuc m

unfoldable pub bind_address : ℕ → Str
bind_address idx = str "unix://" ++ (multiproc_map_sock_addr ++ (decimal idx ++ str ".sock"))

-- The addresses of the workers `idx`, `idx + 1`, ...
abbrev pub workers_from : ℕ → ℕ → List Str
workers_from idx zero = []
workers_from idx (suc n) = bind_address idx ∷ workers_from (suc idx) n

-- `for idx in range(process_count)`
unfoldable pub workers : ℤ → List Str
workers (pos n) = workers_from 0 n
workers (negsuc n) = []

-- What has been started, and what is written to the file of the server's information.
pub record Started : Type 0 where
  pub addresses : List Str
  pub threads_per_proc : ℤ
  pub options : List (Str × ℤ)
  pub info_file : Str
  pub written : ServerInfo

-- `_process_count` of a server.
unfoldable pub process_count : ℕ → ℤ → ℤ
process_count cpu_count server_count = capped server_count (2 * cpu_count)

pub record MultiprocServer : Type 0 where
  pub sock_path : Str
  pub max_threads : ℤ
  pub max_message_size : ℤ
  pub server_info_file : Str
  pub server_options : List (Str × ℤ)
  pub process_count : ℤ

-- The constructor, which is the same in both classes.
unfoldable pub init : ℕ → ℤ → Str → ℤ → ℤ → Str → MultiprocServer
init cpu_count server_count sock_path max_message_size max_threads server_info_file = record {
  sock_path = str "unix://" ++ sock_path;
  max_threads = capped max_threads max_num_threads;
  max_message_size = max_message_size;
  server_info_file = server_info_file;
  server_options =
      (str "grpc.max_send_message_length", max_message_size)
      ∷ (str "grpc.max_receive_message_length", max_message_size)
      ∷ (str "grpc.so_reuseport", pos 1)
      ∷ (str "grpc.so_reuseaddr", pos 1)
      ∷ [];
  process_count = process_count cpu_count server_count;
}

module _ (env : Str → Option Str) (version : Str) where
  unfoldable pub start_multiproc_server : ℤ → ℤ → Str → Option ServerInfo → List (Str × ℤ) → Started
  start_multiproc_server max_threads process_count server_info_file server_info server_options =
      let info : ServerInfo = elim server_info [
        | none ↦ get_default_server_info version
        | some i ↦ i
      ] in
      record {
        addresses = workers process_count;
        threads_per_proc = max_threads;
        options = server_options;
        info_file = server_info_file;
        written = record info {
          metadata =
              Dict.put (get_metadata_env env metadata_envs) multiproc_key (str_int process_count);
        };
      }

  -- The information that `start` passes on.
  unfoldable pub server_info : Udf → MultiprocServer → ServerInfo
  server_info mapper server =
      let info = get_default_server_info version in
      record info {
        minimum_numaflow_version = minimum_numaflow_version (container_type mapper);
        metadata =
            Dict.put
              (Dict.put (get_metadata_env env metadata_envs) multiproc_key
                (str_int server.process_count))
              map_mode_key (map_mode unary_map);
      }
  server_info source_transformer server =
      let info = get_default_server_info version in
      record info {
        minimum_numaflow_version = minimum_numaflow_version (container_type source_transformer);
      }

  unfoldable pub start : Udf → MultiprocServer → Started
  unfolding server_info
  start udf server =
      start_multiproc_server server.max_threads server.process_count server.server_info_file
        (some (server_info udf server)) server.server_options
