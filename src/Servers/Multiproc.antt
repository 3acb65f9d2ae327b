-- ===== src/Servers/Multiproc.antt =====
-- What the multiprocess map server starts, and tells of itself.
use mathlib.Core.List.{append_cancel_left, append_cancel_right}
use numaflow_python.Base.{
  ℕ, zero, suc, ◌*◌, ◌≤◌, ◌<◌, ◌≡◌, ◌≢◌, refl, ap, ◌∙◌, false, Option, none, some, [], ◌∷◌, length,
  All, arith, if◌then◌else◌,
}
use numaflow_python.Base.Text.{Str, str, ℤ, pos, negsuc, str_int, str_eq}
use numaflow_python.Base.Text.Numerals.{decimal-injective}
use numaflow_python.Base.Dict
use numaflow_python.Base.Dict.{get-put}
use numaflow_python.Base.Dict.Keys.{Distinct}
use numaflow_python.Info.{
  map_mode_key, multiproc_key, metadata_envs, set_if_text, get_metadata_env,
  minimum_numaflow_version,
}
use numaflow_python.Servers.{
  max_num_threads, capped, bind_address, workers_from, workers, Udf, mapper, source_transformer,
  process_count, init, start_multiproc_server, server_info, start, container_type,
}

bind_address-injective : (i j : ℕ) → bind_address i ≡ bind_address j → i ≡ j
unfolding bind_address
bind_address-injective i j e = decimal-injective i j (
    append_cancel_right _ _ (str ".sock")
      (append_cancel_left (str "unix:///var/run/numaflow/multiproc") _ _ e))

length-workers_from : (idx n : ℕ) → length (workers_from idx n) ≡ n
length-workers_from idx zero = refl
length-workers_from idx (suc n) = ap suc (length-workers_from (suc idx) n)

workers_from-differ : (i idx n : ℕ) → i < idx → All (λ a. a ≢ bind_address i) (workers_from idx n)
workers_from-differ i idx zero h = tt
workers_from-differ i idx (suc n) h = (
  λ e. let q = bind_address-injective idx i e in absurd (omega (arith, h, q)),
  workers_from-differ i (suc idx) n (omega arith),
)

workers_from-Distinct : (idx n : ℕ) → Distinct (workers_from idx n)
workers_from-Distinct idx zero = tt
workers_from-Distinct idx (suc n) =
    (workers_from-differ idx (suc idx) n (omega arith), workers_from-Distinct (suc idx) n)

-- The number of processes for a requested number.
abbrev pub Bounded : ℤ → ℕ → ℤ → Type 0
Bounded (pos m) n c = (k : ℕ) × (c ≡ pos k) × (k ≤ n) × (k ≤ m)
Bounded (negsuc m) n c = c ≡ negsuc m

capped-Bounded : (i : ℤ) (n : ℕ) → Bounded i n (capped i n)
unfolding capped
capped-Bounded (pos m) n = (_, refl, ground arith, ground arith)
capped-Bounded (negsuc m) n = refl

-- As many as the count says.
abbrev pub Counts : ℤ → ℕ → Type 0
Counts (pos n) k = k ≡ n
Counts (negsuc n) k = k ≡ 0

length-workers-Counts : (c : ℤ) → Counts c (length (workers c))
unfolding workers
length-workers-Counts (pos n) = length-workers_from 0 n
length-workers-Counts (negsuc n) = refl

workers-Distinct : (c : ℤ) → Distinct (workers c)
unfolding workers
workers-Distinct (pos n) = workers_from-Distinct 0 n
workers-Distinct (negsuc n) = tt

set_if_text-lacks :
    (key k : Str) (o : Option Str) → str_eq key k ≡ false → Dict.get (set_if_text [] key o) k ≡ none
unfolding Dict.get Dict.put
set_if_text-lacks key k none h = refl
set_if_text-lacks key k (some []) h = refl
set_if_text-lacks key k (some (c ∷ cs)) h = rw h refl

-- What is written of a key that is not `CPU_LIMIT`.
env_lacks :
    (env : Str → Option Str) (k v : Str)
    → str_eq (str "CPU_LIMIT") k ≡ false
    → Dict.get (Dict.put (get_metadata_env env metadata_envs) multiproc_key v) k
      ≡ (if str_eq multiproc_key k then some v else none)
unfolding get_metadata_env
env_lacks env k v h =
    get-put _ multiproc_key k v
    ∙ ap (λ o. if str_eq multiproc_key k then some v else o)
        (set_if_text-lacks (str "CPU_LIMIT") k (env (str "NUMAFLOW_CPU_LIMIT")) h)

module _ (env : Str → Option Str) (version : Str) (cpu_count : ℕ) (server_count max_threads : ℤ)
    (sock_path : Str) (max_message_size : ℤ) (server_info_file : Str) where
  -- Both servers, whatever numbers are asked for: at most twice as many processes as CPUs are started, and
  -- no more than asked for, each with at most 16 threads and an address of its own; the information that
  -- is written has the minimum version of the server and the number of processes, and it has no map mode,
  -- although the map server has set one.
  pub start_bounds :
      (udf : Udf)
      → let server =
          init cpu_count server_count sock_path max_message_size max_threads server_info_file in
        let started = start env version udf server in
        Bounded server_count (2 * cpu_count) server.process_count
        × Counts server.process_count (length started.addresses)
        × Distinct started.addresses
        × Bounded max_threads max_num_threads started.threads_per_proc
        × (started.written.minimum_numaflow_version ≡ minimum_numaflow_version (container_type udf))
        × (Dict.get started.written.metadata multiproc_key ≡ some (str_int server.process_count))
        × (Dict.get (server_info env version mapper server).metadata map_mode_key
            ≡ some (str "unary-map"))
        × (Dict.get started.written.metadata map_mode_key ≡ none)
  unfolding start start_multiproc_server process_count server_info str_eq init
  start_bounds udf =
      let count = capped server_count (2 * cpu_count) in
      (
        capped-Bounded server_count (2 * cpu_count),
        length-workers-Counts count,
        workers-Distinct count,
        capped-Bounded max_threads max_num_threads,
        written_version udf,
        env_lacks env multiproc_key (str_int count) refl,
        get-put _ map_mode_key map_mode_key (str "unary-map"),
        env_lacks env map_mode_key (str_int count) refl,
      )
    where
      written_version :
          (udf : Udf)
          → (start env version udf (
              init cpu_count server_count sock_path max_message_size max_threads
                server_info_file)).written.minimum_numaflow_version
            ≡ minimum_numaflow_version (container_type udf)
      written_version mapper = refl
      written_version source_transformer = refl
