-- ===== src/Info.antt =====
-- The package info: what a server tells of itself (types.py), and the file that it tells it in (server.py).
-- `env` is `os.getenv`, `version` what `get_sdk_version` returns.
use numaflow_python.Base.{Option, none, some, List, [], ◌∷◌}
use numaflow_python.Base.Text.{Str, str}
use numaflow_python.Base.Dict
use numaflow_python.Base.Dict.{Dict}

-- The end of the text in the file, `EOF`
abbrev pub eof : Str
eof = str "U+005C__END__"

abbrev pub map_mode_key : Str
map_mode_key = str "MAP_MODE"

abbrev pub multiproc_key : Str
multiproc_key = str "MULTIPROC"

-- `METADATA_ENVS`
abbrev pub metadata_envs : List (Str × Str)
metadata_envs = (str "CPU_LIMIT", str "NUMAFLOW_CPU_LIMIT") ∷ []

pub data MapMode : Type 0 where
  unary_map stream_map batch_map : MapMode

-- The values of `MapMode`
abbrev pub map_mode : MapMode → Str
map_mode unary_map = str "unary-map"
map_mode stream_map = str "stream-map"
map_mode batch_map = str "batch-map"

pub data ContainerType : Type 0 where
  sourcer sourcetransformer sinker mapper reducer reducestreamer sessionreducer : ContainerType
  sideinput fbsinker accumulator : ContainerType

-- `MINIMUM_NUMAFLOW_VERSION`
abbrev pub minimum_numaflow_version : ContainerType → Str
minimum_numaflow_version sourcer = str "1.4.0-z"
minimum_numaflow_version sourcetransformer = str "1.4.0-z"
minimum_numaflow_version sinker = str "1.4.0-z"
minimum_numaflow_version mapper = str "1.4.0-z"
minimum_numaflow_version reducer = str "1.4.0-z"
minimum_numaflow_version reducestreamer = str "1.4.0-z"
minimum_numaflow_version sessionreducer = str "1.4.0-z"
minimum_numaflow_version sideinput = str "1.4.0-z"
minimum_numaflow_version fbsinker = str "1.4.0-z"
minimum_numaflow_version accumulator = str "1.5.0-z"

pub data Protocol : Type 0 where
  uds tcp : Protocol

pub data Language : Type 0 where
  python : Language

pub record ServerInfo : Type 0 where
  pub protocol : Protocol
  pub language : Language
  pub minimum_numaflow_version : Str
  pub version : Str
  pub metadata : Dict Str

abbrev pub get_default_server_info : Str → ServerInfo
get_default_server_info version = record {
  protocol = uds;
  language = python;
  minimum_numaflow_version = [];
  version = version;
  metadata = [];
}

-- `if res: meta[key] = res`
abbrev pub set_if_text : Dict Str → Str → Option Str → Dict Str
set_if_text meta key none = meta
set_if_text meta key (some []) = meta
set_if_text meta key (some (c ∷ cs)) = Dict.put meta key (c ∷ cs)

-- The loop of `get_metadata_env`, from what `meta` holds.
abbrev pub collect_env : (Str → Option Str) → Dict Str → List (Str × Str) → Dict Str
collect_env env meta [] = meta
collect_env env meta ((key, val) ∷ envs) = collect_env env (set_if_text meta key (env val)) envs

unfoldable pub get_metadata_env : (Str → Option Str) → List (Str × Str) → Dict Str
get_metadata_env env envs = collect_env env [] envs
