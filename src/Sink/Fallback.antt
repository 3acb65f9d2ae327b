-- ===== src/Sink/Fallback.antt =====
-- The fallback sink: what both constructors do with their arguments in its container
-- (packages/pynumaflow/pynumaflow/sinker).
use numaflow_python.Base.{Bool, Option, none, some, [], if◌then◌else◌}
use numaflow_python.Base.Text.{Str, str, str_eq}
use numaflow_python.Servers.Starting.{Arguments}

abbrev pub env_ud_container_type : Str
env_ud_container_type = str "NUMAFLOW_UD_CONTAINER_TYPE"

abbrev pub ud_container_fallback_sink : Str
ud_container_fallback_sink = str "fb-udsink"

abbrev pub fallback_sink_sock_path : Str
fallback_sink_sock_path = str "/var/run/numaflow/fb-sink.sock"

abbrev pub fallback_sink_server_info_file_path : Str
fallback_sink_server_info_file_path = str "/var/run/numaflow/fb-sinker-server-info"

abbrev or_empty : Option Str → Str
or_empty none = []
or_empty (some s) = s

abbrev pub is_fallback : (Str → Option Str) → Bool
is_fallback getenv = str_eq (or_empty (getenv env_ud_container_type)) ud_container_fallback_sink

unfoldable pub fallback_arguments : (Str → Option Str) → Arguments → Arguments
fallback_arguments getenv args =
    if is_fallback getenv
    then record args {
      sock_path = fallback_sink_sock_path;
      server_info_file = fallback_sink_server_info_file_path;
    }
    else args
