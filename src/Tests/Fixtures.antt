-- ===== src/Tests/Fixtures.antt =====
-- Values for what the code takes from elsewhere: timestamps are milliseconds.
use numaflow_python.Base.{◌≡◌, Bool, true, false, if◌then◌else◌, ℕ, ◌*◌, ◌/◌, List, []}
use numaflow_python.Base.Text.{Str, str, ℤ, pos, negsuc}
use numaflow_python.Shared.Streams.{Lane, over}
use numaflow_python.Shared.Proto.{Protobuf, Payload, DateTime, Message}

abbrev pub pb : Protobuf
pb = record {
  Timestamp = ℕ;
  to_milliseconds = λ t. pos t;
  to_datetime = λ t. t * 1000;
  from_datetime = λ d. d / 1000;
}

abbrev pub from_ms : ℤ → DateTime
from_ms (pos n) = n * 1000
from_ms (negsuc n) = 0

abbrev pub payload : List Str → Payload pb
payload keys = record { keys = keys; value = str "v"; event_time = 7; watermark = 5; headers = [] }

abbrev pub note : Message
note = record { value = str "n"; keys = []; tags = [] }

-- The lane of the one name of a schedule.
pub if_over :
    {Out : Type 0} (b : Bool) (l m : Lane Out)
    → b ≡ true
    → l.phase ≡ over
    → (if b then l else m).phase ≡ over
if_over true l m e p = p
if_over false l m e p = cc
