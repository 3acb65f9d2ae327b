-- ===== src/Shared/Proto.antt =====
-- What the servicers take from the protobuf messages, and the data that they hand to the user's code
-- (mapper/_dtypes.py, reducer/_dtypes.py and their copies in the other packages).
use numaflow_python.Base.{ℕ, List, [], ◌∷◌, Option, none, some}
use numaflow_python.Base.Text.{Str, Bytes, ℤ, str}
use numaflow_python.Base.Dict.{Dict}

-- A naive `datetime`: the microseconds since `datetime.min`.
abbrev pub DateTime : Type 0
DateTime = ℕ

-- `google.protobuf.Timestamp` with the conversions that the code calls.
pub record Protobuf : Type 1 where
  pub Timestamp : Type 0
  pub to_milliseconds : Timestamp → ℤ
  pub to_datetime : Timestamp → DateTime
  pub from_datetime : DateTime → Timestamp

pub record Datum : Type 0 where
  pub keys : List Str
  pub value : Bytes
  pub event_time : DateTime
  pub watermark : DateTime
  pub headers : Dict Str

pub record Message : Type 0 where
  pub value : Bytes
  pub keys : List Str
  pub tags : List Str

abbrev or_empty {ℓ} : {A : Type ℓ} → Option (List A) → List A
or_empty none = []
or_empty (some xs) = xs

-- `Message(value, keys, tags)`; `None` for what is left out
unfoldable pub message : Option Bytes → Option (List Str) → Option (List Str) → Message
message value keys tags = record {
  value = or_empty value;
  keys = or_empty keys;
  tags = or_empty tags;
}

abbrev pub drop : Str
drop = str "U+005C__DROP__"

unfoldable pub to_drop : Message
unfolding message
to_drop = message (some []) none (some (drop ∷ []))

-- The part of a request message that becomes a `Datum`.
pub record Payload (pb : Protobuf) : Type 0 where
  pub keys : List Str
  pub value : Bytes
  pub event_time : pb.Timestamp
  pub watermark : pb.Timestamp
  pub headers : Dict Str

module _ (pb : Protobuf) where
  unfoldable pub datum_of : Payload pb → Datum
  datum_of p = record {
    keys = p.keys;
    value = p.value;
    event_time = pb.to_datetime p.event_time;
    watermark = pb.to_datetime p.watermark;
    headers = p.headers;
  }
