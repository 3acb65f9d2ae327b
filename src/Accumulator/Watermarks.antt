-- ===== src/Accumulator/Watermarks.antt =====
-- accumulator/servicer/task_manager.py, `write_to_global_queue`: the responses for one task. The end of
-- each window is the latest watermark of the task's messages so far.
pub mod Latest
use numaflow_python.Base.{
  Bool, true, false, Option, none, some, List, [], ◌∷◌, ◌++◌, map, if◌then◌else◌, ltb,
}
use numaflow_python.Base.Text.{Str, Bytes, str}
use numaflow_python.Base.Dict.{Dict}
use numaflow_python.Shared.Queue.{Queue, read_iterator}
use numaflow_python.Shared.Proto.{Protobuf, DateTime}

-- `accumulator.Message`
pub record Message : Type 0 where
  pub value : Bytes
  pub keys : List Str
  pub tags : List Str
  pub watermark : Option DateTime
  pub event_time : Option DateTime
  pub headers : Dict Str
  pub id : Str

pub record KeyedWindow (pb : Protobuf) : Type 0 where
  pub start : pb.Timestamp
  pub end : pb.Timestamp
  pub slot : Str
  pub keys : List Str

pub record Payload (pb : Protobuf) : Type 0 where
  pub keys : List Str
  pub value : Bytes
  pub event_time : pb.Timestamp
  pub watermark : pb.Timestamp
  pub headers : Dict Str
  pub id : Str

-- `AccumulatorResponse`, with a result or with `EOF=True`
pub data Response (pb : Protobuf) : Type 0 where
  result : Payload pb → KeyedWindow pb → List Str → Response pb
  eof : KeyedWindow pb → Response pb

-- `if msg.watermark is not None and wm < msg.watermark: wm = msg.watermark`
unfoldable pub update_watermark : DateTime → Option DateTime → DateTime
update_watermark wm none = wm
update_watermark wm (some w) = if ltb wm w then w else wm

-- `timestamp_pb2.Timestamp()`, `datetime.fromtimestamp(0)`, and the keys of the task
module _ (pb : Protobuf) (unset : pb.Timestamp) (epoch : DateTime) (keys : List Str) where
  unfoldable pub timestamp_of : Option DateTime → pb.Timestamp
  timestamp_of none = unset
  timestamp_of (some t) = pb.from_datetime t

  unfoldable pub window_until : DateTime → KeyedWindow pb
  window_until wm = record {
    start = pb.from_datetime epoch;
    end = pb.from_datetime wm;
    slot = str "slot-0";
    keys = keys;
  }

  unfoldable pub response_of : Message → DateTime → Response pb
  unfolding timestamp_of window_until
  response_of msg wm =
      result
        (record {
          keys = msg.keys;
          value = msg.value;
          event_time = timestamp_of msg.event_time;
          watermark = timestamp_of msg.watermark;
          headers = msg.headers;
          id = msg.id;
        })
        (window_until wm) msg.tags

  -- What is written, and `latest_watermark` of the task afterwards.
  unfoldable pub write : DateTime → List Message → Bool → List (Response pb) × DateTime
  unfolding window_until response_of update_watermark
  write wm [] true = (eof (window_until wm) ∷ [], wm)
  write wm [] false = ([], wm)
  write wm (msg ∷ msgs) done =
      let wm' = update_watermark wm msg.watermark in
      let (responses, latest) = write wm' msgs done in (response_of msg wm' ∷ responses, latest)

  unfoldable pub write_to_global_queue : DateTime → Queue Message → List (Response pb) × DateTime
  unfolding write
  write_to_global_queue latest_watermark input_queue =
      let r = read_iterator input_queue in write latest_watermark r.yielded r.ended
