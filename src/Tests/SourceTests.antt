-- ===== src/Tests/SourceTests.antt =====
-- The sourcer.
use numaflow_python.Base.{◌≡◌, refl, Bool, true, false, List, [], ◌∷◌, ◌++◌, flat_map, map}
use numaflow_python.Base.Text.{str, pos}
use numaflow_python.Shared.Server.{Exception, Result, ok, raised, returned, failed}
use numaflow_python.Source.{
  Message, Offset, ReadMessage, ReadResponse, AckMessage, AckResponse, finished, crashed, ReadRun,
  SourceCallable, on_error, create_read_response, read_fn, ack_fn,
}
use numaflow_python.Source.Replies.{
  no_read, one_read, no_ack, one_ack, read_replies, ack_replies, read_fn_serves, read_fn_raises,
  ack_fn_serves, ack_fn_raises,
}
use numaflow_python.Tests.Fixtures.{pb}

abbrev origin : Offset
origin = record { offset = str "0"; partition_id = pos 0 }

abbrev entry : Message
entry = record { payload = str "v"; offset = origin; event_time = 7000; keys = []; headers = [] }

abbrev oops : Exception
oops = record { repr = str "E()" }

-- A source with one message, which is acknowledged at most once.
abbrev read_once : List Message → ReadRun × List Message
read_once [] = (record { output = []; finish = crashed oops }, [])
read_once (m ∷ ms) = (record { output = m ∷ []; finish = finished }, ms)

abbrev ack_once : List Message → Result (Unit {0}) × List Message
ack_once [] = (raised oops, [])
ack_once (m ∷ ms) = (ok tt, ms)

abbrev source : SourceCallable (List Message)
source = record {
  read_handler = λ s _. read_once s;
  ack_handler = λ s _. ack_once s;
  nack_handler = λ s _. (ok tt, entry ∷ s);
  pending_handler = λ s. (ok (pos 1), s);
  partitions_handler = λ s. (ok (pos 0 ∷ []), s);
}

abbrev read_message : Bool → ReadMessage
read_message sot = record { request = record { num_records = 1; timeout_in_ms = 1000 }; sot = sot }

abbrev ack_message : Bool → AckMessage
ack_message sot = record { offsets = origin ∷ []; sot = sot }

read_fn_serves_example :
    read_fn pb (str "udsource") source (entry ∷ []) (read_message true ∷ read_message false ∷ [])
    ≡ record {
      sent =
          ReadResponse.handshake_response
          ∷ flat_map (read_replies pb (str "udsource") source) ((entry ∷ []) ∷ []);
      outcome = returned;
    }
read_fn_serves_example =
    read_fn_serves pb (str "udsource") source (read_message true) (read_message false ∷ [])
      ((entry ∷ []) ∷ []) refl (one_read refl no_read)

read_fn_raises_example :
    read_fn pb
      (str "udsource")
      source
      (entry ∷ [])
      (read_message true ∷ read_message false ∷ read_message false ∷ [])
    ≡ record {
      sent =
          ReadResponse.handshake_response
            ∷ flat_map (read_replies pb (str "udsource") source) ((entry ∷ []) ∷ [])
          ++ map (create_read_response pb (str "udsource")) [];
      outcome = failed (on_error pb (str "udsource") oops);
    }
read_fn_raises_example =
    read_fn_raises pb (str "udsource") source (read_message true) (read_message false ∷ [])
      ((entry ∷ []) ∷ []) (read_message false) [] oops [] refl (one_read refl no_read) refl

ack_fn_serves_example :
    ack_fn pb (str "udsource") source (entry ∷ []) (ack_message true ∷ ack_message false ∷ []) ≡ (
      record {
        sent =
            AckResponse.handshake_response
            ∷ ack_replies pb (str "udsource") source (ack_message false ∷ []);
        outcome = returned;
      },
      [],
    )
ack_fn_serves_example =
    ack_fn_serves pb (str "udsource") source (ack_message true) (ack_message false ∷ []) refl
      (one_ack refl no_ack)

ack_fn_raises_example :
    ack_fn pb
      (str "udsource")
      source
      (entry ∷ [])
      (ack_message true ∷ ack_message false ∷ ack_message false ∷ [])
    ≡ (
      record {
        sent =
            AckResponse.handshake_response
            ∷ ack_replies pb (str "udsource") source (ack_message false ∷ []);
        outcome = failed (on_error pb (str "udsource") oops);
      },
      [],
    )
ack_fn_raises_example =
    ack_fn_raises pb (str "udsource") source (ack_message true) (ack_message false ∷ [])
      (ack_message false) oops [] refl (one_ack refl no_ack) refl
