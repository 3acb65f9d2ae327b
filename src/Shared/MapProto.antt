-- ===== src/Shared/MapProto.antt =====
-- The messages of proto/mapper/map.proto, which the mappers in their three modes exchange.
use numaflow_python.Base.{Bool, List}
use numaflow_python.Base.Text.{Str}
use numaflow_python.Shared.Proto.{Protobuf, Payload, Message}

-- `MapRequest`: the request, the id, `status.eot` and `handshake.sot`
pub record MapRequest (pb : Protobuf) : Type 0 where
  pub payload : Payload pb
  pub id : Str
  pub eot : Bool
  pub sot : Bool

-- `MapResponse`: a handshake; the results for an id; an end of transmission, with the id that it is for
-- or the empty one
pub data MapResponse : Type 0 where
  handshake_response : MapResponse
  results_response : Str → List Message → MapResponse
  eot_response : Str → MapResponse
