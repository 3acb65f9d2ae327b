-- ===== src/Tests/BatchTests.antt =====
-- The sinker and the batch mapper.
use numaflow_python.Base.{
  ◌≡◌, refl, Bool, true, false, none, some, List, [], ◌∷◌, map, flat_map, if◌then◌else◌,
}
use numaflow_python.Base.Text.{str}
use numaflow_python.Shared.Server.{Exception, ok, raised, returned, failed, blocked}
use numaflow_python.Shared.MapProto.{MapRequest, handshake_response}
use numaflow_python.Shared.Batches.{BatchHandler, Batch}
use numaflow_python.Sink.{
  SinkRequest, SinkResponse, Handler, Response, as_success, async_error, async_sink_fn,
  sync_sink_fn, sync_error, async_server, sync_server, datum_from_sink_req, build_sink_resp_results,
}
use numaflow_python.Sink
use numaflow_python.Sink.Replies.{
  Report, succeeded, failed_with, response_of, report_of, async_sink_fn_serves,
  async_sink_fn_raises, sync_sink_fn_blocks, report_of-build_sink_resp_results,
}
use numaflow_python.BatchMap
use numaflow_python.BatchMap.{BatchResponse, map_fn, batch_error, batch_server}
use numaflow_python.BatchMap.Replies.{map_fn_serves, map_fn_raises}
use numaflow_python.Tests.Fixtures.{pb, payload, note}

abbrev sink_request : Bool → Bool → SinkRequest pb
sink_request eot sot = record {
  keys = [];
  value = str "v";
  event_time = 7;
  watermark = 5;
  id = str "i";
  headers = [];
  eot = eot;
  sot = sot;
}

-- It reads its batch to the end and reports a success for each datum.
abbrev acknowledge : Handler
acknowledge r =
    if r.ended then some (ok (map (λ d. as_success (Sink.Datum.sink_msg_id d)) r.yielded)) else none

abbrev async_batch : Batch (async_server pb (str "udf") acknowledge)
async_batch = record {
  body = sink_request false false ∷ [];
  terminator = sink_request true false;
  no_eot = (refl, tt);
  is_eot = refl;
}

async_sink_fn_serves_example :
    async_sink_fn pb (str "udf") acknowledge (
      sink_request false true
      ∷ sink_request false false
      ∷ sink_request true false
      ∷ sink_request false false
      ∷ [])
    ≡ record {
      sent =
          Sink.SinkResponse.handshake_response
          ∷ flat_map (Sink.Replies.answers pb (str "udf") acknowledge) (async_batch ∷ []);
      outcome = returned;
    }
async_sink_fn_serves_example =
    async_sink_fn_serves pb (str "udf") acknowledge (sink_request false true) (async_batch ∷ [])
      (sink_request false false ∷ []) refl (refl, tt) (record { value = _; succeeds = refl }, tt)

abbrev oops : Exception
oops = record { repr = str "E()" }

abbrev faulty : Handler
faulty r = some (raised oops)

abbrev faulty_batch : Batch (async_server pb (str "udf") faulty)
faulty_batch = record {
  body = sink_request false false ∷ [];
  terminator = sink_request true false;
  no_eot = (refl, tt);
  is_eot = refl;
}

async_sink_fn_raises_example :
    async_sink_fn pb
      (str "udf")
      faulty
      (sink_request false true ∷ sink_request false false ∷ sink_request true false ∷ [])
    ≡ record {
      sent = Sink.SinkResponse.handshake_response ∷ [];
      outcome = failed (async_error pb (str "udf") faulty oops);
    }
async_sink_fn_raises_example =
    async_sink_fn_raises pb (str "udf") faulty (sink_request false true) [] [] faulty_batch [] oops
      refl tt tt refl

sync_sink_fn_blocks_example :
    sync_sink_fn pb acknowledge (sink_request false true ∷ sink_request false false ∷ [])
    ≡ record { sent = Sink.SinkResponse.handshake_response ∷ []; outcome = blocked }
sync_sink_fn_blocks_example =
    sync_sink_fn_blocks pb acknowledge (sink_request false true) (sink_request false false) [] []
      refl (refl, tt) tt refl

abbrev reports : List Report
reports = succeeded (str "1") ∷ failed_with (str "2") (str "disk full") ∷ []

report_of-build_sink_resp_results_example :
    map report_of (build_sink_resp_results (map response_of reports)) ≡ reports
report_of-build_sink_resp_results_example = report_of-build_sink_resp_results reports

abbrev map_request : Bool → Bool → MapRequest pb
map_request eot sot = record { payload = payload []; id = str "i"; eot = eot; sot = sot }

abbrev Batches : Type 0
Batches = BatchHandler BatchMap.Datum (List BatchResponse)

abbrev echo : Batches
echo r =
    if r.ended
    then some (ok (map (λ d. record { id = BatchMap.Datum.id d; messages = note ∷ [] }) r.yielded))
    else none

abbrev map_batch : Batch (batch_server pb (str "udf") echo)
map_batch = record {
  body = map_request false false ∷ [];
  terminator = map_request true false;
  no_eot = (refl, tt);
  is_eot = refl;
}

map_fn_serves_example :
    map_fn pb
      (str "udf")
      echo
      (map_request false true ∷ map_request false false ∷ map_request true false ∷ [])
    ≡ record {
      sent =
          handshake_response
          ∷ flat_map (BatchMap.Replies.answers pb (str "udf") echo) (map_batch ∷ []);
      outcome = returned;
    }
map_fn_serves_example =
    map_fn_serves pb (str "udf") echo (map_request false true) (map_batch ∷ []) [] refl tt
      (record { value = _; succeeds = refl }, tt)

abbrev broken : Batches
broken r = some (raised oops)

abbrev broken_batch : Batch (batch_server pb (str "udf") broken)
broken_batch = record {
  body = map_request false false ∷ [];
  terminator = map_request true false;
  no_eot = (refl, tt);
  is_eot = refl;
}

map_fn_raises_example :
    map_fn pb
      (str "udf")
      broken
      (map_request false true ∷ map_request false false ∷ map_request true false ∷ [])
    ≡ record {
      sent = handshake_response ∷ [];
      outcome = failed (batch_error pb (str "udf") broken oops);
    }
map_fn_raises_example =
    map_fn_raises pb (str "udf") broken (map_request false true) [] [] broken_batch [] oops refl tt
      tt refl
