-- ===== src/Source.antt =====
-- The sourcer (packages/pynumaflow/pynumaflow/sourcer). The user's source is an object: each call of a
-- handler takes its state and gives the next. An rpc is modelled with no other rpc on the source in
-- between.
pub mod Server
pub mod Replies
use numaflow_python.Base.{
  ℕ, Bool, true, false, Option, none, some, List, [], ◌∷◌, ◌++◌, map, if◌then◌else◌,
}
use numaflow_python.Base.Text.{Str, Bytes, ℤ, str}
use numaflow_python.Base.Dict.{Dict}
use numaflow_python.Shared.Queue.{Queue, Item, item, stream_eof, read_iterator}
use numaflow_python.Shared.Server.{
  Exception, Result, ok, raised, Effect, stop_iteration, err_udf_exception_string,
  handle_async_error, Rpc, send, return, fail, block,
}
use numaflow_python.Shared.Proto.{Protobuf, DateTime}

pub record Offset : Type 0 where
  pub offset : Bytes
  pub partition_id : ℤ

-- `sourcer.Message`
pub record Message : Type 0 where
  pub payload : Bytes
  pub offset : Offset
  pub event_time : DateTime
  pub keys : List Str
  pub headers : Dict Str

pub record ReadRequest : Type 0 where
  pub num_records : ℕ
  pub timeout_in_ms : ℕ

-- `source_pb2.ReadRequest`: the request and `handshake.sot`
pub record ReadMessage : Type 0 where
  pub request : ReadRequest
  pub sot : Bool

-- `source_pb2.AckRequest`: the offsets and `handshake.sot`
pub record AckMessage : Type 0 where
  pub offsets : List Offset
  pub sot : Bool

-- `ReadResponse.Result`
pub record ReadResult (pb : Protobuf) : Type 0 where
  pub payload : Bytes
  pub keys : List Str
  pub offset : Offset
  pub event_time : pb.Timestamp
  pub headers : Dict Str

pub data ReadResponse (pb : Protobuf) : Type 0 where
  handshake_response : ReadResponse pb
  read_response : ReadResult pb → ReadResponse pb
  eot_response : ReadResponse pb

pub data AckResponse : Type 0 where
  handshake_response : AckResponse
  ack_response : AckResponse

-- How a call of `read_handler` ends, if it does.
pub data Finish : Type 0 where
  finished : Finish
  crashed : Exception → Finish
  unfinished : Finish

-- What a call of `read_handler` puts into its output.
pub record ReadRun : Type 0 where
  pub output : List Message
  pub finish : Finish

-- `Sourcer`
pub record SourceCallable (S : Type 0) : Type 0 where
  pub read_handler : S → ReadRequest → ReadRun × S
  pub ack_handler : S → List Offset → Result (Unit {0}) × S
  pub nack_handler : S → List Offset → Result (Unit {0}) × S
  pub pending_handler : S → Result ℤ × S
  pub partitions_handler : S → Result (List ℤ) × S

after_output : Finish → Queue (Result Message)
after_output finished = stream_eof ∷ []
after_output (crashed err) = item (raised err) ∷ []
after_output unfinished = []

-- The queue of one read.
unfoldable pub invoke_read : ReadRun → Queue (Result Message)
unfolding after_output
invoke_read run = map (λ msg. item (ok msg)) run.output ++ after_output run.finish

module _ (pb : Protobuf) (container_type : Str) where
  unfoldable pub on_error : Exception → List Effect
  unfolding handle_async_error
  on_error err = handle_async_error err (err_udf_exception_string container_type)

  unfoldable pub create_read_response : Message → ReadResponse pb
  create_read_response response = read_response (record {
    payload = response.payload;
    keys = response.keys;
    offset = response.offset;
    event_time = pb.from_datetime response.event_time;
    headers = response.headers;
  })

  -- The loop over what one read yields; after its end comes the end of transmission, and the rest.
  unfoldable pub stream_read :
      List (Result Message) → Bool → Rpc (ReadResponse pb) → Rpc (ReadResponse pb)
  stream_read [] true after = send (eot_response ∷ []) after
  stream_read [] false after = block
  stream_read (ok resp ∷ rest) ended after =
      send (create_read_response resp ∷ []) (stream_read rest ended after)
  stream_read (raised err ∷ rest) ended after = fail (on_error err)

  module _ {S : Type 0} (source : SourceCallable S) where
    unfoldable pub read_loop : S → List ReadMessage → Rpc (ReadResponse pb)
    unfolding stream_read
    read_loop s [] = return
    read_loop s (req ∷ reqs) =
        let (run, s') = source.read_handler s req.request in
        let r = read_iterator (invoke_read run) in stream_read r.yielded r.ended (read_loop s' reqs)

    unfoldable pub read_fn : S → List ReadMessage → Rpc (ReadResponse pb)
    unfolding read_loop
    read_fn s [] = fail (on_error (stop_iteration (str "StopAsyncIteration")))
    read_fn s (req ∷ request_iterator) =
        if req.sot
        then send (handshake_response ∷ []) (read_loop s request_iterator)
        else fail
            (on_error (record { repr = str "Exception('ReadFn: expected handshake message')" }))

    -- What follows a call of `ack_handler`.
    after_ack : Result (Unit {0}) × S → (S → Rpc AckResponse × S) → Rpc AckResponse × S
    after_ack (ok _, s) next = let (after, s') = next s in (send (ack_response ∷ []) after, s')
    after_ack (raised err, s) next = (fail (on_error err), s)

    -- With the state of the source after the calls of `ack_handler`.
    unfoldable pub ack_loop : S → List AckMessage → Rpc AckResponse × S
    unfolding after_ack
    ack_loop s [] = (return, s)
    ack_loop s (req ∷ reqs) = after_ack (source.ack_handler s req.offsets) (λ t. ack_loop t reqs)

    unfoldable pub ack_fn : S → List AckMessage → Rpc AckResponse × S
    unfolding ack_loop
    ack_fn s [] = (fail (on_error (stop_iteration (str "StopAsyncIteration"))), s)
    ack_fn s (req ∷ request_iterator) =
        if req.sot
        then (let (rest, s') = ack_loop s request_iterator in
            (send (handshake_response ∷ []) rest, s'))
        else (
          fail (on_error (record { repr = str "Exception('AckFn: expected handshake message')" })),
          s,
        )

    unary_fn : {A : Type 0} → Result A × S → Rpc A × S
    unary_fn (ok response, s) = (send (response ∷ []) return, s)
    unary_fn (raised err, s) = (fail (on_error err), s)

    unfoldable pub nack_fn : S → List Offset → Rpc (Unit {0}) × S
    unfolding unary_fn
    nack_fn s offsets = unary_fn (source.nack_handler s offsets)

    unfoldable pub pending_fn : S → Rpc ℤ × S
    unfolding unary_fn
    pending_fn s = unary_fn (source.pending_handler s)

    unfoldable pub partitions_fn : S → Rpc (List ℤ) × S
    unfolding unary_fn
    partitions_fn s = unary_fn (source.partitions_handler s)
