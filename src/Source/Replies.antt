-- ===== src/Source/Replies.antt =====
-- What the source servicer sends, request by request, and how the rpcs end.
use mathlib.Core.List.{append_assoc, append-nil}
use numaflow_python.Base.{
  ◌≡◌, refl, sym, ap, ◌∙◌, Bool, true, false, List, [], ◌∷◌, ◌++◌, map, flat_map,
}
use numaflow_python.Base.Text.{Str, str}
use numaflow_python.Shared.Queue.{read_iterator}
use numaflow_python.Shared.Server.{
  Exception, ok, raised, stop_iteration, Rpc, send, returned, failed, fail,
}
use numaflow_python.Shared.Proto.{Protobuf}
use numaflow_python.Source.{
  Message, ReadMessage, ReadResponse, eot_response, AckMessage, AckResponse, ack_response, finished,
  crashed, SourceCallable, invoke_read, on_error, create_read_response, stream_read, read_loop,
  read_fn, ack_loop, ack_fn,
}

read_iterator-output :
    (msgs : List Message)
    → (read_iterator (invoke_read (record { output = msgs; finish = finished }))
        ≡ record { yielded = map ok msgs; ended = true })
      × ((err : Exception)
          → read_iterator (invoke_read (record { output = msgs; finish = crashed err }))
            ≡ record { yielded = map ok msgs ++ raised err ∷ []; ended = false })
unfolding invoke_read read_iterator
read_iterator-output [] = (refl, λ err. refl)
read_iterator-output (m ∷ msgs) =
    let (p, q) = read_iterator-output msgs in (rw p, λ err. rw (q err))

module _ (pb : Protobuf) (container_type : Str) {S : Type 0} (source : SourceCallable S) where
  -- The calls of `read_handler` for the requests, from one state of the source to another, each ends
  -- and has put these messages.
  pub data Reads : S → List ReadMessage → List (List Message) → S → Type 0 where
    no_read : {s : S} → Reads s [] [] s
    one_read :
        {s t u : S} {req : ReadMessage} {reqs : List ReadMessage} {msgs : List Message}
        {batches : List (List Message)}
        → source.read_handler s req.request ≡ (record { output = msgs; finish = finished }, t)
        → Reads t reqs batches u
        → Reads s (req ∷ reqs) (msgs ∷ batches) u

  -- The calls of `ack_handler` for the requests return.
  pub data Acks : S → List AckMessage → S → Type 0 where
    no_ack : {s : S} → Acks s [] s
    one_ack :
        {s t u : S} {req : AckMessage} {reqs : List AckMessage}
        → source.ack_handler s req.offsets ≡ (ok tt, t)
        → Acks t reqs u
        → Acks s (req ∷ reqs) u

  -- The responses to a read: its messages and an end of transmission.
  abbrev pub read_replies : List Message → List (ReadResponse pb)
  read_replies msgs = map (create_read_response pb container_type) msgs ++ eot_response ∷ []

  stream_read-ok :
      (msgs : List Message) (after : Rpc (ReadResponse pb))
      → (stream_read pb container_type (map ok msgs) true after ≡ send (read_replies msgs) after)
        × ((err : Exception) (ended : Bool)
            → stream_read pb container_type (map ok msgs ++ raised err ∷ []) ended after ≡ record {
              sent = map (create_read_response pb container_type) msgs;
              outcome = failed (on_error pb container_type err);
            })
  unfolding stream_read
  stream_read-ok [] after = (refl, λ err ended. refl)
  stream_read-ok (m ∷ msgs) after =
      let (p, q) = stream_read-ok msgs after in (rw p, λ err ended. rw (q err ended))

  -- The rest of the loop goes on where the reads that end have left the source.
  read_loop-Reads :
      {s t : S} {reqs : List ReadMessage} {batches : List (List Message)} (rest : List ReadMessage)
      → Reads s reqs batches t
      → read_loop pb container_type source s (reqs ++ rest)
        ≡ send (flat_map read_replies batches) (read_loop pb container_type source t rest)
  unfolding read_loop
  read_loop-Reads rest no_read = refl
  read_loop-Reads rest (one_read {reqs = reqs} {msgs = msgs} {batches = batches} e h) =
      rw
        (
          e,
          (read_iterator-output msgs).0,
          (stream_read-ok msgs _).0,
          read_loop-Reads rest h,
          append_assoc (read_replies msgs) (flat_map read_replies batches) _,
        )
        refl

  -- After a handshake, if each call of `read_handler` ends, one call for each request and in their
  -- order on the state that the last one left, then the rpc returns, and has sent the handshake and,
  -- for each request, the messages of its call in order and an end of transmission.
  pub read_fn_serves :
      {s t : S} (req : ReadMessage) (reqs : List ReadMessage) (batches : List (List Message))
      → req.sot ≡ true
      → Reads s reqs batches t
      → read_fn pb container_type source s (req ∷ reqs) ≡ record {
        sent = ReadResponse.handshake_response ∷ flat_map read_replies batches;
        outcome = returned;
      }
  unfolding read_fn read_loop
  read_fn_serves req reqs batches sot h =
      let e = read_loop-Reads [] h in rw (sot, ← append-nil reqs, e, append-nil) refl

  -- If a call of `read_handler` raises, after calls that end, then the messages that it has put before
  -- are sent too, no end of transmission follows them, and the rpc fails with its error; the requests
  -- after it have no effect.
  pub read_fn_raises :
      {s t u : S} (req : ReadMessage) (reqs : List ReadMessage) (batches : List (List Message))
      (bad : ReadMessage) (msgs : List Message) (err : Exception) (rest : List ReadMessage)
      → req.sot ≡ true
      → Reads s reqs batches t
      → source.read_handler t bad.request ≡ (record { output = msgs; finish = crashed err }, u)
      → read_fn pb container_type source s (req ∷ reqs ++ bad ∷ rest) ≡ record {
        sent =
            ReadResponse.handshake_response ∷ flat_map read_replies batches
            ++ map (create_read_response pb container_type) msgs;
        outcome = failed (on_error pb container_type err);
      }
  unfolding read_fn read_loop
  read_fn_raises req reqs batches bad msgs err rest sot h e =
      rw
        (
          sot,
          read_loop-Reads (bad ∷ rest) h,
          e,
          (read_iterator-output msgs).1 err,
          (stream_read-ok msgs _).1 err false,
        )
        refl

  -- One response for each request.
  abbrev pub ack_replies : List AckMessage → List AckResponse
  ack_replies reqs = map (λ _. ack_response) reqs

  ack_loop-Acks :
      {s t : S} {reqs : List AckMessage} (rest : List AckMessage)
      → Acks s reqs t
      → ack_loop pb container_type source s (reqs ++ rest) ≡ (
        send (ack_replies reqs) (ack_loop pb container_type source t rest).0,
        (ack_loop pb container_type source t rest).1,
      )
  unfolding ack_loop
  ack_loop-Acks rest no_ack = refl
  ack_loop-Acks rest (one_ack e h) = rw (e, ack_loop-Acks rest h) refl

  -- After a handshake, if each call of `ack_handler` returns, one call for each request with its
  -- offsets, then the rpc returns, has sent the handshake and one response for each request, and
  -- leaves the source in the state of the last call.
  pub ack_fn_serves :
      {s t : S} (req : AckMessage) (reqs : List AckMessage)
      → req.sot ≡ true
      → Acks s reqs t
      → ack_fn pb container_type source s (req ∷ reqs) ≡ (
        record { sent = AckResponse.handshake_response ∷ ack_replies reqs; outcome = returned },
        t,
      )
  unfolding ack_fn ack_loop
  ack_fn_serves {s} req reqs sot h =
      rw
        (
          sot,
          sym (ap (λ l. ack_loop pb container_type source s l) (append-nil reqs))
              ∙ ack_loop-Acks [] h,
          append-nil,
        )
        refl

  -- If a call of `ack_handler` raises, after calls that return, then the rpc fails with its error after
  -- one response for each request before it; the offsets of the requests after it reach no handler.
  pub ack_fn_raises :
      {s t u : S} (req : AckMessage) (reqs : List AckMessage) (bad : AckMessage) (err : Exception)
      (rest : List AckMessage)
      → req.sot ≡ true
      → Acks s reqs t
      → source.ack_handler t bad.offsets ≡ (raised err, u)
      → ack_fn pb container_type source s (req ∷ reqs ++ bad ∷ rest) ≡ (
        record {
          sent = AckResponse.handshake_response ∷ ack_replies reqs;
          outcome = failed (on_error pb container_type err);
        },
        u,
      )
  unfolding ack_fn ack_loop
  ack_fn_raises req reqs bad err rest sot h e =
      rw (sot, ack_loop-Acks (bad ∷ rest) h, e, append-nil) refl

abbrev starts_with_read : List ReadMessage → Bool
starts_with_read [] = false
starts_with_read (r ∷ rs) = r.sot

abbrev starts_with_ack : List AckMessage → Bool
starts_with_ack [] = false
starts_with_ack (r ∷ rs) = r.sot

-- What is missing.
abbrev pub read_refusal : List ReadMessage → Exception
read_refusal [] = stop_iteration (str "StopAsyncIteration")
read_refusal (r ∷ rs) = record { repr = str "Exception('ReadFn: expected handshake message')" }

abbrev pub ack_refusal : List AckMessage → Exception
ack_refusal [] = stop_iteration (str "StopAsyncIteration")
ack_refusal (r ∷ rs) = record { repr = str "Exception('AckFn: expected handshake message')" }

-- Both streams need a handshake: if the stream is empty or its first request is no handshake, then
-- nothing is sent, the source stays as it is, and the rpc fails with an error that says which it was.
pub source_fn_needs_handshake :
    (pb : Protobuf) (container_type : Str) {S : Type 0} (source : SourceCallable S) (s : S)
    (reads : List ReadMessage) (acks : List AckMessage)
    → starts_with_read reads ≡ false
    → starts_with_ack acks ≡ false
    → (read_fn pb container_type source s reads
        ≡ fail (on_error pb container_type (read_refusal reads)))
      × (ack_fn pb container_type source s acks
          ≡ (fail (on_error pb container_type (ack_refusal acks)), s))
unfolding read_fn ack_fn
source_fn_needs_handshake pb container_type source s [] [] h k = (refl, refl)
source_fn_needs_handshake pb container_type source s [] (a ∷ acks) h k = (refl, rw k refl)
source_fn_needs_handshake pb container_type source s (r ∷ reads) [] h k = (rw h refl, refl)
source_fn_needs_handshake pb container_type source s (r ∷ reads) (a ∷ acks) h k =
    (rw h refl, rw k refl)
