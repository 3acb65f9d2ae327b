-- ===== src/Shared/Batches.antt =====
-- The loop over a stream of batches, as in sinker/servicer/async_servicer.py, its synchronous form, and
-- batchmapper/servicer/async_servicer.py. They differ in the parameters of the section.
use mathlib.Core.List.{append_assoc, append-nil}
use numaflow_python.Base.{
  ◌≡◌, refl, sym, ap, ◌∙◌, Bool, true, false, Option, none, some, List, [], ◌∷◌, ◌++◌, map,
  if◌then◌else◌, All, flat_map,
}
use numaflow_python.Shared.Queue.{
  Queue, item, stream_eof, put, Read, read_iterator, read_iterator-items,
}
use numaflow_python.Shared.Server.{Exception, Result, ok, raised, Effect, Rpc, send, fail, block}

-- The user's handler of a batch: a function of what its iterator has yielded so far and whether it
-- has ended. `none`: the handler has not returned, and waits.
abbrev pub BatchHandler : Type 0 → Type 0 → Type 0
BatchHandler D R = Read D → Option (Result R)

-- `req_queue` of the task `cur_task`, or a new one
abbrev pub current {ℓ} : {D : Type ℓ} → Option (Queue D) → Queue D
current none = []
current (some q) = q

-- What a servicer of batches is built from.
pub record BatchServer : Type 1 where
  -- the requests, the datums, the handler's results and the responses
  pub Req : Type 0
  pub D : Type 0
  pub R : Type 0
  pub Resp : Type 0
  -- `d.status and d.status.eot`
  pub eot : Req → Bool
  pub datum : Req → D
  pub handler : BatchHandler D R
  -- what is sent for a result of the handler
  pub responses : R → List Resp
  pub on_error : Exception → List Effect
  -- what follows the end of the stream, with or without an unfinished batch
  pub at_end : Option (Queue D) → Rpc Resp

module _ (server : BatchServer) where
  open server use {Req, D, R, Resp, eot, datum, handler, responses, on_error, at_end}

  -- `await cur_task`, and what follows a result
  unfoldable pub finish : Option (Result R) → Rpc Resp → Rpc Resp
  finish none rest = block
  finish (some (ok r)) rest = send (responses r) rest
  finish (some (raised e)) rest = fail (on_error e)

  unfoldable pub batch_loop : Option (Queue D) → List Req → Rpc Resp
  unfolding finish
  batch_loop cur_task [] = at_end cur_task
  batch_loop cur_task (d ∷ ds) =
      let req_queue = current cur_task in
      let after_batch = batch_loop none ds in
      let in_batch = batch_loop (some (put req_queue (item (datum d)))) ds in
      if eot d
      then finish (handler (read_iterator (put req_queue stream_eof))) after_batch
      else in_batch

  -- The requests of a batch, and the one that ends it.
  pub record Batch : Type 0 where
    pub body : List Req
    pub terminator : Req
    pub no_eot : All (λ d. eot d ≡ false) body
    pub is_eot : eot terminator ≡ true

  abbrev pub stream : List Batch → List Req → List Req
  stream [] tail = tail
  stream (b ∷ bs) tail = b.body ++ b.terminator ∷ stream bs tail

  -- The queue of an unfinished batch.
  abbrev pub pending : List Req → Option (Queue D)
  pending [] = none
  pending (d ∷ ds) = some (map item (map datum (d ∷ ds)))

  -- The reference: each batch is one call of the handler, on all its datums.
  abbrev pub serve : List Batch → List Req → Rpc Resp
  serve [] tail = at_end (pending tail)
  serve (b ∷ bs) tail =
      finish (handler (record { yielded = map datum b.body; ended = true })) (serve bs tail)

  loop-body :
      (q : Option (Queue D)) (xs : List Req) (e : Req) (ds : List Req)
      → All (λ d. eot d ≡ false) xs
      → eot e ≡ true
      → batch_loop q (xs ++ e ∷ ds)
        ≡ finish
            (handler (read_iterator (current q ++ (map item (map datum xs) ++ stream_eof ∷ []))))
            (batch_loop none ds)
  unfolding batch_loop put
  loop-body q [] e ds h t = rw t
  loop-body q (x ∷ xs) e ds h t =
      rw h.0 (loop-body (some (current q ++ item (datum x) ∷ [])) xs e ds h.1 t ∙ rw append_assoc)

  loop-tail :
      (q : Queue D) (xs : List Req)
      → All (λ d. eot d ≡ false) xs
      → batch_loop (some q) xs ≡ at_end (some (q ++ map item (map datum xs)))
  unfolding batch_loop put
  loop-tail q [] h = rw append-nil
  loop-tail q (x ∷ xs) h = rw h.0 (loop-tail (q ++ item (datum x) ∷ []) xs h.1 ∙ rw append_assoc)

  loop-pending :
      (xs : List Req) → All (λ d. eot d ≡ false) xs → batch_loop none xs ≡ at_end (pending xs)
  unfolding batch_loop put
  loop-pending [] h = refl
  loop-pending (x ∷ xs) h = rw h.0 (loop-tail (item (datum x) ∷ []) xs h.1)

  -- The loop with its queue is the reference: batch after batch, then what is left at the end.
  pub batch_loop-eq-serve :
      (bs : List Batch) (tail : List Req)
      → All (λ d. eot d ≡ false) tail
      → batch_loop none (stream bs tail) ≡ serve bs tail
  batch_loop-eq-serve [] tail h = loop-pending tail h
  batch_loop-eq-serve (b ∷ bs) tail h =
      loop-body none b.body b.terminator (stream bs tail) b.no_eot b.is_eot
      ∙ rw ((read_iterator-items (map datum b.body) []).0, batch_loop-eq-serve bs tail h)

  abbrev cons_body : (d : Req) → eot d ≡ false → Batch → Batch
  cons_body d e b = record {
    body = d ∷ b.body;
    terminator = b.terminator;
    no_eot = (e, b.no_eot);
    is_eot = b.is_eot;
  }

  -- Every stream of requests is a sequence of batches and an unfinished rest.
  pub stream_total :
      (ds : List Req)
      → (bs : List Batch) × (tail : List Req) × All (λ d. eot d ≡ false) tail
        × (ds ≡ stream bs tail)
  stream_total [] = ([], [], tt, refl)
  stream_total (d ∷ ds) = let (bs, tail, h, e) = stream_total ds in extend (eot d) refl bs tail h e
    where
      extend :
          (b : Bool)
          → eot d ≡ b
          → (bs : List Batch) (tail : List Req) → All (λ d. eot d ≡ false) tail
          → ds ≡ stream bs tail
          → (cs : List Batch) × (rest : List Req) × All (λ d. eot d ≡ false) rest
            × (d ∷ ds ≡ stream cs rest)
      extend true t bs tail h e = (
        record { body = []; terminator = d; no_eot = tt; is_eot = t } ∷ bs,
        tail,
        h,
        ap (λ l. d ∷ l) e,
      )
      extend false t [] tail h e = ([], d ∷ tail, (t, h), ap (λ l. d ∷ l) e)
      extend false t (b ∷ bs) tail h e = (cons_body d t b ∷ bs, tail, h, ap (λ l. d ∷ l) e)

  -- What the handler makes of a batch.
  abbrev pub outcome_of : Batch → Option (Result R)
  outcome_of b = handler (record { yielded = map datum b.body; ended = true })

  abbrev reply : Option (Result R) → List Resp
  reply none = []
  reply (some (ok r)) = responses r
  reply (some (raised e)) = []

  abbrev pub replies : Batch → List Resp
  replies b = reply (outcome_of b)

  -- The handler returns a result for the batch.
  pub record Succeeds (b : Batch) : Type 0 where
    pub value : R
    pub succeeds : outcome_of b ≡ some (ok value)

  -- Another account of what is sent for a result gives the same replies.
  pub replies_agree :
      (answers : Option (Result R) → List Resp)
      → ((r : R) → responses r ≡ answers (some (ok r)))
      → (bs : List Batch) → All Succeeds bs
      → flat_map replies bs ≡ flat_map (λ b. answers (outcome_of b)) bs
  replies_agree answers same [] h = refl
  replies_agree answers same (b ∷ bs) h =
      rw ((h.0).succeeds, same (h.0).value, replies_agree answers same bs h.1)

  pub serve-Succeeds :
      (bs cs : List Batch) (tail : List Req)
      → All Succeeds bs
      → serve (bs ++ cs) tail ≡ send (flat_map replies bs) (serve cs tail)
  unfolding finish
  serve-Succeeds [] cs tail h = refl
  serve-Succeeds (b ∷ bs) cs tail h =
      rw ((h.0).succeeds, serve-Succeeds bs cs tail h.1, append_assoc (responses (h.0).value))

  pub serve-raised :
      (b : Batch) (cs : List Batch) (tail : List Req) (e : Exception)
      → outcome_of b ≡ some (raised e)
      → serve (b ∷ cs) tail ≡ fail (on_error e)
  unfolding finish
  serve-raised b cs tail e h = rw h

  -- The handler returns on every batch.
  pub batch_loop-Succeeds :
      (bs : List Batch) (tail : List Req)
      → All (λ d. eot d ≡ false) tail
      → All Succeeds bs
      → batch_loop none (stream bs tail) ≡ send (flat_map replies bs) (at_end (pending tail))
  batch_loop-Succeeds bs tail rest h =
      batch_loop-eq-serve bs tail rest
      ∙ ap (λ l. serve l tail) (sym (append-nil bs))
      ∙ serve-Succeeds bs [] tail h

  -- The handler raises on a batch, after batches on which it returns.
  pub batch_loop_raises :
      (bs cs : List Batch) (b : Batch) (tail : List Req) (e : Exception)
      → All (λ d. eot d ≡ false) tail
      → All Succeeds bs
      → outcome_of b ≡ some (raised e)
      → batch_loop none (stream (bs ++ b ∷ cs) tail)
        ≡ record { sent = flat_map replies bs; outcome = (fail {R = Resp} (on_error e)).outcome }
  batch_loop_raises bs cs b tail e rest h raises =
      batch_loop-eq-serve (bs ++ b ∷ cs) tail rest
      ∙ serve-Succeeds bs (b ∷ cs) tail h
      ∙ rw (serve-raised b cs tail e raises, append-nil)
