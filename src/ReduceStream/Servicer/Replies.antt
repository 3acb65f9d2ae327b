-- ===== src/ReduceStream/Servicer/Replies.antt =====
-- What `ReduceFn` sends, in every schedule of its tasks.
use mathlib.Core.Bool.{false≢true}
use numaflow_python.Base.{
  ◌≡◌, refl, sym, ap, ◌∙◌, ◌⊎◌, inl, inr, true, false, List, [], ◌∷◌, ◌++◌, map, flat_map,
  flat_map-eq, arith, Bool-cases,
}
use numaflow_python.Base.Text.{Str, ℤ}
use numaflow_python.Shared.Queue.{Read, item, read_iterator-items}
use numaflow_python.Shared.Server.{Exception, Result, ok, raised, Rpc, returned}
use numaflow_python.Shared.Proto.{Protobuf, Datum, DateTime, Message}
use numaflow_python.Shared.Streams.{Command, Session, Produced, State, Run, start, untag}
use numaflow_python.Shared.Workers.{consume}
use numaflow_python.Shared.Streams.Completes.{Run-completes}
use numaflow_python.Shared.Streams.Reference.{IsClean, sessions}
use numaflow_python.Shared.Streams.Causality.{IsCausal, Returns, results}
use numaflow_python.Shared.Streams.Invariant.{from_task}
use numaflow_python.Shared.Streams.Serving.{after, untagged, StreamFn-Delivers}
use numaflow_python.Reduce.Keys.{Window}
use numaflow_python.Reduce.TaskManager.{Request, TaskManager, init}
use numaflow_python.Reduce.Servicer.{Metadata, ReduceRequest, Response, result, datum_generator}
use numaflow_python.Reduce.Servicer.Routing.{is_data, is_bad, has_bad}
use numaflow_python.ReduceStream.{on_request, process, write_all, write_to_global_queue}
use numaflow_python.ReduceStream.Servicer.{
  Info, Handler, new_instance, on_error, turn, placed, command, manager, window_ends, metadata,
  invoke_reduce, ReduceFn,
}
use numaflow_python.ReduceStream.Servicer.Laws.{laws}

-- The handler, as a function of what it is started with.
abbrev pub calls : Handler → List Str × Metadata → Read Datum → Produced Message
calls handler (keys, md) r = new_instance handler keys md r

Result-cases :
    {A : Type 0} (o : Result A) → ((a : A) × (o ≡ ok a)) ⊎ ((e : Exception) × (o ≡ raised e))
Result-cases (ok a) = inl (a, refl)
Result-cases (raised e) = inr (e, refl)

module _ {pb : Protobuf} where
  write_all-map :
      (w : Window pb) (msgs : List Message) → write_all w msgs ≡ map (λ msg. result msg w) msgs
  unfolding write_all
  write_all-map w [] = refl
  write_all-map w (msg ∷ msgs) = ap (λ l. result msg w ∷ l) (write_all-map w msgs)

  write-items :
      (w : Window pb) (msgs : List Message)
      → write_to_global_queue (map item msgs) w ≡ map (λ msg. result msg w) msgs
  unfolding write_to_global_queue
  write-items w msgs =
      ap (λ r. write_all w r.yielded) (read_iterator-items msgs []).1 ∙ write_all-map w msgs

  map-grown :
      (w : Window pb) (now before rest : List Message)
      → now ≡ before ++ rest
      → map (λ msg. result msg w) now
        ≡ map (λ msg. result msg w) before ++ map (λ msg. result msg w) rest
  map-grown w now [] rest h = ap (map (λ msg. result msg w)) h
  map-grown w now (m ∷ before) rest h =
      ap (map (λ msg. result msg w)) h
      ∙ ap (λ l. result m w ∷ l) (map-grown w (before ++ rest) before rest refl)

  placed-IsClean :
      (past : List (Command (Info pb) Datum)) (r : Request pb) (ws : List (Window pb))
      (rest : List (Request pb))
      → is_data r ≡ true
      → r.windows ≡ ws
      → is_bad r ≡ false
      → IsClean (past ++ placed r ws ∷ []) (map command rest)
      → IsClean past (placed r ws ∷ map command rest)
  placed-IsClean past r [] rest d e b h = absurd (false≢true (ground arith))
  placed-IsClean past r (w ∷ []) rest d e b h = (tt, h)
  placed-IsClean past r (v ∷ w ∷ ws) rest d e b h = absurd (false≢true (ground arith))

  -- Requests with one window each are not refused.
  commands-IsClean :
      (past : List (Command (Info pb) Datum)) (reqs : List (Request pb))
      → has_bad reqs ≡ false
      → IsClean past (map command reqs)
  commands-IsClean past [] h = tt
  commands-IsClean past (r ∷ rs) h = elim (Bool-cases (is_data r)) [
    | inl d ↦ rw d (
        placed-IsClean past r r.windows rs d refl (ground arith)
          (commands-IsClean (past ++ placed r r.windows ∷ []) rs (ground arith)))
    | inr d ↦ rw d (tt, commands-IsClean (past ++ Command.skip ∷ []) rs (ground arith))
  ]

  after-eq-process :
      (tm : TaskManager pb) (reqs : List (Request pb))
      → after (manager pb) tm reqs ≡ (process tm reqs).0
  unfolding after process turn
  after-eq-process tm [] = refl
  after-eq-process tm (r ∷ rs) = elim (Result-cases (on_request tm r)) [
    | inl (tm', e) ↦ rw (e, after, process, turn) (after-eq-process tm' rs)
    | inr (x, e) ↦ rw (e, after, process, turn) refl
  ]

  module _ (from_ms : ℤ → DateTime) (handler : Handler) where
    abbrev pub work : Info pb → Read Datum → Produced (Response pb)
    work i r = invoke_reduce from_ms handler i r

    -- The results of the handler on the datums of a task, each with the window of the task.
    abbrev pub replies : Session (Info pb) Datum → List (Response pb)
    replies s =
        let (keys, window) = s.info in
        map (λ msg. result msg window)
          (new_instance handler keys (metadata from_ms window)
            (record { yielded = s.datums; ended = true })).output

    pub work-IsCausal : IsCausal (calls handler) → IsCausal work
    unfolding invoke_reduce
    work-IsCausal causal = record {
      keeps = λ i ds more e.
          let (keys, w) = i in
          let (rest, h) = causal.keeps (keys, metadata from_ms w) ds more e in
          (
            map (λ msg. result msg w) rest,
            write-items w _
                ∙ map-grown w _ _ rest h
                ∙ ap (λ l. l ++ map (λ msg. result msg w) rest) (sym (write-items w _)),
          );
      settles = λ i ds more e n.
          ap
            (λ p. record {
              output = write_to_global_queue (map item p.output) i.1;
              status = p.status;
            })
            (causal.settles (i.0, metadata from_ms i.1) ds more e n);
    }

    work-replies : (s : Session (Info pb) Datum) → results work s ≡ replies s
    unfolding invoke_reduce
    work-replies s = write-items s.info.1 _

    -- For a handler that more input never makes take back a result or change its mind once it has
    -- returned, and that returns at the end of its input: in every schedule of the tasks that has run
    -- until nothing is left to do, if every OPEN and APPEND has exactly one window, the rpc returns
    -- without an error; what it sends for the task of a name is the results of the handler on exactly
    -- the datums with that name, in the order of the requests and of the handler, each with the window;
    -- and after all results comes the end of each window of a task, once for each hash. How the names
    -- interleave depends on the schedule.
    pub ReduceFn-sends :
        (container_type : Str) (requests : List (ReduceRequest pb)) (rpc : Rpc (Response pb))
        → IsCausal (calls handler)
        → Returns (calls handler)
        → has_bad (datum_generator requests) ≡ false
        → ReduceFn from_ms handler container_type requests rpc
        → (entries : List (Str × Response pb)) × (rpc ≡ record {
          sent = untagged entries ++ window_ends (process init (datum_generator requests)).0;
          outcome = returned;
        })
          × ((k : Str)
              → from_task k entries
                ≡ flat_map replies (sessions k (map command (datum_generator requests))))
    unfolding invoke_reduce
    ReduceFn-sends container_type requests rpc causal returns good fn =
        let reqs = datum_generator requests in
        let d =
          StreamFn-Delivers (manager pb) laws work window_ends (work-IsCausal causal)
            (λ i ds. returns (i.0, metadata from_ms i.1) ds) (on_error container_type) reqs rpc
            (commands-IsClean [] reqs good) fn in
        (
          d.entries,
          d.sends
              ∙ ap
                  (λ tm. record { sent = untagged d.entries ++ window_ends tm; outcome = returned })
                  (after-eq-process init reqs),
          λ k. d.by_name k ∙ flat_map-eq _ _ work-replies (sessions k (map command reqs)),
        )

    -- For such a handler and such requests, every schedule that has begun can be brought to an end at
    -- which nothing is left to do: no choice of the event loop makes an answer impossible.
    pub ReduceFn-completes :
        (container_type : Str) (requests : List (ReduceRequest pb))
        (s : State (manager pb) (Response pb))
        → IsCausal (calls handler)
        → Returns (calls handler)
        → has_bad (datum_generator requests) ≡ false
        → Run
            (manager pb)
            work
            window_ends
            (start (manager pb) work window_ends (datum_generator requests))
            s
        → (t : State (manager pb) (Response pb)) × Run (manager pb) work window_ends s t
          × ReduceFn from_ms handler container_type requests
              (consume (on_error container_type) (untag t.queue))
    unfolding invoke_reduce
    ReduceFn-completes container_type requests s causal returns good run =
        Run-completes (manager pb) laws work window_ends (work-IsCausal causal)
          (λ i ds. returns (i.0, metadata from_ms i.1) ds) (on_error container_type)
          (datum_generator requests) s (commands-IsClean [] (datum_generator requests) good) run
