-- ===== src/Accumulator/Servicer/Replies.antt =====
-- What `AccumulateFn` sends, in every schedule of its tasks.
use mathlib.Core.List.{append-nil}
use numaflow_python.Base.{
  ◌≡◌, ◌≢◌, refl, sym, ap, ◌∙◌, Bool, true, false, List, [], ◌∷◌, ◌++◌, map, flat_map, flat_map-eq,
}
use numaflow_python.Base.Text.{Str}
use numaflow_python.Shared.Queue.{Read, item, stream_eof, read_iterator, read_iterator-items}
use numaflow_python.Shared.Server.{Rpc, returned}
use numaflow_python.Shared.Proto.{Protobuf, DateTime}
use numaflow_python.Shared.Streams.{
  State, Run, start, untag, Session, Status, working, finished, crashed, Produced,
}
use numaflow_python.Shared.Workers.{consume}
use numaflow_python.Shared.Streams.Completes.{Run-completes}
use numaflow_python.Shared.Streams.Reference.{IsClean, sessions}
use numaflow_python.Shared.Streams.Causality.{IsCausal, Returns, results}
use numaflow_python.Shared.Streams.Invariant.{from_task}
use numaflow_python.Shared.Streams.Serving.{untagged, StreamFn-Delivers}
use numaflow_python.Accumulator.TaskManager.{Datum}
use numaflow_python.Accumulator.Watermarks.{Message, Response, write, write_to_global_queue}
use numaflow_python.Accumulator.Watermarks.Latest.{latest, write-append}
use numaflow_python.Accumulator.Servicer.{
  AccumulatorRequest, datum_generator, Handler, new_instance, command, manager, after_handler,
  result_queue, invoke_accumulator, no_trailer, on_error, AccumulateFn,
}
use numaflow_python.Accumulator.Servicer.Laws.{laws}

-- The handler without what it is started with.
abbrev pub calls : Handler → Unit {0} → Read Datum → Produced Message
calls handler _ r = new_instance handler r

abbrev is_finished : Status → Bool
is_finished working = false
is_finished finished = true
is_finished (crashed e) = false

module _ (pb : Protobuf) (unset : pb.Timestamp) (epoch first : DateTime) where
  write-result_queue :
      (keys : List Str) (out : List Message) (st : Status)
      → write_to_global_queue pb unset epoch keys first
          (result_queue (record { output = out; status = st }))
        ≡ write pb unset epoch keys first out (is_finished st)
  unfolding write_to_global_queue result_queue
  write-result_queue keys out working =
      ap (λ q. let r = read_iterator q in write pb unset epoch keys first r.yielded r.ended)
        (append-nil (map item out))
      ∙ (rw ((read_iterator-items out []).1) refl)
  write-result_queue keys out finished = rw ((read_iterator-items out []).0) refl
  write-result_queue keys out (crashed e) =
      ap (λ q. let r = read_iterator q in write pb unset epoch keys first r.yielded r.ended)
        (append-nil (map item out))
      ∙ (rw ((read_iterator-items out []).1) refl)

  module _ (handler : Handler) where
    abbrev pub work : List Str → Read Datum → Produced (Response pb)
    work keys r = invoke_accumulator pb unset epoch first handler keys r

    work_keeps :
        IsCausal (calls handler)
        → (keys : List Str) (ds more : List Datum) (e : Bool)
        → (rest : List (Response pb)) × ((work keys
              (record { yielded = ds ++ more; ended = e })).output
            ≡ (work keys (record { yielded = ds; ended = false })).output ++ rest)
    unfolding invoke_accumulator
    work_keeps causal keys ds more e = by_status before.status refl
      where
        before : Produced Message
        before = new_instance handler (record { yielded = ds; ended = false })

        now : Produced Message
        now = new_instance handler (record { yielded = ds ++ more; ended = e })

        put_by : Produced Message → List (Response pb)
        put_by p = (write_to_global_queue pb unset epoch keys first (result_queue p)).0

        unchanged :
            before.status ≢ working
            → (rest : List (Response pb)) × (put_by now ≡ put_by before ++ rest)
        unchanged n =
            ([], ap put_by (causal.settles tt ds more e n) ∙ sym (append-nil (put_by before)))

        by_status :
            (st : Status)
            → before.status ≡ st
            → (rest : List (Response pb)) × (put_by now ≡ put_by before ++ rest)
        by_status finished q = unchanged (λ w. cc)
        by_status (crashed x) q = unchanged (λ w. cc)
        by_status working q =
            let (rest, h) = causal.keeps tt ds more e in
            let more_put : List (Response pb) =
              (write pb unset epoch keys (latest first before.output) rest
                (is_finished now.status)).0 in
            let a : put_by now
                ≡ (write pb unset epoch keys first now.output (is_finished now.status)).0 =
              ap (λ r. r.0) (write-result_queue keys now.output now.status) in
            let b : put_by before ≡ (write pb unset epoch keys first before.output false).0 =
              ap (λ r. r.0)
                (write-result_queue keys before.output before.status
                  ∙ ap (λ st. write pb unset epoch keys first before.output (is_finished st)) q) in
            let c : (write pb unset epoch keys first (before.output ++ rest)
                  (is_finished now.status)).0
                ≡ (write pb unset epoch keys first before.output false).0 ++ more_put =
              ap (λ r. r.0)
                (write-append pb unset epoch keys first before.output rest
                  (is_finished now.status)) in
            let d : (write pb unset epoch keys first now.output (is_finished now.status)).0
                ≡ (write pb unset epoch keys first (before.output ++ rest)
                    (is_finished now.status)).0 =
              ap (λ l. (write pb unset epoch keys first l (is_finished now.status)).0) h in
            (more_put, a ∙ d ∙ c ∙ ap (λ l. l ++ more_put) (sym b))

    pub work-IsCausal : IsCausal (calls handler) → IsCausal work
    unfolding invoke_accumulator
    work-IsCausal causal = record {
      keeps = work_keeps causal;
      settles = λ keys ds more e n.
          ap
            (λ p. record {
              output = (write_to_global_queue pb unset epoch keys first (result_queue p)).0;
              status = p.status;
            })
            (causal.settles tt ds more e n);
    }

    -- What the task of a session is to send: the results that the handler makes of all its datums, and
    -- the end of the last window.
    abbrev pub replies : Session (List Str) Datum → List (Response pb)
    replies s =
        let all = (new_instance handler (record { yielded = s.datums; ended = true })).output in
        (write_to_global_queue pb unset epoch s.info first (map item all ++ stream_eof ∷ [])).0

    work-replies :
        Returns (calls handler) → (s : Session (List Str) Datum) → results work s ≡ replies s
    unfolding invoke_accumulator
    work-replies returns s =
        let p = new_instance handler (record { yielded = s.datums; ended = true }) in
        ap
          (λ st.
            (write_to_global_queue pb unset epoch s.info first
              (map item p.output ++ after_handler st)).0)
          (returns tt s.datums)

    -- For a handler that more input never makes take back a result or change its mind once it has
    -- returned, and that returns at the end of its input: in every schedule of the tasks that has run
    -- until nothing is left to do, if no request closes a task that is not open, the rpc returns without
    -- an error; what it sends for the tasks of a name is, task after task in the order of the requests
    -- and in the handler's order, the results of the handler on exactly the datums of that task, each
    -- task's followed by the end of its window. How the names interleave depends on the schedule.
    pub AccumulateFn-sends :
        (container_type : Str) (requests : List (AccumulatorRequest pb)) (rpc : Rpc (Response pb))
        → IsCausal (calls handler)
        → Returns (calls handler)
        → IsClean [] (map command (datum_generator pb requests))
        → AccumulateFn pb unset epoch first handler container_type requests rpc
        → (entries : List (Str × Response pb)) × (rpc
            ≡ record { sent = untagged entries; outcome = returned })
          × ((k : Str)
              → from_task k entries
                ≡ flat_map replies (sessions k (map command (datum_generator pb requests))))
    unfolding invoke_accumulator
    AccumulateFn-sends container_type requests rpc causal returns clean fn =
        let d =
          StreamFn-Delivers manager laws work (no_trailer pb) (work-IsCausal causal)
            (λ keys ds. returns tt ds) (on_error container_type) (datum_generator pb requests) rpc
            clean fn in
        (
          d.entries,
          d.sends
              ∙ ap (λ l. record { sent = l; outcome = returned }) (append-nil (untagged d.entries)),
          λ k.
              d.by_name k
              ∙ flat_map-eq _ _ (work-replies returns)
                  (sessions k (map command (datum_generator pb requests))),
        )

    -- For such a handler and such requests, every schedule that has begun can be brought to an end at
    -- which nothing is left to do: no choice of the event loop makes an answer impossible.
    pub AccumulateFn-completes :
        (container_type : Str) (requests : List (AccumulatorRequest pb))
        (s : State manager (Response pb))
        → IsCausal (calls handler)
        → Returns (calls handler)
        → IsClean [] (map command (datum_generator pb requests))
        → Run manager work
            (no_trailer pb)
            (start manager work (no_trailer pb) (datum_generator pb requests))
            s
        → (t : State manager (Response pb)) × Run manager work (no_trailer pb) s t
          × AccumulateFn pb unset epoch first handler container_type requests
              (consume (on_error container_type) (untag t.queue))
    unfolding invoke_accumulator
    AccumulateFn-completes container_type requests s causal returns clean run =
        Run-completes manager laws work (no_trailer pb) (work-IsCausal causal)
          (λ keys ds. returns tt ds) (on_error container_type) (datum_generator pb requests) s clean
          run
