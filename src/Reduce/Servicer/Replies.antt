-- ===== src/Reduce/Servicer/Replies.antt =====
-- What `ReduceFn` sends, and how it ends.
use mathlib.Core.List.{append-nil, append_assoc}
use numaflow_python.Base.{
  ◌≡◌, refl, sym, ap, ◌∙◌, true, false, some, List, [], ◌∷◌, ◌++◌, map, All, flat_map,
}
use numaflow_python.Base.Text.{Str, ℤ}
use numaflow_python.Base.Dict
use numaflow_python.Base.Dict.{Dict}
use numaflow_python.Shared.Queue.{item, put, read_iterator, read_iterator-items}
use numaflow_python.Shared.Server.{Rpc, returned, send}
use numaflow_python.Shared.Proto.{Protobuf, DateTime, Message}
use numaflow_python.Reduce.TaskManager.{
  Task, TaskManager, init, stream_send_eof, get_tasks, get_unique_windows,
}
use numaflow_python.Reduce.TaskManager.Tasks.{iterator_of, get-stream_send_eof}
use numaflow_python.Reduce.TaskManager.Invariant.{init-IsValid}
use numaflow_python.Reduce.Servicer.{
  Handler, ReduceRequest, Response, result, eof, Future, done, crashed, datum_generator, process,
  invoke_reduce, collect, reduce_fn,
}
use numaflow_python.Reduce.Servicer.Routing.{datums_for, has_bad, process_error, process_routes}

abbrev pub messages_of : Future → List Message
messages_of (done msgs) = msgs
messages_of (crashed _) = []

module _ {pb : Protobuf} where
  -- The state when the stream of requests has ended and every task has got its end.
  abbrev pub final : List (ReduceRequest pb) → TaskManager pb
  final reqs = stream_send_eof (process init (datum_generator reqs)).0

  -- If every data request has one window, then at the end the iterator of each task ends, and has
  -- yielded exactly the datums of the requests with the task's name, in their order.
  pub tasks_read_their_datums :
      (reqs : List (ReduceRequest pb)) (k : Str) (t : Task pb)
      → has_bad (datum_generator reqs) ≡ false
      → Dict.get (final reqs).tasks k ≡ some t
      → read_iterator t.iterator
        ≡ record { yielded = datums_for k (datum_generator reqs); ended = true }
  unfolding put Dict.get
  tasks_read_their_datums reqs k t good e =
      let (u, p, q) = get-stream_send_eof _ k t e in
      let h : u.iterator ≡ map item (datums_for k (datum_generator reqs)) =
        ap iterator_of (sym p) ∙ (process_routes init _ init-IsValid good).1 k in
      rw (q, h) (read_iterator-items (datums_for k (datum_generator reqs)) []).0

  module _ (from_ms : ℤ → DateTime) (handler : Handler) where
    -- The task's handler returned these messages.
    pub record Done (t : Task pb) : Type 0 where
      pub messages : List Message
      pub is_done : invoke_reduce from_ms handler t ≡ done messages

    -- The responses for one task: its handler's messages, each with the window of the task.
    abbrev pub replies : Task pb → List (Response pb)
    replies t = map (λ msg. result msg t.window) (messages_of (invoke_reduce from_ms handler t))

    collect-done :
        (t : Task pb) (ts : List (Task pb)) (after : Rpc (Response pb)) (msgs : List Message)
        → invoke_reduce from_ms handler t ≡ done msgs
        → collect from_ms handler (t ∷ ts) after
          ≡ send (replies t) (collect from_ms handler ts after)
    unfolding collect
    collect-done t ts after msgs e = rw (e, collect)

    collect-append :
        (us ts : List (Task pb)) (after : Rpc (Response pb))
        → All Done us
        → collect from_ms handler (us ++ ts) after
          ≡ send (flat_map replies us) (collect from_ms handler ts after)
    unfolding collect
    collect-append [] ts after h = refl
    collect-append (u ∷ us) ts after h =
        collect-done u (us ++ ts) after _ (h.0).is_done
        ∙ rw (collect-append us ts after h.1, append_assoc (replies u))

    collect-All :
        (us : List (Task pb)) (after : Rpc (Response pb))
        → All Done us
        → collect from_ms handler us after ≡ send (flat_map replies us) after
    unfolding collect
    collect-All us after h =
        ap (λ ts. collect from_ms handler ts after) (sym (append-nil us))
        ∙ collect-append us [] after h

    -- If every data request has one window and no handler raises, then the rpc returns, and it has
    -- sent the messages of each task with its window, the tasks in the order in which they were
    -- created, and then one EOF for each of the unique windows.
    pub reduce_fn_success :
        (container_type : Str) (reqs : List (ReduceRequest pb))
        → has_bad (datum_generator reqs) ≡ false
        → All Done (get_tasks (final reqs))
        → reduce_fn from_ms handler container_type reqs ≡ record {
          sent =
              flat_map replies (get_tasks (final reqs))
              ++ map eof (Dict.values (get_unique_windows (final reqs)));
          outcome = returned;
        }
    unfolding reduce_fn collect
    reduce_fn_success container_type reqs good all_done =
        rw (process_error init (datum_generator reqs), reduce_fn, good)
          (collect-All (get_tasks (final reqs)) _ all_done ∙ simp append-nil)
