-- ===== src/Accumulator/TaskManager/Ended.antt =====
-- What the tasks have read when the stream has ended.
use mathlib.Core.List.{append-nil, map-append}
use numaflow_python.Base.{
  ◌≡◌, refl, sym, ap, ◌∙◌, inl, inr, true, Option, none, some, List, [], ◌∷◌, ◌++◌, map, Bool-cases,
  All, ◌≢◌, subst,
}
use numaflow_python.Base.Text.{Str, str_eq, str_eq_iff}
use numaflow_python.Base.Dict
use numaflow_python.Base.Dict.{Dict}
use numaflow_python.Base.Dict.Keys.{Distinct}
use numaflow_python.Shared.Queue.{Queue, stream_eof, put, read_iterator, read_iterator-items}
use numaflow_python.Accumulator.TaskManager.{
  Datum, Request, Task, init, process, end_all, process_input_stream,
}
use numaflow_python.Accumulator.TaskManager.Sessions.{
  idle, close_lane, lane_run, sessions, queues_for, queue_of, filled, full, queues_for-append,
}
use numaflow_python.Accumulator.TaskManager.Streams.{init-Follows, process-Follows}

module _ (k : Str) where
  -- The queues that get their end when the stream ends.
  abbrev ended_queues : Option (Queue Datum) → List (Queue Datum)
  ended_queues none = []
  ended_queues (some q) = put q stream_eof ∷ []

  queues_for-absent :
      (d : Dict Task) → All (λ y. y ≢ k) (Dict.keys d) → queues_for k (end_all d) ≡ []
  unfolding end_all
  queues_for-absent [] h = refl
  queues_for-absent ((j, t) ∷ d) h = elim (Bool-cases (str_eq j k)) [
    | inl e ↦ absurd (h.0 ((str_eq_iff j k).0 e))
    | inr e ↦ rw e (queues_for-absent d h.1)
  ]

  queues_for-end_all :
      (d : Dict Task)
      → Distinct (Dict.keys d)
      → queues_for k (end_all d) ≡ ended_queues (queue_of (Dict.get d k))
  unfolding end_all Dict.get
  queues_for-end_all [] h = refl
  queues_for-end_all ((j, t) ∷ d) h = elim (Bool-cases (str_eq j k)) [
    | inl e ↦
        rw
          (
            e,
            queues_for-absent d
                (subst (λ i. All (λ y. y ≢ i) (Dict.keys d)) ((str_eq_iff j k).0 e) h.0),
          )
          refl
    | inr e ↦ rw e (queues_for-end_all d h.1)
  ]

  ended_queues-filled :
      (closed : List (List Datum)) (o : Option (List Datum))
      → map full closed ++ ended_queues (filled o) ≡ map full (close_lane closed o)
  unfolding put
  ended_queues-filled closed none = append-nil _
  ended_queues-filled closed (some ds) = sym (map-append full closed (ds ∷ []))

  map-read_iterator-full :
      (dss : List (List Datum))
      → map read_iterator (map full dss) ≡ map (λ ds. record { yielded = ds; ended = true }) dss
  map-read_iterator-full [] = refl
  map-read_iterator-full (ds ∷ dss) =
      rw ((read_iterator-items ds []).0, map-read_iterator-full dss) refl

  -- Whatever the requests, in the runs in which the waits for closed tasks end: when the stream has
  -- ended, the tasks that there have been for a name, in their order, have read exactly the sessions of
  -- the name: OPEN and APPEND with that name start a session if none is open and add their datum to it,
  -- CLOSE ends it, and so does the end of the stream. Each task has then seen the end of its input, and
  -- requests with other names make no difference.
  pub tasks_read_their_sessions :
      (rs : List Request)
      → map read_iterator (queues_for k (process_input_stream rs).finished)
        ≡ map (λ ds. record { yielded = ds; ended = true }) (sessions k rs)
  unfolding process_input_stream
  tasks_read_their_sessions rs =
      let f = process-Follows k init rs idle (init-Follows k) in
      ap (map read_iterator) (
        queues_for-append k (process init rs).finished (end_all (process init rs).tasks)
        ∙ (rw (f.closed, queues_for-end_all (process init rs).tasks f.distinct, f.current)
            (ended_queues-filled (lane_run k idle rs).closed (lane_run k idle rs).current)))
      ∙ map-read_iterator-full (sessions k rs)
