-- ===== src/Accumulator/TaskManager/Sessions.antt =====
-- The tasks of one name, one after another, and what each of them reads.
use mathlib.Core.List.{map-append}
use numaflow_python.Base.{
  ◌≡◌, refl, sym, inl, inr, Bool, ◌||◌, Option, none, some, List, [], ◌∷◌, ◌++◌, map, ◌==◌,
  if◌then◌else◌, arith, Option-cases, Bool-cases,
}
use numaflow_python.Base.Text.{Str, str_eq, str_eq_iff, str_eq_refl}
use numaflow_python.Base.Dict
use numaflow_python.Base.Dict.{Dict, get-put}
use numaflow_python.Base.Dict.Keys.{Distinct, put-Distinct}
use numaflow_python.Shared.Queue.{Queue, item, stream_eof, put}
use numaflow_python.Accumulator.TaskManager.{
  Datum, Request, Task, TaskManager, unified_key, open_operation, close_operation, append_operation,
  create_task, send_datum_to_task,
}

-- The reference for one name: the datums of the tasks that are closed, and of the one that is open.
pub record Lane : Type 0 where
  pub closed : List (List Datum)
  pub current : Option (List Datum)

abbrev pub idle : Lane
idle = record { closed = []; current = none }

abbrev pub with_datum : Option (List Datum) → Datum → List Datum
with_datum none d = d ∷ []
with_datum (some ds) d = ds ++ d ∷ []

abbrev pub close_lane : List (List Datum) → Option (List Datum) → List (List Datum)
close_lane closed none = closed
close_lane closed (some ds) = closed ++ ds ∷ []

abbrev pub is_data : Request → Bool
is_data r = r.operation == open_operation || r.operation == append_operation

-- OPEN and APPEND start a task if none is open, and give it the datum; CLOSE ends the open one.
abbrev pub lane_step : Lane → Request → Lane
lane_step lane r =
    if is_data r
    then record { closed = lane.closed; current = some (with_datum lane.current r.payload) }
    else if r.operation == close_operation
    then record { closed = close_lane lane.closed lane.current; current = none }
    else lane

abbrev pub lane_run : Str → Lane → List Request → Lane
lane_run k lane [] = lane
lane_run k lane (r ∷ rs) =
    lane_run k (if str_eq (unified_key r) k then lane_step lane r else lane) rs

-- The datums of each task of the name, in order, when the stream has ended.
abbrev pub sessions : Str → List Request → List (List Datum)
sessions k rs = let lane = lane_run k idle rs in close_lane lane.closed lane.current

-- The queues of the entries with a name.
abbrev pub queues_for : Str → Dict Task → List (Queue Datum)
queues_for k [] = []
queues_for k ((j, t) ∷ d) = if str_eq j k then t.iterator ∷ queues_for k d else queues_for k d

abbrev pub queue_of : Option Task → Option (Queue Datum)
queue_of none = none
queue_of (some t) = some t.iterator

abbrev pub filled : Option (List Datum) → Option (Queue Datum)
filled none = none
filled (some ds) = some (map item ds)

abbrev pub full : List Datum → Queue Datum
full ds = map item ds ++ stream_eof ∷ []

abbrev pub added : Option (Queue Datum) → Datum → Queue Datum
added none d = put [] (item d)
added (some q) d = put q (item d)

pub added-filled :
    (o : Option (List Datum)) (d : Datum) → added (filled o) d ≡ map item (with_datum o d)
unfolding put
added-filled none d = refl
added-filled (some ds) d = sym (map-append item ds (d ∷ []))

pub queues_for-append :
    (k : Str) (d e : Dict Task) → queues_for k (d ++ e) ≡ queues_for k d ++ queues_for k e
queues_for-append k [] e = refl
queues_for-append k ((j, t) ∷ d) e = elim (Bool-cases (str_eq j k)) [
  | inl p ↦ rw (p, queues_for-append k d e)
  | inr p ↦ rw (p, queues_for-append k d e)
]

abbrev pub current_of : TaskManager → Str → Option (Queue Datum)
current_of tm k = queue_of (Dict.get tm.tasks k)

pub send-eq-create : (tm : TaskManager) (r : Request) → send_datum_to_task tm r ≡ create_task tm r
unfolding send_datum_to_task create_task
send-eq-create tm r = ground arith

pub current_of-create_task :
    (tm : TaskManager) (r : Request) (k : Str)
    → current_of (create_task tm r) k ≡ (
        if str_eq (unified_key r) k
        then some (added (current_of tm (unified_key r)) r.payload)
        else current_of tm k)
unfolding create_task
current_of-create_task tm r k = elim (Option-cases (Dict.get tm.tasks (unified_key r))) [
  | inl e ↦
      simp (e, create_task, get-put)
        (ground (arith, str_eq_iff (unified_key r) k, str_eq_refl (unified_key r)))
  | inr (t, e) ↦ simp (e, create_task, get-put) (ground (arith, str_eq_iff (unified_key r) k))
]

pub create_task-Distinct :
    (tm : TaskManager) (r : Request)
    → Distinct (Dict.keys tm.tasks)
    → Distinct (Dict.keys (create_task tm r).tasks)
unfolding create_task
create_task-Distinct tm r h = elim (Option-cases (Dict.get tm.tasks (unified_key r))) [
  | inl e ↦ rw (e, create_task) (put-Distinct _ _ _ (put-Distinct _ _ _ h))
  | inr (t, e) ↦ rw (e, create_task) (put-Distinct _ _ _ h)
]

pub create_task-finished :
    (tm : TaskManager) (r : Request) → (create_task tm r).finished ≡ tm.finished
unfolding create_task
create_task-finished tm r = ground arith
