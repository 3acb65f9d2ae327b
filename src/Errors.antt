-- ===== src/Errors.antt =====
-- errors/errors.py: a critical error is persisted to a file, once in a process. The threads that call
-- `persist_critical_error` are numbered, and the scheduler is a relation: at any time, any thread that
-- does not wait for the lock may go on. A file holds an entry, or what an interrupted write has left.
pub mod Once
pub mod Files
use numaflow_python.Base.{
  ℕ, ◌≡◌, ◌⊎◌, Bool, true, false, Option, none, some, List, [], ◌∷◌, ◌++◌, ◌==◌, if◌then◌else◌,
}
use numaflow_python.Base.Text.{Str, str, str_eq, decimal}
use numaflow_python.Shared.Server.{Exception}

abbrev pub runtime_application_errors_path : Str
runtime_application_errors_path = str "/var/numaflow/runtime/application-errors"

abbrev pub current_critical_error_file : Str
current_critical_error_file = str "current-udf.json"

abbrev pub internal_error_code : Str
internal_error_code = str "Internal error"

-- `_RuntimeErrorEntry`
pub record RuntimeErrorEntry : Type 0 where
  pub container : Str
  pub timestamp : ℕ
  pub code : Str
  pub message : Str
  pub details : Str

-- The arguments of `persist_critical_error`.
pub record Call : Type 0 where
  pub error_code : Str
  pub error_message : Str
  pub error_details : Str

pub data Content : Type 0 where
  whole : RuntimeErrorEntry → Content
  partial : Content

abbrev pub Files : Type 0
Files = Str → Option Content

abbrev pub set_file : Files → Str → Option Content → Files
set_file files p c q = if str_eq p q then c else files q

-- The calls on the file system.
pub data Op : Type 0 where
  makedirs : Str → Op
  dump : Str → RuntimeErrorEntry → Op
  rename : Str → Str → Op

abbrev pub run_op : Files → Op → Files
run_op files (makedirs p) = files
run_op files (dump p entry) = set_file files p (some (whole entry))
run_op files (rename p q) = set_file (set_file files p none) q (files p)

abbrev pub run_ops : Files → List Op → Files
run_ops files [] = files
run_ops files (op ∷ ops) = run_ops (run_op files op) ops

-- What a call that raises may have done.
abbrev pub interrupted : Files → Op → Files
interrupted files (makedirs p) = files
interrupted files (dump p entry) = set_file files p (some partial)
interrupted files (rename p q) = files

abbrev pub ends_with_slash : Str → Bool
ends_with_slash [] = true
ends_with_slash (c ∷ []) = c == b'/'
ends_with_slash (c ∷ d ∷ p) = ends_with_slash (d ∷ p)

abbrev pub is_absolute : Str → Bool
is_absolute [] = false
is_absolute (c ∷ p) = c == b'/'

-- `os.path.join` of two parts.
unfoldable pub path_join : Str → Str → Str
path_join p q = if is_absolute q then q else if ends_with_slash p then p ++ q else p ++ b'/' ∷ q

-- `error_code or INTERNAL_ERROR_CODE`
abbrev pub code_or_default : Str → Str
code_or_default [] = internal_error_code
code_or_default (c ∷ cs) = c ∷ cs

module _ (container_type : Str) where
  abbrev pub entry_of : Call → ℕ → RuntimeErrorEntry
  entry_of call now = record {
    container = container_type;
    timestamp = now;
    code = code_or_default call.error_code;
    message = call.error_message;
    details = call.error_details;
  }

  abbrev pub container_dir : Str → Str
  container_dir dir_path = path_join dir_path container_type

  abbrev pub current_file_path : Str → Str
  current_file_path dir_path = path_join (container_dir dir_path) current_critical_error_file

  abbrev pub final_file_path : Str → ℕ → Str
  final_file_path dir_path now = path_join (container_dir dir_path) (decimal now ++ str "-udf.json")

  -- `_persist_critical_error_to_file`, when `time.time()` gives `now` seconds
  unfoldable pub persist_critical_error_to_file : Str → Call → ℕ → List Op
  persist_critical_error_to_file dir_path call now =
      makedirs dir_path
      ∷ makedirs (container_dir dir_path)
      ∷ dump (current_file_path dir_path) (entry_of call now)
      ∷ rename (current_file_path dir_path) (final_file_path dir_path now)
      ∷ []

-- How `persist_critical_error` ends: the entry is written; or the function has raised, and its exception
-- is returned if it is a `RuntimeError`, and otherwise printed; or the `RuntimeError` of `execute` is
-- returned.
pub data Outcome : Type 0 where
  persisted : Outcome
  func_raised : Exception → Outcome
  already_executed : Outcome

pub data Thread : Type 0 where
  -- the thread does not call the function
  absent : Thread
  -- before `with self.lock`
  calling : Call → Thread
  -- in `execute`, with the lock
  locked : Call → Thread
  -- in the function, with the lock; what is left of its calls
  writing : List Op → Thread
  ended : Outcome → Thread

-- `_PersistErrorOnce`, its threads and the files
pub record State : Type 0 where
  pub threads : ℕ → Thread
  pub lock : Option ℕ
  pub done : Bool
  pub files : Files

abbrev pub set_thread : (ℕ → Thread) → ℕ → Thread → ℕ → Thread
set_thread threads i t j = if i == j then t else threads j

abbrev pub thread_of : Option Call → Thread
thread_of none = absent
thread_of (some c) = calling c

abbrev pub start : (ℕ → Option Call) → Files → State
start calls files = record {
  threads = λ i. thread_of (calls i);
  lock = none;
  done = false;
  files = files;
}

module _ (container_type : Str) where
  abbrev pub operations : Call → ℕ → List Op
  operations = persist_critical_error_to_file container_type runtime_application_errors_path

  -- `execute`, called by `persist_critical_error`
  pub data Step : State → State → Type 0 where
    acquire :
        {s t : State} (i : ℕ) (c : Call)
        → s.threads i ≡ calling c
        → s.lock ≡ none
        → t ≡ record s { threads = set_thread s.threads i (locked c); lock = some i }
        → Step s t
    -- `if self.done: raise RuntimeError`
    refuse :
        {s t : State} (i : ℕ) (c : Call)
        → s.threads i ≡ locked c
        → s.done ≡ true
        → t ≡ record s { threads = set_thread s.threads i (ended already_executed); lock = none }
        → Step s t
    -- `self.done = True`
    begin :
        {s t : State} (i : ℕ) (c : Call) (now : ℕ)
        → s.threads i ≡ locked c
        → s.done ≡ false
        → t
          ≡ record s { threads = set_thread s.threads i (writing (operations c now)); done = true }
        → Step s t
    perform :
        {s t : State} (i : ℕ) (op : Op) (ops : List Op)
        → s.threads i ≡ writing (op ∷ ops)
        → t ≡ record s { threads = set_thread s.threads i (writing ops); files = run_op s.files op }
        → Step s t
    -- a call raises; its exception is returned or printed
    break :
        {s t : State} (i : ℕ) (op : Op) (ops : List Op) (e : Exception) (files : Files)
        → s.threads i ≡ writing (op ∷ ops)
        → (files ≡ s.files) ⊎ (files ≡ interrupted s.files op)
        → t ≡ record s {
          threads = set_thread s.threads i (ended (func_raised e));
          lock = none;
          files = files;
        }
        → Step s t
    finish :
        {s t : State} (i : ℕ)
        → s.threads i ≡ writing []
        → t ≡ record s { threads = set_thread s.threads i (ended persisted); lock = none }
        → Step s t

  pub data Run : State → State → Type 0 where
    stop : {s : State} → Run s s
    step : {s t u : State} → Step s t → Run t u → Run s u
