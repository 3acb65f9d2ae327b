-- ===== src/SideInput.antt =====
-- The side input (packages/pynumaflow/pynumaflow/sideinput): `RetrieveSideInput` of servicer/servicer.py.
-- The user's handler is an object with a state; a call that raises kills the process.
pub mod Server
use numaflow_python.Base.{ℕ, zero, suc, ◌≡◌, refl, ap, Bool, true, false, List, [], ◌∷◌, ◌++◌}
use numaflow_python.Base.Text.{Str, Bytes, str}
use numaflow_python.Shared.Server.{
  Exception, Result, ok, raised, Effect, err_udf_exception_string, exit_on_error, returned, failed,
  blocked, Rpc, send, return, fail,
}
use numaflow_python.Shared.Workers.{before_error, ending}

-- `Response`, and `sideinput_pb2.SideInputResponse`
pub record Response : Type 0 where
  pub value : Bytes
  pub no_broadcast : Bool

abbrev pub broadcast_message : Bytes → Response
broadcast_message value = record { value = value; no_broadcast = false }

abbrev pub no_broadcast_message : Response
no_broadcast_message = record { value = []; no_broadcast = true }

-- The handler, from the state of the user's object.
abbrev pub RetrieverCallable : Type 0 → Type 0
RetrieverCallable S = S → Result Response × S

unfoldable pub on_error : Str → Exception → List Effect
on_error container_type err =
    exit_on_error (err_udf_exception_string container_type ++ (str ": " ++ err.repr)) false true

module _ {S : Type 0} (container_type : Str) (handler : RetrieverCallable S) where
  answer : Result Response × S → Rpc Response × S
  answer (ok rspn, s') = (
    record {
      sent = record { value = rspn.value; no_broadcast = rspn.no_broadcast } ∷ [];
      outcome = returned;
    },
    s',
  )
  answer (raised err, s') = (fail (on_error container_type err), s')

  -- One call of the rpc.
  unfoldable pub retrieve_side_input : S → Rpc Response × S
  unfolding answer
  retrieve_side_input s = answer (handler s)
