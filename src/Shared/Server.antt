-- ===== src/Shared/Server.antt =====
-- shared/server.py: what the servicers do on an error. An error ends the process, so an rpc either
-- returns, or fails with the effects on its context and its process, or waits for ever.
use numaflow_python.Base.{Bool, false, List, [], ◌∷◌, ◌++◌, if◌then◌else◌}
use numaflow_python.Base.Text.{Str, str}

-- A Python exception as the code sees it: the text that `repr` gives.
pub record Exception : Type 0 where
  pub repr : Str

pub data Result {ℓ} (A : Type ℓ) : Type ℓ where
  ok : A → Result A
  raised : Exception → Result A

infixl 5 ◌>>=◌
abbrev pub ◌>>=◌ {ℓ κ} : {A : Type ℓ} {B : Type κ} → Result A → (A → Result B) → Result B
ok a >>= f = f a
raised e >>= f = raised e

-- What `__anext__` and `next` raise on an empty stream.
abbrev pub stop_iteration : Str → Exception
stop_iteration name = record { repr = name ++ str "()" }

pub data StatusCode : Type 0 where
  internal unknown : StatusCode

pub data Process : Type 0 where
  current parent_process : Process

-- Calls on the grpc context and on the process.
pub data Effect : Type 0 where
  set_code : StatusCode → Effect
  set_details : Str → Effect
  -- the trailing metadata of the status that `get_grpc_status` builds for a message
  set_trailing_metadata : Str → Effect
  abort : StatusCode → Str → Effect
  kill : Process → Effect

-- `ERR_UDF_EXCEPTION_STRING`, for the value of `CONTAINER_TYPE`
unfoldable pub err_udf_exception_string : Str → Str
err_udf_exception_string container_type = str "UDF_EXECUTION_ERROR(" ++ (container_type ++ str ")")

unfoldable pub exit_on_error : Str → Bool → Bool → List Effect
exit_on_error err parent update_context =
    (if update_context
      then set_code internal ∷ set_details err ∷ set_trailing_metadata err ∷ []
      else [])
    ++ kill (if parent then parent_process else current) ∷ []

unfoldable pub update_context_err : Str → List Effect
update_context_err err_msg =
    set_code internal ∷ set_details err_msg ∷ set_trailing_metadata err_msg ∷ []

unfoldable pub handle_async_error : Exception → Str → List Effect
unfolding update_context_err exit_on_error
handle_async_error e exception_type =
    let err_msg = exception_type ++ (str ": " ++ e.repr) in
    update_context_err err_msg ++ (abort internal err_msg ∷ exit_on_error err_msg false false)

pub data Outcome : Type 0 where
  returned : Outcome
  failed : List Effect → Outcome
  blocked : Outcome

-- An rpc: what it sends to the client, in order, and how it ends.
pub record Rpc {ℓ} (R : Type ℓ) : Type ℓ where
  pub sent : List R
  pub outcome : Outcome

module _ {ℓ} {R : Type ℓ} where
  abbrev pub send : List R → Rpc R → Rpc R
  send rs rpc = record { sent = rs ++ rpc.sent; outcome = rpc.outcome }

  abbrev pub return : Rpc R
  return = record { sent = []; outcome = returned }

  abbrev pub fail : List Effect → Rpc R
  fail es = record { sent = []; outcome = failed es }

  abbrev pub block : Rpc R
  block = record { sent = []; outcome = blocked }
