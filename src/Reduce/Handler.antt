-- ===== src/Reduce/Handler.antt =====
-- `get_handler` (packages/pynumaflow/pynumaflow/reducer/async_server.py): what the user may pass as the handler.
use numaflow_python.Base.{Bool, true, false, ◌⊎◌, inl, inr, Option, none, some, List, [], ◌∷◌, ◌++◌}
use numaflow_python.Base.Text.{Str, str}
use numaflow_python.Base.Dict.{Dict}
use numaflow_python.Servers.Given.{
  Given, function, class_object, instance_object, Handler, function_handler, builder, is_given,
  issubclass_error,
}

abbrev pub invalid : Str → Str
invalid shown =
    str "Invalid Class Type "
    ++ (shown ++ str ": Please make sure the class type is passed, and it is a subclass of Reducer")

-- `len(init_args) > 0 or len(init_kwargs) > 0`, of which the second part raises on None
abbrev function_case : {V : Type 0} → Bool → Option (Dict V) → Str ⊎ Handler V
function_case true init_kwargs = inl (str "Cannot pass function handler with init args or kwargs")
function_case false none = inl (str "object of type 'NoneType' has no len()")
function_case false (some []) = inr function_handler
function_case false (some (kwarg ∷ kwargs)) =
    inl (str "Cannot pass function handler with init args or kwargs")

-- The handler, or the text of the TypeError.
unfoldable pub get_handler : {V : Type 0} → Given → List V → Option (Dict V) → Str ⊎ Handler V
get_handler function init_args init_kwargs = function_case (is_given init_args) init_kwargs
get_handler (class_object true shown) init_args init_kwargs = inr (builder init_args init_kwargs)
get_handler (class_object false shown) init_args init_kwargs = inl (invalid shown)
get_handler (instance_object true shown) init_args init_kwargs = inl (invalid shown)
get_handler (instance_object false shown) init_args init_kwargs = inl issubclass_error
