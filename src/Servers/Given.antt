-- ===== src/Servers/Given.antt =====
-- What the servers of accumulator, reducer and reducestreamer take as the user's handler.
use numaflow_python.Base.{Bool, true, false, ◌⊎◌, inl, inr, Option, none, some, List, [], ◌∷◌}
use numaflow_python.Base.Text.{Str, str}
use numaflow_python.Base.Dict.{Dict}
use numaflow_python.Servers.Starting.{Server}

-- The argument: a function; a class, which is or is not a subclass of the base class; or another
-- object, which is or is not an instance of it. The text is what `str` makes of it.
pub data Given : Type 0 where
  function : Given
  class_object : Bool → Str → Given
  instance_object : Bool → Str → Given

-- What the servicer gets: the function, or a builder (`_ReduceBuilderClass` and its like) that makes an
-- instance of the class for each task.
pub data Handler (V : Type 0) : Type 0 where
  function_handler : Handler V
  builder : List V → Option (Dict V) → Handler V

-- The truth value of a tuple or of a dict.
abbrev pub is_given : {A : Type 0} → List A → Bool
is_given [] = false
is_given (a ∷ rest) = true

-- The text of the TypeError that `issubclass` raises.
abbrev pub issubclass_error : Str
issubclass_error = str "issubclass() arg 1 must be a class"

module _ {V : Type 0} where
  -- `init_kwargs` if it is not None, else `{}`
  abbrev pub or_empty : Option (Dict V) → Option (Dict V)
  or_empty none = some []
  or_empty (some kwargs) = some kwargs

  -- A constructor that has the handler goes on to the other assignments.
  abbrev pub with_server : Server → Str ⊎ Handler V → Str ⊎ (Handler V × Server)
  with_server server (inl error) = inl error
  with_server server (inr handler) = inr (handler, server)
