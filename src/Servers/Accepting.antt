-- ===== src/Servers/Accepting.antt =====
-- Which handlers the servers of accumulator, reducer and reducestreamer take.
use numaflow_python.Base.{
  ◌≡◌, ◌↔◌, ◌⊎◌, inl, inr, refl, sym, ap, true, false, none, some, List, [], ◌∷◌,
}
use numaflow_python.Base.Text.{Str, str}
use numaflow_python.Base.Dict.{Dict}
use numaflow_python.Servers.Given.{
  Given, function, class_object, instance_object, Handler, function_handler, builder,
  issubclass_error,
}
use numaflow_python.Accumulator
use numaflow_python.Reduce
use numaflow_python.ReduceStream

module _ {V : Type 0} where
  -- A function without arguments, or a class that is a subclass, with whatever arguments.
  abbrev pub Accepts : Given → List V → Dict V → Handler V → Type 0
  Accepts given args kwargs h =
      ((given ≡ function) × (args ≡ []) × (kwargs ≡ []) × (h ≡ function_handler))
      ⊎ ((shown : Str) × (given ≡ class_object true shown) × (h ≡ builder args (some kwargs)))

  abbrev function_with : List V → Dict V → Str ⊎ Handler V
  function_with [] [] = inr function_handler
  function_with [] (k ∷ ks) = inl (str "Cannot pass function handler with init args or kwargs")
  function_with (a ∷ args) kwargs =
      inl (str "Cannot pass function handler with init args or kwargs")

  -- What the three functions do with arguments, for their text about a wrong class.
  abbrev taken : (Str → Str) → Given → List V → Dict V → Str ⊎ Handler V
  taken invalid function args kwargs = function_with args kwargs
  taken invalid (class_object true shown) args kwargs = inr (builder args (some kwargs))
  taken invalid (class_object false shown) args kwargs = inl (invalid shown)
  taken invalid (instance_object true shown) args kwargs = inl (invalid shown)
  taken invalid (instance_object false shown) args kwargs = inl issubclass_error

  taken-Accepts :
      (invalid : Str → Str) (given : Given) (args : List V) (kwargs : Dict V) (h : Handler V)
      → (taken invalid given args kwargs ≡ inr h) ↔ Accepts given args kwargs h
  taken-Accepts invalid function [] [] h = (
    λ e. inl (refl, refl, refl, cc),
    λ a. elim a [ inl (p, q, r, s) ↦ ap inr (sym s) | inr (x, p, q) ↦ cc ],
  )
  taken-Accepts invalid function [] (k ∷ ks) h =
      (λ e. cc, λ a. elim a [ inl (p, q, r, s) ↦ cc | inr (x, p, q) ↦ cc ])
  taken-Accepts invalid function (a ∷ args) kwargs h =
      (λ e. cc, λ a. elim a [ inl (p, q, r, s) ↦ cc | inr (x, p, q) ↦ cc ])
  taken-Accepts invalid (class_object true shown) args kwargs h = (
    λ e. inr (shown, refl, cc),
    λ a. elim a [ inl (p, q, r, s) ↦ cc | inr (x, p, q) ↦ ap inr (sym q) ],
  )
  taken-Accepts invalid (class_object false shown) args kwargs h =
      (λ e. cc, λ a. elim a [ inl (p, q, r, s) ↦ cc | inr (x, p, q) ↦ cc ])
  taken-Accepts invalid (instance_object true shown) args kwargs h =
      (λ e. cc, λ a. elim a [ inl (p, q, r, s) ↦ cc | inr (x, p, q) ↦ cc ])
  taken-Accepts invalid (instance_object false shown) args kwargs h =
      (λ e. cc, λ a. elim a [ inl (p, q, r, s) ↦ cc | inr (x, p, q) ↦ cc ])

  accumulator-taken :
      (given : Given) (args : List V) (kwargs : Dict V)
      → Accumulator.Handler.get_handler given args (some kwargs)
        ≡ taken Accumulator.Handler.invalid given args kwargs
  unfolding Accumulator.Handler.get_handler
  accumulator-taken function [] [] = refl
  accumulator-taken function [] (k ∷ ks) = refl
  accumulator-taken function (a ∷ args) kwargs = refl
  accumulator-taken (class_object true shown) args kwargs = refl
  accumulator-taken (class_object false shown) args kwargs = refl
  accumulator-taken (instance_object true shown) args kwargs = refl
  accumulator-taken (instance_object false shown) args kwargs = refl

  reduce-taken :
      (given : Given) (args : List V) (kwargs : Dict V)
      → Reduce.Handler.get_handler given args (some kwargs)
        ≡ taken Reduce.Handler.invalid given args kwargs
  unfolding Reduce.Handler.get_handler
  reduce-taken function [] [] = refl
  reduce-taken function [] (k ∷ ks) = refl
  reduce-taken function (a ∷ args) kwargs = refl
  reduce-taken (class_object true shown) args kwargs = refl
  reduce-taken (class_object false shown) args kwargs = refl
  reduce-taken (instance_object true shown) args kwargs = refl
  reduce-taken (instance_object false shown) args kwargs = refl

  reduce_stream-taken :
      (given : Given) (args : List V) (kwargs : Dict V)
      → ReduceStream.Handler.get_handler given args (some kwargs)
        ≡ taken ReduceStream.Handler.invalid given args kwargs
  unfolding ReduceStream.Handler.get_handler
  reduce_stream-taken function [] [] = refl
  reduce_stream-taken function [] (k ∷ ks) = refl
  reduce_stream-taken function (a ∷ args) kwargs = refl
  reduce_stream-taken (class_object true shown) args kwargs = refl
  reduce_stream-taken (class_object false shown) args kwargs = refl
  reduce_stream-taken (instance_object true shown) args kwargs = refl
  reduce_stream-taken (instance_object false shown) args kwargs = refl

  -- Each of the three functions `get_handler`, with a dict of arguments: it returns a handler exactly if it is
  -- given a function and no arguments, when it returns the function, or a class that is a subclass of
  -- the base class, when it returns a builder with the arguments; otherwise it raises a TypeError. Given
  -- a function, no arguments and None for the dict, that of the reducer raises, and the other two
  -- return the function.
  pub get_handler-Accepts :
      (given : Given) (args : List V) (kwargs : Dict V) (h : Handler V)
      → ((Accumulator.Handler.get_handler given args (some kwargs) ≡ inr h)
          ↔ Accepts given args kwargs h)
        × ((Reduce.Handler.get_handler given args (some kwargs) ≡ inr h)
            ↔ Accepts given args kwargs h)
        × ((ReduceStream.Handler.get_handler given args (some kwargs) ≡ inr h)
            ↔ Accepts given args kwargs h)
        × (Accumulator.Handler.get_handler {V = V} function [] none ≡ inr function_handler)
        × ((text : Str) × (Reduce.Handler.get_handler {V = V} function [] none ≡ inl text))
        × (ReduceStream.Handler.get_handler {V = V} function [] none ≡ inr function_handler)
  unfolding Accumulator.Handler.get_handler Reduce.Handler.get_handler
      ReduceStream.Handler.get_handler
  get_handler-Accepts given args kwargs h = (
    rw (accumulator-taken given args kwargs) (taken-Accepts _ given args kwargs h),
    rw (reduce-taken given args kwargs) (taken-Accepts _ given args kwargs h),
    rw (reduce_stream-taken given args kwargs) (taken-Accepts _ given args kwargs h),
    refl,
    (_, refl),
    refl,
  )
