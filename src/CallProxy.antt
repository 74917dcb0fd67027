-- ===== src/CallProxy.antt =====
-- trpc/detail/CallProxy.h and FunctionTraits.h: a typed function behind a function on Json. The
-- traits of a function are the list of its argument types, each with the conversion `to<T>()`.
pub mod Dispatch
use t_rpc.Base.{ℕ, zero, suc, ◌+◌, List, [], ◌∷◌, length, ◌==◌, if◌then◌else◌, not}
use t_rpc.Json.{JsonLib}
use t_rpc.Outcome.{Outcome, ok, throws, ◌>>=◌, protocol_exception}
use t_rpc.Protocol.{make_invalid_params_exception}

module _ (j : JsonLib) where
  open j use {Json, null, array_size, at}

  -- An argument type and its conversion from Json.
  pub record Arg : Type 1 where
    pub Carrier : Type 0
    pub to : Json → Outcome Carrier

  -- std::tuple<Args...>
  abbrev pub ArgsTuple : List Arg → Type 0
  ArgsTuple [] = Unit
  ArgsTuple (a ∷ as') = a.Carrier × ArgsTuple as'

  -- `make`: the elements are converted from the first to the last.
  unfoldable pub make : (args : List Arg) → Json → ℕ → Outcome (ArgsTuple args)
  make [] from i = ok tt
  make (a ∷ rest) from i = do
    elem ← at from i
    value ← a.to elem
    values ← make rest from (suc i)
    ok (value, values)

  -- A function, its result converted to Json; a `void` function gives null. It is a function of its
  -- arguments alone: one that waits, makes system calls or keeps a state is not modelled.
  pub record Callable : Type 1 where
    pub args : List Arg
    pub run : ArgsTuple args → Outcome Json

  abbrev pub void_result : Outcome (Unit {0}) → Outcome Json
  void_result r = r >>= λ _. ok null

  unfoldable pub dispatch : Callable → Json → Outcome Json
  dispatch f json = do
    size ← array_size json
    let expected = length f.args == size
    if not expected
        then throws (protocol_exception make_invalid_params_exception)
        else (make f.args json 0 >>= f.run)
