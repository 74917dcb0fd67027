-- ===== src/CallProxy/Dispatch.antt =====
-- trpc/detail/CallProxy.h: when a call reaches the function, and with which arguments.
use t_rpc.Base.{
  ℕ, zero, suc, ◌≡◌, ◌≢◌, refl, ap, List, [], ◌∷◌, some, length, drop, arith, ==_ne, ==_refl,
}
use t_rpc.CallProxy.{Arg, ArgsTuple, Callable, make, dispatch}
use t_rpc.Json.{JsonLib, View, IsLawful, nth}
use t_rpc.Outcome.{ok, throws, protocol_exception}
use t_rpc.Protocol.{make_invalid_params_exception}

nth-drop :
    {A : Type 0} (xs : List A) (i : ℕ) {x : A} {rest : List A}
    → drop i xs ≡ x ∷ rest
    → (nth xs i ≡ some x) × (drop (suc i) xs ≡ rest)
nth-drop [] zero e = cc
nth-drop [] (suc i) e = cc
nth-drop (y ∷ ys) zero e = ground arith
nth-drop (y ∷ ys) (suc i) e = nth-drop ys i e

module _ (j : JsonLib) where
  -- Json values that convert, one by one, to the arguments.
  abbrev pub Encodes : (args : List (Arg j)) → List j.Json → ArgsTuple j args → Type 0
  Encodes [] [] values = Unit
  Encodes (a ∷ args) (x ∷ xs) values = (a.to x ≡ ok values.0) × Encodes args xs values.1
  Encodes _ _ values = ⊥

  module _ (v : View j) (lawful : IsLawful j v) where
    make-Encodes :
        (args : List (Arg j)) (json : j.Json) (all xs : List j.Json) (i : ℕ)
        (values : ArgsTuple j args)
        → v.Items json all
        → drop i all ≡ xs
        → Encodes args xs values
        → make j args json i ≡ ok values
    unfolding make
    make-Encodes [] json all [] i values items e enc = refl
    make-Encodes [] json all (x ∷ xs) i values items e enc = absurd enc
    make-Encodes (a ∷ args) json all [] i values items e enc = absurd enc
    make-Encodes (a ∷ args) json all (x ∷ xs) i values items e enc =
        let (here, later) = nth-drop all i e in
        rw (
          lawful.at-Items json x all i items here,
          enc.0,
          make-Encodes args json all xs (suc i) values.1 items later enc.1,
        )

    Encodes-length :
        (args : List (Arg j)) (xs : List j.Json) (values : ArgsTuple j args)
        → Encodes args xs values
        → length args ≡ length xs
    Encodes-length [] [] values enc = refl
    Encodes-length [] (x ∷ xs) values enc = absurd enc
    Encodes-length (a ∷ args) [] values enc = absurd enc
    Encodes-length (a ∷ args) (x ∷ xs) values enc = ap suc (Encodes-length args xs values.1 enc.1)

    -- An array whose elements convert to the arguments gives the function's own outcome on them:
    -- its value as Json, or its exception.
    pub dispatch-Encodes :
        (f : Callable j) (json : j.Json) (xs : List j.Json) (values : ArgsTuple j f.args)
        → v.Items json xs
        → Encodes f.args xs values
        → dispatch j f json ≡ f.run values
    unfolding dispatch
    dispatch-Encodes f json xs values items enc = rw (
      lawful.array_size-Items json xs items,
      Encodes-length f.args xs values enc,
      ==_refl (length xs),
      make-Encodes f.args json xs xs 0 values items refl enc,
    )

    -- An array of another length than the function's arguments is refused as invalid parameters,
    -- and the function is not called.
    pub dispatch_arity :
        (f : Callable j) (json : j.Json) (xs : List j.Json)
        → v.Items json xs
        → length f.args ≢ length xs
        → dispatch j f json ≡ throws (protocol_exception make_invalid_params_exception)
    unfolding dispatch
    dispatch_arity f json xs items ne = rw (lawful.array_size-Items json xs items, ==_ne ne)
