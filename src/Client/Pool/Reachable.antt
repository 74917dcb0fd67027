-- ===== src/Client/Pool/Reachable.antt =====
-- The clients of a program (trpc/Client.h) as a state machine: one step for each thing that the
-- program can do with a client.
use Prim.Native.String.{String}
use t_rpc.Base.{
  ℕ, ◌≤◌, ◌≡◌, refl, ap, subst, inl, inr, Bool-cases, List, [], ◌∷◌, ◌++◌, Option, none, some,
  arith,
}
use t_rpc.Base.Word.{ℤ, minus_one}
use t_rpc.Client.{Client, Done, call, close}
use t_rpc.Client.Connection.{
  init, make, is_negative, construct, move_construct, swap, destroy, assign, connect,
  make_connected, set_timeout, error, is_zero,
}
use t_rpc.Client.Keeps.{HoldsOrCloses, call-Holds}
use t_rpc.Client.Pool.{
  count, owners, owners-append, Descriptors, held-IsKept, close-held, close-world, destroy-held,
  MadeOf, make-Made, make_connected-Made,
}
use t_rpc.Client.Transfers.{socket-close}
use t_rpc.Json.{JsonLib}
use t_rpc.Kernel.{Kernel, SockAddr}
use t_rpc.Outcome.{Outcome}

module _ (k : Kernel) (j : JsonLib) where
  -- A step of a program on its clients. `picked` says that their order does not matter; `assigned`
  -- is `a = std::move(b)`. `init` is for a client without a descriptor: it would overwrite the
  -- other.
  pub data Step : List Client → k.World → List Client → k.World → Type 1 where
    picked :
        (front : List Client) (c : Client) (back : List Client) (w : k.World)
        → Step (front ++ (c ∷ back)) w (c ∷ (front ++ back)) w
    constructed : (token : ℤ) (cs : List Client) (w : k.World) → Step cs w (construct token ∷ cs) w
    made :
        (endpoint : SockAddr) (token token' token'' : ℤ) (cs : List Client) (w : k.World)
        {c : Client} {w' : k.World}
        → make_connected k endpoint token token' token'' w ≡ (some c, w')
        → Step cs w (c ∷ cs) w'
    not_made :
        (endpoint : SockAddr) (token token' token'' : ℤ) (cs : List Client) (w : k.World)
        {w' : k.World}
        → make_connected k endpoint token token' token'' w ≡ (none, w')
        → Step cs w cs w'
    made_alone :
        (token token' : ℤ) (cs : List Client) (w : k.World) {c : Client} {w' : k.World}
        → make k token token' w ≡ (some c, w')
        → Step cs w (c ∷ cs) w'
    not_made_alone :
        (token token' : ℤ) (cs : List Client) (w : k.World) {w' : k.World}
        → make k token token' w ≡ (none, w')
        → Step cs w cs w'
    initialised :
        (c : Client) (cs : List Client) (w : k.World)
        → c.socket ≡ minus_one
        → Step (c ∷ cs) w ((init k c w).0 ∷ cs) (init k c w).1
    timed :
        (timeout : ℕ) (c : Client) (cs : List Client) (w : k.World)
        → Step (c ∷ cs) w (set_timeout timeout c ∷ cs) w
    asked : (c : Client) (cs : List Client) (w : k.World) → Step (c ∷ cs) w ((error c).1 ∷ cs) w
    connected :
        (endpoint : SockAddr) (c : Client) (cs : List Client) (w : k.World)
        → Step (c ∷ cs) w ((connect k endpoint c w).1 ∷ cs) (connect k endpoint c w).2
    moved :
        (token : ℤ) (c : Client) (cs : List Client) (w : k.World)
        → Step (c ∷ cs) w ((move_construct token c).0 ∷ (move_construct token c).1 ∷ cs) w
    swapped :
        (a b : Client) (cs : List Client) (w : k.World)
        → Step (a ∷ b ∷ cs) w ((swap a b).0 ∷ (swap a b).1 ∷ cs) w
    assigned :
        (token : ℤ) (a b : Client) (cs : List Client) (w : k.World)
        → Step
            (a ∷ b ∷ cs)
            w
            ((assign k a (move_construct token b).0 w).0 ∷ (move_construct token b).1 ∷ cs)
            (assign k a (move_construct token b).0 w).1
    closed :
        (c : Client) (cs : List Client) (w : k.World)
        → Step (c ∷ cs) w ((close k c w).0 ∷ cs) (close k c w).1
    called :
        {T : Type 0} (to : j.Json → Outcome T) (function : String) (args : List j.Json)
        (probe buf : List ℕ) (c : Client) (cs : List Client) (w : k.World)
        → Step
            (c ∷ cs)
            w
            ((call k j to function args probe buf c w).client ∷ cs)
            (call k j to function args probe buf c w).world
    destroyed : (c : Client) (cs : List Client) (w : k.World) → Step (c ∷ cs) w cs (destroy k c w)

  -- What a program that starts with no client comes to.
  pub data Reaches (w₀ : k.World) : List Client → k.World → Type 1 where
    starts : Reaches w₀ [] w₀
    goes_on :
        {cs cs' : List Client} {w w' : k.World}
        → Reaches w₀ cs w
        → Step cs w cs' w'
        → Reaches w₀ cs' w'

  module _ (held : k.World → ℕ → ℕ) (laws : Descriptors k held) where
    abbrev Tidy : List Client → k.World → Type 0
    Tidy cs w = (m : ℕ) → owners cs m ≡ held w m

    bounded :
        (c : Client) (cs : List Client) (w : k.World)
        → Tidy (c ∷ cs) w
        → (m : ℕ) → count c.socket m ≤ held w m
    unfolding owners
    bounded c cs w tidy m = omega (arith, tidy m)

    HoldsOrCloses-held :
        {T : Type 0} (to : j.Json → Outcome T) (c : Client) (cs : List Client) (w : k.World)
        (d : Done k (Outcome (Option T)))
        → Tidy (c ∷ cs) w
        → HoldsOrCloses k
            (λ w'. (m : ℕ) → held w' m ≡ held w m)
            (held-IsKept k held laws (held w))
            j
            to
            c.socket
            d
        → Tidy (d.client ∷ cs) d.world
    unfolding owners
    HoldsOrCloses-held to c cs w d tidy (inl (same, kept)) m =
        omega (arith, tidy m, kept m, ap (λ z. count z m) same)
    HoldsOrCloses-held to c cs w d tidy (inr last) m = omega (
      arith,
      tidy m,
      ap (λ w'. held w' m) last.closed,
      close-held k held laws c.socket last.before
          (λ m'. omega (arith, bounded c cs w tidy m', last.held m')) m,
      last.held m,
      ap (λ z. count z m) last.gone,
    )

    init-Tidy :
        (c : Client) (cs : List Client) (w : k.World)
        → c.socket ≡ minus_one
        → Tidy (c ∷ cs) w
        → Tidy ((init k c w).0 ∷ cs) (init k c w).1
    unfolding owners init
    init-Tidy c cs w unset tidy m = elim (Bool-cases (is_negative (k.socket w).0)) [
      | inl failed ↦ rw failed (omega (arith, tidy m, laws.opens w m, ap (λ z. count z m) unset))
      | inr open_now ↦
          rw open_now (omega (arith, tidy m, laws.opens w m, ap (λ z. count z m) unset))
    ]

    connect-Tidy :
        (endpoint : SockAddr) (c : Client) (cs : List Client) (w : k.World)
        → Tidy (c ∷ cs) w
        → Tidy ((connect k endpoint c w).1 ∷ cs) (connect k endpoint c w).2
    unfolding owners connect
    connect-Tidy endpoint c cs w tidy m =
        elim (Bool-cases (is_zero (k.connect c.socket endpoint w).0)) [
          | inl done ↦ rw done (omega (arith, tidy m, laws.same_connect c.socket endpoint w m))
          | inr refused ↦
              rw refused (omega (arith, tidy m, laws.same_connect c.socket endpoint w m))
        ]

    step-Tidy : {w w' : k.World} {cs cs' : List Client} → Step cs w cs' w' → Tidy cs w → Tidy cs' w'
    unfolding owners construct move_construct swap assign set_timeout error
    step-Tidy (picked front c back w) tidy m =
        omega (arith, tidy m, owners-append front (c ∷ back) m, owners-append front back m)
    step-Tidy (constructed token cs w) tidy m = omega (arith, tidy m)
    step-Tidy (made endpoint token token' token'' cs w e) tidy m = omega (
      arith,
      tidy m,
      subst (MadeOf k held laws w) e
          (make_connected-Made k held laws endpoint token token' token'' w) m,
    )
    step-Tidy (not_made endpoint token token' token'' cs w e) tidy m = omega (
      arith,
      tidy m,
      subst (MadeOf k held laws w) e
          (make_connected-Made k held laws endpoint token token' token'' w) m,
    )
    step-Tidy (made_alone token token' cs w e) tidy m =
        omega
          (arith, tidy m, subst (MadeOf k held laws w) e (make-Made k held laws token token' w) m)
    step-Tidy (not_made_alone token token' cs w e) tidy m =
        omega
          (arith, tidy m, subst (MadeOf k held laws w) e (make-Made k held laws token token' w) m)
    step-Tidy (initialised c cs w unset) tidy m = init-Tidy c cs w unset tidy m
    step-Tidy (timed timeout c cs w) tidy m = omega (arith, tidy m)
    step-Tidy (asked c cs w) tidy m = omega (arith, tidy m)
    step-Tidy (connected endpoint c cs w) tidy m = connect-Tidy endpoint c cs w tidy m
    step-Tidy (moved token c cs w) tidy m = omega (arith, tidy m)
    step-Tidy (swapped a b cs w) tidy m = omega (arith, tidy m)
    step-Tidy (assigned token a b cs w) tidy m =
        omega (arith, tidy m, destroy-held k held laws a w (bounded a (b ∷ cs) w tidy) m)
    step-Tidy (closed c cs w) tidy m = omega (
      arith,
      tidy m,
      ap (λ w'. held w' m) (close-world k held laws c w),
      close-held k held laws c.socket w (bounded c cs w tidy) m,
      ap (λ z. count z m) (socket-close k c w),
    )
    step-Tidy (called to function args probe buf c cs w) tidy m =
        HoldsOrCloses-held to c cs w _ tidy
          (call-Holds k (λ w'. (m' : ℕ) → held w' m' ≡ held w m') (held-IsKept k held laws (held w))
            j to function args probe buf c w (λ m'. refl))
          m
    step-Tidy (destroyed c cs w) tidy m =
        omega (arith, tidy m, destroy-held k held laws c w (bounded c cs w tidy) m)

    -- Whatever a program does with its clients by these steps, from none and with no descriptor
    -- held, each descriptor that is held has exactly one client and each other has none: none
    -- leaks, none has two owners, and none that was closed is left with a client.
    pub reachable_owned :
        (w₀ : k.World)
        → ((m : ℕ) → held w₀ m ≡ 0)
        → {cs : List Client} {w : k.World} → Reaches w₀ cs w
        → (m : ℕ) → (owners cs m ≡ held w m) × (owners cs m ≤ 1)
    unfolding owners
    reachable_owned w₀ none_held {cs = cs} {w = w} reaches m =
        let tidy = reaches_tidy reaches m in (tidy, omega (arith, tidy, laws.once w m))
      where
        reaches_tidy : {cs : List Client} {w : k.World} → Reaches w₀ cs w → Tidy cs w
        reaches_tidy starts n = omega (arith, none_held n)
        reaches_tidy (goes_on before step) n = step-Tidy step (reaches_tidy before) n
