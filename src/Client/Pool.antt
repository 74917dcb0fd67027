-- ===== src/Client/Pool.antt =====
-- The clients of a program (trpc/Client.h) and the descriptors that they hold, over any sequence of
-- constructions, moves, assignments, calls and destructions.
pub mod Reachable
use Prim.Native.String.{String}
use t_rpc.Base.{
  ℕ, zero, suc, ◌+◌, ◌==◌, ◌≤◌, ◌≡◌, ◌∙◌, refl, sym, ap, subst, inl, inr, Bool, true, false,
  Bool-cases, List, [], ◌∷◌, ◌++◌, Option, none, some, if◌then◌else◌, ==_refl, arith,
}
use t_rpc.Base.Word.{ℤ, pos, negsuc, minus_one}
use t_rpc.Client.{Client, Done, call, close, is_invalid}
use t_rpc.Client.Connection.{
  construct, init, error, move_construct, swap, destroy, assign, connect, make, make_connected_from,
  make_connected, is_zero,
}
use t_rpc.Client.Keeps.{IsKept, HoldsOrCloses, call-Holds}
use t_rpc.Client.Transfers.{socket-close}
use t_rpc.Json.{JsonLib}
use t_rpc.Kernel.{Kernel, SockAddr}
use t_rpc.Outcome.{Outcome}

-- How often a descriptor is a given number: once or not at all.
abbrev pub count : ℤ → ℕ → ℕ
count (pos n) m = if n == m then 1 else 0
count (negsuc n) m = 0

-- How many of the clients have the descriptor.
pub owners : List Client → ℕ → ℕ
owners [] m = 0
owners (c ∷ cs) m = count c.socket m + owners cs m

pub owners-append : (xs ys : List Client) (m : ℕ) → owners (xs ++ ys) m ≡ owners xs m + owners ys m
unfolding owners
owners-append [] ys m = omega arith
owners-append (x ∷ xs) ys m = omega (arith, owners-append xs ys m)

module _ (k : Kernel) where
  -- `held` counts the descriptors that socket has handed out and close has not taken back, as POSIX
  -- does: each is open once at most, and the other calls open and close none.
  pub record Descriptors (held : k.World → ℕ → ℕ) : Type 0 where
    pub once : (w : k.World) (m : ℕ) → held w m ≤ 1
    pub opens : (w : k.World) (m : ℕ) → held (k.socket w).1 m ≡ held w m + count (k.socket w).0 m
    pub closes :
        (n : ℕ) (w : k.World)
        → held w n ≡ 1
        → (m : ℕ) → held (k.close (pos n) w) m + count (pos n) m ≡ held w m
    pub closes_none : (n : ℕ) (w : k.World) (m : ℕ) → held (k.close (negsuc n) w) m ≡ held w m
    pub same_connect :
        (fd : ℤ) (a : SockAddr) (w : k.World) (m : ℕ) → held (k.connect fd a w).1 m ≡ held w m
    pub same_now : (w : k.World) (m : ℕ) → held (k.now w).1 m ≡ held w m
    pub same_poll :
        (fd : ℤ) (e : ℕ) (t : ℤ) (w : k.World) (m : ℕ) → held (k.poll fd e t w).1 m ≡ held w m
    pub same_usleep : (n : ℕ) (w : k.World) (m : ℕ) → held (k.usleep n w) m ≡ held w m
    pub same_errno : (e : ℕ) (w : k.World) (m : ℕ) → held (k.set_errno e w) m ≡ held w m
    pub same_co_read :
        (fd : ℤ) (n : ℕ) (w : k.World) (m : ℕ) → held (k.co_read fd n w).world m ≡ held w m
    pub same_read : (fd : ℤ) (n : ℕ) (w : k.World) (m : ℕ) → held (k.read fd n w).world m ≡ held w m
    pub same_co_write :
        (fd : ℤ) (bs : List ℕ) (w : k.World) (m : ℕ) → held (k.co_write fd bs w).world m ≡ held w m

  module _ (held : k.World → ℕ → ℕ) (laws : Descriptors held) where
    pub held-IsKept : (h : ℕ → ℕ) → IsKept k (λ w. (m : ℕ) → held w m ≡ h m)
    held-IsKept h = record {
      on_now = λ w p m. laws.same_now w m ∙ p m;
      on_poll = λ fd e t w p m. laws.same_poll fd e t w m ∙ p m;
      on_usleep = λ w p m. laws.same_usleep 1 w m ∙ p m;
      on_errno = λ e w p m. laws.same_errno e w m ∙ p m;
      on_co_read = λ fd n w p m. laws.same_co_read fd n w m ∙ p m;
      on_read = λ fd n w p m. laws.same_read fd n w m ∙ p m;
      on_co_write = λ fd bs w p m. laws.same_co_write fd bs w m ∙ p m;
    }

    -- To close a descriptor that is held takes it back, and nothing else.
    pub close-held :
        (fd : ℤ) (w : k.World)
        → ((m : ℕ) → count fd m ≤ held w m)
        → (m : ℕ) → held (if is_invalid fd then w else k.close fd w) m + count fd m ≡ held w m
    close-held (pos n) w le m =
        laws.closes n w
          (omega (arith, laws.once w n, le n, ap {B = ℕ} (λ b. if b then 1 else 0) (==_refl n))) m
    close-held (negsuc zero) w le m = omega arith
    close-held (negsuc (suc n)) w le m = omega (arith, laws.closes_none (suc n) w m)

    pub close-world :
        (c : Client) (w : k.World)
        → (close k c w).1 ≡ (if is_invalid c.socket then w else k.close c.socket w)
    unfolding close
    close-world c w = elim (Bool-cases (is_invalid c.socket)) [
      | inl closed ↦ rw closed refl
      | inr still ↦ rw still refl
    ]

    pub destroy-held :
        (c : Client) (w : k.World)
        → ((m : ℕ) → count c.socket m ≤ held w m)
        → (m : ℕ) → held (destroy k c w) m + count c.socket m ≡ held w m
    unfolding destroy
    destroy-held c w le m = rw (close-world c w) (close-held c.socket w le m)

    -- What `make` gives owns what has been opened since.
    abbrev pub MadeOf : k.World → Option Client × k.World → Type 0
    MadeOf w (some c, w') = (m : ℕ) → held w' m ≡ held w m + count c.socket m
    MadeOf w (none, w') = (m : ℕ) → held w' m ≡ held w m

    opened :
        (w : k.World) (r : ℤ × k.World)
        → k.socket w ≡ r
        → (m : ℕ) → held r.1 m ≡ held w m + count r.0 m
    opened w r e m = subst (λ z. held z.1 m ≡ held w m + count z.0 m) e (laws.opens w m)

    pub make-Made : (token token' : ℤ) (w : k.World) → MadeOf w (make k token token' w)
    unfolding make init construct error move_construct
    make-Made token token' w = settle (k.socket w) refl
      where
        settle : (r : ℤ × k.World) → k.socket w ≡ r → MadeOf w (make k token token' w)
        settle (pos n, w') e = rw e (λ m. omega (
          arith,
          opened w _ e m,
          destroy-held (record (construct token) { socket = minus_one }) w' (λ m'. omega arith) m,
        ))
        settle (negsuc n, w') e = elim (Bool-cases (k.errno w' == 0)) [
          | inl unset ↦
              rw (e, unset)
                (λ m. omega (
                  arith,
                  opened w _ e m,
                  destroy-held (record (construct token) { socket = minus_one }) w'
                      (λ m'. omega arith) m,
                ))
          | inr failed ↦
              rw (e, failed)
                (λ m. omega (
                  arith,
                  opened w _ e m,
                  destroy-held (record (construct token) { socket = negsuc n }) w'
                      (λ m'. omega arith) m,
                ))
        ]

    connected_from-Made :
        (endpoint : SockAddr) (token : ℤ) (w : k.World) (o : Option Client × k.World)
        → MadeOf w o
        → MadeOf w (make_connected_from k endpoint token o)
    unfolding make_connected_from connect move_construct
    connected_from-Made endpoint token w (none, w') made = made
    connected_from-Made endpoint token w (some c, w') made =
        elim (Bool-cases (is_zero (k.connect c.socket endpoint w').0)) [
          | inl connected ↦ rw connected (λ m. omega (
            arith,
            made m,
            laws.same_connect c.socket endpoint w' m,
            destroy-held (record c { socket = minus_one }) w'' (λ m'. omega arith) m,
          ))
          | inr refused ↦ rw refused (λ m. omega (
            arith,
            made m,
            laws.same_connect c.socket endpoint w' m,
            destroy-held (record c { errno = k.errno w'' }) w''
                (λ m'. omega (arith, made m', laws.same_connect c.socket endpoint w' m')) m,
          ))
        ]
      where
        w'' : k.World
        w'' = (k.connect c.socket endpoint w').1

    pub make_connected-Made :
        (endpoint : SockAddr) (token token' token'' : ℤ) (w : k.World)
        → MadeOf w (make_connected k endpoint token token' token'' w)
    unfolding make_connected
    make_connected-Made endpoint token token' token'' w = elim (Bool-cases (k.co_test w)) [
      | inl inside ↦ rw inside (connected_from-Made endpoint token'' w _ (make-Made token token' w))
      | inr outside ↦ rw outside (λ m. refl)
    ]
