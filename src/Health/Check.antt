-- ===== src/Health/Check.antt =====
-- Health::check of trpc/detail/Health.h, from the states that Client::call leaves with Health::set.
use t_rpc.Base.{
  ℕ, ◌+◌, ◌-◌, ◌^◌, ◌≤◌, ◌<◌, ◌≡◌, refl, true, false, List, length, take, arith, subst,
  store_at-none,
}
use t_rpc.Base.Word.{pos, pos_part, load32, swap32, sub64-eq-sub}
use t_rpc.Kernel.{Kernel, Io, Streams, Reads, IsLawfulAt}
use t_rpc.Outcome.{ok, undefined}
use t_rpc.Health.{
  Health, undefined_state, no_read, header_read_some, content_read_some, buf_size, set, check,
  check_state, check_loop, pass, state_machine, death_countdown,
}
use t_rpc.Health.Drain.{Taken, Drains, content-Drains, header-Drains}

module _ (k : Kernel) (fd : ℕ) where
  -- A connection in the state UNDEFINED is never used again: `check` answers false, reads nothing
  -- and leaves the state.
  pub check_undefined :
      (a n : ℕ) (stack : List ℕ) (w : k.World)
      → check k (pos fd) (set a undefined_state n) stack w ≡ ok (false, set a undefined_state n, w)
  unfolding check check_state check_loop pass set
  check_undefined a n stack w = refl

  module _ (s : Streams k) (lawful : IsLawfulAt k s (pos fd)) where
    -- After a response of `n` content bytes of which `a` were read, `check` answers true only if it
    -- has read exactly the other `n - a` bytes from the stream; it then leaves the initial state.
    pub check_drains_content :
        (a n : ℕ) (stack : List ℕ) (w : k.World) {h : Health} {w' : k.World}
        → a ≤ n
        → n < 2 ^ 64
        → check k (pos fd) (set a content_read_some n) stack w ≡ ok (true, h, w')
        → Taken k s (pos fd) (n - a) w w' × (h.state ≡ no_read)
    unfolding check check_state set
    check_drains_content a n stack w le small e =
        subst (Drains k s (pos fd) (n - a) w) e
          (content-Drains k s (pos fd) lawful death_countdown a n stack w le small)

    -- After a response of which no byte was read, and with the four header bytes arriving in one
    -- read, `check` answers true only if it has read exactly one whole frame from the stream: the
    -- header and as many bytes as it announces in network order.
    pub check_drains_header :
        (n : ℕ) (stack : List ℕ) (w : k.World) {h : Health} {w' : k.World}
        → length stack ≡ buf_size
        → (k.read (pos fd) 4 w).ret ≡ pos 4
        → check k (pos fd) (set 0 header_read_some n) stack w ≡ ok (true, h, w')
        → Taken k s (pos fd) (4 + swap32 (load32 (take 4 (s.incoming w (pos fd))))) w w'
          × (h.state ≡ no_read)
    unfolding check check_state set
    check_drains_header n stack w room whole e =
        subst (Drains k s (pos fd) _ w) e
          (header-Drains k s (pos fd) lawful death_countdown n stack w room whole)

    -- The local buffer holds 4096 bytes, but the rest of the content is read into it in one call:
    -- if more than 4096 bytes are asked for and arrive, the behaviour is undefined.
    pub check_overruns :
        (a n : ℕ) (stack : List ℕ) (w : k.World)
        → a ≤ n
        → n < 2 ^ 64
        → length stack ≡ buf_size
        → buf_size < pos_part (k.read (pos fd) (n - a) w).ret
        → check k (pos fd) (set a content_read_some n) stack w ≡ undefined
    unfolding check check_state check_loop pass state_machine set
    check_overruns a n stack w le small room many =
        rw (sub64-eq-sub n a le small)
          (rw (store_at-none stack 0 got.bytes (omega (arith, reads.counted)), state_machine))
      where
        got : Io k.World
        got = k.read (pos fd) (n - a) w

        reads : Reads k s (pos fd) (n - a) w got
        reads = lawful.read-Reads (n - a) w
