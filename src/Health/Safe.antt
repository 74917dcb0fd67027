-- ===== src/Health/Safe.antt =====
-- Health::check of trpc/detail/Health.h: where the local buffer is large enough.
use t_rpc.Base.{
  ℕ, zero, suc, ◌+◌, ◌-◌, ◌≤◌, ◌≡◌, ◌≢◌, ◌∙◌, true, Bool, List, length, arith, ltb, ltb→lt, ltb→le,
  Bool-cases, store_at, store_at-some, length-store_at, inl, inr, some,
}
use t_rpc.Base.Word.{ℤ, pos, negsuc, pos_part, load32, swap32, sub64-eq-sub}
use t_rpc.Kernel.{Kernel, Io, Streams, IsLawful, IsLawfulAt}
use t_rpc.Outcome.{Outcome, ok, throws, undefined, ◌>>=◌}
use t_rpc.Codec.{header_size}
use t_rpc.Codec.Framing.{content_length-snd}
use t_rpc.Health.{
  Health, State, undefined_state, no_read, header_read_some, content_read_some, buf_size, check,
  check_state, check_loop, pass, Pass, healthy, visited, state_machine, death_countdown, advance,
  learn,
}

-- What is left to read fits the buffer; of a header at most its four bytes are gone.
abbrev pub Fits : ℕ → ℕ → State → Type 0
Fits a n header_read_some = a ≤ header_size
Fits a n content_read_some = (a ≤ n) × (n ≤ buf_size)
Fits a n _ = Unit {0}

abbrev pub FitsHealth : Health → Type 0
FitsHealth h = Fits h.some_bytes h.content h.state

abbrev at_state : ℕ → ℕ → State → Health
at_state a n st = record { some_bytes = a; content = n; state = st }

advance-content :
    (a n : ℕ) (ret : ℤ)
    → a ≤ n
    → n ≤ buf_size
    → pos_part ret ≤ n - a
    → FitsHealth (advance ret (n - a) no_read (at_state a n content_read_some))
unfolding advance
advance-content a n (negsuc m) le small b = tt
advance-content a n (pos zero) le small b = tt
advance-content a n (pos (suc m)) le small b = elim (Bool-cases (ltb (suc m) (n - a))) [
  | inl part ↦ rw part (omega (arith, ltb→lt _ _ part), small)
  | inr whole ↦ rw whole tt
]

advance-header :
    (a n : ℕ) (ret : ℤ) (buf : List ℕ)
    → a ≤ header_size
    → pos_part ret ≤ header_size - a
    → FitsHealth (
        learn buf (advance ret (header_size - a) content_read_some (at_state a n header_read_some)))
unfolding advance learn
advance-header a n (negsuc m) buf le b = tt
advance-header a n (pos zero) buf le b = tt
advance-header a n (pos (suc m)) buf le b = elim (Bool-cases (ltb (suc m) (header_size - a))) [
  | inl part ↦ rw part (omega (arith, ltb→lt _ _ part))
  | inr whole ↦
      rw (whole, content_length-snd buf 4 (omega arith))
        (elim (Bool-cases (ltb buf_size (swap32 (load32 buf)))) [
          | inl huge ↦ rw huge tt
          | inr fits ↦ rw fits (omega arith, ltb→le _ _ fits)
        ])
]

module _ (k : Kernel) (s : Streams k) (fd : ℤ) (lawful : IsLawfulAt k s fd) where
  -- A pass that is defined and keeps the bound.
  abbrev SafePass : Outcome (Pass k fd) → Type 0
  SafePass (ok healthy) = Unit {0}
  SafePass (ok (visited h buf w)) = FitsHealth h × (length buf ≡ buf_size)
  SafePass (throws e) = Unit {0}
  SafePass undefined = ⊥

  module _ (size : ℕ) (buf : List ℕ) (w : k.World) where
    got : Io k.World
    got = k.read fd size w

    stored :
        size ≤ buf_size
        → length buf ≡ buf_size
        → (buf' : List ℕ) × (store_at buf 0 got.bytes ≡ some buf') × (length buf' ≡ buf_size)
    unfolding got
    stored small room =
        let fits : 0 + length got.bytes ≤ length buf =
          omega (arith, (lawful.read-Reads size w).counted, (lawful.read-Reads size w).bounded) in
        let e = store_at-some buf 0 got.bytes fits in
        (_, e, length-store_at buf 0 got.bytes e ∙ room)

  pass-Safe :
      (st : State) (a n : ℕ) (buf : List ℕ) (w : k.World)
      → Fits a n st
      → length buf ≡ buf_size
      → SafePass (pass k fd st (at_state a n st) buf w)
  unfolding pass state_machine got
  pass-Safe undefined_state a n buf w f room = (tt, room)
  pass-Safe no_read a n buf w f room = tt
  pass-Safe header_read_some a n buf w f room =
      let (buf', e, room') = stored (header_size - a) buf w (omega arith) room in
      rw (sub64-eq-sub header_size a f (omega arith)) (
        rw (e, state_machine)
          (advance-header a n _ buf' f (lawful.read-Reads (header_size - a) w).bounded, room'))
  pass-Safe content_read_some a n buf w f room =
      let (buf', e, room') = stored (n - a) buf w (omega arith) room in
      rw (sub64-eq-sub n a f.0 (omega arith)) (
        rw (e, state_machine)
          (advance-content a n _ f.0 f.1 (lawful.read-Reads (n - a) w).bounded, room'))

  check_loop_safe :
      (c : ℕ) (h : Health) (buf : List ℕ) (w : k.World)
      → FitsHealth h
      → length buf ≡ buf_size
      → check_loop k fd c h buf w ≢ undefined
  unfolding check_loop
  check_loop_safe zero h buf w f room = λ e. cc
  check_loop_safe (suc c) h buf w f room =
      settle (pass k fd h.state h buf w) (pass-Safe h.state h.some_bytes h.content buf w f room)
        (check_loop_safe c)
    where
      settle :
          (p : Outcome (Pass k fd))
          → SafePass p
          → ((h' : Health) (buf' : List ℕ) (w' : k.World)
              → FitsHealth h'
              → length buf' ≡ buf_size
              → check_loop k fd c h' buf' w' ≢ undefined)
          → ◌>>=◌ {B = Bool × Health × k.World} p (λ q. elim q [
            | healthy ↦ ok (true, h, w)
            | visited h' buf' w' ↦ check_loop k fd c h' buf' w'
          ])
            ≢ undefined
      settle (ok healthy) f rest = λ e. cc
      settle (ok (visited h' buf' w')) f rest = rest h' buf' w' f.0 f.1
      settle (throws e) f rest = λ e. cc
      settle undefined f rest = absurd f

  check_state_safe :
      (st : State) (h : Health) (stack : List ℕ) (w : k.World)
      → FitsHealth h
      → length stack ≡ buf_size
      → check_state k fd st h stack w ≢ undefined
  unfolding check_state
  check_state_safe no_read h stack w f room = λ e. cc
  check_state_safe _ h stack w f room = check_loop_safe death_countdown h stack w f room

module _ (k : Kernel) (s : Streams k) (lawful : IsLawful k s) where
  -- With at most 4096 content bytes in the previous response, or with its header still to come, the
  -- behaviour of `check` is defined: its reads stay inside its buffer, on every descriptor.
  pub check_safe :
      (fd : ℤ) (h : Health) (stack : List ℕ) (w : k.World)
      → FitsHealth h
      → length stack ≡ buf_size
      → check k fd h stack w ≢ undefined
  unfolding check
  check_safe (negsuc n) h stack w f room = λ e. cc
  check_safe (pos fd) h stack w f room =
      check_state_safe k s (pos fd) (lawful (pos fd)) h.state h stack w f room
