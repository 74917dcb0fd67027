-- ===== src/Health/Owed/Passes.antt =====
-- Health::check of trpc/detail/Health.h, pass by pass: what each has read of an abandoned response.
use t_rpc.Base.{
  ℕ, zero, suc, ◌+◌, ◌-◌, ◌^◌, ◌≤◌, ◌<◌, ◌≡◌, refl, inl, inr, Bool, Bool-cases, Option-cases, List,
  ltb, ltb→lt, ltb→le, arith, store_at, store_at-some, store_at-none, subst, ap, sym, ◌∙◌, ◌++◌,
  length, take, drop, take-append,
}
use t_rpc.Base.Word.{
  ℤ, pos, negsuc, pos_part, sub64-eq-sub, swap32, load32, swap32-lt, load32-append,
}
use t_rpc.Health.{
  Health, State, undefined_state, no_read, header_read_some, content_read_some, buf_size,
  death_countdown, advance, learn, check, check_state, check_loop, pass, state_machine,
}
use t_rpc.Health.Drain.{Taken, Taken-zero, Reads-Taken, at_state, announced, learn-announced}
use t_rpc.Kernel.{Kernel, Io, Streams, Reads, IsLawfulAt}
use t_rpc.Outcome.{ok}
use t_rpc.Health.Owed.{
  Framed, Owes, dead, clear, untouched, partly, HeaderWhole, Drained, DrainedOf, DrainedOf-add,
  stays,
}

module _ (k : Kernel) (s : Streams k) (fd : ℤ) (lawful : IsLawfulAt k s fd)
    (whole_header : HeaderWhole k s fd) where
  -- What the later passes give.
  abbrev Later : ℕ → Type 0
  Later c =
      (h : Health) (m : ℕ) (buf : List ℕ) (w : k.World)
      → Owes k s fd w h m
      → DrainedOf k s fd m w (check_loop k fd c h buf w)

  -- One read of the content, with what the later passes give.
  after_read-DrainedOf :
      (c a n : ℕ) {w : k.World}
      → a ≤ n
      → n < 2 ^ 64
      → Later c
      → (ret : ℤ) (buf : List ℕ) (w' : k.World) → pos_part ret ≤ n - a
      → Taken k s fd (pos_part ret) w w'
      → DrainedOf k s fd (n - a) w (
          check_loop k fd c
            (advance ret (n - a) no_read (at_state k s fd a n content_read_some))
            buf
            w')
  unfolding advance
  after_read-DrainedOf c a n le small rest (negsuc m) buf w' b t =
      DrainedOf-add k s fd 0 (n - a) (n - a) _ (omega arith) t
        (rest _ (n - a) buf w' (dead a n (n - a)))
  after_read-DrainedOf c a n le small rest (pos zero) buf w' b t =
      DrainedOf-add k s fd 0 (n - a) (n - a) _ (omega arith) t
        (rest _ (n - a) buf w' (dead a n (n - a)))
  after_read-DrainedOf c a n le small rest (pos (suc m)) buf w' b t =
      elim (Bool-cases (ltb (suc m) (n - a))) [
        | inl part ↦ rw part (
            DrainedOf-add k s fd (suc m) (n - (a + suc m)) (n - a) _
              (omega (arith, ltb→lt _ _ part)) t
              (rest _ _ buf w' (partly (a + suc m) n (omega (arith, ltb→lt _ _ part)) small)))
        | inr whole ↦ rw whole (
            DrainedOf-add k s fd (suc m) 0 (n - a) _ (omega (arith, b, ltb→le _ _ whole)) t
              (rest _ _ buf w' (clear 0 n)))
      ]

  -- A read that gives nothing ends it.
  advance_dead :
      (ret : ℤ) (boundary : ℕ) (next : State) (a n : ℕ)
      → pos_part ret ≡ 0
      → advance ret boundary next (at_state k s fd a n header_read_some)
        ≡ at_state k s fd a n undefined_state
  unfolding advance
  advance_dead (negsuc m) boundary next a n e = refl
  advance_dead (pos zero) boundary next a n e = refl
  advance_dead (pos (suc m)) boundary next a n e = absurd (omega (arith, e))

  learn_dead :
      (buf : List ℕ) (n : ℕ)
      → learn buf (at_state k s fd 0 n undefined_state) ≡ at_state k s fd 0 n undefined_state
  unfolding learn
  learn_dead buf n = refl

  -- Once the header's bytes are there.
  after_learn-DrainedOf :
      (c n : ℕ) (buf : List ℕ) (w : k.World)
      → n < 2 ^ 32
      → Later c
      → DrainedOf k s fd n w (check_loop k fd c (announced k s fd n) buf w)
  after_learn-DrainedOf c n buf w small rest = elim (Bool-cases (ltb buf_size n)) [
    | inl huge ↦ rw huge (rest _ n buf w (dead 0 n n))
    | inr fits ↦ rw fits (
        subst
          (λ m.
            DrainedOf k s fd m w (check_loop k fd c (at_state k s fd 0 n content_read_some) buf w))
          n_minus_zero (rest _ (n - 0) buf w (partly 0 n (omega arith) (omega arith))))
  ]
    where
      n_minus_zero : n - 0 ≡ n
      n_minus_zero = omega arith

  module _ (n m : ℕ) (buf : List ℕ) (w : k.World) (framed : Framed k s fd m w) where
    header-Reads : Reads k s fd 4 w (k.read fd 4 w)
    header-Reads = lawful.read-Reads 4 w

    -- The buffer with the header in front announces the content.
    header_announces :
        length (k.read fd 4 w).bytes ≡ 4
        → swap32 (load32 ((k.read fd 4 w).bytes ++ drop (0 + length (k.read fd 4 w).bytes) buf))
          ≡ swap32 (load32 (take 4 (s.incoming w fd)))
    header_announces four = ap swap32 (
        load32-append (k.read fd 4 w).bytes _ four
        ∙ ap load32 (
            sym (take-append (k.read fd 4 w).bytes (s.incoming (k.read fd 4 w).world fd))
            ∙ ap (λ t. take t ((k.read fd 4 w).bytes ++ s.incoming (k.read fd 4 w).world fd)) four
            ∙ ap (take 4) (sym header-Reads.prefix)))

    header-DrainedOf :
        (c : ℕ)
        → Later c
        → DrainedOf k s fd m w
            (check_loop k fd (suc c) (at_state k s fd 0 n header_read_some) buf w)
    unfolding check_loop pass state_machine advance learn
    header-DrainedOf c rest = elim (Bool-cases (ltb (length buf) (0 + length got.bytes))) [
      | inl over ↦ rw (store_at-none buf 0 got.bytes (ltb→lt _ _ over), state_machine) tt
      | inr fits ↦
          rw (store_at-some buf 0 got.bytes (ltb→le _ _ fits), state_machine)
            (elim (whole_header w framed.long) [
              | inl whole ↦
                  let four : length got.bytes ≡ 4 = header-Reads.counted ∙ ap pos_part whole in
                  rw (whole, advance, learn-announced k s fd buf' n, header_announces four)
                    (DrainedOf-add k s fd 4 _ m _ framed.announces
                      (subst (λ z. Taken k s fd z w got.world) (ap pos_part whole)
                        (Reads-Taken k s fd header-Reads))
                      (after_learn-DrainedOf c _ buf' got.world (swap32-lt _) rest))
              | inr nothing ↦
                  rw (advance_dead got.ret 4 content_read_some 0 n nothing, learn_dead buf' n)
                    (DrainedOf-add k s fd 0 m m _ (omega arith)
                      (subst (λ z. Taken k s fd z w got.world) nothing
                        (Reads-Taken k s fd header-Reads))
                      (rest _ m buf' got.world (dead 0 n m)))
            ])
    ]
      where
        got : Io k.World
        got = k.read fd 4 w

        buf' : List ℕ
        buf' = got.bytes ++ drop (0 + length got.bytes) buf

  check_loop-DrainedOf :
      (c : ℕ) (h : Health) (m : ℕ) (buf : List ℕ) (w : k.World)
      → Owes k s fd w h m
      → DrainedOf k s fd m w (check_loop k fd c h buf w)
  unfolding check_loop pass state_machine
  check_loop-DrainedOf zero h m buf w owes = stays k s fd m h w owes
  check_loop-DrainedOf (suc c) _ _ buf w (dead a n m) =
      check_loop-DrainedOf c _ m buf w (dead a n m)
  check_loop-DrainedOf (suc c) _ _ buf w (untouched n m framed) =
      header-DrainedOf n m buf w framed c (check_loop-DrainedOf c)
  check_loop-DrainedOf (suc c) _ _ buf w (clear a n) = record {
    left = 0;
    read = 0;
    total = refl;
    taken = Taken-zero k s fd w;
    owes = clear a n;
    dry = λ e. (refl, refl);
  }
  check_loop-DrainedOf (suc c) _ _ buf w (partly a n le small) =
      rw (sub64-eq-sub n a le small) (elim (Option-cases (store_at buf 0 got.bytes)) [
        | inl overrun ↦ rw (overrun, state_machine) tt
        | inr (buf', stored) ↦
            rw (stored, state_machine)
              (after_read-DrainedOf c a n le small (check_loop-DrainedOf c) got.ret buf' got.world
                reads.bounded (Reads-Taken k s fd reads))
      ])
    where
      got : Io k.World
      got = k.read fd (n - a) w

      reads : Reads k s fd (n - a) w got
      reads = lawful.read-Reads (n - a) w

  check_state-DrainedOf :
      (h : Health) (m : ℕ) (stack : List ℕ) (w : k.World)
      → Owes k s fd w h m
      → DrainedOf k s fd m w (check_state k fd h.state h stack w)
  unfolding check_state
  check_state-DrainedOf _ _ stack w (dead a n m) =
      check_loop-DrainedOf death_countdown _ m stack w (dead a n m)
  check_state-DrainedOf _ _ stack w (untouched n m framed) =
      check_loop-DrainedOf death_countdown _ m stack w (untouched n m framed)
  check_state-DrainedOf _ _ stack w (clear a n) = record {
    left = 0;
    read = 0;
    total = refl;
    taken = Taken-zero k s fd w;
    owes = clear a n;
    dry = λ e. (refl, refl);
  }
  check_state-DrainedOf _ _ stack w (partly a n le small) =
      check_loop-DrainedOf death_countdown _ _ stack w (partly a n le small)

module _ (k : Kernel) (s : Streams k) (fd : ℕ) (lawful : IsLawfulAt k s (pos fd))
    (whole_header : HeaderWhole k s (pos fd)) where
  -- Whatever `check` answers in the middle of a response, it has read a front part of what is still
  -- owed and nothing else, and the state that it leaves knows how much is left; after a healthy
  -- answer nothing is.
  pub check-Drained :
      {h : Health} {m : ℕ} (stack : List ℕ) (w : k.World) {healthy : Bool} {h' : Health}
      {w' : k.World}
      → Owes k s (pos fd) w h m
      → check k (pos fd) h stack w ≡ ok (healthy, h', w')
      → Drained k s (pos fd) m w healthy h' w'
  unfolding check
  check-Drained {h} {m} stack w owes e =
      subst (DrainedOf k s (pos fd) m w) e
        (check_state-DrainedOf k s (pos fd) lawful whole_header h m stack w owes)
