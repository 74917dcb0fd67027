-- ===== src/Health/Drain.antt =====
-- Health::check of trpc/detail/Health.h: what a healthy answer says about the stream.
use t_rpc.Base.{
  ℕ, zero, suc, ◌+◌, ◌-◌, ◌^◌, ◌≤◌, ◌<◌, ◌≡◌, refl, sym, ap, ◌∙◌, inl, inr, Bool, true, false, List,
  [], ◌++◌, append_assoc, some, length, length-append, arith, ltb, Option-cases, if◌then◌else◌,
  take, drop, take-append, store_at-some, Bool-cases, ltb→lt, ltb→le, store_at, subst,
}
use t_rpc.Base.Word.{
  swap32, load32, swap32-lt, load32-append, ℤ, pos, negsuc, pos_part, sub64-eq-sub,
}
use t_rpc.Kernel.{Kernel, Io, Streams, Reads, IsLawfulAt}
use t_rpc.Outcome.{Outcome, ok, throws, undefined}
use t_rpc.Codec.Framing.{content_length-snd}
use t_rpc.Health.{
  Health, State, undefined_state, no_read, header_read_some, content_read_some, buf_size, advance,
  learn, state_machine, pass, check_loop,
}

module _ (k : Kernel) (s : Streams k) (fd : ℤ) where
  open s use {incoming, sent}

  -- Exactly `n` bytes of the stream have been read since, and nothing sent.
  pub record Taken (n : ℕ) (w w' : k.World) : Type 0 where
    pub bytes : List ℕ
    pub counted : length bytes ≡ n
    pub prefix : incoming w fd ≡ bytes ++ incoming w' fd
    pub same_sent : sent w' fd ≡ sent w fd

  pub Taken-zero : (w : k.World) → Taken 0 w w
  Taken-zero w = record { bytes = []; counted = refl; prefix = refl; same_sent = refl }

  pub Taken-add :
      {m n : ℕ} {w w' w'' : k.World} → Taken m w w' → Taken n w' w'' → Taken (m + n) w w''
  Taken-add {w'' = w''} t u = record {
    bytes = t.bytes ++ u.bytes;
    counted = omega (arith, length-append t.bytes u.bytes, t.counted, u.counted);
    prefix =
        t.prefix
        ∙ ap (◌++◌ t.bytes) u.prefix
        ∙ sym (append_assoc t.bytes u.bytes (incoming w'' fd));
    same_sent = u.same_sent ∙ t.same_sent;
  }

  pub Reads-Taken :
      {size : ℕ} {w : k.World} {r : Io k.World}
      → Reads k s fd size w r
      → Taken (pos_part r.ret) w r.world
  Reads-Taken {r = r} h = record {
    bytes = r.bytes;
    counted = h.counted;
    prefix = h.prefix;
    same_sent = h.same_sent;
  }

  -- A healthy answer comes with `n` bytes read since `w`, and with the initial state.
  abbrev pub Drains : ℕ → k.World → Outcome (Bool × Health × k.World) → Type 0
  Drains n w (ok (true, h, w')) = Taken n w w' × (h.state ≡ no_read)
  Drains n w _ = Unit {0}

  Drains-add :
      (m n total : ℕ) {w w' : k.World} (r : Outcome (Bool × Health × k.World))
      → m + n ≡ total
      → Taken m w w'
      → Drains n w' r
      → Drains total w r
  Drains-add m n total {w} (ok (true, h, w'')) e t d =
      (subst (λ x. Taken x w w'') e (Taken-add t d.0), d.1)
  Drains-add m n total {w} (ok (false, h, w'')) e t d = tt
  Drains-add m n total {w} (throws x) e t d = tt
  Drains-add m n total {w} undefined e t d = tt

  abbrev pub at_state : ℕ → ℕ → State → Health
  at_state a n st = record { some_bytes = a; content = n; state = st }

  no_read-Drains :
      (c a n : ℕ) (buf : List ℕ) (w : k.World)
      → Drains 0 w (check_loop k fd c (at_state a n no_read) buf w)
  unfolding check_loop pass
  no_read-Drains zero a n buf w = tt
  no_read-Drains (suc c) a n buf w = (Taken-zero w, refl)

  undefined-Drains :
      (c m a n : ℕ) (buf : List ℕ) (w₀ w : k.World)
      → Drains m w₀ (check_loop k fd c (at_state a n undefined_state) buf w)
  unfolding check_loop pass
  undefined-Drains zero m a n buf w₀ w = tt
  undefined-Drains (suc c) m a n buf w₀ w = undefined-Drains c m a n buf w₀ w

  -- One read of the content, with what the later passes give.
  after_content :
      (c a n : ℕ) {w : k.World}
      → a ≤ n
      → ((a' : ℕ) (buf : List ℕ) (w' : k.World)
          → a' ≤ n
          → Drains (n - a') w' (check_loop k fd c (at_state a' n content_read_some) buf w'))
      → (ret : ℤ) (buf : List ℕ) (w' : k.World) → pos_part ret ≤ n - a
      → Taken (pos_part ret) w w'
      → Drains
          (n - a)
          w
          (check_loop k fd c (advance ret (n - a) no_read (at_state a n content_read_some)) buf w')
  unfolding advance
  after_content c a n le rest (negsuc m) buf w' b t = undefined-Drains c (n - a) a n buf _ w'
  after_content c a n le rest (pos zero) buf w' b t = undefined-Drains c (n - a) a n buf _ w'
  after_content c a n le rest (pos (suc m)) buf w' b t = elim (Bool-cases (ltb (suc m) (n - a))) [
    | inl part ↦ rw part (
        Drains-add (suc m) (n - (a + suc m)) (n - a) _ (omega (arith, ltb→lt _ _ part)) t
          (rest (a + suc m) buf w' (omega (arith, ltb→lt _ _ part))))
    | inr whole ↦ rw whole (
        Drains-add (suc m) 0 (n - a) _ (omega (arith, b, ltb→le _ _ whole)) t
          (no_read-Drains c 0 n buf w'))
  ]

  -- The state that `learn` leaves after a header that announces `n` bytes.
  abbrev pub announced : ℕ → Health
  announced n =
      if ltb buf_size n then at_state 0 n undefined_state else at_state 0 n content_read_some

  pub learn-announced :
      (buf : List ℕ) (n : ℕ)
      → learn buf (at_state 0 n content_read_some) ≡ announced (swap32 (load32 buf))
  unfolding learn
  learn-announced buf n = rw (content_length-snd buf 4 (omega arith))

  module _ (lawful : IsLawfulAt k s fd) where
    -- The content case: what is left of the content is read, and no more.
    pub content-Drains :
        (c a n : ℕ) (buf : List ℕ) (w : k.World)
        → a ≤ n
        → n < 2 ^ 64
        → Drains (n - a) w (check_loop k fd c (at_state a n content_read_some) buf w)
    unfolding check_loop pass state_machine
    content-Drains zero a n buf w le small = tt
    content-Drains (suc c) a n buf w le small =
        rw (sub64-eq-sub n a le small) (elim (Option-cases (store_at buf 0 got.bytes)) [
          | inl overrun ↦ rw (overrun, state_machine) tt
          | inr (buf', stored) ↦
              rw (stored, state_machine)
                (after_content c a n le
                  (λ a' buf'' w'' le'. content-Drains c a' n buf'' w'' le' small) got.ret buf'
                  got.world reads.bounded (Reads-Taken reads))
        ])
      where
        got : Io k.World
        got = k.read fd (n - a) w

        reads : Reads k s fd (n - a) w got
        reads = lawful.read-Reads (n - a) w

    -- Once the header's bytes are there.
    after_header :
        (c m n total : ℕ) (buf : List ℕ) {w : k.World} (w' : k.World)
        → m + n ≡ total
        → n < 2 ^ 32
        → Taken m w w'
        → Drains total w (check_loop k fd c (announced n) buf w')
    after_header c m n total buf {w} w' e small t = elim (Bool-cases (ltb buf_size n)) [
      | inl huge ↦ rw huge (undefined-Drains c total 0 n buf w w')
      | inr fits ↦ rw fits (
          Drains-add m (n - 0) total _ (omega arith) t
            (content-Drains c 0 n buf w' (omega arith) (omega arith)))
    ]

    -- The header case with the four bytes in one read: the announced content follows.
    pub header-Drains :
        (c n : ℕ) (buf : List ℕ) (w : k.World)
        → length buf ≡ buf_size
        → (k.read fd 4 w).ret ≡ pos 4
        → Drains
            (4 + swap32 (load32 (take 4 (incoming w fd))))
            w
            (check_loop k fd c (at_state 0 n header_read_some) buf w)
    unfolding check_loop pass advance state_machine
    header-Drains zero n buf w room whole = tt
    header-Drains (suc c) n buf w room whole =
        rw (stored, state_machine)
          (rw (whole, learn-announced buf' n, announces)
            (after_header c 4 _ _ buf' got.world refl (swap32-lt _)
              (subst (λ t. Taken t w got.world) (ap pos_part whole) (Reads-Taken reads))))
      where
        got : Io k.World
        got = k.read fd 4 w

        reads : Reads k s fd 4 w got
        reads = lawful.read-Reads 4 w

        four : length got.bytes ≡ 4
        four = reads.counted ∙ ap pos_part whole

        buf' : List ℕ
        buf' = got.bytes ++ drop (0 + length got.bytes) buf

        stored : store_at buf 0 got.bytes ≡ some buf'
        stored = store_at-some buf 0 got.bytes (omega (arith, four))

        announces : swap32 (load32 buf') ≡ swap32 (load32 (take 4 (incoming w fd)))
        announces = ap swap32 (
            load32-append got.bytes _ four
            ∙ ap load32 (
                sym (take-append got.bytes (incoming got.world fd))
                ∙ ap (λ t. take t (got.bytes ++ incoming got.world fd)) four
                ∙ ap (take 4) (sym reads.prefix)))
