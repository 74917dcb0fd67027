-- ===== src/BestEffort/Live.antt =====
-- trpc/detail/bestEffort.h: progress of the retry loop, over any function passed in. A connection
-- on which every call moves a chunk at least needs a number of rounds that the size gives.
use native.Mathlib.Nat.{suc-mul, zero-mul}
use t_rpc.Base.{
  [], ap, subst, ==_iff, Bool-cases, ℕ, zero, suc, ◌+◌, ◌-◌, ◌*◌, ◌≤◌, ◌<◌, ◌≡◌, refl, ◌⊎◌, inl,
  inr, false, ◌==◌, le→ltb, arith,
}
use t_rpc.Base.Word.{pos}
use t_rpc.Kernel.{Kernel, Io}
use t_rpc.BestEffort.{
  Progress, Job, Turn, finished, again, transfer, after_io, after_poll, interval, round, loop,
  best_effort_template,
}

pos_of_pos-mul : (a b : ℕ) → 0 < a * b → 0 < a
pos_of_pos-mul zero b h = absurd (omega (arith, zero-mul b, h))
pos_of_pos-mul (suc a) b h = omega arith

module _ (k : Kernel) (func : ℕ → ℕ → k.World → Io k.World) (j : Job) (chunk tick lap : ℕ)
    (Ready : ℕ → k.World → Type 0) where
  -- In a world that is ready at an offset the poll reports an event, and a call of `func` moves all
  -- that is left or a chunk at least; no call is made when all has been moved. Each call takes a
  -- tick of the clock at most, the three calls of a round a lap.
  pub record Flows : Type 0 where
    pub on_now : (o : ℕ) (w : k.World) → Ready o w → Ready o (k.now w).1
    pub laps : 3 * tick ≤ lap
    pub now_brief : (o : ℕ) (w : k.World) → Ready o w → (k.now (k.now w).1).0 ≤ (k.now w).0 + tick
    pub poll_brief :
        (o : ℕ) (w : k.World)
        → Ready o w
        → (k.now (k.poll j.fd j.event (interval k func j) w).1).0 ≤ (k.now w).0 + tick
    pub moves_brief :
        (o : ℕ) (w : k.World)
        → o ≤ j.size
        → Ready o w
        → (k.now (func o (j.size - o) w).world).0 ≤ (k.now w).0 + tick
    pub on_poll :
        (o : ℕ) (w : k.World) → Ready o w → Ready o (k.poll j.fd j.event (interval k func j) w).1
    pub ready :
        (o : ℕ) (w : k.World)
        → Ready o w
        → (n : ℕ) × ((k.poll j.fd j.event (interval k func j) w).0 ≡ pos (suc n))
    pub moves :
        (o : ℕ) (w : k.World)
        → o ≤ j.size
        → (o ≡ 0) ⊎ (o < j.size)
        → Ready o w
        → (m : ℕ) × ((func o (j.size - o) w).ret ≡ pos m)
          × ((m ≡ j.size - o) ⊎ ((chunk ≤ m) × (m ≤ j.size - o)))
          × Ready (o + m) (func o (j.size - o) w).world

  module _ (flows : Flows) (some_chunk : 0 < chunk) (limit : ℕ) where
    -- All has been moved.
    record Moved (r : Io k.World) : Type 0 where
      whole : r.ret ≡ pos j.size
      still : Ready j.size r.world

    -- `left` rounds are enough for the rest, and there is time for them.
    record Enough (left : ℕ) (p : Progress k.World) : Type 0 where
      some_left : 0 < left
      inside : p.offset ≤ j.size
      unfinished : (p.offset ≡ 0) ⊎ (p.offset < j.size)
      reaches : j.size ≤ p.offset + left * chunk
      early : (k.now p.world).0 + left * lap ≤ limit + tick
      live : Ready p.offset p.world

    abbrev After : ℕ → Turn k.World → Type 0
    After left (finished r) = Moved r
    After left (again p) = Enough left p

    after_io-After :
        (left m : ℕ) (p : Progress k.World)
        → p.offset ≤ j.size
        → j.size ≤ p.offset + suc left * chunk
        → (m ≡ j.size - p.offset) ⊎ ((chunk ≤ m) × (m ≤ j.size - p.offset))
        → (k.now p.world).0 + left * lap ≤ limit + tick
        → Ready (p.offset + m) p.world
        → After left (after_io k func j (pos m) p)
    unfolding after_io
    after_io-After left zero p le enough step early r =
        let all : p.offset ≡ j.size = omega (arith, no_chunk step) in
        record { whole = ap pos all; still = subst (λ o. Ready o p.world) (omega (arith, all)) r }
      where
        no_chunk :
            (zero ≡ j.size - p.offset) ⊎ ((chunk ≤ zero) × (zero ≤ j.size - p.offset))
            → j.size ≤ p.offset
        no_chunk (inl e) = omega arith
        no_chunk (inr (h, _)) = absurd (omega arith)
    after_io-After left (suc n) p le enough step early r =
        elim (Bool-cases (p.offset + suc n == j.size)) [
          | inl all ↦ rw all (record {
            whole = refl;
            still = subst (λ o. Ready o p.world) ((==_iff (p.offset + suc n) j.size).0 all) r;
          })
          | inr less ↦ rw less (record {
            some_left =
                pos_of_pos-mul left chunk
                  (omega (arith, suc-mul left chunk, chunk_moved step less));
            inside = inside step;
            unfinished = inr (chunk_moved step less).1;
            reaches = omega (arith, suc-mul left chunk, chunk_moved step less);
            early = early;
            live = r;
          })
        ]
      where
        inside :
            (suc n ≡ j.size - p.offset) ⊎ ((chunk ≤ suc n) × (suc n ≤ j.size - p.offset))
            → p.offset + suc n ≤ j.size
        inside (inl e) = omega arith
        inside (inr (_, h)) = omega arith

        -- What was moved is a chunk, unless it is all.
        chunk_moved :
            (suc n ≡ j.size - p.offset) ⊎ ((chunk ≤ suc n) × (suc n ≤ j.size - p.offset))
            → (p.offset + suc n == j.size) ≡ false
            → (chunk ≤ suc n) × (p.offset + suc n < j.size)
        chunk_moved (inl e) ne = ground arith
        chunk_moved (inr (h, h')) ne = (h, ground arith)

    -- The same after the poll of a round, with one more call to come in it.
    record Polled (left : ℕ) (p : Progress k.World) : Type 0 where
      inside : p.offset ≤ j.size
      unfinished : (p.offset ≡ 0) ⊎ (p.offset < j.size)
      reaches : j.size ≤ p.offset + suc left * chunk
      early : (k.now p.world).0 + left * lap ≤ limit
      live : Ready p.offset p.world

    after_poll-After :
        (left n : ℕ) (p : Progress k.World)
        → Polled left p
        → After left (after_poll k func j (pos (suc n)) p)
    unfolding after_poll transfer
    after_poll-After left n p h =
        let (m, moved, step, r) = flows.moves p.offset p.world h.inside h.unfinished h.live in
        rw moved (
          after_io-After left m _ h.inside h.reaches step
            (omega (arith, flows.moves_brief p.offset p.world h.inside h.live, h.early)) r)

    round-After :
        (left start : ℕ) (p : Progress k.World)
        → limit ≡ start + j.timeout * 1_000_000
        → Enough (suc left) p
        → After left (round k func j start p)
    unfolding round
    round-After left start p at h =
        let awake = flows.on_now p.offset p.world h.live in
        let (n, event) = flows.ready p.offset (k.now p.world).1 awake in
        rw
          (
            le→ltb (start + j.timeout * 1_000_000) (k.now p.world).0
                (omega (arith, h.early, suc-mul left lap, flows.laps, at)),
            event,
          )
          (after_poll-After left n _ (record {
            inside = h.inside;
            unfinished = h.unfinished;
            reaches = h.reaches;
            early = omega (
              arith,
              h.early,
              suc-mul left lap,
              flows.laps,
              flows.now_brief p.offset p.world h.live,
              flows.poll_brief p.offset (k.now p.world).1 awake,
            );
            live = flows.on_poll p.offset (k.now p.world).1 awake;
          }))

    loop-Moved :
        (start left : ℕ) (p : Progress k.World)
        → limit ≡ start + j.timeout * 1_000_000
        → Enough left p
        → Moved (loop k func j start left p)
    unfolding loop
    loop-Moved start zero p at h = absurd (omega (arith, h.some_left))
    loop-Moved start (suc left) p at h =
        settle (round k func j start p) (round-After left start p at h) (loop-Moved start left)
      where
        settle :
            (t : Turn k.World)
            → After left t
            → ((q : Progress k.World)
                → limit ≡ start + j.timeout * 1_000_000
                → Enough left q
                → Moved (loop k func j start left q))
            → Moved (elim t [ finished r ↦ r | again q ↦ loop k func j start left q ])
        settle (finished r) h rest = h
        settle (again q) h rest = rest q at h

  -- With enough rounds for the size, and time for them, the whole size is moved.
  pub best_effort_template_live :
      Flows
      → 0 < chunk
      → (w : k.World) → Ready 0 w
      → 0 < j.max_retries
      → j.size ≤ j.max_retries * chunk
      → j.max_retries * lap ≤ j.timeout * 1_000_000
      → ((best_effort_template k func j w).ret ≡ pos j.size)
        × Ready j.size (best_effort_template k func j w).world
  unfolding best_effort_template
  best_effort_template_live flows some_chunk w r some_left reaches time =
      let moved =
        loop-Moved flows some_chunk ((k.now w).0 + j.timeout * 1_000_000) (k.now w).0 j.max_retries
          (record { offset = 0; bytes = []; world = (k.now w).1 }) refl
          (record {
            some_left = some_left;
            inside = omega arith;
            unfinished = inl refl;
            reaches = omega (arith, reaches);
            early = omega (arith, flows.now_brief 0 w r, time);
            live = flows.on_now 0 w r;
          }) in
      (moved.whole, moved.still)
