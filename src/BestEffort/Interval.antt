-- ===== src/BestEffort/Interval.antt =====
-- The interval of bestEffortTemplate in trpc/detail/bestEffort.h: how long each poll may wait, and
-- all of them together.
use t_rpc.Base.{
  [], ℕ, zero, suc, ◌+◌, ◌*◌, ◌/◌, ◌^◌, ◌≤◌, ◌<◌, ◌≡◌, ◌↔◌, ◌==◌, ltb, inl, inr, Bool-cases, arith,
}
use native.Mathlib.Nat.{mul-div-le}
use t_rpc.Base.Word.{ℤ, pos, negsuc, to_int32}
use t_rpc.BestEffort.{
  Job, Progress, Turn, finished, again, interval, after_poll, round, give_up, loop,
  best_effort_template,
}
use t_rpc.BestEffort.Loop.{Leaves, transfer-keeps}
use t_rpc.Kernel.{Kernel, Io}

to_int32_exact : (n : ℕ) → (to_int32 n ≡ pos n) ↔ (n < 2 ^ 31)
to_int32_exact n = ground arith

module _ (k : Kernel) (func : ℕ → ℕ → k.World → Io k.World) (j : Job) where
  -- The interval of the polls is the timeout divided by the retries exactly if that quotient is
  -- below 2 ^ 31; otherwise the conversion to `int` has changed it.
  interval_exact :
      (interval k func j ≡ pos (j.timeout / j.max_retries)) ↔ (j.timeout / j.max_retries < 2 ^ 31)
  unfolding interval
  interval_exact = to_int32_exact (j.timeout / j.max_retries)

  -- A meter that counts the time that the polls allot, and nothing else.
  pub record Meters (allotted : k.World → ℕ) : Type 0 where
    pub on_now : (w : k.World) → allotted (k.now w).1 ≡ allotted w
    pub on_poll :
        (t : ℕ) (w : k.World) → allotted (k.poll j.fd j.event (pos t) w).1 ≤ allotted w + t
    pub on_errno : (e : ℕ) (w : k.World) → allotted (k.set_errno e w) ≡ allotted w
    pub on_usleep : (n : ℕ) (w : k.World) → allotted (k.usleep n w) ≡ allotted w
    pub on_func : (o n : ℕ) (w : k.World) → allotted (func o n w).world ≡ allotted w

  module _ (allotted : k.World → ℕ) (meters : Meters allotted)
      (exact : j.timeout / j.max_retries < 2 ^ 31) where
    abbrev Within : ℕ → Turn k.World → Type 0
    Within b = Leaves (λ p. allotted p.world ≤ b) (λ r. allotted r.world ≤ b)

    after_poll-Within :
        (b : ℕ) (ready : ℤ) (p : Progress k.World)
        → allotted p.world ≤ b
        → Within b (after_poll k func j ready p)
    unfolding after_poll
    after_poll-Within b (negsuc n) p h = h
    after_poll-Within b (pos zero) p h = h
    after_poll-Within b (pos (suc n)) p h =
        transfer-keeps k func j (λ w. allotted w ≤ b)
          (λ w h'. omega (arith, meters.on_usleep 1 w, h'))
          (λ o n w h'. omega (arith, meters.on_func o n w, h')) p h

    round-Within :
        (start : ℕ) (p : Progress k.World)
        → Within (allotted p.world + j.timeout / j.max_retries) (round k func j start p)
    unfolding round
    round-Within start p =
        let w : k.World = (k.now p.world).1 in
        elim (Bool-cases (ltb (start + j.timeout * 1_000_000) (k.now p.world).0)) [
          | inl late ↦ rw late (omega (arith, meters.on_errno 110 w, meters.on_now p.world))
          | inr early ↦
              rw (early, interval_exact.1 exact)
                (after_poll-Within _ _ _ (
                  omega
                    (arith, meters.on_poll (j.timeout / j.max_retries) w, meters.on_now p.world)))
        ]

    give_up-Within : (p : Progress k.World) → allotted (give_up k func j p).world ≤ allotted p.world
    unfolding give_up
    give_up-Within p = elim (Bool-cases (p.offset == 0)) [
      | inl nothing ↦ rw nothing (omega (arith, meters.on_errno 110 p.world))
      | inr some_bytes ↦ rw some_bytes (omega arith)
    ]

    abbrev AtMost : ℕ → Io k.World → Type 0
    AtMost b r = allotted r.world ≤ b

    loop-Within :
        (start left : ℕ) (p : Progress k.World)
        → AtMost
            (allotted p.world + left * (j.timeout / j.max_retries))
            (loop k func j start left p)
    unfolding loop
    loop-Within start zero p = omega (arith, give_up-Within p)
    loop-Within start (suc left) p =
        settle (round k func j start p) (round-Within start p) (loop-Within start left)
      where
        settle :
            (t : Turn k.World)
            → Within (allotted p.world + j.timeout / j.max_retries) t
            → ((q : Progress k.World)
                → AtMost
                    (allotted q.world + left * (j.timeout / j.max_retries))
                    (loop k func j start left q))
            → AtMost
                (allotted p.world + suc left * (j.timeout / j.max_retries))
                (elim t [ finished r ↦ r | again q ↦ loop k func j start left q ])
        settle (finished r) h rest = omega (arith, h)
        settle (again q) h rest = omega (arith, h, rest q)

    -- When the timeout divided by the retries is below 2 ^ 31, all the polls of a best-effort
    -- transfer together are given no more than its timeout.
    pub best_effort_template_bounded :
        (w : k.World) → allotted (best_effort_template k func j w).world ≤ allotted w + j.timeout
    unfolding best_effort_template
    best_effort_template_bounded w = omega (
      arith,
      loop-Within (k.now w).0 j.max_retries
          (record { offset = 0; bytes = []; world = (k.now w).1 }),
      meters.on_now w,
      mul-div-le j.timeout j.max_retries,
    )
