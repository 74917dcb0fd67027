-- ===== src/BestEffort/Loop.antt =====
-- trpc/detail/bestEffort.h: an invariant rule for the retry loop, over any function passed in.
use t_rpc.Base.{ℕ, zero, suc, ◌+◌, ◌*◌, inl, inr, Bool-cases, ltb, ◌==◌}
use t_rpc.Base.Word.{ℤ, pos, negsuc, minus_one}
use t_rpc.Kernel.{Kernel, Io}
use t_rpc.BestEffort.{
  Progress, Job, Turn, finished, again, transfer, after_poll, interval, round, give_up, loop,
  etimedout, after_io, eintr, eagain, best_effort_template,
}

-- What a round leaves: a result with `Q`, or progress with `P`.
abbrev pub Leaves : {W : Type 0} → (Progress W → Type 0) → (Io W → Type 0) → Turn W → Type 0
Leaves P Q (finished r) = Q r
Leaves P Q (again p) = P p

module _ (k : Kernel) (func : ℕ → ℕ → k.World → Io k.World) (j : Job) where
  module _ (P : Progress k.World → Type 0) (Q : Io k.World → Type 0) where
    -- What a caller shows: the clock, the poll and errno keep `P`, each way out has `Q`, and a call
    -- of `func` leaves one or the other.
    pub record Keeps : Type 0 where
      pub on_now : (p : Progress k.World) → P p → P (record p { world = (k.now p.world).1 })
      pub on_poll :
          (p : Progress k.World) (t : ℤ)
          → P p
          → P (record p { world = (k.poll j.fd j.event t p.world).1 })
      pub on_errno :
          (p : Progress k.World) (e : ℕ) → P p → P (record p { world = k.set_errno e p.world })
      pub on_failure :
          (p : Progress k.World)
          → P p
          → Q (record { ret = minus_one; bytes = p.bytes; world = p.world })
      pub on_partial :
          (p : Progress k.World)
          → P p
          → Q (record { ret = pos p.offset; bytes = p.bytes; world = p.world })
      pub on_transfer : (p : Progress k.World) → P p → Leaves P Q (transfer k func j p)

    module _ (keeps : Keeps) where
      after_poll-Leaves :
          (ready : ℤ) (p : Progress k.World) → P p → Leaves P Q (after_poll k func j ready p)
      unfolding after_poll
      after_poll-Leaves (negsuc n) p h = keeps.on_failure p h
      after_poll-Leaves (pos zero) p h = h
      after_poll-Leaves (pos (suc n)) p h = keeps.on_transfer p h

      round-Leaves : (start : ℕ) (p : Progress k.World) → P p → Leaves P Q (round k func j start p)
      unfolding round
      round-Leaves start p h =
          elim (Bool-cases (ltb (start + j.timeout * 1_000_000) (k.now p.world).0)) [
            | inl late ↦
                rw late (keeps.on_failure _ (keeps.on_errno _ etimedout (keeps.on_now p h)))
            | inr early ↦
                rw early
                  (after_poll-Leaves _ _ (keeps.on_poll _ (interval k func j) (keeps.on_now p h)))
          ]

      give_up-Leaves : (p : Progress k.World) → P p → Q (give_up k func j p)
      unfolding give_up
      give_up-Leaves p h = elim (Bool-cases (p.offset == 0)) [
        | inl nothing ↦ rw nothing (keeps.on_failure _ (keeps.on_errno p etimedout h))
        | inr some_bytes ↦ rw some_bytes (keeps.on_partial p h)
      ]

      pub loop-Leaves :
          (start left : ℕ) (p : Progress k.World) → P p → Q (loop k func j start left p)
      unfolding loop
      loop-Leaves start zero p h = give_up-Leaves p h
      loop-Leaves start (suc left) p h =
          settle (round k func j start p) (round-Leaves start p h) (loop-Leaves start left)
        where
          settle :
              (t : Turn k.World)
              → Leaves P Q t
              → ((q : Progress k.World) → P q → Q (loop k func j start left q))
              → Q (elim t [ finished r ↦ r | again q ↦ loop k func j start left q ])
          settle (finished r) h rest = h
          settle (again q) h rest = rest q h

  -- A predicate on worlds that a call of `func` and a sleep keep.
  module _ (P : k.World → Type 0) (on_usleep : (w : k.World) → P w → P (k.usleep 1 w))
      (on_func : (o n : ℕ) (w : k.World) → P w → P (func o n w).world) where
    abbrev Kept : Turn k.World → Type 0
    Kept = Leaves (λ p. P p.world) (λ r. P r.world)

    after_io-keeps : (ret : ℤ) (p : Progress k.World) → P p.world → Kept (after_io k func j ret p)
    unfolding after_io
    after_io-keeps (negsuc n) p h = elim (Bool-cases (k.errno p.world == eintr)) [
      | inl interrupted ↦ rw interrupted h
      | inr not_eintr ↦ elim (Bool-cases (k.errno p.world == eagain)) [
        | inl later ↦ rw (not_eintr, later) (on_usleep p.world h)
        | inr failed ↦ rw (not_eintr, failed) h
      ]
    ]
    after_io-keeps (pos zero) p h = h
    after_io-keeps (pos (suc n)) p h = elim (Bool-cases (p.offset + suc n == j.size)) [
      | inl whole ↦ rw whole h
      | inr more ↦ rw more h
    ]

    pub transfer-keeps :
        (p : Progress k.World)
        → P p.world
        → Leaves (λ q. P q.world) (λ r. P r.world) (transfer k func j p)
    unfolding transfer
    transfer-keeps p h = after_io-keeps _ _ (on_func p.offset _ p.world h)

    -- The clock, the poll and errno keep it too, and so the whole transfer does.
    pub best_effort_template-keeps :
        ((w : k.World) → P w → P (k.now w).1)
        → ((e : ℕ) (t : ℤ) (w : k.World) → P w → P (k.poll j.fd e t w).1)
        → ((e : ℕ) (w : k.World) → P w → P (k.set_errno e w))
        → (w : k.World) → P w
        → P (best_effort_template k func j w).world
    unfolding best_effort_template
    best_effort_template-keeps on_now on_poll on_errno w h =
        loop-Leaves (λ p. P p.world) (λ r. P r.world)
          (record {
            on_now = λ p q. on_now p.world q;
            on_poll = λ p t q. on_poll j.event t p.world q;
            on_errno = λ p e q. on_errno e p.world q;
            on_failure = λ p q. q;
            on_partial = λ p q. q;
            on_transfer = transfer-keeps;
          })
          (k.now w).0 j.max_retries _ (on_now w h)
