-- ===== src/BestEffort/Read.antt =====
-- bestEffortRead of trpc/detail/bestEffort.h: what a read consumes of the connection's stream.
use t_rpc.Base.{
  ℕ, ◌+◌, ◌-◌, ◌≤◌, ◌≡◌, refl, sym, ap, ◌∙◌, ◌⊎◌, ◌++◌, append_assoc, arith, length, length-append,
  zero, suc,
}
use t_rpc.Base.Word.{ℤ, pos, negsuc, pos_part, minus_one}
use t_rpc.Kernel.{Kernel, Io, Streams, Quiet, Reads, IsLawfulAt}
use t_rpc.BestEffort.{
  Progress, after_io, transfer, read_at, read_job, best_effort_read, best_effort_template,
}
use t_rpc.BestEffort.Loop.{Leaves, Keeps, loop-Leaves}

module _ (k : Kernel) (s : Streams k) (fd : ℤ) (size : ℕ) (w₀ : k.World) where
  open s use {incoming, sent}

  -- Before the result `n` of a call is added to the offset.
  record Received (n : ℕ) (p : Progress k.World) : Type 0 where
    counted : length p.bytes ≡ p.offset + n
    bounded : p.offset + n ≤ size
    prefix : incoming w₀ fd ≡ p.bytes ++ incoming p.world fd
    same_sent : sent p.world fd ≡ sent w₀ fd

  -- What the whole loop gives: -1, or the number of bytes consumed; in both cases the bytes
  -- consumed are the front of the stream and no more than asked for.
  pub record Consumed (r : Io k.World) : Type 0 where
    pub counted : (r.ret ≡ minus_one) ⊎ (r.ret ≡ pos (length r.bytes))
    pub bounded : length r.bytes ≤ size
    pub prefix : incoming w₀ fd ≡ r.bytes ++ incoming r.world fd
    pub same_sent : sent r.world fd ≡ sent w₀ fd

  module _ (lawful : IsLawfulAt k s fd) (timeout max_retries : ℕ) where
    Quiet-Received :
        {n : ℕ} {p : Progress k.World} {w : k.World}
        → Quiet k s fd p.world w
        → Received n p
        → Received n (record p { world = w })
    Quiet-Received q r = record {
      counted = r.counted;
      bounded = r.bounded;
      prefix = rw q.same_incoming r.prefix;
      same_sent = q.same_sent ∙ r.same_sent;
    }

    after_io-Leaves :
        (ret : ℤ) (p : Progress k.World)
        → Received (pos_part ret) p
        → Leaves
            (Received 0)
            Consumed
            (after_io k (read_at k fd) (read_job k fd size timeout max_retries) ret p)
    unfolding after_io
    after_io-Leaves (negsuc n) p r = ground (arith, lawful.usleep-Quiet 1 p.world)
    after_io-Leaves (pos zero) p r = ground (arith)
    after_io-Leaves (pos (suc n)) p r = ground (arith)

    transfer-Leaves :
        (p : Progress k.World)
        → Received 0 p
        → Leaves
            (Received 0)
            Consumed
            (transfer k (read_at k fd) (read_job k fd size timeout max_retries) p)
    unfolding transfer
    transfer-Leaves p r = after_io-Leaves _ _ (record {
      counted = omega (arith, length-append p.bytes got.bytes, reads.counted, r.counted);
      bounded = omega (arith, reads.bounded, r.bounded);
      prefix =
          r.prefix
          ∙ ap (◌++◌ p.bytes) reads.prefix
          ∙ sym (append_assoc p.bytes got.bytes (incoming got.world fd));
      same_sent = reads.same_sent ∙ r.same_sent;
    })
      where
        got : Io k.World
        got = k.co_read fd (size - p.offset) p.world

        reads : Reads k s fd (size - p.offset) p.world got
        reads = lawful.co_read-Reads (size - p.offset) p.world

    read-Keeps :
        Keeps k (read_at k fd) (read_job k fd size timeout max_retries) (Received 0) Consumed
    read-Keeps = record {
      on_now = λ p. Quiet-Received (lawful.now-Quiet p.world);
      on_poll = λ p t. Quiet-Received (lawful.poll-Quiet _ t p.world);
      on_errno = λ p e. Quiet-Received (lawful.set_errno-Quiet e p.world);
      on_failure = λ p r. ground arith;
      on_partial = λ p r. ground arith;
      on_transfer = transfer-Leaves;
    }

    -- A best-effort read takes the front of the stream, at most `size` bytes of it, sends nothing,
    -- and returns either the number of bytes that it took or -1, however the descriptor behaves.
    pub best_effort_read-Consumed : Consumed (best_effort_read k fd size timeout max_retries w₀)
    unfolding best_effort_read best_effort_template
    best_effort_read-Consumed = loop-Leaves k _ _ (Received 0) Consumed read-Keeps _ _ _ (
        Quiet-Received (lawful.now-Quiet w₀)
          (record { counted = refl; bounded = omega arith; prefix = refl; same_sent = refl }))
