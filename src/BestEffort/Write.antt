-- ===== src/BestEffort/Write.antt =====
-- bestEffortWrite of trpc/detail/bestEffort.h: what a write puts on the connection's stream.
use t_rpc.Base.{
  ==_iff, ◌==◌, Bool-cases, subst, ℕ, zero, suc, ◌+◌, ◌-◌, ◌≤◌, ◌≡◌, refl, sym, ap, ◌∙◌, ◌⊎◌, inl,
  inr, List, ◌++◌, append-nil, append_assoc, arith, length, length-take, take, take-add, take-take,
  drop,
}
use native.Mathlib.Nat.{add-zero}
use t_rpc.Base.Word.{ℤ, pos, negsuc, pos_part, minus_one}
use t_rpc.Kernel.{Kernel, Io, Streams, Quiet, Writes, IsLawfulAt}
use t_rpc.BestEffort.{
  Progress, after_io, transfer, write_at, write_job, best_effort_write, best_effort_template, eintr,
  eagain,
}
use t_rpc.BestEffort.Loop.{Leaves, Keeps, loop-Leaves}

module _ (k : Kernel) (s : Streams k) (fd : ℤ) (buf : List ℕ) (size : ℕ) (w₀ : k.World) where
  open s use {incoming, sent}

  -- The first `n` bytes of the buffer have gone out.
  record Sent (n : ℕ) (w : k.World) : Type 0 where
    bounded : n ≤ size
    appended : sent w fd ≡ sent w₀ fd ++ take n buf
    same_incoming : incoming w fd ≡ incoming w₀ fd

  abbrev InStep : Progress k.World → Type 0
  InStep p = Sent p.offset p.world

  -- What the whole loop gives: some front of the buffer has gone out, and the result is its length
  -- or -1.
  pub record Delivered (r : Io k.World) : Type 0 where
    pub count : ℕ
    pub reported : (r.ret ≡ minus_one) ⊎ (r.ret ≡ pos count)
    pub bounded : count ≤ size
    pub appended : sent r.world fd ≡ sent w₀ fd ++ take count buf
    pub same_incoming : incoming r.world fd ≡ incoming w₀ fd

  module _ (lawful : IsLawfulAt k s fd) (timeout max_retries : ℕ) where
    Quiet-Sent : {n : ℕ} {w w' : k.World} → Quiet k s fd w w' → Sent n w → Sent n w'
    Quiet-Sent q r = record {
      bounded = r.bounded;
      appended = q.same_sent ∙ r.appended;
      same_incoming = q.same_incoming ∙ r.same_incoming;
    }

    failure-Delivered :
        (p : Progress k.World)
        → Sent p.offset p.world
        → Delivered (record { ret = minus_one; bytes = p.bytes; world = p.world })
    failure-Delivered p r = record {
      count = p.offset;
      reported = inl refl;
      bounded = r.bounded;
      appended = r.appended;
      same_incoming = r.same_incoming;
    }

    partial-Delivered :
        (p : Progress k.World)
        → Sent p.offset p.world
        → Delivered (record { ret = pos p.offset; bytes = p.bytes; world = p.world })
    partial-Delivered p r = record {
      count = p.offset;
      reported = inr refl;
      bounded = r.bounded;
      appended = r.appended;
      same_incoming = r.same_incoming;
    }

    after_io-Leaves :
        (ret : ℤ) (p : Progress k.World)
        → Sent (p.offset + pos_part ret) p.world
        → Leaves InStep Delivered
            (after_io k (write_at k fd buf) (write_job k fd size timeout max_retries) ret p)
    unfolding after_io
    after_io-Leaves (negsuc n) p r =
        let r' : Sent p.offset p.world = rw (add-zero p.offset) at r in
        elim (Bool-cases (k.errno p.world == eintr)) [
          | inl interrupted ↦ rw interrupted r'
          | inr other ↦ elim (Bool-cases (k.errno p.world == eagain)) [
            | inl busy ↦ rw (other, busy) (Quiet-Sent (lawful.usleep-Quiet 1 p.world) r')
            | inr broken ↦ rw (other, broken) (failure-Delivered p r')
          ]
        ]
    after_io-Leaves (pos zero) p r = partial-Delivered p (rw (add-zero p.offset) at r)
    after_io-Leaves (pos (suc n)) p r = elim (Bool-cases (p.offset + suc n == size)) [
      | inl whole ↦ rw whole (
          subst (λ t. Delivered (record { ret = pos t; bytes = p.bytes; world = p.world }))
            ((==_iff _ _).0 whole) (partial-Delivered (record p { offset = p.offset + suc n }) r))
      | inr less ↦ rw less r
    ]

    transfer-Leaves :
        (p : Progress k.World)
        → Sent p.offset p.world
        → Leaves InStep Delivered
            (transfer k (write_at k fd buf) (write_job k fd size timeout max_retries) p)
    unfolding transfer
    transfer-Leaves p r = after_io-Leaves _ _ (record {
      bounded = omega (arith, put.bounded, r.bounded, short);
      appended =
          put.appended
          ∙ ap (λ t. t ++ take n bytes) r.appended
          ∙ append_assoc (sent w₀ fd) (take p.offset buf) (take n bytes)
          ∙ ap (λ t. sent w₀ fd ++ (take p.offset buf ++ t))
              (take-take n (size - p.offset) (drop p.offset buf)
                (omega (arith, put.bounded, short)))
          ∙ ap (◌++◌ (sent w₀ fd)) (take-add p.offset n buf);
      same_incoming = put.same_incoming ∙ r.same_incoming;
    })
      where
        bytes : List ℕ
        bytes = take (size - p.offset) (drop p.offset buf)

        put : Writes k s fd bytes p.world (k.co_write fd bytes p.world)
        put = lawful.co_write-Writes bytes p.world

        n : ℕ
        n = pos_part (k.co_write fd bytes p.world).ret

        short : length bytes ≤ size - p.offset
        short = omega (arith, length-take (size - p.offset) (drop p.offset buf))

    write-Keeps :
        Keeps k (write_at k fd buf) (write_job k fd size timeout max_retries) InStep Delivered
    write-Keeps = record {
      on_now = λ p. Quiet-Sent (lawful.now-Quiet p.world);
      on_poll = λ p t. Quiet-Sent (lawful.poll-Quiet _ t p.world);
      on_errno = λ p e. Quiet-Sent (lawful.set_errno-Quiet e p.world);
      on_failure = failure-Delivered;
      on_partial = partial-Delivered;
      on_transfer = transfer-Leaves;
    }

    -- A best-effort write sends the first `count` bytes of its buffer, for some count up to `size`,
    -- reads nothing, and returns either that count or -1, however the descriptor behaves.
    pub best_effort_write-Delivered :
        Delivered (best_effort_write k fd buf size timeout max_retries w₀)
    unfolding best_effort_write best_effort_template
    best_effort_write-Delivered = loop-Leaves k _ _ InStep Delivered write-Keeps _ _ _ (
        Quiet-Sent (lawful.now-Quiet w₀)
          (record { bounded = omega arith; appended = sym (append-nil _); same_incoming = refl }))
