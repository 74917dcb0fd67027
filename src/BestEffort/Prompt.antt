-- ===== src/BestEffort/Prompt.antt =====
-- bestEffortRead and bestEffortWrite of trpc/detail/bestEffort.h on a prompt connection: what the
-- caller may count on while the peer and the system keep up.
use t_rpc.Base.{
  subst, ℕ, suc, ◌+◌, ◌-◌, ◌*◌, ◌≤◌, ◌<◌, ◌≡◌, ap, ◌⊎◌, inl, inr, List, length, take, drop,
  length-append, length-take, length-drop, arith,
}
use t_rpc.Base.Word.{ℤ, pos, pos_part}
use t_rpc.BestEffort.{best_effort_read, best_effort_write, read_at, read_job, write_at, write_job}
use t_rpc.BestEffort.Live.{Flows, best_effort_template_live}
use t_rpc.Kernel.{Kernel, Streams, IsLawfulAt}

-- In a world that is `Live`, every poll of the descriptor reports an event, and a transfer moves
-- all it is asked for, or `chunk` bytes at least. A read is only asked to when the bytes are there.
-- The clock may go on in each call, by a window at most, and the world is live again after it.
pub record Prompt (k : Kernel) (s : Streams k) (fd : ℤ) (window chunk : ℕ) (Live : k.World → Type 0)
    : Type 0 where
  pub some_chunk : 0 < chunk
  pub now_brief : (w : k.World) → Live w → (k.now (k.now w).1).0 ≤ (k.now w).0 + window
  pub poll_brief :
      (e : ℕ) (t : ℤ) (w : k.World) → Live w → (k.now (k.poll fd e t w).1).0 ≤ (k.now w).0 + window
  pub read_brief :
      (n : ℕ) (w : k.World) → Live w → (k.now (k.co_read fd n w).world).0 ≤ (k.now w).0 + window
  pub write_brief :
      (bs : List ℕ) (w : k.World)
      → Live w
      → (k.now (k.co_write fd bs w).world).0 ≤ (k.now w).0 + window
  pub now_live : (w : k.World) → Live w → Live (k.now w).1
  pub poll_live : (e : ℕ) (t : ℤ) (w : k.World) → Live w → Live (k.poll fd e t w).1
  pub poll_ready :
      (e : ℕ) (t : ℤ) (w : k.World) → Live w → (n : ℕ) × ((k.poll fd e t w).0 ≡ pos (suc n))
  pub read_live : (n : ℕ) (w : k.World) → Live w → Live (k.co_read fd n w).world
  pub read_some :
      (n : ℕ) (w : k.World)
      → Live w
      → n ≤ length (s.incoming w fd)
      → (m : ℕ) × ((k.co_read fd n w).ret ≡ pos m) × ((m ≡ n) ⊎ (chunk ≤ m))
  pub write_live : (bs : List ℕ) (w : k.World) → Live w → Live (k.co_write fd bs w).world
  pub write_some :
      (bs : List ℕ) (w : k.World)
      → Live w
      → (m : ℕ) × ((k.co_write fd bs w).ret ≡ pos m) × ((m ≡ length bs) ⊎ (chunk ≤ m))

module _ (k : Kernel) (s : Streams k) (fd : ℤ) (lawful : IsLawfulAt k s fd) (window chunk : ℕ)
    (Live : k.World → Type 0) (prompt : Prompt k s fd window chunk Live) where
  bounded_step : (m n : ℕ) → (m ≡ n) ⊎ (chunk ≤ m) → m ≤ n → (m ≡ n) ⊎ ((chunk ≤ m) × (m ≤ n))
  bounded_step m n (inl e) h = inl e
  bounded_step m n (inr c) h = inr (c, h)

  module _ (size timeout max_retries : ℕ)
      (within : max_retries * (3 * window) ≤ timeout * 1_000_000) (some_retries : 0 < max_retries)
      (reaches : size ≤ max_retries * chunk) where
    -- Alive, with the bytes from the offset on still to come.
    abbrev Waiting : ℕ → k.World → Type 0
    Waiting o w = Live w × (size - o ≤ length (s.incoming w fd))

    read_moves :
        (o : ℕ) (w : k.World)
        → o ≤ size
        → Waiting o w
        → (m : ℕ) × ((k.co_read fd (size - o) w).ret ≡ pos m)
          × ((m ≡ size - o) ⊎ ((chunk ≤ m) × (m ≤ size - o)))
          × Waiting (o + m) (k.co_read fd (size - o) w).world
    read_moves o w le r =
        let (m, moved, step) = prompt.read_some (size - o) w r.0 r.1 in
        let reads = lawful.co_read-Reads (size - o) w in
        let m_le : m ≤ size - o = omega (arith, reads.bounded, ap pos_part moved) in
        let gone : length (s.incoming w fd)
            ≡ m + length (s.incoming (k.co_read fd (size - o) w).world fd) =
          omega (
            arith,
            ap length reads.prefix,
            length-append (k.co_read fd (size - o) w).bytes
                (s.incoming (k.co_read fd (size - o) w).world fd),
            reads.counted,
            ap pos_part moved,
          ) in
        (
          m,
          moved,
          bounded_step m (size - o) step m_le,
          (prompt.read_live (size - o) w r.0, omega (arith, gone, r.1)),
        )

    read-Flows :
        Flows k
          (read_at k fd)
          (read_job k fd size timeout max_retries)
          chunk
          window
          (3 * window)
          Waiting
    read-Flows = record {
      on_now = λ o w r. (prompt.now_live w r.0, rw (lawful.now-Quiet w).same_incoming r.1);
      laps = omega arith;
      now_brief = λ o w r. prompt.now_brief w r.0;
      poll_brief = λ o w r. prompt.poll_brief _ _ w r.0;
      moves_brief = λ o w le r. prompt.read_brief (size - o) w r.0;
      on_poll =
          λ o w r. (prompt.poll_live _ _ w r.0, rw (lawful.poll-Quiet _ _ w).same_incoming r.1);
      ready = λ o w r. prompt.poll_ready _ _ w r.0;
      moves = λ o w le _ r. read_moves o w le r;
    }

    -- On a prompt connection that holds `size` bytes, a best-effort read of that size moves them
    -- all and leaves the connection prompt, if it has a retry, its retries are enough for the
    -- chunks, and the three calls of each of its rounds, a window of the clock each, are within its
    -- timeout.
    pub best_effort_read_live :
        (w : k.World)
        → Live w
        → size ≤ length (s.incoming w fd)
        → ((best_effort_read k fd size timeout max_retries w).ret ≡ pos size)
          × Live (best_effort_read k fd size timeout max_retries w).world
    unfolding best_effort_read
    best_effort_read_live w live there =
        let (whole, still) =
          best_effort_template_live k _ _ chunk window (3 * window) Waiting read-Flows
            prompt.some_chunk w (live, omega arith) some_retries reaches within in
        (whole, still.0)

    module _ (buf : List ℕ) (room : size ≤ length buf) where
      write_moves :
          (o : ℕ) (w : k.World)
          → o ≤ size
          → Live w
          → (m : ℕ) × ((k.co_write fd (take (size - o) (drop o buf)) w).ret ≡ pos m)
            × ((m ≡ size - o) ⊎ ((chunk ≤ m) × (m ≤ size - o)))
            × Live (k.co_write fd (take (size - o) (drop o buf)) w).world
      write_moves o w le r =
          let bs : List ℕ = take (size - o) (drop o buf) in
          let (m, moved, step) = prompt.write_some bs w r in
          let long : length bs ≡ size - o =
            omega (arith, length-take (size - o) (drop o buf), length-drop o buf, room, le) in
          let m_le : m ≤ size - o =
            omega (arith, (lawful.co_write-Writes bs w).bounded, ap pos_part moved, long) in
          (
            m,
            moved,
            bounded_step m (size - o) (subst (λ n. (m ≡ n) ⊎ (chunk ≤ m)) long step) m_le,
            prompt.write_live bs w r,
          )

      write-Flows :
          Flows k
            (write_at k fd buf)
            (write_job k fd size timeout max_retries)
            chunk
            window
            (3 * window)
            (λ o w. Live w)
      write-Flows = record {
        on_now = λ o w r. prompt.now_live w r;
        laps = omega arith;
        now_brief = λ o w r. prompt.now_brief w r;
        poll_brief = λ o w r. prompt.poll_brief _ _ w r;
        moves_brief = λ o w le r. prompt.write_brief _ w r;
        on_poll = λ o w r. prompt.poll_live _ _ w r;
        ready = λ o w r. prompt.poll_ready _ _ w r;
        moves = λ o w le _ r. write_moves o w le r;
      }

      -- On a prompt connection a best-effort write of at most the length of its buffer sends all
      -- and leaves the connection prompt, if it has a retry, its retries are enough for the chunks,
      -- and the three calls of each of its rounds, a window of the clock each, are within its
      -- timeout.
      pub best_effort_write_live :
          (w : k.World)
          → Live w
          → ((best_effort_write k fd buf size timeout max_retries w).ret ≡ pos size)
            × Live (best_effort_write k fd buf size timeout max_retries w).world
      unfolding best_effort_write
      best_effort_write_live w live =
          best_effort_template_live k _ _ chunk window (3 * window) (λ o w'. Live w') write-Flows
            prompt.some_chunk w live some_retries reaches within
