-- ===== src/Server/Transfers.antt =====
-- bestEffortRead, bestEffortWrite and bestEffortPending of trpc/Server.h: what each has done to the
-- stream of the connection.
use t_rpc.Base.{
  ℕ, ◌+◌, ◌==◌, ◌≤◌, ◌≡◌, refl, ap, ◌∙◌, inl, inr, true, Bool-cases, List, ◌++◌, length, take,
}
use t_rpc.Base.Word.{ℤ}
use t_rpc.BestEffort.{best_effort_read, best_effort_write, best_effort_template, transfer, after_io}
use t_rpc.BestEffort.Loop.{loop-Leaves}
use t_rpc.BestEffort.Read.{best_effort_read-Consumed}
use t_rpc.BestEffort.Write.{best_effort_write-Delivered}
use t_rpc.Client.{is_size}
use t_rpc.Client.Transfers.{whole_count}
use t_rpc.Json.{JsonLib}
use t_rpc.Kernel.{Kernel, Streams, IsLawfulAt, Quiet}
use t_rpc.Server.{
  Server, Transfer, report, server_read, server_write, server_pending, first_byte_hook, pending_job,
  max_retries,
}

module _ (k : Kernel) (j : JsonLib) (s : Streams k) (peer : ℤ) (lawful : IsLawfulAt k s peer) where
  -- A read that reports success has `size` bytes, the front of the stream.
  pub record Got (size : ℕ) (sv : Server k j) (w : k.World) (t : Transfer k j) : Type 0 where
    pub bounded : length t.bytes ≤ size
    pub whole : t.success ≡ true → (length t.bytes ≡ size) × (t.server ≡ sv)
    pub prefix : s.incoming w peer ≡ t.bytes ++ s.incoming t.world peer
    pub same_sent : s.sent t.world peer ≡ s.sent w peer

  -- A write that reports success has sent the first `size` bytes of its buffer.
  pub record Put (buf : List ℕ) (size : ℕ) (sv : Server k j) (w : k.World) (t : Transfer k j)
      : Type 0 where
    pub whole :
        t.success ≡ true → (s.sent t.world peer ≡ s.sent w peer ++ take size buf) × (t.server ≡ sv)
    pub same_incoming : s.incoming t.world peer ≡ s.incoming w peer

  pub server_read-Got :
      (size : ℕ) (sv : Server k j) (w : k.World) → Got size sv w (server_read k j peer size sv w)
  unfolding server_read report
  server_read-Got size sv w =
      let h = best_effort_read-Consumed k s peer size w lawful sv.timeout max_retries in
      elim (Bool-cases (is_size (best_effort_read k peer size sv.timeout max_retries w).ret size)) [
        | inl all ↦ rw all (record {
          bounded = h.bounded;
          whole = λ _. (
            whole_count k s (best_effort_read k peer size sv.timeout max_retries w) size _ h.counted
                all,
            refl,
          );
          prefix = h.prefix;
          same_sent = h.same_sent;
        })
        | inr less ↦ rw less (record {
          bounded = h.bounded;
          whole = λ e. cc;
          prefix = h.prefix;
          same_sent = h.same_sent;
        })
      ]

  pub server_write-Put :
      (buf : List ℕ) (size : ℕ) (sv : Server k j) (w : k.World)
      → Put buf size sv w (server_write k j peer buf size sv w)
  unfolding server_write report
  server_write-Put buf size sv w =
      let h = best_effort_write-Delivered k s peer buf size w lawful sv.timeout max_retries in
      elim (Bool-cases
        (is_size (best_effort_write k peer buf size sv.timeout max_retries w).ret size)) [
          | inl all ↦ rw all (record {
            whole = λ _. (
              h.appended
                  ∙ ap (λ n. s.sent w peer ++ take n buf)
                      (whole_count k s (best_effort_write k peer buf size sv.timeout max_retries w)
                        size _ h.reported all),
              refl,
            );
            same_incoming = h.same_incoming;
          })
          | inr less ↦ rw less (record { whole = λ e. cc; same_incoming = h.same_incoming })
        ]

  Quiet-then :
      {w w' w'' : k.World} → Quiet k s peer w w' → Quiet k s peer w' w'' → Quiet k s peer w w''
  Quiet-then p q = record {
    same_incoming = q.same_incoming ∙ p.same_incoming;
    same_sent = q.same_sent ∙ p.same_sent;
  }

  -- Waiting for the first byte reads and sends nothing.
  pub server_pending-Quiet :
      (sv : Server k j) (w : k.World)
      → Quiet k s peer w (server_pending k j peer sv w).world
        × ((server_pending k j peer sv w).success ≡ true
            → (server_pending k j peer sv w).server ≡ sv)
  unfolding server_pending report best_effort_template transfer after_io
  server_pending-Quiet sv w =
      let h =
        loop-Leaves k (first_byte_hook k j) (pending_job k j peer sv)
          (λ p. Quiet k s peer w p.world) (λ r. Quiet k s peer w r.world)
          (record {
            on_now = λ p q. Quiet-then q (lawful.now-Quiet p.world);
            on_poll = λ p t q. Quiet-then q (lawful.poll-Quiet _ t p.world);
            on_errno = λ p e q. Quiet-then q (lawful.set_errno-Quiet e p.world);
            on_failure = λ p q. q;
            on_partial = λ p q. q;
            on_transfer = λ p q. elim (Bool-cases (p.offset + 1 == 1)) [
              | inl first ↦ rw first q
              | inr later ↦ rw later q
            ];
          })
          _ 1 _ (lawful.now-Quiet w) in
      elim (Bool-cases (
        is_size (best_effort_template k (first_byte_hook k j) (pending_job k j peer sv) w).ret 1)) [
          | inl all ↦ rw all (h, λ _. refl)
          | inr less ↦ rw less (h, λ e. cc)
        ]
