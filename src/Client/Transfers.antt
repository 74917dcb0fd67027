-- ===== src/Client/Transfers.antt =====
-- bestEffortRead and bestEffortWrite of trpc/Client.h, and close: what a transfer that is reported
-- as a success or as a failure has done to the stream.
use t_rpc.Base.{
  ℕ, zero, suc, ◌≤◌, ◌≡◌, refl, ap, sym, ◌⊎◌, inl, inr, true, Bool-cases, List, ◌++◌, length, take,
  ==_iff, arith,
}
use t_rpc.Base.Word.{ℤ, pos, negsuc, minus_one}
use t_rpc.BestEffort.Read.{Consumed, best_effort_read-Consumed}
use t_rpc.BestEffort.Write.{Delivered, best_effort_write-Delivered}
use t_rpc.Client.{
  Client, Transfer, socket_invalid, close, report, client_read, client_write, is_size, is_invalid,
  max_retries,
}
use t_rpc.Health.Drain.{Taken}
use t_rpc.Kernel.{Kernel, Io, Streams, IsLawfulAt}

is_size-eq : (z : ℤ) (n : ℕ) → is_size z n ≡ true → z ≡ pos n
is_size-eq (pos m) n e = ap pos ((==_iff m n).0 e)
is_size-eq (negsuc m) n e = cc

is_invalid-eq : (z : ℤ) → is_invalid z ≡ true → z ≡ minus_one
is_invalid-eq (pos m) e = cc
is_invalid-eq (negsuc zero) e = refl
is_invalid-eq (negsuc (suc m)) e = cc

module _ (k : Kernel) where
  -- After `close` the client has no descriptor, whether it had one or not.
  pub socket-close : (c : Client) (w : k.World) → (close k c w).0.socket ≡ socket_invalid
  unfolding close
  socket-close c w = elim (Bool-cases (is_invalid c.socket)) [
    | inl closed ↦ rw closed (is_invalid-eq c.socket closed)
    | inr still ↦ rw still
  ]

  module _ (s : Streams k) where
    pub record Got (size : ℕ) (c : Client) (w : k.World) (t : Transfer k) : Type 0 where
      pub whole : t.success ≡ true → length t.bytes ≡ size
      pub bounded : length t.bytes ≤ size
      pub reported : (t.ret ≡ minus_one) ⊎ (t.ret ≡ pos (length t.bytes))
      pub prefix : s.incoming w c.socket ≡ t.bytes ++ s.incoming t.world c.socket
      pub same_sent : s.sent t.world c.socket ≡ s.sent w c.socket
      pub same_socket : t.client.socket ≡ c.socket
      pub same_health : t.client.health ≡ c.health

    pub Got-Taken :
        {size : ℕ} {c : Client} {w : k.World} {t : Transfer k}
        → Got size c w t
        → Taken k s c.socket (length t.bytes) w t.world
    Got-Taken {t = t} g = record {
      bytes = t.bytes;
      counted = refl;
      prefix = g.prefix;
      same_sent = g.same_sent;
    }

    pub record Put (buf : List ℕ) (size : ℕ) (c : Client) (w : k.World) (t : Transfer k)
        : Type 0 where
      pub count : ℕ
      pub whole : t.success ≡ true → count ≡ size
      pub bounded : count ≤ size
      pub reported : (t.ret ≡ minus_one) ⊎ (t.ret ≡ pos count)
      pub appended : s.sent t.world c.socket ≡ s.sent w c.socket ++ take count buf
      pub same_incoming : s.incoming t.world c.socket ≡ s.incoming w c.socket
      pub same_socket : t.client.socket ≡ c.socket
      pub same_health : t.client.health ≡ c.health

    pub whole_count :
        (r : Io k.World) (size n : ℕ)
        → (r.ret ≡ minus_one) ⊎ (r.ret ≡ pos n)
        → is_size r.ret size ≡ true
        → n ≡ size
    whole_count r size n (inl e) h = ground (arith, is_size-eq r.ret size h)
    whole_count r size n (inr e) h = ground (arith, is_size-eq r.ret size h)

    report-Got :
        (size : ℕ) (c : Client) (w : k.World) (r : Io k.World)
        → Consumed k s c.socket size w r
        → Got size c w (report k size c r)
    unfolding report
    report-Got size c w r h = elim (Bool-cases (is_size r.ret size)) [
      | inl all ↦ rw all (record {
        whole = λ _. whole_count r size (length r.bytes) h.counted all;
        bounded = h.bounded;
        reported = inr (ap pos (sym (whole_count r size (length r.bytes) h.counted all)));
        prefix = h.prefix;
        same_sent = h.same_sent;
        same_socket = refl;
        same_health = refl;
      })
      | inr less ↦ rw less (record {
        whole = λ e. cc;
        bounded = h.bounded;
        reported = h.counted;
        prefix = h.prefix;
        same_sent = h.same_sent;
        same_socket = refl;
        same_health = refl;
      })
    ]

    report-Put :
        (buf : List ℕ) (size : ℕ) (c : Client) (w : k.World) (r : Io k.World)
        → Delivered k s c.socket buf size w r
        → Put buf size c w (report k size c r)
    unfolding report
    report-Put buf size c w r h = elim (Bool-cases (is_size r.ret size)) [
      | inl all ↦ rw all (record {
        count = h.count;
        whole = λ _. whole_count r size h.count h.reported all;
        bounded = h.bounded;
        reported = inr (ap pos (sym (whole_count r size h.count h.reported all)));
        appended = h.appended;
        same_incoming = h.same_incoming;
        same_socket = refl;
        same_health = refl;
      })
      | inr less ↦ rw less (record {
        count = h.count;
        whole = λ e. cc;
        bounded = h.bounded;
        reported = h.reported;
        appended = h.appended;
        same_incoming = h.same_incoming;
        same_socket = refl;
        same_health = refl;
      })
    ]

    module _ (c : Client) (lawful : IsLawfulAt k s c.socket) where
      -- A read that reports success has taken exactly `size` bytes; one that fails has taken some
      -- of them, as many as it reports or an unknown number if it reports -1.
      pub client_read-Got : (size : ℕ) (w : k.World) → Got size c w (client_read k size c w)
      unfolding client_read
      client_read-Got size w =
          report-Got size c w _
            (best_effort_read-Consumed k s c.socket size w lawful c.timeout max_retries)

      pub client_write-Put :
          (buf : List ℕ) (size : ℕ) (w : k.World) → Put buf size c w (client_write k buf size c w)
      unfolding client_write
      client_write-Put buf size w =
          report-Put buf size c w _
            (best_effort_write-Delivered k s c.socket buf size w lawful c.timeout max_retries)
