-- ===== src/Client/Sends.antt =====
-- Client::call of trpc/Client.h: what has gone out, and what is left of the connection, when it
-- returns.
use t_rpc.Base.{
  ◌≤◌, ℕ, ◌+◌, ◌^◌, ◌<◌, ◌≡◌, ◌≢◌, refl, ap, ◌∙◌, sym, ◌⊎◌, inl, inr, true, false, Bool-cases, List,
  ◌++◌, length, take, take-length, ltb, Option, Option-cases, none, arith, subst, append-nil,
  append_assoc, store_at, ltb→le,
}
use native.Mathlib.Nat.{mod-eq_of_lt}
use t_rpc.Base.Word.{ℤ, minus_one, pos_part, store32, swap32, length-store32}
use t_rpc.Client.{
  Client, Transfer, Done, socket_invalid, buf_size_on_stack, closes, finish, after_content,
  read_content, after_header, after_write, after_write_header, exchange, client_read, client_write,
}
use t_rpc.Client.Transfers.{Put, client_read-Got, client_write-Put, socket-close}
use t_rpc.Codec.{header_size, content_length, verify, frame}
use t_rpc.Codec.Framing.{wire}
use t_rpc.Codec.Messages.{dump}
use t_rpc.Json.{JsonLib}
use t_rpc.Kernel.{Kernel, Streams, IsLawful, IsLawfulAt}
use t_rpc.Outcome.{Outcome, ok}

module _ (k : Kernel) (s : Streams k) (j : JsonLib) {T : Type 0} (to : j.Json → Outcome T) where
  -- The connection is closed, or `out` is all that has been sent on `fd`.
  abbrev pub ClosedOr : ℤ → List ℕ → Done k (Outcome (Option T)) → Type 0
  ClosedOr fd out d = (d.client.socket ≡ socket_invalid) ⊎ (s.sent d.world fd ≡ out)

  module _ (fd : ℤ) (out : List ℕ) where
    closes-ClosedOr : (c : Client) (w : k.World) → ClosedOr fd out (closes k j to c w)
    closes-ClosedOr c w = inl (socket-close k c w)

    finish-ClosedOr :
        (buf : List ℕ) (n : ℕ) (c : Client) (w : k.World)
        → s.sent w fd ≡ out
        → ClosedOr fd out (finish k j to buf n c w)
    unfolding finish
    finish-ClosedOr buf n c w e = elim (Bool-cases (verify buf (header_size + n))) [
      | inl valid ↦ rw valid (inr e)
      | inr bad ↦ rw bad (inr e)
    ]

    after_content-ClosedOr :
        (buf : List ℕ) (n : ℕ) (t : Transfer k)
        → s.sent t.world fd ≡ out
        → ClosedOr fd out (after_content k j to buf n t)
    unfolding after_content
    after_content-ClosedOr buf n t e = elim (Option-cases (store_at buf header_size t.bytes)) [
      | inl overrun ↦ rw (overrun, after_content) (inr e)
      | inr (buf', stored) ↦
          rw (stored, after_content)
            (elim (Bool-cases t.success) [
              | inl done ↦ rw done (finish-ClosedOr buf' n t.client t.world e)
              | inr failed ↦ rw failed (inr e)
            ])
    ]

    module _ (lawful : IsLawful k s) where
      later-sent :
          (size : ℕ) (c : Client) (w : k.World)
          → c.socket ≡ fd
          → s.sent w fd ≡ out
          → s.sent (client_read k size c w).world fd ≡ out
      later-sent size c w same e =
          subst (λ z. s.sent (client_read k size c w).world z ≡ s.sent w z) same
            (client_read-Got k s c (lawful c.socket) size w).same_sent
          ∙ e

      read_content-ClosedOr :
          (buf : List ℕ) (c : Client) (w : k.World)
          → c.socket ≡ fd
          → s.sent w fd ≡ out
          → ClosedOr fd out (read_content k j to buf c w)
      unfolding read_content
      read_content-ClosedOr buf c w same e =
          elim (Bool-cases
            (ltb buf_size_on_stack (header_size + (content_length buf header_size).1))) [
              | inl large ↦ rw large (closes-ClosedOr _ w)
              | inr fits ↦ rw fits (after_content-ClosedOr buf _ _ (later-sent _ c w same e))
            ]

      after_header-ClosedOr :
          (buf : List ℕ) (t : Transfer k)
          → t.client.socket ≡ fd
          → s.sent t.world fd ≡ out
          → ClosedOr fd out (after_header k j to buf t)
      unfolding after_header
      after_header-ClosedOr buf t same e = elim (Option-cases (store_at buf 0 t.bytes)) [
        | inl overrun ↦ rw (overrun, after_header) (inr e)
        | inr (buf', stored) ↦
            rw (stored, after_header)
              (elim (Bool-cases t.success) [
                | inl done ↦ rw done (read_content-ClosedOr buf' t.client t.world same e)
                | inr failed ↦ rw failed (inr e)
              ])
      ]

      after_write-ClosedOr :
          (buf : List ℕ) (t : Transfer k)
          → t.client.socket ≡ fd
          → (t.success ≡ true → s.sent t.world fd ≡ out)
          → ClosedOr fd out (after_write k j to buf t)
      unfolding after_write
      after_write-ClosedOr buf t same e = elim (Bool-cases t.success) [
        | inl done ↦ rw done (
            after_header-ClosedOr buf _
              ((client_read-Got k s t.client (lawful t.client.socket) header_size
                  t.world).same_socket
                ∙ same)
              (later-sent header_size t.client t.world same (e done)))
        | inr failed ↦ rw failed (closes-ClosedOr t.client t.world)
      ]

  module _ (c : Client) (w : k.World) (lawful : IsLawfulAt k s c.socket) (header text : List ℕ)
      (t : Transfer k) (put : Put k s header header_size c w t) where
    -- The header went out whole, and the content did if its write reports success.
    pub content_sent :
        length header ≡ header_size
        → t.success ≡ true
        → (client_write k text (length text) t.client t.world).success ≡ true
        → s.sent (client_write k text (length text) t.client t.world).world c.socket
          ≡ s.sent w c.socket ++ (header ++ text)
    content_sent four done whole =
        subst (λ z. s.sent content.world z ≡ s.sent t.world z ++ take q.count text) put.same_socket
          q.appended
        ∙ ap (λ n. s.sent t.world c.socket ++ take n text) (q.whole whole)
        ∙ ap (λ xs. s.sent t.world c.socket ++ xs) (take-length text)
        ∙ ap (λ xs. xs ++ text)
            (put.appended
              ∙ ap (λ n. s.sent w c.socket ++ take n header) (put.whole done ∙ sym four)
              ∙ ap (λ xs. s.sent w c.socket ++ xs) (take-length header))
        ∙ append_assoc (s.sent w c.socket) header text
      where
        content : Transfer k
        content = client_write k text (length text) t.client t.world

        q : Put k s text (length text) t.client t.world content
        q =
            client_write-Put k s t.client (subst (IsLawfulAt k s) (sym put.same_socket) lawful) text
              (length text) t.world

  module _ (lawful : IsLawful k s) (buf : List ℕ) (c : Client) (w : k.World) where
    -- Closed, nothing sent, or all of `frame`.
    abbrev WholeOrClosed : List ℕ → Done k (Outcome (Option T)) → Type 0
    WholeOrClosed all d =
        (d.client.socket ≡ socket_invalid)
        ⊎ (s.sent d.world c.socket ≡ s.sent w c.socket)
        ⊎ (s.sent d.world c.socket ≡ s.sent w c.socket ++ all)

    module _ (header text : List ℕ) (t : Transfer k) (put : Put k s header header_size c w t) where
      nothing_sent :
          t.ret ≢ minus_one
          → ltb 0 (pos_part t.ret) ≡ false
          → s.sent t.world c.socket ≡ s.sent w c.socket
      nothing_sent reported none_written = elim put.reported [
        | inl failed ↦ absurd (reported failed)
        | inr counted ↦
            let zero_count : put.count ≡ 0 =
              omega (arith, ltb→le 0 (pos_part t.ret) none_written, ap pos_part counted) in
            put.appended
            ∙ ap (λ n. s.sent w c.socket ++ take n header) zero_count
            ∙ append-nil (s.sent w c.socket)
      ]

      after_write_header-WholeOrClosed :
          length header ≡ header_size
          → t.ret ≢ minus_one
          → WholeOrClosed (header ++ text) (after_write_header k j to buf text (length text) t)
      unfolding after_write_header
      after_write_header-WholeOrClosed four reported = elim (Bool-cases t.success) [
        | inl done ↦
            rw done
              (elim (after_write-ClosedOr c.socket _ lawful buf _
                ((client_write-Put k s t.client (lawful t.client.socket) text (length text)
                    t.world).same_socket
                  ∙ put.same_socket)
                (content_sent c w (lawful c.socket) header text t put four done)) [
                  | inl closed ↦ inl closed
                  | inr sent ↦ inr (inr sent)
                ])
        | inr failed ↦ elim (Bool-cases (ltb 0 (pos_part t.ret))) [
          | inl prefix ↦ rw (failed, prefix) (inl (socket-close k t.client t.world))
          | inr nothing ↦ rw (failed, nothing) (inr (inl (nothing_sent reported nothing)))
        ]
      ]

    -- When `call` comes back from the exchange, for a request below 4 GiB, and the header's write
    -- did not fail with -1, then the connection is closed, or nothing of the request has been sent,
    -- or its whole frame has.
    pub exchange_whole_or_closed :
        (request : j.Json)
        → length (j.print request) < 2 ^ 32
        → (client_write k (store32 (frame (j.print request)).2) header_size c w).ret ≢ minus_one
        → let d = exchange k j to buf request c w in
          (d.client.socket ≡ socket_invalid)
          ⊎ (s.sent d.world c.socket ≡ s.sent w c.socket)
          ⊎ (s.sent d.world c.socket ≡ s.sent w c.socket ++ wire (j.print request))
    unfolding exchange dump frame
    exchange_whole_or_closed request small reported = rw (mod-eq_of_lt small) (
        after_write_header-WholeOrClosed (store32 (swap32 (length (j.print request))))
          (j.print request) _ (client_write-Put k s c (lawful c.socket) _ header_size w)
          (length-store32 _) (rw (mod-eq_of_lt small) at reported))

    -- If the header's write fails with -1, then `call` returns no value and the connection stays
    -- open, although the first `count` bytes of the header have gone out, for some count up to 4.
    pub exchange_keeps_open :
        (request : j.Json)
        → (client_write k (store32 (frame (j.print request)).2) header_size c w).success ≡ false
        → (client_write k (store32 (frame (j.print request)).2) header_size c w).ret ≡ minus_one
        → let d = exchange k j to buf request c w in
          (d.result ≡ ok none)
          × (d.client.socket ≡ c.socket)
          × (count : ℕ) × (count ≤ header_size)
          × (s.sent d.world c.socket
              ≡ s.sent w c.socket ++ take count (store32 (frame (j.print request)).2))
    unfolding exchange dump after_write_header
    exchange_keeps_open request failed reported =
        let put =
          client_write-Put k s c (lawful c.socket) (store32 (frame (j.print request)).2) header_size
            w in
        (
          rw (failed, reported) refl,
          rw (failed, reported) put.same_socket,
          put.count,
          put.bounded,
          rw (failed, reported) put.appended,
        )
