-- ===== src/Client/Resync.antt =====
-- Client::call and Health::check: a call that gives up in the middle of a response, and the check
-- with which the next call begins.
use t_rpc.Base.{
  ℕ, ◌+◌, ◌-◌, ◌≤◌, ◌≡◌, refl, ap, ◌∙◌, sym, ◌⊎◌, inl, inr, true, false, List, length, arith, subst,
  store_at-some,
}
use t_rpc.Base.Word.{ℤ, pos, minus_one}
use t_rpc.Client.{Client, Transfer, buf_size_on_stack, after_content, client_read}
use t_rpc.Client.Transfers.{Got, Got-Taken, client_read-Got}
use t_rpc.Codec.{header_size}
use t_rpc.Health.{Health, set, check, content_read_some, no_read}
use t_rpc.Health.Check.{check_drains_content}
use t_rpc.Health.Drain.{Taken, Taken-add}
use t_rpc.Json.{JsonLib}
use t_rpc.Kernel.{Kernel, Streams, IsLawful}
use t_rpc.Outcome.{Outcome, ok}

module _ (k : Kernel) (s : Streams k) (j : JsonLib) {T : Type 0} (to : j.Json → Outcome T)
    (lawful : IsLawful k s) (buf : List ℕ) (room : length buf ≡ buf_size_on_stack) where
  -- The client that a failed content read leaves.
  abbrev pub given_up : ℕ → ℕ → Transfer k → Client
  given_up a n t = record (t.client) { health = set a content_read_some n }

  pub after_content-given_up :
      (n a : ℕ) (t : Transfer k)
      → header_size + length t.bytes ≤ length buf
      → t.success ≡ false
      → t.ret ≡ pos a
      → ((after_content k j to buf n t).client ≡ given_up a n t)
        × ((after_content k j to buf n t).world ≡ t.world)
  unfolding after_content
  after_content-given_up n a t fits failed partly =
      rw (store_at-some buf header_size t.bytes fits, after_content)
        (rw (failed, partly) (refl, refl))

  pub reported_length : (z : ℤ) (a m : ℕ) → (z ≡ minus_one) ⊎ (z ≡ pos m) → z ≡ pos a → m ≡ a
  reported_length z a m (inl e) h = cc
  reported_length z a m (inr e) h = cc

  -- A call gives up while it reads the content of a response that fits its buffer, after the number
  -- of bytes that the read reports. If the check of the next call then lets it go on, the stream
  -- has been read up to the end of that content and no further, so the next frame is read from its
  -- beginning.
  pub check-after_content :
      (fd n a : ℕ) (c : Client) (w : k.World) (probe : List ℕ) {h : Health} {w' : k.World}
      → c.socket ≡ pos fd
      → header_size + n ≤ buf_size_on_stack
      → (client_read k n c w).success ≡ false
      → (client_read k n c w).ret ≡ pos a
      → (let d = after_content k j to buf n (client_read k n c w) in
          check k d.client.socket d.client.health probe d.world ≡ ok (true, h, w'))
      → Taken k s (pos fd) n w w' × (h.state ≡ no_read)
  check-after_content fd n a c w probe {h} {w'} here fits failed partly e =
      let all : length t.bytes ≡ a = reported_length t.ret a _ got.reported partly in
      let le : a ≤ n = omega (arith, all, got.bounded) in
      let (client, world) =
        after_content-given_up n a t (omega (arith, got.bounded, room)) failed partly in
      let e' : check k (pos fd) (set a content_read_some n) probe t.world ≡ ok (true, h, w') =
        ap (λ z. check k z (set a content_read_some n) probe t.world) (sym (got.same_socket ∙ here))
        ∙ sym (ap (λ x. check k x.socket x.health probe t.world) client)
        ∙ sym (
            ap
              (λ x.
                check k (after_content k j to buf n t).client.socket
                  (after_content k j to buf n t).client.health probe x)
              world)
        ∙ e in
      let (rest, idle) =
        check_drains_content k fd s (lawful (pos fd)) a n probe t.world le (omega arith) e' in
      let total : a + (n - a) ≡ n = omega arith in
      (
        subst (λ m. Taken k s (pos fd) m w w') total
            (Taken-add k s (pos fd)
              (subst (λ m. Taken k s (pos fd) m w t.world) all
                (subst (λ z. Taken k s z (length t.bytes) w t.world) here (Got-Taken k s got)))
              rest),
        idle,
      )
    where
      t : Transfer k
      t = client_read k n c w

      got : Got k s n c w t
      got = client_read-Got k s c (lawful c.socket) n w
