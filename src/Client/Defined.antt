-- ===== src/Client/Defined.antt =====
-- Client::call of trpc/Client.h: its accesses to the buffer on the stack, and the text that it
-- hands to the parser.
use t_rpc.Base.{
  ℕ, ◌+◌, ◌≤◌, ◌≡◌, ◌≢◌, ◌∙◌, ap, sym, subst, inl, inr, Bool-cases, List, ◌++◌, length, take, drop,
  drop-append, length-append, length-take, ltb, ltb→le, arith, store_at, some, store_at-some,
  length-store_at,
}
use t_rpc.Base.Word.{ℤ, pos_part, store32, swap32, load32, load32-append}
use t_rpc.Client.{
  Client, Transfer, buf_size_on_stack, finish, after_content, read_content, after_header,
  after_write, after_write_header, exchange, client_read, client_write,
}
use t_rpc.Client.Transfers.{Got, client_read-Got, client_write-Put}
use t_rpc.Codec.{header_size, verify}
use t_rpc.Codec.Framing.{content_length-snd}
use t_rpc.Codec.Messages.{decode, dump}
use t_rpc.Json.{JsonLib}
use t_rpc.Kernel.{Kernel, Streams, IsLawful}
use t_rpc.Outcome.{Outcome, undefined, ◌>>=◌}
use t_rpc.Resolve.{make_result}

module _ (k : Kernel) (s : Streams k) (j : JsonLib) {T : Type 0} (to : j.Json → Outcome T)
    (lawful : IsLawful k s) (fd : ℤ) (frames : List ℕ) where
  abbrev IsDefined : List ℕ → Type 0
  IsDefined text = (j.parse text >>= make_result j to) ≢ undefined

  finish_defined :
      (b : List ℕ) (n : ℕ) (c : Client) (w : k.World)
      → IsDefined (drop header_size b)
      → (finish k j to b n c w).result ≢ undefined
  unfolding finish decode
  finish_defined b n c w fine = elim (Bool-cases (verify b (header_size + n))) [
    | inl valid ↦ rw valid fine
    | inr bad ↦ rw bad (λ e. cc)
  ]

  -- The client's descriptor, with the frames next on its stream.
  pub record Ready (c : Client) (w : k.World) : Type 0 where
    pub here : c.socket ≡ fd
    pub front : s.incoming w fd ≡ frames

  module _
      (defined : (head text later rest : List ℕ)
        → length head ≡ header_size
        → length text ≡ swap32 (load32 head)
        → frames ≡ head ++ (text ++ later)
        → header_size + length (text ++ rest) ≡ buf_size_on_stack
        → (j.parse (text ++ rest) >>= make_result j to) ≢ undefined) where
    module _ (b : List ℕ) (room : length b ≡ buf_size_on_stack) (c : Client) (w : k.World)
        (here : c.socket ≡ fd) where
      module _ (head : List ℕ) (four : length head ≡ header_size)
          (behind : frames ≡ head ++ s.incoming w fd) where
        after_content_defined :
            (n : ℕ)
            → n ≡ swap32 (load32 head)
            → header_size + n ≤ buf_size_on_stack
            → (after_content k j to b n (client_read k n c w)).result ≢ undefined
        unfolding after_content
        after_content_defined n announced fits =
            rw (stored, after_content)
              (elim (Bool-cases t.success) [
                | inl done ↦ rw done (
                    finish_defined b' n t.client t.world (
                      subst IsDefined (sym text) (
                        defined head t.bytes (s.incoming t.world fd) rest four
                          (got.whole done ∙ announced) (behind ∙ ap (λ xs. head ++ xs) split)
                          (omega (
                            arith,
                            length-append t.bytes rest,
                            length-append (take header_size b) (t.bytes ++ rest),
                            length-take header_size b,
                            length-store_at b header_size t.bytes stored,
                            room,
                          )))))
                | inr failed ↦ rw failed (λ e. cc)
              ])
          where
            t : Transfer k
            t = client_read k n c w

            got : Got k s n c w t
            got = client_read-Got k s c (lawful c.socket) n w

            rest : List ℕ
            rest = drop (header_size + length t.bytes) b

            b' : List ℕ
            b' = take header_size b ++ (t.bytes ++ rest)

            stored : store_at b header_size t.bytes ≡ some b'
            stored = store_at-some b header_size t.bytes (omega (arith, got.bounded, room, fits))

            text : drop header_size b' ≡ t.bytes ++ rest
            text =
                let four_kept : header_size ≡ length (take header_size b) =
                  omega (arith, length-take header_size b, room) in
                ap (λ m. drop m b') four_kept ∙ drop-append (take header_size b) (t.bytes ++ rest)

            split : s.incoming w fd ≡ t.bytes ++ s.incoming t.world fd
            split = subst (λ z. s.incoming w z ≡ t.bytes ++ s.incoming t.world z) here got.prefix

        read_content_defined :
            load32 b ≡ load32 head → (read_content k j to b c w).result ≢ undefined
        unfolding read_content
        read_content_defined same =
            elim (Bool-cases (ltb buf_size_on_stack (header_size + swap32 (load32 b)))) [
              | inl large ↦ rw (content_length-snd b header_size (omega arith), large) (λ e. cc)
              | inr fits ↦
                  rw (content_length-snd b header_size (omega arith), fits)
                    (after_content_defined (swap32 (load32 b)) (ap swap32 same) (ltb→le _ _ fits))
            ]

    module _ (buf : List ℕ) (room : length buf ≡ buf_size_on_stack) where
      after_header_defined :
          (c : Client) (w : k.World)
          → Ready c w
          → (after_header k j to buf (client_read k header_size c w)).result ≢ undefined
      unfolding after_header
      after_header_defined c w r =
          rw (stored, after_header)
            (elim (Bool-cases t.success) [
              | inl done ↦ rw done (
                  read_content_defined b' (length-store_at buf 0 t.bytes stored ∙ room) t.client
                    t.world (got.same_socket ∙ r.here) t.bytes (got.whole done)
                    (sym r.front ∙ split)
                    (load32-append t.bytes (drop (0 + length t.bytes) buf) (got.whole done)))
              | inr failed ↦ rw failed (λ e. cc)
            ])
        where
          t : Transfer k
          t = client_read k header_size c w

          got : Got k s header_size c w t
          got = client_read-Got k s c (lawful c.socket) header_size w

          b' : List ℕ
          b' = t.bytes ++ drop (0 + length t.bytes) buf

          stored : store_at buf 0 t.bytes ≡ some b'
          stored = store_at-some buf 0 t.bytes (omega (arith, got.bounded, room))

          split : s.incoming w fd ≡ t.bytes ++ s.incoming t.world fd
          split = subst (λ z. s.incoming w z ≡ t.bytes ++ s.incoming t.world z) r.here got.prefix

      write-Ready :
          (bytes : List ℕ) (size : ℕ) (c : Client) (w : k.World)
          → Ready c w
          → (let t = client_write k bytes size c w in Ready t.client t.world)
      write-Ready bytes size c w r =
          let p = client_write-Put k s c (lawful c.socket) bytes size w in
          let t = client_write k bytes size c w in
          record {
            here = p.same_socket ∙ r.here;
            front =
                subst (λ z. s.incoming t.world z ≡ s.incoming w z) r.here p.same_incoming ∙ r.front;
          }

      after_write_defined :
          (t : Transfer k) → Ready t.client t.world → (after_write k j to buf t).result ≢ undefined
      unfolding after_write
      after_write_defined t r = elim (Bool-cases t.success) [
        | inl done ↦ rw done (after_header_defined t.client t.world r)
        | inr failed ↦ rw failed (λ e. cc)
      ]

      -- Whatever the peer announces and sends, the exchange of a call stays inside its buffer, and
      -- its behaviour is defined if that of the parser and the conversion is, on the content of the
      -- next frame of the stream where there is a whole one, with what the buffer holds behind it.
      pub exchange_defined :
          (request : j.Json) (c : Client) (w : k.World)
          → Ready c w
          → (exchange k j to buf request c w).result ≢ undefined
      unfolding exchange dump after_write_header
      exchange_defined request c w r = elim (Bool-cases header.success) [
        | inl done ↦ rw done (
            after_write_defined _ (
              write-Ready (j.print request) _ header.client header.world
                (write-Ready _ header_size c w r)))
        | inr failed ↦ elim (Bool-cases (ltb 0 (pos_part header.ret))) [
          | inl prefix ↦ rw (failed, prefix) (λ e. cc)
          | inr nothing ↦ rw (failed, nothing) (λ e. cc)
        ]
      ]
        where
          header : Transfer k
          header = client_write k (store32 (dump j request).2) header_size c w
