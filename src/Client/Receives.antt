-- ===== src/Client/Receives.antt =====
-- Client::call of trpc/Client.h: which bytes a value that `call` returns comes from.
use t_rpc.Base.{
  ℕ, ◌+◌, ◌≤◌, ◌≡◌, refl, ap, ◌∙◌, sym, inl, inr, true, Bool-cases, List, ◌++◌, length, take, drop,
  take-append, drop-append, length-take, ltb, ltb→le, Option, some, arith, subst, store_at,
  store_at-some, length-store_at,
}
use t_rpc.Base.Word.{ℤ, load32, swap32, load32-append}
use t_rpc.Client.{
  Client, Transfer, Done, buf_size_on_stack, finish, after_content, read_content, after_header,
  after_write,
}
use t_rpc.Client.Transfers.{Got, Got-Taken, client_read-Got}
use t_rpc.Codec.{header_size, verify}
use t_rpc.Codec.Framing.{content_length-snd}
use t_rpc.Codec.Messages.{decode}
use t_rpc.Health.Drain.{Taken, Taken-add}
use t_rpc.Json.{JsonLib}
use t_rpc.Kernel.{Kernel, Streams, IsLawful}
use t_rpc.Outcome.{Outcome, ok, ◌>>=◌}
use t_rpc.Resolve.{make_result}

module _ (k : Kernel) (s : Streams k) (j : JsonLib) {T : Type 0} (to : j.Json → Outcome T) where
  -- What the bytes of a content say, with what follows them in memory.
  abbrev pub reads_as : List ℕ → List ℕ → Outcome (Option T)
  reads_as content rest = j.parse (content ++ rest) >>= make_result j to

  finish-answer :
      (buf : List ℕ) (n : ℕ) (c : Client) (w : k.World) {x : T}
      → (finish k j to buf n c w).result ≡ ok (some x)
      → ((j.parse (drop header_size buf) >>= make_result j to) ≡ ok (some x))
        × ((finish k j to buf n c w).world ≡ w)
  unfolding finish decode
  finish-answer buf n c w e = elim (Bool-cases (verify buf (header_size + n))) [
    | inl valid ↦ (rw (valid, finish) at e, rw valid refl)
    | inr bad ↦ cc (rw (bad, finish) at e)
  ]

  -- An answer whose content of `n` bytes was read from the stream since `w`; `rest` is what the
  -- buffer holds behind it.
  pub record ContentRead (fd : ℤ) (n : ℕ) (rest : List ℕ) (w : k.World)
      (d : Done k (Outcome (Option T))) (x : T) : Type 0 where
    pub taken : Taken k s fd n w d.world
    pub answer : reads_as (take n (s.incoming w fd)) rest ≡ ok (some x)

  module _ (buf : List ℕ) (room : length buf ≡ buf_size_on_stack) where
    module _ (n : ℕ) (c : Client) (w : k.World) (t : Transfer k) (got : Got k s n c w t) where
      pub content_fits :
          header_size + n ≤ buf_size_on_stack → header_size + length t.bytes ≤ length buf
      content_fits fits = omega (arith, got.bounded, room, fits)

      unfoldable pub stored : List ℕ
      stored = take header_size buf ++ (t.bytes ++ drop (header_size + length t.bytes) buf)

      after_content-finish :
          {x : T}
          → header_size + n ≤ buf_size_on_stack
          → (after_content k j to buf n t).result ≡ ok (some x)
          → (t.success ≡ true)
            × (after_content k j to buf n t ≡ finish k j to stored n t.client t.world)
      unfolding after_content stored
      after_content-finish fits e =
          let put = store_at-some buf header_size t.bytes (content_fits fits) in
          elim (Bool-cases t.success) [
            | inl done ↦ (done, rw (put, after_content) (rw done refl))
            | inr failed ↦ cc (rw (put, after_content, failed) at e)
          ]

      pub behind_header :
          drop header_size stored ≡ t.bytes ++ drop (header_size + length t.bytes) buf
      unfolding stored
      behind_header =
          let four : length (take header_size buf) ≡ header_size =
            omega (arith, length-take header_size buf, room) in
          subst (λ m. drop m stored ≡ t.bytes ++ drop (header_size + length t.bytes) buf) four
            (drop-append (take header_size buf)
              (t.bytes ++ drop (header_size + length t.bytes) buf))

      after_content-ContentRead :
          {x : T}
          → header_size + n ≤ buf_size_on_stack
          → (after_content k j to buf n t).result ≡ ok (some x)
          → ContentRead c.socket n (drop (header_size + n) buf) w (after_content k j to buf n t) x
      after_content-ContentRead {x} fits e =
          let (done, step) = after_content-finish fits e in
          let (answer, same) =
            finish-answer stored n t.client t.world (ap (λ d. d.result) (sym step) ∙ e) in
          let all : length t.bytes ≡ n = got.whole done in
          record {
            taken =
                subst (λ m. Taken k s c.socket m w (after_content k j to buf n t).world) all
                  (subst (Taken k s c.socket (length t.bytes) w)
                    (sym (ap (λ d. d.world) step ∙ same)) (Got-Taken k s got));
            answer =
                ap (λ b. j.parse b >>= make_result j to)
                  (ap (λ b. b ++ drop (header_size + n) buf) (front all)
                    ∙ ap (λ m. t.bytes ++ drop (header_size + m) buf) (sym all)
                    ∙ sym behind_header)
                ∙ answer;
          }
        where
          front : length t.bytes ≡ n → take n (s.incoming w c.socket) ≡ t.bytes
          front all =
              ap (take n) got.prefix
              ∙ ap (λ m. take m (t.bytes ++ s.incoming t.world c.socket)) (sym all)
              ∙ take-append t.bytes (s.incoming t.world c.socket)

    module _ (lawful : IsLawful k s) where
      abbrev length_field : ℕ
      length_field = swap32 (load32 buf)

      read_content-ContentRead :
          (c : Client) (w : k.World) {x : T}
          → (read_content k j to buf c w).result ≡ ok (some x)
          → (header_size + length_field ≤ buf_size_on_stack)
            × ContentRead c.socket length_field
                (drop (header_size + length_field) buf)
                w
                (read_content k j to buf c w)
                x
      unfolding read_content
      read_content-ContentRead c w e =
          elim (Bool-cases (ltb buf_size_on_stack (header_size + length_field))) [
            | inl large ↦
                cc (rw (content_length-snd buf header_size (omega arith), read_content, large) at e)
            | inr fits ↦
                rw (content_length-snd buf header_size (omega arith), fits)
                  (
                    ltb→le _ _ fits,
                    after_content-ContentRead _ c w _ (client_read-Got k s c (lawful c.socket) _ w)
                        (ltb→le _ _ fits)
                        (rw (content_length-snd buf header_size (omega arith), read_content, fits)
                          at e),
                  )
          ]

  -- An answer that was read as one frame from the stream since `w`.
  pub record FrameRead (fd : ℤ) (w : k.World) (d : Done k (Outcome (Option T))) (x : T)
      : Type 0 where
    pub n : ℕ
    pub announced : n ≡ swap32 (load32 (take header_size (s.incoming w fd)))
    pub fits : header_size + n ≤ buf_size_on_stack
    pub taken : Taken k s fd (header_size + n) w d.world
    pub rest : List ℕ
    pub answer : reads_as (take n (drop header_size (s.incoming w fd))) rest ≡ ok (some x)

  move-ContentRead :
      {fd fd' : ℤ} {n : ℕ} {rest : List ℕ} {w : k.World} {d d' : Done k (Outcome (Option T))}
      {x : T}
      → fd ≡ fd'
      → d ≡ d'
      → ContentRead fd n rest w d x
      → ContentRead fd' n rest w d' x
  move-ContentRead {fd} {fd'} {n} {rest} {w} {d} {d'} {x} p q h =
      subst (λ z. ContentRead z n rest w d' x) p (subst (λ e. ContentRead fd n rest w e x) q h)

  -- The content behind the four bytes of a header.
  frame_of :
      (fd : ℤ) (w w' : k.World) (d : Done k (Outcome (Option T))) (x : T) (n : ℕ)
      (rest bytes : List ℕ)
      → length bytes ≡ header_size
      → s.incoming w fd ≡ bytes ++ s.incoming w' fd
      → Taken k s fd header_size w w'
      → n ≡ swap32 (load32 bytes)
      → header_size + n ≤ buf_size_on_stack
      → ContentRead fd n rest w' d x
      → FrameRead fd w d x
  frame_of fd w w' d x n rest bytes four prefix taken announces fits read = record {
    n = n;
    announced = announces ∙ ap (λ b. swap32 (load32 b)) (sym front);
    fits = fits;
    taken = Taken-add k s fd taken read.taken;
    rest = rest;
    answer = ap (λ b. reads_as (take n b) rest) behind ∙ read.answer;
  }
    where
      front : take header_size (s.incoming w fd) ≡ bytes
      front =
          ap (take header_size) prefix
          ∙ ap (λ m. take m (bytes ++ s.incoming w' fd)) (sym four)
          ∙ take-append bytes (s.incoming w' fd)

      behind : drop header_size (s.incoming w fd) ≡ s.incoming w' fd
      behind =
          ap (drop header_size) prefix
          ∙ ap (λ m. drop m (bytes ++ s.incoming w' fd)) (sym four)
          ∙ drop-append bytes (s.incoming w' fd)

  module _ (lawful : IsLawful k s) (buf : List ℕ) (room : length buf ≡ buf_size_on_stack) where
    module _ (c : Client) (w : k.World) (t : Transfer k) (got : Got k s header_size c w t) where
      unfoldable pub with_header : List ℕ
      with_header = t.bytes ++ drop (0 + length t.bytes) buf

      pub header_stored : store_at buf 0 t.bytes ≡ some with_header
      unfolding with_header
      header_stored = store_at-some buf 0 t.bytes (omega (arith, got.bounded, room))

      after_header-read_content :
          {x : T}
          → (after_header k j to buf t).result ≡ ok (some x)
          → (t.success ≡ true)
            × (after_header k j to buf t ≡ read_content k j to with_header t.client t.world)
      unfolding after_header
      after_header-read_content e = elim (Bool-cases t.success) [
        | inl done ↦ (done, rw (header_stored, after_header) (rw done refl))
        | inr failed ↦ cc (rw (header_stored, after_header, failed) at e)
      ]

      after_header-FrameRead :
          {x : T}
          → (after_header k j to buf t).result ≡ ok (some x)
          → FrameRead c.socket w (after_header k j to buf t) x
      unfolding with_header
      after_header-FrameRead {x} e =
          let (done, step) = after_header-read_content e in
          let four : length t.bytes ≡ header_size = got.whole done in
          let (fits, content) =
            read_content-ContentRead with_header
              (length-store_at buf 0 t.bytes header_stored ∙ room) lawful t.client t.world
              (ap (λ d. d.result) (sym step) ∙ e) in
          frame_of c.socket w t.world (after_header k j to buf t) x _ _ t.bytes four got.prefix
            (subst (λ m. Taken k s c.socket m w t.world) four (Got-Taken k s got))
            (ap swap32 (load32-append t.bytes (drop (0 + length t.bytes) buf) four)) fits
            (move-ContentRead got.same_socket (sym step) content)

    pub after_write-FrameRead :
        (t : Transfer k) {x : T}
        → (after_write k j to buf t).result ≡ ok (some x)
        → FrameRead t.client.socket t.world (after_write k j to buf t) x
    unfolding after_write
    after_write-FrameRead t e = elim (Bool-cases t.success) [
      | inl done ↦ rw done (
          after_header-FrameRead t.client t.world _
            (client_read-Got k s t.client (lawful t.client.socket) header_size t.world)
            (rw (done, after_write) at e))
      | inr failed ↦ cc (rw (failed, after_write) at e)
    ]
