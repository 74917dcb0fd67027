-- ===== src/Server/Frames.antt =====
-- A turn of the loop of onAccept in trpc/Server.h, of a server without callbacks: the frame that it
-- reads and the frame that it writes.
use t_rpc.Base.{
  ℕ, ◌+◌, ◌≤◌, ◌≡◌, ap, ◌∙◌, sym, inl, inr, true, Bool-cases, List, ◌++◌, length, take, drop,
  take-append, drop-append, length-take, ltb, ltb→le, ltb→lt, none, some, arith, subst, store_at,
  store_at-some, store_at-none, length-store_at,
}
use t_rpc.Base.Word.{ℤ, load32, swap32, load32-append}
use t_rpc.Codec.{header_size}
use t_rpc.Codec.Framing.{content_length-snd}
use t_rpc.Health.Drain.{Taken, Taken-add}
use t_rpc.Json.{JsonLib}
use t_rpc.Kernel.{Kernel, Streams, IsLawfulAt, Quiet}
use t_rpc.Outcome.{Outcome, ok, throws, undefined}
use t_rpc.Server.{
  Server, Transfer, Turn, stops, continues, handle_frame, after_content, read_content, after_header,
  turn, server_read, server_pending, buf_size_on_stack,
}
use t_rpc.Server.Transfers.{Got, server_read-Got, server_pending-Quiet}
use t_rpc.Server.Written.{Reply, handle_frame-ReplyOf}

module _ (k : Kernel) (j : JsonLib) (s : Streams k) (peer : ℤ) where
  -- One whole frame was read since `w`, `n` bytes long behind its header, and `R` says what came of
  -- its text from there on; `rest` is what the buffer holds behind it.
  pub record FrameTaken (R : List ℕ → k.World → Type 0) (w : k.World) : Type 0 where
    pub n : ℕ
    pub announced : n ≡ swap32 (load32 (take header_size (s.incoming w peer)))
    pub received : k.World
    pub taken : Taken k s peer (header_size + n) w received
    pub rest : List ℕ
    pub handled : R (take n (drop header_size (s.incoming w peer)) ++ rest) received

  -- A content of `n` bytes was read since `w`.
  record ContentTaken (R : List ℕ → k.World → Type 0) (n : ℕ) (w : k.World) : Type 0 where
    received : k.World
    taken : Taken k s peer n w received
    rest : List ℕ
    handled : R (take n (s.incoming w peer) ++ rest) received

  -- The frame was replied to.
  abbrev pub Served : Server k j → k.World → Server k j → k.World → Type 0
  Served sv w sv' w' = FrameTaken (λ text v. Reply k j s peer sv text v sv' w') w

  -- `R` relates the text of a frame and the world behind it to the server and the world that a turn
  -- leaves, if handle_frame goes on.
  module _ (R : List ℕ → k.World → Server k j → k.World → Type 0) where
    abbrev pub GoesOn : List ℕ → k.World → Outcome (Turn k j) → Type 0
    GoesOn text w (ok (continues sv' b w')) = R text w sv' w'
    GoesOn text w _ = Unit

    abbrev ContentOf : ℕ → k.World → Outcome (Turn k j) → Type 0
    ContentOf n w (ok (continues sv' b w')) = ContentTaken (λ text v. R text v sv' w') n w
    ContentOf n w _ = Unit

    abbrev pub FrameOf : k.World → Outcome (Turn k j) → Type 0
    FrameOf w (ok (continues sv' b w')) = FrameTaken (λ text v. R text v sv' w') w
    FrameOf w _ = Unit

    module _ (lawful : IsLawfulAt k s peer) (sv : Server k j)
        (handles : (buf : List ℕ) (n : ℕ) (w : k.World)
          → GoesOn (drop header_size buf) w (handle_frame k j peer buf n sv w)) where
      module _ (buf : List ℕ) (room : header_size ≤ length buf) (n : ℕ) (w : k.World)
          (t : Transfer k j) (got : Got k j s peer lawful n sv w t) where
        stored : List ℕ
        stored = take header_size buf ++ (t.bytes ++ drop (header_size + length t.bytes) buf)

        content_text :
            t.success ≡ true
            → drop header_size stored
              ≡ take n (s.incoming w peer) ++ drop (header_size + length t.bytes) buf
        unfolding stored
        content_text done =
            let four : length (take header_size buf) ≡ header_size =
              omega (arith, length-take header_size buf, room) in
            let all : length t.bytes ≡ n = (got.whole done).0 in
            subst (λ m. drop m stored ≡ t.bytes ++ drop (header_size + length t.bytes) buf) four
              (drop-append (take header_size buf)
                (t.bytes ++ drop (header_size + length t.bytes) buf))
            ∙ ap (λ b. b ++ drop (header_size + length t.bytes) buf)
                (sym (
                  ap (take n) got.prefix
                  ∙ ap (λ m. take m (t.bytes ++ s.incoming t.world peer)) (sym all)
                  ∙ take-append t.bytes (s.incoming t.world peer)))

        GoesOn-ContentOf :
            t.success ≡ true
            → (o : Outcome (Turn k j)) → GoesOn (drop header_size stored) t.world o
            → ContentOf n w o
        GoesOn-ContentOf done (ok (continues sv' b w')) h = record {
          received = t.world;
          taken = record {
            bytes = t.bytes;
            counted = (got.whole done).0;
            prefix = got.prefix;
            same_sent = got.same_sent;
          };
          rest = drop (header_size + length t.bytes) buf;
          handled = subst (λ x. R x t.world sv' w') (content_text done) h;
        }
        GoesOn-ContentOf done (ok (stops sv' w')) h = tt
        GoesOn-ContentOf done (throws x) h = tt
        GoesOn-ContentOf done undefined h = tt

        after_content-ContentOf : ContentOf n w (after_content k j peer buf n t)
        unfolding after_content stored
        after_content-ContentOf =
            elim (Bool-cases (ltb (length buf) (header_size + length t.bytes))) [
              | inl over ↦
                  rw (store_at-none buf header_size t.bytes (ltb→lt _ _ over), after_content) tt
              | inr fits ↦
                  rw (store_at-some buf header_size t.bytes (ltb→le _ _ fits), after_content)
                    (elim (Bool-cases t.success) [
                      | inl done ↦ rw done (
                          subst (λ z. ContentOf n w (handle_frame k j peer stored n z t.world))
                            (sym (got.whole done).1)
                            (GoesOn-ContentOf done _ (handles stored n t.world)))
                      | inr failed ↦ rw failed tt
                    ])
            ]

      read_content-ContentOf :
          (buf : List ℕ) (w : k.World)
          → header_size ≤ length buf
          → ContentOf (swap32 (load32 buf)) w (read_content k j peer buf sv w)
      unfolding read_content
      read_content-ContentOf buf w room =
          rw (content_length-snd buf header_size (omega arith))
            (after_content-ContentOf buf room _ w _ (server_read-Got k j s peer lawful _ sv w))

      module _ (buf : List ℕ) (room : header_size ≤ length buf) (w : k.World) (t : Transfer k j)
          (got : Got k j s peer lawful header_size sv w t) where
        with_header : List ℕ
        with_header = t.bytes ++ drop (0 + length t.bytes) buf

        header_stored : store_at buf 0 t.bytes ≡ some with_header
        unfolding with_header
        header_stored = store_at-some buf 0 t.bytes (omega (arith, got.bounded, room))

        ContentOf-FrameOf :
            t.success ≡ true
            → (o : Outcome (Turn k j)) → ContentOf (swap32 (load32 with_header)) t.world o
            → FrameOf w o
        unfolding with_header
        ContentOf-FrameOf done (ok (continues sv' b w')) h =
            let four : length t.bytes ≡ header_size = (got.whole done).0 in
            let front : take header_size (s.incoming w peer) ≡ t.bytes =
              ap (take header_size) got.prefix
              ∙ ap (λ m. take m (t.bytes ++ s.incoming t.world peer)) (sym four)
              ∙ take-append t.bytes (s.incoming t.world peer) in
            let behind : drop header_size (s.incoming w peer) ≡ s.incoming t.world peer =
              ap (drop header_size) got.prefix
              ∙ ap (λ m. drop m (t.bytes ++ s.incoming t.world peer)) (sym four)
              ∙ drop-append t.bytes (s.incoming t.world peer) in
            record {
              n = swap32 (load32 with_header);
              announced = ap swap32 (
                  load32-append t.bytes (drop (0 + length t.bytes) buf) four
                  ∙ ap load32 (sym front));
              received = h.received;
              taken =
                  Taken-add k s peer
                    (record {
                      bytes = t.bytes;
                      counted = four;
                      prefix = got.prefix;
                      same_sent = got.same_sent;
                    })
                    h.taken;
              rest = h.rest;
              handled =
                  subst (λ b. R (take (swap32 (load32 with_header)) b ++ h.rest) h.received sv' w')
                    (sym behind) h.handled;
            }
        ContentOf-FrameOf done (ok (stops sv' w')) h = tt
        ContentOf-FrameOf done (throws x) h = tt
        ContentOf-FrameOf done undefined h = tt

        after_header-FrameOf : FrameOf w (after_header k j peer buf t)
        unfolding after_header
        after_header-FrameOf =
            rw (header_stored, after_header)
              (elim (Bool-cases t.success) [
                | inl done ↦ rw done (
                    subst (λ z. FrameOf w (read_content k j peer with_header z t.world))
                      (sym (got.whole done).1)
                      (ContentOf-FrameOf done _ (
                        read_content-ContentOf with_header t.world
                          (omega (arith, length-store_at buf 0 t.bytes header_stored, room)))))
                | inr failed ↦ rw failed tt
              ])

      Quiet-FrameOf :
          {w w' : k.World}
          → Quiet k s peer w w'
          → (o : Outcome (Turn k j)) → FrameOf w' o
          → FrameOf w o
      Quiet-FrameOf q (ok (continues sv' b w'')) h = record {
        n = h.n;
        announced =
            subst (λ b. h.n ≡ swap32 (load32 (take header_size b))) q.same_incoming h.announced;
        received = h.received;
        taken = record {
          bytes = h.taken.bytes;
          counted = h.taken.counted;
          prefix = sym q.same_incoming ∙ h.taken.prefix;
          same_sent = h.taken.same_sent ∙ q.same_sent;
        };
        rest = h.rest;
        handled =
            subst (λ b. R (take h.n (drop header_size b) ++ h.rest) h.received sv' w'')
              q.same_incoming h.handled;
      }
      Quiet-FrameOf q (ok (stops sv' w'')) h = tt
      Quiet-FrameOf q (throws x) h = tt
      Quiet-FrameOf q undefined h = tt

      pub turn-FrameOf :
          (buf : List ℕ) (w : k.World)
          → header_size ≤ length buf
          → FrameOf w (turn k j peer sv buf w)
      unfolding turn
      turn-FrameOf buf w room =
          let (quiet, same) = server_pending-Quiet k j s peer lawful sv w in
          elim (Bool-cases (server_pending k j peer sv w).success) [
            | inl done ↦ rw done (
                subst
                  (λ z. FrameOf w (
                    after_header k j peer buf
                      (server_read k j peer header_size z (server_pending k j peer sv w).world)))
                  (sym (same done))
                  (Quiet-FrameOf quiet _ (
                    after_header-FrameOf buf room _ _ (
                      server_read-Got k j s peer lawful header_size sv
                        (server_pending k j peer sv w).world))))
            | inr failed ↦ rw failed tt
          ]

  -- Without callbacks, a turn after which the loop goes on has read exactly one whole frame,
  -- parsed it, responded to it and sent the header of the response's dump with as many bytes
  -- of its text as the header announces, and nothing else; the server is unchanged.
  pub turn-Served :
      (lawful : IsLawfulAt k s peer) (sv : Server k j) (no_request : sv.request_callback ≡ none)
      (no_response : sv.response_callback ≡ none) (buf : List ℕ) (w : k.World) {sv' : Server k j}
      {buf' : List ℕ} {w' : k.World}
      → length buf ≡ buf_size_on_stack
      → turn k j peer sv buf w ≡ ok (continues sv' buf' w')
      → Served sv w sv' w'
  turn-Served lawful sv no_request no_response buf w room e =
      subst (FrameOf (Reply k j s peer sv) w) e (
        turn-FrameOf (Reply k j s peer sv) lawful sv
          (handle_frame-ReplyOf k j s peer lawful sv no_request no_response) buf w
          (omega (arith, room)))
