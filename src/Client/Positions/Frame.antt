-- ===== src/Client/Positions/Frame.antt =====
-- Client::call of trpc/Client.h from the read of the header on: where it leaves the client.
use t_rpc.Base.{
  ℕ, ◌+◌, ◌-◌, ◌≡◌, refl, ap, sym, subst, ◌∙◌, inl, inr, true, false, Bool-cases, List, [], ◌∷◌,
  ◌++◌, length, take, drop, take-append, append_assoc, arith, ltb, ltb→le, store_at, some, none,
  store_at-some, length-store_at, length-append,
}
use t_rpc.Base.Word.{pos, pos_part, swap32, load32, swap32-lt, load32-append}
use t_rpc.Client.{Client, Transfer, client_read, read_content, after_header, buf_size_on_stack}
use t_rpc.Client.Realigns.{leaves}
use t_rpc.Client.Transfers.{Got, Got-Taken, socket-close, client_read-Got}
use t_rpc.Codec.{header_size}
use t_rpc.Codec.Framing.{content_length-snd}
use t_rpc.Health.{no_read, header_read_some, set}
use t_rpc.Health.Owed.{Owes, Framed, untouched}
use t_rpc.Health.Drain.{Taken}
use t_rpc.Json.{JsonLib}
use t_rpc.Kernel.{Kernel, Streams, IsLawful}
use t_rpc.Outcome.{Outcome, ok}
use t_rpc.Client.Positions.{
  Position, closed, next, lost_header, past, up_to, after_content-Position,
}

module _ (k : Kernel) (s : Streams k) (j : JsonLib) {T : Type 0} (to : j.Json → Outcome T)
    (buf : List ℕ) (fd : ℕ) (head text later : List ℕ) (lawful : IsLawful k s) where
  read_content-Position :
      (b : List ℕ) (c : Client) (w : k.World)
      → length b ≡ buf_size_on_stack
      → length text ≡ swap32 (load32 b)
      → c.socket ≡ pos fd
      → c.health.state ≡ no_read
      → s.incoming w (pos fd) ≡ text ++ later
      → Position k s j to buf fd head text later (read_content k j to b c w)
  unfolding read_content
  read_content-Position b c w room whole here quiet front =
      elim (Bool-cases (ltb buf_size_on_stack (header_size + swap32 (load32 b)))) [
        | inl large ↦
            rw (content_length-snd b header_size (omega arith), large)
              (closed (socket-close k (record c { errno = 12 }) w))
        | inr fits ↦
            rw (content_length-snd b header_size (omega arith), fits)
              (after_content-Position k s j to buf fd head text later lawful b (swap32 (load32 b)) c
                w room (ltb→le _ _ fits) (swap32-lt _) whole here quiet front)
      ]

  module _ (four : length head ≡ header_size) (whole : length text ≡ swap32 (load32 head)) where
    pub after_header-Position :
        (b : List ℕ) (c : Client) (w : k.World)
        → length b ≡ buf_size_on_stack
        → c.socket ≡ pos fd
        → c.health.state ≡ no_read
        → s.incoming w (pos fd) ≡ head ++ (text ++ later)
        → Position k s j to buf fd head text later
            (after_header k j to b (client_read k header_size c w))
    unfolding after_header set
    after_header-Position b c w room here quiet front =
        rw (stored, after_header)
          (elim (Bool-cases t.success) [
            | inl done ↦ rw done (
                read_content-Position b' t.client t.world
                  (length-store_at b 0 t.bytes stored ∙ room) (announced done)
                  (got.same_socket ∙ here) (ap (λ h. h.state) got.same_health ∙ quiet)
                  (past t.bytes (s.incoming t.world (pos fd)) head (text ++ later) split
                    (got.whole done ∙ sym four)))
            | inr failed ↦ rw failed (nothing_or_lost failed t.bytes refl)
          ])
      where
        t : Transfer k
        t = client_read k header_size c w

        got : Got k s header_size c w t
        got = client_read-Got k s c (lawful c.socket) header_size w

        b' : List ℕ
        b' = t.bytes ++ drop (0 + length t.bytes) b

        stored : store_at b 0 t.bytes ≡ some b'
        stored = store_at-some b 0 t.bytes (omega (arith, got.bounded, room))

        split : t.bytes ++ s.incoming t.world (pos fd) ≡ head ++ (text ++ later)
        split =
            subst (λ z. t.bytes ++ s.incoming t.world z ≡ head ++ (text ++ later)) here
              (sym got.prefix ∙ ap (s.incoming w) here ∙ front)

        taken : Taken k s (pos fd) (length t.bytes) w t.world
        taken = subst (λ z. Taken k s z (length t.bytes) w t.world) here (Got-Taken k s got)

        left :
            (s.incoming t.world (pos fd) ≡ drop (length t.bytes) head ++ (text ++ later))
            × (length (drop (length t.bytes) head) ≡ header_size - length t.bytes)
        left =
            leaves k s j to buf fd (text ++ later) head (length t.bytes)
              (header_size - length t.bytes) front taken (omega (arith, got.bounded, four))

        announced : t.success ≡ true → length text ≡ swap32 (load32 b')
        announced done =
            whole
            ∙ ap swap32 (
                ap load32 (
                  sym (
                    up_to t.bytes (s.incoming t.world (pos fd)) head (text ++ later) split
                      (got.whole done ∙ sym four)))
                ∙ sym (load32-append t.bytes (drop (0 + length t.bytes) b) (got.whole done)))

        framed :
            (v : k.World)
            → s.incoming v (pos fd) ≡ head ++ (text ++ later)
            → Framed k s (pos fd) (length (head ++ text)) v
        framed v e = record {
          long = rw e (omega (arith, length-append head (text ++ later), four));
          announces = rw e (
              ap (λ xs. 4 + swap32 (load32 xs))
                (ap (λ m. take m (head ++ (text ++ later))) (sym four)
                  ∙ take-append head (text ++ later))
              ∙ omega (arith, length-append head text, four, whole));
        }

        nothing_or_lost :
            t.success ≡ false
            → (xs : List ℕ) → t.bytes ≡ xs
            → Position k s j to buf fd head text later (record {
              result = ok none;
              client = record (t.client) { health = set (pos_part t.ret) header_read_some 0 };
              world = t.world;
            })
        nothing_or_lost failed [] e =
            let all : s.incoming t.world (pos fd) ≡ head ++ (text ++ later) =
              subst (λ xs. xs ++ s.incoming t.world (pos fd) ≡ head ++ (text ++ later)) e split in
            let count : pos_part t.ret ≡ 0 = elim got.reported [
              | inl untold ↦ ap pos_part untold
              | inr told_all ↦ ap pos_part told_all ∙ ap length e
            ] in
            next (record {
              connected = got.same_socket ∙ here;
              rest = head ++ text;
              front = all ∙ sym (append_assoc head text later);
              owes =
                  subst
                    (λ m.
                      Owes k s (pos fd) t.world
                        (record { some_bytes = m; content = 0; state = header_read_some })
                        (length (head ++ text)))
                    (sym count) (untouched 0 (length (head ++ text)) (framed t.world all));
            })
        nothing_or_lost failed (x ∷ xs) e =
            lost_header
              (record {
                sized = four;
                before = front;
                failed = failed;
                some_taken = omega (arith, ap length e);
                ends = refl;
                front = left.0;
                valueless = refl;
                connected = got.same_socket ∙ here;
                noted = elim got.reported [
                  | inl untold ↦ inl (untold, ap pos_part untold)
                  | inr told_all ↦ inr (ap pos_part told_all)
                ];
              })
              refl
