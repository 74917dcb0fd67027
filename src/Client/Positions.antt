-- ===== src/Client/Positions.antt =====
-- Client::call of trpc/Client.h on every way out: where in the stream of the connection it leaves
-- the client.
pub mod Frame
pub mod Calls
use t_rpc.Base.{
  ◌-◌, ℕ, zero, suc, ◌+◌, ◌^◌, ◌≤◌, ◌<◌, ◌≡◌, refl, ap, sym, subst, ◌∙◌, ◌⊎◌, inl, inr, true, false,
  Bool, Bool-cases, List, [], ◌∷◌, ◌++◌, length, take, drop, drop-append, take-append, append_assoc,
  arith, ltb, ltb→le, store_at, some, none, store_at-some, length-store_at, Option, length-append,
}
use t_rpc.Base.Word.{ℤ, pos, negsuc, minus_one, pos_part, swap32, load32, swap32-lt, load32-append}
use t_rpc.Client.{
  Client, Transfer, Done, socket_invalid, client_read, client_write, finish, after_content,
  read_content, after_header, after_write, after_write_header, exchange, send, call,
  buf_size_on_stack,
}
use t_rpc.Client.Realigns.{Behind, checked-Behind, leaves}
use t_rpc.Client.Transfers.{Got, Put, Got-Taken, socket-close, client_read-Got, client_write-Put}
use t_rpc.Codec.{header_size, verify}
use t_rpc.Codec.Framing.{content_length-snd}
use t_rpc.Codec.Messages.{dump}
use t_rpc.Health.{Health, no_read, header_read_some, content_read_some, set}
use t_rpc.Health.Drain.{Taken}
use t_rpc.Health.Owed.{Owes, Framed, HeaderWhole, clear, untouched, partly}
use t_rpc.Json.{JsonLib}
use t_rpc.Kernel.{Kernel, Streams, IsLawful}
use t_rpc.Outcome.{Outcome, ok, throws, undefined}

-- Two lists that begin with as many elements, from there on.
pub past : (xs ys xs' ys' : List ℕ) → xs ++ ys ≡ xs' ++ ys' → length xs ≡ length xs' → ys ≡ ys'
past xs ys xs' ys' e long =
    sym (drop-append xs ys)
    ∙ ap (λ m. drop m (xs ++ ys)) long
    ∙ ap (drop (length xs')) e
    ∙ drop-append xs' ys'

pub up_to : (xs ys xs' ys' : List ℕ) → xs ++ ys ≡ xs' ++ ys' → length xs ≡ length xs' → xs ≡ xs'
up_to xs ys xs' ys' e long =
    sym (take-append xs ys)
    ∙ ap (λ m. take m (xs ++ ys)) long
    ∙ ap (take (length xs')) e
    ∙ take-append xs' ys'

-- A failed read either tells how many bytes it took, or took some and does not tell.
pub told :
    (ret : ℤ) (m : ℕ)
    → (ret ≡ minus_one) ⊎ (ret ≡ pos m)
    → (pos_part ret ≡ m) ⊎ ((ret ≡ minus_one) × (0 < m))
told ret zero (inl e) = inl (ap pos_part e)
told ret (suc m) (inl e) = inr (e, omega arith)
told ret m (inr e) = inl (ap pos_part e)

module _ (k : Kernel) (s : Streams k) (j : JsonLib) {T : Type 0} (to : j.Json → Outcome T)
    (buf : List ℕ) (fd : ℕ) where
  -- A call ended without a value in a read of this size, made by this client in this world with
  -- this part of the frame next: the read failed after it had taken some bytes of the part, and the
  -- client is still connected, behind them. The health state counts them, or has none if the read
  -- reported -1.
  pub record Lost (size : ℕ) (part behind : List ℕ) (c : Client) (w : k.World)
      (d : Done k (Outcome (Option T))) : Type 0 where
    pub sized : length part ≡ size
    pub before : s.incoming w (pos fd) ≡ part ++ behind
    pub failed : (client_read k size c w).success ≡ false
    pub some_taken : 0 < length (client_read k size c w).bytes
    pub ends : d.world ≡ (client_read k size c w).world
    pub front :
        s.incoming d.world (pos fd) ≡ drop (length (client_read k size c w).bytes) part ++ behind
    pub valueless : d.result ≡ ok none
    pub connected : d.client.socket ≡ pos fd
    pub noted :
        (((client_read k size c w).ret ≡ minus_one) × (d.client.health.some_bytes ≡ 0))
        ⊎ (d.client.health.some_bytes ≡ length (client_read k size c w).bytes)

  clear_at : (h : Health) (w : k.World) → h.state ≡ no_read → Owes k s (pos fd) w h 0
  clear_at h w e =
      subst
        (λ st.
          Owes k s (pos fd) w
            (record { some_bytes = h.some_bytes; content = h.content; state = st }) 0)
        (sym e) (clear h.some_bytes h.content)

  -- A client that owes nothing.
  pub idle :
      (rest : List ℕ) (c : Client) (w : k.World)
      → c.socket ≡ pos fd
      → c.health.state ≡ no_read
      → s.incoming w (pos fd) ≡ rest
      → Behind k s j to buf fd rest c w
  idle rest c w here quiet e = record {
    connected = here;
    rest = [];
    front = e;
    owes = clear_at c.health w quiet;
  }

  module _ (head text later : List ℕ) where
    -- Where a call leaves the client when the next frame on the stream has this header and this
    -- content: it is closed; or it owes what stands in front of that frame; or it owes what stands
    -- in front of `later`; or it is inside the frame and has lost count: within the header, or
    -- within the content after a read that took some bytes and reported -1.
    pub data Position (d : Done k (Outcome (Option T))) : Type 0 where
      closed : d.client.socket ≡ socket_invalid → Position d
      same : Behind k s j to buf fd (head ++ (text ++ later)) d.client d.world → Position d
      next : Behind k s j to buf fd later d.client d.world → Position d
      lost_header :
          {c : Client} {w : k.World}
          → Lost header_size head (text ++ later) c w d
          → d.client.health.state ≡ header_read_some
          → Position d
      lost_content :
          {n : ℕ} {c : Client} {w : k.World}
          → Lost n text later c w d
          → (client_read k n c w).ret ≡ minus_one
          → d.client.health ≡ record { some_bytes = 0; content = n; state = content_read_some }
          → Position d

    finish-Position :
        (b : List ℕ) (n : ℕ) (c : Client) (w : k.World)
        → c.socket ≡ pos fd
        → c.health.state ≡ no_read
        → s.incoming w (pos fd) ≡ later
        → Position (finish k j to b n c w)
    unfolding finish
    finish-Position b n c w here quiet e = elim (Bool-cases (verify b (header_size + n))) [
      | inl valid ↦ rw valid (next (idle later c w here quiet e))
      | inr bad ↦ rw bad (next (idle later (record c { errno = 22 }) w here quiet e))
    ]

    module _ (lawful : IsLawful k s) where
      pub after_content-Position :
          (b : List ℕ) (n : ℕ) (c : Client) (w : k.World)
          → length b ≡ buf_size_on_stack
          → header_size + n ≤ buf_size_on_stack
          → n < 2 ^ 32
          → length text ≡ n
          → c.socket ≡ pos fd
          → c.health.state ≡ no_read
          → s.incoming w (pos fd) ≡ text ++ later
          → Position (after_content k j to b n (client_read k n c w))
      unfolding after_content set
      after_content-Position b n c w room fits small whole here quiet front =
          rw
            (
              store_at-some b header_size t.bytes (omega (arith, got.bounded, room, fits)),
              after_content,
            )
            (elim (Bool-cases t.success) [
              | inl done ↦ rw done (
                  finish-Position _ n t.client t.world (got.same_socket ∙ here)
                    (ap (λ h. h.state) got.same_health ∙ quiet)
                    (past t.bytes (s.incoming t.world (pos fd)) text later split
                      (got.whole done ∙ sym whole)))
              | inr failed ↦ rw failed (elim (told t.ret (length t.bytes) got.reported) [
                | inl count ↦ next (record {
                  connected = got.same_socket ∙ here;
                  rest = drop (length t.bytes) text;
                  front = left.0;
                  owes =
                      subst
                        (λ m.
                          Owes k s (pos fd) t.world
                            (record { some_bytes = m; content = n; state = content_read_some })
                            (length (drop (length t.bytes) text)))
                        (sym count)
                        (subst
                          (Owes k s (pos fd) t.world (record {
                            some_bytes = length t.bytes;
                            content = n;
                            state = content_read_some;
                          }))
                          (sym left.1)
                          (partly (length t.bytes) n got.bounded (omega (arith, small))));
                })
                | inr (none_told, some_bytes) ↦
                    lost_content
                      (record {
                        sized = whole;
                        before = front;
                        failed = failed;
                        some_taken = some_bytes;
                        ends = refl;
                        front = left.0;
                        valueless = refl;
                        connected = got.same_socket ∙ here;
                        noted = inl (none_told, ap pos_part none_told);
                      })
                      none_told (rw none_told refl)
              ])
            ])
        where
          t : Transfer k
          t = client_read k n c w

          got : Got k s n c w t
          got = client_read-Got k s c (lawful c.socket) n w

          taken : Taken k s (pos fd) (length t.bytes) w t.world
          taken = subst (λ z. Taken k s z (length t.bytes) w t.world) here (Got-Taken k s got)

          left :
              (s.incoming t.world (pos fd) ≡ drop (length t.bytes) text ++ later)
              × (length (drop (length t.bytes) text) ≡ n - length t.bytes)
          left =
              leaves k s j to buf fd later text (length t.bytes) (n - length t.bytes) front taken
                (omega (arith, got.bounded, whole))

          split : t.bytes ++ s.incoming t.world (pos fd) ≡ text ++ later
          split =
              subst (λ z. t.bytes ++ s.incoming t.world z ≡ text ++ later) here
                (sym got.prefix ∙ ap (s.incoming w) here ∙ front)
