-- ===== src/Server/Conversation.antt =====
-- The loop of onAccept in trpc/Server.h, of a server without callbacks, over any number of turns.
use t_rpc.Base.{
  ℕ, ◌+◌, zero, suc, ◌≡◌, refl, ◌∙◌, sym, inl, inr, Bool-cases, List, length, none, Option-cases,
  arith, store_at, length-store_at, subst,
}
use t_rpc.Base.Word.{ℤ}
use t_rpc.Codec.{header_size, verify, content_length}
use t_rpc.Codec.Messages.{decode}
use t_rpc.Json.{JsonLib}
use t_rpc.Kernel.{Kernel, Streams, IsLawfulAt}
use t_rpc.Outcome.{Outcome, ok, throws, undefined, ◌>>=◌}
use t_rpc.Server.{
  Server, Transfer, Turn, stops, continues, respond, run_callback, write_response, after_response,
  after_request, handle_frame, after_content, read_content, after_header, turn, on_accept,
  server_pending, buf_size_on_stack,
}
use t_rpc.Server.Frames.{Served, turn-Served}

module _ (k : Kernel) (j : JsonLib) (peer : ℤ) where
  -- If the loop goes on, then with a buffer of this size.
  abbrev pub RoomOf : ℕ → Outcome (Turn k j) → Type 0
  RoomOf m (ok (continues s b w)) = length b ≡ m
  RoomOf m _ = Unit

  write_response-RoomOf :
      (buf : List ℕ) (x : j.Json) (s : Server k j) (w : k.World)
      → RoomOf (length buf) (ok (write_response k j peer buf x s w))
  unfolding write_response
  write_response-RoomOf buf x s w = ground arith

  after_response-RoomOf :
      (buf : List ℕ) (s : Server k j) (w : k.World) (x : j.Json)
      → RoomOf (length buf) (ok (after_response k j peer buf s w x))
  unfolding after_response
  after_response-RoomOf buf s w x = elim (Bool-cases (run_callback k j s.response_callback x w).0) [
    | inl go ↦ rw go (write_response-RoomOf buf _ s _)
    | inr skip ↦ rw skip refl
  ]

  after_request-RoomOf :
      (buf : List ℕ) (s : Server k j) (w : k.World) (x : j.Json)
      → RoomOf (length buf) (after_request k j peer buf s w x)
  unfolding after_request
  after_request-RoomOf buf s w x = elim (Bool-cases (run_callback k j s.request_callback x w).0) [
    | inl go ↦ rw go (settle _ (respond k j s (run_callback k j s.request_callback x w).1))
    | inr skip ↦ rw skip refl
  ]
    where
      settle :
          (w' : k.World) (o : Outcome j.Json)
          → RoomOf
              (length buf)
              (◌>>=◌ {B = Turn k j} o (λ response. ok (after_response k j peer buf s w' response)))
      settle w' (ok response) = after_response-RoomOf buf s w' response
      settle w' (throws e) = tt
      settle w' undefined = tt

  handle_frame-RoomOf :
      (buf : List ℕ) (n : ℕ) (s : Server k j) (w : k.World)
      → RoomOf (length buf) (handle_frame k j peer buf n s w)
  unfolding handle_frame
  handle_frame-RoomOf buf n s w = elim (Bool-cases (verify buf (header_size + n))) [
    | inl valid ↦ rw valid (settle (decode j buf (header_size + n)))
    | inr bad ↦ rw bad tt
  ]
    where
      settle : (o : Outcome j.Json) → RoomOf (length buf) (o >>= after_request k j peer buf s w)
      settle (ok request) = after_request-RoomOf buf s w request
      settle (throws e) = tt
      settle undefined = tt

  after_content-RoomOf :
      (buf : List ℕ) (n : ℕ) (t : Transfer k j)
      → RoomOf (length buf) (after_content k j peer buf n t)
  unfolding after_content
  after_content-RoomOf buf n t = elim (Option-cases (store_at buf header_size t.bytes)) [
    | inl over ↦ rw (over, after_content) tt
    | inr (buf', stored) ↦
        rw (stored, after_content)
          (elim (Bool-cases t.success) [
            | inl done ↦ rw done (
                subst (λ m. RoomOf m (handle_frame k j peer buf' n t.server t.world))
                  (length-store_at buf header_size t.bytes stored)
                  (handle_frame-RoomOf buf' n t.server t.world))
            | inr failed ↦ rw failed tt
          ])
  ]

  read_content-RoomOf :
      (buf : List ℕ) (s : Server k j) (w : k.World)
      → RoomOf (length buf) (read_content k j peer buf s w)
  unfolding read_content
  read_content-RoomOf buf s w = elim (Bool-cases (content_length buf header_size).0) [
    | inl valid ↦ rw valid (after_content-RoomOf buf _ _)
    | inr short ↦ rw short tt
  ]

  after_header-RoomOf :
      (buf : List ℕ) (t : Transfer k j) → RoomOf (length buf) (after_header k j peer buf t)
  unfolding after_header
  after_header-RoomOf buf t = elim (Option-cases (store_at buf 0 t.bytes)) [
    | inl over ↦ rw (over, after_header) tt
    | inr (buf', stored) ↦
        rw (stored, after_header)
          (elim (Bool-cases t.success) [
            | inl done ↦ rw done (
                subst (λ m. RoomOf m (read_content k j peer buf' t.server t.world))
                  (length-store_at buf 0 t.bytes stored)
                  (read_content-RoomOf buf' t.server t.world))
            | inr failed ↦ rw failed tt
          ])
  ]

  pub turn-RoomOf :
      (s : Server k j) (buf : List ℕ) (w : k.World) → RoomOf (length buf) (turn k j peer s buf w)
  unfolding turn
  turn-RoomOf s buf w = elim (Bool-cases (server_pending k j peer s w).success) [
    | inl done ↦ rw done (after_header-RoomOf buf _)
    | inr failed ↦ rw failed tt
  ]

  -- As many steps, one after the other, as the number says.
  pub data Row (R : k.World → k.World → Type 0) : ℕ → k.World → k.World → Type 0 where
    silence : (w : k.World) → Row R 0 w w
    exchanged : {n : ℕ} {w w' w'' : k.World} → R w w' → Row R n w' w'' → Row R (suc n) w w''

  -- If every turn that goes on is a step and leaves the server as it was, then the loop is a row of
  -- such steps.
  module _ (sv : Server k j) (R : k.World → k.World → Type 0)
      (steps : (buf : List ℕ) (w : k.World) (sv' : Server k j) (buf' : List ℕ) (w' : k.World)
        → length buf ≡ buf_size_on_stack
        → turn k j peer sv buf w ≡ ok (continues sv' buf' w')
        → R w w' × (sv' ≡ sv)) where
    abbrev Talks : ℕ → k.World → Outcome (Turn k j) → Type 0
    Talks n w (ok (continues s b w')) = Row R n w w' × (s ≡ sv)
    Talks n w _ = Unit

    on_accept-Talks :
        (turns : ℕ) (buf : List ℕ) (w : k.World)
        → length buf ≡ buf_size_on_stack
        → Talks turns w (on_accept k j turns peer sv buf w)
    unfolding on_accept
    on_accept-Talks zero buf w room = (silence w, refl)
    on_accept-Talks (suc turns) buf w room =
        settle (turn k j peer sv buf w) refl (on_accept-Talks turns)
      where
        follow :
            {w' : k.World} (o : Outcome (Turn k j))
            → R w w'
            → Talks turns w' o
            → Talks (suc turns) w o
        follow (ok (continues s b w'')) step h = (exchanged step h.0, h.1)
        follow (ok (stops s w'')) step h = tt
        follow (throws e) step h = tt
        follow undefined step h = tt

        settle :
            (o : Outcome (Turn k j))
            → turn k j peer sv buf w ≡ o
            → ((b : List ℕ) (w' : k.World)
                → length b ≡ buf_size_on_stack
                → Talks turns w' (on_accept k j turns peer sv b w'))
            → Talks (suc turns) w (
                ◌>>=◌ {B = Turn k j} o (λ t. elim t [
                  | stops s' w' ↦ ok (stops s' w')
                  | continues s' buf' w' ↦ on_accept k j turns peer s' buf' w'
                ]))
        settle (ok (stops s w')) e rest = tt
        settle (ok (continues s b w')) e rest =
            let (step, same) = steps buf w s b w' room e in
            let long : length b ≡ length buf =
              subst (RoomOf (length buf)) e (turn-RoomOf sv buf w) in
            follow _ step (
              subst (λ z. Talks turns w' (on_accept k j turns peer z b w')) (sym same)
                (rest b w' (long ∙ room)))
        settle (throws x) e rest = tt
        settle undefined e rest = tt

    pub on_accept-Row :
        (turns : ℕ) (buf : List ℕ) (w : k.World) {s' : Server k j} {buf' : List ℕ} {w' : k.World}
        → length buf ≡ buf_size_on_stack
        → on_accept k j turns peer sv buf w ≡ ok (continues s' buf' w')
        → Row R turns w w' × (s' ≡ sv)
    on_accept-Row turns buf w room e = subst (Talks turns w) e (on_accept-Talks turns buf w room)

  module _ (str : Streams k) (sv : Server k j) where
    -- Frames read and replied to, one after the other.
    abbrev pub Conversation : ℕ → k.World → k.World → Type 0
    Conversation = Row (λ w w'. Served k j str peer sv w sv w')

    -- If the loop of a server without callbacks is not over after a number of turns, then so many
    -- whole frames have been read, each replied to with one frame before the next was read.
    pub on_accept-Conversation :
        (lawful : IsLawfulAt k str peer) (no_request : sv.request_callback ≡ none)
        (no_response : sv.response_callback ≡ none) (turns : ℕ) (buf : List ℕ) (w : k.World)
        {s' : Server k j} {buf' : List ℕ} {w' : k.World}
        → length buf ≡ buf_size_on_stack
        → on_accept k j turns peer sv buf w ≡ ok (continues s' buf' w')
        → Conversation turns w w'
    on_accept-Conversation lawful no_request no_response turns buf w room e =
        (on_accept-Row sv (λ w w'. Served k j str peer sv w sv w')
          (λ buf w sv' buf' w' room e.
            let served = turn-Served k j str peer lawful sv no_request no_response buf w room e in
            let same = served.handled.same_server in
            (subst (λ z. Served k j str peer sv w z w') same served, same))
          turns buf w room e).0
