-- ===== src/Server/Callbacks.antt =====
-- A turn of the loop of onAccept in trpc/Server.h with any callbacks that neither throw nor change
-- the server: what became of the frame that it read.
use t_rpc.Base.{
  ℕ, ◌+◌, ◌≡◌, refl, inl, inr, true, false, Bool, Bool-cases, List, length, drop, arith, subst,
}
use t_rpc.Base.Word.{ℤ}
use t_rpc.Codec.{header_size, verify}
use t_rpc.Codec.Messages.{decode}
use t_rpc.Json.{JsonLib}
use t_rpc.Kernel.{Kernel, Streams, IsLawfulAt}
use t_rpc.Outcome.{Outcome, ok, throws, undefined, ◌>>=◌}
use t_rpc.Server.{
  Server, Turn, stops, continues, respond, run_callback, after_response, after_request,
  handle_frame, turn, on_accept, buf_size_on_stack,
}
use t_rpc.Server.Conversation.{Row, on_accept-Row}
use t_rpc.Server.Frames.{FrameTaken, FrameOf, GoesOn, turn-FrameOf}
use t_rpc.Server.Written.{WroteFrame, WriteOf, write_response-WriteOf}

module _ (k : Kernel) (j : JsonLib) (s : Streams k) (peer : ℤ) (sv : Server k j) where
  -- What became of a reply, from the world `w` on: the response callback withheld it, or what the
  -- callback made of it went out as one frame.
  pub data Reported (reply : j.Json) (w : k.World) (sv' : Server k j) (w' : k.World) : Type 0 where
    withheld :
        {x : j.Json}
        → run_callback k j sv.response_callback reply w ≡ (false, x, w')
        → sv' ≡ sv
        → Reported reply w sv' w'
    written :
        {x : j.Json} {w₁ : k.World}
        → run_callback k j sv.response_callback reply w ≡ (true, x, w₁)
        → WroteFrame k j s peer sv (j.print x) w₁ sv' w'
        → Reported reply w sv' w'

  -- What became of a request: the request callback dropped it, or what the callback made of it was
  -- responded to.
  pub data Screened (request : j.Json) (w : k.World) (sv' : Server k j) (w' : k.World)
      : Type 0 where
    dropped :
        {x : j.Json}
        → run_callback k j sv.request_callback request w ≡ (false, x, w')
        → sv' ≡ sv
        → Screened request w sv' w'
    passed :
        {x reply : j.Json} {w₁ : k.World}
        → run_callback k j sv.request_callback request w ≡ (true, x, w₁)
        → respond k j sv x ≡ ok reply
        → Reported reply w₁ sv' w'
        → Screened request w sv' w'

  -- The text of the frame parses as a request.
  pub record Screening (text : List ℕ) (w : k.World) (sv' : Server k j) (w' : k.World)
      : Type 0 where
    pub request : j.Json
    pub read : j.parse text ≡ ok request
    pub screened : Screened request w sv' w'

  -- One turn: a frame was taken in, and its text screened.
  abbrev pub Turned : k.World → k.World → Type 0
  Turned w w' = FrameTaken k j s peer (λ text v. Screening text v sv w') w

  abbrev ReportedOf : j.Json → k.World → Turn k j → Type 0
  ReportedOf reply w (continues sv' b w') = Reported reply w sv' w'
  ReportedOf reply w (stops sv' w') = Unit

  abbrev ScreenedOf : j.Json → k.World → Outcome (Turn k j) → Type 0
  ScreenedOf request w (ok (continues sv' b w')) = Screened request w sv' w'
  ScreenedOf request w _ = Unit

  module _ (lawful : IsLawfulAt k s peer) where
    after_response-ReportedOf :
        (buf : List ℕ) (w : k.World) (reply : j.Json)
        → ReportedOf reply w (after_response k j peer buf sv w reply)
    unfolding after_response
    after_response-ReportedOf buf w reply =
        settle (run_callback k j sv.response_callback reply w) refl
      where
        went :
            {x : j.Json} {w₁ : k.World}
            → run_callback k j sv.response_callback reply w ≡ (true, x, w₁)
            → (t : Turn k j) → WriteOf k j s peer sv (j.print x) w₁ t
            → ReportedOf reply w t
        went e (continues sv' b w') h = written e h
        went e (stops sv' w') h = tt

        settle :
            (r : Bool × j.Json × k.World)
            → run_callback k j sv.response_callback reply w ≡ r
            → ReportedOf reply w (after_response k j peer buf sv w reply)
        settle (true, x, w₁) e =
            rw e (went e _ (write_response-WriteOf k j s peer lawful buf x sv w₁))
        settle (false, x, w₁) e = rw e (withheld e refl)

    after_request-ScreenedOf :
        (buf : List ℕ) (w : k.World) (request : j.Json)
        → ScreenedOf request w (after_request k j peer buf sv w request)
    unfolding after_request
    after_request-ScreenedOf buf w request =
        settle (run_callback k j sv.request_callback request w) refl
      where
        went :
            {x reply : j.Json} {w₁ : k.World}
            → run_callback k j sv.request_callback request w ≡ (true, x, w₁)
            → respond k j sv x ≡ ok reply
            → (t : Turn k j) → ReportedOf reply w₁ t
            → ScreenedOf request w (ok t)
        went e answered (continues sv' b w') h = passed e answered h
        went e answered (stops sv' w') h = tt

        answers :
            {x : j.Json} {w₁ : k.World}
            → run_callback k j sv.request_callback request w ≡ (true, x, w₁)
            → (o : Outcome j.Json) → respond k j sv x ≡ o
            → ScreenedOf request w
                (◌>>=◌ {B = Turn k j} o (λ reply. ok (after_response k j peer buf sv w₁ reply)))
        answers {w₁ = w₁} e (ok reply) answered =
            went e answered _ (after_response-ReportedOf buf w₁ reply)
        answers e (throws x) answered = tt
        answers e undefined answered = tt

        settle :
            (r : Bool × j.Json × k.World)
            → run_callback k j sv.request_callback request w ≡ r
            → ScreenedOf request w (after_request k j peer buf sv w request)
        settle (true, x, w₁) e = rw e (answers e (respond k j sv x) refl)
        settle (false, x, w₁) e = rw e (dropped e refl)

    handle_frame-Screening :
        (buf : List ℕ) (n : ℕ) (w : k.World)
        → GoesOn k j s peer Screening (drop header_size buf) w (handle_frame k j peer buf n sv w)
    unfolding handle_frame decode
    handle_frame-Screening buf n w = elim (Bool-cases (verify buf (header_size + n))) [
      | inl valid ↦ rw valid (settle (j.parse (drop header_size buf)) refl)
      | inr bad ↦ rw bad tt
    ]
      where
        reads :
            (request : j.Json)
            → j.parse (drop header_size buf) ≡ ok request
            → (o : Outcome (Turn k j)) → ScreenedOf request w o
            → GoesOn k j s peer Screening (drop header_size buf) w o
        reads request e (ok (continues sv' b w')) h = record {
          request = request;
          read = e;
          screened = h;
        }
        reads request e (ok (stops sv' w')) h = tt
        reads request e (throws x) h = tt
        reads request e undefined h = tt

        settle :
            (o : Outcome j.Json)
            → j.parse (drop header_size buf) ≡ o
            → GoesOn k j s peer Screening
                (drop header_size buf)
                w
                (o >>= after_request k j peer buf sv w)
        settle (ok request) e = reads request e _ (after_request-ScreenedOf buf w request)
        settle (throws x) e = tt
        settle undefined e = tt

    turn-FrameTaken :
        (buf : List ℕ) (w : k.World) {sv' : Server k j} {buf' : List ℕ} {w' : k.World}
        → length buf ≡ buf_size_on_stack
        → turn k j peer sv buf w ≡ ok (continues sv' buf' w')
        → FrameTaken k j s peer (λ text v. Screening text v sv' w') w
    turn-FrameTaken buf w room e = subst (FrameOf k j s peer Screening w) e (
        turn-FrameOf k j s peer Screening lawful sv handle_frame-Screening buf w
          (omega (arith, room)))

    Reported-same :
        {reply : j.Json} {w w' : k.World} {sv' : Server k j} → Reported reply w sv' w' → sv' ≡ sv
    Reported-same (withheld e same) = same
    Reported-same (written e h) = h.same_server

    Screened-same :
        {request : j.Json} {w w' : k.World} {sv' : Server k j}
        → Screened request w sv' w'
        → sv' ≡ sv
    Screened-same (dropped e same) = same
    Screened-same (passed e answered h) = Reported-same h

    -- With callbacks that return and change only the message and the world: if the loop is not over
    -- after a number of turns, then the server is unchanged and so many whole frames have been
    -- read, one after the other, each parsed as a request. Of each, before the next was read,
    -- either the request callback said no, and the turn ended in the world it left; or what the
    -- callback made of the request got a reply, the response callback said no to it, and the turn
    -- ended in the world which that left; or what that callback made of the reply was sent as one
    -- frame, and the turn sent nothing else and took nothing more off the stream.
    pub on_accept-Turned :
        (turns : ℕ) (buf : List ℕ) (w : k.World) {sv' : Server k j} {buf' : List ℕ} {w' : k.World}
        → length buf ≡ buf_size_on_stack
        → on_accept k j turns peer sv buf w ≡ ok (continues sv' buf' w')
        → Row k j peer Turned turns w w' × (sv' ≡ sv)
    on_accept-Turned = on_accept-Row k j peer sv Turned (λ buf w sv' buf' w' room e.
        let taken = turn-FrameTaken buf w room e in
        let same = Screened-same taken.handled.screened in
        (subst (λ z. FrameTaken k j s peer (λ text v. Screening text v z w') w) same taken, same))
