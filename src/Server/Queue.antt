-- ===== src/Server/Queue.antt =====
-- The loop of onAccept in trpc/Server.h, of a server without callbacks, on a prompt connection that
-- holds any number of requests, one behind the other.
use t_rpc.Base.{
  ℕ, ◌+◌, ◌*◌, ◌^◌, ◌≤◌, ◌<◌, ◌≡◌, ◌∙◌, refl, ap, sym, subst, List, [], ◌∷◌, ◌++◌, length,
  append_assoc, append-nil, none, arith,
}
use t_rpc.Base.Word.{ℤ}
use t_rpc.BestEffort.Prompt.{Prompt}
use t_rpc.Codec.{header_size}
use t_rpc.Codec.Framing.{wire, wires}
use t_rpc.Json.{JsonLib}
use t_rpc.Kernel.{Kernel, Streams, IsLawfulAt}
use t_rpc.Outcome.{ok}
use t_rpc.Server.{Server, continues, respond, on_accept, max_retries, buf_size_on_stack}
use t_rpc.Server.Conversation.{RoomOf, turn-RoomOf}
use t_rpc.Server.Live.{turn_live}

module _ (k : Kernel) (j : JsonLib) where
  module _ (sv : Server k j) (chunk : ℕ) where
    -- Each request parses whatever is behind it and is responded to with the reply that has its
    -- place; the texts fit the buffer and the chunks that the retries allow.
    pub data Answerable : List j.Json → List j.Json → Type 0 where
      no_more : Answerable [] []
      answerable :
          {request reply : j.Json} {requests replies : List j.Json}
          → ((rest : List ℕ) → j.parse (j.print request ++ rest) ≡ ok request)
          → respond k j sv request ≡ ok reply
          → header_size + length (j.print request) ≤ buf_size_on_stack
          → length (j.print reply) < 2 ^ 32
          → length (j.print request) ≤ max_retries * chunk
          → length (j.print reply) ≤ max_retries * chunk
          → Answerable requests replies
          → Answerable (request ∷ requests) (reply ∷ replies)

    module _ (s : Streams k) (peer : ℤ) (lawful : IsLawfulAt k s peer) (window : ℕ)
        (Live : k.World → Type 0) (prompt : Prompt k s peer window chunk Live)
        (within : 18 * window ≤ sv.timeout * 1_000_000) (wait : 3 * window ≤ sv.pending * 1_000_000)
        (no_request : sv.request_callback ≡ none) (no_response : sv.response_callback ≡ none)
        (later : List ℕ) where
      -- On a prompt connection, where each call takes a window of the clock at most, 18 windows are
      -- within the server's timeout and 3 within its pending time, a server without callbacks that
      -- finds a queue of answerable requests answers them all: after as many turns the loop still
      -- goes on, the requests' frames are taken off the stream, the frames of the replies have been
      -- sent in the order of the requests and nothing else, the server is unchanged and the
      -- connection still prompt.
      pub on_accept_live :
          {requests replies : List j.Json} (buf : List ℕ) (w : k.World)
          → Answerable requests replies
          → length buf ≡ buf_size_on_stack
          → Live w
          → s.incoming w peer ≡ wires j.print requests ++ later
          → (buf' : List ℕ) × (w' : k.World) × (on_accept k j (length requests) peer sv buf w
              ≡ ok (continues sv buf' w'))
            × (s.incoming w' peer ≡ later)
            × (s.sent w' peer ≡ s.sent w peer ++ wires j.print replies)
            × Live w'
      unfolding on_accept wires
      on_accept_live buf w no_more room live front =
          (buf, w, refl, front, sym (append-nil (s.sent w peer)), live)
      on_accept_live {requests = request ∷ requests} {replies = reply ∷ replies} buf w
            (answerable parsed answered fits small chunks reply_chunks more) room live front =
          let (buf', w', runs, left, sent, still) =
            turn_live k j s peer lawful window chunk Live prompt sv within no_request no_response
              reply small reply_chunks request answered (j.print request) parsed
              (omega (arith, fits)) buf (omega (arith, room, fits))
              (wires j.print requests ++ later) chunks w live wait
              (front ∙ append_assoc (wire (j.print request)) (wires j.print requests) later) in
          let long : length buf' ≡ length buf =
            subst (RoomOf k j peer (length buf)) runs (turn-RoomOf k j peer sv buf w) in
          let (buf'', w'', goes_on, rest, answers, alive) =
            on_accept_live buf' w' more (long ∙ room) still left in
          (
            buf'',
            w'',
            rw runs goes_on,
            rest,
            answers
                ∙ ap (λ xs. xs ++ wires j.print replies) sent
                ∙ append_assoc (s.sent w peer) (wire (j.print reply)) (wires j.print replies),
            alive,
          )
