-- ===== src/Client/Queue.antt =====
-- Several calls of one client (trpc/Client.h), one after the other, on a prompt connection.
use Prim.Native.String.{String}
use t_rpc.Base.{
  ℕ, ◌+◌, ◌*◌, ◌^◌, ◌≤◌, ◌<◌, ◌≡◌, ◌∙◌, refl, ap, sym, List, [], ◌∷◌, ◌++◌, length, append_assoc,
  append-nil, Option, arith,
}
use t_rpc.Base.Word.{ℤ, pos}
use t_rpc.BestEffort.Prompt.{Prompt}
use t_rpc.Client.{Client, Done, call, exchange, max_retries, buf_size_on_stack}
use t_rpc.Client.Calls.{call_idle}
use t_rpc.Client.Live.{exchange_live}
use t_rpc.Codec.{header_size}
use t_rpc.Codec.Framing.{wire, wires}
use t_rpc.Health.{no_read}
use t_rpc.Json.{JsonLib}
use t_rpc.Kernel.{Kernel, Streams, IsLawfulAt}
use t_rpc.Outcome.{Outcome, ok}
use t_rpc.Resolve.{make_request, make_result}
use t_rpc.TokenGenerator.{acquire}

module _ (k : Kernel) (j : JsonLib) {T : Type 0} (to : j.Json → Outcome T) where
  -- A program that makes the calls, whatever each gives: the results, the client, the world.
  pub call_all :
      List (String × List j.Json)
      → (probe buf : List ℕ) → Client
      → k.World
      → List (Outcome (Option T)) × Client × k.World
  call_all [] probe buf c w = ([], c, w)
  call_all ((function, args) ∷ calls) probe buf c w =
      let d = call k j to function args probe buf c w in
      let (results, c', w') = call_all calls probe buf d.client d.world in
      (d.result ∷ results, c', w')

  pub results_of : List j.Json → List (Outcome (Option T))
  results_of [] = []
  results_of (reply ∷ replies) = make_result j to reply ∷ results_of replies

  -- The calls can be made after the token: each request is that of its call with the next token,
  -- and each reply parses whatever is behind it. The texts fit the buffer and the chunks that the
  -- retries allow.
  pub data Makes (chunk : ℕ)
      : ℤ → List (String × List j.Json) → List j.Json → List j.Json → Type 0 where
    no_more : (token : ℤ) → Makes chunk token [] [] []
    makes :
        {token token' : ℤ} {function : String} {args : List j.Json} {request reply : j.Json}
        {calls : List (String × List j.Json)} {requests replies : List j.Json}
        → acquire token ≡ ok token'
        → make_request j token' function args ≡ ok request
        → ((rest : List ℕ) → j.parse (j.print reply ++ rest) ≡ ok reply)
        → length (j.print request) < 2 ^ 32
        → header_size + length (j.print reply) ≤ buf_size_on_stack
        → length (j.print request) ≤ max_retries * chunk
        → length (j.print reply) ≤ max_retries * chunk
        → Makes chunk token' calls requests replies
        → Makes chunk token ((function, args) ∷ calls) (request ∷ requests) (reply ∷ replies)

  module _ (s : Streams k) (c : Client) (lawful : IsLawfulAt k s c.socket) (fd : ℕ)
      (connected : c.socket ≡ pos fd) (idle : c.health.state ≡ no_read) (window chunk : ℕ)
      (Live : k.World → Type 0) (prompt : Prompt k s c.socket window chunk Live)
      (within : 30 * window ≤ c.timeout * 1_000_000) (probe buf : List ℕ)
      (room : length buf ≡ buf_size_on_stack) (later : List ℕ) where
    -- On a prompt connection, of which 30 windows are within the client's timeout, and whose stream
    -- has the replies next, in the order of the calls, the calls of a connected client with nothing
    -- to drain all return, if their requests can be made and the texts fit: each result is what
    -- makeResult makes of the reply that has its place, the frames of the requests have been sent
    -- in order and nothing else, and the replies are taken off the stream. The client has changed
    -- only its token.
    pub call_all_live :
        (token : ℤ) {calls : List (String × List j.Json)} {requests replies : List j.Json}
        (w : k.World)
        → Makes chunk token calls requests replies
        → Live w
        → s.incoming w c.socket ≡ wires j.print replies ++ later
        → (token' : ℤ) × (w' : k.World) × (call_all calls probe buf (record c { token = token }) w
            ≡ (results_of replies, record c { token = token' }, w'))
          × (s.sent w' c.socket ≡ s.sent w c.socket ++ wires j.print requests)
          × (s.incoming w' c.socket ≡ later)
          × Live w'
    unfolding call_all results_of wires
    call_all_live token w (no_more _) live front =
        (token, w, refl, sym (append-nil (s.sent w c.socket)), front, live)
    call_all_live token {calls = (function, args) ∷ calls} {requests = request ∷ requests}
          {replies = reply ∷ replies} w
          (makes {token' = token'} acquired made parsed small fits request_chunks chunks more) live
          front =
        let d : Done k (Outcome (Option T)) =
          exchange k j to buf request (record c { token = token' }) w in
        let r =
          exchange_live k s j to (record c { token = token' }) lawful window chunk Live prompt
            within (j.print reply) (wires j.print replies ++ later) reply parsed
            (omega (arith, fits)) chunks buf fits (omega (arith, room, fits)) request w small
            request_chunks live
            (front ∙ append_assoc (wire (j.print reply)) (wires j.print replies) later) in
        let (last, w', runs, sent, left, still) = call_all_live token' d.world more r.live r.left in
        (
          last,
          w',
          rw
              (
                call_idle k s j to (record c { token = token }) fd connected idle token' acquired
                    function args request made probe buf w,
                r.same,
                runs,
                r.result,
              )
              refl,
          sent
              ∙ ap (λ xs. xs ++ wires j.print requests) r.sent
              ∙ append_assoc (s.sent w c.socket) (wire (j.print request)) (wires j.print requests),
          left,
          still,
        )
