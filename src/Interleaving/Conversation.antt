-- ===== src/Interleaving/Conversation.antt =====
-- onAccept of trpc/Server.h on one connection, with other coroutines in between its system calls.
use t_rpc.Base.{◌+◌, ℕ, ◌*◌, ◌≤◌, ◌≡◌, List, ◌++◌, length, none}
use t_rpc.Base.Word.{ℤ}
use t_rpc.BestEffort.Prompt.{Prompt}
use t_rpc.Codec.Framing.{wires}
use t_rpc.Interleaving.{IsLocal, Shared, interleaved, below}
use t_rpc.Interleaving.Laws.{LiveBelow, interleaved-IsLawfulAt, interleaved-Prompt}
use t_rpc.Json.{JsonLib}
use t_rpc.Kernel.{Kernel, Streams, IsLawfulAt}
use t_rpc.Outcome.{ok}
use t_rpc.Server.{Server, continues, on_accept, buf_size_on_stack}
use t_rpc.Server.Callbacks.{Turned, on_accept-Turned}
use t_rpc.Server.Conversation.{Row}
use t_rpc.Server.Queue.{Answerable, on_accept_live}

module _ (k : Kernel) (j : JsonLib) (s : Streams k) (fd : ℤ) (lawful : IsLawfulAt k s fd)
    (local : IsLocal k s fd) (sv : Server (interleaved k fd) j) where
  -- Whatever calls on other descriptors the other coroutines make while the connection's own one
  -- waits, if such calls move no byte of the connection: when the loop is not over after a number
  -- of turns, with callbacks that return and change only the message and the world, then the server
  -- is unchanged and so many whole frames have been read from the connection, one after the other,
  -- each parsed as a request. Of each, before the next was read, either the request callback said
  -- no; or what it made of the request got a reply, to which the response callback said no; and
  -- either way the turn ended in the world that the callback left; or what the response callback
  -- made of the reply was sent as one frame, and after the callback the turn sent nothing else on
  -- the connection.
  pub interleaved-Turned :
      (turns : ℕ) (buf : List ℕ) (w : Shared k fd) {sv' : Server (interleaved k fd) j}
      {buf' : List ℕ} {w' : Shared k fd}
      → length buf ≡ buf_size_on_stack
      → on_accept (interleaved k fd) j turns fd sv buf w ≡ ok (continues sv' buf' w')
      → Row (interleaved k fd) j fd (Turned (interleaved k fd) j (below k fd s) fd sv) turns w w'
        × (sv' ≡ sv)
  interleaved-Turned =
      on_accept-Turned (interleaved k fd) j (below k fd s) fd sv
        (interleaved-IsLawfulAt k s fd local lawful)

  module _ (no_request : sv.request_callback ≡ none) (no_response : sv.response_callback ≡ none)
      (window pause chunk : ℕ) (Live : k.World → Type 0) (prompt : Prompt k s fd window chunk Live)
      (within : 18 * (window + pause) ≤ sv.timeout * 1_000_000)
      (wait : 3 * (window + pause) ≤ sv.pending * 1_000_000) where
    -- The other coroutines make calls on other descriptors while the connection's own one waits,
    -- and such calls move no byte of the connection. The connection is prompt, and each segment of
    -- the others' calls leaves it so and takes a pause of the clock at most; 18 windows and pauses
    -- are within the server's timeout, 3 within its pending time. Then a server without callbacks
    -- answers a queue of answerable requests all the same: after as many turns the loop goes on
    -- with the server unchanged, the requests' frames are off the stream and the frames of the
    -- replies have been sent on it in the order of the requests, and nothing else.
    pub interleaved_live :
        (later : List ℕ) {requests replies : List j.Json} (buf : List ℕ) (w : Shared k fd)
        → Answerable (interleaved k fd) j sv chunk requests replies
        → length buf ≡ buf_size_on_stack
        → LiveBelow k s fd local window pause chunk Live w
        → s.incoming w.world fd ≡ wires j.print requests ++ later
        → (buf' : List ℕ) × (w' : Shared k fd) × (on_accept
              (interleaved k fd)
              j
              (length requests)
              fd
              sv
              buf
              w
            ≡ ok (continues sv buf' w'))
          × (s.incoming w'.world fd ≡ later)
          × (s.sent w'.world fd ≡ s.sent w.world fd ++ wires j.print replies)
          × LiveBelow k s fd local window pause chunk Live w'
    interleaved_live later buf w answers room live front =
        on_accept_live (interleaved k fd) j sv chunk (below k fd s) fd
          (interleaved-IsLawfulAt k s fd local lawful) (window + pause)
          (LiveBelow k s fd local window pause chunk Live)
          (interleaved-Prompt k s fd local window pause chunk Live prompt) within wait no_request
          no_response later buf w answers room live front
