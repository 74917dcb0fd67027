-- ===== src/Client/Calls.antt =====
-- The whole of Client::call of trpc/Client.h: the health check, the token, the request and the
-- exchange.
use Prim.Native.String.{String}
use t_rpc.Base.{ℕ, ◌^◌, ◌<◌, ◌≡◌, refl, true, false, Bool, List, length, Option, some}
use t_rpc.Base.Word.{ℤ, pos}
use t_rpc.Client.{Client, Done, buf_size_on_stack, exchange, send, call}
use t_rpc.Client.Answers.{Answered, exchange-Answered}
use t_rpc.Codec.Framing.{wire}
use t_rpc.Health.{Health, no_read, check, check_state}
use t_rpc.Json.{JsonLib}
use t_rpc.Kernel.{Kernel, Streams, IsLawful}
use t_rpc.Outcome.{Outcome, ok, throws, undefined}
use t_rpc.Resolve.{make_request}
use t_rpc.TokenGenerator.{acquire}

module _ (k : Kernel) (s : Streams k) (j : JsonLib) {T : Type 0} (to : j.Json → Outcome T) where
  -- The health check passed, a new token was at hand, the request was made with it and the exchange
  -- that followed gave the value.
  pub record Called (function : String) (args : List j.Json) (probe : List ℕ) (c : Client)
      (w : k.World) (d : Done k (Outcome (Option T))) (x : T) : Type 0 where
    pub checked : k.World
    pub health : Health
    pub healthy : check k c.socket c.health probe w ≡ ok (true, health, checked)
    pub token : ℤ
    pub acquired : acquire c.token ≡ ok token
    pub request : j.Json
    pub made : make_request j token function args ≡ ok request
    pub answered : Answered k s j to c.socket (wire (j.print request)) checked d x

  module _ (lawful : IsLawful k s) (function : String) (args : List j.Json) (buf : List ℕ)
      (room : length buf ≡ buf_size_on_stack) where
    -- A request that can be made with the token is below 4 GiB.
    abbrev IsSmall : Outcome ℤ → Type 0
    IsSmall o =
        (token : ℤ) (request : j.Json)
        → o ≡ ok token
        → make_request j token function args ≡ ok request
        → length (j.print request) < 2 ^ 32

    record Sent (c : Client) (w : k.World) (o : Outcome ℤ) (d : Done k (Outcome (Option T))) (x : T)
        : Type 0 where
      token : ℤ
      acquired : o ≡ ok token
      request : j.Json
      made : make_request j token function args ≡ ok request
      answered : Answered k s j to c.socket (wire (j.print request)) w d x

    send-Sent :
        (o : Outcome ℤ) (c : Client) (w : k.World) {x : T}
        → IsSmall o
        → (send k j to function args buf o c w).result ≡ ok (some x)
        → Sent c w o (send k j to function args buf o c w) x
    unfolding send
    send-Sent (ok token) c w {x} small e = settle (make_request j token function args) refl
      where
        settle :
            (o : Outcome j.Json)
            → make_request j token function args ≡ o
            → Sent c w (ok token) (send k j to function args buf (ok token) c w) x
        settle (ok request) made = record {
          token = token;
          acquired = refl;
          request = request;
          made = made;
          answered =
              rw (made, send)
                (exchange-Answered k s j to lawful buf room (record c { token = token }) w request
                  (small token request refl made) (rw (made, send) at e));
        }
        settle (throws t) made = cc (rw (made, send) at e)
        settle undefined made = cc (rw (made, send) at e)
    send-Sent (throws t) c w small e = cc
    send-Sent undefined c w small e = cc

    module _ (probe : List ℕ) (c : Client) (w : k.World) {x : T}
        (small : (token : ℤ) (request : j.Json)
          → acquire c.token ≡ ok token
          → make_request j token function args ≡ ok request
          → length (j.print request) < 2 ^ 32)
        (e : (call k j to function args probe buf c w).result ≡ ok (some x)) where
      settle_health :
          (healthy : Bool) (h : Health) (w' : k.World)
          → check k c.socket c.health probe w ≡ ok (healthy, h, w')
          → Called function args probe c w (call k j to function args probe buf c w) x
      unfolding call
      settle_health true h w' healthy =
          let sent =
            send-Sent (acquire c.token) (record c { health = h }) w' small
              (rw (healthy, call) at e) in
          record {
            checked = w';
            health = h;
            healthy = healthy;
            token = sent.token;
            acquired = sent.acquired;
            request = sent.request;
            made = sent.made;
            answered = rw (healthy, call) sent.answered;
          }
      settle_health false h w' healthy = cc (rw (healthy, call) at e)

      settle_check :
          (o : Outcome (Bool × Health × k.World))
          → check k c.socket c.health probe w ≡ o
          → Called function args probe c w (call k j to function args probe buf c w) x
      unfolding call
      settle_check (ok (healthy, h, w')) checked = settle_health healthy h w' checked
      settle_check (throws t) checked = cc (rw (checked, call) at e)
      settle_check undefined checked = cc (rw (checked, call) at e)

      -- If `call` returns a value, and a request made of its arguments with the next token is below
      -- 4 GiB, then the health check passed, the token after the client's last one was taken, a
      -- request was made with it, exactly its frame went out after the check, exactly one frame
      -- was then read from the stream, and the value is what the parser makes of its content.
      pub call-Called : Called function args probe c w (call k j to function args probe buf c w) x
      call-Called = settle_check (check k c.socket c.health probe w) refl

  module _ (c : Client) (fd : ℕ) (connected : c.socket ≡ pos fd) (idle : c.health.state ≡ no_read)
      (token : ℤ) (acquired : acquire c.token ≡ ok token) (function : String) (args : List j.Json)
      (request : j.Json) (made : make_request j token function args ≡ ok request) where
    check_idle :
        (probe : List ℕ) (w : k.World) → check k c.socket c.health probe w ≡ ok (true, c.health, w)
    unfolding check check_state
    check_idle probe w = rw (connected, check, idle, check_state) refl

    -- On a connected client whose health check has nothing to drain, `call` is the exchange with
    -- the next token.
    pub call_idle :
        (probe buf : List ℕ) (w : k.World)
        → call k j to function args probe buf c w
          ≡ exchange k j to buf request (record c { token = token }) w
    unfolding call send
    call_idle probe buf w = rw (check_idle probe w, call, acquired, send, made) refl
