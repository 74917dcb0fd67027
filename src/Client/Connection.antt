-- ===== src/Client/Connection.antt =====
-- trpc/Client.h: construction, connection and the small members of the client. A value that the
-- source leaves uninitialised, the token, is an argument.
use t_rpc.Base.{ℕ, Bool, true, false, not, Option, none, some, ◌==◌, if◌then◌else◌}
use t_rpc.Base.Word.{ℤ, pos, negsuc}
use t_rpc.Client.{Client, socket_invalid, close}
use t_rpc.Health
use t_rpc.Kernel.{Kernel, SockAddr}

-- 1 << 9 hours, in milliseconds.
abbrev pub no_timedout : ℕ
no_timedout = 1_843_200_000

abbrev pub is_negative : ℤ → Bool
is_negative (pos n) = false
is_negative (negsuc n) = true

abbrev pub is_zero : ℤ → Bool
is_zero (pos n) = n == 0
is_zero (negsuc n) = false

-- Client::Client()
unfoldable pub construct : ℤ → Client
construct token = record {
  socket = socket_invalid;
  timeout = no_timedout;
  errno = 0;
  token = token;
  health = Health.initial;
}

unfoldable pub set_timeout : ℕ → Client → Client
set_timeout timeout c = record c { timeout = timeout }

-- Client::error(): the last errno, which it clears.
unfoldable pub error : Client → ℕ × Client
error c = (c.errno, record c { errno = 0 })

-- Client(Client &&rhs): the new client and `rhs`. The token is not among the members it sets.
unfoldable pub move_construct : ℤ → Client → Client × Client
move_construct token rhs = (record rhs { token = token }, record rhs { socket = socket_invalid })

-- Client::swap: `this` and `that` afterwards.
unfoldable pub swap : Client → Client → Client × Client
swap this that = (
  record {
    socket = that.socket;
    timeout = that.timeout;
    errno = that.errno;
    token = that.token;
    health = that.health;
  },
  record {
    socket = this.socket;
    timeout = this.timeout;
    errno = this.errno;
    token = this.token;
    health = this.health;
  },
)

module _ (k : Kernel) where
  open k use {World}

  -- Client::~Client()
  unfoldable pub destroy : Client → World → World
  unfolding close
  destroy c w = (close k c w).1

  -- operator=(Client that), with `that` moved from `rhs` and destroyed at the end.
  unfoldable pub assign : Client → Client → World → Client × World
  unfolding swap destroy
  assign this that w = let (that', this') = swap that this in (this', destroy that' w)

  unfoldable pub init : Client → World → Client × World
  init c w =
      let (fd, w') = k.socket w in
      if is_negative fd
      then (record c { socket = fd; errno = k.errno w' }, w')
      else (record c { socket = fd }, w')

  unfoldable pub connect : SockAddr → Client → World → Bool × Client × World
  connect endpoint c w =
      let (ret, w') = k.connect c.socket endpoint w in
      if is_zero ret then (true, c, w') else (false, record c { errno = k.errno w' }, w')

  -- Client::make(): `token` and `token'` are those of the local client and of the one moved to.
  unfoldable pub make : (token token' : ℤ) → World → Option Client × World
  unfolding construct init error move_construct destroy
  make token token' w =
      let (c, w') = init (construct token) w in
      let (e, c') = error c in
      if not (e == 0)
      then (none, destroy c' w')
      else let (moved, rest) = move_construct token' c' in (some moved, destroy rest w')

  -- The second half of Client::make(Endpoint).
  unfoldable pub make_connected_from :
      SockAddr → (token : ℤ) → Option Client × World → Option Client × World
  unfolding connect move_construct destroy
  make_connected_from endpoint token (none, w) = (none, w)
  make_connected_from endpoint token (some c, w) =
      let (connected, c', w') = connect endpoint c w in
      if not connected
      then (none, destroy c' w')
      else let (moved, rest) = move_construct token c' in (some moved, destroy rest w')

  unfoldable pub make_connected :
      SockAddr → (token token' token'' : ℤ) → World → Option Client × World
  unfolding make make_connected_from
  make_connected endpoint token token' token'' w =
      if not (k.co_test w)
      then (none, w)
      else make_connected_from endpoint token'' (make token token' w)
