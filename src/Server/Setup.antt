-- ===== src/Server/Setup.antt =====
-- trpc/Server.h: construction, the small members, `init`, `make`, `start` and `close` of the
-- server. Of `start` one pass of the accept loop is a step; the coroutine that it creates is run
-- to its first wait and on by the copied library.
use t_rpc.Base.{ℕ, Bool, true, false, not, [], Option, none, some, ◌==◌, if◌then◌else◌}
use t_rpc.Base.Word.{ℤ}
use t_rpc.Client.{is_invalid, socket_invalid}
use t_rpc.Client.Connection.{no_timedout, is_negative, is_zero}
use t_rpc.Json.{JsonLib}
use t_rpc.Kernel.{Kernel, SockAddr}
use t_rpc.Server.{Server, Callback}

-- An hour, in milliseconds.
abbrev pub min_long_connection_pending : ℕ
min_long_connection_pending = 3_600_000

abbrev pub so_reuseaddr : ℕ
so_reuseaddr = 2

abbrev pub so_reuseport : ℕ
so_reuseport = 15

module _ (k : Kernel) (j : JsonLib) where
  open k use {World}

  -- Server::Server(Endpoint)
  unfoldable pub construct : SockAddr → Server k j
  construct endpoint = record {
    fd = socket_invalid;
    endpoint = endpoint;
    table = [];
    errno = 0;
    timeout = no_timedout;
    pending = min_long_connection_pending;
    request_callback = none;
    response_callback = none;
  }

  unfoldable pub set_timeout : ℕ → Server k j → Server k j
  set_timeout timeout s = record s { timeout = timeout }

  unfoldable pub set_pending : ℕ → Server k j → Server k j
  set_pending pending s = record s { pending = pending }

  unfoldable pub on_request : Callback k j → Server k j → Server k j
  on_request callback s = record s { request_callback = callback }

  unfoldable pub on_response : Callback k j → Server k j → Server k j
  on_response callback s = record s { response_callback = callback }

  -- Server::error(): the last errno, which it clears.
  unfoldable pub error : Server k j → ℕ × Server k j
  error s = (s.errno, record s { errno = 0 })

  unfoldable pub close : Server k j → World → Server k j × World
  close s w = if is_invalid s.fd then (s, w) else (record s { fd = socket_invalid }, k.close s.fd w)

  -- Server::~Server()
  unfoldable pub destroy : Server k j → World → World
  unfolding close
  destroy s w = (close s w).1

  -- Server(Server &&rhs): the new server and `rhs`, whose table and callbacks are moved from.
  unfoldable pub move_construct : Server k j → Server k j × Server k j
  move_construct rhs = (
    rhs,
    record rhs {
      fd = socket_invalid;
      table = [];
      request_callback = none;
      response_callback = none;
    },
  )

  -- Server::swap: `this` and `that` afterwards.
  unfoldable pub swap : Server k j → Server k j → Server k j × Server k j
  swap this that = (
    record {
      fd = that.fd;
      endpoint = that.endpoint;
      table = that.table;
      errno = that.errno;
      timeout = that.timeout;
      pending = that.pending;
      request_callback = that.request_callback;
      response_callback = that.response_callback;
    },
    record {
      fd = this.fd;
      endpoint = this.endpoint;
      table = this.table;
      errno = this.errno;
      timeout = this.timeout;
      pending = this.pending;
      request_callback = this.request_callback;
      response_callback = this.response_callback;
    },
  )

  -- operator=(Server that), with `that` moved from `rhs` and destroyed at the end.
  unfoldable pub assign : Server k j → Server k j → World → Server k j × World
  unfolding swap destroy
  assign this that w = let (that', this') = swap that this in (this', destroy that' w)

  abbrev fails : Server k j → World → Server k j × World
  fails s w = (record s { errno = k.errno w }, w)

  -- `init` from `::bind` on.
  unfoldable pub init_bind : Server k j → World → Server k j × World
  init_bind s w =
      let (ret, w') = k.bind s.fd s.endpoint w in if not (is_zero ret) then fails s w' else (s, w')

  -- `init` from the second option on.
  unfoldable pub init_reuseport : Server k j → World → Server k j × World
  unfolding init_bind
  init_reuseport s w =
      let (ret, w') = k.set_option s.fd so_reuseport w in
      if not (is_zero ret) then fails s w' else init_bind s w'

  -- `init` from the first option on.
  unfoldable pub init_reuseaddr : Server k j → World → Server k j × World
  unfolding init_reuseport
  init_reuseaddr s w =
      let (ret, w') = k.set_option s.fd so_reuseaddr w in
      if not (is_zero ret) then fails s w' else init_reuseport s w'

  unfoldable pub init : Server k j → World → Server k j × World
  unfolding init_reuseaddr
  init s w =
      let (fd, w') = k.socket w in
      let opened = record s { fd = fd } in
      if is_negative fd then fails opened w' else init_reuseaddr opened w'

  -- Server::make(Endpoint): the local server is moved into the result, or destroyed.
  unfoldable pub make : SockAddr → World → Option (Server k j) × World
  unfolding construct init error move_construct destroy
  make endpoint w =
      let (s, w') = init (construct endpoint) w in
      let (e, s') = error s in
      if not (e == 0)
      then (none, destroy s' w')
      else let (moved, rest) = move_construct s' in (some moved, destroy rest w')

  -- `start` up to its loop: whether it is entered.
  unfoldable pub start_listening : Server k j → World → Bool × Server k j × World
  start_listening s w =
      let (ret, w') = k.listen s.fd w in
      if not (is_zero ret) then (false, record s { errno = k.errno w' }, w') else (true, s, w')

  -- A pass of the loop of `start`: the connection that a new coroutine serves, if there is one.
  unfoldable pub accept_step : Server k j → World → Option ℤ × World
  accept_step s w =
      let (peer, w') = k.accept4 s.fd w in if is_negative peer then (none, w') else (some peer, w')
