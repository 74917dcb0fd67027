-- ===== src/BestEffort.antt =====
-- trpc/detail/bestEffort.h: the retry loop around a coroutine read or write. `round` is the body of
-- the `while` loop with its early returns, and `loop` recurs on the rounds left (`maxRetries`). The
-- buffer is what the function passed in (`func`) says that it has placed there.
pub mod Loop
pub mod Read
pub mod Write
pub mod Live
pub mod Prompt
pub mod Interval
use t_rpc.Base.{
  ℕ, zero, suc, ◌+◌, ◌-◌, ◌*◌, ◌/◌, List, [], ◌++◌, ltb, ◌==◌, if◌then◌else◌, drop, take,
}
use t_rpc.Base.Word.{ℤ, pos, negsuc, minus_one, to_int32}
use t_rpc.Kernel.{Kernel, Io}

abbrev pub pollin : ℕ
pollin = 1

abbrev pub pollout : ℕ
pollout = 4

abbrev pub eintr : ℕ
eintr = 4

abbrev pub eagain : ℕ
eagain = 11

abbrev pub etimedout : ℕ
etimedout = 110

-- The loop's variables: bytes transferred, what the buffer holds, the world.
pub record Progress (W : Type 0) : Type 0 where
  pub offset : ℕ
  pub bytes : List ℕ
  pub world : W

-- A round returns from the function or goes on.
pub data Turn (W : Type 0) : Type 0 where
  finished : Io W → Turn W
  again : Progress W → Turn W

-- The parameters of bestEffortTemplate besides the function and the buffer; times in milliseconds.
pub record Job : Type 0 where
  pub event : ℕ
  pub fd : ℤ
  pub size : ℕ
  pub timeout : ℕ
  pub max_retries : ℕ

module _ (k : Kernel) (func : ℕ → ℕ → k.World → Io k.World) (j : Job) where
  open k use {World, errno, set_errno, now, poll, usleep}
  open j use {event, fd, size, timeout, max_retries}

  abbrev failed : Progress World → Turn World
  failed p = finished (record { ret = minus_one; bytes = p.bytes; world = p.world })

  -- The branches on the result of `func`; `p` holds the bytes that it placed, and its world.
  unfoldable pub after_io : ℤ → Progress World → Turn World
  after_io (negsuc _) p =
      if errno p.world == eintr
      then again p
      else if errno p.world == eagain
      then again (record p { world = usleep 1 p.world })
      else failed p
  after_io (pos zero) p = finished (record { ret = pos p.offset; bytes = p.bytes; world = p.world })
  after_io (pos (suc n)) p =
      let offset = p.offset + suc n in
      if offset == size
      then finished (record { ret = pos size; bytes = p.bytes; world = p.world })
      else again (record p { offset = offset })

  unfoldable pub transfer : Progress World → Turn World
  unfolding after_io
  transfer p =
      let r = func p.offset (size - p.offset) p.world in
      after_io r.ret (record p { bytes = p.bytes ++ r.bytes; world = r.world })

  -- The branches on the result of co::poll.
  unfoldable pub after_poll : ℤ → Progress World → Turn World
  after_poll (negsuc _) p = failed p
  after_poll (pos zero) p = again p
  after_poll (pos (suc _)) p = transfer p

  -- int interval = timeout.count() / maxRetries
  unfoldable pub interval : ℤ
  interval = to_int32 (timeout / max_retries)

  -- `tick() - start > timeout`, in nanoseconds.
  unfoldable pub round : ℕ → Progress World → Turn World
  round start p =
      let (t, w) = now p.world in
      if ltb (start + timeout * 1_000_000) t
      then failed (record p { world = set_errno etimedout w })
      else let (ready, w') = poll fd event interval w in after_poll ready (record p { world = w' })

  unfoldable pub give_up : Progress World → Io World
  give_up p =
      if p.offset == 0
      then record { ret = minus_one; bytes = p.bytes; world = set_errno etimedout p.world }
      else record { ret = pos p.offset; bytes = p.bytes; world = p.world }

  unfoldable pub loop : ℕ → ℕ → Progress World → Io World
  loop start zero p = give_up p
  loop start (suc left) p = elim (round start p) [ finished r ↦ r | again q ↦ loop start left q ]

  unfoldable pub best_effort_template : World → Io World
  best_effort_template w =
      let (start, w') = now w in
      loop start max_retries (record { offset = 0; bytes = []; world = w' })

module _ (k : Kernel) (fd : ℤ) where
  -- co::read at `buf + offset`.
  abbrev pub read_at : ℕ → ℕ → k.World → Io k.World
  read_at offset size w = k.co_read fd size w

  abbrev pub read_job : (size timeout max_retries : ℕ) → Job
  read_job size timeout max_retries = record {
    event = pollin;
    fd = fd;
    size = size;
    timeout = timeout;
    max_retries = max_retries;
  }

  unfoldable pub best_effort_read : (size timeout max_retries : ℕ) → k.World → Io k.World
  best_effort_read size timeout max_retries =
      best_effort_template k read_at (read_job size timeout max_retries)

  -- co::write of `size` bytes at `buf + offset`.
  abbrev pub write_at : List ℕ → ℕ → ℕ → k.World → Io k.World
  write_at buf offset size w = k.co_write fd (take size (drop offset buf)) w

  abbrev pub write_job : (size timeout max_retries : ℕ) → Job
  write_job size timeout max_retries = record {
    event = pollout;
    fd = fd;
    size = size;
    timeout = timeout;
    max_retries = max_retries;
  }

  unfoldable pub best_effort_write :
      (buf : List ℕ) (size timeout max_retries : ℕ) → k.World → Io k.World
  best_effort_write buf size timeout max_retries =
      best_effort_template k (write_at buf) (write_job size timeout max_retries)
