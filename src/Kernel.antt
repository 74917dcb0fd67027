-- ===== src/Kernel.antt =====
-- What the program calls of the operating system and of the copied coroutine library (base/co): an
-- abstract world with the calls as operations. The laws are the documented behaviour of POSIX
-- streams; `incoming` is all that the peer of a connection still delivers, `sent` what went out.
use t_rpc.Base.{ℕ, ◌≤◌, ◌≡◌, List, ◌++◌, Bool, length, take}
use t_rpc.Base.Word.{ℤ, pos_part}

-- What a transfer returns: its `ssize_t`, the bytes placed in the caller's buffer, and the world.
pub record Io (W : Type 0) : Type 0 where
  pub ret : ℤ
  pub bytes : List ℕ
  pub world : W

-- The members of sockaddr_in that the program sets.
pub record SockAddr : Type 0 where
  pub sin_family : ℕ
  pub sin_addr : ℕ
  pub sin_port : ℕ

pub record Kernel : Type 1 where
  pub World : Type 0
  pub errno : World → ℕ
  pub set_errno : ℕ → World → World
  -- steady_clock::now(), in nanoseconds.
  pub now : World → ℕ × World
  -- co::poll on one descriptor: fd, events, timeout in milliseconds.
  pub poll : ℤ → ℕ → ℤ → World → ℤ × World
  -- co::usleep.
  pub usleep : ℕ → World → World
  -- co::read and ::read, of at most `size` bytes; co::write.
  pub co_read : ℤ → ℕ → World → Io World
  pub read : ℤ → ℕ → World → Io World
  pub co_write : ℤ → List ℕ → World → Io World
  pub close : ℤ → World → World
  pub socket : World → ℤ × World
  pub set_option : ℤ → ℕ → World → ℤ × World
  pub bind : ℤ → SockAddr → World → ℤ × World
  pub listen : ℤ → World → ℤ × World
  pub accept4 : ℤ → World → ℤ × World
  -- co::connect and co::test.
  pub connect : ℤ → SockAddr → World → ℤ × World
  pub co_test : World → Bool

module _ (k : Kernel) where
  open k use {World, set_errno, errno, now, poll, usleep, co_read, read, co_write}

  -- The streams of the connections, before and after.
  pub record Streams : Type 0 where
    pub incoming : World → ℤ → List ℕ
    pub sent : World → ℤ → List ℕ

  module _ (s : Streams) (fd : ℤ) where
    open s use {incoming, sent}

    -- The call moved no byte of the connection.
    pub record Quiet (w w' : World) : Type 0 where
      pub same_incoming : incoming w' fd ≡ incoming w fd
      pub same_sent : sent w' fd ≡ sent w fd

    -- A read hands out a prefix of the stream, as long as it says and no longer than asked.
    pub record Reads (size : ℕ) (w : World) (r : Io World) : Type 0 where
      pub counted : length r.bytes ≡ pos_part r.ret
      pub bounded : pos_part r.ret ≤ size
      pub prefix : incoming w fd ≡ r.bytes ++ incoming r.world fd
      pub same_sent : sent r.world fd ≡ sent w fd

    -- A write takes a prefix of the bytes, as long as it says, and fills no buffer.
    pub record Writes (bytes : List ℕ) (w : World) (r : Io World) : Type 0 where
      pub bounded : pos_part r.ret ≤ length bytes
      pub appended : sent r.world fd ≡ sent w fd ++ take (pos_part r.ret) bytes
      pub same_incoming : incoming r.world fd ≡ incoming w fd

  -- The calls that a connection's own coroutine makes, on its descriptor.
  pub record IsLawfulAt (s : Streams) (fd : ℤ) : Type 0 where
    pub set_errno-Quiet : (e : ℕ) (w : World) → Quiet s fd w (set_errno e w)
    pub errno-set_errno : (e : ℕ) (w : World) → errno (set_errno e w) ≡ e
    pub now-Quiet : (w : World) → Quiet s fd w (now w).1
    pub poll-Quiet : (e : ℕ) (t : ℤ) (w : World) → Quiet s fd w (poll fd e t w).1
    pub usleep-Quiet : (n : ℕ) (w : World) → Quiet s fd w (usleep n w)
    pub co_read-Reads : (n : ℕ) (w : World) → Reads s fd n w (co_read fd n w)
    pub read-Reads : (n : ℕ) (w : World) → Reads s fd n w (read fd n w)
    pub co_write-Writes : (bs : List ℕ) (w : World) → Writes s fd bs w (co_write fd bs w)

  abbrev pub IsLawful : Streams → Type 0
  IsLawful s = (fd : ℤ) → IsLawfulAt s fd
