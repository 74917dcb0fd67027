-- ===== src/Client.antt =====
-- trpc/Client.h: the client's state and `call`, in the order of the source, one function for each
-- stretch up to the next early return. `buf` is the 16 KiB array on the stack, uninitialised;
-- `probe` that of Health::check.
pub mod Connection
pub mod Transfers
pub mod Sends
pub mod Receives
pub mod Answers
pub mod Resync
pub mod Realigns
pub mod Abandons
pub mod Positions
pub mod Ownership
pub mod Defined
pub mod Safe
pub mod Reasons
pub mod Errors
pub mod Prompt
pub mod Live
pub mod Calls
pub mod Queue
pub mod Keeps
pub mod Pool
use Prim.Native.String.{String}
use t_rpc.Base.{
  ℕ, zero, suc, ◌+◌, Bool, true, false, not, List, Option, none, some, ltb, ◌==◌, if◌then◌else◌,
  store_at,
}
use t_rpc.Base.Word.{ℤ, pos, negsuc, minus_one, pos_part, store32}
use t_rpc.BestEffort.{best_effort_read, best_effort_write, etimedout}
use t_rpc.Codec.{header_size, content_length, verify}
use t_rpc.Codec.Messages.{decode, dump}
use t_rpc.Health.{Health, set, check, header_read_some, content_read_some}
use t_rpc.Json.{JsonLib}
use t_rpc.Kernel.{Kernel, Io}
use t_rpc.Outcome.{Outcome, ok, throws, undefined, ◌>>=◌}
use t_rpc.Resolve.{make_request, make_result}
use t_rpc.TokenGenerator.{acquire}

pub record Client : Type 0 where
  pub socket : ℤ
  pub timeout : ℕ
  pub errno : ℕ
  pub token : ℤ
  pub health : Health

abbrev pub socket_invalid : ℤ
socket_invalid = minus_one

-- 1 << 14
abbrev pub buf_size_on_stack : ℕ
buf_size_on_stack = 16384

abbrev pub enomem : ℕ
enomem = 12

abbrev pub einval : ℕ
einval = 22

abbrev pub max_retries : ℕ
max_retries = 10

-- `x == n` on a signed result and a size.
abbrev pub is_size : ℤ → ℕ → Bool
is_size (pos m) n = m == n
is_size (negsuc m) n = false

abbrev pub is_invalid : ℤ → Bool
is_invalid (pos m) = false
is_invalid (negsuc zero) = true
is_invalid (negsuc (suc m)) = false

-- `if(!(_errno = errno)) _errno = ETIMEDOUT;`
abbrev pub errno_or_timeout : ℕ → ℕ
errno_or_timeout e = if e == 0 then etimedout else e

module _ (k : Kernel) where
  open k use {World}

  -- How a member function of the client ends: its result, the client after it, the world.
  pub record Done (T : Type 0) : Type 0 where
    pub result : T
    pub client : Client
    pub world : World

  unfoldable pub close : Client → World → Client × World
  close c w =
      if is_invalid c.socket
      then (c, w)
      else (record c { socket = socket_invalid }, k.close c.socket w)

  -- The tuple of bestEffortRead and bestEffortWrite, with the bytes placed in the buffer.
  pub record Transfer : Type 0 where
    pub success : Bool
    pub ret : ℤ
    pub bytes : List ℕ
    pub client : Client
    pub world : World

  unfoldable pub report : ℕ → Client → Io World → Transfer
  report size c r =
      if is_size r.ret size
      then record { success = true; ret = pos size; bytes = r.bytes; client = c; world = r.world }
      else record {
        success = false;
        ret = r.ret;
        bytes = r.bytes;
        client = record c { errno = errno_or_timeout (k.errno r.world) };
        world = r.world;
      }

  unfoldable pub client_read : ℕ → Client → World → Transfer
  unfolding report
  client_read size c w = report size c (best_effort_read k c.socket size c.timeout max_retries w)

  unfoldable pub client_write : List ℕ → ℕ → Client → World → Transfer
  unfolding report
  client_write buf size c w =
      report size c (best_effort_write k c.socket buf size c.timeout max_retries w)

  module _ (j : JsonLib) {T : Type 0} (to : j.Json → Outcome T) where
    abbrev gives : Outcome (Option T) → Client → World → Done (Outcome (Option T))
    gives r c w = record { result = r; client = c; world = w }

    abbrev closes : Client → World → Done (Outcome (Option T))
    closes c w = let (c', w') = close c w in gives (ok none) c' w'

    -- From the verification of the frame to the end.
    unfoldable pub finish : List ℕ → ℕ → Client → World → Done (Outcome (Option T))
    finish buf n c w =
        if not (verify buf (header_size + n))
        then gives (ok none) (record c { errno = einval }) w
        else gives (decode j buf (header_size + n) >>= make_result j to) c w

    -- The rest of `call` once the content has been read, if it has.
    unfoldable pub after_content : List ℕ → ℕ → Transfer → Done (Outcome (Option T))
    after_content buf n t = elim (store_at buf header_size t.bytes) [
      | none ↦ gives undefined t.client t.world
      | some buf' ↦
          if not t.success
          then gives (ok none)
              (record (t.client) { health = set (pos_part t.ret) content_read_some n }) t.world
          else finish buf' n t.client t.world
    ]

    -- From the length in the header to the end.
    unfoldable pub read_content : List ℕ → Client → World → Done (Outcome (Option T))
    read_content buf c w =
        let (_, n) = content_length buf header_size in
        if ltb buf_size_on_stack (header_size + n)
        then closes (record c { errno = enomem }) w
        else after_content buf n (client_read n c w)

    unfoldable pub after_header : List ℕ → Transfer → Done (Outcome (Option T))
    after_header buf t = elim (store_at buf 0 t.bytes) [
      | none ↦ gives undefined t.client t.world
      | some buf' ↦
          if not t.success
          then gives (ok none)
              (record (t.client) { health = set (pos_part t.ret) header_read_some 0 }) t.world
          else read_content buf' t.client t.world
    ]

    -- Once the request's content has been written, if it has.
    unfoldable pub after_write : List ℕ → Transfer → Done (Outcome (Option T))
    after_write buf t =
        if not t.success
        then closes t.client t.world
        else after_header buf (client_read header_size t.client t.world)

    -- Once the request's header has been written, if it has. `written > 0` closes.
    unfoldable pub after_write_header : List ℕ → List ℕ → ℕ → Transfer → Done (Outcome (Option T))
    after_write_header buf text n t =
        if not t.success
        then (if ltb 0 (pos_part t.ret)
            then closes t.client t.world
            else gives (ok none) t.client t.world)
        else after_write buf (client_write text n t.client t.world)

    -- From the printed request on.
    unfoldable pub exchange : List ℕ → j.Json → Client → World → Done (Outcome (Option T))
    exchange buf request c w =
        let (text, n, be) = dump j request in
        after_write_header buf text n (client_write (store32 be) header_size c w)

    -- With the new token, which the client keeps; an exception leaves `call`.
    unfoldable pub send :
        String → List j.Json → List ℕ → Outcome ℤ → Client → World → Done (Outcome (Option T))
    send function args buf (ok token) c w =
        let c' = record c { token = token } in
        elim (make_request j token function args) [
          | ok request ↦ exchange buf request c' w
          | throws e ↦ gives (throws e) c' w
          | undefined ↦ gives undefined c' w
        ]
    send function args buf (throws e) c w = gives (throws e) c w
    send function args buf undefined c w = gives undefined c w

    unfoldable pub call :
        String → List j.Json → (probe buf : List ℕ) → Client → World → Done (Outcome (Option T))
    call function args probe buf c w = elim (check k c.socket c.health probe w) [
      | ok (healthy, h, w') ↦
          if not healthy
          then gives (ok none) (record c { health = h }) w'
          else send function args buf (acquire c.token) (record c { health = h }) w'
      | throws e ↦ gives (throws e) c w
      | undefined ↦ gives undefined c w
    ]
