-- ===== src/Health.antt =====
-- trpc/detail/Health.h: before a new call the client drains what is left of the previous response.
-- `stack` is the uninitialised content of the local array `buf`; a read of more bytes than it holds
-- is undefined behaviour. The `while` loop recurs on `deathCountdown`.
pub mod Drain
pub mod Owed
pub mod Check
pub mod Safe
pub mod Keeps
use t_rpc.Base.{
  ℕ, zero, suc, ◌+◌, ◌^◌, ◌≡◌, Bool, true, false, List, none, some, ltb, if◌then◌else◌, store_at,
}
use t_rpc.Base.Word.{ℤ, pos, negsuc, sub64}
use t_rpc.Kernel.{Kernel}
use t_rpc.Outcome.{Outcome, ok, undefined, ◌>>=◌}
use t_rpc.Codec.{content_length, header_size}

pub data State : Type 0 where
  undefined_state no_read header_read_some content_read_some : State

-- `_some` and `_content` are ssize_t in the source; every caller passes values from 0 up.
pub record Health : Type 0 where
  pub some_bytes : ℕ
  pub content : ℕ
  pub state : State

abbrev pub buf_size : ℕ
buf_size = 4096

abbrev pub death_countdown : ℕ
death_countdown = 5

abbrev pub initial : Health
initial = record { some_bytes = 0; content = 0; state = no_read }

-- Health::set.
unfoldable pub set : ℕ → State → ℕ → Health
set n state content = record { some_bytes = n; content = content; state = state }

abbrev pub is_content_read_some : State → Bool
is_content_read_some content_read_some = true
is_content_read_some _ = false

-- What stateMachine does with the result of ::read.
unfoldable pub advance : ℤ → ℕ → State → Health → Health
advance (negsuc _) boundary next h = record h { state = undefined_state }
advance (pos zero) boundary next h = record h { state = undefined_state }
advance (pos (suc n)) boundary next h =
    if ltb (suc n) boundary
    then record h { some_bytes = h.some_bytes + suc n }
    else record h { some_bytes = 0; state = next }

-- The test that follows in the header case: a huge frame is given up.
unfoldable pub learn : List ℕ → Health → Health
learn buf h =
    if is_content_read_some h.state
    then (let (_, n) = content_length buf header_size in
        if ltb buf_size n
        then record h { content = n; state = undefined_state }
        else record h { content = n })
    else h

module _ (k : Kernel) (fd : ℤ) where
  open k use {World, read}

  -- One pass through the `switch`: it returns true, or leaves a state for the next pass.
  pub data Pass : Type 0 where
    healthy : Pass
    visited : Health → List ℕ → World → Pass

  unfoldable pub state_machine :
      List ℕ → ℕ → State → Health → World → Outcome (Health × List ℕ × World)
  state_machine buf boundary next h w =
      let r = read fd boundary w in
      elim (store_at buf 0 r.bytes) [
        | none ↦ undefined
        | some buf' ↦ ok (advance r.ret boundary next h, buf', r.world)
      ]

  unfoldable pub pass : State → Health → List ℕ → World → Outcome Pass
  pass undefined_state h buf w = ok (visited h buf w)
  pass no_read h buf w = ok healthy
  pass header_read_some h buf w = do
    (h', buf', w') ← state_machine buf (sub64 header_size h.some_bytes) content_read_some h w
    ok (visited (learn buf' h') buf' w')
  pass content_read_some h buf w = do
    (h', buf', w') ← state_machine buf (sub64 h.content h.some_bytes) no_read h w
    ok (visited h' buf' w')

  unfoldable pub check_loop : ℕ → Health → List ℕ → World → Outcome (Bool × Health × World)
  check_loop zero h buf w = ok (false, h, w)
  check_loop (suc countdown) h buf w = do
    p ← pass h.state h buf w
    elim p [ healthy ↦ ok (true, h, w) | visited h' buf' w' ↦ check_loop countdown h' buf' w' ]

  -- Behind the fast path of `check`.
  unfoldable pub check_state : State → Health → List ℕ → World → Outcome (Bool × Health × World)
  check_state no_read h stack w = ok (true, h, w)
  check_state _ h stack w = check_loop death_countdown h stack w

module _ (k : Kernel) where
  -- Health::check.
  unfoldable pub check : ℤ → Health → List ℕ → k.World → Outcome (Bool × Health × k.World)
  check (negsuc _) h stack w = ok (false, h, w)
  check (pos fd) h stack w = check_state k (pos fd) h.state h stack w
