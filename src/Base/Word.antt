-- ===== src/Base/Word.antt =====
-- Machine integers: `ssize_t` and `int` values as signed integers, `size_t` subtraction modulo
-- 2 ^ 64, and the four bytes of a 32-bit word on a little-endian machine.
use Prim.Native.Nat.{ℕ, zero, suc, ◌+◌, ◌-◌, ◌*◌, ◌/◌, ◌%◌, ◌^◌, ◌≤◌, ◌<◌}
use mathlib.Core.Path.{◌≡◌, refl}
use mathlib.Core.List.{List, [], ◌∷◌, ◌++◌}
use native.Mathlib.Omega.{arith}
use t_rpc.Base.Lists.{length}
use t_rpc.Base.Tests.{ltb, if◌then◌else◌}

-- `negsuc n` is -(n + 1).
pub data ℤ : Type 0 where
  pos : ℕ → ℤ
  negsuc : ℕ → ℤ

abbrev pub pos_part : ℤ → ℕ
pos_part (pos n) = n
pos_part (negsuc n) = 0

-- The value -1 of a failed call.
abbrev pub minus_one : ℤ
minus_one = negsuc 0

-- `a - b` on `size_t`.
abbrev pub sub64 : ℕ → ℕ → ℕ
sub64 a b = (a + 2 ^ 64 - b) % 2 ^ 64

-- The `int` that a 64-bit value is converted to.
abbrev pub to_int32 : ℕ → ℤ
to_int32 n = let r = n % 2 ^ 32 in if ltb r (2 ^ 31) then pos r else negsuc (2 ^ 32 - 1 - r)

-- A byte of a memory area; past its end there is none, and the callers stay inside.
abbrev pub byte : List ℕ → ℕ → ℕ
byte [] i = 0
byte (b ∷ bs) zero = b
byte (b ∷ bs) (suc i) = byte bs i

-- `*(uint32_t *)p`.
unfoldable pub load32 : List ℕ → ℕ
load32 bs = byte bs 0 + 256 * byte bs 1 + 65536 * byte bs 2 + 16777216 * byte bs 3

-- The bytes of a `uint32_t` in memory.
unfoldable pub store32 : ℕ → List ℕ
store32 x = x % 256 ∷ x / 256 % 256 ∷ x / 65536 % 256 ∷ x / 16777216 % 256 ∷ []

-- `htonl` and `ntohl`, which reverse the bytes on a little-endian machine; for `uint16_t` likewise.
unfoldable pub swap32 : ℕ → ℕ
swap32 x =
    16777216 * (x % 256) + 65536 * (x / 256 % 256) + 256 * (x / 65536 % 256) + x / 16777216 % 256

unfoldable pub swap16 : ℕ → ℕ
swap16 x = 256 * (x % 256) + x / 256 % 256

pub swap32-swap32 : (x : ℕ) → x < 2 ^ 32 → swap32 (swap32 x) ≡ x
unfolding swap32
swap32-swap32 x h = omega arith

pub load32-store32 : (x : ℕ) (rest : List ℕ) → x < 2 ^ 32 → load32 (store32 x ++ rest) ≡ x
unfolding load32 store32
load32-store32 x rest h = omega arith

pub swap32-lt : (x : ℕ) → swap32 x < 2 ^ 32
unfolding swap32
swap32-lt x = omega arith

-- A difference that does not wrap.
pub sub64-eq-sub : (a b : ℕ) → b ≤ a → a < 2 ^ 64 → sub64 a b ≡ a - b
sub64-eq-sub a b h small = omega arith

-- Only the first four bytes of a memory area count.
pub load32-append : (bs rest : List ℕ) → length bs ≡ 4 → load32 (bs ++ rest) ≡ load32 bs
unfolding load32
load32-append (a ∷ b ∷ c ∷ d ∷ []) rest h = refl
load32-append [] rest h = absurd (omega arith)
load32-append (a ∷ []) rest h = absurd (omega arith)
load32-append (a ∷ b ∷ []) rest h = absurd (omega arith)
load32-append (a ∷ b ∷ c ∷ []) rest h = absurd (omega arith)
load32-append (a ∷ b ∷ c ∷ d ∷ e ∷ bs) rest h = absurd (omega arith)

pub length-store32 : (x : ℕ) → length (store32 x) ≡ 4
unfolding store32
length-store32 x = refl
