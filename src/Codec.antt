-- ===== src/Codec.antt =====
-- trpc/detail/Codec.h: the length-prefixed frames.
pub mod Framing
pub mod Network
pub mod Buffer
pub mod Messages
pub mod Errors
use t_rpc.Base.{ℕ, ◌+◌, ◌%◌, ◌^◌, Bool, true, false, ◌&&◌, List, ltb, leb, if◌then◌else◌, length}
use t_rpc.Base.Word.{load32, swap32}

abbrev pub header_size : ℕ
header_size = 4

-- (Header)-1
abbrev pub invalid_header : ℕ
invalid_header = 0xffff_ffff

unfoldable pub content_length : List ℕ → ℕ → Bool × ℕ
content_length buf n =
    if ltb n header_size then (false, invalid_header) else (true, swap32 (load32 buf))

unfoldable pub verify : List ℕ → ℕ → Bool
unfolding content_length
verify buf n = let (succ, length) = content_length buf n in succ && leb (header_size + length) n

-- Codec::dump, on the text that the JSON library prints: the text, its length as a `Header`, and
-- that in network byte order.
unfoldable pub frame : List ℕ → List ℕ × ℕ × ℕ
frame text = let n = length text % 2 ^ 32 in (text, n, swap32 n)
