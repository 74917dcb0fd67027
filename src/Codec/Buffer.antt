-- ===== src/Codec/Buffer.antt =====
-- A receiver's buffer (onAccept of trpc/Server.h and call of trpc/Client.h) once the header and the
-- content of a frame have been stored in it, the one behind the other.
use t_rpc.Base.{
  append-nil, [], ◌%◌, ℕ, ◌+◌, ◌^◌, ◌≤◌, ◌<◌, ◌≡◌, ap, sym, ◌∙◌, List, ◌++◌, length, drop,
  take-append, drop-append, length-append, length-drop, some, arith, store_at, store_at-some, true,
}
use t_rpc.Base.Word.{
  load32, swap32, store32, load32-append, load32-store32, swap32-swap32, swap32-lt, length-store32,
}
use t_rpc.Codec.{header_size, verify, content_length, frame}
use t_rpc.Codec.Framing.{content_length-snd, verify_iff}
use native.Mathlib.Nat.{mod-eq_of_lt, mod-lt}

module _ (buf text : List ℕ) (room : header_size + length text ≤ length buf)
    (small : length text < 2 ^ 32) where
  -- The header of the text's frame.
  abbrev pub header : List ℕ
  header = store32 (frame text).2

  pub headed : List ℕ
  headed = header ++ drop header_size buf

  pub filled : List ℕ
  filled = header ++ (text ++ drop (header_size + length text) headed)

  -- What is behind the frame in the buffer.
  pub behind : List ℕ
  behind = drop (header_size + length text) headed

  pub store_header : store_at buf 0 header ≡ some headed
  unfolding headed store32
  store_header = store_at-some buf 0 header (omega (arith, length-store32 (frame text).2, room))

  length-headed : length headed ≡ length buf
  unfolding headed
  length-headed = omega (
    arith,
    length-append header (drop header_size buf),
    length-drop header_size buf,
    length-store32 (frame text).2,
    room,
  )

  pub store_text : store_at headed header_size text ≡ some filled
  unfolding headed filled store32
  store_text =
      store_at-some headed header_size text (omega (arith, length-headed, room))
      ∙ ap (λ b. some (b ++ (text ++ drop (header_size + length text) headed)))
          (take-append header (drop header_size buf))

  pub drop-filled : drop header_size filled ≡ text ++ behind
  unfolding filled behind store32
  drop-filled = drop-append header (text ++ drop (header_size + length text) headed)

  announces : swap32 (load32 header) ≡ length text
  unfolding frame
  announces =
      ap swap32 (ap load32 (sym (append-nil header)) ∙ load32-store32 (swap32 m) [] (swap32-lt m))
      ∙ swap32-swap32 m (mod-lt (length text) (omega arith))
      ∙ mod-eq_of_lt small
    where
      m : ℕ
      m = length text % 2 ^ 32

  pub content_length-headed : content_length headed header_size ≡ (true, length text)
  unfolding headed
  content_length-headed =
      content_length-snd headed header_size (omega arith)
      ∙ ap (λ n. (true, n))
          (ap swap32 (load32-append header (drop header_size buf) (length-store32 (frame text).2))
            ∙ announces)

  pub verify-filled : verify filled (header_size + length text) ≡ true
  unfolding filled
  verify-filled = (verify_iff filled (header_size + length text)).1 (
    omega arith,
    omega (
      arith,
      ap swap32 (
          load32-append header (text ++ drop (header_size + length text) headed)
            (length-store32 (frame text).2)),
      announces,
    ),
  )
