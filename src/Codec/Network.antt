-- ===== src/Codec/Network.antt =====
-- The header of a frame (contentLength and dump of trpc/detail/Codec.h) against network byte order.
use t_rpc.Base.{ℕ, ◌+◌, ◌*◌, ◌^◌, ◌≤◌, ◌<◌, ◌≡◌, ◌∙◌, ap, true, List, [], ◌∷◌, ◌++◌, length, arith}
use native.Mathlib.Nat.{mod-eq_of_lt}
use t_rpc.Base.Word.{load32, store32, swap32}
use t_rpc.Codec.{header_size, content_length, frame}
use t_rpc.Codec.Framing.{content_length-snd}

-- The number whose digits, the highest first, are the bytes behind those that `high` stands for.
pub big_endian : ℕ → List ℕ → ℕ
big_endian high [] = high
big_endian high (b ∷ bs) = big_endian (high * 256 + b) bs

abbrev pub AreBytes : List ℕ → Type 0
AreBytes [] = Unit
AreBytes (b ∷ bs) = (b < 256) × AreBytes bs

swapped :
    (a b c d : ℕ) (rest : List ℕ)
    → a < 256
    → b < 256
    → c < 256
    → d < 256
    → swap32 (load32 (a ∷ b ∷ c ∷ d ∷ rest)) ≡ big_endian 0 (a ∷ b ∷ c ∷ d ∷ [])
unfolding swap32 load32 big_endian
swapped a b c d rest ha hb hc hd = omega (arith, ha, hb, hc, hd)

stored : (x : ℕ) → x < 2 ^ 32 → big_endian 0 (store32 (swap32 x)) ≡ x
unfolding store32 swap32 big_endian
stored x small = omega (arith, small)

-- contentLength reads the first four bytes of its buffer as a number in network byte order,
-- whatever follows them, and dump announces the length of a text below 4 GiB by the bytes that
-- are read so.
pub content_length-big_endian :
    (bytes rest text : List ℕ) (n : ℕ)
    → length bytes ≡ header_size
    → AreBytes bytes
    → header_size ≤ n
    → length text < 2 ^ 32
    → (content_length (bytes ++ rest) n ≡ (true, big_endian 0 bytes))
      × (big_endian 0 (store32 (frame text).2) ≡ length text)
unfolding frame
content_length-big_endian (a ∷ b ∷ c ∷ d ∷ []) rest text n four (ha, (hb, (hc, (hd, _)))) h small =
    (
      content_length-snd (a ∷ b ∷ c ∷ d ∷ rest) n h
          ∙ ap (λ m. (true, m)) (swapped a b c d rest ha hb hc hd),
      rw (mod-eq_of_lt small) (stored (length text) small),
    )
content_length-big_endian [] rest text n four bytes h small = absurd (omega arith)
content_length-big_endian (a ∷ []) rest text n four bytes h small = absurd (omega arith)
content_length-big_endian (a ∷ b ∷ []) rest text n four bytes h small = absurd (omega arith)
content_length-big_endian (a ∷ b ∷ c ∷ []) rest text n four bytes h small = absurd (omega arith)
content_length-big_endian (a ∷ b ∷ c ∷ d ∷ e ∷ bs) rest text n four bytes h small =
    absurd (omega arith)
