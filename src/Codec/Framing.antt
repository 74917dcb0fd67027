-- ===== src/Codec/Framing.antt =====
-- contentLength and verify of trpc/detail/Codec.h against the layout of a frame.
use t_rpc.Base.{
  [], ◌∷◌, take, take-length, ℕ, ◌+◌, ◌^◌, ◌%◌, ◌↔◌, append_assoc, ◌≤◌, ◌<◌, ◌≡◌, ap, ◌∙◌, true,
  List, ◌++◌, arith, length,
}
use native.Mathlib.Nat.{mod-lt, mod-eq_of_lt}
use t_rpc.Base.Word.{load32, store32, swap32, swap32-swap32, swap32-lt, load32-store32}
use t_rpc.Codec.{header_size, content_length, verify, frame}

-- A frame on the wire: the header's four bytes in network order, then the text.
abbrev pub wire : List ℕ → List ℕ
wire text = store32 (frame text).2 ++ text

-- The frames of the texts of several values, one behind the other.
unfoldable pub wires : {A : Type 0} → (A → List ℕ) → List A → List ℕ
wires print [] = []
wires print (x ∷ xs) = wire (print x) ++ wires print xs

-- What goes out when both transfers of a dumped text succeed: as many bytes as its header
-- announces.
abbrev pub sent_frame : List ℕ → List ℕ
sent_frame text = store32 (frame text).2 ++ take (frame text).1 text

-- Below 4 GiB the header announces the whole text.
pub sent_frame-wire : (text : List ℕ) → length text < 2 ^ 32 → sent_frame text ≡ wire text
unfolding frame
sent_frame-wire text small = rw (mod-eq_of_lt small, take-length text)

pub content_length-snd :
    (buf : List ℕ) (n : ℕ) → header_size ≤ n → content_length buf n ≡ (true, swap32 (load32 buf))
unfolding content_length
content_length-snd buf n h = ground arith

-- The receiver's contentLength reads from a frame, whatever follows it in memory, the length of
-- the text that the sender's dump put there, for texts below 4 GiB.
pub content_length-wire :
    (text rest : List ℕ) (n : ℕ)
    → length text < 2 ^ 32
    → header_size ≤ n
    → content_length (wire text ++ rest) n ≡ (true, length text)
unfolding content_length frame
content_length-wire text rest n small h =
    content_length-snd (wire text ++ rest) n h
    ∙ ap (λ t. (true, t))
        (ap swap32 (
            ap load32 (append_assoc (store32 (swap32 m)) text rest)
            ∙ load32-store32 (swap32 m) (text ++ rest) (swap32-lt m))
          ∙ swap32-swap32 m (mod-lt (length text) (omega arith))
          ∙ mod-eq_of_lt small)
  where
    m : ℕ
    m = length text % 2 ^ 32

-- verify accepts exactly the sizes that hold the header and the whole content it announces.
pub verify_iff :
    (buf : List ℕ) (n : ℕ)
    → (verify buf n ≡ true) ↔ ((header_size ≤ n) × (header_size + swap32 (load32 buf) ≤ n))
unfolding verify
verify_iff buf n = ground arith
