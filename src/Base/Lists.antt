-- ===== src/Base/Lists.antt =====
-- Lists measured by native numbers, under the library's names.
use Prim.Native.Nat.{ℕ, zero, suc, ◌+◌, ◌-◌, ◌≤◌, ◌<◌, min}
use Prim.Native.Nat.add
use mathlib.Core.Path.{◌≡◌, refl, sym, ap, ◌∙◌}
use mathlib.Core.Logic.{inl, inr}
use mathlib.Core.List.{List, [], ◌∷◌, ◌++◌}
use mathlib.Core.Option.{Option, none, some, some-injective}
use native.Mathlib.Omega.{arith}
use t_rpc.Base.Tests.{leb, if◌then◌else◌, Bool-cases, leb→le}

module _ {ℓ} {A : Type ℓ} where
  abbrev pub length : List A → ℕ
  length [] = 0
  length (x ∷ xs) = suc (length xs)

  abbrev pub take : ℕ → List A → List A
  take zero xs = []
  take (suc n) [] = []
  take (suc n) (x ∷ xs) = x ∷ take n xs

  abbrev pub drop : ℕ → List A → List A
  drop zero xs = xs
  drop (suc n) [] = []
  drop (suc n) (x ∷ xs) = drop n xs

  abbrev pub replicate : ℕ → A → List A
  replicate zero a = []
  replicate (suc n) a = a ∷ replicate n a

  pub length-append : (xs ys : List A) → length (xs ++ ys) ≡ length xs + length ys
  length-append [] ys = omega arith
  length-append (x ∷ xs) ys = omega (arith, length-append xs ys)

  pub length-take : (n : ℕ) (xs : List A) → length (take n xs) ≡ min n (length xs)
  length-take zero xs = omega arith
  length-take (suc n) [] = omega arith
  length-take (suc n) (x ∷ xs) = omega (arith, length-take n xs)

  pub length-drop : (n : ℕ) (xs : List A) → length (drop n xs) ≡ length xs - n
  length-drop zero xs = omega arith
  length-drop (suc n) [] = omega arith
  length-drop (suc n) (x ∷ xs) = omega (arith, length-drop n xs)

  pub take-append-drop : (n : ℕ) (xs : List A) → take n xs ++ drop n xs ≡ xs
  take-append-drop zero xs = refl
  take-append-drop (suc n) [] = refl
  take-append-drop (suc n) (x ∷ xs) = ap (◌∷◌ x) (take-append-drop n xs)

  pub take-length : (xs : List A) → take (length xs) xs ≡ xs
  take-length [] = refl
  take-length (x ∷ xs) = ap (◌∷◌ x) (take-length xs)

  pub take-append : (xs ys : List A) → take (length xs) (xs ++ ys) ≡ xs
  take-append [] ys = refl
  take-append (x ∷ xs) ys = ap (◌∷◌ x) (take-append xs ys)

  pub drop-append : (xs ys : List A) → drop (length xs) (xs ++ ys) ≡ ys
  drop-append [] ys = refl
  drop-append (x ∷ xs) ys = drop-append xs ys

  pub take-nil : (n : ℕ) → take n [] ≡ []
  take-nil zero = refl
  take-nil (suc n) = refl

  -- A prefix taken in two pieces.
  pub take-add : (m n : ℕ) (xs : List A) → take m xs ++ take n (drop m xs) ≡ take (m + n) xs
  take-add zero n xs = rw (add.zero n)
  take-add (suc m) n [] = rw (add.suc m n) (take-nil n)
  take-add (suc m) n (x ∷ xs) = rw (add.suc m n) (ap (◌∷◌ x) (take-add m n xs))

  pub take-take : (m n : ℕ) (xs : List A) → m ≤ n → take m (take n xs) ≡ take m xs
  take-take zero n xs h = refl
  take-take (suc m) zero xs h = absurd (omega arith)
  take-take (suc m) (suc n) [] h = refl
  take-take (suc m) (suc n) (x ∷ xs) h = ap (◌∷◌ x) (take-take m n xs (omega arith))

  -- Two prefixes of one list, of one length, are the same list.
  pub append_cancel :
      (xs ys : List A) {us vs : List A}
      → length xs ≡ length ys
      → xs ++ us ≡ ys ++ vs
      → (xs ≡ ys) × (us ≡ vs)
  append_cancel [] [] h e = (refl, e)
  append_cancel [] (y ∷ ys) h e = absurd (omega arith)
  append_cancel (x ∷ xs) [] h e = absurd (omega arith)
  append_cancel (x ∷ xs) (y ∷ ys) {us} {vs} h e =
      ground (arith, append_cancel xs ys {us = us} {vs = vs})

  -- A write of `bytes` into a memory area at `offset`; past its end the behaviour is undefined.
  unfoldable pub store_at : List A → ℕ → List A → Option (List A)
  store_at buf offset bytes =
      if leb (offset + length bytes) (length buf)
      then some (take offset buf ++ (bytes ++ drop (offset + length bytes) buf))
      else none

  pub store_at-some :
      (buf : List A) (offset : ℕ) (bytes : List A)
      → offset + length bytes ≤ length buf
      → store_at buf offset bytes
        ≡ some (take offset buf ++ (bytes ++ drop (offset + length bytes) buf))
  unfolding store_at
  store_at-some buf offset bytes h = ground arith

  pub store_at-none :
      (buf : List A) (offset : ℕ) (bytes : List A)
      → length buf < offset + length bytes
      → store_at buf offset bytes ≡ none
  unfolding store_at
  store_at-none buf offset bytes h = ground arith

  pub length-store_at :
      (buf : List A) (offset : ℕ) (bytes : List A) {buf' : List A}
      → store_at buf offset bytes ≡ some buf'
      → length buf' ≡ length buf
  unfolding store_at
  length-store_at buf offset bytes {buf'} e =
      elim (Bool-cases (leb (offset + length bytes) (length buf))) [
        | inl fits ↦
            sym (ap length (some-injective _ _ (rw fits at e)))
            ∙ omega (
              arith,
              leb→le _ _ fits,
              length-append (take offset buf) (bytes ++ drop (offset + length bytes) buf),
              length-append bytes (drop (offset + length bytes) buf),
              length-take offset buf,
              length-drop (offset + length bytes) buf,
            )
        | inr out ↦ cc (rw out at e)
      ]
