-- ===== src/Json.antt =====
-- The calls that the program makes of the copied JSON library (base/vsjson), as operations on an
-- abstract type, and what the program relies on: an object is a map from names to values, an array
-- a list, and a printed text reads back. Any access of the wrong kind throws a runtime_error.
pub mod Object
use Prim.Native.String.{String}
use text.Mathlib.Text.{◌==◌ as str_eq}
use t_rpc.Base.{
  ℕ, ◌<◌, ◌≡◌, Bool, true, false, List, [], ◌∷◌, ◌++◌, Option, none, some, if◌then◌else◌, length,
}
use t_rpc.Base.Word.{ℤ}
use t_rpc.Outcome.{Outcome, ok, throws, std_exception}

pub record JsonLib : Type 1 where
  pub Json : Type 0
  pub null : Json
  pub from_int : ℤ → Json
  pub from_string : String → Json
  -- Json(initializer list of pairs) and Json::array().
  pub object : List (String × Json) → Json
  pub array : Json
  pub to_int : Json → Outcome ℤ
  pub to_string : Json → Outcome String
  pub contains : Json → String → Outcome Bool
  -- operator[] on an object: the element, and the object, to which a missing name is added.
  pub index : Json → String → Outcome (Json × Json)
  -- `json[name] = value` and `json.as<ObjectImpl>().erase(name)`.
  pub assign : Json → String → Json → Outcome Json
  pub erase : Json → String → Outcome Json
  pub append : Json → Json → Outcome Json
  pub array_size : Json → Outcome ℕ
  -- operator[] on an array.
  pub at : Json → ℕ → Outcome Json
  -- Json::dump, and vsjson::parse on a pointer into memory.
  pub print : Json → List ℕ
  pub parse : List ℕ → Outcome Json

abbrev pub lookup : {A : Type 0} → String → List (String × A) → Option A
lookup k [] = none
lookup k ((j, v) ∷ m) = if str_eq j k then some v else lookup k m

abbrev pub is_some : {A : Type 0} → Option A → Bool
is_some none = false
is_some (some a) = true

abbrev pub nth : {A : Type 0} → List A → ℕ → Option A
nth [] i = none
nth (x ∷ xs) ℕ.zero = some x
nth (x ∷ xs) (ℕ.suc i) = nth xs i

module _ (j : JsonLib) where
  open j use {
    Json, from_int, from_string, object, array, to_int, to_string, contains, index, assign, erase,
    append, array_size, at, print, parse,
  }

  -- The abstract values that the laws speak of.
  pub record View : Type 1 where
    pub IsObject : Json → Type 0
    pub get : Json → String → Option Json
    pub Items : Json → List Json → Type 0
    -- A text that the printer and the parser agree on.
    pub Printable : Json → Type 0

  module _ (v : View) where
    open v use {IsObject, get, Items, Printable}

    -- `o` with `value` under `name`, and all else as in `o`.
    pub record Updates (o : Json) (name : String) (value : Option Json) (o' : Json) : Type 0 where
      pub object : IsObject o'
      pub get_update : (k : String) → get o' k ≡ (if str_eq name k then value else get o k)

    pub record IsLawful : Type 0 where
      pub object-IsObject : (m : List (String × Json)) → IsObject (object m)
      pub get-object : (m : List (String × Json)) (k : String) → get (object m) k ≡ lookup k m
      pub contains-object :
          (o : Json) (k : String) → IsObject o → contains o k ≡ ok (is_some (get o k))
      pub index-some :
          (o : Json) (k : String) (x : Json) → IsObject o → get o k ≡ some x → index o k ≡ ok (x, o)
      pub index-none :
          (o : Json) (k : String)
          → IsObject o
          → get o k ≡ none
          → (o' : Json) × (index o k ≡ ok (object [], o')) × Updates o k (some (object [])) o'
      pub assign-object :
          (o : Json) (k : String) (x : Json)
          → IsObject o
          → (o' : Json) × (assign o k x ≡ ok o') × Updates o k (some x) o'
      pub erase-object :
          (o : Json) (k : String)
          → IsObject o
          → (o' : Json) × (erase o k ≡ ok o') × Updates o k none o'
      pub array-Items : Items array []
      pub append-Items :
          (a x : Json) (xs : List Json)
          → Items a xs
          → (a' : Json) × (append a x ≡ ok a') × Items a' (xs ++ x ∷ [])
      pub array_size-Items :
          (a : Json) (xs : List Json) → Items a xs → array_size a ≡ ok (length xs)
      pub at-Items :
          (a x : Json) (xs : List Json) (i : ℕ) → Items a xs → nth xs i ≡ some x → at a i ≡ ok x
      pub to_int-from_int : (n : ℤ) → to_int (from_int n) ≡ ok n
      pub to_int-object : (m : List (String × Json)) → to_int (object m) ≡ throws std_exception
      pub to_string-from_string : (t : String) → to_string (from_string t) ≡ ok t
      pub to_string-object :
          (m : List (String × Json)) → to_string (object m) ≡ throws std_exception
      pub parse-print : (x : Json) (rest : List ℕ) → Printable x → parse (print x ++ rest) ≡ ok x
