-- ===== src/Tests/Documents.antt =====
-- A small JSON library: objects and arrays as chains of entries, a new entry in front, and a text
-- of numbers with a fixed vocabulary for the names.
use Prim.Native.String.{String}
use text.Mathlib.Text.{◌==◌ as str_eq}
use text.Mathlib.TextEquality.{eq_iff}
use t_rpc.Base.{
  ℕ, zero, suc, ◌≡◌, refl, ap, ◌∙◌, true, false, List, [], ◌∷◌, ◌++◌, length, arith, Option, none,
  some, if◌then◌else◌, ◌==◌,
}
use t_rpc.Base.Word.{ℤ, pos, negsuc}
use t_rpc.Json.{JsonLib, View, IsLawful, lookup, is_some, nth}
use t_rpc.Outcome.{Outcome, ok, throws, undefined, ◌>>=◌, json_exception, std_exception}

pub data Document : Type 0 where
  null_value : Document
  number : ℤ → Document
  label : String → Document
  no_entries : Document
  entry : String → Document → Document → Document
  no_items : Document
  item : Document → Document → Document

abbrev pub entries : List (String × Document) → Document
entries [] = no_entries
entries ((k, x) ∷ m) = entry k x (entries m)

abbrev pub items : List Document → Document
items [] = no_items
items (x ∷ xs) = item x (items xs)

abbrev pub IsEntries : Document → Type 0
IsEntries no_entries = Unit
IsEntries (entry k x o) = IsEntries o
IsEntries null_value = ⊥
IsEntries (number n) = ⊥
IsEntries (label t) = ⊥
IsEntries no_items = ⊥
IsEntries (item x o) = ⊥

abbrev pub find : Document → String → Option Document
find (entry k x o) name = if str_eq k name then some x else find o name
find null_value name = none
find (number n) name = none
find (label t) name = none
find no_entries name = none
find no_items name = none
find (item x o) name = none

abbrev pub without : Document → String → Document
without (entry k x o) name = if str_eq k name then without o name else entry k x (without o name)
without null_value name = null_value
without (number n) name = number n
without (label t) name = label t
without no_entries name = no_entries
without no_items name = no_items
without (item x o) name = item x o

abbrev pub push : Document → Document → Document
push (item y o) x = item y (push o x)
push null_value x = item x no_items
push (number n) x = item x no_items
push (label t) x = item x no_items
push no_entries x = item x no_items
push no_items x = item x no_items
push (entry k y o) x = item x no_items

abbrev pub size : Document → ℕ
size (item y o) = suc (size o)
size null_value = 0
size (number n) = 0
size (label t) = 0
size no_entries = 0
size no_items = 0
size (entry k y o) = 0

abbrev pub pick : Document → ℕ → Outcome Document
pick (item y o) zero = ok y
pick (item y o) (suc i) = pick o i
pick null_value i = throws std_exception
pick (number n) i = throws std_exception
pick (label t) i = throws std_exception
pick no_entries i = throws std_exception
pick no_items i = throws std_exception
pick (entry k y o) i = throws std_exception

abbrev pub number_of : Document → Outcome ℤ
number_of (number n) = ok n
number_of null_value = throws std_exception
number_of (label t) = throws std_exception
number_of no_entries = throws std_exception
number_of no_items = throws std_exception
number_of (entry k y o) = throws std_exception
number_of (item y o) = throws std_exception

abbrev pub text_of : Document → Outcome String
text_of (label t) = ok t
text_of null_value = throws std_exception
text_of (number n) = throws std_exception
text_of no_entries = throws std_exception
text_of no_items = throws std_exception
text_of (entry k y o) = throws std_exception
text_of (item y o) = throws std_exception

abbrev pub index_found : Document → String → Option Document → Outcome (Document × Document)
index_found o name (some x) = ok (x, o)
index_found o name none = ok (no_entries, entry name no_entries o)

-- The vocabulary, and the place of a name in it.
abbrev pub words : List String
words =
    "jsonrpc" ∷ "2.0" ∷ "id" ∷ "method" ∷ "params" ∷ "result" ∷ "error" ∷ "code" ∷ "message" ∷ "add"
    ∷ "Internal error" ∷ []

abbrev pub place_in : List String → String → ℕ
place_in [] t = 0
place_in (u ∷ us) t = if str_eq u t then 0 else suc (place_in us t)

abbrev pub word_at : List String → ℕ → String
word_at [] n = ""
word_at (u ∷ us) zero = u
word_at (u ∷ us) (suc n) = word_at us n

abbrev pub print : Document → List ℕ
print (entry k x o) = 0 ∷ place_in words k ∷ (print x ++ print o)
print (item x o) = 1 ∷ (print x ++ print o)
print null_value = 2 ∷ 0 ∷ []
print no_entries = 3 ∷ 0 ∷ []
print no_items = 4 ∷ 0 ∷ []
print (number (pos n)) = 5 ∷ n ∷ []
print (number (negsuc n)) = 6 ∷ n ∷ []
print (label t) = 7 ∷ place_in words t ∷ []

abbrev pub leaf : ℕ → ℕ → Document
leaf tag n =
    if tag == 0
    then null_value
    else if tag == 1
    then no_entries
    else if tag == 2
    then no_items
    else if tag == 3
    then number (pos n)
    else if tag == 4
    then number (negsuc n)
    else label (word_at words n)

-- Behind the end of the text the parser reads on, as one without a length does.
abbrev pub scan : ℕ → List ℕ → Outcome (Document × List ℕ)
scan zero bs = throws json_exception
scan (suc depth) [] = undefined
scan (suc depth) (zero ∷ []) = undefined
scan (suc depth) (zero ∷ n ∷ bs) = do
  (x, bs') ← scan depth bs
  (o, bs'') ← scan depth bs'
  ok (entry (word_at words n) x o, bs'')
scan (suc depth) (suc zero ∷ bs) = do
  (x, bs') ← scan depth bs
  (o, bs'') ← scan depth bs'
  ok (item x o, bs'')
scan (suc depth) (suc (suc tag) ∷ []) = undefined
scan (suc depth) (suc (suc tag) ∷ n ∷ bs) = ok (leaf tag n, bs)

abbrev pub parse : List ℕ → Outcome Document
parse bs = scan 12 bs >>= λ r. ok r.0

abbrev pub documents : JsonLib
documents = record {
  Json = Document;
  null = null_value;
  from_int = number;
  from_string = label;
  object = entries;
  array = no_items;
  to_int = number_of;
  to_string = text_of;
  contains = λ o name. ok (is_some (find o name));
  index = λ o name. index_found o name (find o name);
  assign = λ o name x. ok (entry name x o);
  erase = λ o name. ok (without o name);
  append = λ a x. ok (push a x);
  array_size = λ a. ok (size a);
  at = pick;
  print = print;
  parse = parse;
}

abbrev pub view : View documents
view = record {
  IsObject = IsEntries;
  get = find;
  Items = λ a xs. a ≡ items xs;
  Printable = λ x. (rest : List ℕ) → parse (print x ++ rest) ≡ ok x;
}

entries-IsEntries : (m : List (String × Document)) → IsEntries (entries m)
entries-IsEntries [] = tt
entries-IsEntries ((k, x) ∷ m) = entries-IsEntries m

find-entries : (m : List (String × Document)) (k : String) → find (entries m) k ≡ lookup k m
find-entries [] k = refl
find-entries ((n, x) ∷ m) k = rw (find-entries m k)

without-IsEntries : (o : Document) (name : String) → IsEntries o → IsEntries (without o name)
without-IsEntries null_value name h = elim h [ ]
without-IsEntries (number _) name h = elim h [ ]
without-IsEntries (label _) name h = elim h [ ]
without-IsEntries no_items name h = elim h [ ]
without-IsEntries (item _ _) name h = elim h [ ]
without-IsEntries no_entries name h = tt
without-IsEntries (entry k x o) name h =
    elim (str_eq k name)
      as (λ b. IsEntries (if b then without o name else entry k x (without o name))) [
        | true ↦ without-IsEntries o name h
        | false ↦ without-IsEntries o name h
      ]

find-without :
    (o : Document) (name k : String)
    → find (without o name) k ≡ (if str_eq name k then none else find o k)
find-without (entry n x o) name k =
    ground (arith, eq_iff n name, eq_iff name k, eq_iff n k, find-without o name k)
find-without null_value name k = ground arith
find-without (number n) name k = ground arith
find-without (label t) name k = ground arith
find-without no_entries name k = ground arith
find-without no_items name k = ground arith
find-without (item x o) name k = ground arith

push-items : (xs : List Document) (x : Document) → push (items xs) x ≡ items (xs ++ x ∷ [])
push-items [] x = refl
push-items (y ∷ xs) x = ap (item y) (push-items xs x)

size-items : (xs : List Document) → size (items xs) ≡ length xs
size-items [] = refl
size-items (y ∷ xs) = ap suc (size-items xs)

pick-items :
    (xs : List Document) (i : ℕ) {x : Document} → nth xs i ≡ some x → pick (items xs) i ≡ ok x
pick-items [] i e = cc
pick-items (y ∷ xs) zero e = cc
pick-items (y ∷ xs) (suc i) e = pick-items xs i e

number_of-entries : (m : List (String × Document)) → number_of (entries m) ≡ throws std_exception
number_of-entries [] = refl
number_of-entries (p ∷ m) = refl

text_of-entries : (m : List (String × Document)) → text_of (entries m) ≡ throws std_exception
text_of-entries [] = refl
text_of-entries (p ∷ m) = refl

pub documents-IsLawful : IsLawful documents view
documents-IsLawful = record {
  object-IsObject = entries-IsEntries;
  get-object = find-entries;
  contains-object = λ o k h. refl;
  index-some = λ o k x h e. ap (index_found o k) e;
  index-none = λ o k h e.
      (entry k no_entries o, ap (index_found o k) e, record { object = h; get_update = λ m. refl });
  assign-object = λ o k x h. (entry k x o, refl, record { object = h; get_update = λ m. refl });
  erase-object = λ o k h. (
    without o k,
    refl,
    record { object = without-IsEntries o k h; get_update = find-without o k },
  );
  array-Items = refl;
  append-Items = λ a x xs h. (push a x, refl, ap (λ b. push b x) h ∙ push-items xs x);
  array_size-Items = λ a xs h. ap (λ b. ok (size b)) h ∙ ap ok (size-items xs);
  at-Items = λ a x xs i h e. ap (λ b. pick b i) h ∙ pick-items xs i e;
  to_int-from_int = λ n. refl;
  to_int-object = number_of-entries;
  to_string-from_string = λ t. refl;
  to_string-object = text_of-entries;
  parse-print = λ x rest p. p rest;
}
