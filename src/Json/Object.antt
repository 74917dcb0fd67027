-- ===== src/Json/Object.antt =====
-- Objects of the JSON library as maps: two lemmas on updates.
use Prim.Native.String.{String}
use text.Mathlib.Text.{◌==◌ as str_eq}
use text.Mathlib.TextEquality.{eq_iff}
use t_rpc.Base.{◌≡◌, refl, ap, ◌∙◌, Bool-cases, inl, inr, none, Option, sym, true, false}
use t_rpc.Json.{JsonLib, View, Updates}

module _ (j : JsonLib) (v : View j) where
  -- An object without the name is its own update by "no value".
  pub Updates-none :
      (o : j.Json) (name : String) → v.IsObject o → v.get o name ≡ none → Updates j v o name none o
  Updates-none o name object absent = record {
    object = object;
    get_update = λ k. elim (Bool-cases (str_eq name k)) [
      | inl same ↦ rw same (ap (v.get o) (sym ((eq_iff name k).0 same)) ∙ absent)
      | inr other ↦ rw other
    ];
  }

  -- Other names keep their values.
  pub get-other :
      {o o' : j.Json} {name : String} {x : Option j.Json} (k : String)
      → Updates j v o name x o'
      → str_eq name k ≡ false
      → v.get o' k ≡ v.get o k
  get-other k u ne = u.get_update k ∙ rw ne refl

  pub get-same :
      {o o' : j.Json} {name : String} {x : Option j.Json}
      → Updates j v o name x o'
      → str_eq name name ≡ true
      → v.get o' name ≡ x
  get-same {name = name} u e = u.get_update name ∙ rw e refl
