-- ===== src/Codec/Errors.antt =====
-- reportError of trpc/detail/Codec.h: the error object that a response gets.
use Prim.Native.String.{String}
use text.Mathlib.Text.{◌==◌ as str_eq}
use t_rpc.Base.{
  ◌≡◌, refl, ◌∙◌, Bool-cases, Option-cases, inl, inr, none, some, [], ◌∷◌, false, if◌then◌else◌,
}
use t_rpc.Codec.Messages.{drop_result, add_message, report_error}
use t_rpc.Json.{JsonLib, View, IsLawful, Updates}
use t_rpc.Json.Object.{Updates-none, get-other, get-same}
use t_rpc.Outcome.{ok, ProtocolException}
use t_rpc.Protocol.{result_field, error_field, code_field, message_field}

module _ (j : JsonLib) (v : View j) where
  -- `reply` is `response` with the error in place of any result, and all else as it was.
  pub record Reports (response : j.Json) (e : ProtocolException) (reply : j.Json) : Type 0 where
    pub object : v.IsObject reply
    pub no_result : v.get reply result_field ≡ none
    pub error : j.Json
    pub has_error : v.get reply error_field ≡ some error
    pub error_object : v.IsObject error
    pub code : v.get error code_field ≡ some (j.from_int e.code)
    pub message :
        v.get error message_field
        ≡ (if str_eq e.message "" then none else some (j.from_string e.message))
    pub others :
        (k : String)
        → str_eq result_field k ≡ false
        → str_eq error_field k ≡ false
        → v.get reply k ≡ v.get response k

  module _ (lawful : IsLawful j v) where
    drop_result_lem :
        (o : j.Json)
        → v.IsObject o
        → (o' : j.Json) × (drop_result j o ≡ ok o') × Updates j v o result_field none o'
    unfolding drop_result
    drop_result_lem o object = elim (Option-cases (v.get o result_field)) [
      | inl absent ↦ (
        o,
        rw (lawful.contains-object o result_field object, absent),
        Updates-none j v o result_field object absent,
      )
      | inr (x, present) ↦
          let (o', e, u) = lawful.erase-object o result_field object in
          (o', rw (lawful.contains-object o result_field object, present) e, u)
    ]

    module _ (response : j.Json) (object : v.IsObject response) (e : ProtocolException) where
      -- reportError never fails on an object, and puts the code, and the message unless it is
      -- empty, in an error object that replaces any result.
      pub report_error-Reports :
          (reply : j.Json) × (report_error j response e ≡ ok reply) × Reports response e reply
      unfolding report_error
      report_error-Reports =
          let (o₁, e₁, u₁) = drop_result_lem response object in
          let (o₂, e₂, u₂) = lawful.assign-object o₁ error_field err u₁.object in
          elim (Bool-cases (str_eq e.message "")) [
            | inl empty ↦ (
              o₂,
              rw (e₁, e₂, empty),
              record {
                object = u₂.object;
                no_result = get-other j v result_field u₂ refl ∙ get-same j v u₁ refl;
                error = err;
                has_error = get-same j v u₂ refl;
                error_object = lawful.object-IsObject _;
                code = lawful.get-object _ code_field;
                message = lawful.get-object _ message_field ∙ rw empty refl;
                others = λ k r f. get-other j v k u₂ f ∙ get-other j v k u₁ r;
              },
            )
            | inr text ↦
                let (err', e₃, u₃) =
                  lawful.assign-object err message_field (j.from_string e.message)
                    (lawful.object-IsObject _) in
                let (o₃, e₄, u₄) = lawful.assign-object o₂ error_field err' u₂.object in
                (
                  o₃,
                  rw
                      (
                        e₁,
                        e₂,
                        text,
                        add_message,
                        lawful.index-some o₂ error_field err u₂.object (get-same j v u₂ refl),
                        e₃,
                      )
                      e₄,
                  record {
                    object = u₄.object;
                    no_result =
                        get-other j v result_field u₄ refl
                        ∙ get-other j v result_field u₂ refl
                        ∙ get-same j v u₁ refl;
                    error = err';
                    has_error = get-same j v u₄ refl;
                    error_object = u₃.object;
                    code = get-other j v code_field u₃ refl ∙ lawful.get-object _ code_field;
                    message = get-same j v u₃ refl ∙ rw text refl;
                    others =
                        λ k r f. get-other j v k u₄ f ∙ get-other j v k u₂ f ∙ get-other j v k u₁ r;
                  },
                )
          ]
        where
          err : j.Json
          err = j.object ((code_field, j.from_int e.code) ∷ [])
