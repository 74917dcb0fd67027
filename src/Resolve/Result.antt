-- ===== src/Resolve/Result.antt =====
-- makeResult of trpc/detail/resolve.h: what the client makes of a response.
use t_rpc.Base.{◌≡◌, ◌∙◌, refl, none, some, Bool-cases, inl, inr}
use t_rpc.Json.{JsonLib, View, IsLawful, is_some}
use t_rpc.Outcome.{Outcome, ok, ◌>>=◌}
use t_rpc.Protocol.{result_field, error_field, message_field}
use t_rpc.Resolve.{take_result, take_error, make_result}

module _ (j : JsonLib) (v : View j) (lawful : IsLawful j v) {T : Type 0}
    (to : j.Json → Outcome T) where
  pub make_result_converts :
      (response value : j.Json)
      → v.IsObject response
      → v.get response error_field ≡ none
      → v.get response result_field ≡ some value
      → make_result j to response ≡ (to value >>= λ t. ok (some t))
  unfolding make_result take_result
  make_result_converts response value object no_error result = rw (
    lawful.contains-object response error_field object,
    no_error,
    lawful.index-some response result_field value object result,
  )

  -- Without an error the result is converted to the caller's type.
  pub make_result_value :
      (response value : j.Json) {t : T}
      → v.IsObject response
      → v.get response error_field ≡ none
      → v.get response result_field ≡ some value
      → to value ≡ ok t
      → make_result j to response ≡ ok (some t)
  make_result_value response value object no_error result e =
      make_result_converts response value object no_error result ∙ rw e refl

  -- With an error object the caller gets no value, with a message or without.
  pub make_result_error :
      (response error : j.Json)
      → v.IsObject response
      → v.get response error_field ≡ some error
      → v.IsObject error
      → make_result j to response ≡ ok none
  unfolding make_result take_error
  make_result_error response error object has error_object =
      elim (Bool-cases (is_some (v.get error message_field))) [
        | inl text ↦ rw (
          lawful.contains-object response error_field object,
          has,
          lawful.index-some response error_field error object has,
          lawful.contains-object error message_field error_object,
          text,
        )
        | inr plain ↦ rw (
          lawful.contains-object response error_field object,
          has,
          lawful.index-some response error_field error object has,
          lawful.contains-object error message_field error_object,
          plain,
        )
      ]
