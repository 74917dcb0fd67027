-- ===== src/Tests/Replies.antt =====
-- Runs of the dispatch, of the replies and of whole calls with the small JSON library: a server
-- that adds two numbers.
use t_rpc.Base.{
  arith, ◌≤◌, ◌*◌, subst, sym, ◌∙◌, ap, ◌+◌, ◌≡◌, ◌≢◌, refl, List, [], ◌∷◌, some, none, ◌⊎◌,
}
use t_rpc.Base.Word.{ℤ, pos, pos_part}
use t_rpc.CallProxy.{make, Arg, Callable, dispatch}
use t_rpc.CallProxy.Dispatch.{dispatch-Encodes}
use t_rpc.Codec.Errors.{Reports, report_error-Reports}
use t_rpc.Codec.Messages.{
  prepare_net_call, drop_result, add_message, fill_result_to_response, report_error,
}
use t_rpc.Outcome.{foreign_exception, ok, throws, undefined, std_exception}
use t_rpc.Protocol.{
  make_invalid_params_exception, make_internal_error_exception, jsonrpc_field, internal_error_code,
  code_field, message_field, id_field, method_field, params_field, result_field, error_field,
  version,
}
use t_rpc.Resolve.{make_request_impl, make_empty_response, make_request}
use t_rpc.Resolve.Request.{IsRequest}
use t_rpc.RoundTrip.{remote, IsReadable, remote_value, remote_error}
use t_rpc.Server.{answer, catch_errors, Server, bind, net_call, respond}
use t_rpc.Server.Respond.{
  empty_response, Replies, IsPresent, respond_value, respond_error, respond_total,
}
use t_rpc.Tests.Documents.{
  Document, documents, view, documents-IsLawful, number, label, entries, items, number_of, no_items,
}
use t_rpc.Tests.Machine.{machine}

abbrev int_arg : Arg documents
int_arg = record { Carrier = ℤ; to = number_of }

-- int add(int, int)
abbrev pub add : Callable documents
add = record {
  args = int_arg ∷ int_arg ∷ [];
  run = λ t. ok (number (pos (pos_part t.0 + pos_part t.1.0)));
}

-- The same with a body that throws.
abbrev broken_add : Callable documents
broken_add = record { args = int_arg ∷ int_arg ∷ []; run = λ t. throws std_exception }

abbrev pub empty_server : Server machine documents
empty_server = record {
  fd = pos 3;
  endpoint = record { sin_family = 2; sin_addr = 0; sin_port = 0 };
  table = [];
  errno = 0;
  timeout = 1000;
  pending = 1000;
  request_callback = none;
  response_callback = none;
}

abbrev pub adding : Server machine documents
adding = bind machine documents "add" add empty_server

abbrev pub two_three : List Document
two_three = number (pos 2) ∷ number (pos 3) ∷ []

abbrev pub request : Document
request = entries (
    (params_field, items two_three)
    ∷ (jsonrpc_field, label version)
    ∷ (id_field, number (pos 9))
    ∷ (method_field, label "add")
    ∷ (params_field, no_items)
    ∷ [])

dispatch-Encodes_example : dispatch documents add (items two_three) ≡ ok (number (pos 5))
dispatch-Encodes_example =
    dispatch-Encodes documents view documents-IsLawful add (items two_three) two_three
      (pos 2, (pos 3, tt)) refl (refl, (refl, tt))

abbrev asked : IsRequest documents view request (pos 9) "add" two_three
asked = record {
  object = tt;
  jsonrpc = refl;
  id = refl;
  named = refl;
  args = items two_three;
  given = refl;
  items = refl;
}

pub adding-within : 18 * 1_000 ≤ adding.timeout * 1_000_000
unfolding bind
adding-within = omega arith

pub adding-waits : 3 * 1_000 ≤ adding.pending * 1_000_000
unfolding bind
adding-waits = omega arith

added : net_call machine documents adding "add" (items two_three) ≡ ok (number (pos 5))
unfolding net_call bind dispatch make
added = refl

threw :
    net_call machine documents
      (bind machine documents "add" broken_add empty_server)
      "add"
      (items two_three)
    ≡ throws std_exception
unfolding net_call bind dispatch make
threw = refl

respond_value_example :
    (reply : Document) × (respond machine documents adding request ≡ ok reply)
    × Replies machine documents view documents-IsLawful adding reply (pos 9)
    × (view.get reply result_field ≡ some (number (pos 5)))
    × (view.get reply error_field ≡ none)
respond_value_example =
    respond_value machine documents view documents-IsLawful adding asked (number (pos 5)) added

respond_error_example :
    let broken = bind machine documents "add" broken_add empty_server in
    (reply : Document) × (respond machine documents broken request ≡ ok reply)
    × Replies machine documents view documents-IsLawful broken reply (pos 9)
    × Reports documents view (empty_response documents (pos 9)) make_internal_error_exception reply
respond_error_example =
    respond_error machine documents view documents-IsLawful
      (bind machine documents "add" broken_add empty_server) asked std_exception (λ e. cc) threw

added_defined : net_call machine documents adding "add" (items two_three) ≢ undefined
added_defined e = cc (rw added at e)

respond_total_example :
    ((reply : Document) × (respond machine documents adding request ≡ ok reply)
      × Replies machine documents view documents-IsLawful adding reply (pos 9)
      × ((IsPresent machine documents view documents-IsLawful adding reply result_field
            × (view.get reply error_field ≡ none))
          ⊎ (IsPresent machine documents view documents-IsLawful adding reply error_field
              × (view.get reply result_field ≡ none))))
    ⊎ ((net_call machine documents adding "add" (items two_three) ≡ throws foreign_exception)
        × (respond machine documents adding request ≡ throws foreign_exception))
respond_total_example =
    respond_total machine documents view documents-IsLawful adding asked added_defined

report_error-Reports_example :
    (reply : Document) × (report_error documents
        (empty_response documents (pos 9))
        make_invalid_params_exception
      ≡ ok reply)
    × Reports documents view (empty_response documents (pos 9)) make_invalid_params_exception reply
report_error-Reports_example =
    report_error-Reports documents view documents-IsLawful (empty_response documents (pos 9)) tt
      make_invalid_params_exception

pub made : make_request documents (pos 9) "add" two_three ≡ ok request
unfolding make_request make_request_impl
made = refl

pub ok-injective : {A : Type 0} {x y : A} → ok x ≡ ok y → x ≡ y
ok-injective e = cc

abbrev pub replied : Document
replied = entries (
    (result_field, number (pos 5))
    ∷ (jsonrpc_field, label version)
    ∷ (id_field, number (pos 9))
    ∷ [])

pub answers : respond machine documents adding request ≡ ok replied
unfolding respond make_empty_response prepare_net_call answer catch_errors net_call bind dispatch
    make fill_result_to_response
answers = refl

readable :
    IsReadable machine documents view documents-IsLawful number_of empty_server
      (pos 9)
      "add"
      two_three
      add
      (pos 2, (pos 3, tt))
      (refl, (refl, tt))
      []
      (7 ∷ [])
readable = record {
  request = λ x e. subst view.Printable (ok-injective (sym made ∙ e)) (λ rest. refl);
  reply = λ x y e e'.
      let same : request ≡ x = ok-injective (sym made ∙ e) in
      subst view.Printable
        (ok-injective (sym answers ∙ ap (respond machine documents adding) same ∙ e'))
        (λ rest. refl);
}

remote_value_example :
    remote machine documents number_of adding (pos 9) "add" two_three [] (7 ∷ [])
    ≡ ok (some (pos 5))
remote_value_example =
    remote_value machine documents view documents-IsLawful number_of empty_server (pos 9) "add"
      two_three add (pos 2, (pos 3, tt)) (refl, (refl, tt)) [] (7 ∷ []) (number (pos 5)) readable
      refl refl

abbrev refused : Document
refused = entries (
    (
      error_field,
      entries
          ((message_field, label "Internal error") ∷ (code_field, number internal_error_code) ∷ []),
    )
    ∷ (error_field, entries ((code_field, number internal_error_code) ∷ []))
    ∷ (jsonrpc_field, label version)
    ∷ (id_field, number (pos 9))
    ∷ [])

answers_error :
    respond machine documents (bind machine documents "add" broken_add empty_server) request
    ≡ ok refused
unfolding respond make_empty_response prepare_net_call answer catch_errors net_call bind dispatch
    make fill_result_to_response report_error drop_result add_message
answers_error = refl

readable_error :
    IsReadable machine documents view documents-IsLawful number_of empty_server
      (pos 9)
      "add"
      two_three
      broken_add
      (pos 2, (pos 3, tt))
      (refl, (refl, tt))
      []
      (7 ∷ [])
readable_error = record {
  request = λ x e. subst view.Printable (ok-injective (sym made ∙ e)) (λ rest. refl);
  reply = λ x y e e'.
      let same : request ≡ x = ok-injective (sym made ∙ e) in
      subst view.Printable
        (ok-injective (
          sym answers_error
          ∙ ap (respond machine documents (bind machine documents "add" broken_add empty_server))
              same
          ∙ e'))
        (λ rest. refl);
}

remote_error_example :
    remote machine documents number_of
      (bind machine documents "add" broken_add empty_server)
      (pos 9)
      "add"
      two_three
      []
      (7 ∷ [])
    ≡ ok none
remote_error_example =
    remote_error machine documents view documents-IsLawful number_of empty_server (pos 9) "add"
      two_three broken_add (pos 2, (pos 3, tt)) (refl, (refl, tt)) [] (7 ∷ []) std_exception
      (λ e. cc) readable_error refl
