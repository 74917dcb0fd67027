-- ===== src/Resolve/Request.antt =====
-- trpc/detail/resolve.h: what the server finds in the request that the client has made.
use Prim.Native.String.{String}
use t_rpc.Base.{◌≡◌, refl, ◌∙◌, List, [], ◌∷◌, ◌++◌, append_assoc, append-nil, some}
use t_rpc.Base.Word.{ℤ}
use t_rpc.Json.{JsonLib, View, IsLawful, lookup}
use t_rpc.Outcome.{ok}
use t_rpc.Protocol.{jsonrpc_field, method_field, params_field, id_field, version}
use t_rpc.Resolve.{make_request, make_request_impl}

module _ (j : JsonLib) (v : View j) where
  -- A JSON-RPC request: the version, the token, the method and the array of parameters.
  pub record IsRequest (request : j.Json) (token : ℤ) (method : String) (params : List j.Json)
      : Type 0 where
    pub object : v.IsObject request
    pub jsonrpc : v.get request jsonrpc_field ≡ some (j.from_string version)
    pub id : v.get request id_field ≡ some (j.from_int token)
    pub named : v.get request method_field ≡ some (j.from_string method)
    pub args : j.Json
    pub given : v.get request params_field ≡ some args
    pub items : v.Items args params

  module _ (lawful : IsLawful j v) where
    make_request_impl-Items :
        (args : j.Json) (xs params : List j.Json)
        → v.Items args xs
        → (args' : j.Json) × (make_request_impl j args params ≡ ok args')
          × v.Items args' (xs ++ params)
    unfolding make_request_impl
    make_request_impl-Items args xs [] items = (args, refl, rw (append-nil xs) items)
    make_request_impl-Items args xs (p ∷ params) items =
        let (args', e, items') = lawful.append-Items args p xs items in
        let (args'', e', items'') = make_request_impl-Items args' (xs ++ p ∷ []) params items' in
        (args'', rw e e', rw append_assoc at items'')

    -- makeRequest returns an object with the four fields of a request, the parameters in order.
    pub make_request-IsRequest :
        (token : ℤ) (method : String) (params : List j.Json)
        → (request : j.Json) × (make_request j token method params ≡ ok request)
          × IsRequest request token method params
    unfolding make_request
    make_request-IsRequest token method params =
        let (args, e, items) = make_request_impl-Items j.array [] params lawful.array-Items in
        let (request, e', made) = lawful.assign-object json params_field args json_object in
        (
          request,
          rw (lawful.index-some json params_field j.array json_object (get_json params_field), e)
              e',
          record {
            object = made.object;
            jsonrpc = made.get_update jsonrpc_field ∙ get_json jsonrpc_field;
            id = made.get_update id_field ∙ get_json id_field;
            named = made.get_update method_field ∙ get_json method_field;
            args = args;
            given = made.get_update params_field;
            items = items;
          },
        )
      where
        fields : List (String × j.Json)
        fields =
            (jsonrpc_field, j.from_string version)
            ∷ (id_field, j.from_int token)
            ∷ (method_field, j.from_string method)
            ∷ (params_field, j.array)
            ∷ []

        json : j.Json
        json = j.object fields

        json_object : v.IsObject json
        json_object = lawful.object-IsObject fields

        get_json : (k : String) → v.get json k ≡ lookup k fields
        get_json = lawful.get-object fields
