-- ===== src/Server/Turns.antt =====
-- A turn of the loop of onAccept in trpc/Server.h: what the announced length and the members of a
-- request can do to it.
use t_rpc.Base.{◌+◌, ◌<◌, ◌≡◌, ◌⊎◌, inl, inr, ℕ, List, none, some, length, arith, store_at-none, []}
use t_rpc.Base.Word.{ℤ}
use t_rpc.Codec.{header_size, content_length}
use t_rpc.Codec.Messages.{prepare_net_call}
use t_rpc.Json.{JsonLib, View, IsLawful}
use t_rpc.Kernel.{Kernel}
use t_rpc.Outcome.{throws, undefined, std_exception}
use t_rpc.Protocol.{id_field, method_field}
use t_rpc.Resolve.{make_empty_response}
use t_rpc.Server.{
  Server, server_read, after_content, read_content, after_request, buf_size_on_stack, respond,
}

module _ (k : Kernel) (j : JsonLib) (peer : ℤ) (s : Server k j) (w : k.World) (buf : List ℕ) where
  -- The announced length is not compared with the buffer: when more content arrives than the 16384
  -- bytes of the buffer hold behind the header, the turn is undefined behaviour.
  pub read_content_overruns :
      length buf ≡ buf_size_on_stack
      → buf_size_on_stack
        < header_size + length (server_read k j peer (content_length buf header_size).1 s w).bytes
      → read_content k j peer buf s w ≡ undefined
  unfolding read_content after_content content_length
  read_content_overruns room many = rw (
    store_at-none buf header_size
        (server_read k j peer (content_length buf header_size).1 s w).bytes (omega arith),
    after_content,
  )

  module _ (v : View j) (lawful : IsLawful j v) where
    -- An object without an id, or with a number as its id and without a method.
    pub record IsMalformed (request : j.Json) : Type 0 where
      pub object : v.IsObject request
      pub lacks :
          (v.get request id_field ≡ none)
          ⊎ ((token : ℤ) × (v.get request id_field ≡ some (j.from_int token))
              × (v.get request method_field ≡ none))

    respond_malformed :
        (request : j.Json) → IsMalformed request → respond k j s request ≡ throws std_exception
    unfolding respond make_empty_response prepare_net_call
    respond_malformed request m = elim m.lacks [
      | inl no_id ↦
          let (o', e, _) = lawful.index-none request id_field m.object no_id in
          rw (e, lawful.to_int-object [])
      | inr has_id ↦
          let (token, id, no_method) = has_id in
          let (o', e, _) = lawful.index-none request method_field m.object no_method in
          rw (
            lawful.index-some request id_field _ m.object id,
            lawful.to_int-from_int token,
            e,
            lawful.to_string-object [],
          )
    ]

    -- A server without a request callback throws on a request that is a Json object with no id, or
    -- with a number as its id and no method: the exception leaves the turn of onAccept before any
    -- reply.
    pub after_request_malformed :
        (request : j.Json)
        → s.request_callback ≡ none
        → IsMalformed request
        → after_request k j peer buf s w request ≡ throws std_exception
    unfolding after_request respond
    after_request_malformed request no_callback m = rw (no_callback, respond_malformed request m)
