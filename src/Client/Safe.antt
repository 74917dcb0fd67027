-- ===== src/Client/Safe.antt =====
-- The whole of Client::call of trpc/Client.h: its accesses to memory, and the token's arithmetic.
use Prim.Native.String.{String}
use t_rpc.Base.{
  ℕ, suc, zero, ◌+◌, ◌==◌, ◌≡◌, ◌≢◌, ap, refl, inl, inr, Bool, true, false, Bool-cases, List, ◌++◌,
  length, ==_iff,
}
use t_rpc.Base.Word.{ℤ, pos, negsuc, swap32, load32}
use t_rpc.Client.{Client, buf_size_on_stack, call, send}
use t_rpc.Client.Defined.{exchange_defined}
use t_rpc.Client.Realigns.{Behind, checked-Behind}
use t_rpc.Codec.{header_size}
use t_rpc.Health.Owed.{HeaderWhole}
use t_rpc.Health.{Health, check, buf_size}
use t_rpc.Health.Safe.{FitsHealth, check_safe}
use t_rpc.Json.{JsonLib, View, IsLawful as IsLawfulJson}
use t_rpc.Kernel.{Kernel, Streams, IsLawful}
use t_rpc.Outcome.{Outcome, ok, throws, undefined, ◌>>=◌}
use t_rpc.Resolve.{make_result}
use t_rpc.Resolve.Request.{make_request-IsRequest}
use t_rpc.TokenGenerator.{acquire, int_max}

acquire_defined : (t : ℤ) → t ≢ pos int_max → acquire t ≢ undefined
unfolding acquire
acquire_defined (pos n) below = elim (Bool-cases (n == int_max)) [
  | inl last ↦ absurd (below (ap pos ((==_iff n int_max).0 last)))
  | inr more ↦ rw more (λ e. cc)
]
acquire_defined (negsuc zero) below = λ e. cc
acquire_defined (negsuc (suc n)) below = λ e. cc

module _ (k : Kernel) (s : Streams k) (j : JsonLib) {T : Type 0} (to : j.Json → Outcome T)
    (lawful : IsLawful k s) (v : View j) (lawful_json : IsLawfulJson j v) (fd : ℕ) (frames : List ℕ)
    (defined : (head text later rest : List ℕ)
      → length head ≡ header_size
      → length text ≡ swap32 (load32 head)
      → frames ≡ head ++ (text ++ later)
      → header_size + length (text ++ rest) ≡ buf_size_on_stack
      → (j.parse (text ++ rest) >>= make_result j to) ≢ undefined)
    (function : String) (args : List j.Json) (buf : List ℕ)
    (room : length buf ≡ buf_size_on_stack) where
  send_defined :
      (o : Outcome ℤ) (c : Client) (w : k.World)
      → o ≢ undefined
      → c.socket ≡ pos fd
      → s.incoming w (pos fd) ≡ frames
      → (send k j to function args buf o c w).result ≢ undefined
  unfolding send
  send_defined (ok token) c w below here front =
      let (request, made, _) = make_request-IsRequest j v lawful_json token function args in
      rw (made, send)
        (exchange_defined k s j to lawful (pos fd) frames defined buf room request
          (record c { token = token }) w (record { here = here; front = front }))
  send_defined (throws e) c w below here front = λ e'. cc
  send_defined undefined c w below here front = absurd (below refl)

  -- The client is connected and owes what stands in front of some frames on its stream; the health
  -- check gets a header in one read or not at all. If the first of the frames, where it is there
  -- whole, has a content on which the parser and the conversion of the result have no undefined
  -- behaviour, whatever stands behind it in the buffer, the previous response left what the check's
  -- buffer holds, and the token is not the last, then `call` has none: whatever else the peer
  -- announces and sends, it stays inside its own buffer and that of the health check, and does not
  -- step past the last token.
  pub call_defined :
      (whole_header : HeaderWhole k s (pos fd)) (probe : List ℕ) (c : Client) (w : k.World)
      → length probe ≡ buf_size
      → FitsHealth c.health
      → c.token ≢ pos int_max
      → Behind k s j to buf fd frames c w
      → (call k j to function args probe buf c w).result ≢ undefined
  unfolding call
  call_defined whole_header probe c w probe_room fits below behind =
      settle (check k c.socket c.health probe w) refl
        (check_safe k s lawful c.socket c.health probe w fits probe_room)
    where
      settle :
          (o : Outcome (Bool × Health × k.World))
          → check k c.socket c.health probe w ≡ o
          → o ≢ undefined
          → (call k j to function args probe buf c w).result ≢ undefined
      settle (ok (true, h, w')) e safe =
          let (behind', drained) =
            checked-Behind k s j to buf fd frames lawful whole_header probe behind e in
          rw (e, call)
            (send_defined (acquire c.token) (record c { health = h }) w'
              (acquire_defined c.token below) behind'.connected (drained refl).0)
      settle (ok (false, h, w')) e safe = rw (e, call) (λ e'. cc)
      settle (throws x) e safe = rw (e, call) (λ e'. cc)
      settle undefined e safe = absurd (safe refl)
