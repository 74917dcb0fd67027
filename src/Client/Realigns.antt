-- ===== src/Client/Realigns.antt =====
-- Client::call of trpc/Client.h after a response that was not read to its end: calls that the
-- health check refuses, and the first one that gives a value.
use Prim.Native.String.{String}
use t_rpc.Base.{
  Bool, ℕ, ◌+◌, ◌∷◌, ◌^◌, ◌<◌, ◌≡◌, refl, ap, sym, subst, ◌∙◌, true, false, List, [], ◌++◌, length,
  take, drop, drop-append, take-append-drop, length-take, length-drop, append_assoc, arith, some,
}
use t_rpc.Base.Word.{ℤ, pos}
use t_rpc.Client.{Client, call, buf_size_on_stack}
use t_rpc.Client.Calls.{Called, call-Called}
use t_rpc.Health.{Health, check, no_read}
use t_rpc.Health.Drain.{Taken}
use t_rpc.Health.Owed.{Owes, HeaderWhole}
use t_rpc.Health.Owed.Passes.{check-Drained}
use t_rpc.Json.{JsonLib}
use t_rpc.Kernel.{Kernel, Streams, IsLawful}
use t_rpc.Outcome.{Outcome, ok}
use t_rpc.Resolve.{make_request}
use t_rpc.TokenGenerator.{acquire}

module _ (k : Kernel) (s : Streams k) (j : JsonLib) {T : Type 0} (to : j.Json → Outcome T)
    (buf : List ℕ) where
  -- Calls, one after the other, that the health check has refused.
  pub data Refusals : Client → k.World → Client → k.World → Type 0 where
    no_more : (c : Client) (w : k.World) → Refusals c w c w
    refused :
        {c c' : Client} {w w' w₁ : k.World} {h : Health} (function : String) (args : List j.Json)
        (probe : List ℕ)
        → check k c.socket c.health probe w ≡ ok (false, h, w₁)
        → Refusals
            (call k j to function args probe buf c w).client
            (call k j to function args probe buf c w).world
            c'
            w'
        → Refusals c w c' w'

  call_refused :
      (c : Client) (w : k.World) {w₁ : k.World} {h : Health} (function : String)
      (args : List j.Json) (probe : List ℕ)
      → check k c.socket c.health probe w ≡ ok (false, h, w₁)
      → ((call k j to function args probe buf c w).client ≡ record c { health = h })
        × ((call k j to function args probe buf c w).world ≡ w₁)
  unfolding call
  call_refused c w function args probe e = rw (e, call) (refl, refl)

  module _ (fd : ℕ) (later : List ℕ) where
    -- What is owed of a response stands in front of `later`.
    pub record Behind (c : Client) (w : k.World) : Type 0 where
      pub connected : c.socket ≡ pos fd
      pub rest : List ℕ
      pub front : s.incoming w (pos fd) ≡ rest ++ later
      pub owes : Owes k s (pos fd) w c.health (length rest)

    -- The stream after a front part of the rest.
    pub leaves :
        (rest : List ℕ) (n left : ℕ) {w w' : k.World}
        → s.incoming w (pos fd) ≡ rest ++ later
        → Taken k s (pos fd) n w w'
        → n + left ≡ length rest
        → (s.incoming w' (pos fd) ≡ drop n rest ++ later) × (length (drop n rest) ≡ left)
    leaves rest n left {w' = w'} front taken total = (
      sym (drop-append taken.bytes (s.incoming w' (pos fd)))
          ∙ ap (λ m. drop m (taken.bytes ++ s.incoming w' (pos fd))) taken.counted
          ∙ ap (drop n) (sym taken.prefix ∙ front ∙ split)
          ∙ ap (λ m. drop m (take n rest ++ (drop n rest ++ later))) (sym counted)
          ∙ drop-append (take n rest) (drop n rest ++ later),
      omega (arith, length-drop n rest, total),
    )
      where
        counted : length (take n rest) ≡ n
        counted = omega (arith, length-take n rest, total)

        split : rest ++ later ≡ take n rest ++ (drop n rest ++ later)
        split =
            ap (λ xs. xs ++ later) (sym (take-append-drop n rest))
            ∙ append_assoc (take n rest) (drop n rest) later

    module _ (lawful : IsLawful k s) (whole_header : HeaderWhole k s (pos fd)) where
      pub checked-Behind :
          {c : Client} {w w₁ : k.World} {healthy : Bool} {h : Health} (probe : List ℕ)
          → Behind c w
          → check k c.socket c.health probe w ≡ ok (healthy, h, w₁)
          → Behind (record c { health = h }) w₁
            × (healthy ≡ true → (s.incoming w₁ (pos fd) ≡ later) × (h.state ≡ no_read))
      checked-Behind {c} {w} {w₁} {healthy} {h} probe b e =
          let e' : check k (pos fd) c.health probe w ≡ ok (healthy, h, w₁) =
            ap (λ z. check k z c.health probe w) (sym b.connected) ∙ e in
          let d = check-Drained k s fd (lawful (pos fd)) whole_header probe w b.owes e' in
          let (front, long) = leaves b.rest d.read d.left b.front d.taken d.total in
          (
            record {
              connected = b.connected;
              rest = drop d.read b.rest;
              front = front;
              owes = subst (Owes k s (pos fd) w₁ h) (sym long) d.owes;
            },
            λ answer. (
              front ∙ ap (λ xs. xs ++ later) (empty (drop d.read b.rest) (long ∙ (d.dry answer).0)),
              (d.dry answer).1,
            ),
          )
        where
          empty : (xs : List ℕ) → length xs ≡ 0 → xs ≡ []
          empty [] e = refl
          empty (x ∷ xs) e = absurd (omega (arith, e))

      Refusals-Behind :
          {c c' : Client} {w w' : k.World} → Behind c w → Refusals c w c' w' → Behind c' w'
      Refusals-Behind b (no_more c w) = b
      Refusals-Behind {c = c} {c' = c'} {w = w} {w' = w'} b
            (refused {w₁ = w₁} {h = h} function args probe e more) =
          let d = call k j to function args probe buf c w in
          let (client, world) = call_refused c w function args probe e in
          let b' : Behind (record c { health = h }) w₁ = (checked-Behind probe b e).0 in
          let b'' : Behind (record c { health = h }) d.world =
            subst (Behind (record c { health = h })) (sym world) b' in
          Refusals-Behind {c = d.client} {c' = c'} {w = d.world} {w' = w'}
            (subst (λ z. Behind z d.world) (sym client) b'') more

      -- A connected client has a response behind it, of which it owes the rest: what stands on the
      -- stream in front of `later`. Its next calls are refused by the health check, any number of
      -- them, and then one gives a value, whose request is below 4 GiB if it can be made. The
      -- health check gets a header in one read or not at all. Then that call's check has read the
      -- stream exactly up to `later`, its request was sent after that, and the value is what the
      -- parser makes of the first frame of `later`: never of what was owed.
      pub calls_realign :
          {c : Client} {w : k.World} (c' : Client) (w' : k.World) (function : String)
          (args : List j.Json) (probe : List ℕ) {x : T}
          → length buf ≡ buf_size_on_stack
          → Behind c w
          → Refusals c w c' w'
          → ((token : ℤ) (request : j.Json)
              → acquire c'.token ≡ ok token
              → make_request j token function args ≡ ok request
              → length (j.print request) < 2 ^ 32)
          → (call k j to function args probe buf c' w').result ≡ ok (some x)
          → (called : Called k s j to function args probe c' w'
              (call k j to function args probe buf c' w')
              x)
            × (s.incoming called.checked (pos fd) ≡ later)
      calls_realign c' w' function args probe room behind refusals small e =
          let called : Called k s j to function args probe c' w'
              (call k j to function args probe buf c' w') _ =
            call-Called k s j to lawful function args buf room probe c' w' small e in
          let (_, passed) = checked-Behind probe (Refusals-Behind behind refusals) called.healthy in
          (called, (passed refl).0)
