-- ===== src/Tests/Live.antt =====
-- Runs on the small operating system while its connection is up: turns of the server, an exchange
-- and a whole call.
use t_rpc.Base.{
  Bool, if◌then◌else◌, ◌⊎◌, ◌≢◌, true, append-nil, subst, ℕ, ◌+◌, ◌*◌, ◌≡◌, ◌≢◌, ◌∙◌, ◌<◌, ◌↔◌,
  refl, ap, sym, List, [], ◌∷◌, ◌++◌, length, take, take-length, take-append, length-take, arith,
  none, some, inl, length-append, drop, inr, ◌⊎◌, ◌≤◌,
}
use t_rpc.Base.Word.{ℤ, pos, pos_part, store32}
use t_rpc.Client.{Client, call}
use t_rpc.Client.Calls.{Called, call-Called, call_idle}
use t_rpc.Client.Errors.{call_none}
use t_rpc.Client.Reasons.{Refused}
use t_rpc.Health.{Health, check, initial}
use t_rpc.Codec.Framing.{wire, wires}
use t_rpc.Outcome.{Outcome, ok}
use t_rpc.Resolve.{make_request}
use t_rpc.TokenGenerator.{acquire}
use t_rpc.Server.{on_accept, Turn, turn, continues}
use t_rpc.Server.Queue.{Answerable, no_more, answerable, on_accept_live}
use t_rpc.Session.{call_refines}
use t_rpc.Session.Reply.{local_call}
use t_rpc.Tests.Calls.{no_value, five as five_returned, stack, stack-length, client, waiting}
use t_rpc.Tests.Conversations.{goes_on, arriving, no_request, no_response}
use t_rpc.Tests.Documents.{Document, documents, view, documents-IsLawful, number_of}
use t_rpc.Tests.Machine.{breaking, Machine, machine, streams, running, machine-IsLawful}
use t_rpc.Tests.Replies.{
  adding-within, adding-waits, ok-injective, request, replied, adding, empty_server, add, two_three,
  made, answers,
}
use t_rpc.Tests.Prompt.{Up, machine-Prompt}

read_back : (rest : List ℕ) → documents.parse (documents.print request ++ rest) ≡ ok request
read_back rest = refl

read_back_reply : (rest : List ℕ) → documents.parse (documents.print replied ++ rest) ≡ ok replied
read_back_reply rest = refl

-- The token before that of the request.
abbrev caller : Client
caller = record client { token = pos 8 }

returned :
    (call machine documents number_of "add" two_three stack stack caller waiting).result
    ≡ ok (some (pos 5))
unfolding acquire
returned =
    ap (λ d. d.result)
      (call_idle machine streams documents number_of caller 7 refl refl (pos 9) refl "add" two_three
        request made stack stack waiting)
    ∙ five_returned

small_request :
    (token : ℤ) (x : Document)
    → acquire caller.token ≡ ok token
    → make_request documents token "add" two_three ≡ ok x
    → length (documents.print x) < 4_294_967_296
unfolding acquire
small_request token x e e' =
    let same : pos 9 ≡ token = ok-injective e in
    let made_same : request ≡ x =
      ok-injective (sym made ∙ ap (λ t. make_request documents t "add" two_three) same ∙ e') in
    subst (λ y. length (documents.print y) < 4_294_967_296) made_same (omega arith)

call-Called_example :
    Called machine streams documents number_of "add" two_three stack caller waiting
      (call machine documents number_of "add" two_three stack stack caller waiting)
      (pos 5)
call-Called_example =
    call-Called machine streams documents number_of machine-IsLawful "add" two_three stack
      stack-length stack caller waiting small_request returned

continues_world :
    {o : Outcome (Turn machine documents)} {b b' : List ℕ} {m m' : Machine}
    → o ≡ ok (continues adding b m)
    → o ≡ ok (continues adding b' m')
    → m ≡ m'
continues_world e e' = cc

-- What the turn sends is on its way to the client.
down :
    (b out : List ℕ) (m : Machine)
    → turn machine documents (pos 4) adding stack arriving ≡ ok (continues adding b m)
    → m.sent ≡ [] ++ out
    → waiting.incoming ++ waiting.later ≡ out ++ []
down b out m runs sent =
    ap (λ xs. xs ++ []) (ap (λ m. m.sent) (continues_world goes_on runs) ∙ sent)

call_refines_example :
    let d = call machine documents number_of "add" two_three stack stack caller waiting in
    (d.result ≡ local_call number_of (add.run (pos 2, (pos 3, tt))))
    × (d.client ≡ client)
    × (d.world.sent ≡ [] ++ wire (documents.print request))
    × (d.world.incoming ++ d.world.later ≡ [])
    × (b : List ℕ) × (m : Machine) × (turn machine documents (pos 4) adding stack arriving
        ≡ ok (continues adding b m))
    × (m.incoming ++ m.later ≡ 0 ∷ [])
unfolding t_rpc.Base.Word.store32 acquire
call_refines_example =
    call_refines documents view documents-IsLawful number_of (pos 9) "add" two_three add
      (pos 2, (pos 3, tt)) (refl, (refl, tt)) (λ e. cc) machine streams empty_server request replied
      made answers (λ rest. refl) (λ rest. refl) (omega arith) (omega arith) 16384 (omega arith)
      (omega arith) (pos 4) (machine-IsLawful (pos 4)) 1_000 Up (machine-Prompt (pos 4))
      (omega arith) (omega arith) refl refl machine streams caller (machine-IsLawful (pos 7)) 7 refl
      refl refl 1_000 Up (machine-Prompt (pos 7)) (omega arith) stack stack stack [] (0 ∷ [])
      waiting arriving stack-length stack-length (refl, refl) (refl, refl) refl down

-- Two requests are waiting, with a byte of the next.
abbrev queued : Machine
queued = running (wires documents.print (request ∷ request ∷ []) ++ 0 ∷ [])

one_more :
    {requests replies : List Document}
    → Answerable machine documents adding 16384 requests replies
    → Answerable machine documents adding 16384 (request ∷ requests) (replied ∷ replies)
one_more more =
    answerable read_back answers (omega arith) (omega arith) (omega arith) (omega arith) more

on_accept_live_example :
    (buf' : List ℕ) × (m : Machine) × (on_accept machine documents 2 (pos 4) adding stack queued
      ≡ ok (continues adding buf' m))
    × (m.incoming ++ m.later ≡ 0 ∷ [])
    × (m.sent ≡ [] ++ wires documents.print (replied ∷ replied ∷ []))
    × Up m
on_accept_live_example =
    on_accept_live machine documents adding 16384 streams (pos 4) (machine-IsLawful (pos 4)) 1_000
      Up (machine-Prompt (pos 4)) adding-within adding-waits no_request no_response (0 ∷ [])
      {requests = request ∷ request ∷ []} {replies = replied ∷ replied ∷ []} stack queued
      (one_more (one_more no_more)) stack-length (refl, refl) (append-nil queued.incoming)

gave_up :
    (call machine documents number_of "add" two_three stack stack caller breaking).result ≡ ok none
unfolding acquire
gave_up =
    ap (λ d. d.result)
      (call_idle machine streams documents number_of caller 7 refl refl (pos 9) refl "add" two_three
        request made stack stack breaking)
    ∙ no_value

call_none_example :
    let d = call machine documents number_of "add" two_three stack stack caller breaking in
    (healthy : Bool) × (h : Health) × (checked : Machine) × (check machine
        (pos 7)
        initial
        stack
        breaking
      ≡ ok (healthy, h, checked))
    × (if healthy
        then (d.client.errno ≢ 0)
          ⊎ Refused machine streams documents number_of (pos 7) checked d.world
        else ((d.client.errno ≡ 0) × (d.world ≡ checked)))
call_none_example =
    call_none machine streams documents number_of machine-IsLawful stack stack-length "add"
      two_three stack caller breaking gave_up
