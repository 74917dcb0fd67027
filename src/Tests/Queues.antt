-- ===== src/Tests/Queues.antt =====
-- Two calls of one client whose replies are on their way, alone and with the server at the other
-- end.
use Prim.Native.String.{String}
use t_rpc.Base.{ℕ, ◌∙◌, ap, sym, ◌≡◌, refl, List, [], ◌∷◌, ◌++◌, append-nil, arith}
use t_rpc.Base.Word.{ℤ, pos}
use t_rpc.Client.Queue.{call_all, results_of, Makes, no_more, makes}
use t_rpc.Codec.Framing.{wires}
use t_rpc.Outcome.{Outcome, ok}
use t_rpc.Protocol.{result_field, jsonrpc_field, id_field, method_field, params_field, version}
use t_rpc.Resolve.{make_empty_response, make_request, make_request_impl}
use t_rpc.TokenGenerator.{acquire}
use t_rpc.CallProxy.{make, dispatch}
use t_rpc.Codec.Messages.{prepare_net_call, fill_result_to_response}
use t_rpc.Server.{Turn, continues, on_accept, respond, answer, catch_errors, net_call, bind}
use t_rpc.Server.Queue.{Answerable, answerable, no_more as no_more_requests, on_accept_live}
use t_rpc.Session.Row.{calls_answered}
use t_rpc.Tests.Conversations.{no_request, no_response}
use t_rpc.Tests.Calls.{stack, stack-length, client}
use t_rpc.Tests.Documents.{Document, documents, number, label, entries, items, no_items, number_of}
use t_rpc.Tests.Machine.{Machine, machine, streams, running, machine-IsLawful}
use t_rpc.Tests.Prompt.{Up, machine-Prompt}
use t_rpc.Tests.Replies.{
  adding-within, adding-waits, answers, adding, request, replied, two_three, made,
}

abbrev pub next_request : Document
next_request = entries (
    (params_field, items two_three)
    ∷ (jsonrpc_field, label version)
    ∷ (id_field, number (pos 10))
    ∷ (method_field, label "add")
    ∷ (params_field, no_items)
    ∷ [])

pub made_next : make_request documents (pos 10) "add" two_three ≡ ok next_request
unfolding make_request make_request_impl
made_next = refl

abbrev pub next_reply : Document
next_reply = entries (
    (result_field, number (pos 5))
    ∷ (jsonrpc_field, label version)
    ∷ (id_field, number (pos 10))
    ∷ [])

answers_next : respond machine documents adding next_request ≡ ok next_reply
unfolding respond make_empty_response prepare_net_call answer catch_errors net_call bind dispatch
    make fill_result_to_response
answers_next = refl

abbrev pub calls : List (String × List Document)
calls = ("add", two_three) ∷ ("add", two_three) ∷ []

abbrev pub replies : List Document
replies = replied ∷ next_reply ∷ []

abbrev pub coming : Machine
coming = running (wires documents.print replies ++ 7 ∷ [])

both : Makes machine documents number_of 16384 (pos 8) calls (request ∷ next_request ∷ []) replies
unfolding acquire
both =
    makes refl made (λ rest. refl) (omega arith) (omega arith) (omega arith) (omega arith)
      (makes refl made_next (λ rest. refl) (omega arith) (omega arith) (omega arith) (omega arith)
        (no_more (pos 10)))

-- The requests are waiting at the server, with a byte of the next.
abbrev waiting_there : Machine
waiting_there = running (wires documents.print (request ∷ next_request ∷ []) ++ 0 ∷ [])

all_answered : Answerable machine documents adding 16384 (request ∷ next_request ∷ []) replies
all_answered =
    answerable (λ rest. refl) answers (omega arith) (omega arith) (omega arith) (omega arith)
      (answerable (λ rest. refl) answers_next (omega arith) (omega arith) (omega arith)
        (omega arith) no_more_requests)

same_world :
    {o : Outcome (Turn machine documents)} {b b' : List ℕ} {m m' : Machine}
    → o ≡ ok (continues adding b m)
    → o ≡ ok (continues adding b' m')
    → m ≡ m'
same_world e e' = cc

-- What the turns send is on its way to the client.
down :
    (b out : List ℕ) (m : Machine)
    → on_accept machine documents 2 (pos 4) adding stack waiting_there ≡ ok (continues adding b m)
    → m.sent ≡ [] ++ out
    → coming.incoming ++ coming.later ≡ out ++ 7 ∷ []
down b out m runs sent =
    let (b', m', runs', left, sent', up) =
      on_accept_live machine documents adding 16384 streams (pos 4) (machine-IsLawful (pos 4)) 1_000
        Up (machine-Prompt (pos 4)) adding-within adding-waits no_request no_response (0 ∷ [])
        {requests = request ∷ next_request ∷ []} {replies = replies} stack waiting_there
        all_answered stack-length (refl, refl) (append-nil waiting_there.incoming) in
    append-nil coming.incoming
    ∙ ap (λ xs. xs ++ 7 ∷ []) (sym sent' ∙ ap (λ m''. m''.sent) (same_world runs' runs) ∙ sent)

calls_answered_example :
    (token' : ℤ) × (m : Machine) × (call_all machine documents number_of calls stack stack
        (record client { token = pos 8 })
        coming
      ≡ (results_of machine documents number_of replies, record client { token = token' }, m))
    × (m.sent ≡ [] ++ wires documents.print (request ∷ next_request ∷ []))
    × (m.incoming ++ m.later ≡ 7 ∷ [])
    × (b : List ℕ) × (m' : Machine) × (on_accept machine documents 2
          (pos 4)
          adding
          stack
          waiting_there
        ≡ ok (continues adding b m'))
    × (m'.incoming ++ m'.later ≡ 0 ∷ [])
calls_answered_example =
    calls_answered documents number_of 16384 machine streams (pos 4) (machine-IsLawful (pos 4))
      adding 1_000 Up (machine-Prompt (pos 4)) adding-within adding-waits no_request no_response
      machine streams client (machine-IsLawful (pos 7)) 7 refl refl 1_000 Up
      (machine-Prompt (pos 7)) (omega arith) (pos 8) {calls = calls}
      {requests = request ∷ next_request ∷ []} {replies = replies} stack stack stack (7 ∷ [])
      (0 ∷ []) coming waiting_there both all_answered stack-length stack-length (refl, refl)
      (refl, refl) (append-nil waiting_there.incoming) down
