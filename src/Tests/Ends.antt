-- ===== src/Tests/Ends.antt =====
-- Two calls in a row with the calls of other connections in between, at both ends.
use t_rpc.Base.{ℕ, ◌∙◌, ap, sym, ◌≡◌, refl, List, [], ◌∷◌, ◌++◌, append-nil, arith}
use t_rpc.Base.Word.{ℤ, pos}
use t_rpc.CallProxy.{make, dispatch}
use t_rpc.Client.{Client}
use t_rpc.Client.Queue.{call_all, results_of, Makes, no_more, makes}
use t_rpc.Codec.Framing.{wires}
use t_rpc.Codec.Messages.{prepare_net_call, fill_result_to_response}
use t_rpc.Interleaving.{Shared, interleaved}
use t_rpc.Interleaving.Calls.{End, interleaved_calls}
use t_rpc.Interleaving.Conversation.{interleaved_live}
use t_rpc.Kernel.{Kernel}
use t_rpc.Outcome.{Outcome, ok}
use t_rpc.Resolve.{make_empty_response}
use t_rpc.Server.{Turn, continues, on_accept, respond, answer, catch_errors, net_call, bind}
use t_rpc.Server.Queue.{Answerable, answerable, no_more as no_more_requests}
use t_rpc.Tests.Calls.{stack, stack-length, client}
use t_rpc.Tests.Documents.{documents, number_of}
use t_rpc.Tests.Interleaved.{
  shared, shared-within, shared-waits, busy, busy-Calm, answers_among, no_request, no_response,
}
use t_rpc.Tests.Machine.{running}
use t_rpc.Tests.Pair.{pair, pair_streams, pair-IsLawfulAt, pair-IsLocal, MineUp, pair-Prompt}
use t_rpc.Tests.Queues.{next_request, made_next, next_reply, calls, replies, coming}
use t_rpc.Tests.Replies.{request, made}
use t_rpc.TokenGenerator.{acquire}

abbrev four_end : End pair pair_streams (pos 4) 1_000 16384 MineUp
four_end = record { lawful = pair-IsLawfulAt; local = pair-IsLocal; prompt = pair-Prompt }

abbrev system : Kernel
system = interleaved pair (pos 4)

abbrev caller : Client
caller = record client { socket = pos 4 }

-- The client's replies are on their way, the server's requests are waiting; the others are busy.
abbrev calling : Shared pair (pos 4)
calling = record busy { world = record { mine = coming; other = running (1 ∷ 2 ∷ []) } }

abbrev serving : Shared pair (pos 4)
serving = record busy {
  world = record {
    mine = running (wires documents.print (request ∷ next_request ∷ []) ++ 0 ∷ []);
    other = running (3 ∷ []);
  };
}

both : Makes system documents number_of 16384 (pos 8) calls (request ∷ next_request ∷ []) replies
unfolding acquire
both =
    makes refl made (λ rest. refl) (omega arith) (omega arith) (omega arith) (omega arith)
      (makes refl made_next (λ rest. refl) (omega arith) (omega arith) (omega arith) (omega arith)
        (no_more (pos 10)))

answers_next : respond system documents shared next_request ≡ ok next_reply
unfolding respond make_empty_response prepare_net_call answer catch_errors net_call bind dispatch
    make fill_result_to_response
answers_next = refl

all_answered : Answerable system documents shared 16384 (request ∷ next_request ∷ []) replies
all_answered =
    answerable (λ rest. refl) answers_among (omega arith) (omega arith) (omega arith) (omega arith)
      (answerable (λ rest. refl) answers_next (omega arith) (omega arith) (omega arith)
        (omega arith) no_more_requests)

same_world :
    {o : Outcome (Turn system documents)} {b b' : List ℕ} {w w' : Shared pair (pos 4)}
    → o ≡ ok (continues shared b w)
    → o ≡ ok (continues shared b' w')
    → w ≡ w'
same_world e e' = cc

-- What the turns send is on its way to the client.
down :
    (b out : List ℕ) (w : Shared pair (pos 4))
    → on_accept system documents 2 (pos 4) shared stack serving ≡ ok (continues shared b w)
    → pair_streams.sent w.world (pos 4) ≡ [] ++ out
    → pair_streams.incoming calling.world (pos 4) ≡ out ++ 7 ∷ []
down b out w runs sent =
    let (b', w', runs', _, sent', _) =
      interleaved_live pair documents pair_streams (pos 4) pair-IsLawfulAt pair-IsLocal shared
        no_request no_response 1_000 5_000 16384 MineUp pair-Prompt shared-within shared-waits
        (0 ∷ []) {requests = request ∷ next_request ∷ []} {replies = replies} stack serving
        all_answered stack-length ((refl, refl), busy-Calm)
        (append-nil serving.world.mine.incoming) in
    append-nil coming.incoming
    ∙ ap (λ xs. xs ++ 7 ∷ [])
        (sym sent' ∙ ap (λ v. v.world.mine.sent) (same_world runs' runs) ∙ sent)

interleaved_calls_example :
    (token' : ℤ) × (w : Shared pair (pos 4)) × (call_all system documents number_of calls stack
        stack
        (record caller { token = pos 8 })
        calling
      ≡ (results_of system documents number_of replies, record caller { token = token' }, w))
    × (w.world.mine.sent ≡ [] ++ wires documents.print (request ∷ next_request ∷ []))
    × (w.world.mine.incoming ++ w.world.mine.later ≡ 7 ∷ [])
    × (b : List ℕ) × (v : Shared pair (pos 4)) × (on_accept system documents 2
          (pos 4)
          shared
          stack
          serving
        ≡ ok (continues shared b v))
    × (v.world.mine.incoming ++ v.world.mine.later ≡ 0 ∷ [])
interleaved_calls_example =
    interleaved_calls documents number_of 16384 pair pair_streams (pos 4) 1_000 5_000 MineUp
      four_end shared shared-within shared-waits no_request no_response pair pair_streams caller 4
      refl refl 1_000 5_000 MineUp four_end (omega arith) (pos 8) {calls = calls}
      {requests = request ∷ next_request ∷ []} {replies = replies} stack stack stack (7 ∷ [])
      (0 ∷ []) calling serving both all_answered stack-length stack-length ((refl, refl), busy-Calm)
      ((refl, refl), busy-Calm) (append-nil serving.world.mine.incoming) down
