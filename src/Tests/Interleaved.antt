-- ===== src/Tests/Interleaved.antt =====
-- Runs of one of two connections of a server, with the other's calls in between.
use t_rpc.Base.{
  ℕ, ◌+◌, ◌*◌, ◌≤◌, ◌==◌, ◌≡◌, ◌≢◌, refl, List, [], ◌∷◌, ◌++◌, length, Bool, true, false, none,
  some, arith, drop, append-nil, store_at,
}
use t_rpc.Base.Word.{pos, load32, swap32, store32}
use t_rpc.BestEffort.{
  best_effort_read, best_effort_write, best_effort_template, loop, round, transfer, after_io,
  after_poll, give_up, interval,
}
use t_rpc.CallProxy.{make, dispatch}
use t_rpc.Codec.{content_length, verify, frame}
use t_rpc.Codec.Framing.{wire, wires}
use t_rpc.Codec.Messages.{decode, dump, prepare_net_call, fill_result_to_response}
use t_rpc.Interleaving.{Shared, fail_with, receive, transmit, take_in, interleaved, below}
use t_rpc.Interleaving.Conversation.{interleaved-Turned, interleaved_live}
use t_rpc.Interleaving.Laws.{Calm, LiveBelow}
use t_rpc.Interleaving.Others.{Played, on_accept-Played}
use t_rpc.Outcome.{ok}
use t_rpc.Resolve.{make_empty_response}
use t_rpc.Server.{
  Server, on_accept, turn, continues, server_pending, server_read, server_write, after_header,
  read_content, handle_frame, after_request, after_response, write_response, respond, answer,
  catch_errors, net_call, bind, after_content, report, table_set,
}
use t_rpc.Server.Callbacks.{Turned, on_accept-Turned}
use t_rpc.Server.Conversation.{Row}
use t_rpc.Server.Errno.{Leaves}
use t_rpc.Server.Errno.Loop.{on_accept-Same}
use t_rpc.Server.Keeps.{EndsIn}
use t_rpc.Server.Queue.{Answerable, no_more, answerable}
use t_rpc.Tests.Calls.{stack, stack-length}
use t_rpc.Tests.Documents.{documents}
use t_rpc.Tests.Machine.{Machine, machine, streams, running, alive, machine-IsLawful}
use t_rpc.Tests.Pair.{Pair, pair, pair_streams, pair-IsLawfulAt, pair-IsLocal, MineUp, pair-Prompt}
use t_rpc.Tests.Replies.{add, request, replied, adding}

abbrev pub shared : Server (interleaved pair (pos 4)) documents
shared = bind (interleaved pair (pos 4)) documents "add" add (record {
  fd = pos 3;
  endpoint = record { sin_family = 2; sin_addr = 0; sin_port = 0 };
  table = [];
  errno = 0;
  timeout = 1000;
  pending = 1000;
  request_callback = none;
  response_callback = none;
})

-- Two requests on my connection and a byte of the next; other bytes on the other.
abbrev both_waiting : Pair
both_waiting = record {
  mine = running (wires documents.print (request ∷ request ∷ []) ++ 0 ∷ []);
  other = running (7 ∷ 8 ∷ 9 ∷ []);
}

pub not_four : {n : ℕ} → (n == 4) ≡ false → pos n ≢ pos 4
not_four e h = cc

not_five : {n : ℕ} → (n == 5) ≡ false → pos n ≢ pos 5
not_five e h = cc

-- The other connection reads and writes, a new one comes in, errno changes.
abbrev pub busy : Shared pair (pos 4)
busy = record {
  world = both_waiting;
  schedule =
      ((receive (pos 5) 2, not_four refl) ∷ (transmit (pos 5) (3 ∷ []), not_four refl) ∷ [])
      ∷ ((fail_with 11, tt) ∷ (take_in (pos 3), not_four refl) ∷ [])
      ∷ []
      ∷ ((receive (pos 6) 1, not_four refl) ∷ [])
      ∷ [];
}

-- The others' segments take two calls at most, a microsecond each.
pub busy-Calm : Calm pair pair_streams (pos 4) pair-IsLocal 1_000 5_000 16384 MineUp busy.schedule
busy-Calm = (
  record { stays_live = λ w up. up; takes = λ w up. omega arith },
  (
    record { stays_live = λ w up. up; takes = λ w up. omega arith },
    (
      record { stays_live = λ w up. up; takes = λ w up. omega arith },
      (record { stays_live = λ w up. up; takes = λ w up. omega arith }, tt),
    ),
  ),
)

pub answers_among : respond (interleaved pair (pos 4)) documents shared request ≡ ok replied
unfolding respond make_empty_response prepare_net_call answer catch_errors net_call bind dispatch
    make fill_result_to_response
answers_among = refl

-- The calls of the loop and the others' pauses are within the server's times.
pub shared-within : 18 * (1_000 + 5_000) ≤ shared.timeout * 1_000_000
unfolding bind
shared-within = omega arith

pub shared-waits : 3 * (1_000 + 5_000) ≤ shared.pending * 1_000_000
unfolding bind
shared-waits = omega arith

pub no_request : shared.request_callback ≡ none
unfolding bind
no_request = refl

pub no_response : shared.response_callback ≡ none
unfolding bind
no_response = refl

answers_two :
    Answerable
      (interleaved pair (pos 4))
      documents
      shared
      16384
      (request ∷ request ∷ [])
      (replied ∷ replied ∷ [])
answers_two =
    answerable (λ rest. refl) answers_among (omega arith) (omega arith) (omega arith) (omega arith)
      (answerable (λ rest. refl) answers_among (omega arith) (omega arith) (omega arith)
        (omega arith) no_more)

interleaved_live_example :
    (buf' : List ℕ) × (w : Shared pair (pos 4)) × (on_accept
        (interleaved pair (pos 4))
        documents
        2
        (pos 4)
        shared
        stack
        busy
      ≡ ok (continues shared buf' w))
    × (pair_streams.incoming w.world (pos 4) ≡ 0 ∷ [])
    × (pair_streams.sent w.world (pos 4) ≡ [] ++ wires documents.print (replied ∷ replied ∷ []))
    × LiveBelow pair pair_streams (pos 4) pair-IsLocal 1_000 5_000 16384 MineUp w
interleaved_live_example =
    interleaved_live pair documents pair_streams (pos 4) pair-IsLawfulAt pair-IsLocal shared
      no_request no_response 1_000 5_000 16384 MineUp pair-Prompt shared-within shared-waits
      (0 ∷ []) {requests = request ∷ request ∷ []} {replies = replied ∷ replied ∷ []} stack busy
      answers_two stack-length ((refl, refl), busy-Calm) (append-nil both_waiting.mine.incoming)

-- A request callback that lets one request pass, as long as nothing was sent.
abbrev nothing_sent : List ℕ → Bool
nothing_sent [] = true
nothing_sent _ = false

abbrev once : Server (interleaved pair (pos 4)) documents
once = record shared {
  request_callback = some (λ x w. (nothing_sent w.world.mine.sent, x, w));
  response_callback = some (λ x w. (true, x, w));
}

abbrev received : List ℕ
received = wire (documents.print request) ++ drop (length (wire (documents.print request))) stack

abbrev replied_once : Shared pair (pos 4)
replied_once = record {
  world = record {
    mine = record {
      incoming = 0 ∷ [];
      later = [];
      sent = wire (documents.print replied);
      errno = 11;
      link = alive;
      clock = 33_000;
    };
    other = record { incoming = []; later = []; sent = 3 ∷ []; errno = 0; link = alive; clock = 0 };
  };
  schedule = [];
}

two_turns :
    on_accept (interleaved pair (pos 4)) documents 2 (pos 4) once stack busy
    ≡ ok (continues once received replied_once)
unfolding on_accept turn server_pending best_effort_template loop round bind after_poll transfer
    after_header store_at server_read best_effort_read store32 read_content content_length
    after_content swap32 load32 after_io best_effort_write give_up interval dispatch make decode
    dump fill_result_to_response prepare_net_call frame verify make_empty_response after_request
    after_response answer catch_errors handle_frame net_call report respond server_write table_set
    write_response wires
two_turns = refl

interleaved-Turned_example :
    Row
      (interleaved pair (pos 4))
      documents
      (pos 4)
      (Turned (interleaved pair (pos 4)) documents (below pair (pos 4) pair_streams) (pos 4) once)
      2
      busy
      replied_once
    × (once ≡ once)
interleaved-Turned_example =
    interleaved-Turned pair documents pair_streams (pos 4) pair-IsLawfulAt pair-IsLocal once 2 stack
      busy stack-length two_turns

-- The same callbacks on one connection alone.
abbrev alone : Server machine documents
alone = record adding {
  request_callback = some (λ x w. (nothing_sent w.sent, x, w));
  response_callback = some (λ x w. (true, x, w));
}

abbrev one_reply : Machine
one_reply = record {
  incoming = 0 ∷ [];
  later = [];
  sent = wire (documents.print replied);
  errno = 0;
  link = alive;
  clock = 30_000;
}

two_turns_alone :
    on_accept machine documents 2 (pos 4) alone stack both_waiting.mine
    ≡ ok (continues alone received one_reply)
unfolding on_accept turn server_pending best_effort_template loop round bind after_poll transfer
    after_header store_at server_read best_effort_read store32 read_content content_length
    after_content swap32 load32 after_io best_effort_write give_up interval dispatch make decode
    dump fill_result_to_response prepare_net_call frame verify make_empty_response after_request
    after_response answer catch_errors handle_frame net_call report respond server_write table_set
    write_response wires
two_turns_alone = refl

on_accept-Turned_example :
    Row machine documents
      (pos 4)
      (Turned machine documents streams (pos 4) alone)
      2
      both_waiting.mine
      one_reply
    × (alone ≡ alone)
on_accept-Turned_example =
    on_accept-Turned machine documents streams (pos 4) alone (machine-IsLawful (pos 4)) 2 stack
      both_waiting.mine stack-length two_turns_alone

-- The same server's loop on descriptor 4, as descriptor 5 sees it.
on_accept-Played_example :
    EndsIn machine documents
      (Played machine (pos 5) both_waiting.mine)
      (on_accept machine documents 2 (pos 4) alone stack both_waiting.mine)
on_accept-Played_example =
    on_accept-Played machine (pos 5) documents (pos 4) 2 alone stack both_waiting.mine
      (not_five refl) (λ x w p. p, λ x w p. p)

on_accept-Same_example :
    (e : ℕ) × (on_accept machine documents 2
        (pos 4)
        (record alone { errno = 71 })
        stack
        both_waiting.mine
      ≡ Leaves machine documents
          (pos 4)
          e
          (on_accept machine documents 2 (pos 4) alone stack both_waiting.mine))
on_accept-Same_example = on_accept-Same machine documents (pos 4) 2 71 alone stack both_waiting.mine
