-- ===== src/Tests/Conversations.antt =====
-- Runs of the server on a whole request, and of a client that gives up a response and goes on.
use t_rpc.Base.{
  replicate, ℕ, ◌≡◌, ◌≢◌, refl, List, [], ◌∷◌, ◌++◌, length, drop, true, false, some, none,
  store_at, inl, ap, sym, subst, ◌∙◌, ◌+◌, take, length-take, arith,
}
use t_rpc.Base.Word.{pos, load32, swap32, store32}
use t_rpc.BestEffort.{
  best_effort_read, best_effort_write, best_effort_template, loop, round, transfer, after_io,
  after_poll, give_up, interval,
}
use t_rpc.CallProxy.{make, dispatch}
use t_rpc.Client.{
  buf_size_on_stack, call, client_read, after_content as client_content, report as client_report,
}
use t_rpc.Client.Positions.{past, up_to}
use t_rpc.Client.Safe.{call_defined}
use t_rpc.Codec.{header_size, content_length, verify, frame}
use t_rpc.Codec.Framing.{wire}
use t_rpc.Codec.Messages.{decode, dump, prepare_net_call, fill_result_to_response}
use t_rpc.Health.{
  Health, buf_size, check, check_state, check_loop, pass, state_machine, set, advance, no_read,
}
use t_rpc.Health.Owed.{HeaderWhole, clear}
use t_rpc.Outcome.{ok, undefined, ◌>>=◌}
use t_rpc.Resolve.{make_result, take_result, make_empty_response}
use t_rpc.Server.{
  on_accept, turn, continues, server_pending, server_read, server_write, after_header, read_content,
  handle_frame, after_request, after_response, write_response, respond, answer, catch_errors,
  net_call, bind, after_content, report, table_set,
}
use t_rpc.Server.Frames.{Served, turn-Served}
use t_rpc.Tests.Calls.{stack, stack-length, client, waiting}
use t_rpc.Tests.Documents.{view, documents-IsLawful, documents, number_of}
use t_rpc.Tests.Machine.{alive, Machine, machine, streams, running, machine-IsLawful}
use t_rpc.Tests.Replies.{request, replied, adding}

-- The request to add 2 and 3 has come in, and a byte of the next.
abbrev pub arriving : Machine
arriving = running (wire (documents.print request) ++ 0 ∷ [])

abbrev pub replying : Machine
replying = record {
  incoming = 0 ∷ [];
  later = [];
  sent = wire (documents.print replied);
  errno = 0;
  link = alive;
  clock = 19_000;
}

abbrev pub received : List ℕ
received = wire (documents.print request) ++ drop (length (wire (documents.print request))) stack

pub goes_on :
    turn machine documents (pos 4) adding stack arriving ≡ ok (continues adding received replying)
unfolding turn server_pending best_effort_template loop round bind after_poll transfer after_header
    store_at server_read best_effort_read store32 read_content content_length after_content swap32
    load32 after_io best_effort_write give_up interval dispatch make decode dump
    fill_result_to_response prepare_net_call frame verify make_empty_response after_request
    after_response answer catch_errors handle_frame net_call report respond server_write table_set
    write_response
goes_on = refl

pub no_request : adding.request_callback ≡ none
unfolding bind
no_request = refl

pub no_response : adding.response_callback ≡ none
unfolding bind
no_response = refl

turn-Served_example : Served machine documents streams (pos 4) adding arriving adding replying
turn-Served_example =
    turn-Served machine documents streams (pos 4) (machine-IsLawful (pos 4)) adding no_request
      no_response stack arriving stack-length goes_on

-- Two requests, one behind the other.
abbrev arriving_twice : Machine
arriving_twice =
    running (wire (documents.print request) ++ (wire (documents.print request) ++ 0 ∷ []))

abbrev replying_twice : Machine
replying_twice = record {
  incoming = 0 ∷ [];
  later = [];
  sent = wire (documents.print replied) ++ wire (documents.print replied);
  errno = 0;
  link = alive;
  clock = 38_000;
}

two_turns :
    on_accept machine documents 2 (pos 4) adding stack arriving_twice
    ≡ ok (continues adding received replying_twice)
unfolding on_accept turn server_pending best_effort_template loop round bind after_poll transfer
    after_header store_at server_read best_effort_read store32 read_content content_length
    after_content swap32 load32 after_io best_effort_write give_up interval dispatch make decode
    dump fill_result_to_response prepare_net_call frame verify make_empty_response after_request
    after_response answer catch_errors handle_frame net_call report respond server_write table_set
    write_response
two_turns = refl

-- A response of five content bytes of which three have come; the other two come later, with a byte
-- of the next.
abbrev late : Machine
late = record {
  incoming = 1 ∷ 2 ∷ 3 ∷ [];
  later = 4 ∷ 5 ∷ 6 ∷ [];
  sent = [];
  errno = 0;
  link = alive;
  clock = 0;
}

gives_up : (client_read machine 5 client late).success ≡ false
unfolding client_read client_report best_effort_read best_effort_template loop round after_poll
    transfer after_io
gives_up = refl

after_three : (client_read machine 5 client late).ret ≡ pos 3
unfolding client_read client_report best_effort_read best_effort_template loop round after_poll
    transfer after_io
after_three = refl

abbrev idle : Health
idle = record { some_bytes = 0; content = 5; state = no_read }

resumes :
    let d =
      client_content machine documents number_of stack 5 (client_read machine 5 client late) in
    check machine d.client.socket d.client.health stack d.world
    ≡ ok (true, idle, record (running (6 ∷ [])) { clock = 7_000 })
unfolding client_content client_read client_report best_effort_read best_effort_template loop round
    after_poll transfer after_io store_at check check_state check_loop pass state_machine set
    advance
resumes = refl

abbrev first_head : List ℕ
first_head = take 4 (wire (documents.print replied))

first_frame : wire (documents.print replied) ++ [] ≡ first_head ++ (documents.print replied ++ [])
unfolding store32 frame
first_frame = refl

first_announced : swap32 (load32 first_head) ≡ length (documents.print replied)
unfolding swap32 load32 store32 frame
first_announced = refl

reply_read :
    (rest : List ℕ)
    → (documents.parse (documents.print replied ++ rest) >>= make_result documents number_of)
      ≡ ok (some (pos 5))
unfolding make_result take_result
reply_read rest = refl

-- The parser reads on behind a text that breaks off, and is defined on the reply that comes.
reply_defined :
    (head text later rest : List ℕ)
    → length head ≡ header_size
    → length text ≡ swap32 (load32 head)
    → wire (documents.print replied) ++ [] ≡ head ++ (text ++ later)
    → header_size + length (text ++ rest) ≡ buf_size_on_stack
    → (documents.parse (text ++ rest) >>= make_result documents number_of) ≢ undefined
unfolding store32
reply_defined head text later rest four long e fits =
    let same : head ++ (text ++ later) ≡ first_head ++ (documents.print replied ++ []) =
      sym e ∙ first_frame in
    let head_same : head ≡ first_head =
      up_to head (text ++ later) first_head (documents.print replied ++ []) same four in
    let text_same : text ≡ documents.print replied =
      up_to text later (documents.print replied) []
        (past head (text ++ later) first_head (documents.print replied ++ []) same four)
        (long ∙ ap (λ xs. swap32 (load32 xs)) head_same ∙ first_announced) in
    subst (λ xs. (documents.parse (xs ++ rest) >>= make_result documents number_of) ≢ undefined)
      (sym text_same) (λ bad. cc (sym (reply_read rest) ∙ bad))

header_at_once : HeaderWhole machine streams (pos 7)
header_at_once w long = inl (ap pos (omega (arith, length-take 4 (w.incoming ++ w.later), long)))

abbrev probe : List ℕ
probe = replicate buf_size 0

probe-length : length probe ≡ buf_size
probe-length = refl

call_defined_example :
    (call machine documents number_of "add" (request ∷ []) probe stack client waiting).result
    ≢ undefined
unfolding set
call_defined_example =
    call_defined machine streams documents number_of machine-IsLawful view documents-IsLawful 7
      (wire (documents.print replied) ++ []) reply_defined "add" (request ∷ []) stack stack-length
      header_at_once probe client waiting probe-length tt (λ e. cc)
      (record { connected = refl; rest = []; front = refl; owes = clear 0 0 })
