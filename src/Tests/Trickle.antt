-- ===== src/Tests/Trickle.antt =====
-- A client on a connection that delivers an abandoned response byte by byte: a call that the health
-- check refuses, and the next, which gives its value.
use t_rpc.Base.{
  take, ◌^◌, min, ℕ, ◌==◌, ◌≤◌, ◌<◌, ◌≡◌, refl, ap, sym, subst, ◌∙◌, inl, false, if◌then◌else◌,
  List, [], ◌∷◌, ◌++◌, length, drop, length-take, take-append-drop, arith, some, store_at,
}
use t_rpc.Base.Word.{ℤ, pos, sub64, store32, swap32, load32}
use t_rpc.BestEffort.{
  best_effort_read, best_effort_write, best_effort_template, loop, round, transfer, after_io,
  after_poll,
}
use t_rpc.Client.{
  Client, call, exchange, send, after_write_header, client_write, report, after_write, client_read,
  after_header, read_content, after_content, finish,
}
use t_rpc.Client.Calls.{Called}
use t_rpc.Client.Realigns.{Behind, Refusals, no_more, refused, calls_realign}
use t_rpc.Codec.{content_length, verify, frame}
use t_rpc.Codec.Framing.{wire}
use t_rpc.Codec.Messages.{decode, dump}
use t_rpc.Health.{
  content_read_some, check, check_state, check_loop, pass, state_machine, advance, set,
}
use t_rpc.Health.Owed.{partly, HeaderWhole}
use t_rpc.Kernel.{Kernel, Streams, IsLawful}
use t_rpc.Outcome.{ok}
use t_rpc.Resolve.{make_request, make_request_impl, make_result, take_result}
use t_rpc.Tests.Calls.{stack, stack-length, client}
use t_rpc.Tests.Documents.{Document, documents, number_of}
use t_rpc.Tests.Machine.{
  Machine, machine, running, machine-IsLawful, receive, transmit, alive, dying, dead,
}
use t_rpc.Tests.Replies.{ok-injective, request, replied, two_three, made}
use t_rpc.TokenGenerator.{acquire}

-- Four bytes come at once, and otherwise one at a time.
abbrev drip : ℕ → ℕ
drip n = if n == 4 then 4 else min n 1

abbrev trickle : Kernel
trickle = record machine { read = λ fd n m. receive (drip n) m }

abbrev there : Streams trickle
there = record { incoming = λ m fd. m.incoming; sent = λ m fd. m.sent }

drip_bounded : (n : ℕ) → drip n ≤ n
drip_bounded n = ground arith

trickle-IsLawful : IsLawful trickle there
trickle-IsLawful fd =
    let lawful = machine-IsLawful fd in
    record {
      set_errno-Quiet = λ e w. record { same_incoming = refl; same_sent = refl };
      errno-set_errno = λ e w. refl;
      now-Quiet = λ w. record { same_incoming = refl; same_sent = refl };
      poll-Quiet = λ e t w. record { same_incoming = refl; same_sent = refl };
      usleep-Quiet = λ n w. record { same_incoming = refl; same_sent = refl };
      co_read-Reads = λ n w. record {
        counted = refl;
        bounded = (lawful.co_read-Reads n w).bounded;
        prefix = sym (take-append-drop n w.incoming);
        same_sent = refl;
      };
      read-Reads = λ n w. record {
        counted = refl;
        bounded = omega (arith, (lawful.co_read-Reads (drip n) w).bounded, drip_bounded n);
        prefix = sym (take-append-drop (drip n) w.incoming);
        same_sent = refl;
      };
      co_write-Writes = λ bs w.
          let r = lawful.co_write-Writes bs w in
          record {
            bounded = r.bounded;
            appended = r.appended;
            same_incoming = elim w.link as (λ b. (transmit b bs w).world.incoming ≡ w.incoming) [
              | alive ↦ refl
              | dying ↦ refl
              | dead ↦ refl
            ];
          };
    }

four_bytes : HeaderWhole trickle there (pos 7)
four_bytes w long = inl (ap pos (omega (arith, length-take 4 w.incoming, long)))

-- Nine of ten content bytes are still to come, and behind them the reply to the next request.
abbrev owing : Client
owing = record client { token = pos 8; health = set 1 content_read_some 10 }

abbrev rest : List ℕ
rest = 1 ∷ 2 ∷ 3 ∷ 4 ∷ 5 ∷ 6 ∷ 7 ∷ 8 ∷ 9 ∷ []

abbrev later : List ℕ
later = wire (documents.print replied) ++ 0 ∷ []

abbrev trickling : Machine
trickling = running (rest ++ later)

abbrev after_five : Machine
after_five = running (drop 5 rest ++ later)

abbrev owing_four : Client
owing_four = record owing { health = set 6 content_read_some 10 }

refused_once :
    check trickle (pos 7) (set 1 content_read_some 10) stack trickling
    ≡ ok (false, set 6 content_read_some 10, after_five)
unfolding check check_state check_loop pass state_machine advance set sub64 store_at
refused_once = refl

call_without_value :
    ((call trickle documents number_of "add" two_three stack stack owing trickling).client
      ≡ owing_four)
    × ((call trickle documents number_of "add" two_three stack stack owing trickling).world
        ≡ after_five)
unfolding call
call_without_value = rw (refused_once, call) (refl, refl)

one_refusal : Refusals trickle there documents number_of stack owing trickling owing_four after_five
one_refusal =
    refused "add" two_three stack refused_once
      (rw (call_without_value.0, call_without_value.1) (no_more owing_four after_five))

behind : Behind trickle there documents number_of stack 7 later owing trickling
unfolding set
behind = record {
  connected = refl;
  rest = rest;
  front = refl;
  owes = partly 1 10 (omega arith) (omega arith);
}

next_value :
    (call trickle documents number_of "add" two_three stack stack owing_four after_five).result
    ≡ ok (some (pos 5))
unfolding call check check_state check_loop pass state_machine advance set sub64 store_at send
    acquire make_request make_request_impl exchange dump frame after_write_header client_write
    report best_effort_write best_effort_template loop round after_poll transfer after_io store32
    swap32 load32 after_write client_read best_effort_read after_header read_content content_length
    after_content finish verify decode make_result take_result
next_value = refl

small_request :
    (token : ℤ) (x : Document)
    → acquire owing_four.token ≡ ok token
    → make_request documents token "add" two_three ≡ ok x
    → length (documents.print x) < 2 ^ 32
unfolding acquire
small_request token x e e' =
    let same : token ≡ pos 9 = ok-injective (sym e) in
    let made_same : request ≡ x =
      ok-injective
        (sym made ∙ ap (λ t. make_request documents t "add" two_three) (sym same) ∙ e') in
    subst (λ y. length (documents.print y) < 4_294_967_296) made_same (omega arith)

calls_realign_example :
    (called : Called trickle there documents number_of "add" two_three stack owing_four after_five
      (call trickle documents number_of "add" two_three stack stack owing_four after_five)
      (pos 5))
    × (called.checked.incoming ≡ later)
calls_realign_example =
    calls_realign trickle there documents number_of stack 7 later trickle-IsLawful four_bytes
      owing_four after_five "add" two_three stack stack-length behind one_refusal small_request
      next_value

abbrev head : List ℕ
head = take 4 (wire (documents.print replied))
