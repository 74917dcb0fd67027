-- ===== src/Tests/Calls.antt =====
-- Runs of Client::call and of turns of the server on the small operating system.
use t_rpc.Base.{
  take, ◌≤◌, inr, ℕ, ◌+◌, ◌<◌, ◌≡◌, ◌≢◌, ◌⊎◌, refl, false, List, [], ◌∷◌, ◌++◌, length, replicate,
  arith, some, none, store_at,
}
use t_rpc.Base.Word.{pos, minus_one, store32, swap32, load32}
use t_rpc.BestEffort.{
  best_effort_read, best_effort_write, best_effort_template, loop, round, transfer, after_io,
  after_poll,
}
use t_rpc.Client.{
  Client, buf_size_on_stack, socket_invalid, exchange, client_write, client_read, report,
  after_write_header, after_write, after_header, read_content, after_content, finish,
}
use t_rpc.Client.Answers.{Answered, exchange-Answered}
use t_rpc.Client.Sends.{exchange_whole_or_closed, exchange_keeps_open}
use t_rpc.Codec.{header_size, content_length, verify, frame}
use t_rpc.Codec.Framing.{wire}
use t_rpc.Codec.Messages.{decode, dump}
use t_rpc.Health.{initial}
use t_rpc.Outcome.{ok, throws, undefined, std_exception}
use t_rpc.Protocol.{jsonrpc_field, id_field, version}
use t_rpc.Resolve.{make_result, take_result}
use t_rpc.Server.{
  read_content as serve_content, report as server_report, server_read, after_request,
}
use t_rpc.Server.Turns.{read_content_overruns, after_request_malformed}
use t_rpc.Tests.Documents.{
  Document, documents, view, documents-IsLawful, number, label, entries, number_of,
}
use t_rpc.Tests.Machine.{Machine, machine, streams, running, breaking, machine-IsLawful}
use t_rpc.Tests.Replies.{request, replied, empty_server}

abbrev pub stack : List ℕ
stack = replicate buf_size_on_stack 0

pub stack-length : length stack ≡ buf_size_on_stack
stack-length = refl

abbrev pub client : Client
client = record { socket = pos 7; timeout = 1000; errno = 0; token = pos 9; health = initial }

-- The reply that 2 and 3 add up to is on its way.
abbrev pub waiting : Machine
waiting = running (wire (documents.print replied))

pub five :
    (exchange machine documents number_of stack request client waiting).result ≡ ok (some (pos 5))
unfolding exchange dump frame after_write_header client_write report best_effort_write
    best_effort_template loop round after_poll transfer after_io store32 swap32 load32 after_write
    client_read best_effort_read after_header store_at read_content content_length after_content
    finish verify decode make_result take_result
five = refl

exchange-Answered_example :
    Answered machine streams documents number_of
      (pos 7)
      (wire (documents.print request))
      waiting
      (exchange machine documents number_of stack request client waiting)
      (pos 5)
exchange-Answered_example =
    exchange-Answered machine streams documents number_of machine-IsLawful stack stack-length client
      waiting request (omega arith) five

written :
    (client_write machine
      (store32 (frame (documents.print request)).2)
      header_size
      client
      waiting).ret
    ≢ minus_one
unfolding frame client_write report best_effort_write best_effort_template loop round after_poll
    transfer after_io store32 swap32
written e = cc

exchange_whole_or_closed_example :
    let d = exchange machine documents number_of stack request client waiting in
    (d.client.socket ≡ socket_invalid)
    ⊎ (d.world.sent ≡ waiting.sent)
    ⊎ (d.world.sent ≡ waiting.sent ++ wire (documents.print request))
exchange_whole_or_closed_example =
    exchange_whole_or_closed machine streams documents number_of machine-IsLawful stack client
      waiting request (omega arith) written

abbrev header : List ℕ
header = store32 (frame (documents.print request)).2

write_failed : (client_write machine header header_size client breaking).success ≡ false
unfolding client_write report best_effort_write best_effort_template loop round after_poll transfer
    after_io store32 swap32
write_failed = refl

write_reported : (client_write machine header header_size client breaking).ret ≡ minus_one
unfolding client_write report best_effort_write best_effort_template loop round after_poll transfer
    after_io store32 swap32
write_reported = refl

two_sent : (client_write machine header header_size client breaking).world.sent ≡ take 2 header
unfolding client_write report best_effort_write best_effort_template loop round after_poll transfer
    after_io store32 swap32
two_sent = refl

exchange_keeps_open_example :
    let d = exchange machine documents number_of stack request client breaking in
    (d.result ≡ ok none)
    × (d.client.socket ≡ pos 7)
    × (count : ℕ) × (count ≤ header_size)
    × (d.world.sent ≡ breaking.sent ++ take count header)
exchange_keeps_open_example =
    exchange_keeps_open machine streams documents number_of machine-IsLawful stack client breaking
      request write_failed write_reported

pub no_value : (exchange machine documents number_of stack request client breaking).result ≡ ok none
no_value =
    (exchange_keeps_open machine streams documents number_of machine-IsLawful stack client breaking
      request write_failed write_reported).0

-- A header that announces 20000 bytes, at the front of a full buffer.
abbrev announced : List ℕ
announced = 0 ∷ 0 ∷ 78 ∷ 32 ∷ replicate 16380 0

announced_length : length announced ≡ buf_size_on_stack
announced_length = refl

abbrev flood : Machine
flood = running (replicate 20000 0)

too_many :
    buf_size_on_stack
    < header_size
      + length
          (server_read machine documents
            (pos 4)
            (content_length announced header_size).1
            empty_server
            flood).bytes
unfolding server_read server_report best_effort_read best_effort_template loop round after_poll
    transfer after_io content_length swap32 load32
too_many = omega arith

read_content_overruns_example :
    serve_content machine documents (pos 4) announced empty_server flood ≡ undefined
read_content_overruns_example =
    read_content_overruns machine documents (pos 4) empty_server flood announced announced_length
      too_many

-- A request without a method.
abbrev nameless : Document
nameless = entries ((jsonrpc_field, label version) ∷ (id_field, number (pos 9)) ∷ [])

after_request_malformed_example :
    after_request machine documents (pos 4) stack empty_server waiting nameless
    ≡ throws std_exception
after_request_malformed_example =
    after_request_malformed machine documents (pos 4) empty_server waiting stack view
      documents-IsLawful nameless refl (record { object = tt; lacks = inr (pos 9, refl, refl) })
