-- ===== src/Tests/Stops.antt =====
-- A connection of the server that the peer ends at once.
use t_rpc.Base.{◌≡◌, ◌≢◌, refl, [], store_at}
use t_rpc.Base.Word.{pos}
use t_rpc.BestEffort.{
  best_effort_read, best_effort_template, loop, round, transfer, after_io, interval, after_poll,
}
use t_rpc.Outcome.{ok}
use t_rpc.Server.{
  Server, on_accept, turn, stops, server_pending, server_read, after_header, bind, report,
}
use t_rpc.Server.Stops.{on_accept_stops}
use t_rpc.Tests.Calls.{stack}
use t_rpc.Tests.Documents.{documents}
use t_rpc.Tests.Machine.{machine, running}
use t_rpc.Tests.Replies.{adding}

abbrev stopped : Server machine documents
stopped = record adding { errno = 110 }

ends :
    on_accept machine documents 2 (pos 4) adding stack (running [])
    ≡ ok (stops stopped (record (running []) { clock = 7_000 }))
unfolding on_accept turn server_pending best_effort_template loop round bind after_poll transfer
    after_header store_at server_read best_effort_read after_io interval report
ends = refl

on_accept_stops_example : stopped.errno ≢ 0
on_accept_stops_example = on_accept_stops machine documents (pos 4) 2 adding stack (running []) ends
