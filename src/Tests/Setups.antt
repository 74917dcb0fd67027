-- ===== src/Tests/Setups.antt =====
-- Runs of Client::make and Server::make on the small operating system.
use t_rpc.Base.{◌≡◌, refl, some, []}
use t_rpc.Base.Word.{pos}
use t_rpc.Client.{Client}
use t_rpc.Client.Connection.{construct, make_connected}
use t_rpc.Client.Ownership.{make_connected_owns}
use t_rpc.Kernel.{SockAddr}
use t_rpc.Server.{Server}
use t_rpc.Server.Ownership.{make_owns}
use t_rpc.Server.Setup.{make, construct as construct_server}
use t_rpc.Tests.Documents.{documents}
use t_rpc.Tests.Machine.{machine, running}

abbrev local : SockAddr
local = record { sin_family = 2; sin_addr = 16777343; sin_port = 36895 }

-- The client and the server that come out of it.
abbrev connected : Client
connected = record (construct (pos 1)) { socket = pos 3; token = pos 3 }

abbrev listening : Server machine documents
listening = record (construct_server machine documents local) { fd = pos 3 }

make_connected_owns_example :
    make_connected machine local (pos 1) (pos 2) (pos 3) (running []) ≡ (some connected, running [])
make_connected_owns_example =
    make_connected_owns machine 3 local (pos 1) (pos 2) (pos 3) (running []) (running []) refl refl

make_owns_example : make machine documents local (running []) ≡ (some listening, running [])
make_owns_example =
    make_owns machine documents 3 local (running []) (running []) (running []) (running []) refl
      refl refl
