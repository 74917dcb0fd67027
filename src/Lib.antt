-- ===== src/Lib.antt =====
-- The RPC program trpc/: JSON-RPC 2.0 over TCP connections, with coroutines. A client sends one
-- frame per call and reads one frame back; a server serves each connection with a loop that reads a
-- frame, dispatches it to a bound function and writes a frame.
--
-- The parts, and the file that models each:
--   Base, Base/*      shared names, lists over the native numbers, machine integers and their bytes
--   Kernel            what the program calls of POSIX and of base/co: a record of operations, and
--                     the documented behaviour of a stream as laws
--   Json, Json/*      what it calls of base/vsjson: a record of operations, and the laws of a map,
--                     an array and a printer with its parser
--   Outcome           a value, an exception, or undefined behaviour; an exception that is no
--                     std::exception passes the server's catch clauses
--   Protocol          trpc/detail/protocol.h: fields, codes, exceptions
--   Codec, Codec/*    trpc/detail/Codec.h: frames (content_length, verify, frame, decode, dump) and
--                     the protocol half (report_error, prepare_net_call, fill_result_to_response);
--                     Buffer is a receiver's buffer with a frame in it, Network the byte order
--   Resolve/*         trpc/detail/resolve.h: make_request, make_empty_response, make_result
--   CallProxy/*       trpc/detail/CallProxy.h and FunctionTraits.h: dispatch of Json arguments to a
--                     typed function
--   BestEffort/*      trpc/detail/bestEffort.h: the loop around a read or a write; Loop has its
--                     invariant rule, Live and Prompt when it succeeds, Interval how long it waits
--   Health/*          trpc/detail/Health.h: the state machine that discards an abandoned response
--   TokenGenerator    trpc/detail/TokenGenerator.h
--   Endpoint          trpc/Endpoint.h
--   Client, Client/*  trpc/Client.h: `call` from the health check to the result; Connection has the
--                     construction, moving and connecting of a client, Pool the clients of a
--                     program as a state machine, Calls, Safe, Errors, Keeps and Live the whole call,
--                     Queue several calls in a row, Realigns and Abandons the calls after a
--                     response that was given up, Positions where each call leaves the stream
--   Server, Server/*  trpc/Server.h: `turn` is one pass of the loop of onAccept, `respond` the part
--                     between the two callbacks; Setup has the construction, init, make and start,
--                     Conversation, Queue and Stops the loop over many turns, Callbacks with any
--                     callbacks, Keeps and Locality what the loop keeps, Errno the member that all
--                     connections share
--   Interleaving, Interleaving/* one connection of a server among the other coroutines: a system
--                     that plays a schedule of their calls wherever the connection's own one waits;
--                     Others is the loop of another connection as such calls, Calls
--                     both ends of a connection
--   RoundTrip         the texts of both sides put together
--   Session, Session/* a call of a client and a turn of a server, at the two ends of a connection;
--                     Row several calls and as many turns
--   Tests, Tests/*    a small operating system and a small JSON library that obey the laws, and
--                     runs on them
--
-- Correspondence. A C++ function is a function of its object, its arguments and the
-- world; it returns its result, the object and the world after it. A function with early returns is
-- cut into one function for each stretch (`after_header`, `after_content`). A buffer on the stack is
-- a list of its size with unknown contents, and a transfer past its end is undefined behaviour.
-- Members of a class keep their names without the underscore in front.
--
-- Bounds. A frame's length is a 32-bit number, and htonl and ntohl reverse four bytes of a
-- little-endian machine. The loop of bestEffort recurs on the retries left and the loop of
-- Health::check on its countdown of 5, both as in the source, so neither needs fuel. `on_accept`
-- runs a given number of turns and says when it is not over.
--
-- Prompt connections. What comes about at all, and not only if the code returns, is stated for a
-- connection that is prompt (BestEffort.Prompt): as long as a world is Live, each system call takes a
-- window of the clock at most and leaves the world live, each poll reports an event, and each
-- transfer moves all that it is asked for or at least a chunk. The clock goes on for ever; what is
-- compared with a timeout are the calls of one transfer, three in each round of its retries (so 30
-- windows for a client and 18 for a server, and 3 for the wait for a first byte), and the retries
-- times the chunk are compared with the sizes. Among other coroutines each call may take a pause
-- more: what the others do before it. `incoming` is what the peer delivers from now on, so the
-- answer to a request that is still to be sent stands in it.
--
-- Several connections. base/co runs one coroutine at a time and switches in the calls that wait, so
-- what the others do in between is a list of system calls on other descriptors (Interleaving.Act,
-- Segment), and any list is allowed. The table and the callbacks of the server are taken as set up
-- before it starts; its errno is the one member that the loops write.
--
-- Not modelled. base/co and base/vsjson are copies of libraries of other repositories: they are
-- parameters with laws. A bound function (CallProxy.Callable, Server.Proxy) is a function of its
-- arguments to a value or an exception: one that waits, makes system calls or keeps a state is not
-- modelled. A callback may change the message and the world, so wait and make system calls, but
-- it neither throws nor changes the server it belongs to; test_unreliable.cpp has one that closes the
-- server. The coroutine that `start` makes for a connection is modelled by `on_accept` alone: its
-- creation and the close of the descriptor after the loop are left out. So are the sizes of time
-- values beyond their units and a call with no retry at all. The demonstration programs
-- test_client.cpp, test_server.cpp and test_unreliable.cpp only do input and output.
pub mod Base
pub mod Interleaving
pub mod Kernel
pub mod Outcome
pub mod Json
pub mod Protocol
pub mod Codec
pub mod Resolve
pub mod CallProxy
pub mod BestEffort
pub mod Health
pub mod TokenGenerator
pub mod Endpoint
pub mod Client
pub mod Server
pub mod RoundTrip
pub mod Session
mod Tests
