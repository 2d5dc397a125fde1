-- ===== src/Lib.antt =====
-- Niceperf, a set of tools that measure networks (Rust): `ping` measures round trips over ICMP, UDP and
-- TCP, `throughput` has the options of a bandwidth test, `latency` sets up tests between two hosts over a
-- QUIC control channel, and `common` has the sockets, statistics and log files that they share.
--
-- The parts and their files. A name of the source keeps its words: `UDPServer::run` is `run` of
-- Ping/Udp, `TestDirection::from_str` is `from_str` of Throughput/Direction.
--   Prelude             bytes and lists over the native numbers, results with a panic (`Outcome`),
--                       machine words in a debug and a release build (`Words`), `parse::<u64>`, a network
--                       (`Network`).
--   Throughput/Bandwidth, Throughput/Direction
--                       throughput/src/args.rs: `Bandwidth`, `TestDirection` and their `from_str`.
--   Throughput/Args     the options, and `main` of throughput/src/main.rs.
--   Common/Os           the operating system: a call is answered by a parameter that sees the calls
--                       made before, and a run keeps the trace of the accepted calls.
--   Common/Sockets      common/src/lib.rs: `ICMPSocket`, `UDPSocket`, `TCPSocket`, `new_tcp_socket`,
--                       `bind_to_device`. Setup compares them with plans of calls, Configured says what
--                       options the socket has then, Raw has `from_raw_socket`, `get_stats` and
--                       `AsyncICMPSocket`.
--   Common/Interfaces   `interface_to_ipaddr`, over the interfaces that are listed.
--   Common/Statistics   `Statistics`, over a record of the operations of f64; Bounds has the count
--                       and the extremes, Moments the mean and the variance where nothing is rounded.
--   Common/Logger       `Logger`, and the header and rows of `#[derive(Logging)]`
--                       (logging-derive/src/lib.rs): Columns, and what the file holds (Rows).
--   Common/Quic         `configure_server`, `configure_client`, `new` of `QuicServer` and `QuicClient`,
--                       `connect` and the verifier, with whether the signature of a handshake verifies as an input; Certificate has the two files of the certificate.
--   Ping/Args, Ping/Logger, Ping/Task
--                       ping/src/args.rs, ping/src/logger.rs; errors and byte slices of the tasks.
--   Ping/Icmp           ping/src/icmp.rs: the checks of `run` (Prepare), the send task (Send), the
--                       receive task (Receive).
--   Ping/LogTask        the log reader, which is the same in the three clients; Whole has its log of a
--                       series of results.
--   Ping/Echo           the packet, the send loop and the answer that ping/src/udp.rs and
--                       ping/src/tcp.rs share; Sent has the packets of a loop.
--   Ping/Udp            ping/src/udp.rs: the receive task (Client), `UDPServer` (Server) and the socket
--                       that it opens for each client (ClientSocket).
--   Ping/Tcp            ping/src/tcp.rs: the receive task (Client), `client_handler` (Server) and the
--                       accept loop of `TCPServer` (Accepting).
--   Ping/Session        the tasks of a client with those of its server, or with a host that answers, over
--                       a network (Prelude/Network) that loses, repeats and reorders packets, or over
--                       a TCP connection that may end early. OverIcmp, OverUdp and OverTcp follow the
--                       packets there and back, with Answers for what comes to an ICMP client and
--                       UdpReplies for a UDP server; Genuine says what a result has to do with a
--                       packet, Answered (ICMP), Logged (UDP) and InOrder (TCP) have the log.
--   Ping/Start          `new` of the clients and servers: the source address, the socket and the log
--                       file. Configured says what options the socket has then.
--   Ping/Main           ping/src/main.rs, and `run` of the clients as a whole: of its two tasks the one
--                       that ends first decides. Silent has a client that fails without an error.
--   Latency/Args, Latency/Protocol
--                       latency/src/args.rs, latency/src/protocol.rs.
--   Latency/Conn        latency/src/conn_types.rs: `UdpLatency`, `ConnRunner`, `ConnCtx`. Peers has
--                       whom a connection talks to, Serving what it does and what ends it, Relay
--                       what comes from the one side's task to the other's.
--   Latency/Runner      latency/src/test_runner.rs: `TestRunner::setup` on either side. State has the
--                       runner, Link two sides that shake hands as a step relation, Stages how far
--                       they have come, Negotiation the opening before, Ready and Setup what a ready
--                       runner has heard, Silence the timer and the timeout of a client.
--   Latency/Test        `TestRunner::run` and `handle_msg`; Loop has what a test sends and counts.
--   Latency/Session     a whole test: the runners of both sides (Sides), the tasks of their connections
--                       (Tasks) and the network between them (Whole).
--   Latency/Control     latency/src/main.rs: `main`, `client`, `CtrlClient`, `CtrlServer`; Shutdown has
--                       how a server ends, Start what a client without a certificate does.
-- The files named Runs, and Ping/Session/Pings, have the tests and concrete runs.
--
-- How the parts interact. A client makes its socket with `common`, checks its options, and starts three
-- tasks: the send task stamps and sends packets, the receive task turns what comes back into results,
-- and the log reader takes these over a channel, writes them and keeps the statistics. In `latency` the
-- control server and client each start a runner on their end of a QUIC stream; `setup` agrees on a
-- configuration over it, starts the task of the data connection, and sends a handshake over that, which
-- comes back on the control stream; `run` then sends packets until it is stopped.
--
-- The model. A task is a function of what the clock, the socket and the channel answer, as a list of
-- rounds or events; it ends with a result, an error or a panic, or still waits when the list is over.
-- Loops are recursion on that list, so no fuel is needed. A timer of period 0 panics where it is made,
-- and a result that the log reader no longer takes ends the receive task with an error. Numbers are
-- natural numbers; sums and casts wrap where the source's types do, products and differences panic in a debug build and wrap in a
-- release build. Bytes are lists of numbers. An IP address is a number, of one family or the other.
--
-- In Link the server's answers arrive in order and one at each read, and a packet of the client may be
-- lost, late or repeated; the server's ten seconds may pass before one has come. Those of the client are
-- put off by each tick of its timer, which Silence is about. Writes and sends succeed there; what comes
-- of one that fails is in `negotiate` and `round`. A control message is read into 1024 bytes in the
-- setup and 65535 in the test, and what does not fit is cut off.
--
-- Parameters. The operating system's answers, the operations of f64, `etherparse` and `bincode`. What is
-- assumed of them stands in the theorems: a packet whose fields fit their types has an encoding, and it
-- is read back (`IsBincode`); the header of an echo reply is read as such, with the payload behind it
-- (`IsReply`), and a host answers a request with such a reply (`IsHost`); a control
-- message is read back (`IsCodec`); `min` and `max` of f64 are the bounds of an order on the values
-- that are not NaN (`IsOrdered`); no step of a run rounds (`AllExact`), as exact numbers (`Semiring`)
-- measure it. Concrete functions in the Runs files, Ping/Echo/Plain and Ping/Icmp/Plain meet these laws.
--
-- Not modelled: the text of printed lines, `XDPing` and the scripts. The calls of quinn,
-- rustls, rcgen, syn, serde and clap are inputs or parameters.
pub mod Prelude
pub mod Throughput
pub mod Common
pub mod Ping
pub mod Latency
