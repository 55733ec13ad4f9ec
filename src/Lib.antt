-- ===== src/Lib.antt =====
-- A model of anytls, a proxy protocol that multiplexes streams over one TLS connection and hides the
-- sizes of its packets by padding, with what makes it correct.
--
-- The parts of the program and how they interact. A client keeps a pool of idle sessions and opens
-- streams on them; a session owns a connection, writes frames through one writer task, and cuts what
-- it receives into frames that the engine turns into actions on the session's streams.
--
-- - Common: the shared names, Boolean tests and lists over the native numbers, maps in insertion
--   order, big-endian words, and `std::io::Error` as a value. Text is the list of its bytes.
-- - Core (src/core): Core/Frame (frame.rs), Core/StringMap (string_map.rs), Core/Padding (padding.rs),
--   Core/State (state.rs) and Core/Engine (action.rs, engine.rs). The engine's two functions are
--   functions from a state and a frame to a state and a list of actions. Core/Text holds the
--   functions of Rust's standard library on text that these use.
-- - Runtime (src/runtime/mod.rs): Runtime/Writer is the writer task. The connection is a record of
--   two tests, which say whether a write or a flush succeeds after the writes before it.
-- - Proxy (src/proxy): Proxy/Receive cuts what a session receives into frames, Proxy/Session is the
--   table of streams (session/inner.rs, session/stream.rs), Proxy/Session/Actions what the runtime does
--   to it for a frame (src/runtime/mod.rs), Proxy/Pipe the pipe behind a stream (pipe/io_pipe.rs), and
--   Proxy/Pool and Proxy/Client the idle pool and the client of session/client.rs.
-- - Uot (src/uot/mod.rs): UDP packets in a stream; the address codec is a parameter.
-- - Panel (src/panel_sync): Panel/TrafficAudit counts the traffic of each client (traffic_audit.rs), and
--   Panel/Sync takes the clients from the panel and reports their traffic to it (core.rs). The HTTP
--   client and the readers of JSON are parameters.
-- - Node (src/node_api): Node/Users has the counters and limits of a user, Node/Registry the set of users
--   and its replacement (users.rs); Node/Api is the management API (api.rs). Entries live in a store of
--   handles, since connections share them.
-- - Url (src/util/parse_url.rs): a configuration written as an anytls URL and read from one. The crates
--   that read and encode URLs, identifiers and socket addresses are parameters; Url/Zone states what
--   the round trip takes from them.
-- - Server (bin/server.rs): Server/Preamble has the first bytes of a connection, as the client writes
--   them (src/client_runner.rs) and as the server reads them; Server/Connection what the server does
--   with a connection until it runs a session on it, Server/Outbound the relay of one that is not let in to
--   an outside server, Server/Relay the two loops between a stream and
--   its target as a step relation, and Server/Packets the rounds of a session and of a relay of UDP.
-- - Runner (src/client_runner.rs): Runner/Config has the settings of a client from its URL and its
--   arguments, Runner/Sniff the test of the first bytes of a local connection, Runner/Mitm the way
--   through an HTTP proxy, Runner/Associate the relay of UDP packets for a SOCKS5 client.
-- - Examples: the theorems at concrete inputs.
--
-- Loops are structural, or on fuel where the source has `while let`: a round of the receive loop
-- takes seven bytes at least, so the length of the bytes is enough, a read that is not at the end
-- gives a byte, so that the size of a buffer is enough to fill it, and a round of the loop that
-- reuses a session removes an entry of the pool. Numbers are natural numbers with the wrap of a
-- machine word written out. The digest of a scheme, the random draws and the order in which a hash
-- map lists its entries are parameters.
--
-- A relay's steps are its own: no other connection changes the user's counts between them.
-- Calls on a session run to their end before another task touches the table, but that a stream of the peer
-- may be put into it any time after the tests of `create_incoming_stream`. A client may be closed while it
-- dials; else its calls are whole. A read of a connection gives bytes or its end, and does not fail.
-- A relay of UDP packets is followed up to the first round in which another branch of its `select!` wins
-- while a read of a packet has taken bytes, which are lost then.
--
-- Not modelled: TLS and socket I/O, the command line, certificates, logging. Tasks are taken as
-- sequences of steps under the locks that the source holds.
pub mod Common
pub mod Core
pub mod Runtime
pub mod Proxy
pub mod Uot
pub mod Panel
pub mod Node
pub mod Url
pub mod Server
pub mod Runner
pub mod Examples
