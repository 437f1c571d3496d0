-- ===== src/Lib.antt =====
-- ServerLink is a messaging library in C++. A socket writes messages to one end of a pair of pipes, and
-- reads from all its pipes in turn; the engine of a connection reads at the other end, and the encoder
-- makes frames of the messages. On the way in the decoder makes messages of the bytes that arrive, and
-- the engine hands them on to the pipe, after a handshake in which each peer tells the other its type.
-- A socket that publishes writes to many pipes at once. Sockets, sessions and the rest are objects that
-- own one another and go in order. Beside this, the monitor keeps statistics of the peers, timers run
-- handlers, and the SPOT layer keeps topics and subscriptions, by name or by pattern.
--
-- Prelude: tests on numbers, lists, dictionaries as association lists, and C++ ints.
-- Wire: src/protocol/wire.hpp, function by function.
-- Msg: what src/msg/msg.hpp and msg.cpp keep of a message: flags, body, and whether it is the delimiter
--   of a pipe. Sharing of the content and reference counts are not modelled.
-- Protocol: the frames of ZMTP 2 and 3.1.
--   Header: `message_ready` of src/protocol/v2_encoder.cpp and v3_1_encoder.cpp.
--   Encoder: `load_msg` and `encode` of src/protocol/encoder.hpp. One call takes at most four rounds
--     of its loop, which is the fuel; Batches, Calls and Sending show that it is enough.
--   Decoder: src/protocol/decoder.hpp and v2_decoder.cpp. At most two actions follow one another without
--     input, so a fuel of four is enough; the copying loop uses a byte in each round. Where a message
--     is stored, and the zero-copy buffer, are not modelled.
--   Chunks, Stream: the input loop of src/protocol/stream_engine_base.cpp over the decoder, with a
--     session that accepts every message.
--   Frame, Roundtrip: what is encoded, decoded again.
-- Pipe: src/pipe/pipe.hpp and pipe.cpp over the queue of src/util/ypipe_base.hpp, which is the interface
--   YpipeBase. Endpoint, Transfer and Term have the operations of one end, on explicit state; the
--   commands to the peer and the calls of the event sink are a list in the state. A failed assertion
--   is `none`. The loops that empty a queue have its size as fuel (Fuel).
--   Credit: flow control. Handshake, Ops, Ends: termination at one end. Pair, Closing: the two ends together,
--     with every interleaving; commands are delivered in order, as src/core/object.cpp and the mailboxes
--     do.
-- Ypipe: src/util/ypipe.hpp, with positions for pointers, as an instance of YpipeBase (Base) and against
--   the queue that it stands for (Fifo). The memory of src/util/yqueue.hpp is not modelled, and an
--   operation is one step, since each touches the shared pointer once.
-- Fq: src/pipe/fq.cpp over src/core/array.hpp. The pipes are numbers, their answers a parameter; a round
--   of a loop uses up an active pipe, so their number is the fuel.
-- Dist: src/pipe/dist.cpp over src/core/array.hpp, by which a message goes to many pipes. A round of the
--   loop that writes moves on or leaves a pipe less, so the number of matching pipes is the fuel. Slots
--   has the exchanges in the array; in Delivery the writes are recorded beside what the pipes keep.
-- Auth: src/auth/mechanism.cpp and null_mechanism.cpp. The properties of a socket are made into bytes
--   (Auth), read back (Parse; a round takes two bytes or more, so the length is the fuel), and
--   exchanged by two peers (Exchange, Compat, Null).
-- Glob, Patterns: src/pattern/glob_pattern.cpp and pattern_trie.cpp. Compiling takes a character in each
--   round, so the length of the pattern is the fuel (Escape).
-- Trie: src/pipe/trie.cpp. A node has its table of children (Tables, Cuts), and a table of one child, which
--   the source keeps without a table, is a table of one place. Refs reads the trie as a count for each
--   prefix; Growth, Shrink, Removal and Lookup follow the operations. They are structural in the prefix.
-- Xsub: src/core/xsub.cpp over Trie and Patterns: the subscriptions of a socket, the commands that it passes
--   on (Upstream), the filter of what it receives (Filter), and receiving (Receive), whose loop goes on
--   as long as messages come that do not match, and so has its fuel as an argument.
-- Peers: what a socket uses of its pipes, as an interface, with laws on their ids and on how much waits to be
--   read. The sockets below take it as an instance argument. Pipes is the instance: ends of Pipe over any
--   YpipeBase, with the ids that the socket gives them.
-- Router: src/core/router.cpp with `routing_socket_base_t` of src/core/socket_base.cpp. Table is the map from
--   ids to pipes, Send and Receive the two directions, Settings the options; pipes are numbers, times arguments,
--   and a failed assertion is `none` or `broken`. The loop that skips routing ids, and `xrecv`, which can
--   call itself, have the measure of what waits as fuel (Replies). Routing is about where parts
--   go; Peerage, Identity, Invariant, Steps, Others and Runs about the ids of the peers.
-- Xpub: src/core/xpub.cpp and pub.cpp. Table has the operations that it uses of src/pipe/mtrie.hpp, a
--   parameter of which nothing is assumed; Send chooses the pipes by Dist. The loop that reads requests has
--   the measure of what waits as fuel (Requests). Closing is about pipes that end, Settings has the options.
--   Metadata and SL_TOPICS_COUNT are left out.
-- Options: src/core/options.cpp with the codes of src/util/constants.hpp, on byte strings.
-- Own: src/core/own.cpp, with the commands of src/core/object.cpp that it handles. The state is that of
--   one object; a run is a sequence of calls and commands that reach it (Ownership, Acks). Wraps is about
--   the widths of its counters.
-- Timers: src/util/timers.cpp. A call of `execute` has the fuel as an argument; Execute has how much is
--   enough, Idle when none is.
-- Monitor: src/monitor/peer_stats.hpp, connection_manager.cpp, heartbeat.cpp and event_dispatcher.cpp. The
--   lock makes an operation one step.
-- Spot: src/spot/topic_registry.cpp and subscription_manager.cpp. The lock makes an operation one step.
-- Examples: runs of all of these on small inputs.
--
-- Not modelled: the pair socket and the command loop of the sockets, sessions, the greeting, the inside of the
-- trie that keeps pipes, the SPOT nodes, timer handlers that use the timers themselves, and what calls the
-- operating system (transports and pollers).
pub mod Prelude
pub mod Wire
pub mod Msg
pub mod Protocol
pub mod Pipe
pub mod Ypipe
pub mod Fq
pub mod Dist
pub mod Auth
pub mod Glob
pub mod Patterns
pub mod Trie
pub mod Xsub
pub mod Peers
pub mod Router
pub mod Xpub
pub mod Options
pub mod Own
pub mod Timers
pub mod Monitor
pub mod Spot
pub mod Examples
