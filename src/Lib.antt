-- ===== src/Lib.antt =====
-- A model of the core of the FIX engine: what it reads from and writes to the wire, the session's
-- state machine, the engine that joins them, the server and client that run it, FIXT sessions, the
-- cluster node that replicates sessions, repeating groups, the dictionary compiler, and what they
-- stand on: transports, the vector search, timestamps, the buffer pool and the journal.
--
-- Parts and files (paths from the repository's root):
--   Tags        src/tags.rs: the tag numbers and the delimiter bytes.
--   Checksum    src/checksum.rs: compute, format and validate.
--   Message     src/message.rs: the view that the parser fills (MessageView, FieldEntry), get_field
--               and the number parsers; Message/Enums has MsgType, Side and OrdType.
--   Serializer  src/serializer.rs: FixSerializer with its writers and finalize; Serializer/Build
--               has the convenience functions, Serializer/Contract what a call promises.
--   Parser      src/parser.rs: FixParser::parse and find_message_boundary.
--   Session     src/session.rs: Session with every method.
--   Fixt        src/fixt.rs: FixtSession, which wraps a Session, its negotiation of the application
--               version and the check of a message's version.
--   Engine      src/engine.rs: FixEngine with its sends and the dispatch by message type;
--               Engine/Loop has the inner loop over the receive buffer and run_loop, Engine/Context
--               what a callback may do with its context, Engine/Timer turns of the timer.
--   Timestamp   src/timestamp.rs: HrTimestamp with its calendar fields and prints, HrClock and
--               LatencyTracker; Timestamp/Calendar is the calendar that they are compared to.
--   Pool        src/pool.rs: BufferPool with its free list and TieredPool; Pool/Threads has the
--               atomic steps of an allocation.
--   Journal     src/journal.rs: the entries in the mapped bytes, their checksum, session_hash.
--   Cluster     src/cluster.rs: ClusterNode with elections, log, snapshots; Cluster/Codec has the
--               encoding of a session state.
--   Acceptor    src/acceptor.rs: the pool of connection slots, with its types in Acceptor/Pool. A
--               reference that a method hands out for changes is the change that is made.
--   Groups      src/groups.rs: RepeatingGroup::parse, which calls itself for nested groups, the
--               accessors and the standard groups.
--   Search      src/simd.rs: find_soh, count_fields and find_equals with the loops of the SSE2 and
--               NEON builds and of the scalar one.
--   Server      src/server.rs and src/client.rs: handle_connection, from the first read to the
--               release of the connection, and connect_and_run.
--   Dictionary  src/dict_compiler.rs: the compiled dictionary with its index, lookups and
--               validation; Dictionary/Scan and Dictionary/Compile have from_xml,
--               Dictionary/Standard the table of src/dictionary.rs.
--   Transport   src/transport.rs: the configuration and build_transport; src/transport_aeron.rs: the
--               endpoints and their buses; Transport/KernelTcp has the stub of a kernel socket.
--   Base        shared names and lemmas; Decimal, the decimal digits that the loops are compared to.
-- The children of a part hold its lemmas and are named for what they prove; Tests holds its runs.
--
-- How the code is translated. A method on `&mut self` takes the state and returns the new one, with
-- the result behind it where there is one. Bytes are numbers below 256 in a list; a machine integer
-- is a natural number, and wraps at its width where the release profile lets it. An access outside a
-- slice, which panics, is the outcome `panics`. Signed numbers are their 64-bit patterns. Clocks
-- are arguments in nanoseconds. Strings of the cluster are their bytes, and the test for UTF-8 is
-- a parameter. The engine's transport is a function that says which sends succeed and the list of
-- what recv gives; the application is a record of callbacks on a state of its own, which may change
-- the session; the clocks are functions of the number of the reading. The map of the journal is a
-- list of bytes, with the header as a little-endian machine lays it out, and the result of a flush
-- is an argument. The free list of the pool is the list of the links.
-- The vector instructions are a record of functions with their documented laws on the sixteen
-- lanes. A connection of the server is what its reads give; what other threads do with the shared
-- acceptor while an engine runs is a function. A shared pointer to a bus is the bus's channel in the
-- registry. A loop of the dictionary compiler over `section[pos..]` keeps that suffix.
--
-- How the parts interact: the serializer calls Checksum for the trailer, the parser calls
-- Checksum.validate and fills a view of Message, the cluster stores session states by name, the
-- acceptor opens a Session for each connection. The engine takes messages off its buffer by the
-- parser's find_message_boundary, parses them, moves its Session, and answers with what the
-- serializer builds, stamped by Timestamp. A FIXT session reads its version from a parsed view.
-- A group is parsed from the fields of a view. The server reads a Logon with the parser, asks the
-- acceptor for a connection, runs an engine and releases the connection.
--
-- Fuel: the parser's field loop takes the number of bytes of the buffer as its fuel; every round
-- takes two bytes at least, so the bytes run out first. The digit loops take the size of their
-- scratch array, and stop with a panic below its start as the code does. The engine's inner loop
-- takes the length of its buffer; every turn takes a message of at least eight bytes off it. The
-- outer loop goes over the events of the transport, and where they run out with the session going
-- on it waits, which is told apart from a loop that has returned. A group takes the height of its definition as the
-- depth of its recursion, and the number of fields for the loop over an entry. The vector loops take
-- the length of the buffer; a turn passes sixteen bytes. The loops of the dictionary compiler take
-- the length of their text, and a turn consumes a byte at least. All other loops recurse on the
-- bytes they read, or on their own counter.
--
-- Not modelled: the sockets of src/transport_tcp.rs and the driver of src/transport_dpdk.rs, the
-- listener and the threads of the server, the files and flushes of the journal, which do input and
-- output; the retries of an exchange in the pool, which start an allocation again; the metrics, the
-- dashboard, demonstrations and benches.
pub mod Base
pub mod Acceptor
pub mod Tags
pub mod Timestamp
pub mod Fixt
pub mod Pool
pub mod Dictionary
pub mod Transport
pub mod Groups
pub mod Search
pub mod Server
pub mod Journal
pub mod Engine
pub mod Checksum
pub mod Decimal
pub mod Message
pub mod Serializer
pub mod Parser
pub mod Session
pub mod Cluster
