-- ===== src/Lib.antt =====
-- pybmpmon listens for BMP (RFC 7854), the protocol by which routers report their BGP sessions.
-- A connection's bytes are cut into BMP messages and parsed; a Route Monitoring message carries
-- a BGP UPDATE, which is parsed in its turn into routes. The listener hands these to a batch
-- writer, which writes them to a database, keeps the table of peers there, and counts what it
-- does per peer.
--
-- Utils.Binary is src/pybmpmon/utils/binary.py, the reads of numbers, bytes and addresses. Bytes
-- are a list of numbers; a call returns a `Result`, whose errors are the exceptions of the code,
-- and `except ValueError: raise` is `on_value_error`. An address is kept as its bytes.
--
-- Protocol.Bmp is src/pybmpmon/protocol/bmp.py. Protocol.BmpParser is
-- src/pybmpmon/protocol/bmp_parser.py: Header has parse_bmp_header and parse_per_peer_header,
-- Tlvs the loops over information and statistics TLVs, Messages the parser of each type of
-- message and parse_bmp_message, which calls the parser that the header names. Each parser reads
-- the header again, as the code does. Wire describes the formats of RFC 7854 independently;
-- HeaderRoundTrip, PeerHeaderRoundTrip, TlvsRoundTrip, MessageRoundTrip, PeerUpRoundTrip and
-- ReportRoundTrip relate the parsers to it. Exceptions says what is raised, Kind which message
-- is returned.
--
-- Protocol.Bgp is src/pybmpmon/protocol/bgp.py. Protocol.BgpParser is
-- src/pybmpmon/protocol/bgp_parser.py: Structure has the BGP header, the path attributes and the
-- parts of an UPDATE, and Prefixes, AsPath, Communities, Evpn and Multiprotocol each the parser
-- of one kind of content. Update is parse_bgp_update: its local variables are the record
-- `Fields`, each attribute is a step on it, and an attribute that raises leaves it as it was,
-- since every branch of the code raises before it assigns. Wire describes the formats of RFC
-- 4271 and RFC 4760 independently. AttributesRoundTrip, StructureRoundTrip, PrefixesRoundTrip,
-- AsPathRoundTrip, CommunitiesRoundTrip and UpdateRoundTrip relate the parsers to it,
-- AsPathGuess is about the guess of the size of an AS number, Exceptions, AttributeExceptions
-- and UpdateTotal say what is raised, AttributesEnd what is collected of the attributes,
-- UpdateLaws what an UPDATE is made into.
--
-- Monitoring is src/pybmpmon/monitoring/stats.py. PeerStats has the counters of a peer,
-- Collector the dict of them with its methods, an association list in the order of insertion,
-- and one round of the loop that logs and resets the counters. CollectorLaws and Counts are
-- about sequences of calls and rounds. A method that changes an object in the dict is a function
-- on the dict. Lifecycle has the collector's start and stop. Sentry is
-- src/pybmpmon/monitoring/sentry_helper.py: what the module keeps of the SDK, and what its
-- functions log and send, as values; Logger is src/pybmpmon/monitoring/logger.py.
--
-- Models is src/pybmpmon/models: the rows of routes, of peers and of their events.
--
-- Database is src/pybmpmon/database. Tables has the tables as lists. BatchWriter is
-- batch_writer.py: each method as a function on the fields of the object and the tables, with
-- the answer of the database as an argument, which says how far a flush gets. Its Laws and
-- Delivery are about sequences of calls, each run to its end; Schedule has the flush across its
-- awaits, as a step relation between handlers and flushes. Shutdown has stop with the periodic
-- task, which it cancels in its sleep or in a flush, and Counting compares get_stats with the
-- table. Operations is operations.py, a function on the tables for each statement, by the
-- documented behaviour of its SQL. RouteState is the stored function update_route_state of
-- src/pybmpmon/database/migrations/005_add_route_state_tracking.sql, whose calls the batch
-- writer's model keeps in order; Keys has what its WHERE clauses compare. Migrations is
-- migrations.py: Files reads the names of files and sorts them, Runner has the pending
-- migrations and the run; FilesLaws, RunnerLaws, RunLaws and Rerun are about them. SHA-256 and
-- the effect of a migration's SQL are parameters; the second run is looked at under the
-- hypothesis that this SQL leaves the rows of schema_migrations as they are. Connection is
-- connection.py: MacAddress the codec of MAC addresses, MacRoundTrip its law, Pool the pool and
-- the global variable that keeps it, with what asyncpg answers as an argument.
--
-- Listener is src/pybmpmon/listener.py. Routes makes a route of each prefix of an UPDATE.
-- Service has the objects that a handler changes (collector, batch writer, database), and
-- actions on them that may raise, where what was changed stays changed; clock, refusals and
-- answers of the database are a parameter, read at a counter of the calls. Handlers has the
-- handler of each message type, and Connection `_handle_connection`, from the bytes that the
-- peer sends to the removal of its counters. Framing, Lifetime, ErrorCounts, RouteLaws,
-- RouteFlow and UpdateFlow are about it; HandlerLaws carries a predicate on the counters through
-- a handler, NoEndlessLoop that it ends. Handlers of different connections run one after the
-- other there. Sessions has the tasks and start times that are kept of connections, which
-- overlap, and Reports what is logged and sent to Sentry of a message that fails. Run is
-- run_listener with start and stop of its parts, on a record of the pool, the server, the
-- writer, the collector and the database; how each await ends, what is called of the writer
-- meanwhile and what interrupts the service are arguments. Its Release, Delivery and Leak say
-- what is left behind.
--
-- Main is src/pybmpmon/__main__.py, from the first statement to the exit code, over
-- Listener.Run. Its Laws are about a start-up that returns, its Failures about one that raises.
-- Scripts.InitDb is scripts/init_db.py, and Scripts.DecodeBmp is decode_bmp.py, whose printed
-- lines are values.
--
-- Utils.Address decides the equality of addresses; Utils.Text has the blanks that `int` skips.
-- Base has names, Boolean tests, lists, results, slices and bits that the modules share. The
-- modules called Examples hold tests on concrete input.
--
-- A `while` loop of the code is recursion on fuel, and running out of it is an error of its own,
-- out_of_fuel, or the answer `none` of the connection loop. No `except` of the model catches it:
-- `parse_bgp_update` hands it on from an attribute, and `_handle_connection` answers `none` when
-- a message ends with it. AttributesEnd, ParsersEnd and NoEndlessLoop show that neither comes
-- about. The fuel is the number of bytes that are left, and one more; every round moves on by a
-- byte at least (but for a last one of the EVPN loop, which breaks), so it is enough. The loop
-- over statistics TLVs is recursion on their count.
--
-- Numbers are unbounded, as Python's are; the numbers that are read are bounded by their bytes.
-- A text that the code formats (an address, a prefix, a community, a route distinguisher) is
-- kept as the values that it is formatted from; the message of an exception is left out. The
-- time is a number that the caller reads.
--
-- Not modelled: the transport of asyncio and the sleeps of the tasks that wait between two
-- rounds of the statistics and of the batch writer; the interleaving of whole handlers beyond
-- the flush of a batch; PostgreSQL beyond the documented effect of the statements; the libraries
-- structlog and Sentry, with the span that a flush gets; the settings, which pydantic declares
-- and validates; the one-off scripts apply_migration_006.py and fix_evpn.py, which run given
-- SQL.
pub mod Base
pub mod Utils
pub mod Protocol
pub mod Monitoring
pub mod Models
pub mod Database
pub mod Listener
pub mod Main
pub mod Scripts
