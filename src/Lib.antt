-- ===== src/Lib.antt =====
-- Grackle draws the code graph of a project and replays what ran on it. The agent (Python, under
-- packages/agent/src/grackle) parses a project into a static graph, runs it under a tracer, writes
-- the events as JSONL, and answers a frontend over a WebSocket: windows of a trace, the heat of a
-- node at an index, diffs of two traces. This library models the parts of the agent that compute
-- these answers, translated from the source, and proves what they promise.
--
-- How the parts meet. A runtime adapter turns what the language runtime reports into events: the
-- resolvers name the node of a source position, and the Node adapter reconstructs calls and returns
-- from a sampling profile. A writer or a recording sink puts the events into a file, one JSON object
-- on a line. The file is then read in one scan that gives its byte-offset index and its aggregates;
-- the server answers seeks from the first and queries from the second, and the command line diffs
-- two aggregates. Live events also go through a bounded ring buffer for late consumers.
--
-- The files:
--   Base        the names that the other modules share; in its children the Boolean tests, lists
--               and integers over native numbers, Python's dict (Dict), sorted (Sort), bisect
--               (Bisect), str (Text) and exceptions as values (Result).
--   Json        the values of json.loads as the code looks at them. The decoder is a parameter.
--   Aggregates  packages/agent/src/grackle/python_runtime/aggregates.py. Event and Tables are the
--               body of the scan, Build is TraceAggregates.build and __init__, Query the methods,
--               Seekable is build_seekable; Model says what a trace means without tables; Kept and
--               Heat relate the two; Scan, Coverage and TopK have the results.
--   Jsonl       packages/agent/src/grackle/python_runtime/jsonl_index.py: JsonlIndex.build, __len__
--               and read_window over the bytes of a file; Window has the results.
--   Diff        packages/agent/src/grackle/diff.py, all of it.
--   Profile     packages/agent/src/grackle/node_runtime/profile_reconstruct.py: Tree has the call
--               tree and filtered_path with its cache, Stream has _emit_transition and reconstruct;
--               Replay is a machine over open frames; Climb, Labels, Balance and Cached prove.
--   Server      the envelopes and replies of packages/agent/src/grackle/protocol.py, and of server.py
--               the branches of _receive_loop: Seek, Query, Source with _read_source, Handle for the
--               dispatch over these, Live for the live messages of a connection and its end. Sessions
--               says what a connection is to record; Calm, Registered, Guarded, Windows, Answers,
--               Confined and Echo have the results. Signature and Push are _build_static_graph and
--               what it calls, with its caches, for one thread; the parsed graph and the prediction
--               are arguments; Topology, Sound and Pushed have the results. Rebuilds and Recordings are tests.
--   LiveBuffer  trim_ring_buffer, flush_ring_buffer, broadcast (Send) and the event cap of
--               packages/agent/src/grackle/python_runtime/live_buffer.py, and the append and trim of
--               _receive_loop in packages/agent/src/grackle/server.py.
--   Recording   packages/agent/src/grackle/python_runtime/writer.py (Part) and recording_sink.py (Sink):
--               JsonlPartWriter, write_jsonl, RecordingSink and is_safe_session_id; the outcome of
--               each call of the operating system is an argument, so every failure is covered.
--   Resolution  packages/agent/src/grackle/adapters/runtime_resolution.py (Index, Resolve), with the
--               resolvers in python_runtime/node_resolution.py, go_runtime/resolution.py and
--               rust_runtime/resolution.py; Claims, Enclosing and Cache have the results, and
--               Nodes says what the indexes hold.
--   Cache       packages/agent/src/grackle/cache.py: get, set and evict of CacheManager over the files of
--               its directory; Manifest, Set, Held and Evict lead to Kept.
--   Coverage    packages/agent/src/grackle/rust_runtime/llvm_cov_parse.py: parse_export on a decoded
--               document, Least the line it reports. LineMap and Deltas are OffsetLineMap and
--               iter_coverage_deltas of packages/agent/src/grackle/node_runtime/coverage_poll.py,
--               which Sums and Totals follow over the polls of node_runtime/launcher.py.
--   Graph       _compute_hub_score of packages/agent/src/grackle/graph_analysis.py (Scores), and the
--               loops of _compute_cycles that find the components (Cycles; Stack, Ends, Based and
--               Emptied lead to Searched); Entries has the entries built from the components, and
--               Shuffled is about graphs in another order.
--   Kinds       packages/agent/src/grackle/kinds.py: KindRegistry.register and get, and the default
--               kinds; Registered has the result.
--   ValueRepr   packages/agent/src/grackle/python_runtime/value_repr.py: Formatter has the budget and the
--               handlers of collections, Leaves those of values without parts, Format the dispatch,
--               safe_repr and format_arg. Full is the text with nothing left out, Redacted the value
--               without its secrets; Safe and Redact have the results.
--   Tracer      the callbacks of packages/agent/src/grackle/python_runtime/tracer.py (Callbacks) and the
--               event cap of packages/agent/src/grackle/adapters/base.py. Nesting describes nested
--               calls; Bounded and Recorded have the results. run, _start and _stop are left out.
--   Watcher     the snapshots, their difference and the polling loop of
--               packages/agent/src/grackle/watcher.py; Changes and Ticks have the results. The walk of the
--               tree is an argument, and the pace and the backend over watchfiles are left out.
-- In each part the module Tests runs the code on concrete data and applies the results to it.
--
-- Representation. Bytes and code points of file contents are numbers; node ids, paths and messages
-- are strings. A dict is its list of entries in insertion order, a set the list of its elements. A
-- float enters by whether it is finite and by what int() makes of it. Integers of Python are
-- unbounded, so no width is modelled; an index that the server clamps to the trace is a natural
-- number. State is passed explicitly, exceptions are values of Result. The cache reads and writes
-- names within its directory, and its writes succeed. What decoding a line or reading a manifest
-- raises and the code does not catch is passed on. The part file of a recording stands for the file
-- and the buffer of the file object, of which a close that fails loses the end. The rows of the
-- session store are a list in the order of their last writes (Recording.Rows). Names are lowercased in ASCII only,
-- lines of declarations are natural numbers, and callbacks and calls run one after the other.
--
-- Fuel. bisect_right halves a range on fuel of its length and one, which its equation with rank
-- shows to be enough for every list. The walk up a call tree has fuel for each entry of the parent
-- table and two more; reconstruct returns a stream for every profile, parent cycles included, so it
-- is enough. The search for components has fuel for each node and each edge, and it ends within
-- it. All other loops are structural.
--
-- Not modelled: the parsers of the languages (tree-sitter trees), the tracer's hooks into
-- sys.monitoring, the launchers and toolchains, sockets and sends that block, the server's watch loop and
-- loads of stored sessions, the session database but for the rows that a save leaves, the command line, and packages/nn, whose arithmetic is on floats.
pub mod Base
pub mod Json
pub mod Aggregates
pub mod Jsonl
pub mod Diff
pub mod Profile
pub mod LiveBuffer
pub mod Recording
pub mod Resolution
pub mod Coverage
pub mod Graph
pub mod Kinds
pub mod ValueRepr
pub mod Tracer
pub mod Watcher
pub mod Cache
pub mod Server
