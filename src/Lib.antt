-- ===== src/Lib.antt =====
-- boofuzz, a network protocol fuzzer: a verification development of its core logic.
--
-- A protocol definition is a tree of elements (boofuzz/primitives, boofuzz/blocks) below a request.
-- A session (boofuzz/sessions/session.py) connects requests to a graph (boofuzz/pgraph), walks along
-- its paths, and for each mutation of the message at a path's end renders that message and sends it.
-- Rendering asks each element for its value, mutated or default, and encodes it; Size, Checksum,
-- Repeat and Mirror render the element that they name, which the request resolves.
--
-- Base: the shared helpers. Numbers are the native ones; an integer of Python is a `ℤ` of Base.Int;
-- a byte string is a list of numbers, a text a list of code points, a dict an association list in
-- insertion order (Base.Dict, Blocks.Names). An exception is `none` or a value of a type of errors.
-- Base.Runs compares two runs of a chain that may fail.
--
-- Primitives.BitField: boofuzz/primitives/bit_field.py. `render_int` is `_render_int` with its two
-- formats, `iterate_fuzz_lib` is `_iterate_fuzz_lib`, `bit_field` the constructor. Below it, Binary
-- and Decimal say what the digits stand for, Render what is written, FuzzLib what is yielded. The
-- decimal text of n takes fuel n + 1, which is more than it has digits.
--
-- Primitives.Bytes and Primitives.Strings: boofuzz/primitives/bytes.py and string.py with their
-- constants, the loops that yield mutations, and the number announced. A callable mutation of Bytes
-- is a function on the original bytes. The indices that the constructor of String draws are given.
-- Primitives.Leaves has what the constructors of Delim, Group, FromFile, RandomData, Repeat and
-- Checksum keep to mutate; `randint`, the lines of files and the order of a set are given, with the
-- bounds of `randint` as a hypothesis where a theorem needs them. Primitives.Leaves.Sources puts them
-- together, as what the leaves of a request yield.
--
-- Blocks: Blocks.Build has `Request.push` and `Request.pop`, on the names and the open blocks;
-- Blocks.Build.Tree adds the stacks that they fill, with `_initialize_children`, and
-- Blocks.Build.Walk is `Request.walk`, with fuel for the depth of its calls.
-- Blocks.Resolve is `Request.resolve_name`. Its loop over the components takes as fuel their
-- number and one more, and each round takes at least one away. Blocks.Element is the tree, with a
-- `Leaf` for each way of encoding and a `BlockKind` for each class with children. Blocks.Values has
-- what the `encode` methods do to values, and Blocks.Render has `original_value`, `get_value`,
-- `encode` and `render` of all classes. The recursion flags of Size and Checksum are the list of the
-- qualified names whose flag is raised. References may run in a circle, so `render` takes fuel,
-- which bounds the depth of the calls; `none` is an exception, and RecursionError is one. Given from
-- outside are the codec of texts, the algorithms of checksums, the encoders of blocks and the
-- `math` of a size. Blocks.Mutations has `get_mutations` and `get_num_mutations` of elements, blocks
-- and requests; the values that a leaf yields are given, and so is when `stop_mutations` is called.
--
-- Helpers: boofuzz/helpers.py. Helpers.Checksum has the IPv4 and UDP checksums, Helpers.CaseName the
-- parser of test case names, whose regular expressions are loops over the text.
--
-- Graph: boofuzz/pgraph/graph.py with its edges and nodes. Graph.Reachable has the graphs that the
-- operations build.
--
-- Session: boofuzz/sessions/session.py. Session.Paths has the iteration over the message paths and
-- the count of test cases; both recurse along the edges, with fuel for the depth, and on a graph
-- without a circle more fuel than a rank of the start is enough. Session.Control has the decisions
-- of the main loop: which cases run, when the target restarts, what follows a failure, and how long
-- a connection is tried; fuel bounds the attempts, and 51 more than the restart threshold is enough.
-- Session.Generate has the combinations of mutations that test cases are made of. Session.Case has
-- the steps of a test case, `_fuzz_current_case` with `transmit_normal` and `transmit_fuzz`: a step
-- ends normally, by a BoofuzzFailure or by another exception, and leaves the events that happened.
-- Session.CaseName has the name of a test case. Session.Connect has `add_node` and `connect` on the
-- session's graph, where one object stands for each name. Session.Depths has the test cases at
-- increasing depths, and what `fuzz` announces; its fuel bounds the depth of the calls and of the
-- cases, and with a maximal depth one more is enough. Session.Monitors has what the session asks of
-- its monitors, in a monad of a log, a world and exceptions; Session.Monitors.Callbacks is
-- boofuzz/monitors/callback_monitor.py. Session.Target is `Target.send` of
-- boofuzz/sessions/target.py with the count repeater of boofuzz/repeater.py; fuel that exceeds the
-- count is enough for its loop.
--
-- Static: boofuzz/__init__.py. Static has the global requests and the current one, and `pushed` and
-- `popped`, which the functions call; Static.Blocks, Static.Primitives and Static.Binary have the
-- functions, one for each, with the classes' constructors. Beside its tree a request keeps what each
-- element is mutated by. Static.Reached has the states that calls lead to.
--
-- Rpc: boofuzz/monitors/pedrpc.py. Rpc has the framing, on a socket and a pickle that are given, with
-- fuel for the rounds of the loop that reads; as many as a message has bytes are enough. Rpc.Calls
-- has the steps of a call of the client and of a round of the server. Rpc.Attempts has `__connect`; fuel of six attempts is enough.
--
-- Loggers: boofuzz/fuzz_logger.py, whose backends are given, and Loggers.Database,
-- boofuzz/fuzz_logger_db.py, which takes the time of each call beside it; its tables are lists of
-- rows. Loggers.Database.Reader reads them back.
--
-- Not modelled: the connections, the other monitors, the loggers of text, CSV and curses, the web interface and the command line, which
-- are input and output; time, threads and processes; the drawing attributes and renderers of graphs,
-- and graph_cat, after which two graphs share their objects;
-- the mutations of floats, which `random` and the formatting of floats make; `s_float`, `s_lego`, `s_update`,
-- `s_hex_dump` and the legos.
pub mod Base
pub mod Primitives
pub mod Blocks
pub mod Helpers
pub mod Graph
pub mod Session
pub mod Rpc
pub mod Loggers
pub mod Static
pub mod Tests
