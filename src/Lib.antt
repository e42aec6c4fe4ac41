-- ===== src/Lib.antt =====
-- FSRacer finds data races on files in programs with an event loop. A trace has blocks of
-- expressions, which create events, order them and submit operations on files. Two analyzers read a
-- trace: the one infers which event happens before which, the other which paths each event accesses.
-- The detector reports the pairs of accesses that conflict and that nothing orders.
--
-- Collections, Prelude: the containers of the C++ standard library, as lists in the order of their
--   keys; text as a list of bytes; results with the faults that the code can end in (a failed assertion,
--   `bad_optional_access`, a function that ends without `return`, `out_of_range`, a null pointer) and
--   `out_of_fuel` for calls that do not end.
-- Graph: lib/Graph.h, the class template `Graph`. `AddEdge` is `add_edge`, `DFS` is `dfs`, and so on. An
--   `unordered_map` is kept in the order of its keys, so that the lines of a DOT file have one order here.
-- Trace, Operation: lib/Trace.h, lib/Trace.cpp, lib/Operation.h and lib/Operation.cpp. The subclasses of
--   `Expr` and of `Operation` are the constructors of `Construct` and of `Action`.
-- Dependency: lib/DependencyInferenceAnalyzer.h and lib/DependencyInferenceAnalyzer.cpp. The fields of the
--   analyzer are those of `DepState`, and each member function is a function on it: those on single
--   events stand in Dependency, those on expressions, blocks and traces in Dependency/Blocks.
-- FilePath: the part of `std::experimental::filesystem::path` that the analyzers use.
-- Table, InodeTable: lib/Table.h, lib/InodeTable.h and lib/InodeTable.cpp.
-- FsAnalyzer: lib/FSAnalyzer.h and lib/FSAnalyzer.cpp. The fields of the analyzer are those of `FsState`.
--   FsAnalyzer/Operations has what each file system operation does, FsAnalyzer/Blocks the rest.
-- Race: lib/RaceDetector.h and lib/RaceDetector.cpp. `RaceState` has the result of `GetFaults` with the two
--   mutable fields, the cache of searches and the debug information.
-- DumpAnalyzer: lib/Analyzer.h and lib/Analyzer.cpp, the analyzer that writes the trace.
-- Processor: lib/Processor.h and lib/Processor.cpp. Processor/Setup has `process_args` of
--   tools/fsracer/main.cpp, Processor/Pipeline the analysis, the detection and the end of `main`.
-- Utils: lib/Utils.h and lib/Utils.cpp.
-- Generator: lib/TraceGenerator.h and the class of tools/drfsracer/DynamoTraceGenerator.h, which collects a
--   trace. `GenState` has its fields; a function of the class is a function on it, and Generator/Emit has
--   those of `generator_utils`. A pointer to a block or an execution is its position in the trace.
-- Node: tools/drfsracer/NodeGenerator.cpp, the wrappers of the functions of a Node program. Node/Syscalls
--   has the system calls and the work of libuv, Node/Submit the submissions to libuv, Node/Hooks the hooks
--   of Node, Node/Wrappers the table. A wrapper reads a `Call`, and DynamoRIO calls it when the function of
--   that name begins or returns. Node/Sound and its children keep an invariant over all wrappers.
-- Client: tools/drfsracer/drfsracer.cpp, from the modules that the program loads to the analysis at its end.
-- Parser: tools/fsracer. Parser/Lexer is TraceLexer.l, Parser/Grammar and Parser/Program are TraceParser.y by
--   recursive descent, with AddOperationDebugInfo of TraceGeneratorDriver.cpp, and Parser/Main is the driver and
--   main.cpp. The actions of a rule run behind its last token, as in the parser that bison makes. The other
--   children follow a dump, from its words (Words, Lines, Marks) over operations, expressions, executions and
--   blocks to the whole (RoundTrip), or take the rules on any tokens (Total, Returns).
-- Tests: runs on small inputs.
--
-- Bounds. Event numbers, descriptors and inodes are natural numbers: that a `size_t` wraps around is
-- not modelled, but for a conversion to a `char` and the argument of `close`, which is made an `int`.
-- `dfs` runs on fuel for one name on the stack more than the graph has edges, `to_inode` on fuel for one call
-- more than the path has elements, and the results below say when that is enough. A list of the grammar has one
-- round for each token. A number of a trace file is an `int` of 31 bits, as `std::stoi` has it. A path argument
-- of a call is a text: a null pointer is none. The pointer to a detector that `Processor` leaves unset is null.
--
-- Not modelled: terminal output, streams, the timer, deletion, signals, the tables that flex, bison and gengetopt
-- make, and DynamoRIO, under which tools/drfsracer runs: where a function begins in a module, whether it could be
-- wrapped, and what a wrapper reads of a call are parameters. The printed forms of graphs and tables are
-- modelled as texts.
pub mod Prelude
pub mod Collections
pub mod Graph
pub mod Utils
pub mod Operation
pub mod Trace
pub mod Dependency
pub mod FilePath
pub mod Table
pub mod InodeTable
pub mod FsAnalyzer
pub mod DumpAnalyzer
pub mod Race
pub mod Processor
pub mod Generator
pub mod Node
pub mod Client
pub mod Parser
pub mod Tests
