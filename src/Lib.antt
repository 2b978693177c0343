-- ===== src/Lib.antt =====
-- sirit writes SPIR-V modules: a client calls one method of `Module` to an instruction, each method
-- appends words to one of the module's streams, and `Assemble` joins the streams to a module.
--
-- The parts and their files:
-- - Spirv: the numbers of the SPIR-V headers, and what C++ leaves to the compiler, as parameters.
-- - Stream (src/stream.h): a vector of words and two indices. Stream/Text is `InsertStringView`,
--   Stream/Operands the overloads of `operator<<`, Stream/Heads `OpId` and `EndOp`, Stream/Words the
--   writing of words, Stream/Chain whole chains, Stream/Address `LocalAddress` and Stream/Decode a
--   reader of texts.
-- - Emission: the shape of an instruction method, `Reserve(n); *stream << … << EndOp{}`, as data and as
--   an operation. Emission/Exact and Emission/Runs say what it does, Emission/Size how much it writes,
--   Emission/Short what happens without enough room, and Emission/Length what with too many words.
-- - Declarations (src/stream.h): the stream in which equal declarations share an id.
-- - Instructions (src/instructions/*.cpp): a module to a file, `op_i_add` for `Module::OpIAdd`. A method is
--   an `Emission`, and Instructions/Run says what all of them do.
-- - Module (src/sirit.cpp, include/sirit/sirit.h, src/instructions/extension.cpp): the state of `Module` and
--   the methods that are more than one chain. The pointer `bound`, which all streams share, is passed to
--   the operations. Module/Assemble is `Assemble` and the parser of tests/main.cpp that reads it back,
--   Module/Phi `DeferredOpPhi` and `PatchDeferredPhi`, Module/Extension the macros of extension.cpp,
--   Module/Names `Name` and `MemberName`, Module/Label `AddLabel`, Module/Sets the capabilities, and Module/Streams names the streams by section.
--   Module/Valid is the invariant of a module,
--   Module/Steps what single calls do to a valid module, and Module/Reach what sequences of calls do
--   to a new one: its ids, its declarations and its deferred phi nodes. `Step` says which calls: their
--   `assert`s hold, what they write is reserved and fits its header, and `DeferredOpPhi` is called where
--   the code vector ends at the cursor.
-- - Module/Draft: what a module promises. A draft is its instructions by section, as lists, with the table of
--   declarations; each call of an `Event` is an operation on the draft, and the module refines it.
--   Deferred phi nodes are not part of a draft.
-- - Overloads (include/sirit/sirit.h): the overloads that take the elements of a span one by one.
-- - Tests: runs at small inputs, and the tests of tests/main.cpp: Tests/Vertex is `VertexModule::Generate`
--   with the binary that the golden test expects, Tests/Suite the tests with the values of their `CHECK`s,
--   and Tests/Golden runs them.
--
-- How the code is modelled. An `assert` that fails and an access out of a vector's bounds are faults: the
-- library is taken with assertions enabled. A `u32` is a number with its wrap-around written out, `size_t`
-- is unbounded, and a `float` or `double` is its bit pattern. `Reserve` keeps words that an earlier call
-- left behind the cursor, so what a method may write depends on them: where a statement asks for no room or
-- for little, it says so, and the others are for any. The order of an `unordered_set` is a parameter, `existing_declarations` is a
-- list without a hash; Declarations/Buckets has `HashVector` and a map with a fixed number of buckets.
-- The callback of `PatchDeferredPhi` may keep a state, and returns. The loop of
-- `InsertStringView` has as many rounds as the text has bytes, the parser's as many as there are words:
-- each round takes one at least. Opcodes are below 2 ^ 16, as in the format.
--
-- Not modelled: `CHECK` and `RUN_TEST`, which count failures and print, the type aliases and the build
-- files.
pub mod Base
pub mod Spirv
pub mod Stream
pub mod Emission
pub mod Declarations
pub mod Instructions
pub mod Module
pub mod Overloads
pub mod Tests
