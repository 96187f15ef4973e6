-- ===== src/Lib.antt =====
-- Rapira: the bytecode generator, the bytecode, its files, and the interpreter.
--
-- The Rapira compiler turns a program into instructions, encodes them into a bytefile (`*.rbc`), and
-- the interpreter decodes and runs them over a C runtime that owns the heap. This library models the
-- generator, which makes instructions of the syntax tree, the instructions and their bytes, the
-- bytefile, and the interpreter's machine.
--
-- Which file models which part:
--   Ast                  crates/compiler-core/src/ast.rs: the syntax tree.
--   Module               crates/compiler-core/src/module.rs: the record of a compilation unit.
--   Codegen              crates/compiler-core/src/codegen/bcgen.rs: Env and BcGen, as a state that
--                        each step takes and gives. Expressions has emit_expr, Shapes and
--                        Statements emit_statement and count_locals, Definitions the functions,
--                        types and modules up to `generate`, Text the texts that are formatted.
--   Numeric              crates/vm-core/src/numeric.rs: the trait LeBytes. A number of w bits is its
--                        bit pattern, a natural number below 2 ^ w.
--   Bytecode, Codes      crates/vm-core/src/bytecode.rs: Instruction, Op and the other enums, the
--                        numbers of the sub-opcodes.
--   Decoder, Encode      crates/vm-core/src/decoder.rs: Decoder::next, decode, encode. A read is a
--                        function of the decoder to an outcome and the decoder that is left.
--   Bytefile, Serial,    crates/vm-core/src/bytefile.rs: building a file, Bytefile::encode and parse,
--   Code                 the string table, add_instructions with its labels.
--   Disassemble          the loop of `Display for Bytefile`, without the text it prints.
--   Object               crates/vm-interp/src/object.rs and lib.rs: the tagged words.
--   Runtime              the calls of runtime/*.c and of the floating-point unit, as a parameter: a
--                        record of operations on an abstract heap.
--   Vm                   crates/vm-interp/src/interpreter.rs: the machine and its stack. Slots has the
--                        slots of a frame, Values the handlers of constants and variables,
--                        Control those of jumps and calls, Arithmetic those of the binary
--                        operations, Variants those of variants and their fields, Aggregates
--                        those of tuples, slices and elements, Builtins CALLBUILTIN. Dispatch has
--                        the table, Run the construction, the dispatch loop, `run` and `drop`.
--   Outcome, Prelude     results with a panic, and the helpers that all parts share.
-- In Codegen, Logic has the rules by which the proofs follow the generator's steps, Slots the proofs on
-- variables and jumps, and Depth those on the operand stack, with the execution of the code in
-- Depth/Execution. The modules below the others, Readers, RoundTrip, Size, Parsed, Strings,
-- Consistent, Labels, Placed, Linked, Reads, ReadAs, Safety, Fuel, Boxing, Stack, SmallIntegers,
-- Integers, FloorDivision, Frames, Returns, Calls, Ends, Releases, Elements, Dispatched and Accepted,
-- hold proofs; FloorDivision has the division of small integers too. Tests has each theorem at a
-- concrete input.
--
-- How the code is read. The release profile on a 64-bit target is modelled: a sum that its inputs
-- can push past its type wraps, and the feature `runtime_checks` is off. An i32 operand is its
-- two's-complement pattern; `signed32` and `to_u64` are the casts. A `Result` that the code returns
-- is `ok` or `err`; a panic, an index out of range, `todo!` and an exit of the process by the
-- runtime are `panic`. A handler gives whether the run goes on to the next dispatch (`become
-- self.dispatch()`) or ends; Run puts the handlers together.
--
-- A step of the generator that panics gives `none`. Its counters are natural numbers, which do not
-- wrap, and a HashMap is an association list that is read by key. The sort of the variants is a sort
-- by insertion: their names differ. The code of a function is bounded by its number of parameters
-- itself; BEGIN keeps the low 32 bits of it, and the interpreter the low 16.
--
-- Bounds and fuel. The loop of the disassembly has as many rounds as the code has bytes: each round
-- reads one byte at least, so that more rounds change nothing. The search for a string has as many
-- rounds as the table has bytes, for the same reason. The run of a program can last for ever:
-- run_from has fuel, one round for an instruction, and gives none where it is used up. All other
-- loops recurse on a list or on the number of rounds that the code itself counts. The reads assume
-- code of less than 2 ^ 63 bytes, where the instruction pointer cannot wrap.
--
-- Not modelled: `take` and `peek` of the interpreter, which no handler calls, and eval_load_ref,
-- which is not in the table; the texts of `Display`; verifyer.rs, which is not a module of its
-- crate; the lexer, the parser, the module graph, the call graph and the passes on it; the command
-- line, and the C runtime, which is another language behind a foreign interface.
pub mod Prelude
pub mod Outcome
pub mod Numeric
pub mod Ast
pub mod Module
pub mod Codegen
pub mod Bytecode
pub mod Bytefile
pub mod Decoder
pub mod Object
pub mod Runtime
pub mod Vm
pub mod Tests
