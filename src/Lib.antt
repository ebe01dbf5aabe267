-- ===== src/Lib.antt =====
-- Verification of pnacl.c, an interpreter of PNaCl bitcode.
--
-- The program reads a bitcode file through a bit cursor and a record reader, resolves the generic
-- instructions of each function to opcodes for their operand types, and executes these on a memory
-- whose every access is checked. The parts and the files that model them:
--
-- Base: names that the modules share. A C function that can end the program returns a `Result`:
--   `fatal` for PN_FATAL and PN_CHECK, `fault` for a failed assert or undefined behaviour, `stuck`
--   when the fuel of a modelled loop runs out.
-- BitStream (src/pn_bitstream.h): the cursor, a record with the fields of PNBitStream, and one
--   function for each pn_bitstream_*. `BitStream.Spec` is the stream as a sequence of bits, and
--   `BitStream.Word.IsValid` the invariant of the buffered word. The data is shorter than 2^29
--   bytes there, so that a bit offset fits its uint32_t. The loops of the variable width readers run
--   on a fuel of one round for each bit of the data, since a round takes a bit or ends the program.
-- Bits (src/pn_bits.h): powers of two, and sign-rotated numbers. The loop of pn_next_power_of_two has
--   64 rounds of fuel, one for each power of two in a size_t.
-- Record (src/pn_record.h): the record reader over the cursor, for abbreviated and unabbreviated
--   records; `read_abbrev` and `read_abbrev_uint64` share their steps and differ in the reader of
--   variable width numbers and in the check of an array's length. The functions that count the rest
--   of a record take fuel from the caller.
-- Memory (src/pn_memory.h): the memory as a function from offsets to bytes with its size, the check,
--   and reads and writes of n bytes for each of the typed functions.
-- Opcode (src/pn_calculate_opcodes.h): the three tables that select an opcode by operand types.
-- Executor (src/pn_executor.h): a thread's values, and the cases of the binary operations, casts and
--   comparisons, each written as its macro's arguments and what the macro does with them. A value is
--   the 64 bits of PNRuntimeValue, of which a result sets only its field. Floating point is the
--   host's and a parameter, the record `Host`, of which nothing is assumed.
-- Phi (src/pn_calculate_phi_assigns.h, and pn_thread_do_phi_assigns of src/pn_executor.h): the
--   assignments that a block makes to the phis of its successors, the test for those that need no
--   temporary values, and the two ways of carrying them out. The allocator's arrays are lists, and
--   the set of seen blocks is a predicate.
-- Machine (src/pn_executor.h): every case of pn_thread_execute_instruction, `Machine.execute`, on a
--   thread with its call stack and the memory, and the quantum of pn_executor_run_step. The
--   instruction stream is a function from addresses to decoded instructions, a parameter like the
--   module, the builtins, the square root and what uninitialised storage holds (the record
--   `Program`). `Machine.thread` has the values of the running frame, and `callers` the frames below
--   it with theirs, up to the sentinel. The thread's arena shows in one place: a return or a longjmp
--   resets it to a frame's mark, and the jump buffers of that frame are `is_freed` then; reading one
--   is `fault`, also while nothing else has been put in its place. A longjmp resets the arena before it
--   reads the buffer, which is `fault` where the buffer lies in a later chunk (`later_chunk`).
-- Schedule (src/pn_executor.h): what pn_executor_run_step does behind the quantum. The ring of threads
--   is a list from the running one on; the fuel is the number of looks at a thread, and a program
--   whose threads all wait for ever has no number that is enough.
-- Allocator (src/pn_allocator.h): the arena, its chunks by their addresses, over a malloc that is a
--   parameter with the hypothesis `IsMalloc`. Addresses and sizes have 64 bits, a struct of a chunk
--   24 bytes. The loop of pn_next_power_of_two is that of Bits.
-- Abbreviations (src/pn_abbrev.h): the reading of definitions and the list of abbreviations, whose
--   headers and ops share one allocation, by their offsets in it. `is_last` says whether that is the
--   allocator's last one, as pn_allocator_realloc_add requires; a write behind the allocated ops is
--   `fault`.
-- ResultTypes (src/pn_calculate_result_value_types.h): the calculation of the types of results, in
--   rounds whose fuel is the number of unresolved instructions and two more.
-- BitSet (src/pn_bitset.h): the words of a set; the memory that the allocator gives is cleared.
-- Builtins (src/pn_builtins.h, and the part of pn_executor_init that sets the heap up): the system
--   calls for memory, futexes, threads and interfaces in a build without PPAPI, on what each of them
--   uses of the executor and its threads. The search of mmap goes over the pages of the heap by their
--   number. The clock is a parameter. `Waiter` is a thread as futexes see it, and `scheduled` gives
--   what Schedule sees of it.
-- PredBbs (src/pn_calculate_pred_bbs.h): the predecessors of blocks, the allocator's arrays as lists.
-- Uses (src/pn_calculate_uses.h): the values that the instructions of a block use, as a set and its
--   list, and the block's phi uses, in a build with PN_CALCULATE_LIVENESS. An instruction is the
--   values that it takes.
-- Liveness (src/pn_calculate_liveness.h): the walk back from a use over the sets of BitSet, with a
--   round of fuel for each block, since a block goes to the stack once; and the passes over the uses
--   of the blocks.
-- Slots (src/pn_calculate_liveness.h): the ranges at the start, the heap of slots and the active
--   ranges, and the whole of pn_function_calculate_liveness. A walk in the heap has one round of fuel
--   more than the heap has slots, since its index moves strictly towards an end.
--
-- Not modelled: the blocks of the bitcode reader, the pass on loops, the layout of the instruction
-- stream, the calls for files, tracing and the command line. Floating point, malloc and the square root are the host's.
pub mod Base
pub mod BitSet
pub mod Builtins
pub mod BitStream
pub mod Opcode
pub mod Executor
pub mod Bits
pub mod Record
pub mod Memory
pub mod Phi
pub mod PredBbs
pub mod Liveness
pub mod Machine
pub mod Allocator
pub mod Abbreviations
pub mod ResultTypes
pub mod Schedule
pub mod Uses
pub mod Slots
