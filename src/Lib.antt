-- ===== src/Lib.antt =====
-- The Dartino SDK: a virtual machine for Dart on small devices, the parts that it shares with the
-- compiler's session, and its port to FreeRTOS.
--
-- The parts and the files that model them:
--   * Circular: the byte ring of the device drivers, src/freertos/circular_buffer.{h,cc}. A ring is a
--     list of cells and two indices. Locks, and waiting on them, are not modelled: an operation runs
--     as a whole.
--   * Pages: the page allocator below the object heap, src/freertos/page_allocator.{h,cc}, with the
--     macros of src/freertos/globals.h. An arena is its base, its number of pages and its map of a byte
--     for a page. Addresses are words of 32 bits, and sums of them wrap. The search for free pages runs
--     on fuel, the number of pages and one, since each round moves at least a page on.
--   * PriorityHeap: the heap of timeouts in the event handler, src/vm/priority_heap.h. The hash map from
--     values to indices is a function, with the number of its keys; ports of the heap's clients are values. Bubbling runs on fuel: the
--     depth is at most the index going up and the number of entries going down.
--   * Wire: the session between the compiler and the virtual machine, src/shared/connection.{h,cc} (the
--     buffers and opcodes), src/shared/socket_connection.cc (frames) and the loops of Socket::Read and
--     Socket::Write in src/shared/native_socket_posix.cc. read(2) and write(2) are parameters: how many
--     bytes they pass. The loops run on fuel, the number of bytes and one, since each call passes a byte.
--   * Bytecodes: the table of bytecodes and what is looked up in it, src/shared/bytecodes.{h,cc}, with
--     Print and PreviousBytecode, whose loops run on fuel, the size of the memory and one.
--   * Groups: groups of programs as bit masks, src/vm/program_groups.{h,cc}.
--   * Ticks: the queue of profiler ticks, src/vm/tick_queue.h. Each side loads the other's position in
--     a step of its own, so a position can be old when it is compared; the steps of the two sides
--     interleave in any order. Atomic loads and stores are taken to be sequentially consistent.
--   * Unicode: one code point in UTF-8 and UTF-16, src/vm/unicode.{h,cc}; its loop is over the trail
--     bytes. Unicode.Strings: the loops over strings in unicode.cc, on fuel, the length of the string and
--     one, since each round takes a byte or a unit at least.
--   * Natives: the natives of numbers (but for those that parse or print one), strings and lists in
--     src/vm/natives.cc, for words of 64 bits, with
--     the helpers of src/shared/utils.h, src/vm/object.cc and src/vm/process.cc that they call. Where
--     utils.h can use a builtin of the compiler for a test of overflow, the portable code is modelled.
--     A heap object stands for its contents, the result of an allocation is a parameter, and so is the
--     arithmetic of doubles. The loops are over lists.
--
-- Int has signed integers and words over native numbers. Base passes on the library names that the others share, with lists over native numbers and Boolean
-- tests; Memory has copies between blocks of cells, with the checks of their bounds. The files below
-- these parts hold the theorems about each, and their Tests run them at concrete inputs. The parts do not call each other in the source, but for the table
-- of bytecodes, which reads its operands as the buffers read an int.
--
-- Where its file does not say otherwise, `none` as the result of an operation stands for a failed
-- ASSERT, an access outside a block, an overflow of an int, or a lack of fuel. A machine integer is its bit pattern, and where the source's arithmetic wraps
-- or is signed the definition writes it out.
--
-- Not modelled: the object heap and its collectors, the interpreters and their generators, the other
-- natives and ffi, the scheduler and its threads, snapshots, the event handlers and sockets beyond the loops above
-- (code that lives by the operating system or by raw memory), the tools, and everything in Dart.
pub mod Base
pub mod Bytecodes
pub mod Circular
pub mod Groups
pub mod Int
pub mod Memory
pub mod Natives
pub mod Pages
pub mod PriorityHeap
pub mod Ticks
pub mod Unicode
pub mod Wire
