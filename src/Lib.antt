-- ===== src/Lib.antt =====
-- Verification of nextgen, a fuzzer for system calls, files and networks.
--
-- The program forks a child for each core. A child chooses a system call from a shared table, makes
-- its arguments from resources and random numbers, logs and tests the call, and frees the arguments.
-- A signal in the test jumps back to the loop. What other processes read is kept in shared memory,
-- under epoch-protected sections.
--
-- Base holds the shared names: lists over native numbers, Boolean tests, and Outcome, the result of a
-- C function that may fault (a read or write outside an object, or through NULL) or stay blocked.
-- Functions keep their names in C. The files and the directories of src that they model:
--   Memory       memory: allocation, and the pool of blocks shared between processes
--   Concurrent   concurrent: the compare-and-swap loop (Cas), the nested epoch sections (Epoch)
--   Crypto       crypto: random ranges (Range), digests as text (Hex), the set-up (Setup)
--   Mutate       mutate: the file mutators, and the functions of plugins that they call
--   Resource     resource: resources kept in shared pools (Cached), the making of the pools (Create),
--                their cleanup (Clean), and the module's set-up and wrappers (Module)
--   Syscall      syscall: argument kinds (ArgTypes), test functions (SetTest), the table (Table), the
--                work of a child on one call (Child), its loop with signals (Loop) and the installing
--                of their handlers (Handlers), the children as their parent sees them (Children), the
--                set-up (Setup), the argument generators (Generate, Buffers) and what they write
--                (Writes)
--   File         file: the input files and their array, on disk mapping and copying (Disk, with
--                utils/utils.c), random files (Random), the crash of a target (Crash), the fuzzing
--                loop (Round)
--   Network      network: the sockets and ports of the server, and its clients
--   Runtime      runtime, main.c: the parsing of the command line, the fuzzer objects, and main
--   Utils        utils: reallocarray (Reallocarray), text as binary digits (Binary), names and
--                extensions and the counting of plugins of plugins/plugin.c (Names)
--   Genetic      genetic: the making of the world
--   Log          log: the set-up of the log and the writes to it
--
-- Child, Loop and Children stand on Table, SetTest and ArgTypes; Loop also on Concurrent.Epoch;
-- Resource stands on Memory.Pool; Genetic takes the number of system calls of Syscall.Table; Runtime
-- allocates through Memory.Alloc; File.Round puts File, File.Disk, File.Crash, Mutate, Utils.Names and
-- Log together.
--
-- Concurrency Kit, LibreSSL, sqlite, the C library's calls and the kernel are records of operations
-- with their documented behaviour, which the tests fill with concrete functions. The resource
-- generator, the logger and the argument generators of an entry are parameters of a child.
--
-- Loops that wait for another process run on a number of rounds; when it is used up, the result is
-- `blocked`, or `none` in the compare-and-swap loop. The loops of a child and of its parent run for a
-- given number of rounds, which is any number: another process sets the flag that stops them. All other
-- loops recur on the data that they walk, or on a counter that the code compares with.
--
-- A 32-bit number is a natural number below 2 ^ 32, a negative one its two's complement. Messages on
-- the console are left out. The command line is the list of what getopt_long returns. The files of the
-- system are seen through an abstract content of each path, for files with one path each; the loop of
-- the file fuzzer runs over the values that it reads through its stop pointer. Not modelled: how the
-- threads of the socket server interleave, kernel probes, the disassembler, the deletion of directories,
-- and the smart mode, which are input and output or wrappers of other libraries; the making of single
-- resources from the system; and the generators of messages and socket addresses, which fill structures
-- of the system.
pub mod Base
pub mod Memory
pub mod Concurrent
pub mod Crypto
pub mod Mutate
pub mod Network
pub mod Resource
pub mod Runtime
pub mod Syscall
pub mod Utils
pub mod File
pub mod Genetic
pub mod Log
