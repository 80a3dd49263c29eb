-- ===== src/Lib.antt =====
-- The verification of kwokka: models of parts of the runtime, and theorems about them.
--
-- kwokka is an asynchronous runtime. Its tasks, timers and buffers live in generational slabs
-- (crates/kwokka-core), each task runs through an atomic lifecycle (crates/kwokka-runtime), and a
-- conductor, a graph of stages with their policies, is read in place from a flat binary form
-- (crates/kwokka-ir) whose bytes are checked once and then accessed without further errors.
--
-- Which file models what:
-- - Base: lists, options and words for the rest. `u32_mod` and its like are powers of two; the
--   sums and products of a machine word are cut or checked as the code does it.
-- - Generation, SlabKey: `Generation` of crates/kwokka-core/src/generation/revision.rs and `SlabKey`
--   of crates/kwokka-core/src/slab/key.rs, both as their integers.
-- - Pip: crates/kwokka-core/src/id, the 128-bit identifier as its integer, with the process-wide
--   counter passed in and out.
-- - Slab: crates/kwokka-core/src/slab/slab.rs. A slot's storage is an option, with none for
--   uninitialised memory, and a read of it is the result `uninit`; `&mut self` is a slab in and a
--   slab out. Slab.Reservation has `reserve`, `install` and `unreserve`, Slab.Access the accessors
--   that hand out references and pointers. Slab.Invariant states when a slab is well formed: the
--   free list runs through distinct vacant slots, occupied slots and only those hold values, and the
--   counts agree. Slab.Step makes the mutating calls one data type and runs sequences of them.
-- - Ir: crates/kwokka-ir. Bytes are a list of numbers, errors are `Result` with the variants of
--   `IrError`. Ir.Bytes and Ir.Node read words and records, Ir.Policy and Ir.Config the payloads,
--   Ir.Registry the names; Ir.Tables, Ir.Slots and Ir.Sections are the checks of
--   crates/kwokka-ir/src/conductor/check.rs, Ir.Check is its `parse`, Ir.View the accessors of
--   spec.rs and stage.rs, and Ir.Blob is `validate` and `KwokkaIr::conductor`.
-- - TaskRef: the 64-bit handle of crates/kwokka-runtime/src/task/reference/identity.rs as its integer.
-- - Task: crates/kwokka-runtime/src/task/cell/state.rs. Task has each operation as one step on a cell,
--   Task.Retry the loop of `transition` against spurious failures and other threads, Task.Cancel that
--   of `cancel` with the calls of others before each of its accesses, Task.Graph arbitrary sequences
--   of calls, and Task.Poll is `poll_task` of lifecycle.rs with the calls that others make during the
--   poll as an input.
-- - Mpsc: crates/kwokka-runtime/src/sync/mpsc.rs. A cell is an option, with none for one that holds
--   no value, and a read of it is the result `uninit`. Mpsc has `push` and `pop` run to their ends,
--   Mpsc.Window states what a ring that holds a queue looks like, Mpsc.Refine the queue itself.
--   Mpsc.Threads splits `push` into its accesses to shared memory, and an action is one access of one
--   of any number of producers, or a `pop`.
-- - Bitmap: the words of bits and the loop over their set bits, as inflight.rs writes them out.
-- - Inflight: crates/kwokka-io/src/buffer/oneshot/inflight.rs, the buffers lent to the kernel. The
--   region of `mmap` is a list of bytes, a descriptor is its raw number. Inflight.Tokens has the
--   operations that search by token or descriptor, Inflight.Bytes the accesses to a slot's bytes, and
--   Inflight.Step makes the mutating calls one data type.
-- - Arena: crates/kwokka-core/src/arena/bump.rs. The buffer is its address, which the system's
--   allocator gives, and a dropping function is a value of a type parameter. Arena.Run makes the calls
--   one data type and keeps the regions handed out since the last reset.
-- - Children: crates/kwokka-runtime/src/task/join/children.rs, over the trait `TaskStorage` as a record
--   of operations, of the key that a reference is resolved by, and of the two laws of a store.
--   Children.Storage is crates/kwokka-runtime/src/task/cell/storage.rs, whose key has the index and the
--   generation of a reference and not its worker. A header is its two links and the rest.
-- - Timer: crates/kwokka-runtime/src/timer/wheel. A `NonZeroU32` is its number, and a clock what its
--   `now` answers. Timer.Slots is the doubly linked list of slot.rs, Timer.Wheel and Timer.Expire are
--   hierarchy.rs, Timer.Chain states which list the links of the entries form.
--
-- Loops. The loops of check.rs over a table recurse on fuel that starts as the table's length in
-- bytes; a round takes at least one byte, so the fuel never ends a loop. Loops over ranges recurse
-- on the number of rounds left. `lookup` starts with as much fuel as there are names, and its
-- interval of ranks gets shorter in every round. `transition` takes the list of what its exchanges
-- meet, and `cancel` what happens before each of its accesses. The loop of `push` on a ring ends in
-- its first round where no other thread interferes, and the loop over a word's set bits gets 64
-- rounds, one for each bit; the loop of `Drop` is shown to end within as many rounds as the ring
-- holds values, and that of `locate` within one round for each child. The loops of the timer wheel
-- answer `none` when the rounds that they are given do not do; nothing is said yet of how many they
-- need.
--
-- Not modelled: memory orderings weaker than one step per atomic access; the release of
-- values and buffers in `Drop`, and formatting; the values written into an arena; the IR writer;
-- the future of a sleep, the run queue, the scheduler and join handles; the rest of the I/O, network and file
-- crates, which are mostly system calls, and the macros.
pub mod Base
pub mod Arena
pub mod Bitmap
pub mod Children
pub mod Generation
pub mod Inflight
pub mod Ir
pub mod Mpsc
pub mod Pip
pub mod Slab
pub mod SlabKey
pub mod Task
pub mod TaskRef
pub mod Timer
