-- ===== src/Lib.antt =====
-- A model of parts of COS, an experimental x86-64 operating system in Rust.
--
-- Parts and files
--
-- - Locks: library/async_locks/src. Locks/Semaphore models semaphore.rs: one record holds the
--   atomic counter, the locked queue, the futures with their wakers, the live guards and the calls of
--   `release` that dropped futures still owe. Each function is one atomic step of the code:
--   `try_acquire`, `enqueue` (`queue`), `release` with its loop `serve`, `give_up` (the swap in `drop`
--   of a future), `take_grant`, `drop_guard`, `release_part`. `poll` and `drop_future` compose them as
--   the code does. Run makes any sequence of such steps of any tasks; the argument `rounds` of
--   `release` says which futures are dropped between the load and the exchange of each round of its
--   loop. Mutex and RwLock model mutex.rs and rwlock.rs over it. Spsc models channel/spsc.rs: one
--   record holds both sides and what they share, each semaphore as the permits that its user can
--   take; Moves makes any interleaving of the steps of the two sides.
-- - Disk: library/filesystem/src/device. Block models mod.rs: the trait `BlockDevice` as a record of
--   operations over a state, its default methods, and the laws that a client relies on. Memory models
--   memory.rs and keeps these laws. Mbr models mbr.rs over any block device.
-- - Fs: library/filesystem/src/fs/fat32.rs, over any block device. Types holds the structures on the
--   disk, the state `Fat32` (`Fat32Inner` with the store of its device) and the monad of the
--   operations, whose outcome is a value, an error, a failed assertion or the end of the fuel. Table
--   models the allocation table (`get_next_cluster`, `update_cluster`, `find_available_cluster`,
--   `free_cluster`, chains), Name the long entries of a file name, Mount `mount` and `with_format`,
--   Directory the walk over entries and their creation and removal, System the operations of the
--   file system and of file handles; Transfer holds the copying of `read` and `write`, and Reader
--   makes an open handle a file for Elf, by the traits that fs/mod.rs implements. Calls makes the
--   calls of a handle one sequence, with what others do to the file system in between.
-- - Kernel: kernel/src. Keyboard models io/keyboard.rs: the tables and `handle_keyboard_scan`, which
--   answers with the byte it offers to the channel. Vga models display/vga_text.rs: the buffer, the
--   cursor and the port writes. Physics models the accesses of memory/physics.rs through the temporary
--   page of memory/page.rs, and Frames the frame allocator over them, whose free list lies in the
--   freed frames. ElfLoader models multitask/elf_loader.rs as an instance of the loader of Elf, with
--   the page types of multitask/process.rs; the mapping of frames is an interface.
-- - Elf: library/async_io and library/elf. Io models `AsyncRead`, `Seekable` and `read_exact` over a
--   state, with the laws of a file; File models `from_io`, Load models `Loader` and `load`. Each is
--   stated for every reader and loader that keeps the laws. The open file handle of Fs keeps those
--   of a file.
-- - Boot: bootloader/src/memory.rs, `normalize_memory_region` step by step: `restrict` (step 2),
--   `resolve` (3), `remove_empty` (4), the loop `rounds` over these two, `merge` (5). The sort of
--   Rust's library is an argument with the laws of a sort by base address. The regions are those that
--   Kernel.Frames takes.
-- - Heap: library/heap/src/lib.rs. `allocate` and `deallocate` of `RustHeap` over any provider of
--   pages; memory is the head of each page and the link in each free slot. `add_page` and `take_slot`,
--   `give_slot` and `unlink` are their parts.
-- - RbTree: library/try_alloc/src/collection/rbtree, `RBTreeMap` on a store of nodes by address, each
--   with its parent, children, color and entry; the NIL node is one of them. A run ends, fails an
--   assertion, or ends the fuel. RbTree holds the rotations, `insert_fixup` and `replace`, whose parts
--   are `turn_left`, `fix_left`, `raise_right`, `copied`, `exchanged` and their like; Ops the
--   operations that search and insert, Delete those that take a node out. Shape says which tree the
--   nodes make, seen from a subtree in its context, and Balance the rules of a red-black tree; Map
--   reads the map as a sorted list, and Sequence makes any number of insertions. The key type is its
--   own borrowed form, and the comparison is an argument with the laws of `Ord`. An address that the
--   allocator gives, or none, is an argument.
-- - Paths: library/filesystem/src/path/mod.rs, with `String::from_utf8` as a test on bytes.
--
-- Bounds
--
-- Loops recur on the list or the count that they walk. The copy loops of Kernel.Physics and Elf, which
-- walk by what a page or a read yields, recur on fuel: the number of bytes, since each round moves at
-- least one; the results on them are equations or successes, so they also say that this is enough.
-- The loops of Fs along the table and along chains recur on fuel and answer `out_of_fuel` at its end;
-- the results say how much is enough, for the table the number of clusters, for a chain its length.
-- The loop of Boot recurs on fuel; each round but the last raises a base address or drops a region, so
-- that 2^64 rounds for each region are enough.
-- The loop of Heap that links the slots of a page recurs on one round for each byte of the page.
-- The loops of RbTree recur on fuel; as many rounds as the tree has nodes, and one, are enough to
-- search and to insert.
-- Machine integers are native numbers; where the code wraps or tests a width, the width is written
-- out. The permits of a semaphore are bounded by the total that the first result states.
--
-- Not modelled
--
-- Memory orderings and the scheduling of woken tasks; hardware access; the text of short file names, the `Debug` output of a map,
-- and the cast of a structure to its bytes other than as its encoding; the parts that the manifest
-- lists as not modelled.
pub mod Base
pub mod Boot
pub mod Locks
pub mod Disk
pub mod Kernel
pub mod Elf
pub mod Heap
pub mod Paths
pub mod RbTree
pub mod Fs
