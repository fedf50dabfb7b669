-- ===== src/Lib.antt =====
-- Fairy: a verification library for the parts of the distributed cache that carry its own logic.
--
-- The repository holds an io_uring runtime (`runtime`), two FUSE stacks and a file system on top of
-- them (`fuse`), and the client, worker and common crates around them. The runtime runs tasks whose
-- life is kept in one atomic word, and keeps operations in flight in a slab. The threaded FUSE layer
-- translates inode numbers to paths through a table with lookup counts. The simple file system keeps
-- inodes, directories and file contents in a data directory, and checks permissions.
--
-- Modules, and the code that each is about:
-- Prelude: shared names, tests, lists, maps as functions, code that may panic, bit operations.
-- Task: runtime/src/task/state.rs. State has the constants and the methods of `Snapshot` on words,
--   Transitions the operations of `State`, Loop the compare-and-swap loop that carries most of them
--   out, View the flags and the count that a word stands for, Spec what each operation promises on
--   them, and Refinement the proof that the words keep the promise. Cell is runtime/src/task/core.rs
--   with the queue of the thread, Harness runtime/src/task/harness.rs and runtime/src/scheduler.rs, and
--   Handles the wakers, the join handle and the poll of runtime/src/task. Ownership has a task from its
--   spawn on, and what its wakers, its handle and the executor may do to it: Words, Waking, Joining,
--   Detaching, Using, Ending and Running prove what each of them keeps, Histories takes them together,
--   and Wakeups and Outputs prove what becomes of a wake and of an output.
-- Slab: runtime/src/utils/slab.rs. Page has `Page` and `Entry` (with the free list in Page.Free and
--   the page as a map in Page.Map), Slab itself `Slab` and `get_page_id`; Keys, Values, Store and
--   Adding prove the slab a partial map from keys to values.
-- SimpleFs: fuse/src/filesystem.rs, the file system that keeps its inodes and contents under a data
--   directory. Its root has the types and the handlers as steps on the store, Libc the constants, Access
--   the permissions, Times the clock, Store the methods on the data directory, Creating, Removing,
--   Attributes and Data the handlers. Permissions, Clock, Contents, Handles, Listing, Entries,
--   Directories, Unlinking and Setattr prove what these do; Atomic, Steps, Undoing and Errors prove what an
--   error leaves unchanged. Codec is a codec for directories that the tests take for `bincode`.
-- InodeTable: fuse/src/async_fuse/inode_table.rs. Paths and Invariant have what every operation
--   keeps, History the histories of calls, Mapping what the operations do to the map, and Forgetting what
--   the kernel's references to an inode do to it.
-- FuseMt: fuse/src/async_fuse/fusemt.rs and directory_cache.rs beside it, the threaded FUSE layer. Its
--   root has the directory cache and the handlers that change it or the inode table, Directories the
--   listing of a directory, Requests the handlers that change neither. Inodes proves what the calls keep
--   of the table of InodeTable, Paging what a kernel gets that lists a directory to its end, Removing
--   what becomes of a removed directory, Remaking of a file that is removed and made again. The file
--   system below is a parameter: what it answers.
-- Uring: runtime/src/driver/uring/lifecycle.rs, with what mod.rs beside it and runtime/src/driver/op/mod.rs
--   do to an operation. Its root has the operation and its steps, Histories the proof that each history of
--   its owner and of the kernel has an outcome.
-- UringFs: fuse/src/uring_fuse/uring_fs, a file system on the uring stack that keeps inodes by number and
--   by path, and a list of names for each directory. Its root has inode.rs, list_cache.rs and the
--   handlers of mod.rs; Index and Listing prove what lookups and listings find.
-- Session: fuse/src/uring_fuse, from the mount to the methods of a file system. Its root has the session of
--   session.rs, the dispatch of request.rs and the reply of reply/reply_raw.rs; Config `KernelConfig` of
--   mod.rs, Operations and Routes the operations and their methods, Running the loop, the start and the
--   end, Serving the default methods of filesystem.rs and the file system of uring_fs under a session.
--   Limits, Protocol, Replies and Access prove what configurations, file systems, clients and users may
--   rely on.
-- Wire: fuse/src/uring_fuse/low_level, from the bytes of a message to the request that Session dispatches.
--   Its root has the iterator of argument.rs and how structures are read, Layouts the structures of
--   kernel_interface.rs, Parsing the opcodes and `parse` of op.rs, Meaning the methods of the operations,
--   Requests the header and `Request::new`. Encoding says how the kernel lays out a request; Words, Encoded,
--   Fetching, Front and Matching prove that parsing is its inverse, Receiving and Faults what becomes of
--   messages. The crates `zerocopy` and `memchr` are an interface, with laws that say what they document.
-- MountOptions: fuse/src/uring_fuse/mount/mount_options.rs, the options of a mount. Printing, Parsing and
--   Conflicts prove what becomes of printed options, and which are refused together.
--
-- Conventions. Numbers are natural numbers; a `usize` or `u64` that the code lets wrap is taken
-- modulo 2 ^ 64, and one that panics on overflow is checked. Code that may panic returns an option,
-- and none is the panic; debug assertions are checked, as in a debug build. Reads that the code
-- performs unchecked are none where they would be undefined. Hash maps are functions from keys to
-- options. Paths are any type with a Boolean equality, which stands for that of `PathBuf`.
-- In SimpleFs the data directory is part of the state: a handler takes it to a reply, to an error number
-- or to a panic. A file that cannot be opened is a missing file, and every write to one succeeds; the
-- files of inodes hold the attributes themselves, while directories go through `bincode`, which is an
-- interface with one law. Handlers take the readings of the clock as an argument, one for each call of
-- `time_now`, and the groups of a process as a part of the request.
-- Fuel: `bit_length` takes 64 rounds, since its argument is below 2 ^ 64; `insert_from` takes one round
-- for each page from the write page to the last; the compare-and-swap loop recurs on the list of
-- words that its swaps find.
-- The loop over powers of ten in Session takes ten rounds, since the value is at most a second.
-- In Session a method uses its reply before it returns, or keeps it: a use by another thread is one of its
-- own, at any later time.
--
-- In Task.Ownership one operation runs at a time, as on one thread; the wakes of other threads are an
-- operation of their own. The future is a function from its state to what it does when it is polled.
--
-- Not modelled: atomic memory orderings (operations on one word are taken in the order of their
-- swaps), logging, the drop of values, the pool of threads of the threaded FUSE layer, the
-- bytes of replies, the kernel and network input and output.
pub mod Prelude
pub mod InodeTable
pub mod Task
pub mod Slab
pub mod SimpleFs
pub mod UringFs
pub mod MountOptions
pub mod Uring
pub mod FuseMt
pub mod Session
pub mod Wire
