-- ===== src/Lib.antt =====
-- monaka-fs: a virtual file system in memory (crates/core/fs-core), which adapters, hosts and RPC
-- servers bind to WASI, and which a sync layer copies to an object store. What is modelled is the core
-- crate and the core of the sync layer, as a shallow embedding: data as records and data types,
-- functions as functions.
--
-- The parts, with the file of crates/core/fs-core/src/ that each is about:
--   * Storage (storage.rs): the contents of a file in blocks of 4096 bytes that are allocated when they
--     are written. `BlockStorage`, `read`, `write` and `truncate` are those of the source. A method
--     that changes its receiver returns the new one. Each loop recurses on fuel, the length of the
--     buffer or of the data, which is enough since a round moves at least one byte; the loop that grows
--     the vector has the rounds that bring it to the index. Storage.File is the plain file that the
--     blocks stand for; Storage.Refine is about the two.
--   * Inode (inode.rs, handle.rs, types.rs), Error (error.rs), Time (time.rs): what the tables hold,
--     the flags, the errors with their numbers, and the source of time stamps, an instance argument.
--   * Path: how fs.rs takes a path apart. A name is the list of its bytes. Path.Spelling says, apart from
--     the code, which names a path spells.
--   * Fs (fs.rs): the two tables and the counters as a record, and the calls as functions from the state
--     to a result and the state that is left, errors included (Fs.Exec). Fs.Create, Fs.Open, Fs.Io,
--     Fs.Seek, Fs.Dirs, Fs.Remove and Fs.Rename have the calls under their names in the source. A
--     reference to an inode is its key and what the table holds there; the source keeps a shared cell,
--     which the table never replaces. Fs.Invariant says when a state is well formed and has the rules
--     by which each call keeps it so; Fs.Behaviour says what the calls do.
--   * Snapshot (snapshot.rs): the file system as plain data and back, by way of `Storage.read`,
--     `Storage.write` and `inode_insert`. What serde makes of the data is not modelled.
--   * Sync (crates/sync/vfs-sync-core/src/): the copy of a file system in an object store.
--       Types, FileMetadata, Config, Backend are types.rs, file_metadata.rs, config.rs, fs_backend.rs.
--       Store (object_store.rs) is the store as an interface, with the layout of its keys and the
--       helpers on paths; Store.Memory (testing.rs) is the store in memory, with conditional requests.
--       Lease (lease.rs) has the record of a lease and its text, the table of leases, and `acquire`,
--       `renew` and `release`; Lease.System cuts these at their calls of the store and interleaves
--       any number of instances.
--       Manager (sync_manager.rs) has the state of the manager as a record, and its methods as calls
--       that return their outcome and the state that is left: Manager.Upload, .Leases, .Closing,
--       .Dirs, .Flush, .Poll, .Load and .Tick; the other children have the proofs.
--       The world that a call works on (the store, the local file system, the clocks) is a type `W`,
--       with ObjectStore, FsBackend and Clock as instance arguments (Sync.Exec).
--   * Text: UTF-8, lines, trimming and decimal numbers, as the standard library has them.
--   * Map, Key: `BTreeMap` as an association list in the order of its keys. A `HashMap` or `HashSet` (the
--     tables of leases, ETags and markers of the sync layer) is the same: it lists its keys in an order
--     that the source leaves open, and here in that of the keys. Prelude: lists, tests and numbers that
--     the parts share.
--
-- How they interact: a call of Fs looks its descriptor or path up in the tables, reads or changes one
-- file by the calls of Storage, and writes the inode and the descriptor back; Snapshot reads the whole
-- inode table and makes a new one.
-- The manager calls the store and the local file system, asks the cache for the ETag that it saw last,
-- and takes a lease before a file is opened for writing; the lease is an object of the same store.
--
-- Numbers: `usize` is the one of 64 bits, additions of it wrap at 2 ^ 64, inode ids wrap at 2 ^ 64 and
-- descriptors at 2 ^ 32. An `i64` is its bit pattern, and the sums in `seek` wrap, as a release build
-- does. Where a theorem needs that nothing wraps, it says so. Durations and instants of the sync layer
-- are in milliseconds; the sums that the source makes in a `u64` wrap.
--
-- Fuel: `acquire` has a round for every 50 milliseconds of its timeout and two more, since a pause takes
-- so long; `force_flush` and the wait for a lease that is being released take their fuel as an
-- argument, and answer `none` when it is used up.
--
-- A call of the manager runs to its end before the next one; what other instances do in the meantime
-- is in the world that the store's calls leave.
--
-- Not modelled: the flavour with the feature thread-safe, whose calls interleave at their locks, and the
-- threads of one host in the sync manager; log messages and the texts of errors; the clients of S3, the
-- RPC protocol and its servers, the adapters and hosts, the command line tool, benchmarks and examples.
pub mod Prelude
pub mod Storage
pub mod Key
pub mod Map
pub mod Path
pub mod Text
pub mod Error
pub mod Time
pub mod Inode
pub mod Fs
pub mod Snapshot
pub mod Sync
