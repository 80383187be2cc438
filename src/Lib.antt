-- ===== src/Lib.antt =====
-- SliceFS, a deduplicating file system: its metadata engine and the file system on it.
--
-- The engine keeps a table of inodes, directories, manifests and extended attributes in memory, each
-- entry the digest of a byte string in a content-addressed storage. A commit writes the tables
-- themselves into that storage, and a root record that names them; the root goes to a write-ahead log
-- of segment files. After a restart the segment files are replayed: the last root and the snapshots
-- are found, and the store is loaded from the root.
--
-- The file system keeps a table of open handles over one store. A handle streams its bytes into an
-- accumulator of the storage while the writes are in sequence, and holds them in a buffer after the
-- first write that is not. A sync or a release finishes what the handle holds into a digest and makes
-- it the manifest of the inode, counts included. The request handlers turn the operations' results
-- into replies.
--
-- The files, and the code they model (paths below crates/metadata/src unless given in full):
-- Base and its children: lists, results, byte words, UTF-8, ordered maps (`BTreeMap`, `HashMap`).
-- Digest, Meta: crates/slicefs-traits/src/digest.rs and crates/slicefs-traits/src/metadata.rs.
-- Blockset: the crate `blockset` (submodule crates/data-id), a parameter: a storage that pushes byte
--   strings under their digests and reads them back. Blockset.Accumulator is its type `State`: bytes
--   pushed in parts and finished have the digest of the whole. Sample is one such storage.
-- Records, Counted: the fixed-width reads and the counted strings that several files share.
-- Inode, InodeMap, Manifest, Xattr, Directory: inode.rs, inode_map.rs, manifest.rs, xattr.rs,
--   directory.rs, one definition per function. A `str` is the list of its bytes.
-- Segment: segment/mod.rs (header, records), with Segment.Writer (segment/writer.rs),
--   Segment.Reader (segment/reader.rs), Segment.Compaction (segment/compaction.rs), Segment.Replay
--   (`load_store_from_segments`); Segment.Payload, Segment.Fuel and Segment.Crash hold proofs.
-- Wal: wal/*.rs, the four strategies; Wal.Refine has what a strategy promises, Wal.Recovery what is
--   read after a crash.
-- MapNode: the map nodes of store.rs. Store and its children: `DictMetadataStore` of store.rs, by
--   groups of operations; Store.Commit is `commit` and `load_from_root`.
-- Mount: mount_lock.rs, and `load_store` and `next_segment_id` of crates/slicefs-cli/src/mount.rs.
-- Cas: crates/cas-local/src, with Cas.Chunker (fixed_chunker.rs), Cas.BlockStore (mem_block_store.rs;
--   the hash is a parameter), Cas.DiskStore (disk_block_store.rs; the files are a map of paths, and a
--   hash has at least two bytes) and Cas.DedupIndex (mem_dedup_index.rs; the Bloom filter of the crate
--   `fastbloom` is a parameter that never denies what was inserted).
-- Compression: crates/slicefs-compression/src and crates/slicefs-traits/src/compressor.rs; the codecs
--   of the crates `zstd` and `lz4_flex` are parameters that decode what they encoded.
-- Gc: gc/mod.rs and crates/slicefs-cli/src/gc.rs, the garbage collector over the segment files; Gc.Kept
--   has what it keeps.
-- Commands: crates/slicefs-cli/src/snapshot.rs, the commands on an unmounted store; Commands.Switch has
--   what the next replay finds, Commands.Names the names of segment files.
-- Filesystem: crates/slicefs-cli/src/filesystem.rs, its state (`SliceFsFilesystem`, `OpenFileState`,
--   `WriteMode`) and the error numbers. Its children with definitions are Filesystem.Attributes
--   (attributes, statfs), Filesystem.Names (nodes, directories, hard links), Filesystem.Rename
--   (`simulate_rename`, symbolic links), Filesystem.Content (`test_write`, `test_read`),
--   Filesystem.Handles (`test_create`, `test_fsync`, `test_release`, `test_destroy`), Filesystem.Sizes
--   (`test_setattr_size`, `test_open`, `test_setattr`) and Filesystem.Handlers
--   (crates/slicefs-cli/src/handlers.rs). The other children hold proofs: Ranges, Storage, Writes,
--   Stored and Sequence on sequences of writes; Syncing, Release and Closing on what becomes the
--   content; Truncation, Resizing and Overwrite on sizes; Creation, Refusal, Removal and Links on names.
-- Tests: runs at concrete inputs.
--
-- State: a store is a record of the struct's fields, and an operation takes one and returns a result
-- beside the store that is left, also where the result is an error. A segment writer is the bytes on
-- disk and those in the buffer. Machine integers are natural numbers; where the source wraps, the
-- model has `% 2 ^ w`.
--
-- Fuel: the loops over bytes (the segment reader, the attributes, the chunker) run on fuel, the number
-- of bytes: each round consumes at least one byte, so that this is enough (Segment.Fuel,
-- Xattr.RoundTrip, Cas.Chunker); the decimal digits of a 64-bit number take at most 20 rounds
-- (Commands.Names). All other loops are structural.
--
-- The clock is an argument of the operations that read it. The ends of writes are taken to fit 64
-- bits where a theorem says so. The lock of the storage is not modelled, so that the store and the
-- file system work on one storage. Where several handles write one inode, the one with the least
-- number is read, since the order of the hash map is not specified. O_TRUNC has its value on Linux.
--
-- Not modelled: locks (each operation is one step), the errors of system calls, the messages of
-- errors and the log output, the iteration orders of hash maps; the callbacks of the crate `fuser`
-- (crates/slicefs-cli/src/fuse_callbacks.rs, which pass each request to its handler) and the rest of
-- the command line (crates/slicefs-cli), and the thread of the background collector.
pub mod Base
pub mod Digest
pub mod Blockset
pub mod Meta
pub mod Records
pub mod Inode
pub mod Counted
pub mod Manifest
pub mod InodeMap
pub mod Xattr
pub mod Directory
pub mod Filesystem
pub mod Snapshot
pub mod Segment
pub mod Wal
pub mod MapNode
pub mod Store
pub mod Sample
pub mod Tests
pub mod Cas
pub mod Mount
pub mod Commands
pub mod Compression
pub mod Gc
