-- ===== src/Tests/Files.antt =====
-- Files: runs at concrete inputs.
use slicefs.Base.{
  ℕ, ◌^◌, ◌<◌, ◌≡◌, refl, arith, none, some, [], ◌∷◌, List, length, take, drop, false,
}
use slicefs.Base.Words.{Bytes}
use slicefs.Base.Keys.{nat_key}
use slicefs.Base.Results.{ok}
use slicefs.Base.Map
use slicefs.Base.Map.{Map}
use slicefs.Digest.{Digest224}
use slicefs.Blockset.{NoClash-of_none}
use slicefs.Sample.{sample, sample_accumulator, sample_digest, all_apart-AllApart}
use slicefs.Store
use slicefs.Segment.Writer
use slicefs.Wal.{root_update, flush_on_fsync_wal, flush_and_sync}
use slicefs.Store.{map_wal, Store}
use slicefs.Store.Inodes.{get_inode}
use slicefs.Inode.{serialize_inode}
use slicefs.Meta.{InodeMeta, IsMeta, new_file}
use slicefs.Filesystem
use slicefs.Filesystem.{SliceFsFilesystem, Now, changed_at}
use slicefs.Filesystem.Content.{
  pwrite, test_write, test_read, resize, find_writer, committed_content,
}
use slicefs.Filesystem.Handles.{fresh_handle, written_at, test_release, test_fsync}
use slicefs.Filesystem.Sizes.{resized_at, test_setattr_size, test_setattr}
use slicefs.Filesystem.Stored.{IsStorable, Shows, one_block}
use slicefs.Filesystem.Writes.{IsOpen}
use slicefs.Filesystem.Closing.{IsDirty, IsWritten}
use slicefs.Filesystem.Sequence.{
  Write, pwrite_all, InRange, write_all, test_read-write_all, test_release-write_all,
}
use slicefs.Filesystem.Syncing.{test_fsync_lem}
use slicefs.Filesystem.Writes.{test_write_lem}
use slicefs.Filesystem.Attributes.{Changes, changed}
use slicefs.Filesystem.Rename.{store_target, simulate_readlink}
use slicefs.Filesystem.Resizing.{test_setattr_size_closed, simulate_readlink-store_target}
use slicefs.Filesystem.Overwrite.{test_write_start, truncated, test_open-truncate, test_setattr_lem}
use slicefs.Filesystem.Truncation.{test_setattr_size_lem}

abbrev Disk : Type 0
Disk = Map Digest224 Bytes

abbrev Files : Type 0
Files = SliceFsFilesystem Disk Bytes

abbrev noon : Now
noon = record { sec = 43200; nsec = 5 }

abbrev file : InodeMeta
file = new_file 2 1000 1000 33188

file_bytes : Bytes
unfolding serialize_inode
file_bytes = serialize_inode file

-- A store with one inode, of the number 2.
plain_meta : Store Disk
unfolding file_bytes
plain_meta = record {
  io = (sample_digest file_bytes, file_bytes) ∷ [];
  inode_map = record { map = (2, sample_digest file_bytes) ∷ []; next_ino = 3 };
  inode_data = (2, sample_digest file_bytes) ∷ [];
  dir_data = [];
  manifest_data = [];
  xattr_data = [];
  refcounts = [];
  logical_bytes = 0;
  inode_count = 1;
  wal = some (flush_on_fsync_wal (root_update (sample_digest file_bytes) ∷ []) (Writer.new 1));
  last_root = none;
  snapshots_by_version = [];
  snapshots_by_name = [];
}

-- The file is open under the handle 1.
abbrev plain : Files
plain = record (Filesystem.new plain_meta none) {
  open_files = (1, fresh_handle 2) ∷ [];
  next_fh = 1;
}

plain-IsOpen : IsOpen plain 2 1 []
unfolding plain_meta Map.get slicefs.Filesystem.Content.committed_content
    slicefs.Store.Files.get_manifest
plain-IsOpen = record {
  file_state = fresh_handle 2;
  found = refl;
  owner = refl;
  tracks = record { mode = (refl, refl, tt, λ _. refl); count = refl; fits = omega arith };
  sole = (λ _. refl, tt);
}

plain-IsDirty : IsDirty plain 1
unfolding Map.get
plain-IsDirty = λ o e. let same : some (fresh_handle 2) ≡ some o = e in cc (same, clean)
  where
    clean : (fresh_handle 2).cas_committed ≡ false
    clean = refl

-- A stream of two bytes, and a write behind a gap.
abbrev writes : List Write
writes = (0, 1 ∷ 2 ∷ []) ∷ (4, 9 ∷ []) ∷ []

abbrev written : Bytes
written = 1 ∷ 2 ∷ 0 ∷ 0 ∷ 9 ∷ []

pwrite_all-writes : pwrite_all [] writes ≡ written
unfolding pwrite
pwrite_all-writes = refl

writes-InRange : InRange [] writes
unfolding pwrite
writes-InRange = (omega arith, (omega arith, tt))

abbrev after_writes : Files
after_writes = write_all plain 1 writes

test_read-write_all_example :
    (test_read after_writes 2 1 3).0 ≡ ok (take 3 (drop 1 (pwrite_all [] writes)))
unfolding pwrite
test_read-write_all_example =
    test_read-write_all plain 2 1 [] writes plain-IsOpen plain-IsDirty writes-InRange (omega arith)
      1 3

abbrev written_file : InodeMeta
written_file = written_at noon 5 file

-- The file with another size and other times.
abbrev variant : ℕ → ℕ → ℕ → ℕ → ℕ → InodeMeta
variant size mtime_sec mtime_nsec ctime_sec ctime_nsec = record file {
  size = size;
  mtime_sec = mtime_sec;
  mtime_nsec = mtime_nsec;
  ctime_sec = ctime_sec;
  ctime_nsec = ctime_nsec;
}

variant-IsMeta :
    (size mtime_sec mtime_nsec ctime_sec ctime_nsec : ℕ)
    → size < 2 ^ 32
    → mtime_sec < 2 ^ 32
    → mtime_nsec < 2 ^ 32
    → ctime_sec < 2 ^ 32
    → ctime_nsec < 2 ^ 32
    → IsMeta (variant size mtime_sec mtime_nsec ctime_sec ctime_nsec)
variant-IsMeta size mtime_sec mtime_nsec ctime_sec ctime_nsec a b c d e = record {
  ino = omega arith;
  mode = omega arith;
  uid = omega arith;
  gid = omega arith;
  nlinks = omega arith;
  size = omega arith;
  mtime_sec = omega arith;
  mtime_nsec = omega arith;
  ctime_sec = omega arith;
  ctime_nsec = omega arith;
}

written_file-IsMeta : IsMeta written_file
written_file-IsMeta =
    variant-IsMeta 5 43200 5 43200 5 (omega arith) (omega arith) (omega arith) (omega arith)
      (omega arith)

after_writes-IsStorable :
    IsStorable after_writes.meta 2
      (pwrite_all [] writes)
      file
      (written_at noon (length (pwrite_all [] writes)) file)
unfolding get_inode Map.get test_write Map.insert Map.remove plain_meta file_bytes
    slicefs.Filesystem.Content.write_in_mode slicefs.Filesystem.Content.fallback_content
    slicefs.Filesystem.Content.materialize slicefs.Inode.load_inode slicefs.Inode.deserialize_inode
    pwrite slicefs.Filesystem.Content.sized slicefs.Filesystem.Content.resize
    slicefs.Manifest.manifest_bytes serialize_inode
after_writes-IsStorable = record {
  there = refl;
  number = refl;
  meta = written_file-IsMeta;
  content_free = NoClash-of_none after_writes.meta.io written refl;
  manifest_free =
      NoClash-of_none (sample.push after_writes.meta.io written) (one_block written) refl;
  apart = all_apart-AllApart (written ∷ one_block written ∷ serialize_inode written_file ∷ []) refl;
}

test_release-write_all_example :
    ((test_release after_writes 2 1 noon).0 ≡ ok tt)
    × (Map.get (test_release after_writes 2 1 noon).1.open_files 1 ≡ none)
    × IsWritten
        (test_release after_writes 2 1 noon).1
        2
        (pwrite_all [] writes)
        (written_at noon (length (pwrite_all [] writes)) file)
unfolding pwrite
test_release-write_all_example =
    test_release-write_all plain 2 1 [] writes plain-IsOpen plain-IsDirty writes-InRange
      (omega arith) noon file after_writes-IsStorable

-- The same handle after two bytes.
abbrev short : Files
short = write_all plain 1 ((0, 1 ∷ 2 ∷ []) ∷ [])

short-IsOpen : IsOpen short 2 1 (1 ∷ 2 ∷ [])
unfolding pwrite
short-IsOpen = (test_write_lem plain 2 1 [] plain-IsOpen 0 (1 ∷ 2 ∷ []) (omega arith)).1

short-IsStorable : IsStorable short.meta 2 (1 ∷ 2 ∷ []) file (written_at noon 2 file)
unfolding get_inode Map.get test_write Map.insert Map.remove plain_meta file_bytes
    slicefs.Filesystem.Content.write_in_mode slicefs.Filesystem.Content.fallback_content
    slicefs.Filesystem.Content.materialize slicefs.Inode.load_inode slicefs.Inode.deserialize_inode
    pwrite slicefs.Filesystem.Content.sized slicefs.Filesystem.Content.resize
    slicefs.Manifest.manifest_bytes serialize_inode
short-IsStorable = record {
  there = refl;
  number = refl;
  meta =
      variant-IsMeta 2 43200 5 43200 5 (omega arith) (omega arith) (omega arith) (omega arith)
        (omega arith);
  content_free = NoClash-of_none short.meta.io (1 ∷ 2 ∷ []) refl;
  manifest_free =
      NoClash-of_none (sample.push short.meta.io (1 ∷ 2 ∷ [])) (one_block (1 ∷ 2 ∷ [])) refl;
  apart =
      all_apart-AllApart
        ((1 ∷ 2 ∷ []) ∷ one_block (1 ∷ 2 ∷ []) ∷ serialize_inode (written_at noon 2 file) ∷ [])
        refl;
}

test_fsync_lem_example :
    ((test_fsync short 2 1 noon).0 ≡ ok tt)
    × IsOpen (test_fsync short 2 1 noon).1 2 1 (1 ∷ 2 ∷ [])
    × IsWritten (test_fsync short 2 1 noon).1 2 (1 ∷ 2 ∷ []) (written_at noon 2 file)
    × ((test_fsync short 2 1 noon).1.meta.wal ≡ map_wal flush_and_sync short.meta.wal)
test_fsync_lem_example =
    test_fsync_lem short 2 1 (1 ∷ 2 ∷ []) noon file short-IsOpen short-IsStorable (omega arith)

test_setattr_size_lem_example :
    IsOpen (test_setattr_size short 2 (some 1) 4 noon).1 2 1 (resize (1 ∷ 2 ∷ []) 4)
    × ((offset size : ℕ)
        → (test_read (test_setattr_size short 2 (some 1) 4 noon).1 2 offset size).0
          ≡ ok (take size (drop offset (resize (1 ∷ 2 ∷ []) 4))))
test_setattr_size_lem_example =
    test_setattr_size_lem short 2 1 (1 ∷ 2 ∷ []) 4 noon short-IsOpen (omega arith) (omega arith)

plain_found : Map.get plain.open_files 1 ≡ some (fresh_handle 2)
unfolding Map.get
plain_found = refl

test_write_start_example :
    IsOpen (test_write plain 1 0 (7 ∷ [])).1 2 1 (7 ∷ [])
    × ((offset size : ℕ)
        → (test_read (test_write plain 1 0 (7 ∷ [])).1 2 offset size).0
          ≡ ok (take size (drop offset (7 ∷ []))))
test_write_start_example =
    test_write_start plain 2 1 plain_found (λ _. refl, tt) (7 ∷ []) (omega arith) (omega arith)

-- The file, closed, with two bytes.
filled_meta : Store Disk
filled_meta = record plain_meta {
  io = sample.push (sample.push plain_meta.io (1 ∷ 2 ∷ [])) (one_block (1 ∷ 2 ∷ []));
  manifest_data = (2, sample_digest (one_block (1 ∷ 2 ∷ []))) ∷ [];
}

abbrev filled : Files
filled = Filesystem.new filled_meta none

filled-Shows : Shows filled.meta 2 (1 ∷ 2 ∷ [])
unfolding get_inode Map.get test_write Map.insert Map.remove plain_meta file_bytes
    slicefs.Filesystem.Content.write_in_mode slicefs.Filesystem.Content.fallback_content
    slicefs.Filesystem.Content.materialize slicefs.Inode.load_inode slicefs.Inode.deserialize_inode
    pwrite slicefs.Filesystem.Content.sized slicefs.Filesystem.Content.resize
    slicefs.Manifest.manifest_bytes serialize_inode filled_meta slicefs.Store.Files.get_manifest
    slicefs.Manifest.load_manifest slicefs.Manifest.parse_manifest find_writer
filled-Shows = (refl, refl)

filled-IsStorable : IsStorable filled.meta 2 (resize (1 ∷ 2 ∷ []) 3) file (resized_at noon 3 file)
unfolding get_inode Map.get test_write Map.insert Map.remove plain_meta file_bytes
    slicefs.Filesystem.Content.write_in_mode slicefs.Filesystem.Content.fallback_content
    slicefs.Filesystem.Content.materialize slicefs.Inode.load_inode slicefs.Inode.deserialize_inode
    pwrite slicefs.Filesystem.Content.sized slicefs.Filesystem.Content.resize
    slicefs.Manifest.manifest_bytes serialize_inode filled_meta slicefs.Store.Files.get_manifest
    slicefs.Manifest.load_manifest slicefs.Manifest.parse_manifest find_writer
filled-IsStorable = record {
  there = refl;
  number = refl;
  meta =
      variant-IsMeta 3 0 0 43200 5 (omega arith) (omega arith) (omega arith) (omega arith)
        (omega arith);
  content_free = NoClash-of_none filled.meta.io (1 ∷ 2 ∷ 0 ∷ []) refl;
  manifest_free =
      NoClash-of_none (sample.push filled.meta.io (1 ∷ 2 ∷ 0 ∷ [])) (one_block (1 ∷ 2 ∷ 0 ∷ []))
        refl;
  apart =
      all_apart-AllApart
        ((1 ∷ 2 ∷ 0 ∷ [])
          ∷ one_block (1 ∷ 2 ∷ 0 ∷ [])
          ∷ serialize_inode (resized_at noon 3 file)
          ∷ [])
        refl;
}

filled_closed : find_writer 2 filled.open_files ≡ none
unfolding get_inode Map.get test_write Map.insert Map.remove plain_meta file_bytes
    slicefs.Filesystem.Content.write_in_mode slicefs.Filesystem.Content.fallback_content
    slicefs.Filesystem.Content.materialize slicefs.Inode.load_inode slicefs.Inode.deserialize_inode
    pwrite slicefs.Filesystem.Content.sized slicefs.Filesystem.Content.resize
    slicefs.Manifest.manifest_bytes serialize_inode filled_meta slicefs.Store.Files.get_manifest
    slicefs.Manifest.load_manifest slicefs.Manifest.parse_manifest find_writer
filled_closed = refl

filled_read : get_inode filled.meta 2 ≡ ok file
unfolding get_inode Map.get test_write Map.insert Map.remove plain_meta file_bytes
    slicefs.Filesystem.Content.write_in_mode slicefs.Filesystem.Content.fallback_content
    slicefs.Filesystem.Content.materialize slicefs.Inode.load_inode slicefs.Inode.deserialize_inode
    pwrite slicefs.Filesystem.Content.sized slicefs.Filesystem.Content.resize
    slicefs.Manifest.manifest_bytes serialize_inode filled_meta slicefs.Store.Files.get_manifest
    slicefs.Manifest.load_manifest slicefs.Manifest.parse_manifest find_writer
filled_read = refl

empty_free :
    sample.file_storage_get filled.meta.io
      (sample_digest (serialize_inode (resized_at noon 0 file)))
    ≡ none
unfolding get_inode Map.get test_write Map.insert Map.remove plain_meta file_bytes
    slicefs.Filesystem.Content.write_in_mode slicefs.Filesystem.Content.fallback_content
    slicefs.Filesystem.Content.materialize slicefs.Inode.load_inode slicefs.Inode.deserialize_inode
    pwrite slicefs.Filesystem.Content.sized slicefs.Filesystem.Content.resize
    slicefs.Manifest.manifest_bytes serialize_inode filled_meta slicefs.Store.Files.get_manifest
    slicefs.Manifest.load_manifest slicefs.Manifest.parse_manifest find_writer
empty_free = refl

link-IsStorable : IsStorable plain.meta 2 (97 ∷ []) file (record file { size = 1 })
unfolding get_inode Map.get test_write Map.insert Map.remove plain_meta file_bytes
    slicefs.Filesystem.Content.write_in_mode slicefs.Filesystem.Content.fallback_content
    slicefs.Filesystem.Content.materialize slicefs.Inode.load_inode slicefs.Inode.deserialize_inode
    pwrite slicefs.Filesystem.Content.sized slicefs.Filesystem.Content.resize
    slicefs.Manifest.manifest_bytes serialize_inode filled_meta slicefs.Store.Files.get_manifest
    slicefs.Manifest.load_manifest slicefs.Manifest.parse_manifest find_writer
link-IsStorable = record {
  there = refl;
  number = refl;
  meta =
      variant-IsMeta 1 0 0 0 0 (omega arith) (omega arith) (omega arith) (omega arith)
        (omega arith);
  content_free = NoClash-of_none plain.meta.io (97 ∷ []) refl;
  manifest_free = NoClash-of_none (sample.push plain.meta.io (97 ∷ [])) (one_block (97 ∷ [])) refl;
  apart =
      all_apart-AllApart
        ((97 ∷ []) ∷ one_block (97 ∷ []) ∷ serialize_inode (variant 1 0 0 0 0) ∷ []) refl;
}

test_setattr_size_closed_example :
    ((test_setattr_size filled 2 none 3 noon).0 ≡ ok tt)
    × IsWritten
        (test_setattr_size filled 2 none 3 noon).1
        2
        (resize (1 ∷ 2 ∷ []) 3)
        (resized_at noon 3 file)
test_setattr_size_closed_example =
    test_setattr_size_closed filled 2 (1 ∷ 2 ∷ []) 3 noon file filled-Shows filled_closed
      filled-IsStorable (omega arith)

simulate_readlink-store_target_example :
    ((store_target plain.meta 2 (97 ∷ [])).0 ≡ ok 2)
    × (simulate_readlink (store_target plain.meta 2 (97 ∷ [])).1 2 ≡ ok (97 ∷ []))
    × (get_inode (store_target plain.meta 2 (97 ∷ [])).1 2 ≡ ok (record file { size = 1 }))
unfolding slicefs.Base.Utf8.is_utf8
simulate_readlink-store_target_example =
    simulate_readlink-store_target plain.meta 2 (97 ∷ []) file refl link-IsStorable

test_open-truncate_example :
    (get_inode (truncated filled 2 noon).meta 2 ≡ ok (resized_at noon 0 file))
    × (committed_content (truncated filled 2 noon).meta 2 ≡ 1 ∷ 2 ∷ [])
test_open-truncate_example =
    test_open-truncate filled 2 (1 ∷ 2 ∷ []) noon file filled-Shows filled_read refl
      (variant-IsMeta 0 0 0 43200 5 (omega arith) (omega arith) (omega arith) (omega arith)
        (omega arith))
      (NoClash-of_none filled.meta.io (serialize_inode (resized_at noon 0 file)) empty_free)

abbrev chmod : Changes
chmod = record { mode = some 384; uid = none; gid = none; mtime = none }

abbrev chmodded : InodeMeta
chmodded = changed_at noon (changed chmod file)

test_setattr_lem_example :
    ((inode : InodeMeta)
      → get_inode plain.meta 2 ≡ ok inode
      → inode.ino ≡ 2
      → IsMeta (changed_at noon (changed chmod inode))
      → ((test_setattr plain 2 chmod none none noon).0 ≡ ok (changed_at noon (changed chmod inode)))
        × (get_inode (test_setattr plain 2 chmod none none noon).1.meta 2
            ≡ ok (changed_at noon (changed chmod inode))))
    × ((new_size : ℕ) (others : Changes)
        → test_setattr plain 2 chmod (some new_size) none noon
          ≡ test_setattr plain 2 others (some new_size) none noon)
test_setattr_lem_example = test_setattr_lem plain 2 chmod none noon
