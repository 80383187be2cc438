-- ===== src/Filesystem/Content.antt =====
-- crates/slicefs-cli/src/filesystem.rs: writing at an offset of an open handle, and reading.
use slicefs.Base.{
  ℕ, ◌+◌, ◌-◌, ◌%◌, ◌^◌, min, ◌==◌, ltb, ◌&&◌, Bool, false, if◌then◌else◌, Option, none, some, List,
  [], ◌∷◌, ◌++◌, length, take, drop, slice, zero, suc,
}
use slicefs.Base.Words.{Bytes}
use slicefs.Base.Keys.{nat_key}
use slicefs.Base.Results.{Result, ok, err, ok_or, ◌>>=◌, and_then}
use slicefs.Base.Map
use slicefs.Base.Map.{Map}
use slicefs.Digest.{Digest224}
use slicefs.Blockset.{Blockset}
use slicefs.Blockset.Accumulator.{Accumulator}
use slicefs.Meta.{MetaError}
use slicefs.Store.{Store}
use slicefs.Store.Refcounts.{decrement_refcount}
use slicefs.Store.Directories.{map_err}
use slicefs.Store.Files.{get_manifest}
use slicefs.Filesystem.{
  Errno, eio, ebadf, WriteMode, streaming, buffered, OpenFileState, SliceFsFilesystem,
}

abbrev pub zeros : ℕ → Bytes
zeros zero = []
zeros (suc n) = 0 ∷ zeros n

-- `buf.resize(n, 0)`
unfoldable pub resize : Bytes → ℕ → Bytes
resize buf n = take n buf ++ zeros (n - length buf)

-- `if end > buf.len() { buf.resize(end, 0) }`
unfoldable pub sized : Bytes → ℕ → Bytes
unfolding resize
sized buf end = if ltb (length buf) end then resize buf end else buf

-- `buf[offset..end].copy_from_slice(data)`, after the buffer is extended to the end of the write.
unfoldable pub pwrite : Bytes → ℕ → Bytes → Bytes
unfolding sized
pwrite buf offset bytes =
    let end = offset + length bytes in
    take offset (sized buf end) ++ (bytes ++ drop end (sized buf end))

-- `unwrap_or_default`
abbrev pub or_default : Option Bytes → Bytes
or_default none = []
or_default (some bytes) = bytes

-- `if let Some(old) = old_root { decrement_refcount(&old) }`
abbrev pub release_root : {Io : Type 0} → Store Io → Option Digest224 → Store Io
release_root s none = s
release_root s (some old) = decrement_refcount s old

-- `raw_bytes[start..end]`, with both ends cut to the length.
unfoldable pub window : ℕ → ℕ → Bytes → Bytes
window offset size raw =
    let start = min offset (length raw) in slice start (min (start + size) (length raw)) raw

module _ ⦃b : Blockset⦄ where
  open b use {Io, file_storage_get}

  -- The content that a manifest names: its first block, or nothing.
  unfoldable pub block_content : Io → List Digest224 → Bytes
  block_content io [] = []
  block_content io (block ∷ blocks) = or_default (file_storage_get io block)

  abbrev pub manifest_content : Io → Result MetaError (List Digest224) → Bytes
  manifest_content io (ok manifest) = block_content io manifest
  manifest_content io (err e) = []

  -- What the committed manifest of an inode names, nothing where there is none.
  unfoldable pub committed_content : Store Io → ℕ → Bytes
  committed_content s ino = manifest_content s.io (get_manifest s ino)

  -- The bytes of a manifest, for `test_read`.
  unfoldable pub read_manifest : Io → List Digest224 → Result Errno Bytes
  read_manifest io [] = ok []
  read_manifest io (block ∷ blocks) = ok_or (file_storage_get io block) eio

  module _ ⦃a : Accumulator b⦄ where
    open a use {State, push_bytes, finish}

    -- `snapshot.end(..)`, then `file_storage_get`.
    unfoldable pub materialize : Io → State → Bytes × Io
    materialize io state =
        let (digest, io1) = finish io state in (or_default (file_storage_get io1 digest), io1)

    -- The bytes of a streaming handle when it turns to a buffer.
    unfoldable pub fallback_content : Store Io → OpenFileState State → State → Bytes × Store Io
    unfolding materialize committed_content
    fallback_content s file_state state =
        let (buf, io) = materialize s.io state in
        if ltb 0 file_state.byte_count
        then (buf, record s { io = io })
        else (committed_content s file_state.ino, s)

    -- The write into a handle that is taken out of the table, by its mode.
    unfoldable pub write_in_mode :
        Store Io
        → OpenFileState State
        → WriteMode State
        → ℕ
        → Bytes
        → OpenFileState State × Store Io
    unfolding fallback_content
    write_in_mode s file_state (streaming state next_expected_offset) offset bytes =
        let (content, s1) = fallback_content s file_state state in
        let buf = pwrite content offset bytes in
        let (state', io) = push_bytes s.io state bytes in
        if offset == next_expected_offset
        then (
          record file_state {
            write_mode = streaming state' ((next_expected_offset + length bytes) % 2 ^ 64);
            byte_count = (file_state.byte_count + length bytes) % 2 ^ 64;
            cas_committed = false;
          },
          record s { io = io },
        )
        else (
          record file_state {
            write_mode = buffered buf;
            byte_count = length buf;
            cas_committed = false;
            last_committed_root = none;
          },
          release_root s1 file_state.last_committed_root,
        )
    write_in_mode s file_state (buffered old) offset bytes =
        let buf = pwrite old offset bytes in
        (
          record file_state {
            write_mode = buffered buf;
            byte_count = length buf;
            cas_committed = false;
          },
          s,
        )

    abbrev pub write_at :
        Store Io → OpenFileState State → ℕ → Bytes → OpenFileState State × Store Io
    write_at s file_state offset bytes =
        write_in_mode s file_state file_state.write_mode offset bytes

    -- The handle is taken out of the table and put back. Writes into the storage succeed.
    unfoldable pub test_write :
        SliceFsFilesystem Io State → ℕ → ℕ → Bytes → Result Errno ℕ × SliceFsFilesystem Io State
    unfolding write_in_mode
    test_write fs fh offset bytes = elim (Map.get fs.open_files fh) [
      | none ↦ (err ebadf, fs)
      | some file_state ↦
          let (file_state', s) = write_at fs.meta file_state offset bytes in
          (
            ok (length bytes % 2 ^ 32),
            record fs {
              meta = s;
              open_files = Map.insert fh file_state' (Map.remove fh fs.open_files);
            },
          )
    ]

    -- `s.ino == ino && s.byte_count > 0`
    abbrev pub is_writer : ℕ → OpenFileState State → Bool
    is_writer ino file_state = (file_state.ino == ino) && ltb 0 file_state.byte_count

    -- `open_files.values().find(..)`. Among several writing handles of one inode, the hash map's
    -- order decides; here it is the order of the handles' numbers.
    unfoldable pub find_writer : ℕ → Map ℕ (OpenFileState State) → Option (OpenFileState State)
    find_writer ino [] = none
    find_writer ino ((fh, file_state) ∷ open_files) =
        let rest = find_writer ino open_files in
        if is_writer ino file_state then some file_state else rest

    -- The bytes of a writing handle, by its mode.
    unfoldable pub mode_raw : Store Io → WriteMode State → Result Errno Bytes × Store Io
    mode_raw s (buffered buf) = (ok buf, s)
    mode_raw s (streaming state next_expected_offset) =
        let (digest, io) = finish s.io state in
        (ok_or (file_storage_get io digest) eio, record s { io = io })

    -- The bytes that a read finds: those of a writing handle, or the committed ones.
    unfoldable pub raw_bytes :
        Store Io → ℕ → Option (OpenFileState State) → Result Errno Bytes × Store Io
    unfolding mode_raw read_manifest
    raw_bytes s ino none = (map_err eio (get_manifest s ino) >>= read_manifest s.io, s)
    raw_bytes s ino (some file_state) = mode_raw s file_state.write_mode

    unfoldable pub test_read :
        SliceFsFilesystem Io State → ℕ → ℕ → ℕ → Result Errno Bytes × SliceFsFilesystem Io State
    unfolding raw_bytes find_writer window
    test_read fs ino offset size =
        let (raw, s) = raw_bytes fs.meta ino (find_writer ino fs.open_files) in
        and_then (raw, record fs { meta = s }) (λ raw fs. (ok (window offset size raw), fs))
