-- ===== src/Filesystem/Handles.antt =====
-- crates/slicefs-cli/src/filesystem.rs: creating, syncing and releasing a handle, and the
-- end of a session. The clock is an argument.
use slicefs.Base.{
  ℕ, ◌+◌, ◌==◌, ◌&&◌, not, Bool, true, false, if◌then◌else◌, Option, none, some, List, [], ◌∷◌,
}
use slicefs.Base.Words.{Bytes}
use slicefs.Base.Keys.{nat_key}
use slicefs.Base.Results.{Result, ok, err, and_then}
use slicefs.Base.Map
use slicefs.Base.Map.{Map, contains_key}
use slicefs.Digest.{Digest224, digest_key}
use slicefs.Blockset.{Blockset}
use slicefs.Blockset.Accumulator.{Accumulator}
use slicefs.Meta.{MetaError, InodeMeta, new_file}
use slicefs.Store.{Store, flush_wal, fetch_add, shutdown_wal}
use slicefs.Store.Refcounts.{increment_refcount}
use slicefs.Store.Inodes.{create_inode, delete_inode}
use slicefs.Store.Directories.{link}
use slicefs.Store.Files.{get_manifest, set_manifest}
use slicefs.Store.Commit.{commit}
use slicefs.Store.Snapshots.{create_snapshot}
use slicefs.Filesystem.{
  Errno, meta_error_to_errno, any_eio, to_errno, s_ifreg, masked, Now, WriteMode, streaming,
  buffered, OpenFileState, SliceFsFilesystem, on_meta, modify_inode, changed_at,
}
use slicefs.Filesystem.Content.{release_root}

-- `last_committed_root == Some(digest)`
abbrev pub is_root : Option Digest224 → Digest224 → Bool
is_root none digest = false
is_root (some old) digest = digest_key.same old digest

-- The same, with the time of the modification.
abbrev pub written_at : Now → ℕ → InodeMeta → InodeMeta
written_at now size inode =
    changed_at now (record inode { size = size; mtime_sec = now.sec; mtime_nsec = now.nsec })

-- `manifest.first()` is there.
abbrev pub has_blocks : Result MetaError (List Digest224) → Bool
has_blocks (ok []) = false
has_blocks (ok (block ∷ blocks)) = true
has_blocks (err e) = false

module _ ⦃b : Blockset⦄ where
  open b use {Io, file_storage_get}

  -- The manifest of a new content replaces the handle's last committed one, counts included.
  unfoldable pub commit_content :
      Store Io → ℕ → Option Digest224 → Digest224 → Result Errno Unit × Store Io
  commit_content s ino last_committed_root new_digest =
      let same = is_root last_committed_root new_digest in
      let s1 = if same then s else release_root s last_committed_root in
      and_then (to_errno any_eio (set_manifest s1 ino (new_digest ∷ [])))
        (λ _ s2. (ok tt, if same then s2 else increment_refcount s2 new_digest))

  module _ ⦃a : Accumulator b⦄ where
    open a use {State, start, push_bytes, finish}

    abbrev pub fresh_handle : ℕ → OpenFileState State
    fresh_handle ino = record {
      ino = ino;
      write_mode = streaming start 0;
      byte_count = 0;
      cas_committed = false;
      last_committed_root = none;
    }

    unfoldable pub test_create :
        SliceFsFilesystem Io State
        → ℕ
        → Bytes
        → ℕ
        → ℕ
        → ℕ
        → ℕ
        → Result Errno (ℕ × ℕ) × SliceFsFilesystem Io State
    test_create fs parent_ino name mode umask uid gid =
        let file_meta = new_file 0 uid gid (s_ifreg + masked mode umask) in
        and_then (on_meta fs (to_errno meta_error_to_errno (create_inode fs.meta file_meta)))
          (λ ino fs.
            let (linked, s) = link fs.meta parent_ino name ino in
            elim linked [
              | err e ↦ (err (meta_error_to_errno e), record fs { meta = (delete_inode s ino).1 })
              | ok _ ↦
                  let fh = fetch_add fs.next_fh 1 in
                  (
                    ok (ino, fh),
                    record fs {
                      meta = s;
                      next_fh = fh;
                      open_files = Map.insert fh (fresh_handle ino) fs.open_files;
                    },
                  )
            ])

    -- The digest of what a handle holds, finished; a buffer is pushed into a fresh state.
    unfoldable pub finalize : Io → WriteMode State → Digest224 × Io
    finalize io (streaming state next_expected_offset) = finish io state
    finalize io (buffered buf) = let (fresh, io1) = push_bytes io start buf in finish io1 fresh

    -- `test_release` behind the lookup of the handle: no byte was written through it.
    unfoldable pub release_empty : Store Io → ℕ → Bool → Result Errno Unit × Store Io
    release_empty s ino cas_committed =
        if cas_committed
        then (ok tt, s)
        else if has_blocks (get_manifest s ino)
        then (ok tt, s)
        else to_errno any_eio (set_manifest s ino [])

    -- The same where bytes were written.
    unfoldable pub release_written :
        Store Io → ℕ → OpenFileState State → Now → Result Errno Unit × Store Io
    unfolding finalize commit_content
    release_written s ino file_state now =
        let (new_digest, io) = finalize s.io file_state.write_mode in
        let s1 = record s { io = io } in
        let root = file_state.last_committed_root in
        if is_root root new_digest && file_state.cas_committed
        then (ok tt, s1)
        else and_then (commit_content s1 ino root new_digest)
            (λ _ s2. modify_inode s2 ino (written_at now file_state.byte_count))

    unfoldable pub test_release :
        SliceFsFilesystem Io State → ℕ → ℕ → Now → Result Errno Unit × SliceFsFilesystem Io State
    unfolding release_empty release_written
    test_release fs ino fh now = elim (Map.get fs.open_files fh) [
      | none ↦ (ok tt, fs)
      | some file_state ↦
          let closed = record fs { open_files = Map.remove fh fs.open_files } in
          on_meta closed (
            if file_state.byte_count == 0
            then release_empty fs.meta ino file_state.cas_committed
            else release_written fs.meta ino file_state now)
    ]

    -- The handle's new state replaces the old one, as `get_mut` changes it in place.
    abbrev pub set_handle :
        SliceFsFilesystem Io State → ℕ → OpenFileState State → SliceFsFilesystem Io State
    set_handle fs fh file_state = record fs { open_files = Map.insert fh file_state fs.open_files }

    unfoldable pub flush_buffer_for_fsync :
        SliceFsFilesystem Io State → ℕ → ℕ → Now → Result Errno Unit × SliceFsFilesystem Io State
    unfolding finalize commit_content
    flush_buffer_for_fsync fs ino fh now = elim (Map.get fs.open_files fh) [
      | none ↦ (ok tt, fs)
      | some file_state ↦
          let committing = record file_state { cas_committed = true } in
          let (new_digest, io) = finalize fs.meta.io file_state.write_mode in
          let fs1 = record (set_handle fs fh committing) { meta = record fs.meta { io = io } } in
          let committed = record committing { last_committed_root = some new_digest } in
          if file_state.byte_count == 0
          then (ok tt, fs)
          else and_then
              (on_meta fs1 (commit_content fs1.meta ino file_state.last_committed_root new_digest))
              (λ _ fs2.
                on_meta (set_handle fs2 fh committed)
                  (modify_inode fs2.meta ino (written_at now file_state.byte_count)))
    ]

    unfoldable pub test_fsync :
        SliceFsFilesystem Io State → ℕ → ℕ → Now → Result Errno Unit × SliceFsFilesystem Io State
    unfolding flush_buffer_for_fsync
    test_fsync fs ino fh now =
        and_then (flush_buffer_for_fsync fs ino fh now)
          (λ _ fs. (ok tt, record fs { meta = flush_wal fs.meta }))

    abbrev pub test_flush :
        SliceFsFilesystem Io State → ℕ → ℕ → Now → Result Errno Unit × SliceFsFilesystem Io State
    test_flush fs ino fh now = flush_buffer_for_fsync fs ino fh now

    unfoldable pub test_release_full :
        SliceFsFilesystem Io State → ℕ → ℕ → Now → Result Errno Unit × SliceFsFilesystem Io State
    unfolding test_release
    test_release_full fs ino fh now =
        if not (contains_key fs.open_files fh) then (ok tt, fs) else test_release fs ino fh now

    -- `test_destroy`: the commit, the snapshot if it is asked for, the end of the log.
    unfoldable pub test_destroy :
        SliceFsFilesystem Io State → Bytes → ℕ → Bool × SliceFsFilesystem Io State
    test_destroy fs auto_unmount now =
        let s = (commit fs.meta).1 in
        let snapped = (create_snapshot s (some auto_unmount) now).1 in
        (true, record fs { meta = shutdown_wal (if fs.auto_snapshot then snapped else s) })
