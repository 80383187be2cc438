-- ===== src/Filesystem/Syncing.antt =====
-- Syncing an open handle: its bytes are committed, and it stays open with them.
use slicefs.Base.{ℕ, ◌<◌, ◌≡◌, refl, ap, ◌∙◌, true, false, some, length, arith, ==_refl, ◌==◌}
use slicefs.Base.Words.{Bytes}
use slicefs.Base.Keys.{nat_key}
use slicefs.Base.Results.{Result, ok, and_then-ok}
use slicefs.Base.Map
use slicefs.Base.Map.{Map, get-insert, All-insert}
use slicefs.Blockset.{Blockset}
use slicefs.Blockset.Accumulator.{Accumulator}
use slicefs.Meta.{InodeMeta}
use slicefs.Inode.{serialize_inode}
use slicefs.Store.{Store, flush_wal, map_wal}
use slicefs.Wal.{flush_and_sync}
use slicefs.Filesystem.{
  Errno, Now, WriteMode, streaming, buffered, OpenFileState, SliceFsFilesystem, modify_inode,
}
use slicefs.Filesystem.Content.{is_writer}
use slicefs.Filesystem.Handles.{
  commit_content, finalize, written_at, flush_buffer_for_fsync, test_fsync,
}
use slicefs.Filesystem.Storage.{ModeHolds, committed_content_same, get_inode_same}
use slicefs.Filesystem.Stored.{IsStorable, one_block, committed_content_of}
use slicefs.Filesystem.Writes.{ModeTracks, IsOpen, test_read_lem}
use slicefs.Filesystem.Release.{finished, committed_lem, commit_content-wal, modify_inode-wal}
use slicefs.Filesystem.Closing.{IsWritten, not_zero}

module _ ⦃b : Blockset⦄ ⦃a : Accumulator b⦄ where
  open b use {Io, digest, push}
  open a use {State, finish, push_bytes, start, Holds, Holds-push, Holds-finish}

  -- A mode with bytes tracks them in any store whose storage holds what it has written.
  pub ModeTracks-later :
      (s t : Store Io) (ino : ℕ) (mode : WriteMode State) (content : Bytes)
      → 0 < length content
      → ModeTracks s ino mode content
      → (ModeHolds s.io mode → ModeHolds t.io mode)
      → ModeTracks t ino mode content
  ModeTracks-later s t ino (buffered buf) content h e f = e
  ModeTracks-later s t ino (streaming state next) content h (p, q, holds, none_there) f =
      (p, q, f holds, λ z. absurd (omega (arith, z, h)))

  -- Finishing a mode, and two pushes, keep what it holds.
  ModeHolds-finalize :
      (io : Io) (mode : WriteMode State) (x y : Bytes)
      → ModeHolds io mode
      → ModeHolds (push (push (finalize io mode).1 x) y) mode
  unfolding finalize
  ModeHolds-finalize io (buffered buf) x y h = tt
  ModeHolds-finalize io (streaming state next) x y h =
      Holds-push (push (finish io state).1 x) state y
        (Holds-push (finish io state).1 state x (Holds-finish io state h))

  -- The handle while the commit is under way, and behind it.
  abbrev committing : OpenFileState State → OpenFileState State
  committing o = record o { cas_committed = true }

  abbrev committed : Io → OpenFileState State → OpenFileState State
  committed io o = record o {
    cas_committed = true;
    last_committed_root = some (finalize io o.write_mode).0;
  }

  -- The commit of the content.
  abbrev stored : Store Io → ℕ → OpenFileState State → Result Errno Unit × Store Io
  stored s ino o =
      commit_content (finished s o) ino o.last_committed_root (finalize s.io o.write_mode).0

  -- The file system behind a sync of the handle.
  abbrev flushed :
      SliceFsFilesystem Io State → ℕ → ℕ → Now → OpenFileState State → SliceFsFilesystem Io State
  flushed fs ino fh now o = record fs {
    meta = (modify_inode (stored fs.meta ino o).1 ino (written_at now o.byte_count)).1;
    open_files =
        Map.insert fh (committed fs.meta.io o) (Map.insert fh (committing o) fs.open_files);
  }

  flush_done :
      (fs : SliceFsFilesystem Io State) (ino fh : ℕ) (now : Now) (o : OpenFileState State)
      → Map.get fs.open_files fh ≡ some o
      → (o.byte_count == 0) ≡ false
      → (stored fs.meta ino o).0 ≡ ok tt
      → (modify_inode (stored fs.meta ino o).1 ino (written_at now o.byte_count)).0 ≡ ok tt
      → flush_buffer_for_fsync fs ino fh now ≡ (ok tt, flushed fs ino fh now o)
  unfolding flush_buffer_for_fsync
  flush_done fs ino fh now o found not_empty done modified =
      rw (found, flush_buffer_for_fsync, not_empty, done, modified) refl

  fsync_done :
      (fs : SliceFsFilesystem Io State) (ino fh : ℕ) (now : Now)
      → (flush_buffer_for_fsync fs ino fh now).0 ≡ ok tt
      → test_fsync fs ino fh now ≡ (
        ok tt,
        record (flush_buffer_for_fsync fs ino fh now).1 {
          meta = flush_wal (flush_buffer_for_fsync fs ino fh now).1.meta;
        },
      )
  unfolding test_fsync
  fsync_done fs ino fh now done =
      and_then-ok (flush_buffer_for_fsync fs ino fh now)
        (λ _ fs. (ok tt, record fs { meta = flush_wal fs.meta })) tt done

  ModeTracks-flush_wal :
      (s : Store Io) (ino : ℕ) (mode : WriteMode State) (content : Bytes)
      → ModeTracks s ino mode content
      → ModeTracks (flush_wal s) ino mode content
  ModeTracks-flush_wal s ino (buffered buf) content e = e
  ModeTracks-flush_wal s ino (streaming state next) content (p, q, holds, none_there) =
      (p, q, holds, λ z. committed_content_same (flush_wal s) s ino (λ _. refl) refl ∙ none_there z)

  flush_wal-IsOpen :
      (fs : SliceFsFilesystem Io State) (ino fh : ℕ) (content : Bytes)
      → IsOpen fs ino fh content
      → IsOpen (record fs { meta = flush_wal fs.meta }) ino fh content
  flush_wal-IsOpen fs ino fh content h = record {
    file_state = h.file_state;
    found = h.found;
    owner = h.owner;
    tracks = record {
      mode =
          ModeTracks-flush_wal fs.meta h.file_state.ino h.file_state.write_mode content
            h.tracks.mode;
      count = h.tracks.count;
      fits = h.tracks.fits;
    };
    sole = h.sole;
  }

  module _ (fs : SliceFsFilesystem Io State) (ino fh : ℕ) (content : Bytes) (now : Now)
      (old : InodeMeta) (h : IsOpen fs ino fh content)
      (s : IsStorable fs.meta ino content old (written_at now (length content) old)) where
    -- The handle stays open with its content.
    flushed-IsOpen :
        0 < length content
        → (flushed fs ino fh now h.file_state).meta.io
          ≡ push
              (push (finalize fs.meta.io h.file_state.write_mode).1 (one_block content))
              (serialize_inode (written_at now h.file_state.byte_count old))
        → IsOpen (flushed fs ino fh now h.file_state) ino fh content
    flushed-IsOpen some_bytes last =
        let o = h.file_state in
        let later = committed fs.meta.io o in
        let middle = Map.insert fh (committing o) fs.open_files in
        let Owned = λ (e : ℕ × OpenFileState State). is_writer ino e.1 ≡ true → e.0 ≡ fh in
        let holds : ModeHolds fs.meta.io o.write_mode
            → ModeHolds (flushed fs ino fh now o).meta.io o.write_mode =
          λ held. rw last (
            ModeHolds-finalize fs.meta.io o.write_mode (one_block content)
              (serialize_inode (written_at now o.byte_count old)) held) in
        record {
          file_state = later;
          found = get-insert middle fh fh later ∙ rw (==_refl fh) refl;
          owner = h.owner;
          tracks = record {
            mode =
                ModeTracks-later fs.meta (flushed fs ino fh now o).meta o.ino o.write_mode content
                  some_bytes h.tracks.mode holds;
            count = h.tracks.count;
            fits = h.tracks.fits;
          };
          sole =
              All-insert Owned fh later middle (λ _. refl)
                (All-insert Owned fh (committing o) fs.open_files (λ _. refl) h.sole);
        }

    -- The same of `flush_buffer_for_fsync`.
    pub flush_buffer_for_fsync_lem :
        0 < length content
        → ((flush_buffer_for_fsync fs ino fh now).0 ≡ ok tt)
          × IsOpen (flush_buffer_for_fsync fs ino fh now).1 ino fh content
          × IsWritten
              (flush_buffer_for_fsync fs ino fh now).1
              ino
              content
              (written_at now (length content) old)
    flush_buffer_for_fsync_lem some_bytes =
        let o = h.file_state in
        let count = h.tracks.count in
        let (done, modified, shown, read, last) =
          committed_lem fs.meta ino o content now old h.tracks (rw count s) o.last_committed_root in
        let opened = flushed-IsOpen some_bytes last in
        let t = flushed fs ino fh now o in
        rw
          (flush_done fs ino fh now o h.found
            (not_zero o.byte_count (omega (arith, count, some_bytes))) done modified)
          (
            refl,
            opened,
            record {
              committed = committed_content_of t.meta ino content shown;
              attributes = read ∙ ap (λ n. ok (written_at now n old)) count;
              reads = λ offset size. test_read_lem t ino fh content opened offset size some_bytes;
            },
          )

    -- What a flush of the handle does to the log: nothing.
    flush_buffer_for_fsync-wal :
        0 < length content → (flush_buffer_for_fsync fs ino fh now).1.meta.wal ≡ fs.meta.wal
    flush_buffer_for_fsync-wal some_bytes =
        let o = h.file_state in
        let root = (finalize fs.meta.io o.write_mode).0 in
        let count = h.tracks.count in
        let (done, modified, shown, read, last) =
          committed_lem fs.meta ino o content now old h.tracks (rw count s) o.last_committed_root in
        rw
          (flush_done fs ino fh now o h.found
            (not_zero o.byte_count (omega (arith, count, some_bytes))) done modified)
          (modify_inode-wal (stored fs.meta ino o).1 ino (written_at now o.byte_count)
            ∙ commit_content-wal (finished fs.meta o) ino o.last_committed_root root)

    -- A sync of an open handle that has bytes succeeds: it commits them, with their length and the
    -- time in the inode, leaves the handle open with the same content, and leaves the log that
    -- flushing and syncing the one before gives. The handle must be its file's only writer, and
    -- the content, its manifest and the new inode collide neither with what is stored nor with
    -- each other.
    pub test_fsync_lem :
        0 < length content
        → ((test_fsync fs ino fh now).0 ≡ ok tt)
          × IsOpen (test_fsync fs ino fh now).1 ino fh content
          × IsWritten (test_fsync fs ino fh now).1 ino content (written_at now (length content) old)
          × ((test_fsync fs ino fh now).1.meta.wal ≡ map_wal flush_and_sync fs.meta.wal)
    test_fsync_lem some_bytes =
        let (done, opened, written) = flush_buffer_for_fsync_lem some_bytes in
        let t = (flush_buffer_for_fsync fs ino fh now).1 in
        let opened' = flush_wal-IsOpen t ino fh content opened in
        rw (fsync_done fs ino fh now done) (
          refl,
          opened',
          record {
            committed =
                committed_content_same (flush_wal t.meta) t.meta ino (λ _. refl) refl
                ∙ written.committed;
            attributes =
                get_inode_same (flush_wal t.meta) t.meta (λ _. refl) ino refl ∙ written.attributes;
            reads = λ offset size.
                test_read_lem (record t { meta = flush_wal t.meta }) ino fh content opened' offset
                  size some_bytes;
          },
          ap (map_wal flush_and_sync) (flush_buffer_for_fsync-wal some_bytes),
        )
