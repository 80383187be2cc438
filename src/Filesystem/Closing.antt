-- ===== src/Filesystem/Closing.antt =====
-- Releasing and syncing an open handle: what is committed, and what reads find afterwards.
use slicefs.Base.{
  ℕ, ◌<◌, ◌≡◌, refl, ap, ◌∙◌, false, none, some, [], ◌∷◌, length, take, drop, arith, Bool-cases,
  inl, inr, ==_refl, ◌==◌, ==_iff,
}
use slicefs.Base.Words.{Bytes}
use slicefs.Base.Keys.{nat_key}
use slicefs.Base.Results.{ok}
use slicefs.Base.Map
use slicefs.Base.Map.{Map, get-insert, get-remove}
use slicefs.Blockset.{Blockset}
use slicefs.Blockset.Accumulator.{Accumulator}
use slicefs.Meta.{InodeMeta}
use slicefs.Store.Inodes.{get_inode}
use slicefs.Filesystem.{Now, OpenFileState, SliceFsFilesystem}
use slicefs.Filesystem.Content.{
  committed_content, read_manifest, is_writer, find_writer, raw_bytes, test_read,
}
use slicefs.Filesystem.Handles.{written_at, release_written, test_release}
use slicefs.Filesystem.Ranges.{window_lem}
use slicefs.Filesystem.Stored.{IsStorable, Shows, committed_content_of}
use slicefs.Filesystem.Writes.{SoleWriter, IsOpen}
use slicefs.Filesystem.Release.{release_written_lem}

module _ ⦃b : Blockset⦄ ⦃a : Accumulator b⦄ where
  open b use {Io}
  open a use {State}

  find_writer-removed :
      (open_files : Map ℕ (OpenFileState State)) (ino fh : ℕ)
      → SoleWriter open_files ino fh
      → find_writer ino (Map.remove fh open_files) ≡ none
  unfolding find_writer Map.remove
  find_writer-removed [] ino fh sole = refl
  find_writer-removed ((k, o) ∷ open_files) ino fh sole = elim (Bool-cases (k == fh)) [
    | inl y ↦ rw y (find_writer-removed open_files ino fh sole.1)
    | inr n ↦ elim (Bool-cases (is_writer ino o)) [
      | inl w ↦ cc (n, (==_iff k fh).1 (sole.0 w))
      | inr w ↦ rw (n, w) (find_writer-removed open_files ino fh sole.1)
    ]
  ]

  -- What was written through the handle is not committed yet.
  abbrev pub IsDirty : SliceFsFilesystem Io State → ℕ → Type 0
  IsDirty fs fh =
      (o : OpenFileState State) → Map.get fs.open_files fh ≡ some o → o.cas_committed ≡ false

  pub not_zero : (n : ℕ) → 0 < n → (n == 0) ≡ false
  not_zero n h = ground arith

  -- A file that shows a content, and has no writer, reads as the content.
  pub read_committed :
      (fs : SliceFsFilesystem Io State) (ino : ℕ) (content : Bytes) (offset size : ℕ)
      → find_writer ino fs.open_files ≡ none
      → Shows fs.meta ino content
      → (test_read fs ino offset size).0 ≡ ok (take size (drop offset content))
  unfolding test_read raw_bytes read_manifest
  read_committed fs ino content offset size gone (named, read) =
      rw (gone, named, read) (ap ok (window_lem offset size content))

  -- What a file is after its content was committed: its content, its inode, and what it reads as.
  pub record IsWritten (fs : SliceFsFilesystem Io State) (ino : ℕ) (content : Bytes)
      (inode : InodeMeta) : Type 0 where
    pub committed : committed_content fs.meta ino ≡ content
    pub attributes : get_inode fs.meta ino ≡ ok inode
    pub reads :
        (offset size : ℕ) → (test_read fs ino offset size).0 ≡ ok (take size (drop offset content))

  module _ (fs : SliceFsFilesystem Io State) (ino fh : ℕ) (content : Bytes) (now : Now)
      (old : InodeMeta) (h : IsOpen fs ino fh content)
      (s : IsStorable fs.meta ino content old (written_at now (length content) old)) where
    -- Releasing an open handle with bytes that are not committed yet succeeds and closes it; the
    -- file then has these bytes as its content, and its inode their number as size.
    pub test_release_lem :
        0 < length content
        → IsDirty fs fh
        → ((test_release fs ino fh now).0 ≡ ok tt)
          × (Map.get (test_release fs ino fh now).1.open_files fh ≡ none)
          × IsWritten
              (test_release fs ino fh now).1
              ino
              content
              (written_at now (length content) old)
    unfolding test_release
    test_release_lem some_bytes dirty =
        let o = h.file_state in
        let count = h.tracks.count in
        let (done, shown, read) =
          release_written_lem fs.meta ino o content now old h.tracks (rw count s)
            (dirty o h.found) in
        let closed = record fs {
          meta = (release_written fs.meta ino o now).1;
          open_files = Map.remove fh fs.open_files;
        } in
        rw (h.found, test_release, not_zero o.byte_count (omega (arith, count, some_bytes)))
          (
            done,
            get-remove fs.open_files fh fh ∙ rw (==_refl fh) refl,
            record {
              committed = committed_content_of closed.meta ino content shown;
              attributes = read ∙ ap (λ n. ok (written_at now n old)) count;
              reads = λ offset size.
                  read_committed closed ino content offset size
                    (find_writer-removed fs.open_files ino fh h.sole) shown;
            },
          )
