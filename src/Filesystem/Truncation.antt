-- ===== src/Filesystem/Truncation.antt =====
-- Cutting and extending a file, open or closed.
use slicefs.Base.{
  ℕ, ◌^◌, ◌<◌, ◌≡◌, refl, ap, ◌∙◌, true, none, some, Option, [], ◌∷◌, ◌++◌, length, take, drop,
  arith, ==_refl, inl, inr, Option-cases,
}
use slicefs.Base.Words.{Bytes}
use slicefs.Base.Keys.{nat_key}
use slicefs.Base.Results.{ok, Result-cases}
use slicefs.Base.Map
use slicefs.Base.Map.{Map, get-insert, All-insert}
use slicefs.Digest.{Digest224}
use slicefs.Blockset.{Blockset}
use slicefs.Blockset.Accumulator.{Accumulator}
use slicefs.Meta.{InodeMeta}
use slicefs.Inode.{serialize_inode}
use slicefs.Store.{Store}
use slicefs.Store.Refcounts.{decrement_refcount}
use slicefs.Store.Inodes.{get_inode, update_inode}
use slicefs.Filesystem.{
  Now, WriteMode, streaming, buffered, OpenFileState, SliceFsFilesystem, modify_inode,
}
use slicefs.Filesystem.Content.{resize, release_root, is_writer, test_read}
use slicefs.Filesystem.Sizes.{
  resized_at, streamed_bytes, resize_mode, resize_handle, test_setattr_size,
}
use slicefs.Filesystem.Ranges.{length-resize}
use slicefs.Filesystem.Storage.{ModeHolds, materialize_lem}
use slicefs.Filesystem.Writes.{ModeTracks, Tracks, IsOpen, test_read_lem}
use slicefs.Filesystem.Closing.{not_zero}
use slicefs.Filesystem.Syncing.{ModeTracks-later}

module _ ⦃b : Blockset⦄ ⦃a : Accumulator b⦄ where
  open b use {Io, digest, push}
  open a use {
    State, finish, push_bytes, start, pushed, Holds, Holds-push, Holds-start, Holds-push_bytes,
    pushed-start, pushed-push_bytes,
  }

  modify_inode-Holds :
      (s : Store Io) (ino : ℕ) (change : InodeMeta → InodeMeta) (state : State)
      → Holds s.io state
      → Holds (modify_inode s ino change).1.io state
  unfolding modify_inode update_inode
  modify_inode-Holds s ino change state h = elim (Result-cases (get_inode s ino)) [
    | inr (failure, e) ↦ rw (modify_inode, e) h
    | inl (inode, e) ↦ elim (Option-cases (Map.get s.inode_data (change inode).ino)) [
      | inl gone ↦ rw (modify_inode, e, update_inode, gone) h
      | inr (d, found) ↦
          rw (modify_inode, e, update_inode, found)
            (Holds-push s.io state (serialize_inode (change inode)) h)
    ]
  ]

  -- Rewriting an inode keeps what a mode holds, also where it fails.
  modify_inode-ModeHolds :
      (s : Store Io) (ino : ℕ) (change : InodeMeta → InodeMeta) (mode : WriteMode State)
      → ModeHolds s.io mode
      → ModeHolds (modify_inode s ino change).1.io mode
  modify_inode-ModeHolds s ino change (buffered buf) h = tt
  modify_inode-ModeHolds s ino change (streaming state next) h =
      modify_inode-Holds s ino change state h

  streamed_bytes_lem :
      (io : Io) (n : ℕ) (state : State) (content : Bytes)
      → pushed state ≡ content
      → Holds io state
      → n ≡ length content
      → (streamed_bytes io n state).0 ≡ content
  unfolding streamed_bytes
  streamed_bytes_lem io n state [] p h e = rw e refl
  streamed_bytes_lem io n state (x ∷ content) p h e = rw e (materialize_lem io state h ∙ p)

  release_root-io : (s : Store Io) (root : Option Digest224) → (release_root s root).io ≡ s.io
  unfolding decrement_refcount
  release_root-io s none = refl
  release_root-io s (some old) = refl

  module _ (s : Store Io) (o : OpenFileState State) (content : Bytes) (new_size : ℕ)
      (count : o.byte_count ≡ length content) (some_bytes : 0 < new_size)
      (fits : new_size < 2 ^ 64) where
    -- The handle stands for the cut or extended content.
    resize_mode_lem :
        (mode : WriteMode State)
        → ModeTracks s o.ino mode content
        → Tracks
            (resize_mode s o mode new_size).1
            (resize_mode s o mode new_size).0
            (resize content new_size)
    unfolding resize_mode
    resize_mode_lem (buffered buf) e =
        rw (not_zero new_size some_bytes, e)
          (record {
            mode = refl;
            count = refl;
            fits = omega (arith, length-resize content new_size, fits);
          })
    resize_mode_lem (streaming state next) (p, q, holds, none_there) =
        let io2 = (streamed_bytes s.io o.byte_count state).1 in
        let bytes = resize content new_size in
        let old = streamed_bytes_lem s.io o.byte_count state content p holds count in
        rw (not_zero new_size some_bytes, old)
          (record {
            mode = (
              pushed-push_bytes io2 start bytes ∙ ap (λ t. t ++ bytes) pushed-start,
              refl,
              rw
                  (release_root-io (record s { io = (push_bytes io2 start bytes).1 })
                    o.last_committed_root)
                  (Holds-push_bytes io2 start bytes (Holds-start io2)),
              λ z. absurd (omega (arith, z, length-resize content new_size, some_bytes)),
            );
            count = refl;
            fits = omega (arith, length-resize content new_size, fits);
          })

    resize_mode-ino : (mode : WriteMode State) → (resize_mode s o mode new_size).0.ino ≡ o.ino
    unfolding resize_mode
    resize_mode-ino (buffered buf) = rw (not_zero new_size some_bytes) refl
    resize_mode-ino (streaming state next) = rw (not_zero new_size some_bytes) refl

  -- The file system after the size of an open handle is set.
  abbrev resized :
      SliceFsFilesystem Io State
      → ℕ
      → ℕ
      → ℕ
      → Now
      → OpenFileState State
      → SliceFsFilesystem Io State
  resized fs ino fh new_size now o =
      let (file_state', s) = resize_handle fs.meta o new_size in
      record fs {
        meta = (modify_inode s ino (resized_at now new_size)).1;
        open_files = Map.insert fh file_state' fs.open_files;
      }

  resized_lem :
      (fs : SliceFsFilesystem Io State) (ino fh new_size : ℕ) (now : Now) (o : OpenFileState State)
      → Map.get fs.open_files fh ≡ some o
      → (test_setattr_size fs ino (some fh) new_size now).1 ≡ resized fs ino fh new_size now o
  unfolding test_setattr_size
  resized_lem fs ino fh new_size now o found = rw (found, test_setattr_size) refl

  module _ (fs : SliceFsFilesystem Io State) (ino fh : ℕ) (content : Bytes) (new_size : ℕ)
      (now : Now) (h : IsOpen fs ino fh content) (some_bytes : 0 < new_size)
      (fits : new_size < 2 ^ 64) where
    -- Setting the size of an open file to a number of bytes above 0 leaves its handle open with
    -- its content cut, or extended by zeros, to that size, and reads find it, also where rewriting
    -- the inode fails. The handle must be its file's only writer, and the size fit 64 bits.
    pub test_setattr_size_lem :
        IsOpen (test_setattr_size fs ino (some fh) new_size now).1 ino fh (resize content new_size)
        × ((offset size : ℕ)
            → (test_read (test_setattr_size fs ino (some fh) new_size now).1 ino offset size).0
              ≡ ok (take size (drop offset (resize content new_size))))
    test_setattr_size_lem = rw (resized_lem fs ino fh new_size now h.file_state h.found) (
      opened,
      λ offset size.
          test_read_lem (resized fs ino fh new_size now h.file_state) ino fh
            (resize content new_size) opened offset size
            (omega (arith, length-resize content new_size, some_bytes)),
    )
      where
        after : OpenFileState State
        after = (resize_handle fs.meta h.file_state new_size).0

        opened :
            IsOpen (resized fs ino fh new_size now h.file_state) ino fh (resize content new_size)
        opened =
            let o = h.file_state in
            let s = (resize_handle fs.meta o new_size).1 in
            let Owned = λ (e : ℕ × OpenFileState State). is_writer ino e.1 ≡ true → e.0 ≡ fh in
            let same =
              resize_mode-ino fs.meta o content new_size h.tracks.count some_bytes fits
                o.write_mode in
            let tracks =
              resize_mode_lem fs.meta o content new_size h.tracks.count some_bytes fits o.write_mode
                h.tracks.mode in
            record {
              file_state = after;
              found = get-insert fs.open_files fh fh after ∙ rw (==_refl fh) refl;
              owner = same ∙ h.owner;
              tracks = record {
                mode =
                    ModeTracks-later s (resized fs ino fh new_size now o).meta after.ino
                      after.write_mode (resize content new_size)
                      (omega (arith, length-resize content new_size, some_bytes)) tracks.mode
                      (modify_inode-ModeHolds s ino (resized_at now new_size) after.write_mode);
                count = tracks.count;
                fits = tracks.fits;
              };
              sole = All-insert Owned fh after fs.open_files (λ _. refl) h.sole;
            }
