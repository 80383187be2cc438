-- ===== src/Filesystem/Sizes.antt =====
-- crates/slicefs-cli/src/filesystem.rs: the size of a file, open or closed, and what sets it: opening,
-- creating and the combined setattr. The clock is an argument.
use slicefs.Base.{
  ℕ, zero, suc, ◌/◌, ◌%◌, ◌==◌, ◌||◌, not, Bool, true, false, if◌then◌else◌, Option, none, some,
  List, [], ◌∷◌, length,
}
use slicefs.Base.Words.{Bytes}
use slicefs.Base.Keys.{nat_key}
use slicefs.Base.Results.{Result, ok, err, and_then}
use slicefs.Base.Map
use slicefs.Base.Map.{Map, contains_key}
use slicefs.Digest.{Digest224, digest_key}
use slicefs.Blockset.{Blockset, push_all}
use slicefs.Blockset.Accumulator.{Accumulator}
use slicefs.Meta.{not_found, InodeMeta}
use slicefs.Store.{Store, fetch_add}
use slicefs.Store.Refcounts.{increment_refcount}
use slicefs.Store.Inodes.{get_inode, update_inode}
use slicefs.Store.Files.{get_manifest, set_manifest}
use slicefs.Filesystem.{
  Errno, eio, meta_error_to_errno, any_eio, to_errno, Now, WriteMode, streaming, buffered,
  OpenFileState, SliceFsFilesystem, on_meta, modify_inode, changed_at,
}
use slicefs.Filesystem.Attributes.{Changes, changed}
use slicefs.Filesystem.Content.{resize, release_root, read_manifest, materialize}
use slicefs.Filesystem.Handles.{fresh_handle, set_handle, test_create}

-- `inode.size = size`, with the time of the change.
abbrev pub resized_at : Now → ℕ → InodeMeta → InodeMeta
resized_at now size inode = changed_at now (record inode { size = size })

-- `O_TRUNC`, and whether the access mode allows writes.
abbrev pub has_o_trunc : ℕ → Bool
has_o_trunc flags = flags / 512 % 2 == 1

abbrev pub is_write_mode : ℕ → Bool
is_write_mode flags = (flags % 4 == 1) || (flags % 4 == 2)

module _ ⦃b : Blockset⦄ where
  open b use {Io, file_storage_get}

  -- The manifest, where an inode without one has no content.
  unfoldable pub old_manifest : Store Io → ℕ → Result Errno (List Digest224)
  old_manifest s ino = elim (get_manifest s ino) [
    | ok manifest ↦ ok manifest
    | err e ↦ elim e [ not_found _ ↦ ok [] | _ ↦ err eio ]
  ]

  abbrev pub first_root : List Digest224 → Option Digest224
  first_root [] = none
  first_root (root ∷ blocks) = some root

  -- The new content of case B: no block for an empty one.
  unfoldable pub store_content : Store Io → ℕ → Bytes → Result Errno Unit × Store Io
  store_content s ino [] = to_errno any_eio (set_manifest s ino [])
  store_content s ino (byte ∷ bytes) =
      let (new_digest, io) = push_all s.io (byte ∷ bytes) in
      and_then (to_errno any_eio (set_manifest (record s { io = io }) ino (new_digest ∷ [])))
        (λ _ s. (ok tt, increment_refcount s new_digest))

  -- Case B: the committed content is read, cut or extended, and stored again.
  unfoldable pub resize_committed : Store Io → ℕ → ℕ → Now → Result Errno Unit × Store Io
  unfolding old_manifest store_content resize read_manifest
  resize_committed s ino new_size now =
      and_then (old_manifest s ino, s)
        (λ manifest s.
          and_then (read_manifest s.io manifest, s)
            (λ content s.
              and_then
                (store_content (release_root s (first_root manifest)) ino (resize content new_size))
                (λ _ s. modify_inode s ino (resized_at now new_size))))

  module _ ⦃a : Accumulator b⦄ where
    open a use {State, start, push_bytes, finish}

    -- What was streamed so far.
    unfoldable pub streamed_bytes : Io → ℕ → State → Bytes × Io
    unfolding materialize
    streamed_bytes io zero state = ([], io)
    streamed_bytes io (suc n) state = materialize io state

    -- `test_setattr_size`, case A: the content of the handle is cut or extended, by its mode.
    unfoldable pub resize_mode :
        Store Io → OpenFileState State → WriteMode State → ℕ → OpenFileState State × Store Io
    unfolding resize streamed_bytes
    resize_mode s file_state (buffered buf) new_size =
        if new_size == 0
        then (
          record file_state {
            write_mode = buffered [];
            byte_count = 0;
            cas_committed = false;
            last_committed_root = none;
          },
          release_root s file_state.last_committed_root,
        )
        else (
          record file_state {
            write_mode = buffered (resize buf new_size);
            byte_count = length (resize buf new_size);
            cas_committed = false;
          },
          s,
        )
    resize_mode s file_state (streaming state next_expected_offset) new_size =
        let (old, io2) = streamed_bytes s.io file_state.byte_count state in
        let content = resize old new_size in
        let (fresh, io3) = push_bytes io2 start content in
        if new_size == 0
        then (
          record file_state {
            write_mode = streaming start 0;
            byte_count = 0;
            cas_committed = false;
            last_committed_root = none;
          },
          release_root s file_state.last_committed_root,
        )
        else (
          record file_state {
            write_mode = streaming fresh (length content);
            byte_count = length content;
            cas_committed = false;
            last_committed_root = none;
          },
          release_root (record s { io = io3 }) file_state.last_committed_root,
        )

    abbrev pub resize_handle : Store Io → OpenFileState State → ℕ → OpenFileState State × Store Io
    resize_handle s file_state new_size = resize_mode s file_state file_state.write_mode new_size

    abbrev pub handle_of : SliceFsFilesystem Io State → Option ℕ → Option (ℕ × OpenFileState State)
    handle_of fs none = none
    handle_of fs (some fh) = elim (Map.get fs.open_files fh) [
      | none ↦ none
      | some file_state ↦ some (fh, file_state)
    ]

    unfoldable pub test_setattr_size :
        SliceFsFilesystem Io State
        → ℕ
        → Option ℕ
        → ℕ
        → Now
        → Result Errno Unit × SliceFsFilesystem Io State
    unfolding resize_mode resize_committed
    test_setattr_size fs ino fh new_size now = elim (handle_of fs fh) [
      | none ↦ on_meta fs (resize_committed fs.meta ino new_size now)
      | some (fh_val, file_state) ↦
          let (file_state', s) = resize_handle fs.meta file_state new_size in
          on_meta (set_handle fs fh_val file_state') (modify_inode s ino (resized_at now new_size))
    ]

    -- The handle, and whether it can write. A truncation that fails closes it again.
    unfoldable pub test_open :
        SliceFsFilesystem Io State
        → ℕ
        → ℕ
        → Now
        → Result Errno (ℕ × Bool) × SliceFsFilesystem Io State
    unfolding test_setattr_size
    test_open fs ino flags now =
        let fh = fetch_add fs.next_fh 1 in
        let numbered = record fs { next_fh = fh } in
        let opened = set_handle numbered fh (fresh_handle ino) in
        let (truncated, cut) = test_setattr_size opened ino (some fh) 0 now in
        if not (is_write_mode flags)
        then (ok (fh, false), numbered)
        else if not (has_o_trunc flags)
        then (ok (fh, true), opened)
        else elim truncated [
          | ok _ ↦ (ok (fh, true), cut)
          | err e ↦ (err e, record cut { open_files = Map.remove fh cut.open_files })
        ]

    unfoldable pub test_create_full :
        SliceFsFilesystem Io State
        → ℕ
        → Bytes
        → ℕ
        → ℕ
        → ℕ
        → ℕ
        → ℕ
        → Now
        → Result Errno (ℕ × ℕ × InodeMeta) × SliceFsFilesystem Io State
    unfolding test_create test_setattr_size
    test_create_full fs parent name mode umask uid gid flags now =
        and_then (test_create fs parent name mode umask uid gid) (λ created fs.
          let (ino, fh) = created in
          let (truncated, cut) = test_setattr_size fs ino (some fh) 0 now in
          let attributes = λ (fs : SliceFsFilesystem Io State).
            and_then (to_errno meta_error_to_errno (get_inode fs.meta ino, fs))
              (λ inode fs. (ok (ino, fh, inode), fs)) in
          if not (has_o_trunc flags) then attributes fs else elim truncated [
            | ok _ ↦ attributes cut
            | err e ↦ (err e, record cut { open_files = Map.remove fh cut.open_files })
          ])

    -- All changes of one call; a change of the size is made first, and the inode read again.
    unfoldable pub test_setattr :
        SliceFsFilesystem Io State
        → ℕ
        → Changes
        → Option ℕ
        → Option ℕ
        → Now
        → Result Errno InodeMeta × SliceFsFilesystem Io State
    unfolding test_setattr_size
    test_setattr fs ino changes size fh now =
        let attributes = λ (fs : SliceFsFilesystem Io State).
          to_errno meta_error_to_errno (get_inode fs.meta ino, fs) in
        let save = λ (inode : InodeMeta) (fs : SliceFsFilesystem Io State).
          and_then (on_meta fs (to_errno meta_error_to_errno (update_inode fs.meta inode)))
            (λ _ fs. (ok inode, fs)) in
        and_then (attributes fs) (λ inode fs. elim size [
          | none ↦ save (changed_at now (changed changes inode)) fs
          | some new_size ↦
              and_then (test_setattr_size fs ino fh new_size now)
                (λ _ fs. and_then (attributes fs) (λ inode fs. save (changed_at now inode) fs))
        ])
