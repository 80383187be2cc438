-- ===== src/Filesystem/Overwrite.antt =====
-- What becomes of the content that a file has when it is opened again to write or to truncate it,
-- and of the attributes that are set together with a size.
use slicefs.Base.{
  ℕ, ◌^◌, ◌<◌, ◌≡◌, refl, sym, ap, ◌∙◌, true, none, some, Option, List, [], ◌∷◌, ◌++◌, length, take,
  drop, arith, ==_refl, inl, inr, Option-cases,
}
use slicefs.Base.Words.{Bytes}
use slicefs.Base.Keys.{nat_key}
use slicefs.Base.Results.{Result, ok}
use slicefs.Base.Map
use slicefs.Base.Map.{Map, get-insert, get-remove, All-insert, All-remove}
use slicefs.Digest.{Digest224}
use slicefs.Blockset.{Blockset, NoClash, get-push_keep}
use slicefs.Blockset.Accumulator.{Accumulator}
use slicefs.Meta.{InodeMeta, IsMeta}
use slicefs.Inode.{serialize_inode}
use slicefs.Manifest.{load_manifest}
use slicefs.Store.{Store, fetch_add}
use slicefs.Store.Inodes.{get_inode}
use slicefs.Store.Inodes.Accounts.{get_of_get_inode}
use slicefs.Store.Files.{get_manifest}
use slicefs.Filesystem.{
  Errno, Now, OpenFileState, SliceFsFilesystem, modify_inode, changed_at, streaming,
}
use slicefs.Filesystem.Attributes.{Changes, with_mode, with_uid, with_gid, with_mtime, changed}
use slicefs.Filesystem.Content.{committed_content, is_writer, test_write, test_read, write_in_mode}
use slicefs.Filesystem.Handles.{fresh_handle, test_release, release_empty}
use slicefs.Filesystem.Sizes.{resized_at, resize_mode, test_setattr_size, test_open, test_setattr}
use slicefs.Filesystem.Stored.{
  Shows, rewritten, modify_inode_done, get_inode-rewritten, committed_content_of,
}
use slicefs.Filesystem.Links.{update_inode_done}
use slicefs.Filesystem.Writes.{IsOpen, SoleWriter, test_read_lem}

module _ ⦃b : Blockset⦄ where
  open b use {Io, push, file_storage_get}

  get_manifest_kept :
      (s : Store Io) (meta : InodeMeta) (d : Digest224) (ino : ℕ) (manifest : List Digest224)
      → NoClash s.io (serialize_inode meta)
      → get_manifest s ino ≡ ok manifest
      → get_manifest (rewritten s meta d) ino ≡ ok manifest
  unfolding get_manifest load_manifest
  get_manifest_kept s meta d ino manifest clash e =
      elim (Option-cases (Map.get s.manifest_data ino)) [
        | inl gone ↦ cc (rw gone at e)
        | inr (k, there) ↦ elim (Option-cases (file_storage_get s.io k)) [
          | inl gone ↦ cc (rw (there, gone) at e)
          | inr (x, found) ↦
              rw (there, get-push_keep s.io (serialize_inode meta) x k clash found)
                (rw (there, found) at e)
        ]
      ]

  -- Rewriting the inode keeps what a file shows, if the inode does not collide.
  pub Shows-kept :
      (s : Store Io) (meta : InodeMeta) (d : Digest224) (ino : ℕ) (content : Bytes)
      → NoClash s.io (serialize_inode meta)
      → Shows s ino content
      → Shows (rewritten s meta d) ino content
  Shows-kept s meta d ino content clash (named, read) = (
    get_manifest_kept s meta d ino _ clash named,
    get-push_keep s.io (serialize_inode meta) content _ clash read,
  )

with_mode-ino : (mode : Option ℕ) (inode : InodeMeta) → (with_mode mode inode).ino ≡ inode.ino
with_mode-ino none inode = refl
with_mode-ino (some mode) inode = refl

with_uid-ino : (uid : Option ℕ) (inode : InodeMeta) → (with_uid uid inode).ino ≡ inode.ino
with_uid-ino none inode = refl
with_uid-ino (some uid) inode = refl

with_gid-ino : (gid : Option ℕ) (inode : InodeMeta) → (with_gid gid inode).ino ≡ inode.ino
with_gid-ino none inode = refl
with_gid-ino (some gid) inode = refl

with_mtime-ino :
    (mtime : Option (ℕ × ℕ)) (inode : InodeMeta) → (with_mtime mtime inode).ino ≡ inode.ino
with_mtime-ino none inode = refl
with_mtime-ino (some (sec, nsec)) inode = refl

-- No change is one of the inode's number.
changed-ino : (changes : Changes) (inode : InodeMeta) → (changed changes inode).ino ≡ inode.ino
changed-ino changes inode =
    let m = with_mode changes.mode inode in
    let u = with_uid changes.uid m in
    with_mtime-ino changes.mtime (with_gid changes.gid u)
    ∙ with_gid-ino changes.gid u
    ∙ with_uid-ino changes.uid m
    ∙ with_mode-ino changes.mode inode

module _ ⦃b : Blockset⦄ ⦃a : Accumulator b⦄ where
  open b use {Io, push}
  open a use {
    State, start, push_bytes, pushed, pushed-push_bytes, pushed-start, Holds-push_bytes,
    Holds-start,
  }

  module _ (fs : SliceFsFilesystem Io State) (ino fh : ℕ)
      (found : Map.get fs.open_files fh ≡ some (fresh_handle ino))
      (sole : SoleWriter fs.open_files ino fh) where
    -- A first write at offset 0 through a handle that was just opened leaves it with the bytes of
    -- the write alone, whatever content the file had: reads find nothing behind them. The handle
    -- must be the only writer, and the write have some bytes, fewer than 2^64.
    pub test_write_start :
        (bytes : Bytes)
        → 0 < length bytes
        → length bytes < 2 ^ 64
        → IsOpen (test_write fs fh 0 bytes).1 ino fh bytes
          × ((offset size : ℕ)
              → (test_read (test_write fs fh 0 bytes).1 ino offset size).0
                ≡ ok (take size (drop offset bytes)))
    unfolding test_write write_in_mode
    test_write_start bytes some_bytes fits =
        (opened, λ offset size. test_read_lem _ ino fh bytes opened offset size some_bytes)
      where
        after : OpenFileState State
        after = (write_in_mode fs.meta (fresh_handle ino) (streaming start 0) 0 bytes).0

        opened : IsOpen (test_write fs fh 0 bytes).1 ino fh bytes
        opened =
            let removed = Map.remove fh fs.open_files in
            let Owned = λ (e : ℕ × OpenFileState State). is_writer ino e.1 ≡ true → e.0 ≡ fh in
            rw (found, test_write)
              (record {
                file_state = after;
                found = get-insert removed fh fh after ∙ rw (==_refl fh) refl;
                owner = refl;
                tracks = record {
                  mode = (
                    pushed-push_bytes fs.meta.io start bytes ∙ ap (λ t. t ++ bytes) pushed-start,
                    omega (arith, fits),
                    Holds-push_bytes fs.meta.io start bytes (Holds-start fs.meta.io),
                    λ z. absurd (omega (arith, z, some_bytes)),
                  );
                  count = omega (arith, fits);
                  fits = fits;
                };
                sole =
                    All-insert Owned fh after removed (λ _. refl)
                      (All-remove Owned fh fs.open_files sole);
              })

  -- A truncation to 0 through a fresh handle changes the inode only.
  truncate_fresh :
      (fs : SliceFsFilesystem Io State) (ino fh : ℕ) (now : Now) (after : Store Io)
      → Map.get fs.open_files fh ≡ some (fresh_handle ino)
      → modify_inode fs.meta ino (resized_at now 0) ≡ (ok tt, after)
      → test_setattr_size fs ino (some fh) 0 now ≡ (
        ok tt,
        record fs { meta = after; open_files = Map.insert fh (fresh_handle ino) fs.open_files },
      )
  unfolding test_setattr_size resize_mode
  truncate_fresh fs ino fh now after found modified = rw (found, test_setattr_size, modified) refl

  -- Releasing a fresh handle of a file with content changes nothing but the table of handles.
  release_fresh :
      (fs : SliceFsFilesystem Io State) (ino fh : ℕ) (now : Now) (block : Digest224)
      → Map.get fs.open_files fh ≡ some (fresh_handle ino)
      → get_manifest fs.meta ino ≡ ok (block ∷ [])
      → (test_release fs ino fh now).1.meta ≡ fs.meta
  unfolding test_release release_empty
  release_fresh fs ino fh now block found named = rw (found, test_release, named) refl

  -- The file system in which the truncation of an open is made.
  abbrev just_opened : SliceFsFilesystem Io State → ℕ → SliceFsFilesystem Io State
  just_opened fs ino = record fs {
    next_fh = fetch_add fs.next_fh 1;
    open_files = Map.insert (fetch_add fs.next_fh 1) (fresh_handle ino) fs.open_files;
  }

  open_truncated :
      (fs : SliceFsFilesystem Io State) (ino : ℕ) (now : Now)
      → let r = test_setattr_size (just_opened fs ino) ino (some (fetch_add fs.next_fh 1)) 0 now in
        r.0 ≡ ok tt → (test_open fs ino 513 now).1 ≡ r.1
  unfolding test_open
  open_truncated fs ino now done = rw (test_open, done) refl

  truncated_lem :
      (fs : SliceFsFilesystem Io State) (ino : ℕ) (now : Now) (after : Store Io) (block : Digest224)
      → modify_inode fs.meta ino (resized_at now 0) ≡ (ok tt, after)
      → get_manifest after ino ≡ ok (block ∷ [])
      → (test_release (test_open fs ino 513 now).1 ino (fetch_add fs.next_fh 1) now).1.meta ≡ after
  truncated_lem fs ino now after block modified named =
      let fh = fetch_add fs.next_fh 1 in
      let opened = just_opened fs ino in
      let cut = record opened {
        meta = after;
        open_files = Map.insert fh (fresh_handle ino) opened.open_files;
      } in
      let found = get-insert fs.open_files fh fh (fresh_handle ino) ∙ rw (==_refl fh) refl in
      let found' = get-insert opened.open_files fh fh (fresh_handle ino) ∙ rw (==_refl fh) refl in
      let e = truncate_fresh opened ino fh now after found modified in
      ap (λ t. (test_release t ino fh now).1.meta)
        (open_truncated fs ino now
            (ap (λ (p : Result Errno Unit × SliceFsFilesystem Io State). p.0) e)
          ∙ ap (λ (p : Result Errno Unit × SliceFsFilesystem Io State). p.1) e)
      ∙ release_fresh cut ino fh now block found' named

  -- The file system after a file is opened with O_WRONLY | O_TRUNC and released.
  abbrev pub truncated : SliceFsFilesystem Io State → ℕ → Now → SliceFsFilesystem Io State
  truncated fs ino now =
      (test_release (test_open fs ino 513 now).1 ino (fetch_add fs.next_fh 1) now).1

  module _ (fs : SliceFsFilesystem Io State) (ino : ℕ) (content : Bytes) (now : Now)
      (old : InodeMeta) (shown : Shows fs.meta ino content) (read : get_inode fs.meta ino ≡ ok old)
      (number : old.ino ≡ ino) (fits : IsMeta (resized_at now 0 old))
      (clash : NoClash fs.meta.io (serialize_inode (resized_at now 0 old))) where
    -- Opening a file that has a content with O_WRONLY | O_TRUNC, and releasing it without a write,
    -- sets the size of its inode to 0 but keeps its content. The inode must be readable, in range,
    -- and not collide with what is stored.
    pub test_open-truncate :
        (get_inode (truncated fs ino now).meta ino ≡ ok (resized_at now 0 old))
        × (committed_content (truncated fs ino now).meta ino ≡ content)
    test_open-truncate =
        let (d, there, loads) = get_of_get_inode fs.meta ino old read in
        let new = resized_at now 0 old in
        let after = rewritten fs.meta new d in
        let there' = ap (Map.get fs.meta.inode_data) number ∙ there in
        let modified = modify_inode_done fs.meta ino (resized_at now 0) old d read there' in
        let kept = Shows-kept fs.meta new d ino content clash shown in
        rw (truncated_lem fs ino now after _ modified kept.0) (
          ap (get_inode after) (sym number) ∙ get_inode-rewritten fs.meta new d fits,
          committed_content_of after ino content kept,
        )

  module _ (fs : SliceFsFilesystem Io State) (ino : ℕ) (changes : Changes) (fh : Option ℕ)
      (now : Now) where
    -- Setting attributes without a size returns the inode with all changes applied, and it reads
    -- back, if it can be read, its number is right and its fields are in range. With a size, the
    -- call does the same whatever else is to be changed: mode, owner and modification time are
    -- lost.
    pub test_setattr_lem :
        ((inode : InodeMeta)
          → get_inode fs.meta ino ≡ ok inode
          → inode.ino ≡ ino
          → IsMeta (changed_at now (changed changes inode))
          → ((test_setattr fs ino changes none fh now).0
              ≡ ok (changed_at now (changed changes inode)))
            × (get_inode (test_setattr fs ino changes none fh now).1.meta ino
                ≡ ok (changed_at now (changed changes inode))))
        × ((new_size : ℕ) (others : Changes)
            → test_setattr fs ino changes (some new_size) fh now
              ≡ test_setattr fs ino others (some new_size) fh now)
    unfolding test_setattr
    test_setattr_lem = (
      λ inode read number fits.
          let new = changed_at now (changed changes inode) in
          let (d, there, loads) = get_of_get_inode fs.meta ino inode read in
          let same = changed-ino changes inode ∙ number in
          let there' = ap (Map.get fs.meta.inode_data) same ∙ there in
          rw (read, update_inode_done fs.meta new d there')
            (
              refl,
              ap (get_inode (rewritten fs.meta new d)) (sym same)
                  ∙ get_inode-rewritten fs.meta new d fits,
            ),
      λ new_size others. refl,
    )
