-- ===== src/Filesystem/Creation.antt =====
-- Creating a file: an open handle without content.
use slicefs.Base.{
  ℕ, ◌+◌, ◌≡◌, refl, sym, ap, ◌∙◌, true, false, none, some, [], All, All-map, arith, ==_refl, ◌==◌,
  inl, inr, Option-cases,
}
use slicefs.Base.Words.{Bytes}
use slicefs.Base.Keys.{nat_key}
use slicefs.Base.Results.{ok, Result-cases, and_then}
use slicefs.Base.Map
use slicefs.Base.Map.{Map, get-insert, get-remove, All-insert}
use slicefs.Digest.{digest_key}
use slicefs.Blockset.{Blockset}
use slicefs.Blockset.Accumulator.{Accumulator}
use slicefs.Meta.{InodeMeta, new_file}
use slicefs.InodeMap.{allocate_ino}
use slicefs.Directory.{add_dir_entry}
use slicefs.Store.{Store, fetch_add}
use slicefs.Store.Inodes.{create_inode}
use slicefs.Store.Directories.{link}
use slicefs.Store.Files.{get_manifest}
use slicefs.Filesystem.{to_errno, s_ifreg, masked, OpenFileState, SliceFsFilesystem}
use slicefs.Filesystem.Content.{committed_content, is_writer}
use slicefs.Filesystem.Handles.{fresh_handle, test_create}
use slicefs.Filesystem.Writes.{IsOpen}
use slicefs.Filesystem.Closing.{IsDirty}

module _ ⦃b : Blockset⦄ where
  open b use {Io}

  -- Linking changes no manifest.
  link-manifest_data :
      (s : Store Io) (parent : ℕ) (name : Bytes) (ino : ℕ)
      → (link s parent name ino).1.manifest_data ≡ s.manifest_data
  unfolding link
  link-manifest_data s parent name ino = elim (Option-cases (Map.get s.dir_data parent)) [
    | inl gone ↦ rw (gone, link) refl
    | inr (d, there) ↦ elim (Result-cases (add_dir_entry s.io d name ino).0) [
      | inl (d', added) ↦ rw (there, link, added) refl
      | inr (e, refused) ↦ rw (there, link, refused) refl
    ]
  ]

  create_inode-manifest_data :
      (s : Store Io) (meta : InodeMeta) → (create_inode s meta).1.manifest_data ≡ s.manifest_data
  unfolding create_inode
  create_inode-manifest_data s meta = refl

  create_inode_number :
      (s : Store Io) (meta : InodeMeta) → (create_inode s meta).0 ≡ ok s.inode_map.next_ino
  unfolding create_inode allocate_ino
  create_inode_number s meta = refl

  committed_content-none :
      (s : Store Io) (ino : ℕ) → Map.get s.manifest_data ino ≡ none → committed_content s ino ≡ []
  unfolding committed_content get_manifest
  committed_content-none s ino gone = rw gone refl

module _ ⦃b : Blockset⦄ ⦃a : Accumulator b⦄ where
  open b use {Io}
  open a use {State, Holds-start, pushed-start}

  not_writer :
      {A : Type 0}
      → (o : OpenFileState State) (n : ℕ) → (o.ino == n) ≡ false
      → is_writer n o ≡ true
      → A
  not_writer o n other w = cc (rw other at w)

  test_create_done :
      (fs : SliceFsFilesystem Io State) (parent : ℕ) (name : Bytes) (mode umask uid gid ino : ℕ)
      → let c = create_inode fs.meta (new_file 0 uid gid (s_ifreg + masked mode umask)) in
        c.0 ≡ ok ino
        → (link c.1 parent name ino).0 ≡ ok tt
        → test_create fs parent name mode umask uid gid ≡ (
          ok (ino, fetch_add fs.next_fh 1),
          record fs {
            meta = (link c.1 parent name ino).1;
            next_fh = fetch_add fs.next_fh 1;
            open_files = Map.insert (fetch_add fs.next_fh 1) (fresh_handle ino) fs.open_files;
          },
        )
  unfolding test_create
  test_create_done fs parent name mode umask uid gid ino made linked =
      rw (test_create, made, and_then, to_errno, linked) refl

  module _ (fs : SliceFsFilesystem Io State) (parent : ℕ) (name : Bytes) (mode umask uid gid : ℕ)
      (linked : (link
          (create_inode fs.meta (new_file 0 uid gid (s_ifreg + masked mode umask))).1
          parent
          name
          fs.meta.inode_map.next_ino).0
        ≡ ok tt)
      (unused : Map.get fs.meta.manifest_data fs.meta.inode_map.next_ino ≡ none)
      (others : All
        (λ (e : ℕ × OpenFileState State). (e.1.ino == fs.meta.inode_map.next_ino) ≡ false)
        fs.open_files) where
    -- Creating a file whose name is accepted returns the new inode and the next handle, which is
    -- open, without content, and the only writer of the inode. The inode must be new: without a
    -- manifest or a handle.
    pub test_create_lem :
        ((test_create fs parent name mode umask uid gid).0
          ≡ ok (fs.meta.inode_map.next_ino, fetch_add fs.next_fh 1))
        × IsOpen
            (test_create fs parent name mode umask uid gid).1
            fs.meta.inode_map.next_ino
            (fetch_add fs.next_fh 1)
            []
        × IsDirty (test_create fs parent name mode umask uid gid).1 (fetch_add fs.next_fh 1)
    test_create_lem =
        let n = fs.meta.inode_map.next_ino in
        let fh = fetch_add fs.next_fh 1 in
        let meta = new_file 0 uid gid (s_ifreg + masked mode umask) in
        let c = (create_inode fs.meta meta).1 in
        let l = (link c parent name n).1 in
        let made = create_inode_number fs.meta meta in
        let no_manifest =
          ap (λ m. Map.get m n)
            (link-manifest_data c parent name n ∙ create_inode-manifest_data fs.meta meta)
          ∙ unused in
        let found = get-insert fs.open_files fh fh (fresh_handle n) ∙ rw (==_refl fh) refl in
        rw (test_create_done fs parent name mode umask uid gid n made linked) (
          refl,
          record {
            file_state = fresh_handle n;
            found = found;
            owner = refl;
            tracks = record {
              mode = (
                pushed-start,
                refl,
                Holds-start l.io,
                λ _. committed_content-none l n no_manifest,
              );
              count = refl;
              fits = omega arith;
            };
            sole =
                All-insert (λ (e : ℕ × OpenFileState State). is_writer n e.1 ≡ true → e.0 ≡ fh) fh
                  (fresh_handle n) fs.open_files (λ _. refl)
                  (All-map (λ (e : ℕ × OpenFileState State). (e.1.ino == n) ≡ false)
                    (λ (e : ℕ × OpenFileState State). is_writer n e.1 ≡ true → e.0 ≡ fh)
                    fs.open_files (λ e other w. not_writer e.1 n other w) others);
          },
          λ o e.
              let same : some (fresh_handle n) ≡ some o = sym found ∙ e in
              let clean : (fresh_handle n).cas_committed ≡ false = refl in cc (same, clean),
        )
