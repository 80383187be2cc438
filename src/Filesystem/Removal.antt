-- ===== src/Filesystem/Removal.antt =====
-- What removing names does to the tables of a store, on every branch.
use slicefs.Base.{
  ℕ, ◌≡◌, ◌⊎◌, refl, true, false, List, arith, inl, inr, Option-cases, Bool-cases, ltb,
}
use slicefs.Base.Words.{Bytes}
use slicefs.Base.Keys.{nat_key}
use slicefs.Base.Results.{ok, Result-cases}
use slicefs.Base.Map
use slicefs.Base.Map.{Map, get-insert, get-remove}
use slicefs.Blockset.{Blockset}
use slicefs.Meta.{InodeMeta, DirEntry}
use slicefs.Directory.{add_dir_entry, remove_dir_entry}
use slicefs.Store.{Store, has_dir_bit}
use slicefs.Store.Inodes.{get_inode}
use slicefs.Store.Directories.{lookup, link, unlink, list_directory}
use slicefs.Filesystem.Names.{real_entries, simulate_rmdir, simulate_unlink}

module _ ⦃b : Blockset⦄ where
  open b use {Io}

  -- Neither a name nor an inode differs.
  abbrev pub SameTables : Store Io → Store Io → Type 0
  SameTables s t = (t.dir_data ≡ s.dir_data) × (t.inode_data ≡ s.inode_data)

  -- A lookup changes the storage only.
  pub lookup-SameTables :
      (s : Store Io) (parent : ℕ) (name : Bytes) → SameTables s (lookup s parent name).1
  unfolding lookup
  lookup-SameTables s parent name = elim (Option-cases (Map.get s.dir_data parent)) [
    | inl gone ↦ rw (gone, lookup) (refl, refl)
    | inr (d, there) ↦ rw (there, lookup) (refl, refl)
  ]

  -- Linking changes no inode, and where it fails no name either.
  pub link_tables :
      (s : Store Io) (parent : ℕ) (name : Bytes) (ino : ℕ)
      → ((link s parent name ino).1.inode_data ≡ s.inode_data)
        × (((link s parent name ino).0 ≡ ok tt) ⊎ SameTables s (link s parent name ino).1)
  unfolding link
  link_tables s parent name ino = elim (Option-cases (Map.get s.dir_data parent)) [
    | inl gone ↦ rw (gone, link) (refl, inr (refl, refl))
    | inr (d, there) ↦ elim (Result-cases (add_dir_entry s.io d name ino).0) [
      | inl (d', added) ↦ rw (there, link, added) (refl, inl refl)
      | inr (e, refused) ↦ rw (there, link, refused) (refl, inr (refl, refl))
    ]
  ]

  pub unlink_tables :
      (s : Store Io) (parent : ℕ) (name : Bytes)
      → ((unlink s parent name).1.inode_data ≡ s.inode_data)
        × (((unlink s parent name).0 ≡ ok tt) ⊎ SameTables s (unlink s parent name).1)
  unfolding unlink
  unlink_tables s parent name = elim (Option-cases (Map.get s.dir_data parent)) [
    | inl gone ↦ rw (gone, unlink) (refl, inr (refl, refl))
    | inr (d, there) ↦ elim (Result-cases (remove_dir_entry s.io d name).0) [
      | inl (d', removed) ↦ rw (there, unlink, removed) (refl, inl refl)
      | inr (e, refused) ↦ rw (there, unlink, refused) (refl, inr (refl, refl))
    ]
  ]

  -- The name is that of a directory without real entries.
  abbrev pub NamesEmptyDirectory : Store Io → ℕ → Bytes → Type 0
  NamesEmptyDirectory s parent name =
      (ino : ℕ) × (inode : InodeMeta) × (entries : List DirEntry) × ((lookup s parent name).0
        ≡ ok ino)
      × (get_inode (lookup s parent name).1 ino ≡ ok inode)
      × (has_dir_bit inode.mode ≡ true)
      × (list_directory (lookup s parent name).1 ino ≡ ok entries)
      × (real_entries entries ≡ 0)

  -- Whatever simulate_rmdir returns, it changes no directory and no inode unless the name is that
  -- of a directory that lists nothing but the two dot names.
  pub simulate_rmdir-safe :
      (s : Store Io) (parent : ℕ) (name : Bytes)
      → SameTables s (simulate_rmdir s parent name).1 ⊎ NamesEmptyDirectory s parent name
  unfolding simulate_rmdir
  simulate_rmdir-safe s parent name =
      let same = lookup-SameTables s parent name in
      let t = (lookup s parent name).1 in
      elim (Result-cases (lookup s parent name).0) [
        | inr (e, missing) ↦ inl (rw (simulate_rmdir, missing) same)
        | inl (ino, found) ↦ elim (Result-cases (get_inode t ino)) [
          | inr (e, unread) ↦ inl (rw (simulate_rmdir, found, unread) same)
          | inl (inode, read) ↦ elim (Bool-cases (has_dir_bit inode.mode)) [
            | inr file ↦ inl (rw (simulate_rmdir, found, read, file) same)
            | inl dir ↦ elim (Result-cases (list_directory t ino)) [
              | inr (e, unlisted) ↦ inl (rw (simulate_rmdir, found, read, dir, unlisted) same)
              | inl (entries, listed) ↦ elim (Bool-cases (ltb 0 (real_entries entries))) [
                | inl full ↦ inl (rw (simulate_rmdir, found, read, dir, listed, full) same)
                | inr empty ↦ inr (
                  ino,
                  inode,
                  entries,
                  found,
                  read,
                  dir,
                  listed,
                  (let z : real_entries entries ≡ 0 = ground arith in z),
                )
              ]
            ]
          ]
        ]
      ]

  -- The name is that of an inode that is no directory.
  abbrev pub NamesFile : Store Io → ℕ → Bytes → Type 0
  NamesFile s parent name =
      (ino : ℕ) × (inode : InodeMeta) × ((lookup s parent name).0 ≡ ok ino)
      × (get_inode (lookup s parent name).1 ino ≡ ok inode)
      × (has_dir_bit inode.mode ≡ false)

  -- Whatever `simulate_unlink` returns, it changes no table unless the name is that of an inode that
  -- is no directory.
  pub simulate_unlink-safe :
      (s : Store Io) (parent : ℕ) (name : Bytes)
      → SameTables s (simulate_unlink s parent name).1 ⊎ NamesFile s parent name
  unfolding simulate_unlink
  simulate_unlink-safe s parent name =
      let same = lookup-SameTables s parent name in
      let t = (lookup s parent name).1 in
      elim (Result-cases (lookup s parent name).0) [
        | inr (e, missing) ↦ inl (rw (simulate_unlink, missing) same)
        | inl (ino, found) ↦ elim (Result-cases (get_inode t ino)) [
          | inr (e, unread) ↦ inl (rw (simulate_unlink, found, unread) same)
          | inl (inode, read) ↦ elim (Bool-cases (has_dir_bit inode.mode)) [
            | inl dir ↦ inl (rw (simulate_unlink, found, read, dir) same)
            | inr file ↦ inr (ino, inode, found, read, file)
          ]
        ]
      ]
