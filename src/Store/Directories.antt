-- ===== src/Store/Directories.antt =====
-- crates/metadata/src/store.rs: the directory operations.
pub mod Laws
use slicefs.Base.{ℕ, ◌+◌, ◌%◌, ◌^◌, none, some, not, if◌then◌else◌, List}
use slicefs.Base.Words.{Bytes}
use slicefs.Base.Keys.{nat_key}
use slicefs.Base.Results.{Result, ok, err, ok_or, ◌>>=◌, and_then}
use slicefs.Base.Map
use slicefs.Base.Map.{Map}
use slicefs.Digest.{Digest224}
use slicefs.Blockset.{Blockset}
use slicefs.Meta.{MetaError, not_found, not_a_directory, InodeMeta, DirEntry}
use slicefs.Inode.{intern_inode}
use slicefs.InodeMap
use slicefs.Directory.{
  create_dir_entries, add_dir_entry, remove_dir_entry, lookup_dir_entry, list_dir_entries,
}
use slicefs.Store.{Store, has_dir_bit, or_dir_bit, fetch_add}
use slicefs.Store.Inodes.{get_inode, update_inode}

-- `map_err(|_| e)`
abbrev pub map_err {ℓ} : {E F A : Type ℓ} → F → Result E A → Result F A
map_err e (ok a) = ok a
map_err e (err _) = err e

module _ ⦃b : Blockset⦄ where
  open b use {Io}

  -- `create_directory` behind its checks: the number is allocated, and the three nodes are written.
  -- The number and the nodes stay where the name is refused.
  unfoldable pub make_directory :
      Store Io → Digest224 → ℕ → Bytes → InodeMeta → Result MetaError ℕ × Store Io
  make_directory s parent_dir_digest parent_ino name meta =
      let (ino, inode_map) = InodeMap.allocate_ino s.inode_map in
      let dir_meta : InodeMeta = record meta { ino = ino; mode = or_dir_bit meta.mode } in
      let (dir_inode_digest, io1) = intern_inode s.io dir_meta in
      let (dir_entry_digest, io2) = create_dir_entries io1 ino parent_ino in
      let (added, io3) = add_dir_entry io2 parent_dir_digest name ino in
      and_then (added, record s { io = io3; inode_map = inode_map })
        (λ new_parent_dir_digest t. (
          ok ino,
          record t {
            inode_map = InodeMap.insert inode_map ino dir_inode_digest;
            inode_data = Map.insert ino dir_inode_digest s.inode_data;
            dir_data =
                Map.insert parent_ino new_parent_dir_digest
                  (Map.insert ino dir_entry_digest s.dir_data);
          },
        ))

  -- The end of `create_directory`: one more link to the parent, one more inode.
  unfoldable pub count_directory : ℕ → ℕ → Store Io → Result MetaError ℕ × Store Io
  count_directory parent_ino ino s =
      and_then (get_inode s parent_ino, s)
        (λ parent_meta s1.
          and_then
            (update_inode s1 (record parent_meta { nlinks = (parent_meta.nlinks + 1) % 2 ^ 32 }))
            (λ _ s2. (ok ino, record s2 { inode_count = fetch_add s2.inode_count 1 })))

  unfoldable pub create_directory : Store Io → ℕ → Bytes → InodeMeta → Result MetaError ℕ × Store Io
  unfolding make_directory count_directory
  create_directory s parent_ino name meta =
      and_then (get_inode s parent_ino, s)
        (λ parent_meta s.
          if not (has_dir_bit parent_meta.mode)
          then (err (not_a_directory parent_ino), s)
          else elim (Map.get s.dir_data parent_ino) [
            | none ↦ (err (not_a_directory parent_ino), s)
            | some parent_dir_digest ↦
                and_then (make_directory s parent_dir_digest parent_ino name meta)
                  (count_directory parent_ino)
          ])

  unfoldable pub list_directory : Store Io → ℕ → Result MetaError (List DirEntry)
  list_directory s ino =
      ok_or (Map.get s.dir_data ino) (not_a_directory ino) >>= list_dir_entries s.io

  unfoldable pub lookup : Store Io → ℕ → Bytes → Result MetaError ℕ × Store Io
  lookup s parent_ino name = elim (Map.get s.dir_data parent_ino) [
    | none ↦ (err (not_a_directory parent_ino), s)
    | some dir_digest ↦
        let (found, io) = lookup_dir_entry s.io dir_digest name in
        (map_err (not_found 0) found, record s { io = io })
  ]

  unfoldable pub link : Store Io → ℕ → Bytes → ℕ → Result MetaError Unit × Store Io
  link s parent_ino name ino = elim (Map.get s.dir_data parent_ino) [
    | none ↦ (err (not_a_directory parent_ino), s)
    | some dir_digest ↦
        let (added, io) = add_dir_entry s.io dir_digest name ino in
        and_then (added, record s { io = io })
          (λ new_dir_digest t.
            (ok tt, record t { dir_data = Map.insert parent_ino new_dir_digest t.dir_data }))
  ]

  unfoldable pub unlink : Store Io → ℕ → Bytes → Result MetaError Unit × Store Io
  unlink s parent_ino name = elim (Map.get s.dir_data parent_ino) [
    | none ↦ (err (not_a_directory parent_ino), s)
    | some dir_digest ↦
        let (removed, io) = remove_dir_entry s.io dir_digest name in
        and_then (removed, record s { io = io })
          (λ new_dir_digest t.
            (ok tt, record t { dir_data = Map.insert parent_ino new_dir_digest t.dir_data }))
  ]
