-- ===== src/Store/Inodes.antt =====
-- crates/metadata/src/store.rs: creating, reading, updating and deleting inodes.
pub mod Accounts
pub mod Laws
use slicefs.Base.{ℕ, ◌+◌, ◌-◌, ◌≡◌, Option, none, some, List, [], ltb, if◌then◌else◌}
use slicefs.Base.Keys.{nat_key}
use slicefs.Base.Results.{Result, ok, err, ok_or, ◌>>=◌, map_ok, unwrap_or}
use slicefs.Base.Map
use slicefs.Base.Map.{Map}
use slicefs.Digest.{Digest224}
use slicefs.Blockset.{Blockset}
use slicefs.Meta.{MetaError, not_found, InodeMeta}
use slicefs.Inode.{intern_inode, load_inode}
use slicefs.InodeMap
use slicefs.Store.{Store, fetch_add, saturating_sub}

module _ ⦃b : Blockset⦄ where
  open b use {Io}

  -- `load_inode(..).map(|m| m.size).unwrap_or(0)`
  unfoldable pub size_at : Io → Digest224 → ℕ
  size_at io digest = unwrap_or (map_ok (λ (m : InodeMeta). m.size) (load_inode io digest)) 0

  unfoldable pub create_inode : Store Io → InodeMeta → Result MetaError ℕ × Store Io
  create_inode s meta =
      let (ino, inode_map) = InodeMap.allocate_ino s.inode_map in
      let full_meta : InodeMeta = record meta { ino = ino } in
      let (digest, io) = intern_inode s.io full_meta in
      (
        ok ino,
        record s {
          io = io;
          inode_map = InodeMap.insert inode_map ino digest;
          inode_data = Map.insert ino digest s.inode_data;
          logical_bytes =
              if ltb 0 full_meta.size
              then fetch_add s.logical_bytes full_meta.size
              else s.logical_bytes;
          inode_count = fetch_add s.inode_count 1;
        },
      )

  unfoldable pub get_inode : Store Io → ℕ → Result MetaError InodeMeta
  get_inode s ino = ok_or (Map.get s.inode_data ino) (not_found ino) >>= load_inode s.io

  -- The adjustment of the running total of bytes.
  abbrev pub adjusted : ℕ → ℕ → ℕ → ℕ
  adjusted total old_size new_size =
      if ltb old_size new_size
      then fetch_add total (new_size - old_size)
      else if ltb new_size old_size
      then saturating_sub total (old_size - new_size)
      else total

  unfoldable pub update_inode : Store Io → InodeMeta → Result MetaError Unit × Store Io
  update_inode s meta = elim (Map.get s.inode_data meta.ino) [
    | none ↦ (err (not_found meta.ino), s)
    | some old_digest ↦
        let old_size = size_at s.io old_digest in
        let (new_digest, io) = intern_inode s.io meta in
        (
          ok tt,
          record s {
            io = io;
            inode_data = Map.insert meta.ino new_digest s.inode_data;
            inode_map = InodeMap.insert s.inode_map meta.ino new_digest;
            logical_bytes = adjusted s.logical_bytes old_size meta.size;
          },
        )
  ]

  unfoldable pub delete_inode : Store Io → ℕ → Result MetaError Unit × Store Io
  delete_inode s ino = elim (Map.get s.inode_data ino) [
    | none ↦ (err (not_found ino), s)
    | some digest ↦
        let size = size_at s.io digest in
        let (_, inode_map) = InodeMap.remove s.inode_map ino in
        (
          ok tt,
          record s {
            inode_data = Map.remove ino s.inode_data;
            inode_map = inode_map;
            logical_bytes =
                if ltb 0 size then saturating_sub s.logical_bytes size else s.logical_bytes;
            inode_count = saturating_sub s.inode_count 1;
          },
        )
  ]
