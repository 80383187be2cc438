-- ===== src/Store/Commit.antt =====
-- crates/metadata/src/store.rs: `commit` and `load_from_root`.
pub mod Reload
use slicefs.Base.{
  ℕ, ◌+◌, ◌%◌, ◌^◌, Bool, true, false, Option, none, some, List, [], ◌∷◌, ◌++◌, length, slice, ◌==◌,
  if◌then◌else◌,
}
use slicefs.Base.Words.{Bytes, le_bytes}
use slicefs.Base.Keys.{nat_key}
use slicefs.Base.Results.{Result, ok, err, ok_or, guard, ◌>>=◌, ◌>>◌}
use slicefs.Base.Map
use slicefs.Base.Map.{Map, total}
use slicefs.Digest.{Digest224, digest_bytes, parse_digest224}
use slicefs.Blockset.{Blockset, push_all}
use slicefs.Meta.{MetaError, corrupted}
use slicefs.Records.{u64_at}
use slicefs.InodeMap.{InodeMap, intern_inode_map, load_inode_map, set_next_ino}
use slicefs.MapNode.{
  intern_u64_digest_map, load_u64_digest_map, intern_digest224_u64_map, load_digest224_u64_map,
}
use slicefs.Wal.{WalEntry, root_update}
use slicefs.Store.{Store, log_wal_entry}
use slicefs.Store.Inodes.{size_at}

-- The fields of a root record.
pub record RootRecord : Type 0 where
  pub inode_map_digest : Digest224
  pub root_dir_ino : ℕ
  pub next_ino : ℕ
  pub inode_data_digest : Digest224
  pub dir_data_digest : Digest224
  pub manifest_data_digest : Digest224
  pub xattr_data_digest : Digest224
  pub refcount_data_digest : Option Digest224

-- The digest of the reference counts, which the 156-byte format does not have.
abbrev pub refcount_bytes : Option Digest224 → Bytes
refcount_bytes none = []
refcount_bytes (some d) = digest_bytes d

-- `root_bytes` of `commit`
unfoldable pub root_bytes : RootRecord → Bytes
root_bytes r =
    digest_bytes r.inode_map_digest
    ++ (le_bytes 8 r.root_dir_ino
        ++ (le_bytes 8 r.next_ino
            ++ (digest_bytes r.inode_data_digest
                ++ (digest_bytes r.dir_data_digest
                    ++ (digest_bytes r.manifest_data_digest
                        ++ (digest_bytes r.xattr_data_digest
                            ++ refcount_bytes r.refcount_data_digest))))))

-- The fields that `load_from_root` parses; only 156 and 184 bytes are accepted.
unfoldable pub parse_root : Bytes → Result MetaError RootRecord
parse_root bytes =
    let fields : Option Digest224 → RootRecord = λ refcounts. record {
      inode_map_digest = parse_digest224 (slice 0 28 bytes);
      root_dir_ino = u64_at 28 bytes;
      next_ino = u64_at 36 bytes;
      inode_data_digest = parse_digest224 (slice 44 72 bytes);
      dir_data_digest = parse_digest224 (slice 72 100 bytes);
      manifest_data_digest = parse_digest224 (slice 100 128 bytes);
      xattr_data_digest = parse_digest224 (slice 128 156 bytes);
      refcount_data_digest = refcounts;
    } in
    if length bytes == 156
    then ok (fields none)
    else if length bytes == 184
    then ok (fields (some (parse_digest224 (slice 156 184 bytes))))
    else err corrupted

module _ ⦃b : Blockset⦄ where
  open b use {Io, file_storage_get}

  -- The six nodes of a commit: the root record that names them, and the storage that holds them.
  unfoldable pub write_nodes : Store Io → RootRecord × Io
  write_nodes s =
      let (inode_map_digest, io1) = intern_inode_map s.io s.inode_map in
      let (inode_data_digest, io2) = intern_u64_digest_map io1 s.inode_data in
      let (dir_data_digest, io3) = intern_u64_digest_map io2 s.dir_data in
      let (manifest_data_digest, io4) = intern_u64_digest_map io3 s.manifest_data in
      let (xattr_data_digest, io5) = intern_u64_digest_map io4 s.xattr_data in
      let (refcount_data_digest, io6) = intern_digest224_u64_map io5 s.refcounts in
      (
        record {
          inode_map_digest = inode_map_digest;
          root_dir_ino = 1;
          next_ino = s.inode_map.next_ino;
          inode_data_digest = inode_data_digest;
          dir_data_digest = dir_data_digest;
          manifest_data_digest = manifest_data_digest;
          xattr_data_digest = xattr_data_digest;
          refcount_data_digest = some refcount_data_digest;
        },
        io6,
      )

  -- `commit` never fails: it writes the nodes, then the root record, then the log entry.
  unfoldable pub commit : Store Io → Digest224 × Store Io
  unfolding write_nodes
  commit s =
      let (r, io6) = write_nodes s in
      let (root_digest, io7) = push_all io6 (root_bytes r) in
      (
        root_digest,
        log_wal_entry (record s { io = io7; last_root = some root_digest })
            (root_update root_digest),
      )

  -- `values().map(size_at).sum()`, a sum of `u64`s
  unfoldable pub sum_sizes : Io → Map ℕ Digest224 → ℕ
  sum_sizes io m = total (size_at io) m % 2 ^ 64

  unfoldable pub load_refcounts : Io → Option Digest224 → Result MetaError (Map Digest224 ℕ)
  load_refcounts io none = ok []
  load_refcounts io (some d) = load_digest224_u64_map io d

  unfoldable pub load_from_root : Io → Digest224 → Result MetaError (Store Io)
  load_from_root io root = do
    bytes ← ok_or (file_storage_get io root) corrupted
    r ← parse_root bytes
    inode_map ← load_inode_map io r.inode_map_digest
    inode_data ← load_u64_digest_map io r.inode_data_digest
    dir_data ← load_u64_digest_map io r.dir_data_digest
    manifest_data ← load_u64_digest_map io r.manifest_data_digest
    xattr_data ← load_u64_digest_map io r.xattr_data_digest
    refcounts ← load_refcounts io r.refcount_data_digest
    guard (Map.contains_key inode_data r.root_dir_ino) corrupted
    ok (record {
      io = io;
      inode_map = set_next_ino inode_map r.next_ino;
      inode_data = inode_data;
      dir_data = dir_data;
      manifest_data = manifest_data;
      xattr_data = xattr_data;
      refcounts = refcounts;
      logical_bytes = sum_sizes io inode_data;
      inode_count = length inode_data;
      wal = none;
      last_root = some root;
      snapshots_by_version = [];
      snapshots_by_name = [];
    })
