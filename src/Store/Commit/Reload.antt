-- ===== src/Store/Commit/Reload.antt =====
-- Loading a store from the root that `commit` returned.
use slicefs.Base.{
  ℕ, ◌+◌, ◌^◌, ◌≡◌, refl, true, Option, none, some, List, [], ◌∷◌, length, All, arith, ◌%◌,
}
use slicefs.Base.Words.{Bytes, IsU64, from_le-le_bytes}
use slicefs.Base.Keys.{nat_key}
use slicefs.Base.Results.{ok}
use slicefs.Base.Map
use slicefs.Base.Map.{Map, IsSorted}
use slicefs.Digest.{Digest224, IsDigest, digest_key, parse_digest224-digest_bytes}
use slicefs.Blockset.{Blockset, push_many, AllApart, get-push_many}
use slicefs.Records.{IsU64Digest}
use slicefs.InodeMap.{
  InodeMap, serialize_inode_map, deserialize_inode_map-serialize_inode_map, load_inode_map,
  set_next_ino, max_key,
}
use slicefs.MapNode.{
  u64_digest_map_bytes, digest_u64_map_bytes, parse_u64_digest_map_lem, parse_digest_u64_map_lem,
  load_u64_digest_map, load_digest224_u64_map, IsDigestU64,
}
use slicefs.Store.{Store}
use slicefs.Store.Commit.{
  RootRecord, root_bytes, parse_root, write_nodes, commit, sum_sizes, load_refcounts,
  load_from_root,
}

abbrev IsRefcountDigest : Option Digest224 → Type 0
IsRefcountDigest none = Unit
IsRefcountDigest (some d) = IsDigest d

-- The ranges that the types of the fields give.
pub record IsRootRecord (r : RootRecord) : Type 0 where
  pub inode_map_digest : IsDigest r.inode_map_digest
  pub root_dir_ino : IsU64 r.root_dir_ino
  pub next_ino : IsU64 r.next_ino
  pub inode_data_digest : IsDigest r.inode_data_digest
  pub dir_data_digest : IsDigest r.dir_data_digest
  pub manifest_data_digest : IsDigest r.manifest_data_digest
  pub xattr_data_digest : IsDigest r.xattr_data_digest
  pub refcount_data_digest : IsRefcountDigest r.refcount_data_digest

abbrev with_refcounts : RootRecord → Option Digest224 → RootRecord
with_refcounts r refcounts = record r { refcount_data_digest = refcounts }

parse_root_fields :
    (r : RootRecord) (refcounts : Option Digest224)
    → IsRootRecord r
    → IsRefcountDigest refcounts
    → parse_root (root_bytes (with_refcounts r refcounts)) ≡ ok (with_refcounts r refcounts)
unfolding parse_root root_bytes
parse_root_fields r none h hr = λ i. ok (record {
  inode_map_digest = parse_digest224-digest_bytes r.inode_map_digest [] h.inode_map_digest i;
  root_dir_ino = from_le-le_bytes 8 r.root_dir_ino h.root_dir_ino i;
  next_ino = from_le-le_bytes 8 r.next_ino h.next_ino i;
  inode_data_digest = parse_digest224-digest_bytes r.inode_data_digest [] h.inode_data_digest i;
  dir_data_digest = parse_digest224-digest_bytes r.dir_data_digest [] h.dir_data_digest i;
  manifest_data_digest =
      parse_digest224-digest_bytes r.manifest_data_digest [] h.manifest_data_digest i;
  xattr_data_digest = parse_digest224-digest_bytes r.xattr_data_digest [] h.xattr_data_digest i;
  refcount_data_digest = none;
})
parse_root_fields r (some d) h hr = λ i. ok (record {
  inode_map_digest = parse_digest224-digest_bytes r.inode_map_digest [] h.inode_map_digest i;
  root_dir_ino = from_le-le_bytes 8 r.root_dir_ino h.root_dir_ino i;
  next_ino = from_le-le_bytes 8 r.next_ino h.next_ino i;
  inode_data_digest = parse_digest224-digest_bytes r.inode_data_digest [] h.inode_data_digest i;
  dir_data_digest = parse_digest224-digest_bytes r.dir_data_digest [] h.dir_data_digest i;
  manifest_data_digest =
      parse_digest224-digest_bytes r.manifest_data_digest [] h.manifest_data_digest i;
  xattr_data_digest = parse_digest224-digest_bytes r.xattr_data_digest [] h.xattr_data_digest i;
  refcount_data_digest = some (parse_digest224-digest_bytes d [] hr i);
})

-- A root record whose fields are in range is parsed back, in the 184-byte format and in the
-- 156-byte one.
pub parse_root-root_bytes : (r : RootRecord) → IsRootRecord r → parse_root (root_bytes r) ≡ ok r
parse_root-root_bytes r h = parse_root_fields r r.refcount_data_digest h h.refcount_data_digest

-- A map that fits its node.
pub record IsNodeMap (m : Map ℕ Digest224) : Type 0 where
  pub sorted : IsSorted m
  pub each : All IsU64Digest m
  pub len : IsU64 (length m)

-- A store whose maps fit their nodes and that has a root directory.
pub record IsCommittable {Io : Type 0} (s : Store Io) : Type 0 where
  pub inode_map : IsNodeMap s.inode_map.map
  pub next_ino : IsU64 s.inode_map.next_ino
  pub inode_data : IsNodeMap s.inode_data
  pub dir_data : IsNodeMap s.dir_data
  pub manifest_data : IsNodeMap s.manifest_data
  pub xattr_data : IsNodeMap s.xattr_data
  pub refcounts_sorted : IsSorted s.refcounts
  pub refcounts_each : All IsDigestU64 s.refcounts
  pub refcounts_len : IsU64 (length s.refcounts)
  pub root_dir : Map.contains_key s.inode_data 1 ≡ true

module _ ⦃b : Blockset⦄ where
  open b use {Io, digest, push, file_storage_get, digest-IsDigest}

  -- What a commit writes, in its order.
  abbrev pub nodes : Store Io → List Bytes
  nodes s =
      serialize_inode_map s.inode_map
      ∷ u64_digest_map_bytes s.inode_data
      ∷ u64_digest_map_bytes s.dir_data
      ∷ u64_digest_map_bytes s.manifest_data
      ∷ u64_digest_map_bytes s.xattr_data
      ∷ digest_u64_map_bytes s.refcounts
      ∷ root_bytes (write_nodes s).0
      ∷ []

  -- What survives a reload: everything but the log strategy and the snapshot index, which the
  -- segment files give back, and the two totals, which are computed afresh.
  abbrev pub reloaded : Store Io → Store Io
  reloaded s = record s {
    logical_bytes = sum_sizes s.io s.inode_data;
    inode_count = length s.inode_data;
    wal = none;
    snapshots_by_version = [];
    snapshots_by_name = [];
  }

  load_u64_digest_map_lem :
      (io : Io) (m : Map ℕ Digest224)
      → IsNodeMap m
      → file_storage_get io (digest (u64_digest_map_bytes m)) ≡ some (u64_digest_map_bytes m)
      → load_u64_digest_map io (digest (u64_digest_map_bytes m)) ≡ ok m
  unfolding load_u64_digest_map
  load_u64_digest_map_lem io m h e = rw e (parse_u64_digest_map_lem m h.sorted h.each h.len)

  load_refcounts_lem :
      (io : Io) (s : Store Io)
      → IsCommittable s
      → file_storage_get io (digest (digest_u64_map_bytes s.refcounts))
        ≡ some (digest_u64_map_bytes s.refcounts)
      → load_digest224_u64_map io (digest (digest_u64_map_bytes s.refcounts)) ≡ ok s.refcounts
  unfolding load_digest224_u64_map
  load_refcounts_lem io s h e =
      rw e
        (parse_digest_u64_map_lem s.refcounts h.refcounts_sorted h.refcounts_each h.refcounts_len)

  load_inode_map_lem :
      (io : Io) (m : InodeMap)
      → IsNodeMap m.map
      → file_storage_get io (digest (serialize_inode_map m)) ≡ some (serialize_inode_map m)
      → load_inode_map io (digest (serialize_inode_map m))
        ≡ ok (record { map = m.map; next_ino = (max_key m.map 1 + 1) % 2 ^ 64 })
  unfolding load_inode_map
  load_inode_map_lem io m h e = rw e (deserialize_inode_map-serialize_inode_map m h.sorted h.each)

  write_nodes-IsRootRecord : (s : Store Io) → IsCommittable s → IsRootRecord (write_nodes s).0
  unfolding write_nodes
  write_nodes-IsRootRecord s h = record {
    inode_map_digest = digest-IsDigest _;
    root_dir_ino = omega arith;
    next_ino = h.next_ino;
    inode_data_digest = digest-IsDigest _;
    dir_data_digest = digest-IsDigest _;
    manifest_data_digest = digest-IsDigest _;
    xattr_data_digest = digest-IsDigest _;
    refcount_data_digest = digest-IsDigest _;
  }

  -- Loading from the root that a commit returned, in the storage that it left, gives back the
  -- committed store (every map, the counts, the next inode number; the totals are those of the
  -- maps), if the maps fit their nodes, the root inode exists and the seven byte strings written
  -- do not collide.
  pub load_from_root-commit :
      (s : Store Io)
      → IsCommittable s
      → AllApart (nodes s)
      → load_from_root (commit s).1.io (commit s).0 ≡ ok (reloaded (commit s).1)
  unfolding load_from_root commit write_nodes load_refcounts set_next_ino
  load_from_root-commit s h apart =
      let g = get-push_many s.io (nodes s) apart in
      let io = push_many s.io (nodes s) in
      rw
        (
          g.1.1.1.1.1.1.0,
          parse_root-root_bytes (write_nodes s).0 (write_nodes-IsRootRecord s h),
          load_inode_map_lem io s.inode_map h.inode_map g.0,
          load_u64_digest_map_lem io s.inode_data h.inode_data g.1.0,
          load_u64_digest_map_lem io s.dir_data h.dir_data g.1.1.0,
          load_u64_digest_map_lem io s.manifest_data h.manifest_data g.1.1.1.0,
          load_u64_digest_map_lem io s.xattr_data h.xattr_data g.1.1.1.1.0,
          load_refcounts_lem io s h g.1.1.1.1.1.0,
          h.root_dir,
        )
        refl
