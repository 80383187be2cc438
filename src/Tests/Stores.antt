-- ===== src/Tests/Stores.antt =====
-- Stores: runs at concrete inputs.
use slicefs.Base.{ℕ, ◌^◌, ◌<◌, ◌≡◌, ◌≢◌, refl, arith, none, [], ◌∷◌}
use slicefs.Base.Words.{Bytes}
use slicefs.Base.Keys.{nat_key, lex_key}
use slicefs.Base.Results.{ok, err}
use slicefs.Base.Map
use slicefs.Base.Map.{Map, IsSorted, insert_all}
use slicefs.Digest.{Digest224, digest_key}
use slicefs.Blockset.{AllApart, NoClash, NoClash-of_none}
use slicefs.Records
use slicefs.MapNode
use slicefs.Sample.{sample, sample_digest, all_apart-AllApart}
use slicefs.Meta.{InodeMeta, IsMeta, new_file, new_directory, not_found}
use slicefs.Inode.{serialize_inode, deserialize_inode, load_inode}
use slicefs.Store.Inodes.{size_at, create_inode, get_inode, update_inode, delete_inode}
use slicefs.Store.Inodes.Accounts.{IsAccounted}
use slicefs.Store.Inodes.Laws.{
  get_inode-create_inode, create_inode-IsAccounted, update_inode-IsAccounted,
  delete_inode-IsAccounted,
}
use slicefs.InodeMap
use slicefs.Store.{Store, root_mode}
use slicefs.Store.Commit.{commit, load_from_root, root_bytes, write_nodes}
use slicefs.Store.Commit.Reload.{IsCommittable, IsNodeMap, nodes, reloaded, load_from_root-commit}

-- A store with one directory, at whose digest nothing else is stored.
abbrev root_digest : Digest224
root_digest = record { w0 = 1; w1 = 2; w2 = 3; w3 = 4; w4 = 5; w5 = 6; w6 = 7 }

abbrev small : Store (Map Digest224 Bytes)
small = record {
  io = [];
  inode_map = record { map = (1, root_digest) ∷ []; next_ino = 2 };
  inode_data = (1, root_digest) ∷ [];
  dir_data = (1, root_digest) ∷ [];
  manifest_data = [];
  xattr_data = [];
  refcounts = [];
  logical_bytes = 0;
  inode_count = 1;
  wal = none;
  last_root = none;
  snapshots_by_version = [];
  snapshots_by_name = [];
}

one-IsNodeMap : IsNodeMap ((1, root_digest) ∷ [])
one-IsNodeMap = record {
  sorted = (tt, tt);
  each = (
    (
      omega arith,
      (omega arith, omega arith, omega arith, omega arith, omega arith, omega arith, omega arith),
    ),
    tt,
  );
  len = omega arith;
}

none-IsNodeMap : IsNodeMap []
none-IsNodeMap = record { sorted = tt; each = tt; len = omega arith }

small-IsCommittable : IsCommittable small
unfolding Map.get
small-IsCommittable = record {
  inode_map = one-IsNodeMap;
  next_ino = omega arith;
  inode_data = one-IsNodeMap;
  dir_data = one-IsNodeMap;
  manifest_data = none-IsNodeMap;
  xattr_data = none-IsNodeMap;
  refcounts_sorted = tt;
  refcounts_each = tt;
  refcounts_len = omega arith;
  root_dir = refl;
}

small-AllApart : AllApart ⦃b = sample⦄ (nodes ⦃b = sample⦄ small)
unfolding InodeMap.serialize_inode_map Records.u64_digest_records MapNode.digest_u64_records
    root_bytes write_nodes
small-AllApart = all_apart-AllApart (nodes ⦃b = sample⦄ small) refl

load_from_root-commit_example :
    load_from_root ⦃b = sample⦄ (commit ⦃b = sample⦄ small).1.io (commit ⦃b = sample⦄ small).0
    ≡ ok (reloaded ⦃b = sample⦄ (commit ⦃b = sample⦄ small).1)
load_from_root-commit_example =
    load_from_root-commit ⦃b = sample⦄ small small-IsCommittable small-AllApart

-- A store with a root inode that can be read.
abbrev seed : InodeMeta
seed = new_directory 1 0 0 root_mode

abbrev fresh_file : InodeMeta
fresh_file = record (new_file 0 1000 1000 33188) { size = 5 }

seed_bytes : Bytes
unfolding serialize_inode
seed_bytes = serialize_inode seed

abbrev seed_digest : Digest224
unfolding seed_bytes
seed_digest = sample_digest seed_bytes

abbrev seeded : Store (Map Digest224 Bytes)
unfolding seed_bytes
seeded = record small {
  io = (seed_digest, seed_bytes) ∷ [];
  inode_map = record { map = (1, seed_digest) ∷ []; next_ino = 2 };
  inode_data = (1, seed_digest) ∷ [];
}

seeded-IsAccounted : IsAccounted ⦃b = sample⦄ seeded
unfolding Map.get load_inode serialize_inode deserialize_inode seed_bytes size_at
seeded-IsAccounted = record {
  sorted = (tt, tt);
  loads = ((seed, refl), tt);
  bytes = refl;
  count = refl;
  fresh = (omega arith, tt);
}

file-IsMeta : (ino : ℕ) → ino < 2 ^ 64 → IsMeta (record fresh_file { ino = ino })
file-IsMeta i h = record {
  ino = h;
  mode = omega arith;
  uid = omega arith;
  gid = omega arith;
  nlinks = omega arith;
  size = omega arith;
  mtime_sec = omega arith;
  mtime_nsec = omega arith;
  ctime_sec = omega arith;
  ctime_nsec = omega arith;
}

create_free : NoClash ⦃b = sample⦄ seeded.io (serialize_inode (record fresh_file { ino = 2 }))
unfolding Map.get serialize_inode seed_bytes
create_free =
    NoClash-of_none ⦃b = sample⦄ seeded.io (serialize_inode (record fresh_file { ino = 2 })) refl

update_free : NoClash ⦃b = sample⦄ seeded.io (serialize_inode (record fresh_file { ino = 1 }))
unfolding Map.get serialize_inode seed_bytes
update_free =
    NoClash-of_none ⦃b = sample⦄ seeded.io (serialize_inode (record fresh_file { ino = 1 })) refl

seed_there : get_inode ⦃b = sample⦄ seeded 1 ≡ ok seed
unfolding get_inode Map.get load_inode serialize_inode deserialize_inode seed_bytes
seed_there = refl

get_inode-create_inode_example :
    ((create_inode ⦃b = sample⦄ seeded fresh_file).0 ≡ ok 2)
    × (get_inode ⦃b = sample⦄ seeded 2 ≡ err (not_found 2))
    × (get_inode ⦃b = sample⦄ (create_inode ⦃b = sample⦄ seeded fresh_file).1 2
        ≡ ok (record fresh_file { ino = 2 }))
    × ((other : ℕ)
        → other ≢ 2
        → get_inode ⦃b = sample⦄ (create_inode ⦃b = sample⦄ seeded fresh_file).1 other
          ≡ get_inode ⦃b = sample⦄ seeded other)
unfolding seeded
get_inode-create_inode_example =
    get_inode-create_inode ⦃b = sample⦄ seeded fresh_file seeded-IsAccounted
      (file-IsMeta 2 (omega arith)) create_free

create_inode-IsAccounted_example :
    IsAccounted ⦃b = sample⦄ (create_inode ⦃b = sample⦄ seeded fresh_file).1
unfolding seeded
create_inode-IsAccounted_example =
    create_inode-IsAccounted ⦃b = sample⦄ seeded fresh_file seeded-IsAccounted
      (file-IsMeta 2 (omega arith)) create_free (omega arith) (omega arith) (omega arith)

abbrev changed : InodeMeta
changed = record fresh_file { ino = 1 }

update_inode-IsAccounted_example :
    IsAccounted ⦃b = sample⦄ (update_inode ⦃b = sample⦄ seeded changed).1
unfolding seeded
update_inode-IsAccounted_example =
    update_inode-IsAccounted ⦃b = sample⦄ seeded changed seed seeded-IsAccounted
      (file-IsMeta 1 (omega arith)) update_free seed_there (omega arith)

delete_inode-IsAccounted_example : IsAccounted ⦃b = sample⦄ (delete_inode ⦃b = sample⦄ seeded 1).1
delete_inode-IsAccounted_example =
    delete_inode-IsAccounted ⦃b = sample⦄ seeded seed 1 seeded-IsAccounted seed_there
