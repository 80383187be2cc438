-- ===== src/Tests/Formats.antt =====
-- The byte formats: runs at concrete inputs.
use slicefs.Base.{ℕ, ◌≡◌, ◌≢◌, refl, arith, none, some, [], ◌∷◌}
use slicefs.Base.Words.{Bytes}
use slicefs.Base.Utf8.{is_utf8}
use slicefs.Base.Keys.{nat_key}
use slicefs.Base.Results.{ok, err}
use slicefs.Base.Map
use slicefs.Base.Map.{Map, IsSorted}
use slicefs.Digest.{Digest224, IsDigest, digest_key}
use slicefs.Sample.{sample, sample_digest, sample_digest-IsDigest}
use slicefs.Meta.{InodeMeta, IsMeta, new_file, not_found}
use slicefs.InodeMap.{InodeMap}
use slicefs.Xattr.{Xattrs, serialize_xattrs, deserialize_xattrs}
use slicefs.Xattr.RoundTrip.{deserialize_xattrs-serialize_xattrs}
use slicefs.Directory.{
  Entries, EntryRecord, entries_bytes, serialize_entry_list, deserialize_entry_list,
  load_entry_list, lookup_dir_entry,
}
use slicefs.Directory.RoundTrip.{IsEntry, deserialize_entry_list-serialize_entry_list}
use slicefs.Directory.Laws.{IsEntryList, IsName}
use slicefs.Store.{Store, new}
use slicefs.Store.Directories.{lookup, link, unlink}
use slicefs.Store.Directories.Laws.{link_lem, unlink_lem}
use slicefs.Store.Commit.{RootRecord}
use slicefs.Store.Commit.Reload.{IsRootRecord}

abbrev da : Digest224
da = record { w0 = 1; w1 = 2; w2 = 3; w3 = 4; w4 = 5; w5 = 6; w6 = 7 }

da-IsDigest : IsDigest da
da-IsDigest =
    (omega arith, omega arith, omega arith, omega arith, omega arith, omega arith, omega arith)

abbrev file : InodeMeta
file = record (new_file 2 1000 1000 33188) { size = 5 }

file-IsMeta : IsMeta file
file-IsMeta = record {
  ino = omega arith;
  mode = omega arith;
  uid = omega arith;
  gid = omega arith;
  nlinks = omega arith;
  size = omega arith;
  mtime_sec = omega arith;
  mtime_nsec = omega arith;
  ctime_sec = omega arith;
  ctime_nsec = omega arith;
}

abbrev two_inodes : InodeMap
two_inodes = record { map = (1, da) ∷ (7, da) ∷ []; next_ino = 9 }

abbrev key_a : Bytes
key_a = b'a' ∷ []

abbrev key_b : Bytes
key_b = b'b' ∷ []

abbrev attrs : Xattrs
attrs = (key_a, 1 ∷ 2 ∷ []) ∷ (key_b, []) ∷ []

deserialize_xattrs-serialize_xattrs_example : deserialize_xattrs (serialize_xattrs attrs) ≡ ok attrs
unfolding is_utf8
deserialize_xattrs-serialize_xattrs_example =
    deserialize_xattrs-serialize_xattrs attrs
      ((refl, omega arith, omega arith), ((refl, omega arith, omega arith), tt))

abbrev root_record : RootRecord
root_record = record {
  inode_map_digest = da;
  root_dir_ino = 1;
  next_ino = 9;
  inode_data_digest = da;
  dir_data_digest = da;
  manifest_data_digest = da;
  xattr_data_digest = da;
  refcount_data_digest = none;
}

root_record-IsRootRecord : IsRootRecord root_record
root_record-IsRootRecord = record {
  inode_map_digest = da-IsDigest;
  root_dir_ino = omega arith;
  next_ino = omega arith;
  inode_data_digest = da-IsDigest;
  dir_data_digest = da-IsDigest;
  manifest_data_digest = da-IsDigest;
  xattr_data_digest = da-IsDigest;
  refcount_data_digest = tt;
}

-- A directory with one entry, `b`.
abbrev entry_b : EntryRecord
entry_b = record { key = sample_digest key_b; ino = 5; name = key_b }

abbrev one_entry : Entries
one_entry = (sample_digest key_b, entry_b) ∷ []

entry_b-IsEntry : IsEntry (sample_digest key_b, entry_b)
unfolding is_utf8
entry_b-IsEntry = record {
  keyed = refl;
  key = sample_digest-IsDigest key_b;
  ino = omega arith;
  name = refl;
  name_len = omega arith;
}

one_entry-IsEntryList : IsEntryList one_entry
one_entry-IsEntryList = record {
  sorted = (tt, tt);
  each = (entry_b-IsEntry, tt);
  count = omega arith;
}

deserialize_entry_list-serialize_entry_list_example :
    deserialize_entry_list (serialize_entry_list one_entry) ≡ ok one_entry
deserialize_entry_list-serialize_entry_list_example =
    deserialize_entry_list-serialize_entry_list one_entry (tt, tt) (entry_b-IsEntry, tt)
      (omega arith)

abbrev dir_digest : Digest224
dir_digest = da

dir_io : Map Digest224 Bytes
unfolding serialize_entry_list entries_bytes
dir_io = (dir_digest, serialize_entry_list one_entry) ∷ []

dir_loads : load_entry_list ⦃b = sample⦄ dir_io dir_digest ≡ ok one_entry
unfolding load_entry_list dir_io Map.get
dir_loads =
    deserialize_entry_list-serialize_entry_list one_entry (tt, tt) (entry_b-IsEntry, tt)
      (omega arith)

a_absent : (lookup_dir_entry ⦃b = sample⦄ dir_io dir_digest key_a).0 ≡ err (not_found 0)
unfolding lookup_dir_entry Map.get
a_absent = rw (dir_loads, lookup_dir_entry) refl

b_there : (lookup_dir_entry ⦃b = sample⦄ dir_io dir_digest key_b).0 ≡ ok 5
unfolding lookup_dir_entry Map.get
b_there = rw (dir_loads, lookup_dir_entry) refl

a-IsName : IsName key_a
unfolding is_utf8
a-IsName = record { utf8 = refl; len = omega arith }

abbrev dir_store : Store (Map Digest224 Bytes)
unfolding dir_io
dir_store = record (new ⦃b = sample⦄ [] 0 0) { io = dir_io; dir_data = (1, dir_digest) ∷ [] }

root_there : Map.get dir_store.dir_data 1 ≡ some dir_digest
unfolding Map.get dir_store
root_there = refl

store_loads : load_entry_list ⦃b = sample⦄ dir_store.io dir_digest ≡ ok one_entry
unfolding dir_store
store_loads = dir_loads

store_a_absent : (lookup_dir_entry ⦃b = sample⦄ dir_store.io dir_digest key_a).0 ≡ err (not_found 0)
unfolding dir_store
store_a_absent = a_absent

store_b_there : (lookup_dir_entry ⦃b = sample⦄ dir_store.io dir_digest key_b).0 ≡ ok 5
unfolding dir_store
store_b_there = b_there

link_lem_example :
    ((link ⦃b = sample⦄ dir_store 1 key_a 6).0 ≡ ok tt)
    × ((lookup ⦃b = sample⦄ (link ⦃b = sample⦄ dir_store 1 key_a 6).1 1 key_a).0 ≡ ok 6)
    × ((other : Bytes)
        → sample_digest other ≢ sample_digest key_a
        → (lookup ⦃b = sample⦄ (link ⦃b = sample⦄ dir_store 1 key_a 6).1 1 other).0
          ≡ (lookup ⦃b = sample⦄ dir_store 1 other).0)
    × ((q : ℕ)
        → q ≢ 1
        → Map.get (link ⦃b = sample⦄ dir_store 1 key_a 6).1.dir_data q
          ≡ Map.get dir_store.dir_data q)
link_lem_example =
    link_lem ⦃b = sample⦄ dir_store 1 dir_digest one_entry key_a root_there store_loads
      one_entry-IsEntryList refl 6 a-IsName (omega arith) (omega arith) store_a_absent

unlink_lem_example :
    ((unlink ⦃b = sample⦄ dir_store 1 key_b).0 ≡ ok tt)
    × ((lookup ⦃b = sample⦄ (unlink ⦃b = sample⦄ dir_store 1 key_b).1 1 key_b).0
        ≡ err (not_found 0))
    × ((other : Bytes)
        → sample_digest other ≢ sample_digest key_b
        → (lookup ⦃b = sample⦄ (unlink ⦃b = sample⦄ dir_store 1 key_b).1 1 other).0
          ≡ (lookup ⦃b = sample⦄ dir_store 1 other).0)
    × ((q : ℕ)
        → q ≢ 1
        → Map.get (unlink ⦃b = sample⦄ dir_store 1 key_b).1.dir_data q
          ≡ Map.get dir_store.dir_data q)
unlink_lem_example =
    unlink_lem ⦃b = sample⦄ dir_store 1 dir_digest one_entry key_b root_there store_loads
      one_entry-IsEntryList refl 5 store_b_there
