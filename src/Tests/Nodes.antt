-- ===== src/Tests/Nodes.antt =====
-- Names of files: runs at concrete inputs.
use slicefs.Base.{
  ℕ, ◌+◌, ◌-◌, ◌^◌, ◌<◌, ◌≤◌, ◌≡◌, ◌⊎◌, refl, arith, true, false, none, some, [], ◌∷◌, List,
}
use slicefs.Base.Words.{Bytes}
use slicefs.Base.Keys.{nat_key}
use slicefs.Base.Results.{ok, err}
use slicefs.Base.Map
use slicefs.Base.Map.{Map}
use slicefs.Digest.{Digest224}
use slicefs.Sample.{sample, sample_accumulator}
use slicefs.Store
use slicefs.Store.{Store}
use slicefs.InodeMap
use slicefs.Blockset.{NoClash}
use slicefs.Store.Inodes.Laws.{numbered}
use slicefs.Store.Inodes.{create_inode, get_inode}
use slicefs.Store.Directories.{lookup, link, unlink}
use slicefs.Meta.{InodeMeta, IsMeta, new_file, already_exists, not_found}
use slicefs.Filesystem
use slicefs.Filesystem.{SliceFsFilesystem, Errno, Now, s_ifreg, masked, eexist}
use slicefs.Filesystem.Names.{create_named, simulate_rmdir, simulate_unlink}
use slicefs.Filesystem.Rename.{simulate_rename}
use slicefs.Filesystem.Handles.{test_create}
use slicefs.Filesystem.Removal.{SameTables, NamesEmptyDirectory, simulate_rmdir-safe}
use slicefs.Filesystem.Links.{simulate_rename_same, simulate_unlink_lem}
use slicefs.Filesystem.Refusal.{IsUndone, create_named_refused}

abbrev Disk : Type 0
Disk = Map Digest224 Bytes

-- The file system of a new store.
home_meta : Store Disk
unfolding Store.new
home_meta = Store.new [] 0 0

abbrev home : SliceFsFilesystem Disk Bytes
home = Filesystem.new home_meta none

abbrev file_name : Bytes
file_name = 97 ∷ []

home_linked :
    (link (create_inode home_meta (new_file 0 0 0 (s_ifreg + masked 420 18))).1 1 file_name 2).0
    ≡ ok tt
unfolding home_meta link Map.get create_inode Map.insert slicefs.Directory.add_dir_entry
    slicefs.Directory.load_entry_list slicefs.Directory.create_dir_entries
    slicefs.Inode.serialize_inode slicefs.Directory.serialize_entry_list
    slicefs.Directory.entries_bytes slicefs.InodeMap.allocate_ino slicefs.InodeMap.insert
    slicefs.Directory.deserialize_entry_list slicefs.Counted.read_counted slicefs.Base.Utf8.is_utf8
home_linked = refl

home_unused : Map.get home_meta.manifest_data 2 ≡ none
unfolding home_meta link Map.get create_inode Map.insert slicefs.Directory.add_dir_entry
    slicefs.Directory.load_entry_list slicefs.Directory.create_dir_entries
    slicefs.Inode.serialize_inode slicefs.Directory.serialize_entry_list
    slicefs.Directory.entries_bytes slicefs.InodeMap.allocate_ino slicefs.InodeMap.insert
    slicefs.Directory.deserialize_entry_list slicefs.Counted.read_counted slicefs.Base.Utf8.is_utf8
home_unused = refl

-- The store with the new file.
busy : Store Disk
unfolding test_create
busy = (test_create home 1 file_name 420 18 0 0).1.meta

-- A node that is not empty.
abbrev refused_meta : InodeMeta
refused_meta = record (new_file 0 0 0 33188) { size = 5 }

busy_refused :
    (link (create_inode busy refused_meta).1 1 file_name busy.inode_map.next_ino).0
    ≡ err (already_exists 3)
unfolding home_meta link Map.get create_inode Map.insert slicefs.Directory.add_dir_entry
    slicefs.Directory.load_entry_list slicefs.Directory.create_dir_entries
    slicefs.Inode.serialize_inode slicefs.Directory.serialize_entry_list
    slicefs.Directory.entries_bytes slicefs.InodeMap.allocate_ino slicefs.InodeMap.insert
    slicefs.Directory.deserialize_entry_list slicefs.Counted.read_counted slicefs.Base.Utf8.is_utf8
    busy lookup unlink get_inode slicefs.Directory.lookup_dir_entry
    slicefs.Directory.remove_dir_entry Map.remove slicefs.Inode.load_inode
    slicefs.Inode.deserialize_inode
busy_refused = refl

busy_absent : Map.get busy.inode_data busy.inode_map.next_ino ≡ none
unfolding home_meta link Map.get create_inode Map.insert slicefs.Directory.add_dir_entry
    slicefs.Directory.load_entry_list slicefs.Directory.create_dir_entries
    slicefs.Inode.serialize_inode slicefs.Directory.serialize_entry_list
    slicefs.Directory.entries_bytes slicefs.InodeMap.allocate_ino slicefs.InodeMap.insert
    slicefs.Directory.deserialize_entry_list slicefs.Counted.read_counted slicefs.Base.Utf8.is_utf8
    busy lookup unlink get_inode slicefs.Directory.lookup_dir_entry
    slicefs.Directory.remove_dir_entry Map.remove slicefs.Inode.load_inode
    slicefs.Inode.deserialize_inode
busy_absent = refl

busy_unmapped : InodeMap.get busy.inode_map busy.inode_map.next_ino ≡ none
unfolding home_meta InodeMap.get link Map.get create_inode Map.insert
    slicefs.Directory.add_dir_entry slicefs.Directory.load_entry_list
    slicefs.Directory.create_dir_entries slicefs.Inode.serialize_inode
    slicefs.Directory.serialize_entry_list slicefs.Directory.entries_bytes
    slicefs.InodeMap.allocate_ino slicefs.InodeMap.insert slicefs.Directory.deserialize_entry_list
    slicefs.Counted.read_counted slicefs.Base.Utf8.is_utf8 busy lookup unlink get_inode
    slicefs.Directory.lookup_dir_entry slicefs.Directory.remove_dir_entry Map.remove
    slicefs.Inode.load_inode slicefs.Inode.deserialize_inode
busy_unmapped = refl

busy_number : busy.inode_map.next_ino ≡ 3
unfolding home_meta link Map.get create_inode Map.insert slicefs.Directory.add_dir_entry
    slicefs.Directory.load_entry_list slicefs.Directory.create_dir_entries
    slicefs.Inode.serialize_inode slicefs.Directory.serialize_entry_list
    slicefs.Directory.entries_bytes slicefs.InodeMap.allocate_ino slicefs.InodeMap.insert
    slicefs.Directory.deserialize_entry_list slicefs.Counted.read_counted slicefs.Base.Utf8.is_utf8
    busy lookup unlink get_inode slicefs.Directory.lookup_dir_entry
    slicefs.Directory.remove_dir_entry Map.remove slicefs.Inode.load_inode
    slicefs.Inode.deserialize_inode
busy_number = refl

refused-IsMeta : IsMeta (numbered busy refused_meta)
refused-IsMeta = record {
  ino = omega (arith, busy_number);
  mode = omega arith;
  uid = omega arith;
  gid = omega arith;
  nlinks = omega arith;
  size = omega arith;
  mtime_sec = omega arith;
  mtime_nsec = omega arith;
  ctime_sec = omega arith;
  ctime_nsec = omega arith;
}

-- The name is there already, under its own digest.
name_stored :
    sample.file_storage_get (create_inode busy refused_meta).1.io (sample.digest file_name)
    ≡ some file_name
unfolding home_meta link Map.get create_inode Map.insert slicefs.Directory.add_dir_entry
    slicefs.Directory.load_entry_list slicefs.Directory.create_dir_entries
    slicefs.Inode.serialize_inode slicefs.Directory.serialize_entry_list
    slicefs.Directory.entries_bytes slicefs.InodeMap.allocate_ino slicefs.InodeMap.insert
    slicefs.Directory.deserialize_entry_list slicefs.Counted.read_counted slicefs.Base.Utf8.is_utf8
    busy lookup unlink get_inode slicefs.Directory.lookup_dir_entry
    slicefs.Directory.remove_dir_entry Map.remove slicefs.Inode.load_inode
    slicefs.Inode.deserialize_inode
name_stored = refl

name-NoClash : NoClash (create_inode busy refused_meta).1.io file_name
name-NoClash = λ old found. cc (name_stored, found)

busy_room : (busy.inode_count + 1 < 2 ^ 64) × (busy.logical_bytes + 5 < 2 ^ 64)
unfolding home_meta link Map.get create_inode Map.insert slicefs.Directory.add_dir_entry
    slicefs.Directory.load_entry_list slicefs.Directory.create_dir_entries
    slicefs.Inode.serialize_inode slicefs.Directory.serialize_entry_list
    slicefs.Directory.entries_bytes slicefs.InodeMap.allocate_ino slicefs.InodeMap.insert
    slicefs.Directory.deserialize_entry_list slicefs.Counted.read_counted slicefs.Base.Utf8.is_utf8
    busy lookup unlink get_inode slicefs.Directory.lookup_dir_entry
    slicefs.Directory.remove_dir_entry Map.remove slicefs.Inode.load_inode
    slicefs.Inode.deserialize_inode
busy_room = (omega arith, omega arith)

create_named_refused_example :
    ((create_named busy 1 file_name refused_meta).0 ≡ err eexist)
    × IsUndone busy (create_named busy 1 file_name refused_meta).1
create_named_refused_example =
    create_named_refused busy 1 file_name refused_meta (already_exists 3) busy_refused busy_absent
      busy_unmapped refused-IsMeta name-NoClash busy_room.0 busy_room.1

simulate_rmdir-safe_example :
    SameTables busy (simulate_rmdir busy 1 file_name).1 ⊎ NamesEmptyDirectory busy 1 file_name
simulate_rmdir-safe_example = simulate_rmdir-safe busy 1 file_name

abbrev made : InodeMeta
made = new_file 2 0 0 (s_ifreg + masked 420 18)

busy_found : (lookup busy 1 file_name).0 ≡ ok 2
unfolding home_meta link Map.get create_inode Map.insert slicefs.Directory.add_dir_entry
    slicefs.Directory.load_entry_list slicefs.Directory.create_dir_entries
    slicefs.Inode.serialize_inode slicefs.Directory.serialize_entry_list
    slicefs.Directory.entries_bytes slicefs.InodeMap.allocate_ino slicefs.InodeMap.insert
    slicefs.Directory.deserialize_entry_list slicefs.Counted.read_counted slicefs.Base.Utf8.is_utf8
    busy lookup unlink get_inode slicefs.Directory.lookup_dir_entry
    slicefs.Directory.remove_dir_entry Map.remove slicefs.Inode.load_inode
    slicefs.Inode.deserialize_inode
busy_found = refl

busy_again : (lookup (lookup busy 1 file_name).1 1 file_name).0 ≡ ok 2
unfolding home_meta link Map.get create_inode Map.insert slicefs.Directory.add_dir_entry
    slicefs.Directory.load_entry_list slicefs.Directory.create_dir_entries
    slicefs.Inode.serialize_inode slicefs.Directory.serialize_entry_list
    slicefs.Directory.entries_bytes slicefs.InodeMap.allocate_ino slicefs.InodeMap.insert
    slicefs.Directory.deserialize_entry_list slicefs.Counted.read_counted slicefs.Base.Utf8.is_utf8
    busy lookup unlink get_inode slicefs.Directory.lookup_dir_entry
    slicefs.Directory.remove_dir_entry Map.remove slicefs.Inode.load_inode
    slicefs.Inode.deserialize_inode
busy_again = refl

busy_read : get_inode (lookup busy 1 file_name).1 2 ≡ ok made
unfolding home_meta link Map.get create_inode Map.insert slicefs.Directory.add_dir_entry
    slicefs.Directory.load_entry_list slicefs.Directory.create_dir_entries
    slicefs.Inode.serialize_inode slicefs.Directory.serialize_entry_list
    slicefs.Directory.entries_bytes slicefs.InodeMap.allocate_ino slicefs.InodeMap.insert
    slicefs.Directory.deserialize_entry_list slicefs.Counted.read_counted slicefs.Base.Utf8.is_utf8
    busy lookup unlink get_inode slicefs.Directory.lookup_dir_entry
    slicefs.Directory.remove_dir_entry Map.remove slicefs.Inode.load_inode
    slicefs.Inode.deserialize_inode
busy_read = refl

busy_read_again : get_inode (lookup (lookup busy 1 file_name).1 1 file_name).1 2 ≡ ok made
unfolding home_meta link Map.get create_inode Map.insert slicefs.Directory.add_dir_entry
    slicefs.Directory.load_entry_list slicefs.Directory.create_dir_entries
    slicefs.Inode.serialize_inode slicefs.Directory.serialize_entry_list
    slicefs.Directory.entries_bytes slicefs.InodeMap.allocate_ino slicefs.InodeMap.insert
    slicefs.Directory.deserialize_entry_list slicefs.Counted.read_counted slicefs.Base.Utf8.is_utf8
    busy lookup unlink get_inode slicefs.Directory.lookup_dir_entry
    slicefs.Directory.remove_dir_entry Map.remove slicefs.Inode.load_inode
    slicefs.Inode.deserialize_inode
busy_read_again = refl

busy_unlinked : (unlink (lookup busy 1 file_name).1 1 file_name).0 ≡ ok tt
unfolding home_meta link Map.get create_inode Map.insert slicefs.Directory.add_dir_entry
    slicefs.Directory.load_entry_list slicefs.Directory.create_dir_entries
    slicefs.Inode.serialize_inode slicefs.Directory.serialize_entry_list
    slicefs.Directory.entries_bytes slicefs.InodeMap.allocate_ino slicefs.InodeMap.insert
    slicefs.Directory.deserialize_entry_list slicefs.Counted.read_counted slicefs.Base.Utf8.is_utf8
    busy lookup unlink get_inode slicefs.Directory.lookup_dir_entry
    slicefs.Directory.remove_dir_entry Map.remove slicefs.Inode.load_inode
    slicefs.Inode.deserialize_inode
busy_unlinked = refl

busy_unlinked_again :
    (unlink (lookup (lookup busy 1 file_name).1 1 file_name).1 1 file_name).0 ≡ ok tt
unfolding home_meta link Map.get create_inode Map.insert slicefs.Directory.add_dir_entry
    slicefs.Directory.load_entry_list slicefs.Directory.create_dir_entries
    slicefs.Inode.serialize_inode slicefs.Directory.serialize_entry_list
    slicefs.Directory.entries_bytes slicefs.InodeMap.allocate_ino slicefs.InodeMap.insert
    slicefs.Directory.deserialize_entry_list slicefs.Counted.read_counted slicefs.Base.Utf8.is_utf8
    busy lookup unlink get_inode slicefs.Directory.lookup_dir_entry
    slicefs.Directory.remove_dir_entry Map.remove slicefs.Inode.load_inode
    slicefs.Inode.deserialize_inode
busy_unlinked_again = refl

made-IsMeta : IsMeta made
made-IsMeta = record {
  ino = omega arith;
  mode = omega arith;
  uid = omega arith;
  gid = omega arith;
  nlinks = omega arith;
  size = omega arith;
  mtime_sec = omega arith;
  mtime_nsec = omega arith;
  ctime_sec = omega arith;
  ctime_nsec = omega arith;
}

abbrev noon : Now
noon = record { sec = 43200; nsec = 5 }

simulate_rename_same_example :
    (e : Errno) × ((simulate_rename busy 1 file_name 1 file_name 0 noon).0 ≡ err e)
    × (get_inode (simulate_rename busy 1 file_name 1 file_name 0 noon).1 2 ≡ err (not_found 2))
simulate_rename_same_example =
    simulate_rename_same busy 1 file_name 1 file_name 2 made noon busy_found busy_again
      busy_read_again refl (omega arith) busy_unlinked_again

simulate_unlink_lem_example :
    ((simulate_unlink busy 1 file_name).0 ≡ ok tt)
    × (made.nlinks ≤ 1 → get_inode (simulate_unlink busy 1 file_name).1 2 ≡ err (not_found 2))
    × (1 < made.nlinks
        → get_inode (simulate_unlink busy 1 file_name).1 2
          ≡ ok (record made { nlinks = made.nlinks - 1 }))
simulate_unlink_lem_example =
    simulate_unlink_lem busy 1 file_name 2 made busy_found busy_read refl busy_unlinked refl
      made-IsMeta
