-- ===== src/Filesystem/Names.antt =====
-- crates/slicefs-cli/src/filesystem.rs: nodes, directories and hard links. The operations use the
-- store that `meta` refers to.
use slicefs.Base.{ℕ, ◌+◌, ◌-◌, ◌%◌, ◌^◌, ◌==◌, ltb, ◌&&◌, not, if◌then◌else◌, List, [], ◌∷◌, drop}
use slicefs.Base.Words.{Bytes}
use slicefs.Base.Results.{Result, ok, err, and_then}
use slicefs.Digest.{Digest224}
use slicefs.Blockset.{Blockset}
use slicefs.Meta.{InodeMeta, DirEntry, new_file, new_directory}
use slicefs.Directory.{is_dot_name}
use slicefs.Store.{Store, s_ifdir, has_dir_bit}
use slicefs.Store.Refcounts.{decrement_refcount}
use slicefs.Store.Inodes.{create_inode, get_inode, update_inode, delete_inode}
use slicefs.Store.Directories.{create_directory, list_directory, lookup, link, unlink}
use slicefs.Store.Files.{get_manifest}
use slicefs.Filesystem.{
  Errno, enotdir, eisdir, enotempty, enosys, eperm, meta_error_to_errno, to_errno, s_ifreg,
  file_type, masked, Now, changed_at,
}
use slicefs.Filesystem.Attributes.{FileType, regular_file, kind_of}

-- `entries.iter().filter(..).count()`
unfoldable pub real_entries : List DirEntry → ℕ
real_entries [] = 0
real_entries (entry ∷ entries) =
    let rest = real_entries entries in if is_dot_name entry.name then rest else rest + 1

-- The loop over a manifest that gives up the counts of its blocks.
unfoldable pub decrement_all : {Io : Type 0} → Store Io → List Digest224 → Store Io
decrement_all s [] = s
decrement_all s (digest ∷ manifest) = decrement_all (decrement_refcount s digest) manifest

module _ ⦃b : Blockset⦄ where
  open b use {Io}

  -- A file that lost its last name: the counts of its blocks, then the inode.
  unfoldable pub drop_file : Store Io → ℕ → Store Io
  unfolding decrement_all
  drop_file s ino = elim (get_manifest s ino) [
    | ok manifest ↦ (delete_inode (decrement_all s manifest) ino).1
    | err e ↦ (delete_inode s ino).1
  ]

  -- A new inode is named, and deleted again where the name is refused.
  unfoldable pub create_named : Store Io → ℕ → Bytes → InodeMeta → Result Errno ℕ × Store Io
  create_named s parent name meta =
      and_then (to_errno meta_error_to_errno (create_inode s meta)) (λ ino s.
        let (linked, s1) = link s parent name ino in
        elim linked [
          | err e ↦ (err (meta_error_to_errno e), (delete_inode s1 ino).1)
          | ok _ ↦ (ok ino, s1)
        ])

  unfoldable pub test_mknod : Store Io → ℕ → Bytes → ℕ → ℕ → ℕ → ℕ → Result Errno ℕ × Store Io
  unfolding create_named
  test_mknod s parent name mode uid gid umask =
      if not (file_type mode == s_ifreg) && not (file_type mode == 0)
      then (err enosys, s)
      else create_named s parent name (new_file 0 uid gid (s_ifreg + masked mode umask))

  unfoldable pub simulate_mkdir : Store Io → ℕ → Bytes → ℕ → ℕ → ℕ → ℕ → Result Errno ℕ × Store Io
  simulate_mkdir s parent_ino name mode umask uid gid =
      to_errno meta_error_to_errno
        (create_directory s parent_ino name (new_directory 0 uid gid (s_ifdir + masked mode umask)))

  -- `simulate_rmdir` behind its checks.
  unfoldable pub remove_directory : Store Io → ℕ → Bytes → ℕ → Result Errno Unit × Store Io
  remove_directory s parent_ino name ino =
      and_then (to_errno meta_error_to_errno (unlink s parent_ino name)) (λ _ s.
        and_then (to_errno meta_error_to_errno (delete_inode s ino)) (λ _ s.
          and_then (to_errno meta_error_to_errno (get_inode s parent_ino, s)) (λ parent_inode s.
            if ltb 0 parent_inode.nlinks
            then to_errno meta_error_to_errno
                (update_inode s (record parent_inode { nlinks = parent_inode.nlinks - 1 }))
            else (ok tt, s))))

  unfoldable pub simulate_rmdir : Store Io → ℕ → Bytes → Result Errno Unit × Store Io
  unfolding remove_directory real_entries
  simulate_rmdir s parent_ino name =
      and_then (to_errno meta_error_to_errno (lookup s parent_ino name)) (λ ino s.
        and_then (to_errno meta_error_to_errno (get_inode s ino, s)) (λ inode s.
          if not (has_dir_bit inode.mode)
          then (err enotdir, s)
          else and_then (to_errno meta_error_to_errno (list_directory s ino, s)) (λ entries s.
            if ltb 0 (real_entries entries)
            then (err enotempty, s)
            else remove_directory s parent_ino name ino)))

  -- `simulate_unlink` behind its checks: the name goes, and with the last name the file.
  unfoldable pub remove_file : Store Io → ℕ → Bytes → ℕ → InodeMeta → Result Errno Unit × Store Io
  unfolding drop_file
  remove_file s parent_ino name ino inode =
      and_then (to_errno meta_error_to_errno (unlink s parent_ino name)) (λ _ s.
        if inode.nlinks - 1 == 0
        then (ok tt, drop_file s ino)
        else to_errno meta_error_to_errno
            (update_inode s (record inode { nlinks = inode.nlinks - 1 })))

  unfoldable pub simulate_unlink : Store Io → ℕ → Bytes → Result Errno Unit × Store Io
  unfolding remove_file
  simulate_unlink s parent_ino name =
      and_then (to_errno meta_error_to_errno (lookup s parent_ino name)) (λ ino s.
        and_then (to_errno meta_error_to_errno (get_inode s ino, s)) (λ inode s.
          if has_dir_bit inode.mode
          then (err eisdir, s)
          else remove_file s parent_ino name ino inode))

  unfoldable pub simulate_link : Store Io → ℕ → ℕ → Bytes → Now → Result Errno ℕ × Store Io
  simulate_link s ino newparent_ino newname now =
      and_then (to_errno meta_error_to_errno (get_inode s ino, s)) (λ inode s.
        if has_dir_bit inode.mode
        then (err eperm, s)
        else and_then (to_errno meta_error_to_errno (link s newparent_ino newname ino)) (λ _ s.
          and_then
            (to_errno meta_error_to_errno (
              update_inode s
                (changed_at now (record inode { nlinks = (inode.nlinks + 1) % 2 ^ 32 }))))
            (λ _ s. (ok ino, s))))

  -- A number, and the attributes of its inode: the end of the wrappers `test_.._full`.
  unfoldable pub with_inode : Result Errno ℕ × Store Io → Result Errno (ℕ × InodeMeta) × Store Io
  with_inode made = and_then made (λ ino s.
      and_then (to_errno meta_error_to_errno (get_inode s ino, s))
        (λ inode s. (ok (ino, inode), s)))

  unfoldable pub test_lookup : Store Io → ℕ → Bytes → Result Errno (ℕ × InodeMeta) × Store Io
  unfolding with_inode
  test_lookup s parent name = with_inode (to_errno meta_error_to_errno (lookup s parent name))

  unfoldable pub test_mkdir_full :
      Store Io → ℕ → Bytes → ℕ → ℕ → ℕ → ℕ → Result Errno (ℕ × InodeMeta) × Store Io
  unfolding simulate_mkdir with_inode
  test_mkdir_full s parent name mode umask uid gid =
      with_inode (simulate_mkdir s parent name mode umask uid gid)

  unfoldable pub test_mknod_full :
      Store Io → ℕ → Bytes → ℕ → ℕ → ℕ → ℕ → Result Errno (ℕ × InodeMeta) × Store Io
  unfolding test_mknod with_inode
  test_mknod_full s parent name mode uid gid umask =
      with_inode (test_mknod s parent name mode uid gid umask)

  unfoldable pub test_link_full :
      Store Io → ℕ → ℕ → Bytes → Now → Result Errno (ℕ × InodeMeta) × Store Io
  unfolding simulate_link with_inode
  test_link_full s ino newparent newname now =
      with_inode (simulate_link s ino newparent newname now)

  -- The kind of an entry; that of an unreadable inode is a regular file.
  unfoldable pub entry_kind : Store Io → ℕ → FileType
  entry_kind s ino = elim (get_inode s ino) [ ok inode ↦ kind_of inode.mode | err e ↦ regular_file ]

  unfoldable pub with_kinds : Store Io → List DirEntry → List (ℕ × FileType × Bytes)
  unfolding entry_kind
  with_kinds s [] = []
  with_kinds s (entry ∷ entries) =
      (entry.ino, entry_kind s entry.ino, entry.name) ∷ with_kinds s entries

  unfoldable pub test_readdir : Store Io → ℕ → ℕ → Result Errno (List (ℕ × FileType × Bytes))
  unfolding with_kinds
  test_readdir s ino offset = elim (list_directory s ino) [
    | ok entries ↦ ok (with_kinds s (drop offset entries))
    | err e ↦ err (meta_error_to_errno e)
  ]
