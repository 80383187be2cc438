-- ===== src/Filesystem/Rename.antt =====
-- crates/slicefs-cli/src/filesystem.rs: renaming, and symbolic links. The operations use the store
-- that `meta` refers to.
use slicefs.Base.{
  ℕ, ◌+◌, ◌-◌, ◌/◌, ◌%◌, ◌==◌, ltb, ◌&&◌, not, if◌then◌else◌, Option, none, some, List, [], ◌∷◌,
  length,
}
use slicefs.Base.Words.{Bytes}
use slicefs.Base.Utf8.{is_utf8}
use slicefs.Base.Results.{Result, ok, err, ok_or, ◌>>=◌, and_then, is_some}
use slicefs.Digest.{Digest224}
use slicefs.Blockset.{Blockset, push_all}
use slicefs.Meta.{InodeMeta}
use slicefs.Store.{Store, has_dir_bit}
use slicefs.Store.Refcounts.{increment_refcount}
use slicefs.Store.Inodes.{get_inode, update_inode}
use slicefs.Store.Directories.{map_err, lookup, link, unlink}
use slicefs.Store.Files.{get_manifest, set_manifest}
use slicefs.Filesystem.{
  Errno, enoent, eexist, einval, enosys, meta_error_to_errno, any_eio, to_errno, s_iflnk, Now,
  modify_inode, changed_at,
}
use slicefs.Filesystem.Names.{drop_file, create_named, with_inode}

-- `.ok()`
abbrev pub to_option {ℓ} : {E A : Type ℓ} → Result E A → Option A
to_option (ok a) = some a
to_option (err e) = none

module _ ⦃b : Blockset⦄ where
  open b use {Io, file_storage_get}

  -- The displaced target loses its name, and a file its inode with the last name.
  unfoldable pub displace : Store Io → ℕ → Bytes → Option ℕ → Result Errno Unit × Store Io
  unfolding drop_file
  displace s newparent_ino newname none = (ok tt, s)
  displace s newparent_ino newname (some dst_ino) =
      and_then (to_errno meta_error_to_errno (get_inode s dst_ino, s)) (λ dst_inode s.
        and_then (to_errno meta_error_to_errno (unlink s newparent_ino newname)) (λ _ s.
          let new_nlinks = dst_inode.nlinks - 1 in
          if (new_nlinks == 0) && not (has_dir_bit dst_inode.mode)
          then (ok tt, drop_file s dst_ino)
          else if ltb 0 new_nlinks
          then (ok tt, (update_inode s (record dst_inode { nlinks = new_nlinks })).1)
          else (ok tt, s)))

  -- The new name is linked, the old one unlinked, and the inode gets the time.
  unfoldable pub move_name :
      Store Io → ℕ → Bytes → ℕ → Bytes → ℕ → Now → Result Errno Unit × Store Io
  move_name s parent_ino name newparent_ino newname src_ino now =
      and_then (to_errno meta_error_to_errno (link s newparent_ino newname src_ino)) (λ _ s.
        and_then (to_errno meta_error_to_errno (unlink s parent_ino name)) (λ _ s.
          and_then (to_errno meta_error_to_errno (get_inode s src_ino, s)) (λ src_inode s.
            to_errno meta_error_to_errno (update_inode s (changed_at now src_inode)))))

  unfoldable pub simulate_rename :
      Store Io → ℕ → Bytes → ℕ → Bytes → ℕ → Now → Result Errno Unit × Store Io
  unfolding displace move_name
  simulate_rename s parent_ino name newparent_ino newname flags now =
      if flags / 2 % 2 == 1
      then (err enosys, s)
      else and_then (to_errno (λ _. enoent) (lookup s parent_ino name)) (λ src_ino s.
        let (found, s1) = lookup s newparent_ino newname in
        let target_ino = to_option found in
        if (flags % 2 == 1) && is_some target_ino
        then (err eexist, s1)
        else and_then (displace s1 newparent_ino newname target_ino)
            (λ _ s. move_name s parent_ino name newparent_ino newname src_ino now))

  abbrev pub new_symlink : ℕ → ℕ → ℕ → InodeMeta
  new_symlink size uid gid = record {
    ino = 0;
    mode = s_iflnk + 511;
    uid = uid;
    gid = gid;
    nlinks = 1;
    size = size;
    mtime_sec = 0;
    mtime_nsec = 0;
    ctime_sec = 0;
    ctime_nsec = 0;
  }

  -- The target becomes the content of the inode.
  unfoldable pub store_target : Store Io → ℕ → Bytes → Result Errno ℕ × Store Io
  store_target s ino target_bytes =
      let (content_digest, io) = push_all s.io target_bytes in
      and_then (to_errno any_eio (set_manifest (record s { io = io }) ino (content_digest ∷ [])))
        (λ _ s.
          and_then
            (modify_inode (increment_refcount s content_digest) ino
              (λ inode. record inode { size = length target_bytes }))
            (λ _ s. (ok ino, s)))

  unfoldable pub simulate_symlink : Store Io → ℕ → Bytes → Bytes → ℕ → ℕ → Result Errno ℕ × Store Io
  unfolding store_target
  simulate_symlink s parent_ino link_name target uid gid =
      and_then (create_named s parent_ino link_name (new_symlink (length target) uid gid))
        (λ ino s. store_target s ino target)

  unfoldable pub test_symlink_full :
      Store Io → ℕ → Bytes → Bytes → ℕ → ℕ → Result Errno (ℕ × InodeMeta) × Store Io
  unfolding simulate_symlink with_inode
  test_symlink_full s parent link_name target uid gid =
      with_inode (simulate_symlink s parent link_name target uid gid)

  -- `String::from_utf8`
  abbrev pub utf8_or_einval : Bytes → Result Errno Bytes
  utf8_or_einval raw = if is_utf8 raw then ok raw else err einval

  unfoldable pub read_target : Io → List Digest224 → Result Errno Bytes
  read_target io [] = ok []
  read_target io (root_digest ∷ blocks) =
      ok_or (file_storage_get io root_digest) einval >>= utf8_or_einval

  unfoldable pub simulate_readlink : Store Io → ℕ → Result Errno Bytes
  unfolding read_target
  simulate_readlink s ino = map_err einval (get_manifest s ino) >>= read_target s.io
