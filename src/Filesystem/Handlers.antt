-- ===== src/Filesystem/Handlers.antt =====
-- crates/slicefs-cli/src/handlers.rs: the handlers that the FUSE callbacks call. Their result types
-- are `Result` of an error number, and the clock is an argument.
use slicefs.Base.{ℕ, ◌%◌, ◌^◌, ◌==◌, Bool, if◌then◌else◌, Option, List, length}
use slicefs.Base.Words.{Bytes}
use slicefs.Base.Results.{Result, ok, err}
use slicefs.Blockset.{Blockset}
use slicefs.Blockset.Accumulator.{Accumulator}
use slicefs.Meta.{InodeMeta}
use slicefs.Store.{Store}
use slicefs.Store.Directories.{map_err}
use slicefs.Filesystem.{
  Errno, enoent, eio, ebadf, enodata, meta_error_to_errno, Now, SliceFsFilesystem, on_meta,
}
use slicefs.Filesystem.Attributes.{
  FileType, FileAttr, inode_to_file_attr, Changes, test_getattr, test_getxattr, test_listxattr,
  test_setxattr, test_removexattr, DiskStat, Statfs, compute_statfs,
}
use slicefs.Filesystem.Names.{
  test_lookup, test_readdir, test_mkdir_full, test_mknod_full, test_link_full, simulate_unlink,
  simulate_rmdir,
}
use slicefs.Filesystem.Rename.{simulate_rename, test_symlink_full, simulate_readlink}
use slicefs.Filesystem.Content.{test_write, test_read}
use slicefs.Filesystem.Handles.{test_release_full, test_flush, test_fsync}
use slicefs.Filesystem.Sizes.{test_open, test_create_full, test_setattr}

-- The answer to a request for extended attributes: their size, or their bytes.
pub data XattrResult : Type 0 where
  xattr_size : ℕ → XattrResult
  xattr_data : Bytes → XattrResult

-- The start and the end of a lock, its type, and the process.
pub record LockResult : Type 0 where
  pub start : ℕ
  pub end : ℕ
  pub typ : ℕ
  pub pid : ℕ

-- `F_UNLCK`
abbrev pub f_unlck : ℕ
f_unlck = 2

-- Whoever gives the size 0 asks for the size.
abbrev pub by_size : ℕ → Result Errno Bytes → Result Errno XattrResult
by_size n (ok value) = ok (if n == 0 then xattr_size (length value % 2 ^ 32) else xattr_data value)
by_size n (err e) = err e

-- The attributes of an inode in the place of its metadata.
abbrev pub entry_attr :
    {S : Type 0} → Result Errno (ℕ × InodeMeta) × S → Result Errno (ℕ × FileAttr) × S
entry_attr (ok (ino, inode), s) = (ok (ino, inode_to_file_attr inode), s)
entry_attr (err e, s) = (err e, s)

-- An error of any kind is answered by the one given.
abbrev pub answer : {A S : Type 0} → Errno → Result Errno A × S → Result Errno A × S
answer e (r, s) = (map_err e r, s)

-- `ENOENT` is answered by `ENODATA`.
abbrev pub no_data : Errno → Errno
no_data enoent = enodata
no_data e = e

abbrev pub missing_data : {A S : Type 0} → Result Errno A × S → Result Errno A × S
missing_data (ok a, s) = (ok a, s)
missing_data (err e, s) = (err (no_data e), s)

abbrev pub handle_getlk : ℕ → ℕ → ℕ → LockResult
handle_getlk start end pid = record { start = start; end = end; typ = f_unlck; pid = pid }

abbrev pub handle_statfs :
    {Io State : Type 0}
    → SliceFsFilesystem Io State
    → (Bytes → Option DiskStat)
    → (Bytes → Option DiskStat)
    → Statfs
handle_statfs fs statvfs statfs = compute_statfs fs statvfs statfs

module _ ⦃b : Blockset⦄ where
  open b use {Io}

  abbrev pub getattr_of : Store Io → ℕ → Result Errno FileAttr
  getattr_of s ino = elim (test_getattr s ino) [
    | ok inode ↦ ok (inode_to_file_attr inode)
    | err e ↦ err (meta_error_to_errno e)
  ]

  module _ ⦃a : Accumulator b⦄ where
    open a use {State}

    abbrev Fs : Type 0
    Fs = SliceFsFilesystem Io State

    abbrev pub handle_getattr : Fs → ℕ → Result Errno FileAttr
    handle_getattr fs ino = getattr_of fs.meta ino

    abbrev pub handle_lookup : Fs → ℕ → Bytes → Result Errno (ℕ × FileAttr) × Fs
    handle_lookup fs parent name = entry_attr (on_meta fs (test_lookup fs.meta parent name))

    abbrev pub handle_readdir : Fs → ℕ → ℕ → Result Errno (List (ℕ × FileType × Bytes))
    handle_readdir fs ino offset = test_readdir fs.meta ino offset

    abbrev pub handle_read : Fs → ℕ → ℕ → ℕ → Result Errno Bytes × Fs
    handle_read fs ino offset size = test_read fs ino offset size

    abbrev pub handle_open : Fs → ℕ → ℕ → Now → Result Errno (ℕ × Bool) × Fs
    handle_open fs ino flags now = test_open fs ino flags now

    abbrev pub handle_release : Fs → ℕ → ℕ → Now → Result Errno Unit × Fs
    handle_release fs ino fh now = answer eio (test_release_full fs ino fh now)

    abbrev pub handle_flush : Fs → ℕ → ℕ → Now → Result Errno Unit × Fs
    handle_flush fs ino fh now = answer eio (test_flush fs ino fh now)

    abbrev pub handle_fsync : Fs → ℕ → ℕ → Now → Result Errno Unit × Fs
    handle_fsync fs ino fh now = answer eio (test_fsync fs ino fh now)

    abbrev pub handle_getxattr : Fs → ℕ → Bytes → ℕ → Result Errno XattrResult
    handle_getxattr fs ino name size =
        by_size size (map_err enodata (test_getxattr fs.meta ino name))

    abbrev pub handle_listxattr : Fs → ℕ → ℕ → Result Errno XattrResult
    handle_listxattr fs ino size = by_size size (test_listxattr fs.meta ino)

    abbrev pub handle_setxattr : Fs → ℕ → Bytes → Bytes → Result Errno Unit × Fs
    handle_setxattr fs ino name value = on_meta fs (test_setxattr fs.meta ino name value)

    abbrev pub handle_removexattr : Fs → ℕ → Bytes → Result Errno Unit × Fs
    handle_removexattr fs ino name = missing_data (on_meta fs (test_removexattr fs.meta ino name))

    -- An error of any kind is answered by `EBADF`.
    abbrev pub handle_write : Fs → ℕ → ℕ → Bytes → Result Errno ℕ × Fs
    handle_write fs fh offset bytes = answer ebadf (test_write fs fh offset bytes)

    abbrev pub handle_create :
        Fs → ℕ → Bytes → ℕ → ℕ → ℕ → ℕ → ℕ → Now → Result Errno (ℕ × ℕ × FileAttr) × Fs
    handle_create fs parent name mode umask uid gid flags now =
        let (created, t) = test_create_full fs parent name mode umask uid gid flags now in
        elim created [
          | ok c ↦ let (ino, fh, inode) = c in (ok (ino, fh, inode_to_file_attr inode), t)
          | err e ↦ (err e, t)
        ]

    abbrev pub handle_mkdir : Fs → ℕ → Bytes → ℕ → ℕ → ℕ → ℕ → Result Errno (ℕ × FileAttr) × Fs
    handle_mkdir fs parent name mode umask uid gid =
        entry_attr (on_meta fs (test_mkdir_full fs.meta parent name mode umask uid gid))

    abbrev pub handle_mknod : Fs → ℕ → Bytes → ℕ → ℕ → ℕ → ℕ → Result Errno (ℕ × FileAttr) × Fs
    handle_mknod fs parent name mode umask uid gid =
        entry_attr (on_meta fs (test_mknod_full fs.meta parent name mode uid gid umask))

    abbrev pub handle_symlink : Fs → ℕ → Bytes → Bytes → ℕ → ℕ → Result Errno (ℕ × FileAttr) × Fs
    handle_symlink fs parent link_name target uid gid =
        entry_attr (on_meta fs (test_symlink_full fs.meta parent link_name target uid gid))

    abbrev pub handle_readlink : Fs → ℕ → Result Errno Bytes
    handle_readlink fs ino = simulate_readlink fs.meta ino

    abbrev pub handle_link : Fs → ℕ → ℕ → Bytes → Now → Result Errno (ℕ × FileAttr) × Fs
    handle_link fs ino newparent newname now =
        entry_attr (on_meta fs (test_link_full fs.meta ino newparent newname now))

    abbrev pub handle_unlink : Fs → ℕ → Bytes → Result Errno Unit × Fs
    handle_unlink fs parent name = on_meta fs (simulate_unlink fs.meta parent name)

    abbrev pub handle_rmdir : Fs → ℕ → Bytes → Result Errno Unit × Fs
    handle_rmdir fs parent name = on_meta fs (simulate_rmdir fs.meta parent name)

    abbrev pub handle_rename : Fs → ℕ → Bytes → ℕ → Bytes → ℕ → Now → Result Errno Unit × Fs
    handle_rename fs parent name newparent newname flags now =
        on_meta fs (simulate_rename fs.meta parent name newparent newname flags now)

    abbrev pub handle_setattr :
        Fs → ℕ → Changes → Option ℕ → Option ℕ → Now → Result Errno FileAttr × Fs
    handle_setattr fs ino changes size fh now =
        let (changed, t) = test_setattr fs ino changes size fh now in
        elim changed [ ok inode ↦ (ok (inode_to_file_attr inode), t) | err e ↦ (err e, t) ]
