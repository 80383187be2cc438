-- ===== src/Filesystem/Attributes.antt =====
-- crates/slicefs-cli/src/filesystem.rs: the attributes of a file, their changes, the extended
-- attributes and the report on free space. The operations use the store that `meta` refers to.
use slicefs.Base.{
  ℕ, ◌+◌, ◌-◌, ◌/◌, ◌%◌, ◌^◌, ◌==◌, ltb, ◌&&◌, not, Bool, true, false, if◌then◌else◌, Option, none,
  some, List, [], ◌∷◌, ◌++◌,
}
use slicefs.Base.Words.{Bytes}
use slicefs.Base.Utf8.{is_utf8}
use slicefs.Base.Results.{Result, ok, err}
use slicefs.Blockset.{Blockset}
use slicefs.Meta.{MetaError, InodeMeta}
use slicefs.Store.{Store, s_ifdir, saturating_sub}
use slicefs.Store.Refcounts.{u64_max}
use slicefs.Store.Inodes.{get_inode}
use slicefs.Store.Directories.{map_err}
use slicefs.Store.Files.{get_xattr, list_xattrs, set_xattr, remove_xattr}
use slicefs.Filesystem.{
  Errno, enodata, meta_error_to_errno, to_errno, s_iflnk, file_type, permissions, Now,
  SliceFsFilesystem, modify_inode, changed_at,
}

-- `fuser::FileType`, the kinds that are used.
pub data FileType : Type 0 where
  directory : FileType
  symlink : FileType
  regular_file : FileType

-- `match mode & S_IFMT`
abbrev pub kind_of : ℕ → FileType
kind_of mode =
    if file_type mode == s_ifdir
    then directory
    else if file_type mode == s_iflnk
    then symlink
    else regular_file

-- A time after or before the epoch, by a number of seconds and nanoseconds.
pub data SystemTime : Type 0 where
  after_epoch : ℕ → ℕ → SystemTime
  before_epoch : ℕ → SystemTime

-- The seconds are the 64-bit pattern of an `i64`; `Duration::new` carries whole seconds over.
abbrev pub system_time : ℕ → ℕ → SystemTime
system_time sec nsec =
    if ltb sec (2 ^ 63)
    then after_epoch (sec + nsec / 1000000000) (nsec % 1000000000)
    else before_epoch (2 ^ 64 - sec)

-- `fuser::FileAttr`, without the fields that are constants.
pub record FileAttr : Type 0 where
  pub ino : ℕ
  pub size : ℕ
  pub blocks : ℕ
  pub mtime : SystemTime
  pub ctime : SystemTime
  pub kind : FileType
  pub perm : ℕ
  pub nlink : ℕ
  pub uid : ℕ
  pub gid : ℕ

unfoldable pub inode_to_file_attr : InodeMeta → FileAttr
inode_to_file_attr meta = record {
  ino = meta.ino;
  size = meta.size;
  blocks = (meta.size + 511) % 2 ^ 64 / 512;
  mtime = system_time meta.mtime_sec meta.mtime_nsec;
  ctime = system_time meta.ctime_sec meta.ctime_nsec;
  kind = kind_of meta.mode;
  perm = permissions meta.mode;
  nlink = meta.nlinks;
  uid = meta.uid;
  gid = meta.gid;
}

-- The changes of one setattr call, other than the size.
pub record Changes : Type 0 where
  pub mode : Option ℕ
  pub uid : Option ℕ
  pub gid : Option ℕ
  pub mtime : Option (ℕ × ℕ)

-- `inode.mode = (inode.mode & S_IFMT) | (mode & 0o7777)`
abbrev pub with_mode : Option ℕ → InodeMeta → InodeMeta
with_mode none inode = inode
with_mode (some mode) inode = record inode { mode = file_type inode.mode + permissions mode }

abbrev pub with_uid : Option ℕ → InodeMeta → InodeMeta
with_uid none inode = inode
with_uid (some uid) inode = record inode { uid = uid }

abbrev pub with_gid : Option ℕ → InodeMeta → InodeMeta
with_gid none inode = inode
with_gid (some gid) inode = record inode { gid = gid }

abbrev pub with_mtime : Option (ℕ × ℕ) → InodeMeta → InodeMeta
with_mtime none inode = inode
with_mtime (some (sec, nsec)) inode = record inode { mtime_sec = sec; mtime_nsec = nsec }

abbrev pub changed : Changes → InodeMeta → InodeMeta
changed changes inode =
    with_mtime changes.mtime
      (with_gid changes.gid (with_uid changes.uid (with_mode changes.mode inode)))

-- The names, each with a zero byte behind it.
unfoldable pub null_separated : List Bytes → Bytes
null_separated [] = []
null_separated (name ∷ names) = name ++ (0 ∷ null_separated names)

module _ ⦃b : Blockset⦄ where
  open b use {Io}

  abbrev pub test_getattr : Store Io → ℕ → Result MetaError InodeMeta
  test_getattr s ino = get_inode s ino

  unfoldable pub test_setattr_mode : Store Io → ℕ → ℕ → Now → Result Errno Unit × Store Io
  test_setattr_mode s ino mode now =
      modify_inode s ino (λ inode. changed_at now (with_mode (some mode) inode))

  unfoldable pub test_setattr_uid_gid :
      Store Io → ℕ → Option ℕ → Option ℕ → Now → Result Errno Unit × Store Io
  test_setattr_uid_gid s ino uid gid now =
      modify_inode s ino (λ inode. changed_at now (with_gid gid (with_uid uid inode)))

  unfoldable pub test_setattr_mtime : Store Io → ℕ → ℕ → ℕ → Now → Result Errno Unit × Store Io
  test_setattr_mtime s ino mtime_sec mtime_nsec now =
      modify_inode s ino (λ inode. changed_at now (with_mtime (some (mtime_sec, mtime_nsec)) inode))

  abbrev pub test_getxattr : Store Io → ℕ → Bytes → Result Errno Bytes
  test_getxattr s ino name = map_err enodata (get_xattr s ino name)

  unfoldable pub test_listxattr : Store Io → ℕ → Result Errno Bytes
  unfolding null_separated
  test_listxattr s ino = elim (list_xattrs s ino) [
    | ok names ↦ ok (null_separated names)
    | err e ↦ err (meta_error_to_errno e)
  ]

  abbrev pub test_setxattr : Store Io → ℕ → Bytes → Bytes → Result Errno Unit × Store Io
  test_setxattr s ino name value = to_errno meta_error_to_errno (set_xattr s ino name value)

  abbrev pub test_removexattr : Store Io → ℕ → Bytes → Result Errno Unit × Store Io
  test_removexattr s ino name = to_errno meta_error_to_errno (remove_xattr s ino name)

-- What `statvfs` and `statfs` report: the block size and three counts of blocks.
pub record DiskStat : Type 0 where
  pub bsize : ℕ
  pub blocks : ℕ
  pub bfree : ℕ
  pub bavail : ℕ

-- The six values of a reply.
pub record Statfs : Type 0 where
  pub blocks : ℕ
  pub bfree : ℕ
  pub bavail : ℕ
  pub files : ℕ
  pub ffree : ℕ
  pub bsize : ℕ

abbrev pub has_zero : Bytes → Bool
has_zero [] = false
has_zero (byte ∷ bytes) = let rest = has_zero bytes in if byte == 0 then true else rest

-- The path as a C string: valid UTF-8 without a zero byte.
abbrev pub is_path_cstr : Bytes → Bool
is_path_cstr path = is_utf8 path && not (has_zero path)

abbrev pub no_space : ℕ → ℕ → Statfs
no_space files ffree = record {
  blocks = 0;
  bfree = 0;
  bavail = 0;
  files = files;
  ffree = ffree;
  bsize = 4096;
}

-- A report that says nothing is passed over.
abbrev pub reported : Option DiskStat → ℕ → ℕ → Statfs → Statfs
reported none files ffree otherwise = otherwise
reported (some sv) files ffree otherwise =
    if ltb 0 sv.blocks
    then record {
      blocks = sv.blocks;
      bfree = sv.bfree;
      bavail = sv.bavail;
      files = files;
      ffree = ffree;
      bsize = if ltb 0 sv.bsize then sv.bsize % 2 ^ 32 else 4096;
    }
    else otherwise

-- The two system calls are functions of the path.
unfoldable pub compute_statfs :
    {Io State : Type 0}
    → SliceFsFilesystem Io State
    → (Bytes → Option DiskStat)
    → (Bytes → Option DiskStat)
    → Statfs
compute_statfs fs statvfs statfs =
    let files = fs.meta.inode_count in
    let ffree = saturating_sub u64_max files in
    elim fs.store_path [
      | none ↦ no_space files ffree
      | some path ↦
          if not (is_path_cstr path)
          then no_space files ffree
          else reported (statvfs path) files ffree
              (reported (statfs path) files ffree (no_space files ffree))
    ]
