-- ===== src/Meta.antt =====
-- crates/slicefs-traits/src/metadata.rs: inode metadata, directory entries, errors.
use slicefs.Base.{ℕ}
use slicefs.Base.Words.{Bytes, IsU32, IsU64}

-- A `str` is the list of its bytes. The message of `Corrupted` is left out.
pub data MetaError : Type 0 where
  not_found : ℕ → MetaError
  already_exists : ℕ → MetaError
  not_a_directory : ℕ → MetaError
  is_a_directory : ℕ → MetaError
  not_empty : ℕ → MetaError
  invalid_name : Bytes → MetaError
  corrupted : MetaError
  io : MetaError

pub record DirEntry : Type 0 where
  pub name : Bytes
  pub ino : ℕ

-- The two `i64` fields, `mtime_sec` and `ctime_sec`, hold the 64-bit pattern of the number.
pub record InodeMeta : Type 0 where
  pub ino : ℕ
  pub mode : ℕ
  pub uid : ℕ
  pub gid : ℕ
  pub nlinks : ℕ
  pub size : ℕ
  pub mtime_sec : ℕ
  pub mtime_nsec : ℕ
  pub ctime_sec : ℕ
  pub ctime_nsec : ℕ

-- The ranges that the types of the fields give.
pub record IsMeta (m : InodeMeta) : Type 0 where
  pub ino : IsU64 m.ino
  pub mode : IsU32 m.mode
  pub uid : IsU32 m.uid
  pub gid : IsU32 m.gid
  pub nlinks : IsU32 m.nlinks
  pub size : IsU64 m.size
  pub mtime_sec : IsU64 m.mtime_sec
  pub mtime_nsec : IsU32 m.mtime_nsec
  pub ctime_sec : IsU64 m.ctime_sec
  pub ctime_nsec : IsU32 m.ctime_nsec

abbrev pub new_directory : ℕ → ℕ → ℕ → ℕ → InodeMeta
new_directory ino uid gid mode = record {
  ino = ino;
  mode = mode;
  uid = uid;
  gid = gid;
  nlinks = 2;
  size = 0;
  mtime_sec = 0;
  mtime_nsec = 0;
  ctime_sec = 0;
  ctime_nsec = 0;
}

abbrev pub new_file : ℕ → ℕ → ℕ → ℕ → InodeMeta
new_file ino uid gid mode = record {
  ino = ino;
  mode = mode;
  uid = uid;
  gid = gid;
  nlinks = 1;
  size = 0;
  mtime_sec = 0;
  mtime_nsec = 0;
  ctime_sec = 0;
  ctime_nsec = 0;
}
