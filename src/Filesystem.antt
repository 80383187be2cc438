-- ===== src/Filesystem.antt =====
-- crates/slicefs-cli/src/filesystem.rs: the state of `SliceFsFilesystem`, its open handles, its
-- errors and the bits of a mode. The locks are not modelled: each operation is one step.
pub mod Attributes
pub mod Names
pub mod Rename
pub mod Content
pub mod Ranges
pub mod Storage
pub mod Writes
pub mod Stored
pub mod Release
pub mod Closing
pub mod Sequence
pub mod Syncing
pub mod Truncation
pub mod Resizing
pub mod Removal
pub mod Links
pub mod Creation
pub mod Refusal
pub mod Overwrite
pub mod Handlers
pub mod Handles
pub mod Sizes
use slicefs.Base.{
  ℕ, zero, suc, ◌+◌, ◌-◌, ◌*◌, ◌/◌, ◌%◌, ◌==◌, Bool, true, false, if◌then◌else◌, Option, none, some,
  [],
}
use slicefs.Base.Words.{Bytes}
use slicefs.Base.Results.{Result, ok, err, and_then}
use slicefs.Base.Map.{Map}
use slicefs.Digest.{Digest224}
use slicefs.Blockset.{Blockset}
use slicefs.Meta.{
  MetaError, not_found, already_exists, not_a_directory, is_a_directory, not_empty, invalid_name,
  corrupted, io, InodeMeta,
}
use slicefs.Store.{Store}
use slicefs.Store.Inodes.{get_inode, update_inode}

-- The error numbers that the operations return.
pub data Errno : Type 0 where
  enoent : Errno
  eexist : Errno
  enotdir : Errno
  eisdir : Errno
  enotempty : Errno
  einval : Errno
  eio : Errno
  ebadf : Errno
  enosys : Errno
  eperm : Errno
  enodata : Errno

abbrev pub meta_error_to_errno : MetaError → Errno
meta_error_to_errno (not_found ino) = enoent
meta_error_to_errno (already_exists ino) = eexist
meta_error_to_errno (not_a_directory ino) = enotdir
meta_error_to_errno (is_a_directory ino) = eisdir
meta_error_to_errno (not_empty ino) = enotempty
meta_error_to_errno (invalid_name name) = einval
meta_error_to_errno corrupted = eio
meta_error_to_errno io = eio

-- `|_| libc::EIO`
abbrev pub any_eio : MetaError → Errno
any_eio e = eio

-- `map_err`, beside a state.
abbrev pub to_errno :
    {S A : Type 0} → (MetaError → Errno) → Result MetaError A × S → Result Errno A × S
to_errno f (ok a, s) = (ok a, s)
to_errno f (err e, s) = (err (f e), s)

-- `S_IFREG`, `S_IFLNK`; the type of a file is in the bits 12 to 15 of its mode.
abbrev pub s_ifreg : ℕ
s_ifreg = 32768

abbrev pub s_iflnk : ℕ
s_iflnk = 40960

-- `mode & S_IFMT`
abbrev pub file_type : ℕ → ℕ
file_type mode = mode / 4096 % 16 * 4096

-- `mode & 0o7777`
abbrev pub permissions : ℕ → ℕ
permissions mode = mode % 4096

-- `mode & !umask`, in the lowest `n` bits.
abbrev pub and_not : ℕ → ℕ → ℕ → ℕ
and_not zero mode umask = 0
and_not (suc n) mode umask = mode % 2 * (1 - umask % 2) + 2 * and_not n (mode / 2) (umask / 2)

-- `mode & !umask & 0o7777`
abbrev pub masked : ℕ → ℕ → ℕ
masked mode umask = and_not 12 mode umask

-- A system time, as the seconds and nanoseconds since the epoch.
pub record Now : Type 0 where
  pub sec : ℕ
  pub nsec : ℕ

module _ (State : Type 0) where
  pub data WriteMode : Type 0 where
    streaming : State → ℕ → WriteMode
    buffered : Bytes → WriteMode

  pub record OpenFileState : Type 0 where
    pub ino : ℕ
    pub write_mode : WriteMode
    pub byte_count : ℕ
    pub cas_committed : Bool
    pub last_committed_root : Option Digest224

-- `SliceFsFilesystem`, over the storage and the accumulator; its `io` is that of `meta`.
pub record SliceFsFilesystem (Io State : Type 0) : Type 0 where
  pub meta : Store Io
  pub open_files : Map ℕ (OpenFileState State)
  pub next_fh : ℕ
  pub store_path : Option Bytes
  pub auto_snapshot : Bool

module _ {Io State : Type 0} where
  abbrev pub new : Store Io → Option Bytes → SliceFsFilesystem Io State
  new meta store_path = record {
    meta = meta;
    open_files = [];
    next_fh = 0;
    store_path = store_path;
    auto_snapshot = false;
  }

  abbrev pub set_auto_snapshot : SliceFsFilesystem Io State → Bool → SliceFsFilesystem Io State
  set_auto_snapshot fs enabled = record fs { auto_snapshot = enabled }

  abbrev pub on_meta {ℓ} :
      {A : Type ℓ} → SliceFsFilesystem Io State → A × Store Io → A × SliceFsFilesystem Io State
  on_meta fs (a, s) = (a, record fs { meta = s })

module _ ⦃b : Blockset⦄ where
  open b use {Io}

  -- Reading an inode, changing it and writing it back; any error is `EIO`.
  unfoldable pub modify_inode :
      Store Io → ℕ → (InodeMeta → InodeMeta) → Result Errno Unit × Store Io
  modify_inode s ino change =
      and_then (to_errno any_eio (get_inode s ino, s))
        (λ inode s. to_errno any_eio (update_inode s (change inode)))

-- `inode.ctime_sec = now..`
abbrev pub changed_at : Now → InodeMeta → InodeMeta
changed_at now inode = record inode { ctime_sec = now.sec; ctime_nsec = now.nsec }
