-- ===== src/Store.antt =====
-- crates/metadata/src/store.rs: the state of `DictMetadataStore`, its constructor, its counters and
-- the calls that reach the write-ahead log. The locks are not modelled: each operation is one step.
pub mod Refcounts
pub mod Inodes
pub mod Directories
pub mod Files
pub mod Snapshots
pub mod Commit
use slicefs.Base.{
  ℕ, ◌+◌, ◌-◌, ◌*◌, ◌/◌, ◌%◌, ◌^◌, Bool, Option, none, some, List, [], ◌==◌, ltb, if◌then◌else◌,
}
use slicefs.Base.Words.{Bytes}
use slicefs.Base.Keys.{nat_key}
use slicefs.Base.Map
use slicefs.Base.Map.{Map}
use slicefs.Digest.{Digest224}
use slicefs.Blockset.{Blockset}
use slicefs.Meta.{new_directory}
use slicefs.Inode.{intern_inode}
use slicefs.InodeMap
use slicefs.InodeMap.{InodeMap}
use slicefs.Directory.{create_dir_entries}
use slicefs.Snapshot.{SnapshotEntry}
use slicefs.Wal.{Wal, WalEntry, log_mutation, flush_and_sync, shutdown}

-- `DictMetadataStore`, over the storage that its `io` field refers to.
pub record Store (Io : Type 0) : Type 0 where
  pub io : Io
  pub inode_map : InodeMap
  pub inode_data : Map ℕ Digest224
  pub dir_data : Map ℕ Digest224
  pub manifest_data : Map ℕ Digest224
  pub xattr_data : Map ℕ Digest224
  pub refcounts : Map Digest224 ℕ
  pub logical_bytes : ℕ
  pub inode_count : ℕ
  pub wal : Option Wal
  pub last_root : Option Digest224
  pub snapshots_by_version : Map ℕ SnapshotEntry
  pub snapshots_by_name : Map Bytes ℕ

-- `S_IFDIR` is bit 14 of the mode.
abbrev pub s_ifdir : ℕ
s_ifdir = 16384

-- `mode & S_IFDIR != 0`
abbrev pub has_dir_bit : ℕ → Bool
has_dir_bit mode = (mode / s_ifdir) % 2 == 1

-- `mode |= S_IFDIR`
abbrev pub or_dir_bit : ℕ → ℕ
or_dir_bit mode = if has_dir_bit mode then mode else mode + s_ifdir

-- `S_IFDIR | 0o755`
abbrev pub root_mode : ℕ
root_mode = 16877

-- `fetch_add`, which wraps around
abbrev pub fetch_add : ℕ → ℕ → ℕ
fetch_add cur n = (cur + n) % 2 ^ 64

-- `saturating_sub` is the subtraction of natural numbers.
abbrev pub saturating_sub : ℕ → ℕ → ℕ
saturating_sub cur n = cur - n

module _ ⦃b : Blockset⦄ where
  open b use {Io}

  -- `DictMetadataStore::new`; the process's user and group are arguments.
  unfoldable pub new : Io → ℕ → ℕ → Store Io
  new io uid gid =
      let (root_inode_digest, io1) = intern_inode io (new_directory 1 uid gid root_mode) in
      let (root_dir_digest, io2) = create_dir_entries io1 1 1 in
      record {
        io = io2;
        inode_map = InodeMap.insert InodeMap.empty 1 root_inode_digest;
        inode_data = Map.insert 1 root_inode_digest [];
        dir_data = Map.insert 1 root_dir_digest [];
        manifest_data = [];
        xattr_data = [];
        refcounts = [];
        logical_bytes = 0;
        inode_count = 1;
        wal = none;
        last_root = none;
        snapshots_by_version = [];
        snapshots_by_name = [];
      }

abbrev pub map_wal : (Wal → Wal) → Option Wal → Option Wal
map_wal f none = none
map_wal f (some w) = some (f w)

module _ {Io : Type 0} where
  abbrev pub set_wal : Store Io → Wal → Store Io
  set_wal s wal = record s { wal = some wal }

  abbrev pub flush_wal : Store Io → Store Io
  flush_wal s = record s { wal = map_wal flush_and_sync s.wal }

  abbrev pub shutdown_wal : Store Io → Store Io
  shutdown_wal s = record s { wal = map_wal shutdown s.wal }

  abbrev pub log_wal_entry : Store Io → WalEntry → Store Io
  log_wal_entry s entry = record s { wal = map_wal (λ w. log_mutation w entry) s.wal }

  abbrev pub current_root : Store Io → Option Digest224
  current_root s = s.last_root

abbrev pub root_ino : ℕ
root_ino = 1
