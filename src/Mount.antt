-- ===== src/Mount.antt =====
-- crates/metadata/src/mount_lock.rs, and the loading of a store in crates/slicefs-cli/src/mount.rs.
pub mod Recovery
pub mod Ids
use slicefs.Base.{
  ℕ, ◌+◌, ◌-◌, ◌%◌, ◌^◌, Bool, true, false, Option, none, some, List, [], ◌∷◌, length, slice, ltb,
  if◌then◌else◌,
}
use slicefs.Base.Words.{Bytes}
use slicefs.Base.Results.{Result, ok, err, ok_or, ◌>>=◌}
use slicefs.Blockset.{Blockset}
use slicefs.Meta.{MetaError}
use slicefs.Segment.Replay.{is_segment_name, Replayed, SegmentError, load_store_from_segments}
use slicefs.Wal.{WalConfig, create_wal}
use slicefs.Store.{Store, set_wal}
use slicefs.Store.Commit.{load_from_root}
use slicefs.Store.Snapshots.{set_snapshots, parse_u64}

-- A store's directory: whether `dictionary.bin` and `mount.lock` exist, and the files of
-- `segments/`, where that is a directory.
pub record StoreDir : Type 0 where
  pub dictionary_bin : Bool
  pub mount_lock : Bool
  pub segments : Option (List (Bytes × Bytes))

pub data MountLockError : Type 0 where
  dirty_mount : MountLockError

-- `acquire_mount_lock`; the lock that it returns is the file.
unfoldable pub acquire_mount_lock : StoreDir → Result MountLockError Unit × StoreDir
acquire_mount_lock dir =
    if dir.mount_lock then (err dirty_mount, dir) else (ok tt, record dir { mount_lock = true })

-- `Drop for MountLock`
abbrev pub drop_lock : StoreDir → StoreDir
drop_lock dir = record dir { mount_lock = false }

-- The errors of `load_store`, which are strings there.
pub data MountError : Type 0 where
  legacy_format : MountError
  store_not_found : MountError
  lock_failed : MountError
  segments_failed : MountError
  no_committed_state : MountError
  reconstruct_failed : MetaError → MountError

-- The number in a file name: `&name[8..name.len() - 4]`, parsed.
unfoldable pub segment_number : Bytes → Option ℕ
segment_number name =
    if is_segment_name name then parse_u64 (slice 8 (length name - 4) name) else none

unfoldable pub max_segment_id : List (Bytes × Bytes) → ℕ
max_segment_id [] = 0
max_segment_id ((name, content) ∷ listing) =
    let rest = max_segment_id listing in
    elim (segment_number name) [ none ↦ rest | some id ↦ if ltb rest id then id else rest ]

-- A number of 64 bits.
unfoldable pub next_segment_id : List (Bytes × Bytes) → ℕ
next_segment_id listing = (max_segment_id listing + 1) % 2 ^ 64

-- A stale lock is removed and taken again.
unfoldable pub take_lock : StoreDir → Result MountError Unit × StoreDir
unfolding acquire_mount_lock
take_lock dir =
    let (lock, dir') = acquire_mount_lock dir in
    elim lock [
      | ok _ ↦ (ok tt, dir')
      | err dirty_mount ↦
          let (again, dir'') = acquire_mount_lock (drop_lock dir') in
          elim again [ ok _ ↦ (ok tt, dir'') | err dirty_mount ↦ (err lock_failed, dir'') ]
    ]

abbrev pub named_error : {A B : Type 0} → MountError → Result A B → Result MountError B
named_error e (ok b) = ok b
named_error e (err a) = err e

abbrev pub reconstruct_error : {B : Type 0} → Result MetaError B → Result MountError B
reconstruct_error (ok b) = ok b
reconstruct_error (err a) = err (reconstruct_failed a)

module _ ⦃b : Blockset⦄ where
  open b use {Io}

  -- The steps of `load_store` behind the lock.
  unfoldable pub reload : Io → WalConfig → List (Bytes × Bytes) → Result MountError (Store Io)
  reload io wal_config listing = do
    replayed ← named_error segments_failed (load_store_from_segments listing)
    root ← ok_or replayed.last_root no_committed_state
    meta ← reconstruct_error (load_from_root io root)
    ok (
        set_wal (set_snapshots meta replayed.snapshots)
          (create_wal wal_config (next_segment_id listing)))

  -- An error behind the lock drops it.
  unfoldable pub load_store : StoreDir → Io → WalConfig → Result MountError (Store Io) × StoreDir
  unfolding take_lock reload
  load_store dir io wal_config =
      if dir.dictionary_bin then (err legacy_format, dir) else elim dir.segments [
        | none ↦ (err store_not_found, dir)
        | some listing ↦
            let (lock, dir') = take_lock dir in
            elim lock [
              | err e ↦ (err e, dir')
              | ok _ ↦ elim (reload io wal_config listing) [
                | ok meta ↦ (ok meta, dir')
                | err e ↦ (err e, drop_lock dir')
              ]
            ]
      ]
