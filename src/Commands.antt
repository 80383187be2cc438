-- ===== src/Commands.antt =====
-- crates/slicefs-cli/src/snapshot.rs: the commands on the snapshots of a store that is not mounted.
-- What they print is their result. The clock is an argument.
pub mod Switch
pub mod Names
use slicefs.Base.{
  ℕ, zero, suc, ◌+◌, ◌-◌, ◌/◌, ◌%◌, Option, none, some, List, [], ◌∷◌, ◌++◌, length, ltb,
  if◌then◌else◌,
}
use slicefs.Base.Words.{Bytes}
use slicefs.Base.Keys.{lex_same}
use slicefs.Base.Results.{Result, ok, err}
use slicefs.Blockset.{Blockset}
use slicefs.Snapshot.{SnapshotEntry}
use slicefs.Segment.Replay.{prefix, suffix, load_store_from_segments}
use slicefs.Wal.{Wal, per_op}
use slicefs.Wal.Recovery.{written}
use slicefs.Store.{Store, shutdown_wal}
use slicefs.Store.Snapshots.{create_snapshot, find_snapshot, commit_root}
use slicefs.Mount.{StoreDir, MountError, segments_failed, next_segment_id, reload}

-- The errors of the commands, which are strings there.
pub data SnapshotError : Type 0 where
  store_mounted : SnapshotError
  not_loaded : MountError → SnapshotError
  snapshot_not_found : SnapshotError

-- The decimal digits of a number behind `acc`; each round takes one digit.
unfoldable pub decimal_from : ℕ → ℕ → Bytes → Bytes
decimal_from zero n acc = acc
decimal_from (suc fuel) n acc =
    let digits = (n % 10 + 48) ∷ acc in
    let rest = decimal_from fuel (n / 10) digits in if ltb n 10 then digits else rest

-- A number of 64 bits has at most 20 digits.
abbrev pub decimal : ℕ → Bytes
decimal n = decimal_from 20 n []

unfoldable pub padding : ℕ → Bytes
padding zero = []
padding (suc n) = b'0' ∷ padding n

-- `format!("segment-{:06}.seg", segment_id)`
unfoldable pub segment_file_name : ℕ → Bytes
unfolding decimal_from padding
segment_file_name segment_id =
    prefix ++ (padding (6 - length (decimal segment_id)) ++ (decimal segment_id ++ suffix))

-- A file of a directory, made or replaced.
unfoldable pub write_file : Bytes → Bytes → List (Bytes × Bytes) → List (Bytes × Bytes)
write_file name content [] = (name, content) ∷ []
write_file name content ((other, old) ∷ listing) =
    let rest = write_file name content listing in
    if lex_same other name then (name, content) ∷ listing else (other, old) ∷ rest

-- The bytes of a log's segment file when it is dropped.
abbrev pub log_bytes : Option Wal → Bytes
log_bytes none = []
log_bytes (some wal) = written wal

-- The listing with the segment file that a command has started.
abbrev pub with_log : List (Bytes × Bytes) → Option Wal → List (Bytes × Bytes)
with_log listing wal =
    write_file (segment_file_name (next_segment_id listing)) (log_bytes wal) listing

abbrev pub logged_dir : StoreDir → List (Bytes × Bytes) → Option Wal → StoreDir
logged_dir dir listing wal = record dir { segments = some (with_log listing wal) }

-- "auto-before-switch"
abbrev pub auto_before_switch : Bytes
auto_before_switch =
    b'a' ∷ b'u' ∷ b't' ∷ b'o' ∷ b'-' ∷ b'b' ∷ b'e' ∷ b'f' ∷ b'o' ∷ b'r' ∷ b'e' ∷ b'-' ∷ b's' ∷ b'w'
    ∷ b'i' ∷ b't' ∷ b'c' ∷ b'h' ∷ []

-- `run_snapshot_list`: the rows of the table.
unfoldable pub run_snapshot_list : StoreDir → Result SnapshotError (List SnapshotEntry)
run_snapshot_list dir = elim dir.segments [
  | none ↦ err (not_loaded segments_failed)
  | some listing ↦ elim (load_store_from_segments listing) [
    | err e ↦ err (not_loaded segments_failed)
    | ok replayed ↦ ok replayed.snapshots
  ]
]

module _ ⦃b : Blockset⦄ where
  open b use {Io}

  -- What the commands do before their own work, with the per-operation log.
  unfoldable pub offline : StoreDir → Io → Result SnapshotError (List (Bytes × Bytes) × Store Io)
  offline dir io = if dir.mount_lock then err store_mounted else elim dir.segments [
    | none ↦ err (not_loaded segments_failed)
    | some listing ↦ elim (reload io per_op listing) [
      | err e ↦ err (not_loaded e)
      | ok meta ↦ ok (listing, meta)
    ]
  ]

  unfoldable pub run_snapshot_create :
      StoreDir → Io → Option Bytes → ℕ → Result SnapshotError SnapshotEntry × StoreDir × Io
  unfolding offline
  run_snapshot_create dir io name now = elim (offline dir io) [
    | err e ↦ (err e, dir, io)
    | ok (listing, meta) ↦
        let (entry, s) = create_snapshot meta name now in
        (ok entry, logged_dir dir listing (shutdown_wal s).wal, s.io)
  ]

  -- `run_snapshot_switch` with the store: the present state becomes a snapshot of its own before
  -- the root of the target is logged.
  unfoldable pub switch_root :
      Store Io → Bytes → ℕ → Result SnapshotError (SnapshotEntry × SnapshotEntry) × Store Io
  switch_root meta version_or_name now = elim (find_snapshot meta version_or_name) [
    | none ↦ (err snapshot_not_found, meta)
    | some target ↦
        let (auto_snap, s) = create_snapshot meta (some auto_before_switch) now in
        (ok (target, auto_snap), shutdown_wal (commit_root s target.root))
  ]

  unfoldable pub run_snapshot_switch :
      StoreDir
      → Io
      → Bytes
      → ℕ
      → Result SnapshotError (SnapshotEntry × SnapshotEntry) × StoreDir × Io
  unfolding offline switch_root
  run_snapshot_switch dir io version_or_name now = elim (offline dir io) [
    | err e ↦ (err e, dir, io)
    | ok (listing, meta) ↦
        let (switched, s) = switch_root meta version_or_name now in
        (switched, logged_dir dir listing s.wal, s.io)
  ]
