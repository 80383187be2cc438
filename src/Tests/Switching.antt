-- ===== src/Tests/Switching.antt =====
-- The commands on snapshots: runs at a concrete store.
use slicefs.Base.{All, ◌≡◌, refl, ap, ◌∙◌, arith, none, some, List, [], ◌∷◌, ◌++◌, false}
use slicefs.Base.Words.{Bytes, IsU64}
use slicefs.Base.Results.{ok}
use slicefs.Base.Map
use slicefs.Base.Map.{Map}
use slicefs.Digest.{Digest224}
use slicefs.Snapshot.{SnapshotEntry}
use slicefs.Blockset.{Blockset}
use slicefs.Sample.{sample}
use slicefs.Segment.{SegmentEntry}
use slicefs.Segment.Payload.{IsSegmentEntry}
use slicefs.Segment.Replay.{
  seg_paths, is_segment_name, log_of, load_store_from_segments, load_store_from_segments_lem,
  replayed_view,
}
use slicefs.Wal.{Op, log, root_update, flush_on_fsync, create_wal, run, flush_and_sync}
use slicefs.Wal.Refine.{segments}
use slicefs.Wal.Recovery.{on_disk, logged, read_file-flush_and_sync}
use slicefs.Store.{Store}
use slicefs.Store.Commit.{commit}
use slicefs.Store.Commit.Reload.{reloaded, load_from_root-commit}
use slicefs.Store.Snapshots.{create_snapshot, find_snapshot, set_snapshots, parse_u64, parse_digits}
use slicefs.Mount.{next_segment_id, segment_number, max_segment_id}
use slicefs.Mount.Recovery.{store_dir, log_of-last}
use slicefs.Commands.{segment_file_name, write_file, run_snapshot_create, run_snapshot_switch}
use slicefs.Commands.Names.{segment_number-segment_file_name}
use slicefs.Segment.Crash.{read_file}
use slicefs.Segment.Compaction.{read_file-compact_segment}
use slicefs.Gc.{run_gc, compact_all, compact_id, seg_names, out_filename, read_named}
use slicefs.Gc.Kept.{Segment, run_gc-collected}
use slicefs.Commands.Switch.{
  opened, auto_snapshot, Replays, replayed-last, run_snapshot_create_lem, run_snapshot_switch_lem,
}
use slicefs.Tests.Mounting.{
  da, da-IsDigest, calls, logging, logging-IsCommittable, logging-AllApart, empty_log,
}

-- A store with one committed state and one snapshot.
abbrev Disk : Type 0
Disk = Map Digest224 Bytes

kept_root : Digest224
kept_root = (commit ⦃b = sample⦄ logging).0

abbrev history : List Op
history = calls ++ log (root_update kept_root) ∷ []

abbrev entries : List SegmentEntry
entries = segments (logged history)

abbrev old_name : Bytes
old_name = segment_file_name 4

abbrev old_file : Bytes
old_file = on_disk (flush_and_sync (run (create_wal flush_on_fsync 4) history))

abbrev old_listing : List (Bytes × Bytes)
old_listing = (old_name, old_file) ∷ []

abbrev disk : Disk
disk = (commit ⦃b = sample⦄ logging).1.io

abbrev base : Store Disk
base = reloaded ⦃b = sample⦄ (commit ⦃b = sample⦄ logging).1

kept_root_in_range : All IsSegmentEntry entries
unfolding kept_root commit
kept_root_in_range =
    ((omega arith, da-IsDigest, omega arith, tt), (Blockset.digest-IsDigest sample _, tt))

only_path : (content : Bytes) → seg_paths ((old_name, content) ∷ []) ≡ (old_name, content) ∷ []
unfolding seg_paths is_segment_name Map.insert segment_file_name
only_path content = refl

old_log : log_of (seg_paths old_listing) ≡ some entries
old_log =
    ap log_of (only_path old_file)
    ∙ log_of-last [] old_name old_file [] entries empty_log
        (read_file-flush_and_sync 4 flush_on_fsync history refl (omega arith) kept_root_in_range)

abbrev first_snapshot : SnapshotEntry
first_snapshot = record { version = 1; name = none; root = da; created_at = 100 }

old_replayed :
    load_store_from_segments old_listing
    ≡ ok (record { last_root = some kept_root; snapshots = first_snapshot ∷ [] })
old_replayed = load_store_from_segments_lem old_listing ∙ ap replayed_view old_log

newest :
    (content : Bytes)
    → seg_paths (write_file (segment_file_name (next_segment_id old_listing)) content old_listing)
      ≡ seg_paths old_listing ++ (segment_file_name (next_segment_id old_listing), content) ∷ []
unfolding seg_paths is_segment_name Map.insert segment_file_name write_file next_segment_id
    max_segment_id segment_number parse_u64
newest content = refl

abbrev one : Bytes
one = b'1' ∷ []

one_found : find_snapshot (opened ⦃b = sample⦄ base entries old_listing) one ≡ some first_snapshot
unfolding find_snapshot set_snapshots parse_u64 parse_digits Map.get Map.insert Map.insert_all
one_found = refl

run_snapshot_create_lem_example :
    ((run_snapshot_create ⦃b = sample⦄ (store_dir false old_listing) disk none 200).0
      ≡ ok (create_snapshot ⦃b = sample⦄ (opened ⦃b = sample⦄ base entries old_listing) none 200).0)
    × Replays entries
        (run_snapshot_create ⦃b = sample⦄ (store_dir false old_listing) disk none 200).1
        (commit ⦃b = sample⦄ (opened ⦃b = sample⦄ base entries old_listing)).0
        ((create_snapshot ⦃b = sample⦄ (opened ⦃b = sample⦄ base entries old_listing) none 200).0
          ∷ [])
unfolding kept_root
run_snapshot_create_lem_example =
    run_snapshot_create_lem ⦃b = sample⦄ (store_dir false old_listing) disk old_listing entries
      kept_root base 200 refl refl old_log refl
      (load_from_root-commit ⦃b = sample⦄ logging logging-IsCommittable logging-AllApart)
      (omega arith) none tt (newest _)

run_snapshot_switch_lem_example :
    ((run_snapshot_switch ⦃b = sample⦄ (store_dir false old_listing) disk one 200).0
      ≡ ok (
        first_snapshot,
        auto_snapshot ⦃b = sample⦄ (opened ⦃b = sample⦄ base entries old_listing) 200,
      ))
    × Replays entries
        (run_snapshot_switch ⦃b = sample⦄ (store_dir false old_listing) disk one 200).1
        da
        (auto_snapshot ⦃b = sample⦄ (opened ⦃b = sample⦄ base entries old_listing) 200 ∷ [])
unfolding kept_root
run_snapshot_switch_lem_example =
    run_snapshot_switch_lem ⦃b = sample⦄ (store_dir false old_listing) disk old_listing entries
      kept_root base 200 refl refl old_log refl
      (load_from_root-commit ⦃b = sample⦄ logging logging-IsCommittable logging-AllApart)
      (omega arith) one first_snapshot one_found da-IsDigest (newest _)

old_found : read_named old_listing old_name ≡ some old_file
unfolding read_named segment_file_name
old_found = refl

old_readable_file : read_file old_file ≡ some entries
old_readable_file =
    read_file-flush_and_sync 4 flush_on_fsync history refl (omega arith) kept_root_in_range

old_names : seg_names old_listing ≡ old_name ∷ []
unfolding seg_names segment_file_name
old_names = refl

segment_number-segment_file_name_example : segment_number (segment_file_name 1234567) ≡ some 1234567
segment_number-segment_file_name_example = segment_number-segment_file_name 1234567 (omega arith)

copy_last :
    (content : Bytes)
    → seg_paths (write_file (out_filename old_name) content old_listing)
      ≡ seg_paths old_listing ++ (out_filename old_name, content) ∷ []
unfolding seg_paths is_segment_name Map.insert segment_file_name write_file out_filename compact_id
    parse_u64
copy_last content = refl

old_id-IsU64 : IsU64 (compact_id old_name)
unfolding compact_id segment_file_name parse_u64
old_id-IsU64 = omega arith

-- After a run of the garbage collector the replay finds the snapshot twice.
listed_twice :
    (new : List (Bytes × Bytes)) × ((run_gc (store_dir false old_listing)).1.segments ≡ some new)
    × (load_store_from_segments new
        ≡ ok (record {
          last_root = some kept_root;
          snapshots = first_snapshot ∷ first_snapshot ∷ [];
        }))
unfolding compact_all
listed_twice =
    let (out, compacted, same) =
      read_file-compact_segment old_file (compact_id old_name) entries old_id-IsU64
        kept_root_in_range old_readable_file in
    rw
      (
        run_gc-collected (store_dir false old_listing) old_listing _ refl refl old_replayed,
        old_names,
        old_found,
        compacted,
        compact_all,
      )
      (
        write_file (out_filename old_name) out old_listing,
        refl,
        replayed-last old_listing (write_file (out_filename old_name) out old_listing)
            (out_filename old_name) out entries entries kept_root [] old_log same (copy_last out)
            refl,
      )
