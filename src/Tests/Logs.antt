-- ===== src/Tests/Logs.antt =====
-- Segments and write-ahead logs: runs at concrete inputs.
use slicefs.Base.{◌-◌, ◌≡◌, refl, arith, some, List, [], ◌∷◌, ◌++◌, take, All, length}
use slicefs.Base.Words.{Bytes}
use slicefs.Base.Utf8.{is_utf8}
use slicefs.Digest.{Digest224, IsDigest}
use slicefs.Segment.{SegmentEntry, root_entry, snapshot_entry, new_header, to_bytes}
use slicefs.Segment.Payload.{IsSegmentEntry}
use slicefs.Segment.Writer.{frames, eof_bytes}
use slicefs.Segment.Crash.{read_file, whole_records, read_file-closed}
use slicefs.Segment.Compaction.{compact_segment, read_file-compact_segment}
use slicefs.Segment.Replay.{
  load_store_from_segments, replayed_view, log_of, seg_paths, load_store_from_segments_lem,
}
use slicefs.Wal.{
  root_update, snapshot, flush_on_fsync, Op, log, flush, run, create_wal, flush_and_sync,
}
use slicefs.Wal.Refine.{Represents, no_log, spec_run, spec_step, segments, create-run-Represents}
use slicefs.Wal.Recovery.{on_disk, written, logged, read_file-crash, read_file-flush_and_sync}

abbrev da : Digest224
da = record { w0 = 1; w1 = 2; w2 = 3; w3 = 4; w4 = 5; w5 = 6; w6 = 7 }

da-IsDigest : IsDigest da
da-IsDigest =
    (omega arith, omega arith, omega arith, omega arith, omega arith, omega arith, omega arith)

abbrev entries : List SegmentEntry
entries = root_entry da ∷ snapshot_entry 1 da 100 (some (b'a' ∷ [])) ∷ []

entries-All : All IsSegmentEntry entries
unfolding is_utf8
entries-All =
    (da-IsDigest, ((omega arith, da-IsDigest, omega arith, (refl, omega arith, omega arith)), tt))

abbrev closed_file : Bytes
closed_file = to_bytes (new_header 4) ++ (frames entries ++ (eof_bytes ++ []))

closed_file-read_file : read_file closed_file ≡ some entries
closed_file-read_file = read_file-closed 4 entries [] (omega arith) entries-All

read_file-compact_segment_example :
    (out : Bytes) × (compact_segment closed_file 100004
      ≡ some (out, record { entries_kept = length entries; entries_removed = 0 }))
    × (read_file out ≡ some entries)
read_file-compact_segment_example =
    read_file-compact_segment closed_file 100004 entries (omega arith) entries-All
      closed_file-read_file

abbrev segment_name : Bytes
segment_name =
    b's' ∷ b'e' ∷ b'g' ∷ b'm' ∷ b'e' ∷ b'n' ∷ b't' ∷ b'-' ∷ b'4' ∷ b'.' ∷ b's' ∷ b'e' ∷ b'g' ∷ []

load_store_from_segments_lem_example :
    load_store_from_segments ((segment_name, closed_file) ∷ [])
    ≡ replayed_view (log_of (seg_paths ((segment_name, closed_file) ∷ [])))
load_store_from_segments_lem_example =
    load_store_from_segments_lem ((segment_name, closed_file) ∷ [])

abbrev calls : List Op
calls = log (root_update da) ∷ flush ∷ log (snapshot 1 da 100 (some (b'a' ∷ []))) ∷ []

create-run-Represents_example :
    Represents 4 flush_on_fsync
      (run (create_wal flush_on_fsync 4) calls)
      (spec_run flush_on_fsync no_log calls)
create-run-Represents_example = create-run-Represents 4 flush_on_fsync calls

one_durable : All IsSegmentEntry (segments (spec_run flush_on_fsync no_log calls).durable)
unfolding spec_run spec_step
one_durable = (da-IsDigest, tt)

read_file-crash_example :
    read_file (take 50 (written (run (create_wal flush_on_fsync 4) calls)))
    ≡ some (
        take
          (whole_records (50 - 16) (segments (spec_run flush_on_fsync no_log calls).durable))
          (segments (spec_run flush_on_fsync no_log calls).durable))
read_file-crash_example =
    read_file-crash 4 flush_on_fsync calls 50 refl (omega arith) one_durable (omega arith)

read_file-flush_and_sync_example :
    read_file (on_disk (flush_and_sync (run (create_wal flush_on_fsync 4) calls)))
    ≡ some (segments (logged calls))
read_file-flush_and_sync_example =
    read_file-flush_and_sync 4 flush_on_fsync calls refl (omega arith) entries-All
