-- ===== src/Wal.antt =====
-- crates/metadata/src/wal: the four strategies of the write-ahead log over a segment writer.
pub mod Refine
pub mod Recovery
use slicefs.Base.{ℕ, Option, List, [], ◌∷◌, ◌++◌}
use slicefs.Base.Words.{Bytes}
use slicefs.Digest.{Digest224}
use slicefs.Segment.{SegmentEntry, root_entry, snapshot_entry}
use slicefs.Segment.Writer.{SegmentWriter, new, write_entry, sync}

pub data WalEntry : Type 0 where
  root_update : Digest224 → WalEntry
  snapshot : ℕ → Digest224 → ℕ → Option Bytes → WalEntry

pub data WalConfig : Type 0 where
  per_op : WalConfig
  flush_on_fsync : WalConfig
  periodic : ℕ → WalConfig
  no_wal : WalConfig

-- `Box<dyn WalStrategy>`: a constructor for each implementation, with its fields.
pub data Wal : Type 0 where
  per_op_wal : SegmentWriter → Wal
  flush_on_fsync_wal : List WalEntry → SegmentWriter → Wal
  periodic_wal : List WalEntry → SegmentWriter → Wal
  no_wal_strategy : Wal

abbrev pub wal_entry_to_segment : WalEntry → SegmentEntry
wal_entry_to_segment (root_update root) = root_entry root
wal_entry_to_segment (snapshot version root created_at name) =
    snapshot_entry version root created_at name

-- `create_wal`: each strategy but `no_wal` starts a segment file of its own.
unfoldable pub create_wal : WalConfig → ℕ → Wal
create_wal per_op segment_id = per_op_wal (new segment_id)
create_wal flush_on_fsync segment_id = flush_on_fsync_wal [] (new segment_id)
create_wal (periodic interval_secs) segment_id = periodic_wal [] (new segment_id)
create_wal no_wal segment_id = no_wal_strategy

-- `PerOpWal`: each entry is written and synced at once. Its shutdown writes no end marker.
abbrev pub per_op_log : SegmentWriter → WalEntry → SegmentWriter
per_op_log writer entry = sync (write_entry writer (wal_entry_to_segment entry))

abbrev pub per_op_flush : SegmentWriter → SegmentWriter
per_op_flush writer = sync writer

abbrev pub per_op_shutdown : SegmentWriter → SegmentWriter
per_op_shutdown writer = sync writer

-- `for entry in buffer.drain(..) { writer.write_entry(..) }`
unfoldable pub drain : List WalEntry → SegmentWriter → SegmentWriter
drain [] writer = writer
drain (entry ∷ buffer) writer = drain buffer (write_entry writer (wal_entry_to_segment entry))

-- `FlushOnFsyncWal`: entries wait in the buffer. A flush leaves the buffer empty.
abbrev pub flush_on_fsync_log : List WalEntry → WalEntry → List WalEntry
flush_on_fsync_log buffer entry = buffer ++ entry ∷ []

abbrev pub flush_on_fsync_flush : List WalEntry → SegmentWriter → SegmentWriter
flush_on_fsync_flush buffer writer = sync (drain buffer writer)

-- `PeriodicWal` does the same; its caller flushes at intervals.
abbrev pub periodic_log : List WalEntry → WalEntry → List WalEntry
periodic_log buffer entry = buffer ++ entry ∷ []

abbrev pub periodic_flush : List WalEntry → SegmentWriter → SegmentWriter
periodic_flush buffer writer = sync (drain buffer writer)

-- The three calls of the trait, for each strategy.
unfoldable pub log_mutation : Wal → WalEntry → Wal
log_mutation (per_op_wal writer) entry = per_op_wal (per_op_log writer entry)
log_mutation (flush_on_fsync_wal buffer writer) entry =
    flush_on_fsync_wal (flush_on_fsync_log buffer entry) writer
log_mutation (periodic_wal buffer writer) entry = periodic_wal (periodic_log buffer entry) writer
log_mutation no_wal_strategy entry = no_wal_strategy

unfoldable pub flush_and_sync : Wal → Wal
flush_and_sync (per_op_wal writer) = per_op_wal (per_op_flush writer)
flush_and_sync (flush_on_fsync_wal buffer writer) =
    flush_on_fsync_wal [] (flush_on_fsync_flush buffer writer)
flush_and_sync (periodic_wal buffer writer) = periodic_wal [] (periodic_flush buffer writer)
flush_and_sync no_wal_strategy = no_wal_strategy

unfoldable pub shutdown : Wal → Wal
unfolding flush_and_sync
shutdown (per_op_wal writer) = per_op_wal (per_op_shutdown writer)
shutdown (flush_on_fsync_wal buffer writer) = flush_and_sync (flush_on_fsync_wal buffer writer)
shutdown (periodic_wal buffer writer) = flush_and_sync (periodic_wal buffer writer)
shutdown no_wal_strategy = no_wal_strategy

-- The calls that a client can make.
pub data Op : Type 0 where
  log : WalEntry → Op
  flush : Op
  shut : Op

unfoldable pub apply : Wal → Op → Wal
apply wal (log entry) = log_mutation wal entry
apply wal flush = flush_and_sync wal
apply wal shut = shutdown wal

unfoldable pub run : Wal → List Op → Wal
run wal [] = wal
run wal (op ∷ ops) = run (apply wal op) ops
