-- ===== src/Wal/Recovery.antt =====
-- What can be read back from the segment file of a write-ahead log after a crash.
use slicefs.Base.{
  ℕ, ◌-◌, ◌≤◌, ◌≡◌, refl, sym, ap, ◌∙◌, Bool, true, false, some, List, [], ◌∷◌, ◌++◌, append-nil,
  append_assoc, take, All,
}
use slicefs.Base.Words.{Bytes, IsU64}
use slicefs.Segment.{SegmentEntry, new_header, to_bytes}
use slicefs.Segment.Payload.{IsSegmentEntry}
use slicefs.Segment.Writer.{SegmentWriter, file, frames, read_all-frames, sync, write_entry}
use slicefs.Segment.Reader.{read_all, collect}
use slicefs.Segment.Crash.{read_file, read_file-take, read_file-header, whole_records}
use slicefs.Wal.{
  WalEntry, wal_entry_to_segment, WalConfig, per_op, flush_on_fsync, periodic, no_wal, Wal,
  per_op_wal, flush_on_fsync_wal, periodic_wal, no_wal_strategy, create_wal, log_mutation,
  flush_and_sync, shutdown, drain, Op, log, flush, shut, run, apply,
}
use slicefs.Wal.Refine.{
  Log, no_log, spec_step, spec_run, segments, Represents, create-run-Represents, apply-Represents,
}

abbrev pub has_file : WalConfig → Bool
has_file no_wal = false
has_file _ = true

-- The bytes that are on disk for sure, and those that the program has written.
abbrev pub on_disk : Wal → Bytes
on_disk (per_op_wal w) = w.synced
on_disk (flush_on_fsync_wal buffer w) = w.synced
on_disk (periodic_wal buffer w) = w.synced
on_disk no_wal_strategy = []

abbrev pub written : Wal → Bytes
written (per_op_wal w) = file w
written (flush_on_fsync_wal buffer w) = file w
written (periodic_wal buffer w) = file w
written no_wal_strategy = []

written_lem :
    (id : ℕ) (config : WalConfig) (wal : Wal) (l : Log)
    → has_file config ≡ true
    → Represents id config wal l
    → written wal ≡ to_bytes (new_header id) ++ frames (segments l.durable)
written_lem id per_op (per_op_wal w) l f h = h.0
written_lem id per_op (flush_on_fsync_wal buffer w) l f h = absurd h
written_lem id per_op (periodic_wal buffer w) l f h = absurd h
written_lem id per_op no_wal_strategy l f h = absurd h
written_lem id flush_on_fsync (per_op_wal w) l f h = absurd h
written_lem id flush_on_fsync (flush_on_fsync_wal buffer w) l f h = h.0
written_lem id flush_on_fsync (periodic_wal buffer w) l f h = absurd h
written_lem id flush_on_fsync no_wal_strategy l f h = absurd h
written_lem id (periodic secs) (per_op_wal w) l f h = absurd h
written_lem id (periodic secs) (flush_on_fsync_wal buffer w) l f h = absurd h
written_lem id (periodic secs) (periodic_wal buffer w) l f h = h.0
written_lem id (periodic secs) no_wal_strategy l f h = absurd h
written_lem id no_wal (per_op_wal w) l f h = cc
written_lem id no_wal (flush_on_fsync_wal buffer w) l f h = cc
written_lem id no_wal (periodic_wal buffer w) l f h = cc
written_lem id no_wal no_wal_strategy l f h = cc

-- If a crash leaves the written file of a log cut at any byte behind its header, recovery reads
-- exactly the durable entries that are there whole, a prefix in order. The strategy must have a
-- file, the id 64 bits, and the durable entries must be in range.
pub read_file-crash :
    (id : ℕ) (config : WalConfig) (ops : List Op) (n : ℕ)
    → has_file config ≡ true
    → IsU64 id
    → All IsSegmentEntry (segments (spec_run config no_log ops).durable)
    → 16 ≤ n
    → read_file (take n (written (run (create_wal config id) ops)))
      ≡ some (
          take
            (whole_records (n - 16) (segments (spec_run config no_log ops).durable))
            (segments (spec_run config no_log ops).durable))
read_file-crash id config ops n f hi h le =
    rw
      (written_lem id config (run (create_wal config id) ops) (spec_run config no_log ops) f
        (create-run-Represents id config ops))
      (read_file-take id (segments (spec_run config no_log ops).durable) n hi h le)

nothing_left : read_all [] ≡ []
unfolding read_all collect
nothing_left = refl

read_file-whole :
    (id : ℕ) (es : List SegmentEntry)
    → IsU64 id
    → All IsSegmentEntry es
    → read_file (to_bytes (new_header id) ++ frames es) ≡ some es
read_file-whole id es hi h =
    read_file-header id (frames es) hi
    ∙ ap some (
        ap read_all (sym (append-nil (frames es)))
        ∙ read_all-frames es [] h
        ∙ ap (λ t. es ++ t) nothing_left
        ∙ append-nil es)

-- The calls after which everything written is on disk.
unfoldable pub IsSynced : Wal → Type 0
IsSynced wal = on_disk wal ≡ written wal

sync-IsSynced : (w : SegmentWriter) → (sync w).synced ≡ file (sync w)
unfolding sync
sync-IsSynced w = sym (append-nil _)

flush_and_sync-IsSynced : (wal : Wal) → IsSynced (flush_and_sync wal)
unfolding IsSynced flush_and_sync
flush_and_sync-IsSynced (per_op_wal w) = sync-IsSynced w
flush_and_sync-IsSynced (flush_on_fsync_wal buffer w) = sync-IsSynced (drain buffer w)
flush_and_sync-IsSynced (periodic_wal buffer w) = sync-IsSynced (drain buffer w)
flush_and_sync-IsSynced no_wal_strategy = refl

-- All entries that calls log.
abbrev pub logged : List Op → List WalEntry
logged [] = []
logged (log e ∷ ops) = e ∷ logged ops
logged (flush ∷ ops) = logged ops
logged (shut ∷ ops) = logged ops

per_op-durable :
    (ops : List Op) (l : Log) → (spec_run per_op l ops).durable ≡ l.durable ++ logged ops
unfolding spec_run spec_step
per_op-durable [] l = sym (append-nil l.durable)
per_op-durable (log e ∷ ops) l =
    per_op-durable ops (spec_step per_op l (log e)) ∙ append_assoc l.durable (e ∷ []) (logged ops)
per_op-durable (flush ∷ ops) l = per_op-durable ops l
per_op-durable (shut ∷ ops) l = per_op-durable ops l

-- Nothing that was logged is lost while the program runs.
abbrev both : Log → List WalEntry
both l = l.durable ++ l.pending

abbrev Buffers : WalConfig → Type 0
Buffers config =
    ((l : Log) (e : WalEntry)
      → spec_step config l (log e) ≡ record l { pending = l.pending ++ e ∷ [] })
    × ((l : Log) → spec_step config l flush ≡ record { durable = both l; pending = [] })
    × ((l : Log) → spec_step config l shut ≡ record { durable = both l; pending = [] })

both-spec_run :
    (config : WalConfig)
    → Buffers config
    → (ops : List Op) (l : Log) → both (spec_run config l ops) ≡ both l ++ logged ops
unfolding spec_run
both-spec_run config c [] l = sym (append-nil (both l))
both-spec_run config c (log e ∷ ops) l =
    both-spec_run config c ops (spec_step config l (log e))
    ∙ ap (λ l'. both l' ++ logged ops) (c.0 l e)
    ∙ ap (λ t. t ++ logged ops) (sym (append_assoc l.durable l.pending (e ∷ [])))
    ∙ append_assoc (both l) (e ∷ []) (logged ops)
both-spec_run config c (flush ∷ ops) l =
    both-spec_run config c ops (spec_step config l flush)
    ∙ ap (λ l'. both l' ++ logged ops) (c.1 l)
    ∙ ap (λ t. t ++ logged ops) (append-nil (both l))
both-spec_run config c (shut ∷ ops) l =
    both-spec_run config c ops (spec_step config l shut)
    ∙ ap (λ l'. both l' ++ logged ops) (c.2 l)
    ∙ ap (λ t. t ++ logged ops) (append-nil (both l))

durable-flush :
    (config : WalConfig) (ops : List Op)
    → has_file config ≡ true
    → (spec_step config (spec_run config no_log ops) flush).durable ≡ logged ops
unfolding spec_step
durable-flush per_op ops f = per_op-durable ops no_log
durable-flush flush_on_fsync ops f =
    both-spec_run flush_on_fsync (λ l e. refl, λ l. refl, λ l. refl) ops no_log
durable-flush (periodic secs) ops f =
    both-spec_run (periodic secs) (λ l e. refl, λ l. refl, λ l. refl) ops no_log
durable-flush no_wal ops f = cc

-- For each strategy that has a file, under an id of 64 bits, what is on disk after flush_and_sync
-- reads back as every entry logged before it, in order, if these entries are in range.
pub read_file-flush_and_sync :
    (id : ℕ) (config : WalConfig) (ops : List Op)
    → has_file config ≡ true
    → IsU64 id
    → All IsSegmentEntry (segments (logged ops))
    → read_file (on_disk (flush_and_sync (run (create_wal config id) ops)))
      ≡ some (segments (logged ops))
unfolding IsSynced apply
read_file-flush_and_sync id config ops f hi h =
    ap read_file (
      flush_and_sync-IsSynced (run (create_wal config id) ops)
      ∙ written_lem id config (flush_and_sync (run (create_wal config id) ops))
          (spec_step config (spec_run config no_log ops) flush) f
          (apply-Represents id config (run (create_wal config id) ops) (spec_run config no_log ops)
            flush (create-run-Represents id config ops))
      ∙ ap (λ es. to_bytes (new_header id) ++ frames (segments es)) (durable-flush config ops f))
    ∙ read_file-whole id (segments (logged ops)) hi h

IsSynced-step :
    (id : ℕ) (l : Log) (wal : Wal) (op : Op) → Represents id per_op wal l → IsSynced (apply wal op)
unfolding IsSynced apply log_mutation flush_and_sync shutdown
IsSynced-step id l (per_op_wal w) (log e) h = sync-IsSynced (write_entry w (wal_entry_to_segment e))
IsSynced-step id l (per_op_wal w) flush h = sync-IsSynced w
IsSynced-step id l (per_op_wal w) shut h = sync-IsSynced w
IsSynced-step id l (flush_on_fsync_wal buffer w) op h = absurd h
IsSynced-step id l (periodic_wal buffer w) op h = absurd h
IsSynced-step id l no_wal_strategy op h = absurd h

-- With the per-operation strategy everything that is written is on disk after any call.
pub per_op-IsSynced :
    (id : ℕ) (ops : List Op) (op : Op) → IsSynced (apply (run (create_wal per_op id) ops) op)
per_op-IsSynced id ops op =
    IsSynced-step id (spec_run per_op no_log ops) (run (create_wal per_op id) ops) op
      (create-run-Represents id per_op ops)

durable_step :
    (ops : List Op) (op : Op)
    → (spec_step per_op (spec_run per_op no_log ops) op).durable ≡ logged ops ++ logged (op ∷ [])
unfolding spec_step
durable_step ops (log e) = ap (λ t. t ++ e ∷ []) (per_op-durable ops no_log)
durable_step ops flush = per_op-durable ops no_log ∙ sym (append-nil (logged ops))
durable_step ops shut = per_op-durable ops no_log ∙ sym (append-nil (logged ops))

-- With the per-operation strategy what is on disk after any call reads back as every entry logged
-- so far, in order, if the id and these entries are in range.
pub read_file-per_op :
    (id : ℕ) (ops : List Op) (op : Op)
    → IsU64 id
    → All IsSegmentEntry (segments (logged ops ++ logged (op ∷ [])))
    → read_file (on_disk (apply (run (create_wal per_op id) ops) op))
      ≡ some (segments (logged ops ++ logged (op ∷ [])))
unfolding IsSynced
read_file-per_op id ops op hi h =
    let before = create-run-Represents id per_op ops in
    ap read_file (
      per_op-IsSynced id ops op
      ∙ written_lem id per_op (apply (run (create_wal per_op id) ops) op)
          (spec_step per_op (spec_run per_op no_log ops) op) refl
          (apply-Represents id per_op (run (create_wal per_op id) ops) (spec_run per_op no_log ops)
            op before)
      ∙ ap (λ es. to_bytes (new_header id) ++ frames (segments es)) (durable_step ops op))
    ∙ read_file-whole id (segments (logged ops ++ logged (op ∷ []))) hi h
