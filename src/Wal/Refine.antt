-- ===== src/Wal/Refine.antt =====
-- The log that a strategy promises, and that the strategies over segment writers keep it.
use slicefs.Base.{ℕ, ◌≡◌, refl, sym, ap, ◌∙◌, List, [], ◌∷◌, ◌++◌, map, append_assoc, append-nil}
use mathlib.Core.Path.{subst}
use mathlib.Core.List.{map-append}
use slicefs.Segment.{SegmentEntry, new_header, to_bytes}
use slicefs.Segment.Writer.{
  SegmentWriter, new, write_entry, sync, file, frame, frames, frames-append,
}
use slicefs.Wal.{
  WalEntry, WalConfig, per_op, flush_on_fsync, periodic, no_wal, Wal, per_op_wal,
  flush_on_fsync_wal, periodic_wal, no_wal_strategy, wal_entry_to_segment, create_wal, log_mutation,
  drain, flush_and_sync, shutdown, Op, log, flush, shut, apply, run,
}

-- What is in the file, and what waits in memory.
pub record Log : Type 0 where
  pub durable : List WalEntry
  pub pending : List WalEntry

abbrev pub no_log : Log
no_log = record { durable = []; pending = [] }

-- A logged entry is durable at once, or waits for the next flush, or is dropped.
unfoldable pub spec_step : WalConfig → Log → Op → Log
spec_step per_op l (log e) = record l { durable = l.durable ++ e ∷ [] }
spec_step per_op l op = l
spec_step flush_on_fsync l (log e) = record l { pending = l.pending ++ e ∷ [] }
spec_step flush_on_fsync l op = record { durable = l.durable ++ l.pending; pending = [] }
spec_step (periodic secs) l (log e) = record l { pending = l.pending ++ e ∷ [] }
spec_step (periodic secs) l op = record { durable = l.durable ++ l.pending; pending = [] }
spec_step no_wal l op = l

unfoldable pub spec_run : WalConfig → Log → List Op → Log
spec_run config l [] = l
spec_run config l (op ∷ ops) = spec_run config (spec_step config l op) ops

abbrev pub segments : List WalEntry → List SegmentEntry
segments = map wal_entry_to_segment

-- The writer's file is a header and the frames of the durable entries.
abbrev pub Holds : ℕ → SegmentWriter → List WalEntry → Type 0
Holds id w durable = file w ≡ to_bytes (new_header id) ++ frames (segments durable)

abbrev pub Represents : ℕ → WalConfig → Wal → Log → Type 0
Represents id per_op (per_op_wal w) l = Holds id w l.durable × (l.pending ≡ [])
Represents id flush_on_fsync (flush_on_fsync_wal buffer w) l =
    Holds id w l.durable × (buffer ≡ l.pending)
Represents id (periodic secs) (periodic_wal buffer w) l =
    Holds id w l.durable × (buffer ≡ l.pending)
Represents id no_wal no_wal_strategy l = (l.durable ≡ []) × (l.pending ≡ [])
Represents id config wal l = ⊥

write_entry-Holds :
    (id : ℕ) (w : SegmentWriter) (es : List WalEntry) (e : WalEntry)
    → Holds id w es
    → Holds id (write_entry w (wal_entry_to_segment e)) (es ++ e ∷ [])
unfolding write_entry frames
write_entry-Holds id w es e h =
    sym (append_assoc w.synced w.buffered (frame x))
    ∙ ap (λ t. t ++ frame x) h
    ∙ append_assoc (to_bytes (new_header id)) (frames (segments es)) (frame x)
    ∙ ap (λ t. to_bytes (new_header id) ++ t) (sym one_more)
  where
    x : SegmentEntry
    x = wal_entry_to_segment e

    one_more : frames (segments (es ++ e ∷ [])) ≡ frames (segments es) ++ frame x
    one_more =
        ap frames (map-append wal_entry_to_segment es (e ∷ []))
        ∙ frames-append (segments es) (x ∷ [])
        ∙ ap (λ t. frames (segments es) ++ t) (append-nil (frame x))

sync-Holds :
    (id : ℕ) (w : SegmentWriter) (es : List WalEntry) → Holds id w es → Holds id (sync w) es
unfolding sync
sync-Holds id w es h = append-nil (file w) ∙ h

drain-Holds :
    (id : ℕ) (buffer : List WalEntry) (w : SegmentWriter) (es : List WalEntry)
    → Holds id w es
    → Holds id (drain buffer w) (es ++ buffer)
unfolding drain
drain-Holds id [] w es h = rw append-nil h
drain-Holds id (e ∷ buffer) w es h = rw (append_assoc es (e ∷ []) buffer) at (
    drain-Holds id buffer (write_entry w (wal_entry_to_segment e)) (es ++ e ∷ [])
      (write_entry-Holds id w es e h))

flushed :
    (id : ℕ) (buffer : List WalEntry) (w : SegmentWriter) (l : Log)
    → Holds id w l.durable × (buffer ≡ l.pending)
    → Holds id (sync (drain buffer w)) (l.durable ++ l.pending) × (◌≡◌ {A = List WalEntry} [] [])
flushed id buffer w l h = (
  sync-Holds id (drain buffer w) (l.durable ++ l.pending) (
      subst (λ p. Holds id (drain buffer w) (l.durable ++ p)) h.1
        (drain-Holds id buffer w l.durable h.0)),
  refl,
)

-- Every call on a log that keeps a specification leaves one that keeps the next.
pub apply-Represents :
    (id : ℕ) (config : WalConfig) (wal : Wal) (l : Log) (op : Op)
    → Represents id config wal l
    → Represents id config (apply wal op) (spec_step config l op)
unfolding apply spec_step log_mutation flush_and_sync shutdown
apply-Represents id per_op (per_op_wal w) l (log e) h = (
  sync-Holds id (write_entry w (wal_entry_to_segment e)) (l.durable ++ e ∷ [])
      (write_entry-Holds id w l.durable e h.0),
  h.1,
)
apply-Represents id per_op (per_op_wal w) l flush h = (sync-Holds id w l.durable h.0, h.1)
apply-Represents id per_op (per_op_wal w) l shut h = (sync-Holds id w l.durable h.0, h.1)
apply-Represents id per_op (flush_on_fsync_wal buffer w) l op h = absurd h
apply-Represents id per_op (periodic_wal buffer w) l op h = absurd h
apply-Represents id per_op no_wal_strategy l op h = absurd h
apply-Represents id flush_on_fsync (per_op_wal w) l op h = absurd h
apply-Represents id flush_on_fsync (flush_on_fsync_wal buffer w) l (log e) h =
    (h.0, ap (λ b. b ++ e ∷ []) h.1)
apply-Represents id flush_on_fsync (flush_on_fsync_wal buffer w) l flush h = flushed id buffer w l h
apply-Represents id flush_on_fsync (flush_on_fsync_wal buffer w) l shut h = flushed id buffer w l h
apply-Represents id flush_on_fsync (periodic_wal buffer w) l op h = absurd h
apply-Represents id flush_on_fsync no_wal_strategy l op h = absurd h
apply-Represents id (periodic secs) (per_op_wal w) l op h = absurd h
apply-Represents id (periodic secs) (flush_on_fsync_wal buffer w) l op h = absurd h
apply-Represents id (periodic secs) (periodic_wal buffer w) l (log e) h =
    (h.0, ap (λ b. b ++ e ∷ []) h.1)
apply-Represents id (periodic secs) (periodic_wal buffer w) l flush h = flushed id buffer w l h
apply-Represents id (periodic secs) (periodic_wal buffer w) l shut h = flushed id buffer w l h
apply-Represents id (periodic secs) no_wal_strategy l op h = absurd h
apply-Represents id no_wal (per_op_wal w) l op h = absurd h
apply-Represents id no_wal (flush_on_fsync_wal buffer w) l op h = absurd h
apply-Represents id no_wal (periodic_wal buffer w) l op h = absurd h
apply-Represents id no_wal no_wal_strategy l (log e) h = h
apply-Represents id no_wal no_wal_strategy l flush h = h
apply-Represents id no_wal no_wal_strategy l shut h = h

create_wal-Represents :
    (id : ℕ) (config : WalConfig) → Represents id config (create_wal config id) no_log
unfolding create_wal new frames
create_wal-Represents id per_op = (sym (append-nil _), refl)
create_wal-Represents id flush_on_fsync = (sym (append-nil _), refl)
create_wal-Represents id (periodic secs) = (sym (append-nil _), refl)
create_wal-Represents id no_wal = (refl, refl)

run-Represents :
    (id : ℕ) (config : WalConfig) (ops : List Op) (wal : Wal) (l : Log)
    → Represents id config wal l
    → Represents id config (run wal ops) (spec_run config l ops)
unfolding run spec_run
run-Represents id config [] wal l h = h
run-Represents id config (op ∷ ops) wal l h =
    run-Represents id config ops (apply wal op) (spec_step config l op)
      (apply-Represents id config wal l op h)

-- From its creation on, under any calls, a log of any strategy keeps what the strategy promises:
-- its file is the header and the frames of the durable entries, its buffer holds the pending ones.
pub create-run-Represents :
    (id : ℕ) (config : WalConfig) (ops : List Op)
    → Represents id config (run (create_wal config id) ops) (spec_run config no_log ops)
create-run-Represents id config ops =
    run-Represents id config ops (create_wal config id) no_log (create_wal-Represents id config)
