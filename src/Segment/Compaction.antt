-- ===== src/Segment/Compaction.antt =====
-- crates/metadata/src/segment/compaction.rs: rewriting one segment file under a new id. The
-- temporary file and the rename are one step: the result is the content under the final name.
use slicefs.Base.{
  ℕ, ◌+◌, ◌≡◌, refl, sym, ap, ◌∙◌, Option, none, some, List, [], ◌∷◌, ◌++◌, append_assoc,
  append-nil, length, All, arith,
}
use slicefs.Base.Words.{Bytes, IsU64}
use slicefs.Segment.{SegmentEntry, root_entry, snapshot_entry, new_header, to_bytes}
use slicefs.Segment.Payload.{IsSegmentEntry}
use slicefs.Segment.Reader.{open_reader, read_all}
use slicefs.Segment.Writer.{SegmentWriter, new, write_entry, close, frame, frames, eof_bytes}
use slicefs.Segment.Crash.{read_file, read_file-closed}

pub record CompactionResult : Type 0 where
  pub entries_kept : ℕ
  pub entries_removed : ℕ

abbrev default : CompactionResult
default = record { entries_kept = 0; entries_removed = 0 }

-- The loop over the entries that were read: both kinds are kept.
unfoldable pub keep_all :
    List SegmentEntry → SegmentWriter → CompactionResult → SegmentWriter × CompactionResult
keep_all [] writer result = (writer, result)
keep_all (root_entry root ∷ es) writer result =
    keep_all es (write_entry writer (root_entry root))
      (record result { entries_kept = result.entries_kept + 1 })
keep_all (snapshot_entry version root created_at name ∷ es) writer result =
    keep_all es (write_entry writer (snapshot_entry version root created_at name))
      (record result { entries_kept = result.entries_kept + 1 })

-- `compact_segment`: nothing where the input cannot be opened, and otherwise the new file.
unfoldable pub compact_segment : Bytes → ℕ → Option (Bytes × CompactionResult)
unfolding keep_all
compact_segment segment output_segment_id = elim (open_reader segment) [
  | none ↦ none
  | some reader ↦
      let (writer, result) = keep_all (read_all reader) (new output_segment_id) default in
      some (close writer, result)
]

abbrev wrote : SegmentWriter → List SegmentEntry → SegmentWriter
wrote w es = record w { buffered = w.buffered ++ frames es }

wrote-write_entry :
    (e : SegmentEntry) (es : List SegmentEntry) (w : SegmentWriter)
    → wrote (write_entry w e) es ≡ wrote w (e ∷ es)
unfolding write_entry frames
wrote-write_entry e es w =
    λ i. record w { buffered = append_assoc w.buffered (frame e) (frames es) i }

keep_all-wrote :
    (es : List SegmentEntry) (w : SegmentWriter) (r : CompactionResult)
    → (keep_all es w r).0 ≡ wrote w es
unfolding keep_all frames
keep_all-wrote [] w r = λ i. record w { buffered = sym (append-nil w.buffered) i }
keep_all-wrote (root_entry root ∷ es) w r =
    keep_all-wrote es (write_entry w (root_entry root)) _ ∙ wrote-write_entry (root_entry root) es w
keep_all-wrote (snapshot_entry v root c name ∷ es) w r =
    keep_all-wrote es (write_entry w (snapshot_entry v root c name)) _
    ∙ wrote-write_entry (snapshot_entry v root c name) es w

keep_all_kept :
    (es : List SegmentEntry) (w : SegmentWriter) (r : CompactionResult)
    → (keep_all es w r).1.entries_kept ≡ r.entries_kept + length es
unfolding keep_all
keep_all_kept [] w r = omega arith
keep_all_kept (root_entry root ∷ es) w r = omega (
  arith,
  keep_all_kept es (write_entry w (root_entry root))
      (record r { entries_kept = r.entries_kept + 1 }),
)
keep_all_kept (snapshot_entry v root c name ∷ es) w r = omega (
  arith,
  keep_all_kept es (write_entry w (snapshot_entry v root c name))
      (record r { entries_kept = r.entries_kept + 1 }),
)

keep_all_removed :
    (es : List SegmentEntry) (w : SegmentWriter) (r : CompactionResult)
    → (keep_all es w r).1.entries_removed ≡ r.entries_removed
unfolding keep_all
keep_all_removed [] w r = refl
keep_all_removed (root_entry root ∷ es) w r = keep_all_removed es _ _
keep_all_removed (snapshot_entry v root c name ∷ es) w r = keep_all_removed es _ _

abbrev kept_all : List SegmentEntry → CompactionResult
kept_all es = record { entries_kept = length es; entries_removed = 0 }

-- A loop that starts with nothing kept.
keep_all_fresh :
    (es : List SegmentEntry) (w : SegmentWriter)
    → keep_all es w default ≡ (wrote w es, record { entries_kept = length es; entries_removed = 0 })
keep_all_fresh es w = λ i. (
  keep_all-wrote es w default i,
  record { entries_kept = kept i; entries_removed = keep_all_removed es w default i },
)
  where
    kept : (keep_all es w default).1.entries_kept ≡ length es
    kept = omega (arith, keep_all_kept es w default)

close-wrote :
    (id : ℕ) (es : List SegmentEntry)
    → close (wrote (new id) es) ≡ to_bytes (new_header id) ++ (frames es ++ (eof_bytes ++ []))
unfolding close new
close-wrote id es =
    append-nil ((to_bytes (new_header id) ++ frames es) ++ eof_bytes)
    ∙ append_assoc (to_bytes (new_header id)) (frames es) eof_bytes
    ∙ ap (λ t. to_bytes (new_header id) ++ (frames es ++ t)) (sym (append-nil eof_bytes))

compact_segment_opened :
    (o : Option Bytes) (id : ℕ) (es : List SegmentEntry)
    → (elim o as (λ _. Option (List SegmentEntry)) [
      | none ↦ none
      | some reader ↦ some (read_all reader)
    ])
      ≡ some es
    → (elim o as (λ _. Option (Bytes × CompactionResult)) [
      | none ↦ none
      | some reader ↦
          let (writer, result) = keep_all (read_all reader) (new id) default in
          some (close writer, result)
    ])
      ≡ some (close (wrote (new id) es), kept_all es)
compact_segment_opened none id es h = cc
compact_segment_opened (some reader) id es h =
    ap (λ (p : SegmentWriter × CompactionResult). some (close p.0, p.1))
      (keep_all_fresh (read_all reader) (new id))
    ∙ ap (λ xs. some (close (wrote (new id) xs), kept_all xs)) (some_injective h)
  where
    some_injective : {xs ys : List SegmentEntry} → some xs ≡ some ys → xs ≡ ys
    some_injective e = cc

-- Compacting a file that reads as some entries in range yields a file under a new id of 64 bits
-- that reads as the same entries, all counted as kept and none as removed.
pub read_file-compact_segment :
    (segment : Bytes) (id : ℕ) (es : List SegmentEntry)
    → IsU64 id
    → All IsSegmentEntry es
    → read_file segment ≡ some es
    → (out : Bytes) × (compact_segment segment id
        ≡ some (out, record { entries_kept = length es; entries_removed = 0 }))
      × (read_file out ≡ some es)
unfolding compact_segment
read_file-compact_segment segment id es hi h e = (
  close (wrote (new id) es),
  compact_segment_opened (open_reader segment) id es (unfold read_file in e),
  ap read_file (close-wrote id es) ∙ read_file-closed id es [] hi h,
)
