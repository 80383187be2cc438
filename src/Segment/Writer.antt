-- ===== src/Segment/Writer.antt =====
-- crates/metadata/src/segment/writer.rs: the append-only writer, and reading back what it wrote.
-- Calls of the operating system succeed in the model: a write error ends the run of the program.
use slicefs.Base.{ℕ, ◌≡◌, refl, sym, ap, ◌∙◌, some, List, [], ◌∷◌, ◌++◌, append_assoc, length, All}
use slicefs.Base.Words.{Bytes, IsU64, le_bytes, from_le, from_le-le_bytes}
use slicefs.Segment.{
  SegmentEntry, record_type, type_byte, new_header, to_bytes, payload_bytes, eof_marker,
}
use slicefs.Segment.Payload.{
  IsSegmentEntry, parser-payload_bytes, length-payload_bytes, from_bytes-to_bytes,
}
use slicefs.Segment.Reader.{
  open_reader, round, entry, read_all, read_exact_lem, open_reader_lem, round_whole, round_eof,
}
use slicefs.Segment.Fuel.{read_all_stop, read_all_entry}

-- The bytes that `sync` has put on disk, and those in the buffer.
pub record SegmentWriter : Type 0 where
  pub synced : Bytes
  pub buffered : Bytes

-- The file, once everything has arrived there.
abbrev pub file : SegmentWriter → Bytes
file w = w.synced ++ w.buffered

-- `SegmentWriter::new`
unfoldable pub new : ℕ → SegmentWriter
new segment_id = record { synced = []; buffered = to_bytes (new_header segment_id) }

-- What `write_entry` appends: type, length, payload. `payload.len() as u32` keeps 32 bits.
unfoldable pub frame : SegmentEntry → Bytes
frame e = type_byte (record_type e) ∷ (le_bytes 4 (length (payload_bytes e)) ++ payload_bytes e)

unfoldable pub write_entry : SegmentWriter → SegmentEntry → SegmentWriter
write_entry w e = record w { buffered = w.buffered ++ frame e }

unfoldable pub sync : SegmentWriter → SegmentWriter
sync w = record { synced = w.synced ++ w.buffered; buffered = [] }

abbrev pub eof_bytes : Bytes
eof_bytes = type_byte eof_marker ∷ le_bytes 4 0

-- The writer is consumed; what stays is the synced file.
unfoldable pub close : SegmentWriter → Bytes
unfolding sync
close w = file (sync (record w { buffered = w.buffered ++ eof_bytes }))

unfoldable pub frames : List SegmentEntry → Bytes
frames [] = []
frames (e ∷ es) = frame e ++ frames es

pub frames-append : (xs ys : List SegmentEntry) → frames (xs ++ ys) ≡ frames xs ++ frames ys
unfolding frames
frames-append [] ys = refl
frames-append (x ∷ xs) ys =
    ap (λ t. frame x ++ t) (frames-append xs ys)
    ∙ sym (append_assoc (frame x) (frames xs) (frames ys))

pub round-frame :
    (e : SegmentEntry) (rest : Bytes) → IsSegmentEntry e → round (frame e ++ rest) ≡ entry e rest
unfolding frame
round-frame e rest h =
    round_whole e ((le_bytes 4 (length (payload_bytes e)) ++ payload_bytes e) ++ rest)
      (le_bytes 4 (length (payload_bytes e))) (payload_bytes e ++ rest) (payload_bytes e) rest
      (read_exact_lem (le_bytes 4 (length (payload_bytes e))) (payload_bytes e ++ rest) 4 refl)
      (read_exact_lem (payload_bytes e) rest (from_le (le_bytes 4 (length (payload_bytes e))))
        (sym (from_le-le_bytes 4 (length (payload_bytes e)) (length-payload_bytes e h))))
      (parser-payload_bytes e h)

-- Reading frames gives their entries, and then what the rest gives.
pub read_all-frames :
    (es : List SegmentEntry) (rest : Bytes)
    → All IsSegmentEntry es
    → read_all (frames es ++ rest) ≡ es ++ read_all rest
unfolding frames
read_all-frames [] rest h = refl
read_all-frames (e ∷ es) rest h =
    ap read_all (append_assoc (frame e) (frames es) rest)
    ∙ read_all_entry (frame e ++ (frames es ++ rest)) (frames es ++ rest) e
        (round-frame e (frames es ++ rest) h.0)
    ∙ ap (λ xs. e ∷ xs) (read_all-frames es rest h.1)

-- At the marker reading stops, whatever follows it.
pub read_all-eof : (rest : Bytes) → read_all (eof_bytes ++ rest) ≡ []
read_all-eof rest = read_all_stop (eof_bytes ++ rest) (
    round_eof (le_bytes 4 0 ++ rest) (le_bytes 4 0) rest
      (read_exact_lem (le_bytes 4 0) rest 4 refl))

pub length-to_bytes : (id : ℕ) → length (to_bytes (new_header id)) ≡ 16
unfolding to_bytes
length-to_bytes id = refl

-- The header that a writer of segment `id` writes opens.
pub open_reader-header :
    (id : ℕ) (rest : Bytes) → IsU64 id → open_reader (to_bytes (new_header id) ++ rest) ≡ some rest
open_reader-header id rest h =
    open_reader_lem (to_bytes (new_header id) ++ rest) (to_bytes (new_header id)) rest
      (new_header id) (read_exact_lem (to_bytes (new_header id)) rest 16 (length-to_bytes id))
      (from_bytes-to_bytes id h)
