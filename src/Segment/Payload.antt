-- ===== src/Segment/Payload.antt =====
-- Headers and payloads read back.
use slicefs.Base.{
  ℕ, ◌+◌, ◌<◌, ◌^◌, ◌≡◌, refl, sym, ap, ◌∙◌, true, false, Option, none, some, [], ◌++◌, append-nil,
  length, slice, slice_lem, arith, ltb, ◌==◌,
}
use slicefs.Base.Words.{Bytes, IsU32, IsU64, le_bytes, from_le-le_bytes}
use slicefs.Base.Utf8.{is_utf8}
use slicefs.Digest.{Digest224, IsDigest, digest_bytes, parse_digest224-digest_bytes}
use slicefs.Records.{u32_at, u64_at, digest_at}
use slicefs.Segment.Reader.{parser}
use slicefs.Segment.{
  SegmentEntry, root_entry, snapshot_entry, new_header, to_bytes, from_bytes, payload_bytes,
  parse_root_update, parse_snapshot_record, parse_name, name_or_empty,
}

-- A name that a snapshot record can carry: none, or a string that is not empty.
abbrev pub IsSnapshotName : Option Bytes → Type 0
IsSnapshotName none = Unit
IsSnapshotName (some name) = (is_utf8 name ≡ true) × (0 < length name) × (length name + 48 < 2 ^ 32)

-- The ranges that the types of the fields give, and a name that the format can express.
abbrev pub IsSegmentEntry : SegmentEntry → Type 0
IsSegmentEntry (root_entry root) = IsDigest root
IsSegmentEntry (snapshot_entry version root created_at name) =
    IsU64 version × IsDigest root × IsU64 created_at × IsSnapshotName name

-- `from_bytes` accepts the header that a writer writes, and finds the segment id in it.
pub from_bytes-to_bytes :
    (id : ℕ) → IsU64 id → from_bytes (to_bytes (new_header id)) ≡ some (new_header id)
unfolding from_bytes to_bytes
from_bytes-to_bytes id h =
    λ i. some (record (new_header id) { segment_id = from_le-le_bytes 8 id h i })

parse_root_update_lem :
    (root : Digest224)
    → IsDigest root
    → parse_root_update (payload_bytes (root_entry root)) ≡ some (root_entry root)
unfolding parse_root_update payload_bytes
parse_root_update_lem root h =
    ap (λ d. some (root_entry d)) (parse_digest224-digest_bytes root [] h)

parse_snapshot_record_of :
    (payload : Bytes) (len version : ℕ) (root : Digest224) (created_at : ℕ) (name : Option Bytes)
    → ltb (length payload) 48 ≡ false
    → u32_at 44 payload ≡ len
    → ltb (length payload) (48 + len) ≡ false
    → parse_name len payload ≡ some name
    → u64_at 0 payload ≡ version
    → digest_at 8 payload ≡ root
    → u64_at 36 payload ≡ created_at
    → parse_snapshot_record payload ≡ some (snapshot_entry version root created_at name)
unfolding parse_snapshot_record
parse_snapshot_record_of payload len version root created_at name t n t' p v d c =
    rw (t, n, t', p) (λ i. some (snapshot_entry (v i) (d i) (c i) name))

parse_name_lem :
    (front : Bytes) (name : Option Bytes)
    → length front ≡ 48
    → IsSnapshotName name
    → parse_name (length (name_or_empty name)) (front ++ name_or_empty name) ≡ some name
unfolding parse_name
parse_name_lem front none h hn = refl
parse_name_lem front (some name) h hn = rw (not_empty, there, hn.0) refl
  where
    not_empty : (length name == 0) ≡ false
    not_empty = let p = hn.1 in ground arith

    there : slice 48 (48 + length name) (front ++ name) ≡ name
    there =
        ap (λ xs. slice 48 (48 + length name) (front ++ xs)) (sym (append-nil name))
        ∙ slice_lem front name [] 48 (48 + length name) h refl

name_len-IsU32 : (name : Option Bytes) → IsSnapshotName name → IsU32 (length (name_or_empty name))
name_len-IsU32 none h = omega arith
name_len-IsU32 (some name) h = omega (arith, h.2)

parse_snapshot_record_lem :
    (version : ℕ) (root : Digest224) (created_at : ℕ) (name : Option Bytes)
    → IsSegmentEntry (snapshot_entry version root created_at name)
    → parse_snapshot_record (payload_bytes (snapshot_entry version root created_at name))
      ≡ some (snapshot_entry version root created_at name)
unfolding payload_bytes
parse_snapshot_record_lem version root created_at name h =
    parse_snapshot_record_of (front ++ name_or_empty name) (length (name_or_empty name)) version
      root created_at name (ground arith)
      (from_le-le_bytes 4 (length (name_or_empty name)) (name_len-IsU32 name h.3)) (ground arith)
      (parse_name_lem front name refl h.3) (from_le-le_bytes 8 version h.0)
      (parse_digest224-digest_bytes root [] h.1) (from_le-le_bytes 8 created_at h.2)
  where
    front : Bytes
    front =
        le_bytes 8 version
        ++ (digest_bytes root
            ++ (le_bytes 8 created_at ++ le_bytes 4 (length (name_or_empty name))))

-- Every entry in range is parsed back from its payload, whether it is a root update or a snapshot.
pub parser-payload_bytes :
    (e : SegmentEntry) → IsSegmentEntry e → parser e (payload_bytes e) ≡ some e
parser-payload_bytes (root_entry root) h = parse_root_update_lem root h
parser-payload_bytes (snapshot_entry version root created_at name) h =
    parse_snapshot_record_lem version root created_at name h

-- The length field of a record holds the payload's length.
pub length-payload_bytes : (e : SegmentEntry) → IsSegmentEntry e → IsU32 (length (payload_bytes e))
unfolding payload_bytes
length-payload_bytes (root_entry root) h = omega arith
length-payload_bytes (snapshot_entry version root created_at none) h = omega arith
length-payload_bytes (snapshot_entry version root created_at (some name)) h = omega (arith, h.3.2)
