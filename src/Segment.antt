-- ===== src/Segment.antt =====
-- crates/metadata/src/segment/mod.rs: headers and records of a segment file. Reader, writer,
-- replay and compaction are in the modules below.
pub mod Payload
pub mod Reader
pub mod Fuel
pub mod Writer
pub mod Crash
pub mod Replay
pub mod Compaction
use slicefs.Base.{
  ℕ, ◌+◌, Bool, true, false, not, Option, none, some, List, [], ◌∷◌, ◌++◌, length, slice, take,
  drop, leb, ltb, ◌==◌, if◌then◌else◌,
}
use slicefs.Base.Words.{Bytes, le_bytes, from_le}
use slicefs.Base.Keys.{lex_same}
use slicefs.Base.Utf8.{is_utf8}
use slicefs.Digest.{Digest224, digest_bytes, parse_digest224}
use slicefs.Records.{u32_at, u64_at, digest_at}
use slicefs.Snapshot.{SnapshotEntry}

-- "SLSG"
abbrev pub segment_magic : Bytes
segment_magic = 0x53 ∷ 0x4c ∷ 0x53 ∷ 0x47 ∷ []

abbrev pub segment_version : ℕ
segment_version = 1

pub data RecordType : Type 0 where
  root_update snapshot_record eof_marker : RecordType

-- `RecordType::from_u8`
unfoldable pub from_u8 : ℕ → Option RecordType
from_u8 v =
    if v == 0x01
    then none
    else if v == 0x02
    then some root_update
    else if v == 0x03
    then some snapshot_record
    else if v == 0xff
    then some eof_marker
    else none

-- `record_type as u8`
abbrev pub type_byte : RecordType → ℕ
type_byte root_update = 0x02
type_byte snapshot_record = 0x03
type_byte eof_marker = 0xff

pub record SegmentHeader : Type 0 where
  pub magic : Bytes
  pub version : ℕ
  pub segment_id : ℕ

abbrev pub new_header : ℕ → SegmentHeader
new_header segment_id = record {
  magic = segment_magic;
  version = segment_version;
  segment_id = segment_id;
}

unfoldable pub to_bytes : SegmentHeader → Bytes
to_bytes h = h.magic ++ (le_bytes 4 h.version ++ le_bytes 8 h.segment_id)

-- `SegmentHeader::from_bytes` of 16 bytes.
unfoldable pub from_bytes : Bytes → Option SegmentHeader
from_bytes buf =
    let magic = slice 0 4 buf in
    let version = u32_at 4 buf in
    if not (lex_same magic segment_magic)
    then none
    else if not (version == segment_version)
    then none
    else some (record { magic = magic; version = version; segment_id = u64_at 8 buf })

pub data SegmentEntry : Type 0 where
  root_entry : Digest224 → SegmentEntry
  snapshot_entry : ℕ → Digest224 → ℕ → Option Bytes → SegmentEntry

abbrev pub record_type : SegmentEntry → RecordType
record_type (root_entry root) = root_update
record_type (snapshot_entry version root created_at name) = snapshot_record

-- `name.as_deref().unwrap_or("")`
abbrev pub name_or_empty : Option Bytes → Bytes
name_or_empty none = []
name_or_empty (some name) = name

unfoldable pub payload_bytes : SegmentEntry → Bytes
payload_bytes (root_entry root) = digest_bytes root
payload_bytes (snapshot_entry version root created_at name) =
    le_bytes 8 version
    ++ (digest_bytes root
        ++ (le_bytes 8 created_at
            ++ (le_bytes 4 (length (name_or_empty name)) ++ name_or_empty name)))

unfoldable pub parse_root_update : Bytes → Option SegmentEntry
parse_root_update payload =
    if ltb (length payload) 28 then none else some (root_entry (digest_at 0 payload))

-- The name of `name_len` bytes, if it is UTF-8.
unfoldable pub parse_name : ℕ → Bytes → Option (Option Bytes)
parse_name name_len payload =
    let name = slice 48 (48 + name_len) payload in
    if name_len == 0 then some none else if is_utf8 name then some (some name) else none

unfoldable pub parse_snapshot_record : Bytes → Option SegmentEntry
unfolding parse_name
parse_snapshot_record payload =
    let name_len = u32_at 44 payload in
    if ltb (length payload) 48
    then none
    else if ltb (length payload) (48 + name_len)
    then none
    else elim (parse_name name_len payload) [
      | none ↦ none
      | some name ↦
          some (snapshot_entry (u64_at 0 payload) (digest_at 8 payload) (u64_at 36 payload) name)
    ]

abbrev pub as_snapshot_entry : SegmentEntry → Option SnapshotEntry
as_snapshot_entry (root_entry root) = none
as_snapshot_entry (snapshot_entry version root created_at name) =
    some (record { version = version; name = name; root = root; created_at = created_at })
