-- ===== src/Segment/Reader.antt =====
-- crates/metadata/src/segment/reader.rs: the crash-tolerant reader. A reader is the list of the
-- bytes that it has not read; a file is the list of its bytes.
use slicefs.Base.{
  ℕ, zero, suc, ◌+◌, ◌≤◌, ◌≡◌, refl, ◌∙◌, Option, none, some, List, [], ◌∷◌, ◌++◌, length, take,
  drop, leb, ◌==◌, if◌then◌else◌, arith, length-drop, length-append, take-append_eq, drop-append_eq,
  le→leb, lt→leb_false, Bool-cases, inl, inr, ◌<◌,
}
use slicefs.Base.Words.{Bytes, from_le}
use slicefs.Segment.{
  SegmentEntry, root_entry, snapshot_entry, record_type, type_byte, RecordType, root_update,
  snapshot_record, eof_marker, SegmentHeader, from_u8, from_bytes, parse_root_update,
  parse_snapshot_record,
}

-- `read_exact_or_none`: the next `n` bytes and the rest.
unfoldable pub read_exact_or_none : Bytes → ℕ → Option (Bytes × Bytes)
read_exact_or_none reader n =
    if leb n (length reader) then some (take n reader, drop n reader) else none

-- `SegmentReader::open` of the file's bytes; `none` is the error.
unfoldable pub open_reader : Bytes → Option Bytes
open_reader file = elim (read_exact_or_none file 16) [
  | none ↦ none
  | some (header, reader) ↦ elim (from_bytes header) [ none ↦ none | some h ↦ some reader ]
]

-- How one round of the loop in `next` ends: `return None`, `continue`, or `return Some(entry)`.
pub data Round : Type 0 where
  stop : Round
  go_on : Bytes → Round
  entry : SegmentEntry → Bytes → Round

skip_payload : ℕ → Bytes → Round
skip_payload payload_len reader = elim (read_exact_or_none reader payload_len) [
  | none ↦ stop
  | some (_, rest) ↦ go_on rest
]

parse_with : (Bytes → Option SegmentEntry) → ℕ → Bytes → Round
parse_with parse payload_len reader = elim (read_exact_or_none reader payload_len) [
  | none ↦ stop
  | some (payload, rest) ↦ elim (parse payload) [ none ↦ stop | some e ↦ entry e rest ]
]

-- `match RecordType::from_u8(type_buf[0])`
by_type : Option RecordType → ℕ → Bytes → Round
by_type none payload_len reader = skip_payload payload_len reader
by_type (some eof_marker) payload_len reader = stop
by_type (some root_update) payload_len reader = parse_with parse_root_update payload_len reader
by_type (some snapshot_record) payload_len reader =
    parse_with parse_snapshot_record payload_len reader

-- What follows once type and length are known: 0x01 is the legacy record.
after_len : ℕ → ℕ → Bytes → Round
after_len type_byte payload_len rest =
    if type_byte == 0x01
    then skip_payload payload_len rest
    else by_type (from_u8 type_byte) payload_len rest

-- The body of the loop.
unfoldable pub round : Bytes → Round
unfolding skip_payload parse_with by_type after_len
round [] = stop
round (type_byte ∷ reader) = elim (read_exact_or_none reader 4) [
  | none ↦ stop
  | some (len, rest) ↦ after_len type_byte (from_le len) rest
]

-- `next`. A round that goes on takes 5 bytes at least.
unfoldable pub next : ℕ → Bytes → Option (SegmentEntry × Bytes)
next zero reader = none
next (suc fuel) reader = elim (round reader) [
  | stop ↦ none
  | go_on rest ↦ next fuel rest
  | entry e rest ↦ some (e, rest)
]

-- `reader.collect()`, or the loop over a reader.
unfoldable pub collect : ℕ → Bytes → List SegmentEntry
collect zero reader = []
collect (suc fuel) reader = elim (next (suc fuel) reader) [
  | none ↦ []
  | some (e, rest) ↦ e ∷ collect fuel rest
]

-- All entries; the length of what is left is fuel enough (`collect_fuel`).
unfoldable pub read_all : Bytes → List SegmentEntry
read_all reader = collect (length reader) reader

read_exact_shrinks :
    (reader : Bytes) (n : ℕ) {xs rest : Bytes}
    → read_exact_or_none reader n ≡ some (xs, rest)
    → length rest + n ≡ length reader
unfolding read_exact_or_none
read_exact_shrinks reader n h = ground (arith, length-drop n reader)

-- A round leaves at least five bytes fewer than it found.
abbrev pub LeavesLess : ℕ → Round → Type 0
LeavesLess n stop = Unit
LeavesLess n (go_on rest) = length rest + 5 ≤ n
LeavesLess n (entry e rest) = length rest + 5 ≤ n

skip_payload_shrinks :
    (len n : ℕ) (reader : Bytes) → length reader + 5 ≤ n → LeavesLess n (skip_payload len reader)
unfolding skip_payload
skip_payload_shrinks len n reader h = go (read_exact_or_none reader len) refl
  where
    go :
        (o : Option (Bytes × Bytes))
        → read_exact_or_none reader len ≡ o
        → LeavesLess n (elim o [ none ↦ stop | some (_, rest) ↦ go_on rest ])
    go none e = tt
    go (some (xs, rest)) e = omega (arith, read_exact_shrinks reader len e, h)

parse_with_shrinks :
    (parse : Bytes → Option SegmentEntry) (len n : ℕ) (reader : Bytes)
    → length reader + 5 ≤ n
    → LeavesLess n (parse_with parse len reader)
unfolding parse_with
parse_with_shrinks parse len n reader h = go (read_exact_or_none reader len) refl
  where
    inner :
        (rest : Bytes) (o : Option SegmentEntry)
        → length rest + 5 ≤ n
        → LeavesLess n (elim o [ none ↦ stop | some e ↦ entry e rest ])
    inner rest none q = tt
    inner rest (some e) q = q

    go :
        (o : Option (Bytes × Bytes))
        → read_exact_or_none reader len ≡ o
        → LeavesLess n (elim o [
          | none ↦ stop
          | some (payload, rest) ↦ elim (parse payload) [ none ↦ stop | some e ↦ entry e rest ]
        ])
    go none e = tt
    go (some (xs, rest)) e =
        inner rest (parse xs) (omega (arith, read_exact_shrinks reader len e, h))

by_type_shrinks :
    (t : Option RecordType) (len n : ℕ) (reader : Bytes)
    → length reader + 5 ≤ n
    → LeavesLess n (by_type t len reader)
unfolding by_type
by_type_shrinks none len n reader h = skip_payload_shrinks len n reader h
by_type_shrinks (some eof_marker) len n reader h = tt
by_type_shrinks (some root_update) len n reader h =
    parse_with_shrinks parse_root_update len n reader h
by_type_shrinks (some snapshot_record) len n reader h =
    parse_with_shrinks parse_snapshot_record len n reader h

after_len_shrinks :
    (t len n : ℕ) (rest : Bytes) → length rest + 5 ≤ n → LeavesLess n (after_len t len rest)
unfolding after_len
after_len_shrinks t len n rest q = elim (Bool-cases (t == 0x01)) [
  | inl y ↦ rw y (skip_payload_shrinks len n rest q)
  | inr n' ↦ rw n' (by_type_shrinks (from_u8 t) len n rest q)
]

pub round_shrinks : (reader : Bytes) → LeavesLess (length reader) (round reader)
unfolding round
round_shrinks [] = tt
round_shrinks (t ∷ reader) = go (read_exact_or_none reader 4) refl
  where
    go :
        (o : Option (Bytes × Bytes))
        → read_exact_or_none reader 4 ≡ o
        → LeavesLess
            (suc (length reader))
            (elim o [ none ↦ stop | some (len, rest) ↦ after_len t (from_le len) rest ])
    go none e = tt
    go (some (len, rest)) e =
        after_len_shrinks t (from_le len) _ rest (omega (arith, read_exact_shrinks reader 4 e))

pub read_exact_lem :
    (xs rest : Bytes) (n : ℕ) → length xs ≡ n → read_exact_or_none (xs ++ rest) n ≡ some (xs, rest)
unfolding read_exact_or_none
read_exact_lem xs rest n h =
    rw
      (
        le→leb n (length (xs ++ rest)) (omega (arith, h, length-append xs rest)),
        take-append_eq n xs rest h,
        drop-append_eq n xs rest h,
      )
      refl

pub read_exact_short :
    (reader : Bytes) (n : ℕ) → length reader < n → read_exact_or_none reader n ≡ none
unfolding read_exact_or_none
read_exact_short reader n h = rw (lt→leb_false n (length reader) h) refl

pub open_reader_lem :
    (file header rest : Bytes) (h : SegmentHeader)
    → read_exact_or_none file 16 ≡ some (header, rest)
    → from_bytes header ≡ some h
    → open_reader file ≡ some rest
unfolding open_reader
open_reader_lem file header rest h e f = rw (e, f, open_reader)

-- What `RecordType::from_u8` makes of the types that carry an entry, and the parser of each.
abbrev pub parser : SegmentEntry → Bytes → Option SegmentEntry
parser (root_entry root) = parse_root_update
parser (snapshot_entry version root created_at name) = parse_snapshot_record

parse_with_lem :
    (parse : Bytes → Option SegmentEntry) (n : ℕ) (reader payload rest : Bytes) (e : SegmentEntry)
    → read_exact_or_none reader n ≡ some (payload, rest)
    → parse payload ≡ some e
    → parse_with parse n reader ≡ entry e rest
unfolding parse_with
parse_with_lem parse n reader payload rest e p q = rw (p, q, parse_with)

parse_with_short :
    (parse : Bytes → Option SegmentEntry) (n : ℕ) (reader : Bytes)
    → read_exact_or_none reader n ≡ none
    → parse_with parse n reader ≡ stop
unfolding parse_with
parse_with_short parse n reader p = rw (p, parse_with)

round_len :
    (t : ℕ) (reader len rest : Bytes)
    → read_exact_or_none reader 4 ≡ some (len, rest)
    → round (t ∷ reader) ≡ after_len t (from_le len) rest
unfolding round
round_len t reader len rest e = rw (e, round)

pub round_short :
    (t : ℕ) (reader : Bytes) → read_exact_or_none reader 4 ≡ none → round (t ∷ reader) ≡ stop
unfolding round
round_short t reader e = rw (e, round)

after_len-parser :
    (e : SegmentEntry) (n : ℕ) (rest : Bytes)
    → after_len (type_byte (record_type e)) n rest ≡ parse_with (parser e) n rest
unfolding after_len by_type from_u8
after_len-parser (root_entry root) n rest = refl
after_len-parser (snapshot_entry version root created_at name) n rest = refl

-- A record that is there whole is returned.
pub round_whole :
    (e : SegmentEntry) (reader len rest payload rest' : Bytes)
    → read_exact_or_none reader 4 ≡ some (len, rest)
    → read_exact_or_none rest (from_le len) ≡ some (payload, rest')
    → parser e payload ≡ some e
    → round (type_byte (record_type e) ∷ reader) ≡ entry e rest'
round_whole e reader len rest payload rest' p q r =
    round_len (type_byte (record_type e)) reader len rest p
    ∙ after_len-parser e (from_le len) rest
    ∙ parse_with_lem (parser e) (from_le len) rest payload rest' e q r

-- A record whose payload is cut ends the iteration.
pub round_cut :
    (e : SegmentEntry) (reader len rest : Bytes)
    → read_exact_or_none reader 4 ≡ some (len, rest)
    → read_exact_or_none rest (from_le len) ≡ none
    → round (type_byte (record_type e) ∷ reader) ≡ stop
round_cut e reader len rest p q =
    round_len (type_byte (record_type e)) reader len rest p
    ∙ after_len-parser e (from_le len) rest
    ∙ parse_with_short (parser e) (from_le len) rest q

-- The marker ends the iteration, and a record of any other type is skipped.
pub round_eof :
    (reader len rest : Bytes)
    → read_exact_or_none reader 4 ≡ some (len, rest)
    → round (0xff ∷ reader) ≡ stop
unfolding after_len by_type from_u8
round_eof reader len rest p = round_len 0xff reader len rest p

pub round_unknown :
    (t : ℕ) (reader len rest payload rest' : Bytes)
    → from_u8 t ≡ none
    → read_exact_or_none reader 4 ≡ some (len, rest)
    → read_exact_or_none rest (from_le len) ≡ some (payload, rest')
    → round (t ∷ reader) ≡ go_on rest'
unfolding after_len by_type skip_payload
round_unknown t reader len rest payload rest' u p q =
    round_len t reader len rest p ∙ ground (arith, u, q)
