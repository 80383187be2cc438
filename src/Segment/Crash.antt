-- ===== src/Segment/Crash.antt =====
-- Reading a segment file that a crash has cut short.
use slicefs.Base.{
  ℕ, zero, suc, ◌+◌, ◌-◌, ◌≤◌, ◌<◌, ◌≡◌, refl, ap, ◌∙◌, false, Bool-cases, inl, inr, Option, none,
  some, List, [], ◌∷◌, ◌++◌, append-nil, length, take, length-take, take-append_le, take-append_ge,
  All, arith, leb, leb→le, if◌then◌else◌,
}
use slicefs.Base.Words.{Bytes, IsU64, le_bytes, from_le, from_le-le_bytes}
use slicefs.Segment.{SegmentEntry, payload_bytes, record_type, type_byte, new_header, to_bytes}
use slicefs.Segment.Payload.{IsSegmentEntry, length-payload_bytes}
use slicefs.Segment.Reader.{
  stop, round, read_all, collect, open_reader, read_exact_lem, read_exact_short, round_short,
  round_cut,
}
use slicefs.Segment.Fuel.{read_all_stop, read_all_entry}
use slicefs.Segment.Writer.{
  frame, frames, round-frame, open_reader-header, length-to_bytes, eof_bytes, read_all-frames,
  read_all-eof,
}

-- How many of the entries lie whole within the first `n` bytes of their frames.
abbrev pub whole_records : ℕ → List SegmentEntry → ℕ
whole_records n [] = 0
whole_records n (e ∷ es) =
    let more = whole_records (n - length (frame e)) es in
    if leb (length (frame e)) n then suc more else 0

module _ (e : SegmentEntry) (h : IsSegmentEntry e) where
  len_bytes : Bytes
  len_bytes = le_bytes 4 (length (payload_bytes e))

  -- The payload is cut after `k` bytes.
  cut_payload :
      (k : ℕ)
      → k < length (payload_bytes e)
      → round (type_byte (record_type e) ∷ (len_bytes ++ take k (payload_bytes e))) ≡ stop
  unfolding len_bytes
  cut_payload k lt =
      round_cut e (len_bytes ++ take k (payload_bytes e)) len_bytes (take k (payload_bytes e))
        (read_exact_lem len_bytes (take k (payload_bytes e)) 4 refl)
        (read_exact_short (take k (payload_bytes e)) (from_le len_bytes) (
          omega (
            arith,
            lt,
            length-take k (payload_bytes e),
            from_le-le_bytes 4 (length (payload_bytes e)) (length-payload_bytes e h),
          )))

  cut_body :
      (m : ℕ)
      → m < 4 + length (payload_bytes e)
      → round (type_byte (record_type e) ∷ take m (len_bytes ++ payload_bytes e)) ≡ stop
  unfolding len_bytes
  cut_body m lt = elim (Bool-cases (leb 4 m)) [
    | inl long ↦
        rw (take-append_ge m len_bytes (payload_bytes e) (leb→le 4 m long))
          (cut_payload (m - 4) (omega (arith, lt, leb→le 4 m long)))
    | inr short ↦
        round_short (type_byte (record_type e)) (take m (len_bytes ++ payload_bytes e))
          (read_exact_short (take m (len_bytes ++ payload_bytes e)) 4 (cut_short m short))
  ]
    where
      cut_short : (m : ℕ) → leb 4 m ≡ false → length (take m (len_bytes ++ payload_bytes e)) < 4
      cut_short m short =
          let lt4 : m < 4 = ground arith in
          omega (arith, length-take m (len_bytes ++ payload_bytes e), lt4)

  -- A frame that is cut anywhere ends the iteration.
  round-take-frame : (n : ℕ) → n < length (frame e) → round (take n (frame e)) ≡ stop
  unfolding frame len_bytes round
  round-take-frame zero lt = refl
  round-take-frame (suc m) lt = cut_body m (omega arith)

lt_of_cut : (a n : ℕ) → leb a n ≡ false → n < a
lt_of_cut a n h = ground arith

le_of_cut : (a n : ℕ) → leb a n ≡ false → n ≤ a
le_of_cut a n h = ground arith

-- Of the frames of entries, cut after any number of bytes, the reader returns the entries that
-- are there whole, in their order, and nothing else.
pub read_all-take :
    (es : List SegmentEntry) (n : ℕ)
    → All IsSegmentEntry es
    → read_all (take n (frames es)) ≡ take (whole_records n es) es
unfolding frames
read_all-take [] zero h = unfold read_all collect in refl
read_all-take [] (suc n) h = unfold read_all collect in refl
read_all-take (e ∷ es) n h = elim (Bool-cases (leb (length (frame e)) n)) [
  | inl fits ↦
      rw (fits, take-append_ge n (frame e) (frames es) (leb→le _ n fits))
        (read_all_entry (frame e ++ take (n - length (frame e)) (frames es))
            (take (n - length (frame e)) (frames es)) e
            (round-frame e (take (n - length (frame e)) (frames es)) h.0)
          ∙ ap (λ xs. e ∷ xs) (read_all-take es (n - length (frame e)) h.1))
  | inr cut ↦
      rw (cut, take-append_le n (frame e) (frames es) (le_of_cut (length (frame e)) n cut))
        (read_all_stop (take n (frame e))
          (round-take-frame e h.0 n (lt_of_cut (length (frame e)) n cut)))
]

-- `SegmentReader::open` and `collect`; `none` is an invalid header.
unfoldable pub read_file : Bytes → Option (List SegmentEntry)
read_file file = elim (open_reader file) [ none ↦ none | some reader ↦ some (read_all reader) ]

pub read_file-header :
    (id : ℕ) (rest : Bytes)
    → IsU64 id
    → read_file (to_bytes (new_header id) ++ rest) ≡ some (read_all rest)
unfolding read_file
read_file-header id rest h = rw (open_reader-header id rest h, read_file)

-- A segment file cut anywhere behind its header opens and gives exactly the entries that are whole
-- within it, if the id and the entries are in range.
pub read_file-take :
    (id : ℕ) (es : List SegmentEntry) (n : ℕ)
    → IsU64 id
    → All IsSegmentEntry es
    → 16 ≤ n
    → read_file (take n (to_bytes (new_header id) ++ frames es))
      ≡ some (take (whole_records (n - 16) es) es)
read_file-take id es n hi h le =
    rw
      (
        take-append_ge n (to_bytes (new_header id)) (frames es)
            (omega (arith, le, length-to_bytes id)),
        length-to_bytes id,
      )
      (read_file-header id (take (n - 16) (frames es)) hi ∙ ap some (read_all-take es (n - 16) h))

-- A closed segment file gives all its entries, whatever follows its end marker, if the id and the
-- entries are in range.
pub read_file-closed :
    (id : ℕ) (es : List SegmentEntry) (junk : Bytes)
    → IsU64 id
    → All IsSegmentEntry es
    → read_file (to_bytes (new_header id) ++ (frames es ++ (eof_bytes ++ junk))) ≡ some es
read_file-closed id es junk hi h =
    read_file-header id (frames es ++ (eof_bytes ++ junk)) hi
    ∙ ap some (read_all-frames es (eof_bytes ++ junk) h ∙ rw (read_all-eof junk) (append-nil es))
