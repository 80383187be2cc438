-- ===== src/Cas/DedupIndex/Saved.antt =====
-- crates/cas-local/src/mem_dedup_index.rs: the saved form of a dedup index. The set is written in
-- key order; the program's order is that of its hash set, and reading does not depend on it.
use slicefs.Base.{
  ℕ, zero, suc, ◌≡◌, refl, sym, ap, ◌∙◌, true, [], ◌∷◌, ◌++◌, append_assoc, append-nil, length, All,
  ltb, if◌then◌else◌,
}
use slicefs.Base.Words.{Bytes, IsU32, IsU64, le_bytes, from_le, from_le-le_bytes}
use slicefs.Base.Keys.{lex_key}
use slicefs.Base.Results.{Result, ok, ok_or, ◌>>=◌}
use slicefs.Base.Map
use slicefs.Base.Map.{Map, IsSorted, insert_all, insert_all_lem}
use slicefs.Counted.{counted}
use slicefs.Segment.Reader.{read_exact_or_none, read_exact_lem}
use slicefs.Cas.{ChunkHash, CasError, io}
use slicefs.Cas.DedupIndex.{Bloom, MemDedupIndex, Admits}

-- The hashes, each behind its length.
unfoldable pub hashes_bytes : Map ChunkHash (Unit {0}) → Bytes
hashes_bytes [] = []
hashes_bytes ((h, u) ∷ known) = counted h ++ hashes_bytes known

-- `reader.read_exact(..).map_err(CasError::Io)`: what was read, and the reader behind it.
abbrev pub read_exact : Bytes → ℕ → Result CasError (Bytes × Bytes)
read_exact reader n = ok_or (read_exact_or_none reader n) io

abbrev pub max : ℕ → ℕ → ℕ
max a b = if ltb a b then b else a

module _ ⦃b : Bloom⦄ where
  open b use {
    Filter, with_capacity, insert_bits, contains, contains-insert_self, contains-insert_keep,
  }

  -- `save_to_writer`, which has no header
  unfoldable pub save_to_writer : MemDedupIndex → Bytes
  save_to_writer i = le_bytes 8 (length i.known) ++ hashes_bytes i.known

  unfoldable pub save_to_writer_with_header : MemDedupIndex → Bytes
  save_to_writer_with_header i =
      le_bytes 8 i.expected_items
      ++ (le_bytes 8 i.false_positive_rate ++ (le_bytes 8 (length i.known) ++ hashes_bytes i.known))

  -- `for _ in 0..count`
  unfoldable pub load_hashes :
      ℕ
      → Bytes
      → Filter
      → Map ChunkHash (Unit {0})
      → Result CasError (Filter × Map ChunkHash (Unit {0}))
  load_hashes zero reader bloom known = ok (bloom, known)
  load_hashes (suc n) reader bloom known = do
    (len_buf, reader) ← read_exact reader 4
    (hash, reader) ← read_exact reader (from_le len_buf)
    load_hashes n reader (insert_bits bloom hash) (Map.insert hash tt known)

  unfoldable pub load_from_reader : Bytes → Result CasError MemDedupIndex
  load_from_reader reader = do
    (items_buf, reader) ← read_exact reader 8
    (rate_buf, reader) ← read_exact reader 8
    (count_buf, reader) ← read_exact reader 8
    let bloom =
        with_capacity (from_le rate_buf) (max (max (from_le items_buf) (from_le count_buf)) 1)
    (bloom, known) ← load_hashes (from_le count_buf) reader bloom []
    ok (record {
      bloom = bloom;
      known = known;
      expected_items = from_le items_buf;
      false_positive_rate = from_le rate_buf;
    })

  abbrev insert_bits_all : Map ChunkHash (Unit {0}) → Filter → Filter
  insert_bits_all [] f = f
  insert_bits_all ((h, u) ∷ es) f = insert_bits_all es (insert_bits f h)

  admitted :
      (es : Map ChunkHash (Unit {0})) (f : Filter) (x : Bytes)
      → contains f x ≡ true
      → contains (insert_bits_all es f) x ≡ true
  admitted [] f x h = h
  admitted ((k, u) ∷ es) f x h = admitted es (insert_bits f k) x (contains-insert_keep f k x h)

  All-admitted :
      (es : Map ChunkHash (Unit {0})) (f : Filter)
      → All (λ (e : ChunkHash × Unit {0}). contains (insert_bits_all es f) e.0 ≡ true) es
  All-admitted [] f = tt
  All-admitted ((k, u) ∷ es) f = (
    admitted es (insert_bits f k) k (contains-insert_self f k),
    All-admitted es (insert_bits f k),
  )

  load_hashes_lem :
      (es : Map ChunkHash (Unit {0})) (rest : Bytes) (f : Filter) (m : Map ChunkHash (Unit {0}))
      → All (λ (e : ChunkHash × Unit {0}). IsU32 (length e.0)) es
      → load_hashes (length es) (hashes_bytes es ++ rest) f m
        ≡ ok (insert_bits_all es f, insert_all es m)
  unfolding load_hashes hashes_bytes insert_all
  load_hashes_lem [] rest f m h = refl
  load_hashes_lem ((k, u) ∷ es) rest f m h =
      rw
        (
          append_assoc (counted k) (hashes_bytes es) rest,
          read_exact_lem (le_bytes 4 (length k)) (k ++ (hashes_bytes es ++ rest)) 4 refl,
          from_le-le_bytes 4 (length k) h.0,
          read_exact_lem k (hashes_bytes es ++ rest) (length k) refl,
        )
        (load_hashes_lem es rest (insert_bits f k) (Map.insert k tt m) h.1)

  -- Loading an index that was saved with its header succeeds and gives the same known hashes,
  -- expected items and false positive rate, with a rebuilt filter that admits every known hash.
  -- The known hashes are in order, and their lengths, their count and the two parameters are in
  -- range.
  pub load_from_reader-save :
      (i : MemDedupIndex)
      → IsSorted i.known
      → All (λ (e : ChunkHash × Unit {0}). IsU32 (length e.0)) i.known
      → IsU64 (length i.known)
      → IsU64 i.expected_items
      → IsU64 i.false_positive_rate
      → (j : MemDedupIndex) × (load_from_reader (save_to_writer_with_header i) ≡ ok j)
        × (j.known ≡ i.known)
        × (j.expected_items ≡ i.expected_items)
        × (j.false_positive_rate ≡ i.false_positive_rate)
        × Admits j
  unfolding load_from_reader save_to_writer_with_header
  load_from_reader-save i s h hl he hr =
      let rest3 : Bytes = hashes_bytes i.known ++ [] in
      let filter =
        insert_bits_all i.known
          (with_capacity i.false_positive_rate (max (max i.expected_items (length i.known)) 1)) in
      (
        record {
          bloom = filter;
          known = i.known;
          expected_items = i.expected_items;
          false_positive_rate = i.false_positive_rate;
        },
        ap load_from_reader (
              ap
                (λ t.
                  le_bytes 8 i.expected_items
                  ++ (le_bytes 8 i.false_positive_rate ++ (le_bytes 8 (length i.known) ++ t)))
                (sym (append-nil (hashes_bytes i.known))))
            ∙ rw
                (
                  read_exact_lem (le_bytes 8 i.expected_items)
                      (le_bytes 8 i.false_positive_rate ++ (le_bytes 8 (length i.known) ++ rest3)) 8
                      refl,
                  read_exact_lem (le_bytes 8 i.false_positive_rate)
                      (le_bytes 8 (length i.known) ++ rest3) 8 refl,
                  read_exact_lem (le_bytes 8 (length i.known)) rest3 8 refl,
                  from_le-le_bytes 8 i.expected_items he,
                  from_le-le_bytes 8 i.false_positive_rate hr,
                  from_le-le_bytes 8 (length i.known) hl,
                  load_hashes_lem i.known []
                      (with_capacity i.false_positive_rate
                        (max (max i.expected_items (length i.known)) 1))
                      [] h,
                  insert_all_lem i.known [] s,
                )
                refl,
        refl,
        refl,
        refl,
        All-admitted i.known
            (with_capacity i.false_positive_rate (max (max i.expected_items (length i.known)) 1)),
      )
