-- ===== src/Directory/RoundTrip.antt =====
-- Reading a serialized entry list back.
use slicefs.Base.{
  ℕ, ◌+◌, ◌≡◌, refl, sym, ap, ap₂, ◌∙◌, true, [], ◌∷◌, ◌++◌, append_assoc, length, length-append,
  All, arith, le→leb,
}
use slicefs.Base.Words.{Bytes, IsU32, IsU64, le_bytes}
use slicefs.Base.Utf8.{is_utf8}
use slicefs.Base.Results.{ok}
use slicefs.Base.Map
use slicefs.Base.Map.{Map, IsSorted, insert_all, insert_all_lem}
use slicefs.Digest.{Digest224, IsDigest, digest_bytes, digest_key}
use slicefs.Counted.{counted, read_counted, read_counted_lem}
use slicefs.Records.{u32_at_lem, u64_at, u64_at_lem, digest_at, digest_at_lem}
use slicefs.Directory.{
  EntryRecord, Entries, entry_bytes, entries_bytes, serialize_entry_list, read_entry, read_entries,
  deserialize_entry_list,
}

-- The record stands under its own key; key, number and name are in range.
pub record IsEntry (e : Digest224 × EntryRecord) : Type 0 where
  pub keyed : e.0 ≡ e.1.key
  pub key : IsDigest e.1.key
  pub ino : IsU64 e.1.ino
  pub name : is_utf8 e.1.name ≡ true
  pub name_len : IsU32 (length e.1.name)

module _ (pre rest : Bytes) (i : ℕ) (k : Digest224) (e : EntryRecord) (h : length pre ≡ i)
    (he : IsEntry (k, e)) where
  whole : Bytes
  whole = pre ++ (digest_bytes e.key ++ (le_bytes 8 e.ino ++ (counted e.name ++ rest)))

  size : length whole ≡ i + (28 + (8 + (4 + (length e.name + length rest))))
  unfolding whole
  size = omega (
    arith,
    h,
    length-append pre (digest_bytes e.key ++ (le_bytes 8 e.ino ++ (counted e.name ++ rest))),
    length-append e.name rest,
  )

  key_there : digest_at i whole ≡ e.key
  unfolding whole
  key_there = digest_at_lem pre (le_bytes 8 e.ino ++ (counted e.name ++ rest)) i e.key h he.key

  ino_there : u64_at (i + 28) whole ≡ e.ino
  unfolding whole
  ino_there =
      ap (u64_at (i + 28))
        (sym (append_assoc pre (digest_bytes e.key) (le_bytes 8 e.ino ++ (counted e.name ++ rest))))
      ∙ u64_at_lem (pre ++ digest_bytes e.key) (counted e.name ++ rest) (i + 28) e.ino
          (length-append pre (digest_bytes e.key) ∙ ap (λ n. n + 28) h) he.ino

  name_there : read_counted (i + 36) whole ≡ ok (e.name, i + 36 + 4 + length e.name)
  unfolding whole
  name_there =
      ap (read_counted (i + 36))
        (sym (append_assoc pre (digest_bytes e.key ++ le_bytes 8 e.ino) (counted e.name ++ rest)))
      ∙ read_counted_lem (pre ++ (digest_bytes e.key ++ le_bytes 8 e.ino)) e.name rest (i + 36)
          (length-append pre (digest_bytes e.key ++ le_bytes 8 e.ino) ∙ ap (λ n. n + 36) h)
          he.name_len

  read_entry_lem : read_entry i whole ≡ ok (e, i + 36 + 4 + length e.name)
  unfolding read_entry
  read_entry_lem =
      rw
        (
          le→leb (i + 28) (length whole) (omega (arith, size)),
          le→leb (i + 28 + 8) (length whole) (omega (arith, size)),
          key_there,
          ino_there,
          name_there,
          he.name,
        )
        refl

-- `read_entry_lem` over the bytes as the writer groups them.
read_entry-entry_bytes :
    (pre rest : Bytes) (i : ℕ) (k : Digest224) (e : EntryRecord)
    → length pre ≡ i
    → IsEntry (k, e)
    → read_entry i (pre ++ (entry_bytes e ++ rest)) ≡ ok (e, i + length (entry_bytes e))
unfolding whole
read_entry-entry_bytes pre rest i k e h he =
    read_entry_lem pre rest i k e h he ∙ ap (λ n. ok (e, n)) (omega arith)

read_entries_lem :
    (es : Entries) (pre : Bytes) (i : ℕ) (m : Entries)
    → length pre ≡ i
    → All IsEntry es
    → read_entries (length es) i (pre ++ entries_bytes es) m ≡ ok (insert_all es m)
unfolding read_entries entries_bytes insert_all
read_entries_lem [] pre i m h hs = refl
read_entries_lem ((k, e) ∷ es) pre i m h hs =
    rw (read_entry-entry_bytes pre (entries_bytes es) i k e h hs.0) (
      ap₂ (λ key bs. read_entries (length es) (i + length (entry_bytes e)) bs (Map.insert key e m))
        (sym hs.0.keyed) (sym (append_assoc pre (entry_bytes e) (entries_bytes es)))
      ∙ read_entries_lem es (pre ++ entry_bytes e) (i + length (entry_bytes e)) (Map.insert k e m)
          (length-append pre (entry_bytes e) ∙ ap (λ n. n + length (entry_bytes e)) h) hs.1)

-- Reading the serialization of an entry list that is in key order, with entries in range, gives
-- the list back, if their number fits 32 bits.
pub deserialize_entry_list-serialize_entry_list :
    (entries : Entries)
    → IsSorted entries
    → All IsEntry entries
    → IsU32 (length entries)
    → deserialize_entry_list (serialize_entry_list entries) ≡ ok entries
unfolding deserialize_entry_list serialize_entry_list
deserialize_entry_list-serialize_entry_list entries s h n =
    rw
      (
        u32_at_lem [] (entries_bytes entries) 0 (length entries) refl n,
        le→leb 4 (length (le_bytes 4 (length entries) ++ entries_bytes entries)) (omega arith),
      )
      (read_entries_lem entries (le_bytes 4 (length entries)) 4 [] refl h
        ∙ ap ok (insert_all_lem entries [] s))
