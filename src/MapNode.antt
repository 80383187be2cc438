-- ===== src/MapNode.antt =====
-- crates/metadata/src/store.rs: the nodes that hold the maps of a store, a count and 36 bytes for
-- each entry. `8 + count * 36` is not reduced here: a corrupted count for which it overflows makes
-- the program panic, in the product or in the slicing behind it, and is `corrupted` in the model.
use slicefs.Base.{
  ℕ, zero, suc, ◌+◌, ◌*◌, ◌≡◌, refl, sym, ap, ap₂, ◌∙◌, true, false, [], ◌∷◌, ◌++◌, append_assoc,
  length, length-append, All, arith, ltb, ◌==◌, ==_iff, if◌then◌else◌,
}
use slicefs.Base.Words.{Bytes, IsU64, le_bytes, from_le-le_bytes}
use slicefs.Base.Results.{Result, ok, err, ok_or, ◌>>=◌}
use slicefs.Base.Keys.{nat_key}
use slicefs.Base.Map
use slicefs.Base.Map.{Map, IsSorted, insert_all, insert_all_lem}
use slicefs.Digest.{Digest224, IsDigest, digest_bytes, digest_key}
use slicefs.Blockset.{Blockset, push_all}
use slicefs.Meta.{MetaError, corrupted}
use slicefs.Records.{
  u64_at, u64_at_lem, digest_at, digest_at_lem, u64_digest_records, length-u64_digest_records,
  read_u64_digests, read_u64_digests_lem, IsU64Digest,
}

abbrev pub u64_digest_map_bytes : Map ℕ Digest224 → Bytes
u64_digest_map_bytes m = le_bytes 8 (length m) ++ u64_digest_records m

-- `load_u64_digest_map` behind `file_storage_get`
unfoldable pub parse_u64_digest_map : Bytes → Result MetaError (Map ℕ Digest224)
parse_u64_digest_map bytes =
    let count = u64_at 0 bytes in
    if ltb (length bytes) 8
    then err corrupted
    else if length bytes == 8 + count * 36
    then ok (read_u64_digests count 8 bytes [])
    else err corrupted

abbrev digest_u64_bytes : Digest224 → ℕ → Bytes
digest_u64_bytes d count = digest_bytes d ++ le_bytes 8 count

unfoldable pub digest_u64_records : Map Digest224 ℕ → Bytes
digest_u64_records [] = []
digest_u64_records ((d, count) ∷ m) = digest_u64_bytes d count ++ digest_u64_records m

abbrev pub digest_u64_map_bytes : Map Digest224 ℕ → Bytes
digest_u64_map_bytes m = le_bytes 8 (length m) ++ digest_u64_records m

-- The loop of `load_digest224_u64_map`: the next record stands at `off`.
unfoldable pub read_digest_u64s : ℕ → ℕ → Bytes → Map Digest224 ℕ → Map Digest224 ℕ
read_digest_u64s zero off bytes m = m
read_digest_u64s (suc n) off bytes m =
    read_digest_u64s n (off + 36) bytes
      (Map.insert (digest_at off bytes) (u64_at (off + 28) bytes) m)

-- `load_digest224_u64_map` behind `file_storage_get`
unfoldable pub parse_digest_u64_map : Bytes → Result MetaError (Map Digest224 ℕ)
unfolding read_digest_u64s
parse_digest_u64_map bytes =
    let count = u64_at 0 bytes in
    if ltb (length bytes) 8
    then err corrupted
    else if length bytes == 8 + count * 36
    then ok (read_digest_u64s count 8 bytes [])
    else err corrupted

module _ ⦃b : Blockset⦄ where
  open b use {Io, file_storage_get}

  abbrev pub intern_u64_digest_map : Io → Map ℕ Digest224 → Digest224 × Io
  intern_u64_digest_map storage m = push_all storage (u64_digest_map_bytes m)

  unfoldable pub load_u64_digest_map : Io → Digest224 → Result MetaError (Map ℕ Digest224)
  load_u64_digest_map io key = ok_or (file_storage_get io key) corrupted >>= parse_u64_digest_map

  abbrev pub intern_digest224_u64_map : Io → Map Digest224 ℕ → Digest224 × Io
  intern_digest224_u64_map storage m = push_all storage (digest_u64_map_bytes m)

  unfoldable pub load_digest224_u64_map : Io → Digest224 → Result MetaError (Map Digest224 ℕ)
  load_digest224_u64_map io key = ok_or (file_storage_get io key) corrupted >>= parse_digest_u64_map

abbrev pub IsDigestU64 : Digest224 × ℕ → Type 0
IsDigestU64 e = IsDigest e.0 × IsU64 e.1

length-digest_u64_records : (m : Map Digest224 ℕ) → length (digest_u64_records m) ≡ 36 * length m
unfolding digest_u64_records
length-digest_u64_records [] = refl
length-digest_u64_records ((d, n) ∷ m) = omega (arith, length-digest_u64_records m)

read_digest_u64s_lem :
    (es : Map Digest224 ℕ) (pre : Bytes) (off : ℕ) (m : Map Digest224 ℕ)
    → length pre ≡ off
    → All IsDigestU64 es
    → read_digest_u64s (length es) off (pre ++ digest_u64_records es) m ≡ insert_all es m
unfolding read_digest_u64s digest_u64_records insert_all
read_digest_u64s_lem [] pre off m h hs = refl
read_digest_u64s_lem ((d, n) ∷ es) pre off m h hs =
    ap₂ (λ k v. read_digest_u64s (length es) (off + 36) whole (Map.insert k v m)) key value
    ∙ ap (λ bs. read_digest_u64s (length es) (off + 36) bs (Map.insert d n m))
        (sym (append_assoc pre (digest_u64_bytes d n) (digest_u64_records es)))
    ∙ read_digest_u64s_lem es (pre ++ digest_u64_bytes d n) (off + 36) (Map.insert d n m)
        (length-append pre (digest_u64_bytes d n) ∙ ap (λ k. k + 36) h) hs.1
  where
    whole : Bytes
    whole = pre ++ digest_u64_records ((d, n) ∷ es)

    key : digest_at off (pre ++ (digest_bytes d ++ (le_bytes 8 n ++ digest_u64_records es))) ≡ d
    key = digest_at_lem pre (le_bytes 8 n ++ digest_u64_records es) off d h hs.0.0

    value :
        u64_at (off + 28) (pre ++ (digest_bytes d ++ (le_bytes 8 n ++ digest_u64_records es))) ≡ n
    value =
        ap (u64_at (off + 28))
          (sym (append_assoc pre (digest_bytes d) (le_bytes 8 n ++ digest_u64_records es)))
        ∙ u64_at_lem (pre ++ digest_bytes d) (digest_u64_records es) (off + 28) n
            (length-append pre (digest_bytes d) ∙ ap (λ k. k + 28) h) hs.0.1

-- The map node of a sorted map whose numbers and digests are in range parses as that map.
pub parse_u64_digest_map_lem :
    (m : Map ℕ Digest224)
    → IsSorted m
    → All IsU64Digest m
    → IsU64 (length m)
    → parse_u64_digest_map (u64_digest_map_bytes m) ≡ ok m
unfolding parse_u64_digest_map
parse_u64_digest_map_lem m s h hl =
    rw
      (
        long,
        from_le-le_bytes 8 (length m) hl,
        whole,
        read_u64_digests_lem m (le_bytes 8 (length m)) 8 [] refl h,
        insert_all_lem m [] s,
      )
      refl
  where
    long : ltb (length (u64_digest_map_bytes m)) 8 ≡ false
    long = ground arith

    whole : (length (u64_digest_map_bytes m) == 8 + length m * 36) ≡ true
    whole = (==_iff _ _).1 (omega (arith, length-u64_digest_records m))

-- The reference counts likewise.
pub parse_digest_u64_map_lem :
    (m : Map Digest224 ℕ)
    → IsSorted m
    → All IsDigestU64 m
    → IsU64 (length m)
    → parse_digest_u64_map (digest_u64_map_bytes m) ≡ ok m
unfolding parse_digest_u64_map
parse_digest_u64_map_lem m s h hl =
    rw
      (
        long,
        from_le-le_bytes 8 (length m) hl,
        whole,
        read_digest_u64s_lem m (le_bytes 8 (length m)) 8 [] refl h,
        insert_all_lem m [] s,
      )
      refl
  where
    long : ltb (length (digest_u64_map_bytes m)) 8 ≡ false
    long = ground arith

    whole : (length (digest_u64_map_bytes m) == 8 + length m * 36) ≡ true
    whole = (==_iff _ _).1 (omega (arith, length-digest_u64_records m))
