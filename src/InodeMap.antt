-- ===== src/InodeMap.antt =====
-- crates/metadata/src/inode_map.rs: the inode numbers, their digests and the next free number.
use slicefs.Base.{
  ℕ, zero, suc, ◌+◌, ◌*◌, ◌/◌, ◌%◌, ◌^◌, ◌≡◌, refl, sym, ap, ap₂, ◌∙◌, Option, [], ◌∷◌, ◌++◌,
  append_assoc, length-append, arith, length, All, ◌==◌, ==_iff, true, ltb, if◌then◌else◌,
}
use slicefs.Base.Words.{Bytes}
use slicefs.Base.Results.{Result, ok, err, ok_or, ◌>>=◌}
use slicefs.Base.Map
use slicefs.Base.Map.{Map, IsSorted, insert_all, insert_all_lem}
use slicefs.Base.Keys.{nat_key}
use slicefs.Digest.{Digest224}
use slicefs.Blockset.{Blockset, push_all}
use slicefs.Records.{
  u64_at, digest_at, u64_digest_records, u64_digest_bytes, length-u64_digest_records, IsU64Digest,
  u64_digest_at_lem,
}
use slicefs.Meta.{MetaError, corrupted}

pub record InodeMap : Type 0 where
  pub map : Map ℕ Digest224
  pub next_ino : ℕ

-- `InodeMap::new`
abbrev pub empty : InodeMap
empty = record { map = []; next_ino = 2 }

-- The counter is a `u64`.
unfoldable pub allocate_ino : InodeMap → ℕ × InodeMap
allocate_ino m = (m.next_ino, record m { next_ino = (m.next_ino + 1) % 2 ^ 64 })

unfoldable pub insert : InodeMap → ℕ → Digest224 → InodeMap
insert m ino digest = record m { map = Map.insert ino digest m.map }

unfoldable pub get : InodeMap → ℕ → Option Digest224
get m ino = Map.get m.map ino

unfoldable pub remove : InodeMap → ℕ → Option Digest224 × InodeMap
remove m ino = (Map.get m.map ino, record m { map = Map.remove ino m.map })

unfoldable pub set_next_ino : InodeMap → ℕ → InodeMap
set_next_ino m value = record m { next_ino = value }

unfoldable pub serialize_inode_map : InodeMap → Bytes
serialize_inode_map m = u64_digest_records m.map

-- The loop over the 36-byte records: the map so far and the greatest number so far.
unfoldable pub read_records : ℕ → ℕ → Bytes → Map ℕ Digest224 → ℕ → Map ℕ Digest224 × ℕ
read_records zero i bytes m max_ino = (m, max_ino)
read_records (suc n) i bytes m max_ino =
    let ino = u64_at i bytes in
    read_records n (i + 36) bytes (Map.insert ino (digest_at (i + 8) bytes) m)
      (if ltb max_ino ino then ino else max_ino)

-- The length is a multiple of 36, so `while i < bytes.len()` makes `bytes.len() / 36` rounds.
unfoldable pub deserialize_inode_map : Bytes → Result MetaError InodeMap
unfolding read_records
deserialize_inode_map bytes =
    let (m, max_ino) = read_records (length bytes / 36) 0 bytes [] 1 in
    if length bytes % 36 == 0
    then ok (record { map = m; next_ino = (max_ino + 1) % 2 ^ 64 })
    else err corrupted

module _ ⦃b : Blockset⦄ where
  open b use {Io, file_storage_get}

  abbrev pub intern_inode_map : Io → InodeMap → Digest224 × Io
  intern_inode_map storage m = push_all storage (serialize_inode_map m)

  unfoldable pub load_inode_map : Io → Digest224 → Result MetaError InodeMap
  load_inode_map io key = ok_or (file_storage_get io key) corrupted >>= deserialize_inode_map

-- The greatest key of a map, or the given number where that is greater.
abbrev pub max_key : Map ℕ Digest224 → ℕ → ℕ
max_key [] top = top
max_key ((ino, d) ∷ m) top = max_key m (if ltb top ino then ino else top)

read_records_lem :
    (es : Map ℕ Digest224) (pre : Bytes) (i : ℕ) (m : Map ℕ Digest224) (top : ℕ)
    → length pre ≡ i
    → All IsU64Digest es
    → read_records (length es) i (pre ++ u64_digest_records es) m top
      ≡ (insert_all es m, max_key es top)
unfolding read_records u64_digest_records insert_all
read_records_lem [] pre i m top h hs = refl
read_records_lem ((ino, d) ∷ es) pre i m top h hs =
    let (p, q) = u64_digest_at_lem pre (u64_digest_records es) i ino d h hs.0.0 hs.0.1 in
    ap₂ (λ k v. round (pre ++ u64_digest_records ((ino, d) ∷ es)) k v) p q
    ∙ ap (λ bs. round bs ino d)
        (sym (append_assoc pre (u64_digest_bytes ino d) (u64_digest_records es)))
    ∙ read_records_lem es (pre ++ u64_digest_bytes ino d) (i + 36) (Map.insert ino d m)
        (if ltb top ino then ino else top)
        (length-append pre (u64_digest_bytes ino d) ∙ ap (λ k. k + 36) h) hs.1
  where
    round : Bytes → ℕ → Digest224 → Map ℕ Digest224 × ℕ
    round bs k v =
        read_records (length es) (i + 36) bs (Map.insert k v m) (if ltb top k then k else top)

-- Reading a serialized inode map that is in key order, with numbers and digests in range, gives
-- its entries back, with the next number one above the greatest, or 2 for an empty map, whatever
-- the counter was.
pub deserialize_inode_map-serialize_inode_map :
    (m : InodeMap)
    → IsSorted m.map
    → All IsU64Digest m.map
    → deserialize_inode_map (serialize_inode_map m)
      ≡ ok (record { map = m.map; next_ino = (max_key m.map 1 + 1) % 2 ^ 64 })
unfolding serialize_inode_map deserialize_inode_map
deserialize_inode_map-serialize_inode_map m s h =
    rw (rounds, read_records_lem m.map [] 0 [] 1 refl h, whole, insert_all_lem m.map [] s) refl
  where
    size : length (u64_digest_records m.map) ≡ 36 * length m.map
    size = length-u64_digest_records m.map

    rounds : length (u64_digest_records m.map) / 36 ≡ length m.map
    rounds = omega (arith, size)

    whole : (length (u64_digest_records m.map) % 36 == 0) ≡ true
    whole = (==_iff _ 0).1 (omega (arith, size))
