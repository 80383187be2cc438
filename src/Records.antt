-- ===== src/Records.antt =====
-- The fixed-width reads and the 36-byte records that crates/metadata/src/inode_map.rs and
-- crates/metadata/src/store.rs use for their maps.
use slicefs.Base.{
  ℕ, zero, suc, ◌+◌, ◌*◌, ◌≡◌, refl, sym, ap, ap₂, ◌∙◌, [], ◌∷◌, ◌++◌, append_assoc, arith, length,
  slice, drop, slice-drop, drop-append_eq, All, length-append,
}
use slicefs.Base.Words.{Bytes, IsU32, IsU64, le_bytes, from_le, from_le-le_bytes}
use slicefs.Base.Map.{Map, insert, insert_all}
use slicefs.Base.Keys.{nat_key}
use slicefs.Digest.{
  Digest224, IsDigest, digest_bytes, digest_key, parse_digest224, parse_digest224-digest_bytes,
}

-- `u32::from_le_bytes(bytes[off .. off + 4])`
abbrev pub u32_at : ℕ → Bytes → ℕ
u32_at off bytes = from_le (slice off (off + 4) bytes)

-- `u64::from_le_bytes(bytes[off .. off + 8])`
abbrev pub u64_at : ℕ → Bytes → ℕ
u64_at off bytes = from_le (slice off (off + 8) bytes)

-- The loop over the seven words at `off`, `off + 4`, up to `off + 24`.
abbrev pub digest_at : ℕ → Bytes → Digest224
digest_at off bytes = record {
  w0 = u32_at off bytes;
  w1 = u32_at (off + 4) bytes;
  w2 = u32_at (off + 8) bytes;
  w3 = u32_at (off + 12) bytes;
  w4 = u32_at (off + 16) bytes;
  w5 = u32_at (off + 20) bytes;
  w6 = u32_at (off + 24) bytes;
}

word_at-drop :
    (off k : ℕ) (bytes : Bytes)
    → from_le (slice k (k + 4) (drop off bytes)) ≡ u32_at (off + k) bytes
word_at-drop off k bytes =
    ap from_le (slice-drop off k (k + 4) bytes)
    ∙ ap (λ e. from_le (slice (off + k) e bytes)) (omega arith)

u32_at-drop : (off : ℕ) (bytes : Bytes) → from_le (slice 0 4 (drop off bytes)) ≡ u32_at off bytes
u32_at-drop off bytes =
    ap from_le (slice-drop off 0 4 bytes)
    ∙ ap (λ s. from_le (slice s (off + 4) bytes)) (omega arith)

pub u64_at-drop :
    (off : ℕ) (bytes : Bytes) → from_le (slice 0 8 (drop off bytes)) ≡ u64_at off bytes
u64_at-drop off bytes =
    ap from_le (slice-drop off 0 8 bytes)
    ∙ ap (λ s. from_le (slice s (off + 8) bytes)) (omega arith)

pub digest_at-drop :
    (off : ℕ) (bytes : Bytes) → parse_digest224 (drop off bytes) ≡ digest_at off bytes
digest_at-drop off bytes = λ i. record {
  w0 = u32_at-drop off bytes i;
  w1 = word_at-drop off 4 bytes i;
  w2 = word_at-drop off 8 bytes i;
  w3 = word_at-drop off 12 bytes i;
  w4 = word_at-drop off 16 bytes i;
  w5 = word_at-drop off 20 bytes i;
  w6 = word_at-drop off 24 bytes i;
}

-- What stands behind a prefix is read at the prefix's length.
pub u32_at_lem :
    (pre rest : Bytes) (off v : ℕ)
    → length pre ≡ off
    → IsU32 v
    → u32_at off (pre ++ (le_bytes 4 v ++ rest)) ≡ v
u32_at_lem pre rest off v h hv =
    sym (u32_at-drop off (pre ++ (le_bytes 4 v ++ rest)))
    ∙ ap (λ bs. from_le (slice 0 4 bs)) (drop-append_eq off pre (le_bytes 4 v ++ rest) h)
    ∙ from_le-le_bytes 4 v hv

pub u64_at_lem :
    (pre rest : Bytes) (off v : ℕ)
    → length pre ≡ off
    → IsU64 v
    → u64_at off (pre ++ (le_bytes 8 v ++ rest)) ≡ v
u64_at_lem pre rest off v h hv =
    sym (u64_at-drop off (pre ++ (le_bytes 8 v ++ rest)))
    ∙ ap (λ bs. from_le (slice 0 8 bs)) (drop-append_eq off pre (le_bytes 8 v ++ rest) h)
    ∙ from_le-le_bytes 8 v hv

pub digest_at_lem :
    (pre rest : Bytes) (off : ℕ) (d : Digest224)
    → length pre ≡ off
    → IsDigest d
    → digest_at off (pre ++ (digest_bytes d ++ rest)) ≡ d
digest_at_lem pre rest off d h hd =
    sym (digest_at-drop off (pre ++ (digest_bytes d ++ rest)))
    ∙ ap parse_digest224 (drop-append_eq off pre (digest_bytes d ++ rest) h)
    ∙ parse_digest224-digest_bytes d rest hd

-- An inode number and the digest behind it.
abbrev pub u64_digest_bytes : ℕ → Digest224 → Bytes
u64_digest_bytes ino d = le_bytes 8 ino ++ digest_bytes d

-- All entries in key order.
unfoldable pub u64_digest_records : Map ℕ Digest224 → Bytes
u64_digest_records [] = []
u64_digest_records ((ino, d) ∷ m) = u64_digest_bytes ino d ++ u64_digest_records m

abbrev pub IsU64Digest : ℕ × Digest224 → Type 0
IsU64Digest e = IsU64 e.0 × IsDigest e.1

pub length-u64_digest_records :
    (m : Map ℕ Digest224) → length (u64_digest_records m) ≡ 36 * length m
unfolding u64_digest_records
length-u64_digest_records [] = refl
length-u64_digest_records ((ino, d) ∷ m) = omega (arith, length-u64_digest_records m)

-- One record, read behind a prefix.
pub u64_digest_at_lem :
    (pre rest : Bytes) (off ino : ℕ) (d : Digest224)
    → length pre ≡ off
    → IsU64 ino
    → IsDigest d
    → (u64_at off (pre ++ (u64_digest_bytes ino d ++ rest)) ≡ ino)
      × (digest_at (off + 8) (pre ++ (u64_digest_bytes ino d ++ rest)) ≡ d)
u64_digest_at_lem pre rest off ino d h hi hd = (
  u64_at_lem pre (digest_bytes d ++ rest) off ino h hi,
  ap (digest_at (off + 8)) (sym (append_assoc pre (le_bytes 8 ino) (digest_bytes d ++ rest)))
      ∙ digest_at_lem (pre ++ le_bytes 8 ino) rest (off + 8) d
          (length-append pre (le_bytes 8 ino) ∙ ap (λ k. k + 8) h) hd,
)

-- The loop of `load_u64_digest_map`: record `i` stands at `off`.
unfoldable pub read_u64_digests : ℕ → ℕ → Bytes → Map ℕ Digest224 → Map ℕ Digest224
read_u64_digests zero off bytes m = m
read_u64_digests (suc n) off bytes m =
    read_u64_digests n (off + 36) bytes (insert (u64_at off bytes) (digest_at (off + 8) bytes) m)

-- Read behind a prefix, the records of a map are inserted one after the other.
pub read_u64_digests_lem :
    (es : Map ℕ Digest224) (pre : Bytes) (off : ℕ) (m : Map ℕ Digest224)
    → length pre ≡ off
    → All IsU64Digest es
    → read_u64_digests (length es) off (pre ++ u64_digest_records es) m ≡ insert_all es m
unfolding read_u64_digests u64_digest_records insert_all
read_u64_digests_lem [] pre off m h hs = refl
read_u64_digests_lem ((ino, d) ∷ es) pre off m h hs =
    let (p, q) = u64_digest_at_lem pre (u64_digest_records es) off ino d h hs.0.0 hs.0.1 in
    ap₂ (λ k v. read_u64_digests (length es) (off + 36) whole (insert k v m)) p q
    ∙ ap (λ bs. read_u64_digests (length es) (off + 36) bs (insert ino d m))
        (sym (append_assoc pre (u64_digest_bytes ino d) (u64_digest_records es)))
    ∙ read_u64_digests_lem es (pre ++ u64_digest_bytes ino d) (off + 36) (insert ino d m)
        (length-append pre (u64_digest_bytes ino d) ∙ ap (λ k. k + 36) h) hs.1
  where
    whole : Bytes
    whole = pre ++ u64_digest_records ((ino, d) ∷ es)
