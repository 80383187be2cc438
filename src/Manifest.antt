-- ===== src/Manifest.antt =====
-- crates/metadata/src/manifest.rs: the ordered digests of a file's blocks, 28 bytes each.
use slicefs.Base.{
  ℕ, zero, suc, ◌+◌, ◌*◌, ◌/◌, ◌%◌, ◌≡◌, refl, sym, ap, ap₂, ◌∙◌, true, List, [], ◌∷◌, ◌++◌,
  append_assoc, length, length-append, All, arith, ◌==◌, ==_iff, if◌then◌else◌,
}
use slicefs.Base.Words.{Bytes}
use slicefs.Base.Results.{Result, ok, err, ok_or, ◌>>=◌}
use slicefs.Digest.{Digest224, IsDigest, digest_bytes}
use slicefs.Blockset.{Blockset, push_all}
use slicefs.Records.{digest_at, digest_at_lem}
use slicefs.Meta.{MetaError, corrupted}

unfoldable pub manifest_bytes : List Digest224 → Bytes
manifest_bytes [] = []
manifest_bytes (block ∷ blocks) = digest_bytes block ++ manifest_bytes blocks

-- The loop over `count` blocks, the next of which stands at `off`.
read_blocks : ℕ → ℕ → Bytes → List Digest224
read_blocks zero off bytes = []
read_blocks (suc n) off bytes = digest_at off bytes ∷ read_blocks n (off + 28) bytes

-- `load_manifest` behind `file_storage_get`.
unfoldable pub parse_manifest : Bytes → Result MetaError (List Digest224)
unfolding read_blocks
parse_manifest bytes =
    if length bytes % 28 == 0 then ok (read_blocks (length bytes / 28) 0 bytes) else err corrupted

module _ ⦃b : Blockset⦄ where
  open b use {Io, digest, push, file_storage_get, get-push_self}

  abbrev pub intern_manifest : Io → List Digest224 → Digest224 × Io
  intern_manifest storage blocks = push_all storage (manifest_bytes blocks)

  unfoldable pub load_manifest : Io → Digest224 → Result MetaError (List Digest224)
  load_manifest io key = ok_or (file_storage_get io key) corrupted >>= parse_manifest

length-manifest_bytes :
    (blocks : List Digest224) → length (manifest_bytes blocks) ≡ 28 * length blocks
unfolding manifest_bytes
length-manifest_bytes [] = refl
length-manifest_bytes (d ∷ ds) = omega (arith, length-manifest_bytes ds)

read_blocks_lem :
    (blocks : List Digest224) (pre : Bytes) (off : ℕ)
    → length pre ≡ off
    → All IsDigest blocks
    → read_blocks (length blocks) off (pre ++ manifest_bytes blocks) ≡ blocks
unfolding read_blocks manifest_bytes
read_blocks_lem [] pre off h hs = refl
read_blocks_lem (d ∷ ds) pre off h hs =
    ap₂ ◌∷◌ (digest_at_lem pre (manifest_bytes ds) off d h hs.0) (
      ap (read_blocks (length ds) (off + 28))
        (sym (append_assoc pre (digest_bytes d) (manifest_bytes ds)))
      ∙ read_blocks_lem ds (pre ++ digest_bytes d) (off + 28)
          (length-append pre (digest_bytes d) ∙ ap (λ k. k + 28) h) hs.1)

-- Parsing the bytes of a manifest gives back its blocks in their order, if their words are in
-- range.
pub parse_manifest-manifest_bytes :
    (blocks : List Digest224)
    → All IsDigest blocks
    → parse_manifest (manifest_bytes blocks) ≡ ok blocks
unfolding parse_manifest
parse_manifest-manifest_bytes blocks h =
    rw (whole, rounds) (ap ok (read_blocks_lem blocks [] 0 refl h))
  where
    size : length (manifest_bytes blocks) ≡ 28 * length blocks
    size = length-manifest_bytes blocks

    rounds : length (manifest_bytes blocks) / 28 ≡ length blocks
    rounds = omega (arith, size)

    whole : (length (manifest_bytes blocks) % 28 == 0) ≡ true
    whole = (==_iff _ 0).1 (omega (arith, size))
