-- ===== src/Tests/Blocks.antt =====
-- Compression and the block store on disk: runs at concrete inputs.
use slicefs.Base.{
  zero, suc, Option, sym, ◌+◌, ◌≤◌, ◌≡◌, ◌≢◌, ap, arith, true, some, none, [], ◌∷◌, length,
}
use slicefs.Base.Words.{Bytes}
use slicefs.Base.Keys.{lex_key}
use slicefs.Base.Results.{ok}
use slicefs.Base.Map
use slicefs.Base.Map.{Map}
use slicefs.Compression.{
  Codec, zstd_compressor, compress_block, decompress_block, decompress_block-compress_block,
}
use slicefs.Cas.{ChunkHash}
use slicefs.Cas.DiskStore
use slicefs.Cas.DiskStore.{
  LocalDiskStore, IsHash, put, write_tmp, hash_to_path, hex, get-put, get-write_tmp,
}

-- A codec for the examples: it takes the last of the bytes away when it is a zero.
abbrev encode_zero : Bytes → Option Bytes
encode_zero [] = none
encode_zero (byte ∷ []) = none
encode_zero (byte ∷ zero ∷ []) = some (byte ∷ [])
encode_zero (byte ∷ _ ∷ _) = none

abbrev decode_zero : Bytes → Option Bytes
decode_zero [] = none
decode_zero (byte ∷ []) = some (byte ∷ 0 ∷ [])
decode_zero (byte ∷ _ ∷ _) = none

decode-encode_zero :
    (input output : Bytes) → encode_zero input ≡ some output → decode_zero output ≡ some input
decode-encode_zero [] output e = cc (e)
decode-encode_zero (byte ∷ []) output e = cc (e)
decode-encode_zero (byte ∷ zero ∷ []) output e =
    ap (λ o. elim o as (λ _. Option Bytes) [ none ↦ none | some out ↦ decode_zero out ]) (sym e)
decode-encode_zero (byte ∷ zero ∷ more ∷ rest) output e = cc (e)
decode-encode_zero (byte ∷ suc n ∷ rest) output e = cc (e)

abbrev codec : Codec
codec = record { encode = encode_zero; decode = decode_zero; decode-encode = decode-encode_zero }

decompress_block-compress_block_example :
    (decompress_block (zstd_compressor codec) (compress_block (zstd_compressor codec) (5 ∷ 0 ∷ []))
      ≡ ok (5 ∷ 0 ∷ []))
    × (length (compress_block (zstd_compressor codec) (5 ∷ 0 ∷ [])) ≤ 2 + 1)
decompress_block-compress_block_example =
    decompress_block-compress_block (zstd_compressor codec) (5 ∷ 0 ∷ [])

-- A hash for the examples: the bytes behind a mark.
abbrev mark : Bytes → ChunkHash
mark bytes = 1 ∷ 2 ∷ bytes

abbrev shelf : LocalDiskStore
shelf = record { files = (b'0' ∷ [], 5 ∷ []) ∷ []; verify_on_read = true }

mark-IsHash : IsHash (mark (7 ∷ []))
mark-IsHash = ((omega arith, (omega arith, (omega arith, tt))), omega arith)

unused_file :
    (old : Bytes) → Map.get shelf.files (hash_to_path (mark (7 ∷ []))) ≡ some old → old ≡ 7 ∷ []
unfolding Map.get hash_to_path
unused_file old e = cc (e)

get-put_example :
    ((put mark shelf (mark (7 ∷ [])) (7 ∷ [])).0 ≡ ok tt)
    × (DiskStore.get mark (put mark shelf (mark (7 ∷ [])) (7 ∷ [])).1 (mark (7 ∷ [])) ≡ ok (7 ∷ []))
    × ((other : ChunkHash)
        → IsHash other
        → other ≢ mark (7 ∷ [])
        → DiskStore.get mark (put mark shelf (mark (7 ∷ [])) (7 ∷ [])).1 other
          ≡ DiskStore.get mark shelf other)
get-put_example = get-put mark shelf (7 ∷ []) mark-IsHash unused_file
