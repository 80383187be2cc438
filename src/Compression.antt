-- ===== src/Compression.antt =====
-- crates/slicefs-compression/src and crates/slicefs-traits/src/compressor.rs: the block format of a
-- compressed block, and the three compressors over the crates `zstd` and `lz4_flex`.
use slicefs.Base.{
  ℕ, zero, suc, ◌+◌, ◌≤◌, ◌≡◌, refl, ap, ◌∙◌, arith, Option, none, some, [], ◌∷◌, length, leb,
  if◌then◌else◌, Bool-cases, Option-cases, inl, inr,
}
use slicefs.Base.Words.{Bytes}
use slicefs.Base.Keys.{lex_same}
use slicefs.Base.Results.{Result, ok, err, ok_or}

-- `None`, `Zstd`, `Lz4` and `Raw`
pub data AlgorithmId : Type 0 where
  plain zstd lz4 raw : AlgorithmId

-- `algo as u8`
abbrev pub algorithm_byte : AlgorithmId → ℕ
algorithm_byte plain = 0
algorithm_byte zstd = 1
algorithm_byte lz4 = 2
algorithm_byte raw = 3

unfoldable pub from_u8 : ℕ → Option AlgorithmId
from_u8 zero = some plain
from_u8 (suc zero) = some zstd
from_u8 (suc (suc zero)) = some lz4
from_u8 (suc (suc (suc zero))) = some raw
from_u8 (suc (suc (suc (suc v)))) = none

-- The messages are left out.
pub data CompressorError : Type 0 where
  compress_failed decompress_failed : CompressorError

-- An encoder of another crate: what it encodes is decoded again.
pub record Codec : Type 0 where
  pub encode : Bytes → Option Bytes
  pub decode : Bytes → Option Bytes
  pub decode-encode :
      (input output : Bytes) → encode input ≡ some output → decode output ≡ some input

-- `Box<dyn Compressor>`: a constructor for each implementation. The level of `zstd` is in its codec.
pub data Compressor : Type 0 where
  none_compressor : Compressor
  lz4_compressor : Codec → Compressor
  zstd_compressor : Codec → Compressor

-- The encoded bytes where they are fewer, and the input as it is otherwise.
abbrev pub smaller : AlgorithmId → Bytes → Bytes → AlgorithmId × Bytes
smaller algorithm input compressed =
    if leb (length input) (length compressed) then (raw, input) else (algorithm, compressed)

unfoldable pub encoded : AlgorithmId → Codec → Bytes → Result CompressorError (AlgorithmId × Bytes)
encoded algorithm codec [] = ok (raw, [])
encoded algorithm codec (byte ∷ input) = elim (codec.encode (byte ∷ input)) [
  | none ↦ err compress_failed
  | some compressed ↦ ok (smaller algorithm (byte ∷ input) compressed)
]

unfoldable pub compress : Compressor → Bytes → Result CompressorError (AlgorithmId × Bytes)
unfolding encoded
compress none_compressor input = ok (plain, input)
compress (lz4_compressor codec) input = encoded lz4 codec input
compress (zstd_compressor codec) input = encoded zstd codec input

unfoldable pub decompress : Compressor → AlgorithmId → Bytes → Result CompressorError Bytes
decompress compressor plain input = ok input
decompress compressor raw input = ok input
decompress (zstd_compressor codec) zstd input = ok_or (codec.decode input) decompress_failed
decompress (lz4_compressor codec) lz4 input = ok_or (codec.decode input) decompress_failed
decompress compressor algorithm input = err decompress_failed

abbrev pub or_raw : Bytes → Result CompressorError (AlgorithmId × Bytes) → AlgorithmId × Bytes
or_raw input (ok compressed) = compressed
or_raw input (err e) = (raw, input)

abbrev pub wire : AlgorithmId × Bytes → Bytes
wire (algorithm, payload) = algorithm_byte algorithm ∷ payload

-- A compressor that fails leaves the block as it is.
unfoldable pub compress_block : Compressor → Bytes → Bytes
unfolding compress
compress_block compressor input = wire (or_raw input (compress compressor input))

unfoldable pub decompress_block : Compressor → Bytes → Result CompressorError Bytes
unfolding decompress from_u8
decompress_block compressor [] = ok []
decompress_block compressor (byte ∷ payload) = elim (from_u8 byte) [
  | none ↦ err decompress_failed
  | some algorithm ↦ decompress compressor algorithm payload
]

-- What a compressor made is read back, and is not longer than the input.
abbrev IsFaithful : Compressor → Bytes → AlgorithmId × Bytes → Type 0
IsFaithful compressor input (algorithm, payload) =
    (decompress compressor algorithm payload ≡ ok input) × (length payload ≤ length input)

smaller-IsFaithful :
    (compressor : Compressor) (algorithm : AlgorithmId) (input compressed : Bytes)
    → decompress compressor raw input ≡ ok input
    → decompress compressor algorithm compressed ≡ ok input
    → IsFaithful compressor input (smaller algorithm input compressed)
smaller-IsFaithful compressor algorithm input compressed kept read =
    elim (Bool-cases (leb (length input) (length compressed))) [
      | inl y ↦ rw y (kept, omega arith)
      | inr n ↦ rw n (read, ground arith)
    ]

encoded-IsFaithful :
    (compressor : Compressor) (algorithm : AlgorithmId) (codec : Codec) (input : Bytes)
    → ((bytes : Bytes) → decompress compressor raw bytes ≡ ok bytes)
    → ((bytes : Bytes)
        → decompress compressor algorithm bytes ≡ ok_or (codec.decode bytes) decompress_failed)
    → IsFaithful compressor input (or_raw input (encoded algorithm codec input))
unfolding encoded
encoded-IsFaithful compressor algorithm codec [] kept read = (kept [], omega arith)
encoded-IsFaithful compressor algorithm codec (byte ∷ input) kept read =
    elim (Option-cases (codec.encode (byte ∷ input))) [
      | inl e ↦ rw (e, encoded) (kept (byte ∷ input), omega arith)
      | inr (compressed, e) ↦
          rw (e, encoded)
            (smaller-IsFaithful compressor algorithm (byte ∷ input) compressed (kept (byte ∷ input))
              (read compressed
                ∙ ap (λ o. ok_or o decompress_failed)
                    (codec.decode-encode (byte ∷ input) compressed e)))
    ]

compress-IsFaithful :
    (compressor : Compressor) (input : Bytes)
    → IsFaithful compressor input (or_raw input (compress compressor input))
unfolding compress decompress
compress-IsFaithful none_compressor input = (refl, omega arith)
compress-IsFaithful (lz4_compressor codec) input =
    encoded-IsFaithful (lz4_compressor codec) lz4 codec input (λ bytes. refl) (λ bytes. refl)
compress-IsFaithful (zstd_compressor codec) input =
    encoded-IsFaithful (zstd_compressor codec) zstd codec input (λ bytes. refl) (λ bytes. refl)

from_u8-algorithm_byte : (a : AlgorithmId) → from_u8 (algorithm_byte a) ≡ some a
unfolding from_u8
from_u8-algorithm_byte plain = refl
from_u8-algorithm_byte zstd = refl
from_u8-algorithm_byte lz4 = refl
from_u8-algorithm_byte raw = refl

-- With each compressor, also one whose encoder fails or does not make a block smaller, a
-- compressed block is decompressed to the input, and it is at most one byte longer than the input.
pub decompress_block-compress_block :
    (compressor : Compressor) (input : Bytes)
    → (decompress_block compressor (compress_block compressor input) ≡ ok input)
      × (length (compress_block compressor input) ≤ length input + 1)
unfolding compress_block decompress_block
decompress_block-compress_block compressor input =
    let result = or_raw input (compress compressor input) in
    let (read, shorter) = compress-IsFaithful compressor input in
    (rw (from_u8-algorithm_byte result.0, decompress_block) read, omega (arith, shorter))

-- "zstd", "lz4" and "none"
abbrev zstd_name : Bytes
zstd_name = b'z' ∷ b's' ∷ b't' ∷ b'd' ∷ []

abbrev lz4_name : Bytes
lz4_name = b'l' ∷ b'z' ∷ b'4' ∷ []

abbrev none_name : Bytes
none_name = b'n' ∷ b'o' ∷ b'n' ∷ b'e' ∷ []

abbrev pub level_or : Option ℕ → ℕ
level_or none = 3
level_or (some level) = level

-- `parse_compressor`; it panics on another name. The codec of each level is an argument.
unfoldable pub parse_compressor : (ℕ → Codec) → Codec → Bytes → Option ℕ → Option Compressor
parse_compressor zstd_codec lz4_codec name level =
    if lex_same name zstd_name
    then some (zstd_compressor (zstd_codec (level_or level)))
    else if lex_same name lz4_name
    then some (lz4_compressor lz4_codec)
    else if lex_same name none_name
    then some none_compressor
    else none
