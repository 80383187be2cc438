-- ===== src/Cas.antt =====
-- crates/cas-local/src and the traits that it implements in crates/slicefs-traits/src: the errors
-- and the results that the stores share.
pub mod Chunker
pub mod BlockStore
pub mod DedupIndex
pub mod DiskStore
use slicefs.Base.{ℕ}
use slicefs.Base.Words.{Bytes}

-- `ChunkHash` is a byte string.
abbrev pub ChunkHash : Type 0
ChunkHash = Bytes

-- The messages are left out.
pub data CasError : Type 0 where
  not_found : ChunkHash → CasError
  integrity_failure : ChunkHash → ChunkHash → CasError
  hash_collision : ChunkHash → CasError
  io : CasError
  chunker : CasError
  index : CasError

pub record Chunk : Type 0 where
  pub offset : ℕ
  pub data_bytes : Bytes

pub data DedupResult : Type 0 where
  definitely_absent present absent : DedupResult
