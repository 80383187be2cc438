-- ===== src/Snapshot.antt =====
-- crates/metadata/src/snapshot.rs
use slicefs.Base.{ℕ, Option}
use slicefs.Base.Words.{Bytes}
use slicefs.Digest.{Digest224}

pub record SnapshotEntry : Type 0 where
  pub version : ℕ
  pub name : Option Bytes
  pub root : Digest224
  pub created_at : ℕ
