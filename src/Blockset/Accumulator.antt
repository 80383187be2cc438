-- ===== src/Blockset/Accumulator.antt =====
-- The crate `blockset`: its `State`, which takes a byte string in pieces. It is a parameter.
use slicefs.Base.{◌≡◌, [], ◌++◌}
use slicefs.Base.Words.{Bytes}
use slicefs.Digest.{Digest224}
use slicefs.Blockset.{Blockset}

-- `push_bytes` writes the finished nodes of the tree as it goes, and `finish` (`State::end`, then
-- `FileStorageAdd::end`) the rest. Where the storage holds the nodes that a state has written,
-- finishing it makes readable what pushing all of its bytes at once does.
pub record Accumulator (b : Blockset) : Type 1 where
  pub State : Type 0
  pub start : State
  pub push_bytes : b.Io → State → Bytes → State × b.Io
  pub finish : b.Io → State → Digest224 × b.Io
  pub pushed : State → Bytes
  pub Holds : b.Io → State → Type 0
  pub pushed-start : pushed start ≡ []
  pub pushed-push_bytes :
      (io : b.Io) (state : State) (bytes : Bytes)
      → pushed (push_bytes io state bytes).0 ≡ pushed state ++ bytes
  pub finish-digest : (io : b.Io) (state : State) → (finish io state).0 ≡ b.digest (pushed state)
  pub Holds-start : (io : b.Io) → Holds io start
  pub Holds-push_bytes :
      (io : b.Io) (state : State) (bytes : Bytes)
      → Holds io state
      → Holds (push_bytes io state bytes).1 (push_bytes io state bytes).0
  pub get-push_bytes :
      (io : b.Io) (state : State) (bytes : Bytes) (d : Digest224)
      → b.file_storage_get (push_bytes io state bytes).1 d ≡ b.file_storage_get io d
  pub get-finish :
      (io : b.Io) (state : State) (d : Digest224)
      → Holds io state
      → b.file_storage_get (finish io state).1 d ≡ b.file_storage_get (b.push io (pushed state)) d
  pub Holds-push :
      (io : b.Io) (state : State) (bytes : Bytes) → Holds io state → Holds (b.push io bytes) state
  pub Holds-finish : (io : b.Io) (state : State) → Holds io state → Holds (finish io state).1 state
