-- ===== src/Filesystem/Storage.antt =====
-- Storages that read the same, for the stores that the operations on handles leave.
use slicefs.Base.{
  ℕ, ◌≡◌, ◌≢◌, refl, sym, ap, ◌∙◌, inl, inr, Bool-cases, List, [], ◌∷◌, ◌++◌, Option-cases,
}
use slicefs.Base.Words.{Bytes}
use slicefs.Base.Keys.{nat_key}
use slicefs.Base.Results.{Result, ok, err}
use slicefs.Base.Map
use slicefs.Digest.{Digest224, digest_key, digest_same_iff}
use slicefs.Blockset.{Blockset}
use slicefs.Blockset.Accumulator.{Accumulator}
use slicefs.Inode.{load_inode}
use slicefs.Manifest.{load_manifest}
use slicefs.Meta.{MetaError}
use slicefs.Store.{Store}
use slicefs.Store.Inodes.{get_inode}
use slicefs.Store.Files.{get_manifest}
use slicefs.Filesystem.{WriteMode, streaming, buffered}
use slicefs.Filesystem.Content.{block_content, manifest_content, committed_content, materialize}
use slicefs.Filesystem.Handles.{finalize}

module _ ⦃b : Blockset⦄ where
  open b use {Io, digest, push, file_storage_get, get-push_self, get-push_ne}

  -- Every digest reads the same in both.
  abbrev pub SameReads : Io → Io → Type 0
  SameReads io io' = (d : Digest224) → file_storage_get io d ≡ file_storage_get io' d

  pub push-SameReads :
      (io io' : Io) (bytes : Bytes) → SameReads io io' → SameReads (push io bytes) (push io' bytes)
  push-SameReads io io' bytes h d = elim (Bool-cases (digest_key.same d (digest bytes))) [
    | inl y ↦
        let q : d ≡ digest bytes = (digest_same_iff d (digest bytes)).0 y in
        rw q (get-push_self io bytes ∙ sym (get-push_self io' bytes))
    | inr n ↦
        let ne : d ≢ digest bytes = λ q. cc (n, (digest_same_iff d (digest bytes)).1 q) in
        get-push_ne io bytes d ne ∙ h d ∙ sym (get-push_ne io' bytes d ne)
  ]

  module _ (s t : Store Io) (h : SameReads s.io t.io) where
    pub get_manifest_same :
        (ino : ℕ) → s.manifest_data ≡ t.manifest_data → get_manifest s ino ≡ get_manifest t ino
    unfolding get_manifest load_manifest
    get_manifest_same ino e = rw e (elim (Option-cases (Map.get t.manifest_data ino)) [
      | inl gone ↦ rw gone refl
      | inr (d, there) ↦ rw (there, h d) refl
    ])

    pub get_inode_same : (ino : ℕ) → s.inode_data ≡ t.inode_data → get_inode s ino ≡ get_inode t ino
    unfolding get_inode load_inode
    get_inode_same ino e = rw e (elim (Option-cases (Map.get t.inode_data ino)) [
      | inl gone ↦ rw gone refl
      | inr (d, there) ↦ rw (there, h d) refl
    ])

  block_content_same :
      (io io' : Io) (manifest : List Digest224)
      → SameReads io io'
      → block_content io manifest ≡ block_content io' manifest
  unfolding block_content
  block_content_same io io' [] h = refl
  block_content_same io io' (d ∷ ds) h = rw (h d) refl

  manifest_content_same :
      (io io' : Io) (read : Result MetaError (List Digest224))
      → SameReads io io'
      → manifest_content io read ≡ manifest_content io' read
  manifest_content_same io io' (ok manifest) h = block_content_same io io' manifest h
  manifest_content_same io io' (err e) h = refl

  pub committed_content_same :
      (s t : Store Io) (ino : ℕ)
      → SameReads s.io t.io
      → s.manifest_data ≡ t.manifest_data
      → committed_content s ino ≡ committed_content t ino
  unfolding committed_content
  committed_content_same s t ino h e =
      ap (manifest_content s.io) (get_manifest_same s t h ino e)
      ∙ manifest_content_same s.io t.io (get_manifest t ino) h

  module _ ⦃a : Accumulator b⦄ where
    open a use {
      State, start, push_bytes, finish, pushed, Holds, pushed-start, pushed-push_bytes,
      finish-digest, Holds-start, Holds-push_bytes, get-push_bytes, get-finish,
    }

    -- Finishing a state reads back all that was pushed.
    pub materialize_lem :
        (io : Io) (state : State) → Holds io state → (materialize io state).0 ≡ pushed state
    unfolding materialize
    materialize_lem io state h =
        rw
          (
            finish-digest io state,
            get-finish io state (digest (pushed state)) h,
            get-push_self io (pushed state),
          )
          refl

    -- The bytes that a mode holds.
    abbrev pub mode_bytes : WriteMode State → Bytes
    mode_bytes (streaming state next_expected_offset) = pushed state
    mode_bytes (buffered buf) = buf

    abbrev pub ModeHolds : Io → WriteMode State → Type 0
    ModeHolds io (streaming state next_expected_offset) = Holds io state
    ModeHolds io (buffered buf) = Unit

    pub finalize_lem :
        (io : Io) (mode : WriteMode State)
        → ModeHolds io mode
        → ((finalize io mode).0 ≡ digest (mode_bytes mode))
          × SameReads (finalize io mode).1 (push io (mode_bytes mode))
    unfolding finalize
    finalize_lem io (streaming state next_expected_offset) h =
        (finish-digest io state, λ d. get-finish io state d h)
    finalize_lem io (buffered buf) h =
        let fresh = (push_bytes io start buf).0 in
        let io1 = (push_bytes io start buf).1 in
        let bytes : pushed fresh ≡ buf =
          pushed-push_bytes io start buf ∙ ap (λ t. t ++ buf) pushed-start in
        (
          finish-digest io1 fresh ∙ ap digest bytes,
          λ d.
              get-finish io1 fresh d (Holds-push_bytes io start buf (Holds-start io))
              ∙ ap (λ t. file_storage_get (push io1 t) d) bytes
              ∙ push-SameReads io1 io buf (λ d. get-push_bytes io start buf d) d,
        )
