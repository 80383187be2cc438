-- ===== src/Filesystem/Sequence.antt =====
-- Any sequence of writes through an open handle: the reference is the same writes into a buffer.
use slicefs.Base.{
  ℕ, ◌+◌, ◌^◌, ◌<◌, ◌≡◌, refl, sym, ap, ap₂, ◌∙◌, false, none, some, List, [], ◌∷◌, ◌++◌,
  append_assoc, append-nil, length, length-append, take, drop, ==_refl, ◌==◌, Bool-cases, inl, inr,
}
use slicefs.Base.Words.{Bytes}
use slicefs.Base.Keys.{nat_key}
use slicefs.Base.Results.{ok}
use slicefs.Base.Map
use slicefs.Base.Map.{get-insert}
use slicefs.Blockset.{Blockset}
use slicefs.Blockset.Accumulator.{Accumulator}
use slicefs.Meta.{InodeMeta}
use slicefs.Store.{Store}
use slicefs.Filesystem.{Now, OpenFileState, SliceFsFilesystem, WriteMode, streaming, buffered}
use slicefs.Filesystem.Content.{pwrite, write_in_mode, test_write, test_read}
use slicefs.Filesystem.Handles.{written_at, test_release}
use slicefs.Filesystem.Ranges.{pwrite_end}
use slicefs.Filesystem.Stored.{IsStorable}
use slicefs.Filesystem.Writes.{IsOpen, test_write_lem, test_read_lem}
use slicefs.Filesystem.Closing.{IsDirty, IsWritten, test_release_lem}

-- A write is an offset and the bytes.
abbrev pub Write : Type 0
Write = ℕ × Bytes

-- The writes into a buffer.
abbrev pub pwrite_all : Bytes → List Write → Bytes
pwrite_all content [] = content
pwrite_all content ((offset, bytes) ∷ writes) = pwrite_all (pwrite content offset bytes) writes

-- Every length on the way fits 64 bits.
abbrev pub InRange : Bytes → List Write → Type 0
InRange content [] = Unit
InRange content ((offset, bytes) ∷ writes) =
    (length (pwrite content offset bytes) < 2 ^ 64) × InRange (pwrite content offset bytes) writes

-- The pieces, written one behind the other.
abbrev pub sequential : ℕ → List Bytes → List Write
sequential offset [] = []
sequential offset (piece ∷ pieces) = (offset, piece) ∷ sequential (offset + length piece) pieces

abbrev pub concat : List Bytes → Bytes
concat [] = []
concat (piece ∷ pieces) = piece ++ concat pieces

-- Sequential writes append.
pub pwrite_all-sequential :
    (content : Bytes) (pieces : List Bytes)
    → pwrite_all content (sequential (length content) pieces) ≡ content ++ concat pieces
pwrite_all-sequential content [] = sym (append-nil content)
pwrite_all-sequential content (piece ∷ pieces) =
    ap₂ pwrite_all (pwrite_end content piece)
      (ap (λ n. sequential n pieces) (sym (length-append content piece)))
    ∙ pwrite_all-sequential (content ++ piece) pieces
    ∙ append_assoc content piece (concat pieces)

module _ ⦃b : Blockset⦄ ⦃a : Accumulator b⦄ where
  open b use {Io}
  open a use {State}

  -- The writes through a handle.
  abbrev pub write_all : SliceFsFilesystem Io State → ℕ → List Write → SliceFsFilesystem Io State
  write_all fs fh [] = fs
  write_all fs fh ((offset, bytes) ∷ writes) = write_all (test_write fs fh offset bytes).1 fh writes

  write_in_mode-cas_committed :
      (s : Store Io) (o : OpenFileState State) (mode : WriteMode State) (offset : ℕ) (bytes : Bytes)
      → (write_in_mode s o mode offset bytes).0.cas_committed ≡ false
  unfolding write_in_mode
  write_in_mode-cas_committed s o (buffered buf) offset bytes = refl
  write_in_mode-cas_committed s o (streaming state next) offset bytes =
      elim (Bool-cases (offset == next)) [ inl y ↦ rw y refl | inr n ↦ rw n refl ]

  -- A write makes the handle dirty.
  test_write-IsDirty :
      (fs : SliceFsFilesystem Io State) (ino fh : ℕ) (content : Bytes) (offset : ℕ) (bytes : Bytes)
      → IsOpen fs ino fh content
      → IsDirty (test_write fs fh offset bytes).1 fh
  unfolding test_write
  test_write-IsDirty fs ino fh content offset bytes h =
      let o = h.file_state in
      let after = (write_in_mode fs.meta o o.write_mode offset bytes).0 in
      let removed = Map.remove fh fs.open_files in
      rw (h.found, test_write)
        (λ p e.
          let same : some after ≡ some p =
            sym (get-insert removed fh fh after ∙ rw (==_refl fh) refl) ∙ e in
          let clean = write_in_mode-cas_committed fs.meta o o.write_mode offset bytes in
          cc (same, clean))

  write_all-IsOpen :
      (fs : SliceFsFilesystem Io State) (ino fh : ℕ) (content : Bytes) (writes : List Write)
      → IsOpen fs ino fh content
      → IsDirty fs fh
      → InRange content writes
      → IsOpen (write_all fs fh writes) ino fh (pwrite_all content writes)
        × IsDirty (write_all fs fh writes) fh
  write_all-IsOpen fs ino fh content [] h dirty fits = (h, dirty)
  write_all-IsOpen fs ino fh content ((offset, bytes) ∷ writes) h dirty fits =
      let (done, opened, others) = test_write_lem fs ino fh content h offset bytes fits.0 in
      write_all-IsOpen (test_write fs fh offset bytes).1 ino fh (pwrite content offset bytes) writes
        opened (test_write-IsDirty fs ino fh content offset bytes h) fits.1

  module _ (fs : SliceFsFilesystem Io State) (ino fh : ℕ) (content : Bytes) (writes : List Write)
      (h : IsOpen fs ino fh content) (dirty : IsDirty fs fh) (fits : InRange content writes)
      (some_bytes : 0 < length (pwrite_all content writes)) where
    -- After any sequence of writes through an open handle, at any offsets, a read of its file
    -- finds what the same writes make of a plain buffer, whether the handle streams or has fallen
    -- back to buffering. The handle stands for a content, is the only writer of its file and has
    -- uncommitted bytes only; every length on the way fits 64 bits, and the result is not empty.
    pub test_read-write_all :
        (offset size : ℕ)
        → (test_read (write_all fs fh writes) ino offset size).0
          ≡ ok (take size (drop offset (pwrite_all content writes)))
    test_read-write_all offset size =
        test_read_lem (write_all fs fh writes) ino fh (pwrite_all content writes)
          (write_all-IsOpen fs ino fh content writes h dirty fits).0 offset size some_bytes

    -- Releasing a handle after any sequence of writes closes it and commits what the same writes
    -- make of a plain buffer: the file's manifest names it, its inode has its length as size and
    -- the time, and reads find it. The conditions are those of an open handle that is its file's
    -- only writer, and that the content, its manifest and the new inode collide neither with what
    -- is stored nor with each other.
    pub test_release-write_all :
        (now : Now) (old : InodeMeta)
        → IsStorable
            (write_all fs fh writes).meta
            ino
            (pwrite_all content writes)
            old
            (written_at now (length (pwrite_all content writes)) old)
        → ((test_release (write_all fs fh writes) ino fh now).0 ≡ ok tt)
          × (Map.get (test_release (write_all fs fh writes) ino fh now).1.open_files fh ≡ none)
          × IsWritten
              (test_release (write_all fs fh writes) ino fh now).1
              ino
              (pwrite_all content writes)
              (written_at now (length (pwrite_all content writes)) old)
    test_release-write_all now old s =
        let (opened, dirty') = write_all-IsOpen fs ino fh content writes h dirty fits in
        test_release_lem (write_all fs fh writes) ino fh (pwrite_all content writes) now old opened
          s some_bytes dirty'
