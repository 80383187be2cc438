-- ===== src/Filesystem/Writes.antt =====
-- What an open handle stands for, and what writing through it and reading do.
use slicefs.Base.{
  ℕ, ◌%◌, ◌^◌, ◌<◌, ◌≡◌, ◌≢◌, refl, sym, ap, ◌∙◌, true, false, some, inl, inr, Bool-cases, [], ◌∷◌,
  ◌++◌, length, length-append, take, drop, All, arith, ◌==◌, ==_iff, lt→ltb, suc, ==_refl,
}
use slicefs.Base.Words.{Bytes}
use slicefs.Base.Keys.{nat_key}
use slicefs.Base.Results.{ok}
use slicefs.Base.Map
use slicefs.Base.Map.{Map, get-insert, get-remove, All-insert, All-remove}
use slicefs.Digest.{Digest224}
use slicefs.Blockset.{Blockset}
use slicefs.Blockset.Accumulator.{Accumulator}
use slicefs.Store.{Store}
use slicefs.Filesystem.{WriteMode, streaming, buffered, OpenFileState, SliceFsFilesystem}
use slicefs.Filesystem.Content.{
  pwrite, committed_content, fallback_content, write_in_mode, test_write, is_writer, find_writer,
  mode_raw, raw_bytes, test_read,
}
use slicefs.Filesystem.Ranges.{pwrite_end, window_lem}
use slicefs.Filesystem.Storage.{materialize_lem, committed_content_same}

module _ ⦃b : Blockset⦄ ⦃a : Accumulator b⦄ where
  open b use {Io, digest, file_storage_get, get-push_self}
  open a use {
    State, push_bytes, finish, pushed, Holds, pushed-push_bytes, finish-digest, Holds-push_bytes,
    get-push_bytes, get-finish,
  }

  -- The bytes that a mode has, and the offset that it expects. A stream without bytes belongs to a
  -- file without committed content.
  abbrev pub ModeTracks : Store Io → ℕ → WriteMode State → Bytes → Type 0
  ModeTracks s ino (streaming state next_expected_offset) content =
      (pushed state ≡ content)
      × (next_expected_offset ≡ length content)
      × Holds s.io state
      × (length content ≡ 0 → committed_content s ino ≡ [])
  ModeTracks s ino (buffered buf) content = buf ≡ content

  -- The handle stands for the content, the count is its length, which fits 64 bits.
  pub record Tracks (s : Store Io) (file_state : OpenFileState State) (content : Bytes)
      : Type 0 where
    pub mode : ModeTracks s file_state.ino file_state.write_mode content
    pub count : file_state.byte_count ≡ length content
    pub fits : length content < 2 ^ 64

  -- What a streaming handle falls back on is its content.
  fallback_lem :
      (s : Store Io) (file_state : OpenFileState State) (state : State) (content : Bytes)
      → pushed state ≡ content
      → Holds s.io state
      → (length content ≡ 0 → committed_content s file_state.ino ≡ [])
      → file_state.byte_count ≡ length content
      → (fallback_content s file_state state).0 ≡ content
  unfolding fallback_content
  fallback_lem s file_state state [] p h none_there count = rw count (none_there refl)
  fallback_lem s file_state state (x ∷ content) p h none_there count =
      rw (count, lt→ltb 0 (suc (length content)) (omega arith)) (materialize_lem s.io state h ∙ p)

  module _ (s : Store Io) (file_state : OpenFileState State) (content bytes : Bytes) (offset : ℕ)
      (count : file_state.byte_count ≡ length content)
      (fits : length (pwrite content offset bytes) < 2 ^ 64) where
    -- Whatever the mode, a write leaves the handle standing for the reference content.
    write_in_mode_lem :
        (mode : WriteMode State)
        → ModeTracks s file_state.ino mode content
        → Tracks
            (write_in_mode s file_state mode offset bytes).1
            (write_in_mode s file_state mode offset bytes).0
            (pwrite content offset bytes)
    unfolding write_in_mode
    write_in_mode_lem (buffered buf) e = rw e (record { mode = refl; count = refl; fits = fits })
    write_in_mode_lem (streaming state next) (p, q, holds, none_there) =
        elim (Bool-cases (offset == next)) [
          | inl y ↦
              let at_end : offset ≡ length content = (==_iff offset next).0 y ∙ q in
              let whole = ap (λ k. pwrite content k bytes) at_end ∙ pwrite_end content bytes in
              let len = ap length whole ∙ length-append content bytes in
              let same = λ (d : Digest224). get-push_bytes s.io state bytes d in
              rw (y, whole)
                (record {
                  mode = (
                    pushed-push_bytes s.io state bytes ∙ ap (λ t. t ++ bytes) p,
                    omega (arith, q, len, fits, length-append content bytes),
                    Holds-push_bytes s.io state bytes holds,
                    λ z.
                        committed_content_same (record s { io = (push_bytes s.io state bytes).1 }) s
                          file_state.ino same refl
                        ∙ none_there (omega (arith, length-append content bytes, z)),
                  );
                  count = omega (arith, count, len, fits, length-append content bytes);
                  fits = omega (arith, len, fits, length-append content bytes);
                })
          | inr n ↦
              rw (n, fallback_lem s file_state state content p holds none_there count)
                (record { mode = refl; count = refl; fits = fits })
        ]

  write_in_mode-ino :
      (s : Store Io) (file_state : OpenFileState State) (mode : WriteMode State) (offset : ℕ)
      (bytes : Bytes)
      → (write_in_mode s file_state mode offset bytes).0.ino ≡ file_state.ino
  unfolding write_in_mode
  write_in_mode-ino s file_state (buffered buf) offset bytes = refl
  write_in_mode-ino s file_state (streaming state next) offset bytes =
      elim (Bool-cases (offset == next)) [ inl y ↦ rw y refl | inr n ↦ rw n refl ]

  -- Apart from the handle `fh`, none has bytes for the inode.
  abbrev pub SoleWriter : Map ℕ (OpenFileState State) → ℕ → ℕ → Type 0
  SoleWriter open_files ino fh =
      All (λ (e : ℕ × OpenFileState State). is_writer ino e.1 ≡ true → e.0 ≡ fh) open_files

  -- An open handle of an inode that is its only writer and stands for the content.
  pub record IsOpen (fs : SliceFsFilesystem Io State) (ino fh : ℕ) (content : Bytes) : Type 0 where
    pub file_state : OpenFileState State
    pub found : Map.get fs.open_files fh ≡ some file_state
    pub owner : file_state.ino ≡ ino
    pub tracks : Tracks fs.meta file_state content
    pub sole : SoleWriter fs.open_files ino fh

  module _ (fs : SliceFsFilesystem Io State) (ino fh : ℕ) (content : Bytes)
      (h : IsOpen fs ino fh content) where
    -- Writing through an open handle, at any offset, succeeds, and leaves the handle open with the
    -- bytes written over its content, whether it streams or buffers, if the end of the content then
    -- fits 64 bits. No other handle changes.
    pub test_write_lem :
        (offset : ℕ) (bytes : Bytes)
        → length (pwrite content offset bytes) < 2 ^ 64
        → ((test_write fs fh offset bytes).0 ≡ ok (length bytes % 2 ^ 32))
          × IsOpen (test_write fs fh offset bytes).1 ino fh (pwrite content offset bytes)
          × ((other : ℕ)
              → other ≢ fh
              → Map.get (test_write fs fh offset bytes).1.open_files other
                ≡ Map.get fs.open_files other)
    unfolding test_write
    test_write_lem offset bytes fits =
        let o = h.file_state in
        let after = (write_in_mode fs.meta o o.write_mode offset bytes).0 in
        let removed = Map.remove fh fs.open_files in
        rw (h.found, test_write)
          (
            refl,
            record {
              file_state = after;
              found = get-insert removed fh fh after ∙ rw (==_refl fh) refl;
              owner = write_in_mode-ino fs.meta o o.write_mode offset bytes ∙ h.owner;
              tracks =
                  write_in_mode_lem fs.meta o content bytes offset h.tracks.count fits o.write_mode
                    h.tracks.mode;
              sole =
                  All-insert (λ (e : ℕ × OpenFileState State). is_writer ino e.1 ≡ true → e.0 ≡ fh)
                    fh after removed (λ _. refl)
                    (All-remove
                      (λ (e : ℕ × OpenFileState State). is_writer ino e.1 ≡ true → e.0 ≡ fh) fh
                      fs.open_files h.sole);
            },
            λ other ne.
                get-insert removed fh other after
                ∙ rw (different other ne)
                    (get-remove fs.open_files fh other ∙ rw (different other ne) refl),
          )
      where
        different : (other : ℕ) → other ≢ fh → (fh == other) ≡ false
        different other ne = elim (Bool-cases (fh == other)) [
          | inl y ↦ absurd (ne (sym ((==_iff fh other).0 y)))
          | inr n ↦ n
        ]

  find_writer_lem :
      (open_files : Map ℕ (OpenFileState State)) (ino fh : ℕ) (o : OpenFileState State)
      → Map.get open_files fh ≡ some o
      → is_writer ino o ≡ true
      → SoleWriter open_files ino fh
      → find_writer ino open_files ≡ some o
  unfolding find_writer Map.get
  find_writer_lem [] ino fh o found y sole = cc (found)
  find_writer_lem ((k, p) ∷ open_files) ino fh o found y sole =
      elim (Bool-cases (is_writer ino p)) [
        | inl w ↦ rw w (rw (sole.0 w, ==_refl fh) at found)
        | inr n ↦ elim (Bool-cases (k == fh)) [
          | inl e ↦ let same : some p ≡ some o = rw e at found in cc (same, n, y)
          | inr e ↦ rw n (find_writer_lem open_files ino fh o (rw e at found) y sole.1)
        ]
      ]

  is_writer_lem :
      (o : OpenFileState State) (ino : ℕ) → o.ino ≡ ino → 0 < o.byte_count → is_writer ino o ≡ true
  is_writer_lem o ino e h = ground arith

  mode_raw_lem :
      (s : Store Io) (ino : ℕ) (mode : WriteMode State) (content : Bytes)
      → ModeTracks s ino mode content
      → (mode_raw s mode).0 ≡ ok content
  unfolding mode_raw
  mode_raw_lem s ino (buffered buf) content e = ap ok e
  mode_raw_lem s ino (streaming state next) content (p, q, holds, none_there) =
      rw
        (
          finish-digest s.io state,
          get-finish s.io state (digest (pushed state)) holds,
          get-push_self s.io (pushed state),
        )
        (ap ok p)

  module _ (fs : SliceFsFilesystem Io State) (ino fh : ℕ) (content : Bytes)
      (h : IsOpen fs ino fh content) where
    -- A read finds what its open writer stands for.
    pub test_read_lem :
        (offset size : ℕ)
        → 0 < length content
        → (test_read fs ino offset size).0 ≡ ok (take size (drop offset content))
    unfolding test_read raw_bytes
    test_read_lem offset size h' =
        rw
          (
            find_writer_lem fs.open_files ino fh h.file_state h.found
                (is_writer_lem h.file_state ino h.owner (omega (arith, h', h.tracks.count))) h.sole,
            mode_raw_lem fs.meta h.file_state.ino h.file_state.write_mode content h.tracks.mode,
          )
          (ap ok (window_lem offset size content))
