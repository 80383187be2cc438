-- ===== src/Cas/DiskStore.antt =====
-- crates/cas-local/src/disk_block_store.rs: blocks in files named after their hashes. The files below
-- the root are a map of paths; system calls succeed, and shard directories are made as needed.
use slicefs.Base.{
  ℕ, ◌+◌, ◌/◌, ◌%◌, ◌≤◌, ◌<◌, ◌≡◌, ◌≢◌, refl, sym, ap, ◌∙◌, arith, Bool, true, false, ◌&&◌, ◌==◌,
  not, some, [], ◌∷◌, ◌++◌, length, ltb, if◌then◌else◌, All, Bool-cases, Option-cases, inl, inr,
}
use slicefs.Base.Words.{Bytes, IsByte}
use slicefs.Base.Keys.{lex_key, lex_same, lex_same→eq, lex_same_refl}
use slicefs.Base.Results.{Result, ok, err, ok_or, ◌>>=◌}
use slicefs.Base.Map
use slicefs.Base.Map.{Map, get-insert, get-remove}
use slicefs.Cas.{ChunkHash, CasError, not_found, integrity_failure}
use slicefs.Cas.BlockStore.{different}

pub record LocalDiskStore : Type 0 where
  pub files : Map Bytes Bytes
  pub verify_on_read : Bool

-- `{:02x}`
abbrev pub hex_digit : ℕ → ℕ
hex_digit n = if ltb n 10 then n + 48 else n + 87

unfoldable pub hex : Bytes → Bytes
hex [] = []
hex (byte ∷ bytes) = hex_digit (byte / 16) ∷ hex_digit (byte % 16) ∷ hex bytes

-- The path below the root: a directory of two digits, and the rest; the empty hash is below "00".
unfoldable pub hash_to_path : ChunkHash → Bytes
unfolding hex
hash_to_path [] = b'0' ∷ b'0' ∷ b'/' ∷ []
hash_to_path (byte ∷ bytes) = hex_digit (byte / 16) ∷ hex_digit (byte % 16) ∷ b'/' ∷ hex bytes

-- `path.with_extension("tmp")`, for a name without a dot.
abbrev pub tmp_path : Bytes → Bytes
tmp_path path = path ++ b'.' ∷ b't' ∷ b'm' ∷ b'p' ∷ []

-- `fs::write(&tmp_path, ..)`
unfoldable pub write_tmp : LocalDiskStore → Bytes → Bytes → LocalDiskStore
write_tmp s path bytes = record s { files = Map.insert (tmp_path path) bytes s.files }

-- `fs::rename(&tmp_path, &path)`
unfoldable pub rename_tmp : LocalDiskStore → Bytes → Bytes → LocalDiskStore
rename_tmp s path bytes = record s {
  files = Map.insert path bytes (Map.remove (tmp_path path) s.files);
}

unfoldable pub exists : LocalDiskStore → ChunkHash → Result CasError Bool
exists s h = ok (Map.contains_key s.files (hash_to_path h))

unfoldable pub delete : LocalDiskStore → ChunkHash → Result CasError Unit × LocalDiskStore
delete s h = (ok tt, record s { files = Map.remove (hash_to_path h) s.files })

-- A hash of at least two bytes, as the hashers make them: its path has a name below the directory.
abbrev pub IsHash : ChunkHash → Type 0
IsHash h = All IsByte h × (2 ≤ length h)

digit_same : (a b : ℕ) → a < 16 → b < 16 → (hex_digit a == hex_digit b) ≡ (a == b)
digit_same a b ha hb = ground arith

byte_same : (a b : ℕ) → ((a / 16 == b / 16) && (a % 16 == b % 16)) ≡ (a == b)
byte_same a b = ground arith

-- The digits of two bytes agree exactly when the bytes do.
digits_same :
    (a b : ℕ) (rest : Bool)
    → IsByte a
    → IsByte b
    → ((hex_digit (a / 16) == hex_digit (b / 16))
        && ((hex_digit (a % 16) == hex_digit (b % 16)) && rest))
      ≡ ((a == b) && rest)
digits_same a b rest ha hb = ground (
  arith,
  digit_same (a / 16) (b / 16) (omega arith) (omega arith),
  digit_same (a % 16) (b % 16) (omega arith) (omega arith),
  byte_same a b,
)

hex_same : (h k : Bytes) → All IsByte h → All IsByte k → lex_same (hex h) (hex k) ≡ lex_same h k
unfolding hex
hex_same [] [] ph pk = refl
hex_same [] (b ∷ k) ph pk = refl
hex_same (a ∷ h) [] ph pk = refl
hex_same (a ∷ h) (b ∷ k) ph pk =
    rw (hex_same h k ph.1 pk.1) (digits_same a b (lex_same h k) ph.0 pk.0)

-- Different hashes have different paths.
path_same :
    (h k : ChunkHash)
    → IsHash h
    → IsHash k
    → lex_same (hash_to_path h) (hash_to_path k) ≡ lex_same h k
unfolding hash_to_path
path_same [] k ph pk = absurd (omega (arith, ph.1))
path_same (a ∷ h) [] ph pk = absurd (omega (arith, pk.1))
path_same (a ∷ h) (b ∷ k) ph pk =
    rw (hex_same h k ph.0.1 pk.0.1) (digits_same a b (lex_same h k) ph.0.0 pk.0.0)

-- A path has no dot, so that a temporary file is in the way of no block.
has_dot : Bytes → Bool
has_dot [] = false
has_dot (c ∷ cs) = if c == b'.' then true else has_dot cs

hex_undotted : (h : Bytes) → has_dot (hex h) ≡ false
unfolding hex has_dot
hex_undotted [] = refl
hex_undotted (byte ∷ h) = ground (arith, hex_undotted h)

path_undotted : (h : ChunkHash) → has_dot (hash_to_path h) ≡ false
unfolding hash_to_path has_dot
path_undotted [] = refl
path_undotted (byte ∷ h) = ground (arith, hex_undotted h)

tmp_path-has_dot : (path : Bytes) → has_dot (tmp_path path) ≡ true
unfolding has_dot
tmp_path-has_dot [] = refl
tmp_path-has_dot (c ∷ path) = ground (arith, tmp_path-has_dot path)

tmp_apart : (path : Bytes) (h : ChunkHash) → lex_same (tmp_path path) (hash_to_path h) ≡ false
tmp_apart path h = elim (Bool-cases (lex_same (tmp_path path) (hash_to_path h))) [
  | inr n ↦ n
  | inl y ↦ cc (
    ap has_dot (lex_same→eq (tmp_path path) (hash_to_path h) y),
    tmp_path-has_dot path,
    path_undotted h,
  )
]

-- The hasher is a parameter.
module _ (hash : Bytes → ChunkHash) where
  unfoldable pub put : LocalDiskStore → ChunkHash → Bytes → Result CasError Unit × LocalDiskStore
  unfolding write_tmp rename_tmp
  put s h bytes =
      let computed = hash bytes in
      let path = hash_to_path h in
      if not (lex_same computed h)
      then (err (integrity_failure h computed), s)
      else if Map.contains_key s.files path
      then (ok tt, s)
      else (ok tt, rename_tmp (write_tmp s path bytes) path bytes)

  abbrev pub verified : Bool → ChunkHash → Bytes → Result CasError Bytes
  verified verify_on_read h bytes =
      let computed = hash bytes in
      if verify_on_read
      then (if not (lex_same computed h) then err (integrity_failure h computed) else ok bytes)
      else ok bytes

  unfoldable pub get : LocalDiskStore → ChunkHash → Result CasError Bytes
  get s h = ok_or (Map.get s.files (hash_to_path h)) (not_found h) >>= verified s.verify_on_read h

  -- A read depends on the file of its hash only.
  get-ext :
      (s t : LocalDiskStore) (h : ChunkHash)
      → s.verify_on_read ≡ t.verify_on_read
      → Map.get s.files (hash_to_path h) ≡ Map.get t.files (hash_to_path h)
      → get s h ≡ get t h
  unfolding get
  get-ext s t h v e = rw (v, e, get) refl

  -- A temporary file, whatever a crash left in it, changes no read.
  pub get-write_tmp :
      (s : LocalDiskStore) (path part : Bytes) (h : ChunkHash)
      → get (write_tmp s path part) h ≡ get s h
  unfolding write_tmp
  get-write_tmp s path part h = get-ext (write_tmp s path part) s h refl (
      get-insert s.files (tmp_path path) (hash_to_path h) part
      ∙ ap (λ (t : Bool). if t then some part else Map.get s.files (hash_to_path h))
          (tmp_apart path h))

  renamed :
      (s : LocalDiskStore) (path bytes : Bytes) (k : ChunkHash)
      → Map.get (rename_tmp (write_tmp s path bytes) path bytes).files (hash_to_path k)
        ≡ (if lex_same path (hash_to_path k) then some bytes else Map.get s.files (hash_to_path k))
  unfolding rename_tmp write_tmp
  renamed s path bytes k =
      let files = Map.insert (tmp_path path) bytes s.files in
      rw
        (
          get-insert (Map.remove (tmp_path path) files) path (hash_to_path k) bytes,
          get-remove files (tmp_path path) (hash_to_path k),
          get-insert s.files (tmp_path path) (hash_to_path k) bytes,
          tmp_apart path k,
        )
        refl

  verified_own : (v : Bool) (bytes : Bytes) → verified v (hash bytes) bytes ≡ ok bytes
  verified_own true bytes = rw (lex_same_refl (hash bytes)) refl
  verified_own false bytes = refl

  module _ (s : LocalDiskStore) (bytes : Bytes) (proper : IsHash (hash bytes))
      (clash : (old : Bytes)
        → Map.get s.files (hash_to_path (hash bytes)) ≡ some old
        → old ≡ bytes) where
    -- The file of each hash after a block has been accepted.
    put-files :
        (k : ChunkHash)
        → Map.get (put s (hash bytes) bytes).1.files (hash_to_path k) ≡ (
            if lex_same (hash_to_path (hash bytes)) (hash_to_path k)
            then some bytes
            else Map.get s.files (hash_to_path k))
    unfolding put
    put-files k = elim (Option-cases (Map.get s.files (hash_to_path (hash bytes)))) [
      | inl e ↦
          rw (lex_same_refl (hash bytes), e, put) (renamed s (hash_to_path (hash bytes)) bytes k)
      | inr (old, e) ↦
          rw (lex_same_refl (hash bytes), e, put)
            (there old e (lex_same (hash_to_path (hash bytes)) (hash_to_path k))
              (λ y. lex_same→eq (hash_to_path (hash bytes)) (hash_to_path k) y))
    ]
      where
        there :
            (old : Bytes)
            → Map.get s.files (hash_to_path (hash bytes)) ≡ some old
            → (t : Bool) → (t ≡ true → hash_to_path (hash bytes) ≡ hash_to_path k)
            → Map.get s.files (hash_to_path k)
              ≡ (if t then some bytes else Map.get s.files (hash_to_path k))
        there old e true eq = ap (Map.get s.files) (sym (eq refl)) ∙ e ∙ ap some (clash old e)
        there old e false eq = refl

    put-accepted :
        ((put s (hash bytes) bytes).0 ≡ ok tt)
        × ((put s (hash bytes) bytes).1.verify_on_read ≡ s.verify_on_read)
    unfolding put rename_tmp write_tmp
    put-accepted = elim (Option-cases (Map.get s.files (hash_to_path (hash bytes)))) [
      | inl e ↦ rw (lex_same_refl (hash bytes), e, put) (refl, refl)
      | inr (old, e) ↦ rw (lex_same_refl (hash bytes), e, put) (refl, refl)
    ]

    -- A block under its own hash is accepted if the file of the hash, where there is one, holds
    -- the block. It can then be read, with and without verification, and every other hash reads as
    -- before. The hashes have at least two bytes.
    pub get-put :
        ((put s (hash bytes) bytes).0 ≡ ok tt)
        × (get (put s (hash bytes) bytes).1 (hash bytes) ≡ ok bytes)
        × ((other : ChunkHash)
            → IsHash other
            → other ≢ hash bytes
            → get (put s (hash bytes) bytes).1 other ≡ get s other)
    unfolding get
    get-put = (
      put-accepted.0,
      rw (put-files (hash bytes), lex_same_refl (hash_to_path (hash bytes)), get)
          (verified_own (put s (hash bytes) bytes).1.verify_on_read bytes),
      λ other ph ne. get-ext (put s (hash bytes) bytes).1 s other put-accepted.1 (
          put-files other
          ∙ ap (λ (t : Bool). if t then some bytes else Map.get s.files (hash_to_path other))
              (path_same (hash bytes) other proper ph
                ∙ different (hash bytes) other (λ e. ne (sym e)))),
    )
