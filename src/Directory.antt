-- ===== src/Directory.antt =====
-- crates/metadata/src/directory.rs: a directory is an entry list, a byte string in the storage,
-- that maps the digest of a name to the inode number and the name. The proofs are in the modules
-- below.
pub mod RoundTrip
pub mod Laws
use slicefs.Base.{
  ℕ, zero, suc, ◌+◌, ◌^◌, ◌%◌, ◌≡◌, Bool, true, false, ◌||◌, Option, none, some, List, [], ◌∷◌,
  ◌++◌, map, length, ltb, leb, slice, if◌then◌else◌,
}
use slicefs.Base.Words.{Bytes, le_bytes}
use slicefs.Base.Keys.{lex_same}
use slicefs.Base.Utf8.{is_utf8}
use slicefs.Base.Results.{Result, ok, err, ok_or, guard, is_some, ◌>>=◌, ◌>>◌}
use slicefs.Base.Map
use slicefs.Base.Map.{Map}
use slicefs.Digest.{Digest224, digest_bytes, digest_key}
use slicefs.Blockset.{Blockset, push_all}
use slicefs.Counted.{counted, read_counted}
use slicefs.Records.{u32_at, u64_at, digest_at}
use slicefs.Meta.{MetaError, DirEntry, corrupted, invalid_name, already_exists, not_found}

pub record EntryRecord : Type 0 where
  pub key : Digest224
  pub ino : ℕ
  pub name : Bytes

abbrev pub Entries : Type 0
Entries = Map Digest224 EntryRecord

abbrev pub entry_bytes : EntryRecord → Bytes
entry_bytes e = digest_bytes e.key ++ (le_bytes 8 e.ino ++ counted e.name)

-- The values in key order.
unfoldable pub entries_bytes : Entries → Bytes
entries_bytes [] = []
entries_bytes ((k, e) ∷ entries) = entry_bytes e ++ entries_bytes entries

-- `entries.len() as u32` keeps the low 32 bits.
unfoldable pub serialize_entry_list : Entries → Bytes
serialize_entry_list entries = le_bytes 4 (length entries) ++ entries_bytes entries

-- One round of the loop: the entry at `i`, and the index behind it.
pub read_entry : ℕ → Bytes → Result MetaError (EntryRecord × ℕ)
read_entry i bytes = do
  guard (leb (i + 28) (length bytes)) corrupted
  let key = digest_at i bytes
  guard (leb (i + 28 + 8) (length bytes)) corrupted
  let ino = u64_at (i + 28) bytes
  (name, i') ← read_counted (i + 36) bytes
  guard (is_utf8 name) corrupted
  ok (record { key = key; ino = ino; name = name }, i')

-- `for _ in 0..count`
pub read_entries : ℕ → ℕ → Bytes → Entries → Result MetaError Entries
read_entries zero i bytes entries = ok entries
read_entries (suc n) i bytes entries = do
  (e, i') ← read_entry i bytes
  read_entries n i' bytes (Map.insert e.key e entries)

unfoldable pub deserialize_entry_list : Bytes → Result MetaError Entries
unfolding read_entries read_entry
deserialize_entry_list [] = ok []
deserialize_entry_list (x ∷ xs) = do
  let bytes = x ∷ xs
  guard (leb 4 (length bytes)) corrupted
  read_entries (u32_at 0 bytes) 4 bytes []

abbrev pub dot : Bytes
dot = b'.' ∷ []

abbrev pub dotdot : Bytes
dotdot = b'.' ∷ b'.' ∷ []

abbrev pub is_dot_name : Bytes → Bool
is_dot_name name = lex_same name dot || lex_same name dotdot

-- `map(|r| DirEntry { name: r.name, ino: r.ino })` over the values.
abbrev pub dir_entries : Entries → List DirEntry
dir_entries [] = []
dir_entries ((k, e) ∷ entries) = record { name = e.name; ino = e.ino } ∷ dir_entries entries

module _ ⦃b : Blockset⦄ where
  open b use {Io, digest, push, file_storage_get}

  -- The name hash; its bytes are stored on the way.
  abbrev pub entry_key : Io → Bytes → Digest224 × Io
  entry_key storage name = push_all storage name

  abbrev pub intern_entry_list : Io → Entries → Digest224 × Io
  intern_entry_list storage entries = push_all storage (serialize_entry_list entries)

  unfoldable pub load_entry_list : Io → Digest224 → Result MetaError Entries
  load_entry_list io list_digest =
      ok_or (file_storage_get io list_digest) corrupted >>= deserialize_entry_list

  unfoldable pub create_dir_entries : Io → ℕ → ℕ → Digest224 × Io
  create_dir_entries storage self_ino parent_ino =
      let (dot_key, s1) = entry_key storage dot in
      let (dotdot_key, s2) = entry_key s1 dotdot in
      let entries : Entries =
        Map.insert dot_key (record { key = dot_key; ino = self_ino; name = dot }) [] in
      intern_entry_list s2 (
        Map.insert dotdot_key (record { key = dotdot_key; ino = parent_ino; name = dotdot })
          entries)

  -- The storage comes back beside an error too: the name's bytes were pushed.
  unfoldable pub add_dir_entry : Io → Digest224 → Bytes → ℕ → Result MetaError Digest224 × Io
  add_dir_entry io dir_digest name ino =
      if is_dot_name name
      then (err (invalid_name name), io)
      else elim (load_entry_list io dir_digest) [
        | err e ↦ (err e, io)
        | ok entries ↦
            let (key, io') = entry_key io name in
            if Map.contains_key entries key
            then (err (already_exists ino), io')
            else let (d, io'') =
                intern_entry_list io'
                  (Map.insert key (record { key = key; ino = ino; name = name }) entries) in
              (ok d, io'')
      ]

  unfoldable pub remove_dir_entry : Io → Digest224 → Bytes → Result MetaError Digest224 × Io
  remove_dir_entry io dir_digest name =
      if is_dot_name name
      then (err (invalid_name name), io)
      else elim (load_entry_list io dir_digest) [
        | err e ↦ (err e, io)
        | ok entries ↦
            let (key, io') = entry_key io name in
            if Map.contains_key entries key
            then (let (d, io'') = intern_entry_list io' (Map.remove key entries) in (ok d, io''))
            else (err (not_found 0), io')
      ]

  unfoldable pub lookup_dir_entry : Io → Digest224 → Bytes → Result MetaError ℕ × Io
  lookup_dir_entry io dir_digest name = elim (load_entry_list io dir_digest) [
    | err e ↦ (err e, io)
    | ok entries ↦
        let (key, io') = entry_key io name in
        (ok_or (Map.get entries key) (not_found 0) >>= λ r. ok r.ino, io')
  ]

  unfoldable pub list_dir_entries : Io → Digest224 → Result MetaError (List DirEntry)
  list_dir_entries io dir_digest =
      load_entry_list io dir_digest >>= λ entries. ok (dir_entries entries)
