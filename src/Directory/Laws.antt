-- ===== src/Directory/Laws.antt =====
-- A directory as a finite map from names to inode numbers: what adding, removing and looking up
-- entries do to it, up to collisions of the hash.
use slicefs.Base.{
  ℕ, ◌+◌, ◌^◌, ◌<◌, ◌≡◌, ◌≢◌, refl, sym, ap, ◌∙◌, true, false, none, some, length, All, arith,
  if◌then◌else◌, Bool-cases, Option-cases, inl, inr,
}
use slicefs.Base.Words.{Bytes, IsU32, IsU64}
use slicefs.Base.Utf8.{is_utf8}
use slicefs.Base.Results.{Result, ok, err, ok_or, ◌>>=◌}
use slicefs.Base.Map
use slicefs.Base.Map.{
  Map, IsSorted, insert-IsSorted, remove-IsSorted, All-insert, All-remove, length-insert,
  length-remove, get-insert, get-remove,
}
use slicefs.Digest.{Digest224, digest_key, digest_same_iff}
use slicefs.Blockset.{Blockset}
use slicefs.Meta.{MetaError, not_found}
use slicefs.Directory.{
  EntryRecord, Entries, serialize_entry_list, is_dot_name, load_entry_list, add_dir_entry,
  remove_dir_entry, lookup_dir_entry,
}
use slicefs.Directory.RoundTrip.{IsEntry, deserialize_entry_list-serialize_entry_list}

-- An entry list that a directory can hold.
pub record IsEntryList (entries : Entries) : Type 0 where
  pub sorted : IsSorted entries
  pub each : All IsEntry entries
  pub count : IsU32 (length entries)

-- A name that can be stored.
pub record IsName (name : Bytes) : Type 0 where
  pub utf8 : is_utf8 name ≡ true
  pub len : IsU32 (length name)

module _ ⦃b : Blockset⦄ where
  open b use {Io, digest, push, file_storage_get, get-push_self, digest-IsDigest}

  abbrev new_entry : Bytes → ℕ → EntryRecord
  new_entry name ino = record { key = digest name; ino = ino; name = name }

  -- What was interned is loaded.
  load_entry_list-intern_entry_list :
      (io : Io) (entries : Entries)
      → IsEntryList entries
      → load_entry_list
          (push io (serialize_entry_list entries))
          (digest (serialize_entry_list entries))
        ≡ ok entries
  unfolding load_entry_list
  load_entry_list-intern_entry_list io entries h =
      rw (get-push_self io (serialize_entry_list entries))
        (deserialize_entry_list-serialize_entry_list entries h.sorted h.each h.count)

  insert-IsEntryList :
      (entries : Entries) (name : Bytes) (ino : ℕ)
      → IsEntryList entries
      → IsName name
      → IsU64 ino
      → length entries + 1 < 2 ^ 32
      → IsEntryList (Map.insert (digest name) (new_entry name ino) entries)
  insert-IsEntryList entries name ino h hn hi hc = record {
    sorted = insert-IsSorted (digest name) (new_entry name ino) entries h.sorted;
    each =
        All-insert IsEntry (digest name) (new_entry name ino) entries
          (record {
            keyed = refl;
            key = digest-IsDigest name;
            ino = hi;
            name = hn.utf8;
            name_len = hn.len;
          })
          h.each;
    count = omega (arith, hc, length-insert (digest name) (new_entry name ino) entries);
  }

  remove-IsEntryList :
      (entries : Entries) (key : Digest224)
      → IsEntryList entries
      → IsEntryList (Map.remove key entries)
  remove-IsEntryList entries key h = record {
    sorted = remove-IsSorted key entries h.sorted;
    each = All-remove IsEntry key entries h.each;
    count = omega (arith, h.count, length-remove key entries);
  }

  lookup_of : Entries → Bytes → Result MetaError ℕ
  lookup_of entries name = ok_or (Map.get entries (digest name)) (not_found 0) >>= λ r. ok r.ino

  lookup_dir_entry_lem :
      (io : Io) (d : Digest224) (entries : Entries) (name : Bytes)
      → load_entry_list io d ≡ ok entries
      → (lookup_dir_entry io d name).0 ≡ lookup_of entries name
  unfolding lookup_dir_entry lookup_of
  lookup_dir_entry_lem io d entries name e = rw (e, lookup_dir_entry)

  -- A lookup in a list from which the key is missing.
  get_of_absent :
      (entries : Entries) (name : Bytes)
      → lookup_of entries name ≡ err (not_found 0)
      → Map.get entries (digest name) ≡ none
  unfolding lookup_of
  get_of_absent entries name e = ground arith

  get_of_present :
      (entries : Entries) (name : Bytes) (ino : ℕ)
      → lookup_of entries name ≡ ok ino
      → (e : EntryRecord) × (Map.get entries (digest name) ≡ some e)
  unfolding lookup_of
  get_of_present entries name ino e = elim (Option-cases (Map.get entries (digest name))) [
    | inl gone ↦ cc (rw gone at e)
    | inr there ↦ there
  ]

  lookup_of-insert :
      (entries : Entries) (name other : Bytes) (ino : ℕ)
      → lookup_of (Map.insert (digest name) (new_entry name ino) entries) other
        ≡ (if digest_key.same (digest name) (digest other) then ok ino else lookup_of entries other)
  unfolding lookup_of
  lookup_of-insert entries name other ino = rw get-insert (ground arith)

  lookup_of-remove :
      (entries : Entries) (name other : Bytes)
      → lookup_of (Map.remove (digest name) entries) other ≡ (
          if digest_key.same (digest name) (digest other)
          then err (not_found 0)
          else lookup_of entries other)
  unfolding lookup_of
  lookup_of-remove entries name other = rw get-remove (ground arith)

  same_self : (d : Digest224) → digest_key.same d d ≡ true
  same_self d = (digest_same_iff d d).1 refl

  same_ne : (d e : Digest224) → e ≢ d → digest_key.same d e ≡ false
  same_ne d e ne = elim (Bool-cases (digest_key.same d e)) [
    | inl s ↦ absurd (ne (sym ((digest_same_iff d e).0 s)))
    | inr n ↦ n
  ]

  -- A lookup in a list that was just interned.
  lookup-intern_entry_list :
      (io : Io) (entries : Entries) (name : Bytes)
      → IsEntryList entries
      → (lookup_dir_entry
          (push io (serialize_entry_list entries))
          (digest (serialize_entry_list entries))
          name).0
        ≡ lookup_of entries name
  lookup-intern_entry_list io entries name h =
      lookup_dir_entry_lem _ _ entries name (load_entry_list-intern_entry_list io entries h)

  add_dir_entry_new :
      (io : Io) (d : Digest224) (entries : Entries) (name : Bytes) (ino : ℕ)
      → load_entry_list io d ≡ ok entries
      → is_dot_name name ≡ false
      → Map.get entries (digest name) ≡ none
      → add_dir_entry io d name ino ≡ (
        ok (digest (serialize_entry_list (Map.insert (digest name) (new_entry name ino) entries))),
        push
            (push io name)
            (serialize_entry_list (Map.insert (digest name) (new_entry name ino) entries)),
      )
  unfolding add_dir_entry
  add_dir_entry_new io d entries name ino loads nd absent = rw (nd, loads, absent, add_dir_entry)

  remove_dir_entry_there :
      (io : Io) (d : Digest224) (entries : Entries) (name : Bytes) {e : EntryRecord}
      → load_entry_list io d ≡ ok entries
      → is_dot_name name ≡ false
      → Map.get entries (digest name) ≡ some e
      → remove_dir_entry io d name ≡ (
        ok (digest (serialize_entry_list (Map.remove (digest name) entries))),
        push (push io name) (serialize_entry_list (Map.remove (digest name) entries)),
      )
  unfolding remove_dir_entry
  remove_dir_entry_there io d entries name loads nd there = rw (nd, loads, there, remove_dir_entry)

  module _ (io : Io) (d : Digest224) (entries : Entries) (name : Bytes)
      (loads : load_entry_list io d ≡ ok entries) (h : IsEntryList entries)
      (nd : is_dot_name name ≡ false) where
    -- Adding a new name to a directory with room succeeds; the new list has the entry, and every
    -- name that does not collide with it is looked up as before. The list must load and be well
    -- formed, the name, not a dot name, and the number must be in range, and the name must not be
    -- there.
    pub add_dir_entry_lem :
        (ino : ℕ)
        → IsName name
        → IsU64 ino
        → length entries + 1 < 2 ^ 32
        → (lookup_dir_entry io d name).0 ≡ err (not_found 0)
        → (d' : Digest224) × ((add_dir_entry io d name ino).0 ≡ ok d')
          × ((lookup_dir_entry (add_dir_entry io d name ino).1 d' name).0 ≡ ok ino)
          × ((other : Bytes)
              → digest other ≢ digest name
              → (lookup_dir_entry (add_dir_entry io d name ino).1 d' other).0
                ≡ (lookup_dir_entry io d other).0)
    add_dir_entry_lem ino hn hi hc absent =
        let gone : Map.get entries (digest name) ≡ none =
          get_of_absent entries name
            (sym (lookup_dir_entry_lem io d entries name loads) ∙ absent) in
        let added : Entries = Map.insert (digest name) (new_entry name ino) entries in
        let done = add_dir_entry_new io d entries name ino loads nd gone in
        let valid = insert-IsEntryList entries name ino h hn hi hc in
        (
          digest (serialize_entry_list added),
          ap (λ r. r.0) done,
          rw done (
              lookup-intern_entry_list (push io name) added name valid
              ∙ lookup_of-insert entries name name ino
              ∙ rw (same_self (digest name)) refl),
          λ other ne. rw done (
              lookup-intern_entry_list (push io name) added other valid
              ∙ lookup_of-insert entries name other ino
              ∙ rw (same_ne (digest name) (digest other) ne)
                  (sym (lookup_dir_entry_lem io d entries other loads))),
        )

    -- Removing a name that is there succeeds; in the new list the name is missing, and every name
    -- that does not collide with it is looked up as before. The list must load and be well formed,
    -- and the name not be a dot name.
    pub remove_dir_entry_lem :
        (ino : ℕ)
        → (lookup_dir_entry io d name).0 ≡ ok ino
        → (d' : Digest224) × ((remove_dir_entry io d name).0 ≡ ok d')
          × ((lookup_dir_entry (remove_dir_entry io d name).1 d' name).0 ≡ err (not_found 0))
          × ((other : Bytes)
              → digest other ≢ digest name
              → (lookup_dir_entry (remove_dir_entry io d name).1 d' other).0
                ≡ (lookup_dir_entry io d other).0)
    remove_dir_entry_lem ino there =
        let (e, found) =
          get_of_present entries name ino
            (sym (lookup_dir_entry_lem io d entries name loads) ∙ there) in
        let removed : Entries = Map.remove (digest name) entries in
        let done = remove_dir_entry_there io d entries name loads nd found in
        let valid = remove-IsEntryList entries (digest name) h in
        (
          digest (serialize_entry_list removed),
          ap (λ r. r.0) done,
          rw done (
              lookup-intern_entry_list (push io name) removed name valid
              ∙ lookup_of-remove entries name name
              ∙ rw (same_self (digest name)) refl),
          λ other ne. rw done (
              lookup-intern_entry_list (push io name) removed other valid
              ∙ lookup_of-remove entries name other
              ∙ rw (same_ne (digest name) (digest other) ne)
                  (sym (lookup_dir_entry_lem io d entries other loads))),
        )
