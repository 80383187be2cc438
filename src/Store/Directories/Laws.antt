-- ===== src/Store/Directories/Laws.antt =====
-- crates/metadata/src/store.rs: what linking and unlinking a name does to the directories of a store.
use slicefs.Base.{
  ℕ, ◌+◌, ◌^◌, ◌<◌, ◌≡◌, ◌≢◌, refl, sym, ap, ◌∙◌, Bool, true, false, some, length, ◌==◌, ==_iff,
  ==_refl, if◌then◌else◌, Bool-cases, inl, inr,
}
use slicefs.Base.Words.{Bytes, IsU64}
use slicefs.Base.Keys.{nat_key}
use slicefs.Base.Results.{ok, err}
use slicefs.Base.Map
use slicefs.Base.Map.{Map, get-insert}
use slicefs.Digest.{Digest224}
use slicefs.Blockset.{Blockset}
use slicefs.Meta.{not_found}
use slicefs.Directory.{
  Entries, is_dot_name, load_entry_list, add_dir_entry, remove_dir_entry, lookup_dir_entry,
}
use slicefs.Directory.Laws.{IsEntryList, IsName, add_dir_entry_lem, remove_dir_entry_lem}
use slicefs.Store.{Store}
use slicefs.Store.Directories.{map_err, lookup, link, unlink}

module _ ⦃b : Blockset⦄ where
  open b use {Io, digest}

  -- The list of one directory replaced, in another storage.
  abbrev relisted : Store Io → Io → ℕ → Digest224 → Store Io
  relisted s io parent d = record s { io = io; dir_data = Map.insert parent d s.dir_data }

  lookup_of_list :
      (s : Store Io) (parent : ℕ) (d : Digest224) (name : Bytes)
      → Map.get s.dir_data parent ≡ some d
      → (lookup s parent name).0 ≡ map_err (not_found 0) (lookup_dir_entry s.io d name).0
  unfolding lookup
  lookup_of_list s parent d name e = rw (e, lookup) refl

  get-relisted :
      (s : Store Io) (io : Io) (parent : ℕ) (d : Digest224)
      → Map.get (relisted s io parent d).dir_data parent ≡ some d
  get-relisted s io parent d = get-insert s.dir_data parent parent d ∙ rw (==_refl parent) refl

  others_kept :
      (s : Store Io) (io : Io) (parent : ℕ) (d : Digest224) (q : ℕ)
      → q ≢ parent
      → Map.get (relisted s io parent d).dir_data q ≡ Map.get s.dir_data q
  others_kept s io parent d q ne =
      get-insert s.dir_data parent q d ∙ otherwise (parent == q) different
    where
      different : (parent == q) ≡ false
      different = elim (Bool-cases (parent == q)) [
        | inl y ↦ absurd (ne (sym ((==_iff parent q).0 y)))
        | inr n ↦ n
      ]

      otherwise :
          (t : Bool)
          → t ≡ false
          → (if t then some d else Map.get s.dir_data q) ≡ Map.get s.dir_data q
      otherwise true h = cc (h)
      otherwise false h = refl

  link_done :
      (s : Store Io) (parent : ℕ) (d d' : Digest224) (name : Bytes) (ino : ℕ)
      → Map.get s.dir_data parent ≡ some d
      → (add_dir_entry s.io d name ino).0 ≡ ok d'
      → link s parent name ino ≡ (ok tt, relisted s (add_dir_entry s.io d name ino).1 parent d')
  unfolding link
  link_done s parent d d' name ino e a = rw (e, link, a) refl

  unlink_done :
      (s : Store Io) (parent : ℕ) (d d' : Digest224) (name : Bytes)
      → Map.get s.dir_data parent ≡ some d
      → (remove_dir_entry s.io d name).0 ≡ ok d'
      → unlink s parent name ≡ (ok tt, relisted s (remove_dir_entry s.io d name).1 parent d')
  unfolding unlink
  unlink_done s parent d d' name e a = rw (e, unlink, a) refl

  module _ (s : Store Io) (parent : ℕ) (d : Digest224) (entries : Entries) (name : Bytes)
      (there : Map.get s.dir_data parent ≡ some d) (loads : load_entry_list s.io d ≡ ok entries)
      (h : IsEntryList entries) (nd : is_dot_name name ≡ false) where
    -- Linking a new name in a directory with room succeeds; the name then looks up as the number,
    -- every name that does not collide with it looks up as before, and no other directory changes.
    -- The directory's list must load and be well formed, the name, not a dot name, and the number
    -- must be in range, and the name must not be there.
    pub link_lem :
        (ino : ℕ)
        → IsName name
        → IsU64 ino
        → length entries + 1 < 2 ^ 32
        → (lookup_dir_entry s.io d name).0 ≡ err (not_found 0)
        → ((link s parent name ino).0 ≡ ok tt)
          × ((lookup (link s parent name ino).1 parent name).0 ≡ ok ino)
          × ((other : Bytes)
              → digest other ≢ digest name
              → (lookup (link s parent name ino).1 parent other).0 ≡ (lookup s parent other).0)
          × ((q : ℕ)
              → q ≢ parent
              → Map.get (link s parent name ino).1.dir_data q ≡ Map.get s.dir_data q)
    link_lem ino hn hi hc absent =
        let (d', added, found, kept) =
          add_dir_entry_lem s.io d entries name loads h nd ino hn hi hc absent in
        let io = (add_dir_entry s.io d name ino).1 in
        let now = lookup_of_list (relisted s io parent d') parent d' in
        rw (link_done s parent d d' name ino there added) (
          refl,
          now name (get-relisted s io parent d') ∙ ap (map_err (not_found 0)) found,
          λ other ne.
              now other (get-relisted s io parent d')
              ∙ ap (map_err (not_found 0)) (kept other ne)
              ∙ sym (lookup_of_list s parent d other there),
          others_kept s io parent d',
        )

    -- Unlinking a name that is there succeeds; the name is then missing, every name that does not
    -- collide with it looks up as before, and no other directory changes. The directory's list
    -- must load and be well formed, and the name not be a dot name.
    pub unlink_lem :
        (ino : ℕ)
        → (lookup_dir_entry s.io d name).0 ≡ ok ino
        → ((unlink s parent name).0 ≡ ok tt)
          × ((lookup (unlink s parent name).1 parent name).0 ≡ err (not_found 0))
          × ((other : Bytes)
              → digest other ≢ digest name
              → (lookup (unlink s parent name).1 parent other).0 ≡ (lookup s parent other).0)
          × ((q : ℕ)
              → q ≢ parent
              → Map.get (unlink s parent name).1.dir_data q ≡ Map.get s.dir_data q)
    unlink_lem ino present =
        let (d', removed, gone, kept) =
          remove_dir_entry_lem s.io d entries name loads h nd ino present in
        let io = (remove_dir_entry s.io d name).1 in
        let now = lookup_of_list (relisted s io parent d') parent d' in
        rw (unlink_done s parent d d' name there removed) (
          refl,
          now name (get-relisted s io parent d') ∙ ap (map_err (not_found 0)) gone,
          λ other ne.
              now other (get-relisted s io parent d')
              ∙ ap (map_err (not_found 0)) (kept other ne)
              ∙ sym (lookup_of_list s parent d other there),
          others_kept s io parent d',
        )
