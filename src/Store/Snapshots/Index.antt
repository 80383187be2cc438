-- ===== src/Store/Snapshots/Index.antt =====
-- crates/metadata/src/store.rs: the two snapshot maps as an index of one list of snapshots.
use slicefs.Base.{
  ℕ, ◌+◌, ◌^◌, ◌%◌, ◌<◌, ◌≡◌, refl, sym, ap, ◌∙◌, true, Option, some, List, [], ◌∷◌, ◌++◌,
  append_assoc, append-nil, All, arith, ltb, ◌==◌, if◌then◌else◌,
}
use slicefs.Base.Words.{Bytes}
use slicefs.Base.Keys.{nat_key, lex_key}
use slicefs.Base.Map
use slicefs.Base.Map.{
  Map, IsSorted, get-insert, insert_all, insert_all_lem, insert_all-append, insert_last,
  snoc-IsSorted, values,
}
use slicefs.Blockset.{Blockset}
use slicefs.Snapshot.{SnapshotEntry}
use slicefs.Store.{Store}
use slicefs.Store.Commit.{commit}
use slicefs.Store.Snapshots.{
  keyed, named, name_entry, max_version, set_snapshots, list_snapshots, find_snapshot, parse_u64,
  record_snapshot, create_snapshot,
}

-- The snapshot maps are those of the listed snapshots, in ascending order of the versions.
pub record IsIndexed {Io : Type 0} (s : Store Io) : Type 0 where
  pub sorted : IsSorted s.snapshots_by_version
  pub versions : s.snapshots_by_version ≡ keyed (list_snapshots s)
  pub names : s.snapshots_by_name ≡ insert_all (named (list_snapshots s)) []

values-keyed : (snaps : List SnapshotEntry) → values (keyed snaps) ≡ snaps
values-keyed [] = refl
values-keyed (s ∷ snaps) = ap (λ t. s ∷ t) (values-keyed snaps)

values-append :
    (m : Map ℕ SnapshotEntry) (v : ℕ) (e : SnapshotEntry)
    → values (m ++ (v, e) ∷ []) ≡ values m ++ e ∷ []
values-append [] v e = refl
values-append ((j, w) ∷ m) v e = ap (λ t. w ∷ t) (values-append m v e)

keyed-append :
    (xs : List SnapshotEntry) (e : SnapshotEntry)
    → keyed (xs ++ e ∷ []) ≡ keyed xs ++ (e.version, e) ∷ []
keyed-append [] e = refl
keyed-append (x ∷ xs) e = ap (λ t. (x.version, x) ∷ t) (keyed-append xs e)

named-append :
    (xs : List SnapshotEntry) (e : SnapshotEntry)
    → named (xs ++ e ∷ []) ≡ named xs ++ name_entry e.name e.version
named-append [] e = append-nil (name_entry e.name e.version)
named-append (x ∷ xs) e =
    ap (λ t. name_entry x.name x.version ++ t) (named-append xs e)
    ∙ sym (append_assoc (name_entry x.name x.version) (named xs) (name_entry e.name e.version))

below_max :
    (m : Map ℕ SnapshotEntry) (n : ℕ)
    → max_version m < n
    → All (λ (e : ℕ × SnapshotEntry). ltb e.0 n ≡ true) m
below_max [] n h = tt
below_max ((v, s) ∷ m) n h = (ground arith, below_max m n (ground arith))

module _ {Io : Type 0} where
  -- Setting the snapshots to a list in ascending order of versions makes a store that lists
  -- exactly these and whose two maps index them.
  pub list_snapshots-set_snapshots :
      (s : Store Io) (snaps : List SnapshotEntry)
      → IsSorted (keyed snaps)
      → (list_snapshots (set_snapshots s snaps) ≡ snaps) × IsIndexed (set_snapshots s snaps)
  unfolding list_snapshots set_snapshots
  list_snapshots-set_snapshots s snaps h = (
    listed,
    record {
      sorted = rw all h;
      versions = rw all (ap keyed (sym (values-keyed snaps)));
      names = rw all (ap (λ xs. insert_all (named xs) []) (sym (values-keyed snaps)));
    },
  )
    where
      all : insert_all (keyed snaps) [] ≡ keyed snaps
      all = insert_all_lem (keyed snaps) [] h

      listed : values (insert_all (keyed snaps) []) ≡ snaps
      listed = ap values all ∙ values-keyed snaps

  -- The listed snapshots of an indexed store, set in any other store, restore both maps.
  pub set_snapshots-list_snapshots :
      (s t : Store Io)
      → IsIndexed s
      → ((set_snapshots t (list_snapshots s)).snapshots_by_version ≡ s.snapshots_by_version)
        × ((set_snapshots t (list_snapshots s)).snapshots_by_name ≡ s.snapshots_by_name)
  unfolding set_snapshots
  set_snapshots-list_snapshots s t h = (
    ap (λ m. insert_all m []) (sym h.versions) ∙ insert_all_lem s.snapshots_by_version [] h.sorted,
    sym h.names,
  )

inserted_last :
    (m : Map ℕ SnapshotEntry) (e : SnapshotEntry)
    → IsSorted m
    → max_version m + 1 < 2 ^ 64
    → e.version ≡ (max_version m + 1) % 2 ^ 64
    → (Map.insert e.version e m ≡ m ++ (e.version, e) ∷ []) × IsSorted (m ++ (e.version, e) ∷ [])
inserted_last m e h hv q =
    let sorted = snoc-IsSorted m e.version e h (below_max m e.version (omega (arith, hv, q))) in
    (insert_last m e.version e [] sorted, sorted)

module _ ⦃b : Blockset⦄ where
  open b use {Io}

  module _ (s : Store Io) (name : Option Bytes) (created_at : ℕ) (h : IsIndexed s)
      (hv : max_version s.snapshots_by_version + 1 < 2 ^ 64) where
    -- In an indexed store whose versions are not exhausted, creating a snapshot appends the
    -- returned entry, with the committed root, to the list, and keeps the store indexed.
    pub list_snapshots-create_snapshot :
        (list_snapshots (create_snapshot s name created_at).1
          ≡ list_snapshots s ++ (create_snapshot s name created_at).0 ∷ [])
        × ((create_snapshot s name created_at).0.root ≡ (commit s).0)
        × IsIndexed (create_snapshot s name created_at).1
    unfolding list_snapshots create_snapshot record_snapshot commit
    list_snapshots-create_snapshot =
        let e = (create_snapshot s name created_at).0 in
        let (last, sorted) = inserted_last s.snapshots_by_version e h.sorted hv refl in
        let listed = ap values last ∙ values-append s.snapshots_by_version e.version e in
        (
          listed,
          refl,
          record {
            sorted = rw last sorted;
            versions =
                last
                ∙ ap (λ m. m ++ (e.version, e) ∷ []) h.versions
                ∙ sym (keyed-append (list_snapshots s) e)
                ∙ ap keyed (sym listed);
            names =
                ap (insert_all (name_entry name e.version)) h.names
                ∙ sym (insert_all-append (named (list_snapshots s)) (name_entry name e.version) [])
                ∙ ap (λ m. insert_all m []) (sym (named-append (list_snapshots s) e))
                ∙ ap (λ xs. insert_all (named xs) []) (sym listed);
          },
        )

    -- In an indexed store whose versions are not exhausted, the version of a new snapshot is above
    -- all earlier ones; a reference that is a number finds the new snapshot if it is that version,
    -- and otherwise what it found before.
    pub find_snapshot-create_snapshot :
        (reference : Bytes) (version : ℕ)
        → parse_u64 reference ≡ some version
        → All
            (λ (e : ℕ × SnapshotEntry).
              ltb e.0 (create_snapshot s name created_at).0.version ≡ true)
            s.snapshots_by_version
          × (find_snapshot (create_snapshot s name created_at).1 reference ≡ (
              if (create_snapshot s name created_at).0.version == version
              then some (create_snapshot s name created_at).0
              else find_snapshot s reference))
    unfolding create_snapshot record_snapshot commit find_snapshot
    find_snapshot-create_snapshot reference version p =
        let e = (create_snapshot s name created_at).0 in
        (
          below_max s.snapshots_by_version e.version (omega (arith, hv)),
          rw (p, find_snapshot) (get-insert s.snapshots_by_version e.version version e),
        )
