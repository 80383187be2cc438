-- ===== src/Store/Snapshots.antt =====
-- crates/metadata/src/store.rs: the index of snapshots, by version and by name. The two hash maps
-- are kept in key order here: `list_snapshots` sorts, and no other caller relies on an order.
pub mod Index
use slicefs.Base.{
  ℕ, zero, suc, ◌+◌, ◌-◌, ◌*◌, ◌%◌, ◌^◌, Bool, true, false, ◌&&◌, Option, none, some, List, [], ◌∷◌,
  ◌++◌, map, ltb, leb, ◌==◌, if◌then◌else◌,
}
use slicefs.Base.Words.{Bytes}
use slicefs.Base.Keys.{nat_key, lex_key}
use slicefs.Base.Map
use slicefs.Base.Map.{Map, insert_all, values}
use slicefs.Digest.{Digest224}
use slicefs.Blockset.{Blockset}
use slicefs.Snapshot.{SnapshotEntry}
use slicefs.Wal.{WalEntry, root_update, snapshot}
use slicefs.Store.{Store, log_wal_entry, current_root}
use slicefs.Store.Commit.{commit}

-- `str::parse::<u64>`, the digits behind the sign: checked multiplication and addition.
unfoldable pub parse_digits : ℕ → Bytes → Option ℕ
parse_digits n [] = some n
parse_digits n (c ∷ cs) =
    let n' = n * 10 + (c - 48) in
    let rest = parse_digits n' cs in
    if leb 48 c && (leb c 57 && ltb n' (2 ^ 64)) then rest else none

unfoldable pub parse_u64 : Bytes → Option ℕ
unfolding parse_digits
parse_u64 [] = none
parse_u64 (c ∷ []) = parse_digits 0 (c ∷ [])
parse_u64 (c ∷ d ∷ cs) = if c == 43 then parse_digits 0 (d ∷ cs) else parse_digits 0 (c ∷ d ∷ cs)

abbrev pub keyed : List SnapshotEntry → Map ℕ SnapshotEntry
keyed [] = []
keyed (s ∷ snaps) = (s.version, s) ∷ keyed snaps

abbrev pub name_entry : Option Bytes → ℕ → Map Bytes ℕ
name_entry none version = []
name_entry (some name) version = (name, version) ∷ []

-- `filter_map(|s| s.name.as_ref().map(|n| (n.clone(), s.version)))`
abbrev pub named : List SnapshotEntry → Map Bytes ℕ
named [] = []
named (s ∷ snaps) = name_entry s.name s.version ++ named snaps

-- `keys().max().copied().unwrap_or(0)`
abbrev pub max_version : Map ℕ SnapshotEntry → ℕ
max_version [] = 0
max_version ((v, s) ∷ m) = let rest = max_version m in if ltb rest v then v else rest

abbrev pub root_list : Option Digest224 → List Digest224
root_list none = []
root_list (some root) = root ∷ []

module _ {Io : Type 0} where
  unfoldable pub set_snapshots : Store Io → List SnapshotEntry → Store Io
  set_snapshots s snapshots = record s {
    snapshots_by_version = insert_all (keyed snapshots) [];
    snapshots_by_name = insert_all (named snapshots) [];
  }

  unfoldable pub list_snapshots : Store Io → List SnapshotEntry
  list_snapshots s = values s.snapshots_by_version

  unfoldable pub find_snapshot : Store Io → Bytes → Option SnapshotEntry
  find_snapshot s reference = elim (parse_u64 reference) [
    | some version ↦ Map.get s.snapshots_by_version version
    | none ↦ elim (Map.get s.snapshots_by_name reference) [
      | none ↦ none
      | some version ↦ Map.get s.snapshots_by_version version
    ]
  ]

  unfoldable pub snapshot_roots : Store Io → List Digest224
  snapshot_roots s =
      map (λ (e : SnapshotEntry). e.root) (values s.snapshots_by_version)
      ++ root_list (current_root s)

  unfoldable pub commit_root : Store Io → Digest224 → Store Io
  commit_root s root = log_wal_entry (record s { last_root = some root }) (root_update root)

  -- `create_snapshot` behind its commit. The version is a `u64`; the clock is an argument.
  unfoldable pub record_snapshot :
      Store Io → Digest224 → Option Bytes → ℕ → SnapshotEntry × Store Io
  record_snapshot s root name created_at =
      let version = (max_version s.snapshots_by_version + 1) % 2 ^ 64 in
      let entry : SnapshotEntry = record {
        version = version;
        name = name;
        root = root;
        created_at = created_at;
      } in
      let s1 = log_wal_entry s (snapshot version root created_at name) in
      (
        entry,
        record s1 {
          snapshots_by_version = Map.insert version entry s1.snapshots_by_version;
          snapshots_by_name = insert_all (name_entry name version) s1.snapshots_by_name;
        },
      )

module _ ⦃b : Blockset⦄ where
  open b use {Io}

  unfoldable pub create_snapshot : Store Io → Option Bytes → ℕ → SnapshotEntry × Store Io
  unfolding record_snapshot
  create_snapshot s name created_at =
      let (root, s1) = commit s in record_snapshot s1 root name created_at
