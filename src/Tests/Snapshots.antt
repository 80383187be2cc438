-- ===== src/Tests/Snapshots.antt =====
-- Snapshots and reference counts: runs at concrete inputs.
use slicefs.Base.{◌+◌, ◌^◌, ◌<◌, ◌≡◌, refl, arith, none, some, List, [], ◌∷◌, ◌++◌}
use slicefs.Base.Words.{Bytes}
use slicefs.Base.Keys.{nat_key, lex_key}
use slicefs.Base.Map
use slicefs.Base.Map.{Map, IsSorted, insert_all}
use slicefs.Digest.{Digest224, digest_key}
use slicefs.Sample.{sample}
use slicefs.Snapshot.{SnapshotEntry}
use slicefs.Store.{Store, new}
use slicefs.Store.Commit.{commit}
use slicefs.Store.Snapshots.{
  keyed, max_version, set_snapshots, list_snapshots, parse_u64, parse_digits, create_snapshot,
}
use slicefs.Store.Snapshots.Index.{
  IsIndexed, list_snapshots-set_snapshots, list_snapshots-create_snapshot,
}

abbrev base : Store (Map Digest224 Bytes)
base = new ⦃b = sample⦄ [] 0 0

abbrev some_root : Digest224
some_root = record { w0 = 1; w1 = 2; w2 = 3; w3 = 4; w4 = 5; w5 = 6; w6 = 7 }

abbrev alpha : Bytes
alpha = b'a' ∷ []

abbrev taken : List SnapshotEntry
taken =
    record { version = 1; name = none; root = some_root; created_at = 100 }
    ∷ record { version = 2; name = some alpha; root = some_root; created_at = 200 }
    ∷ []

taken-IsSorted : IsSorted (keyed taken)
taken-IsSorted = ((refl, tt), (tt, tt))

abbrev indexed : Store (Map Digest224 Bytes)
indexed = set_snapshots base taken

indexed-IsIndexed : IsIndexed indexed
indexed-IsIndexed = (list_snapshots-set_snapshots base taken taken-IsSorted).1

room : max_version indexed.snapshots_by_version + 1 < 2 ^ 64
unfolding set_snapshots insert_all Map.insert
room = omega arith

list_snapshots-create_snapshot_example :
    (list_snapshots (create_snapshot ⦃b = sample⦄ indexed (some alpha) 300).1
      ≡ list_snapshots indexed ++ (create_snapshot ⦃b = sample⦄ indexed (some alpha) 300).0 ∷ [])
    × ((create_snapshot ⦃b = sample⦄ indexed (some alpha) 300).0.root
        ≡ (commit ⦃b = sample⦄ indexed).0)
    × IsIndexed (create_snapshot ⦃b = sample⦄ indexed (some alpha) 300).1
list_snapshots-create_snapshot_example =
    list_snapshots-create_snapshot ⦃b = sample⦄ indexed (some alpha) 300 indexed-IsIndexed room

three : parse_u64 (b'3' ∷ []) ≡ some 3
unfolding parse_u64 parse_digits
three = refl

abbrev counting : Store (Map Digest224 Bytes)
counting = record base { refcounts = (some_root, 3) ∷ [] }
