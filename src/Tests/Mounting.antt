-- ===== src/Tests/Mounting.antt =====
-- Mounting and the local block stores: runs at concrete inputs.
use slicefs.Base.{
  ◌+◌, ◌^◌, ◌<◌, ◌≡◌, ◌≢◌, refl, ap, ◌∙◌, arith, Bool, none, some, List, [], ◌∷◌, ◌++◌, true, false,
  All, if◌then◌else◌,
}
use slicefs.Base.Words.{Bytes}
use slicefs.Base.Keys.{lex_key, lex_same, lex_same_refl}
use slicefs.Base.Results.{ok, err, is_some}
use slicefs.Base.Map
use slicefs.Base.Map.{Map, get-insert}
use slicefs.Digest.{Digest224, IsDigest}
use slicefs.Blockset.{AllApart}
use slicefs.Records
use slicefs.MapNode
use slicefs.InodeMap
use slicefs.Sample.{sample, all_apart-AllApart}
use slicefs.Segment.Payload.{IsSegmentEntry}
use slicefs.Segment.Replay.{seg_paths, is_segment_name, snapshots_of, log_of}
use slicefs.Wal.{Op, log, snapshot, flush_on_fsync, per_op, create_wal, run}
use slicefs.Wal.Refine.{segments}
use slicefs.Wal.Recovery.{on_disk, logged}
use slicefs.Store.{Store, set_wal, flush_wal}
use slicefs.Store.Commit.{commit, root_bytes, write_nodes}
use slicefs.Store.Commit.Reload.{IsCommittable, IsNodeMap, nodes, reloaded}
use slicefs.Store.Snapshots.{set_snapshots, parse_u64, parse_digits}
use slicefs.Mount.{load_store, next_segment_id, segment_number, max_segment_id}
use slicefs.Mount.Recovery.{store_dir, flushed_log, load_store-commit}
use slicefs.Mount.Ids.{Below, next_segment_id_lem}
use slicefs.Cas.{ChunkHash, Chunk, integrity_failure}
use slicefs.Cas.Chunker.{chunk, contents, Follow, chunk_lem}
use slicefs.Cas.BlockStore
use slicefs.Cas.BlockStore.{MemBlockStore, IsHashed, put, put_lem, delete_lem}
use slicefs.Cas.DedupIndex.Saved.{
  save_to_writer_with_header, load_from_reader, load_from_reader-save,
}
use slicefs.Cas.DedupIndex.{Bloom, MemDedupIndex, Admits}

abbrev pub da : Digest224
da = record { w0 = 1; w1 = 2; w2 = 3; w3 = 4; w4 = 5; w5 = 6; w6 = 7 }

pub da-IsDigest : IsDigest da
da-IsDigest =
    (omega arith, omega arith, omega arith, omega arith, omega arith, omega arith, omega arith)

abbrev pub calls : List Op
calls = log (snapshot 1 da 100 none) ∷ []

abbrev pub logging : Store (Map Digest224 Bytes)
logging = record {
  io = [];
  inode_map = record { map = (1, da) ∷ []; next_ino = 2 };
  inode_data = (1, da) ∷ [];
  dir_data = (1, da) ∷ [];
  manifest_data = [];
  xattr_data = [];
  refcounts = [];
  logical_bytes = 0;
  inode_count = 1;
  wal = some (run (create_wal flush_on_fsync 4) calls);
  last_root = none;
  snapshots_by_version = [];
  snapshots_by_name = [];
}

one-IsNodeMap : IsNodeMap ((1, da) ∷ [])
one-IsNodeMap = record {
  sorted = (tt, tt);
  each = ((omega arith, da-IsDigest), tt);
  len = omega arith;
}

none-IsNodeMap : IsNodeMap []
none-IsNodeMap = record { sorted = tt; each = tt; len = omega arith }

pub logging-IsCommittable : IsCommittable logging
unfolding Map.get
logging-IsCommittable = record {
  inode_map = one-IsNodeMap;
  next_ino = omega arith;
  inode_data = one-IsNodeMap;
  dir_data = one-IsNodeMap;
  manifest_data = none-IsNodeMap;
  xattr_data = none-IsNodeMap;
  refcounts_sorted = tt;
  refcounts_each = tt;
  refcounts_len = omega arith;
  root_dir = refl;
}

pub logging-AllApart : AllApart ⦃b = sample⦄ (nodes ⦃b = sample⦄ logging)
unfolding InodeMap.serialize_inode_map Records.u64_digest_records MapNode.digest_u64_records
    root_bytes write_nodes
logging-AllApart = all_apart-AllApart (nodes ⦃b = sample⦄ logging) refl

abbrev segment_name : Bytes
segment_name =
    b's' ∷ b'e' ∷ b'g' ∷ b'm' ∷ b'e' ∷ b'n' ∷ b't' ∷ b'-' ∷ b'4' ∷ b'.' ∷ b's' ∷ b'e' ∷ b'g' ∷ []

calls-All : All IsSegmentEntry (segments (logged calls))
calls-All = ((omega arith, da-IsDigest, omega arith, tt), tt)

pub empty_log : log_of [] ≡ some []
unfolding log_of
empty_log = refl

abbrev listing : List (Bytes × Bytes)
listing =
    (segment_name, on_disk (flushed_log flush_on_fsync 4 calls (commit ⦃b = sample⦄ logging).0))
    ∷ []

-- The only file is a segment file.
one_path :
    (content : Bytes)
    → seg_paths ((segment_name, content) ∷ []) ≡ [] ++ (segment_name, content) ∷ []
unfolding seg_paths is_segment_name Map.insert
one_path content = refl

load_store-commit_example :
    ((flush_wal (commit ⦃b = sample⦄ logging).1).wal
      ≡ some (flushed_log flush_on_fsync 4 calls (commit ⦃b = sample⦄ logging).0))
    × (load_store ⦃b = sample⦄ (store_dir true listing) (commit ⦃b = sample⦄ logging).1.io per_op
        ≡ (
          ok (
              set_wal
                (set_snapshots
                  (reloaded ⦃b = sample⦄ (commit ⦃b = sample⦄ logging).1)
                  (snapshots_of ([] ++ segments (logged calls))))
                (create_wal per_op (next_segment_id listing))),
          store_dir true listing,
        ))
load_store-commit_example =
    load_store-commit ⦃b = sample⦄ logging logging-IsCommittable logging-AllApart 4 flush_on_fsync
      calls refl (omega arith) refl calls-All listing [] segment_name [] empty_log true per_op
      (one_path _)

abbrev two_files : List (Bytes × Bytes)
two_files = (segment_name, []) ∷ (b'x' ∷ [], []) ∷ []

below_last : max_segment_id two_files + 1 < 2 ^ 64
unfolding max_segment_id segment_number is_segment_name parse_u64 parse_digits
below_last = omega arith

next_segment_id_lem_example :
    All (λ (f : Bytes × Bytes). Below (next_segment_id two_files) (segment_number f.0)) two_files
next_segment_id_lem_example = next_segment_id_lem two_files below_last

chunk_lem_example :
    (cs : List Chunk) × (chunk 2 (1 ∷ 2 ∷ 3 ∷ []) ≡ ok cs)
    × (contents cs ≡ 1 ∷ 2 ∷ 3 ∷ [])
    × Follow 2 0 cs
chunk_lem_example = chunk_lem 2 (1 ∷ 2 ∷ 3 ∷ []) (omega arith)

-- A hash for the examples: the bytes themselves.
abbrev hash : Bytes → ChunkHash
hash bytes = bytes

abbrev blocks : MemBlockStore
blocks = record { blocks = (5 ∷ [], 5 ∷ []) ∷ []; verify_on_read = true }

free : (old : Bytes) → Map.get blocks.blocks (7 ∷ []) ≡ some old → old ≡ 7 ∷ []
unfolding Map.get
free old e = cc (e)

put_lem_example :
    ((h : ChunkHash)
      → h ≢ 7 ∷ []
      → put hash blocks h (7 ∷ []) ≡ (err (integrity_failure h (7 ∷ [])), blocks))
    × ((put hash blocks (7 ∷ []) (7 ∷ [])).0 ≡ ok tt)
    × (BlockStore.get hash (put hash blocks (7 ∷ []) (7 ∷ [])).1 (7 ∷ []) ≡ ok (7 ∷ []))
    × ((other : ChunkHash)
        → other ≢ 7 ∷ []
        → BlockStore.get hash (put hash blocks (7 ∷ []) (7 ∷ [])).1 other
          ≡ BlockStore.get hash blocks other)
    × IsHashed hash (put hash blocks (7 ∷ []) (7 ∷ [])).1
put_lem_example = put_lem hash blocks (7 ∷ []) (refl, tt) free

-- A filter for the examples: the list of what was inserted, in key order.
abbrev filter_contains : Map Bytes (Unit {0}) → Bytes → Bool
filter_contains f x = Map.contains_key f x

contains_self :
    (f : Map Bytes (Unit {0})) (x : Bytes) → filter_contains (Map.insert x tt f) x ≡ true
contains_self f x = ap is_some (get-insert f x x tt) ∙ rw (lex_same_refl x) refl

contains_keep :
    (f : Map Bytes (Unit {0})) (x y : Bytes)
    → filter_contains f y ≡ true
    → filter_contains (Map.insert x tt f) y ≡ true
contains_keep f x y h = ap is_some (get-insert f x y tt) ∙ either (lex_same x y)
  where
    either : (t : Bool) → is_some (if t then some tt else Map.get f y) ≡ true
    either true = refl
    either false = h

instance abbrev set_bloom : Bloom
set_bloom = record {
  Filter = Map Bytes (Unit {0});
  with_capacity = λ r n. [];
  insert_bits = λ f x. Map.insert x tt f;
  contains = filter_contains;
  contains-insert_self = contains_self;
  contains-insert_keep = contains_keep;
}

abbrev known_one : MemDedupIndex
known_one = record {
  bloom = (5 ∷ [], tt) ∷ [];
  known = (5 ∷ [], tt) ∷ [];
  expected_items = 9;
  false_positive_rate = 0;
}

known_one-Admits : Admits known_one
unfolding Map.get
known_one-Admits = (refl, tt)

load_from_reader-save_example :
    (j : MemDedupIndex) × (load_from_reader (save_to_writer_with_header known_one) ≡ ok j)
    × (j.known ≡ known_one.known)
    × (j.expected_items ≡ 9)
    × (j.false_positive_rate ≡ 0)
    × Admits j
load_from_reader-save_example =
    load_from_reader-save known_one (tt, tt) (omega arith, tt) (omega arith) (omega arith)
      (omega arith)
