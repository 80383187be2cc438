-- ===== src/Gc.antt =====
-- crates/metadata/src/gc/mod.rs and crates/slicefs-cli/src/gc.rs: the garbage collector, which rewrites
-- the segment files. Its set of live digests is empty and not used.
pub mod Kept
use slicefs.Base.{
  ℕ, ◌+◌, ◌-◌, ◌%◌, ◌^◌, ◌==◌, ◌&&◌, not, Bool, Option, none, some, List, [], ◌∷◌, ◌++◌, length,
  take, drop, if◌then◌else◌,
}
use slicefs.Base.Words.{Bytes}
use slicefs.Base.Keys.{lex_same}
use slicefs.Base.Results.{Result, ok, err}
use slicefs.Store.Snapshots.{parse_u64}
use slicefs.Segment.Replay.{prefix, suffix, starts_with, ends_with, load_store_from_segments}
use slicefs.Segment.Compaction.{CompactionResult, compact_segment}
use slicefs.Mount.{StoreDir}
use slicefs.Commands.{decimal, padding, write_file}

pub record GcStats : Type 0 where
  pub entries_scanned : ℕ
  pub entries_removed : ℕ
  pub segments_compacted : ℕ

abbrev pub no_stats : GcStats
no_stats = record { entries_scanned = 0; entries_removed = 0; segments_compacted = 0 }

pub data GcError : Type 0 where
  segment_error : GcError
  store_mounted : GcError
  load_failed : GcError

-- `p.extension() == Some("seg")`: a name that is nothing but ".seg" has no extension.
abbrev pub has_seg_extension : Bytes → Bool
has_seg_extension name = ends_with suffix name && not (length name == 4)

unfoldable pub seg_names : List (Bytes × Bytes) → List Bytes
seg_names [] = []
seg_names ((name, content) ∷ listing) =
    let rest = seg_names listing in if has_seg_extension name then name ∷ rest else rest

-- `parse_segment_id`, of the name without its extension.
unfoldable pub parse_segment_id : Bytes → Option ℕ
parse_segment_id name =
    let stem = take (length name - 4) name in
    if starts_with prefix stem then parse_u64 (drop 8 stem) else none

-- The id of the compacted file, a number of 64 bits.
unfoldable pub compact_id : Bytes → ℕ
unfolding parse_segment_id
compact_id name = elim (parse_segment_id name) [ none ↦ 100000 | some id ↦ (id + 100000) % 2 ^ 64 ]

-- `format!("segment-{:03}.seg", output_segment_id)`
unfoldable pub out_filename : Bytes → Bytes
unfolding compact_id
out_filename name =
    prefix
    ++ (padding (3 - length (decimal (compact_id name))) ++ (decimal (compact_id name) ++ suffix))

-- The content of a file.
unfoldable pub read_named : List (Bytes × Bytes) → Bytes → Option Bytes
read_named [] name = none
read_named ((other, content) ∷ listing) name =
    let rest = read_named listing name in if lex_same other name then some content else rest

abbrev pub count_result : GcStats → CompactionResult → GcStats
count_result stats result = record {
  entries_scanned = stats.entries_scanned + (result.entries_kept + result.entries_removed);
  entries_removed = stats.entries_removed + result.entries_removed;
  segments_compacted = stats.segments_compacted + 1;
}

-- The loop over the segment files: a file that cannot be opened ends it.
unfoldable pub compact_all :
    List Bytes → List (Bytes × Bytes) → GcStats → Result GcError GcStats × List (Bytes × Bytes)
compact_all [] listing stats = (ok stats, listing)
compact_all (path ∷ paths) listing stats = elim (read_named listing path) [
  | none ↦ (err segment_error, listing)
  | some segment ↦ elim (compact_segment segment (compact_id path)) [
    | none ↦ (err segment_error, listing)
    | some (out, result) ↦
        compact_all paths (write_file (out_filename path) out listing) (count_result stats result)
  ]
]

-- `run_gc_inner`, `run_gc` and `run_gc_roots_only`: without the directory there is nothing to do.
unfoldable pub run_gc_inner : StoreDir → Result GcError GcStats × StoreDir
unfolding compact_all seg_names
run_gc_inner dir = elim dir.segments [
  | none ↦ (ok no_stats, dir)
  | some listing ↦
      let (result, listing') = compact_all (seg_names listing) listing no_stats in
      (result, record dir { segments = some listing' })
]

-- The command: not on a mounted store, and only after the segment files have been replayed.
unfoldable pub run_gc : StoreDir → Result GcError GcStats × StoreDir
unfolding run_gc_inner
run_gc dir = if dir.mount_lock then (err store_mounted, dir) else elim dir.segments [
  | none ↦ (err load_failed, dir)
  | some listing ↦ elim (load_store_from_segments listing) [
    | err e ↦ (err load_failed, dir)
    | ok replayed ↦ run_gc_inner dir
  ]
]
