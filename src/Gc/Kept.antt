-- ===== src/Gc/Kept.antt =====
-- crates/metadata/src/gc/mod.rs: what a run of the garbage collector keeps.
use slicefs.Base.{
  ℕ, ◌+◌, ◌≡◌, refl, ap, ◌∙◌, false, some, List, [], ◌∷◌, length, All, Bool, if◌then◌else◌,
  Bool-cases, inl, inr,
}
use slicefs.Base.Words.{Bytes}
use slicefs.Base.Keys.{lex_same, lex_same→eq}
use slicefs.Base.Results.{Result, ok, err}
use slicefs.Segment.{SegmentEntry}
use slicefs.Segment.Payload.{IsSegmentEntry}
use slicefs.Segment.Crash.{read_file}
use slicefs.Segment.Replay.{Replayed, load_store_from_segments}
use slicefs.Mount.{StoreDir}
use slicefs.Commands.{write_file}
use slicefs.Gc.{
  GcStats, GcError, store_mounted, out_filename, read_named, compact_all, no_stats, seg_names,
  run_gc, run_gc_inner,
}

-- Writing a file changes no other.
read_named-write_file :
    (name content : Bytes) (listing : List (Bytes × Bytes)) (other : Bytes)
    → lex_same name other ≡ false
    → read_named (write_file name content listing) other ≡ read_named listing other
unfolding read_named write_file
read_named-write_file name content [] other apart = rw (apart, read_named) refl
read_named-write_file name content ((first, old) ∷ listing) other apart =
    elim (Bool-cases (lex_same first name)) [
      | inl y ↦ rw (y, write_file) (rw (lex_same→eq first name y, read_named, apart) refl)
      | inr n ↦
          rw (n, write_file, read_named, read_named-write_file name content listing other apart)
            refl
    ]

-- A segment file that can be read, with the entries that it holds.
pub record Segment (listing : List (Bytes × Bytes)) (path : Bytes) : Type 0 where
  pub segment : Bytes
  pub entries : List SegmentEntry
  pub found : read_named listing path ≡ some segment
  pub readable : read_file segment ≡ some entries
  pub in_range : All IsSegmentEntry entries

abbrev pub Readable : List (Bytes × Bytes) → List Bytes → Type 0
Readable listing [] = Unit
Readable listing (path ∷ paths) = Segment listing path × Readable listing paths

-- No compacted file has the name of a segment that is still to be read, or of a later compacted one.
abbrev pub IsFresh : List Bytes → Type 0
IsFresh [] = Unit
IsFresh (path ∷ paths) =
    All (λ other. lex_same (out_filename path) other ≡ false) paths
    × All (λ other. lex_same (out_filename other) (out_filename path) ≡ false) paths
    × IsFresh paths

-- Each segment has a compacted file that reads as the entries of the segment.
abbrev pub Compacted :
    (listing : List (Bytes × Bytes)) (paths : List Bytes)
    → Readable listing paths
    → List (Bytes × Bytes)
    → Type 0
Compacted listing [] h new = Unit
Compacted listing (path ∷ paths) h new =
    ((out : Bytes) × (read_named new (out_filename path) ≡ some out)
      × (read_file out ≡ some h.0.entries))
    × Compacted listing paths h.1 new

abbrev pub entry_count :
    (listing : List (Bytes × Bytes)) (paths : List Bytes) → Readable listing paths → ℕ
entry_count listing [] h = 0
entry_count listing (path ∷ paths) h = length h.0.entries + entry_count listing paths h.1

-- Writing a compacted file leaves the segments that are still to be read.
readable-write_file :
    (listing : List (Bytes × Bytes)) (name content : Bytes) (paths : List Bytes)
    → All (λ other. lex_same name other ≡ false) paths
    → Readable listing paths
    → Readable (write_file name content listing) paths
readable-write_file listing name content [] apart h = tt
readable-write_file listing name content (path ∷ paths) apart h = (
  record {
    segment = h.0.segment;
    entries = h.0.entries;
    found = read_named-write_file name content listing path apart.0 ∙ h.0.found;
    readable = h.0.readable;
    in_range = h.0.in_range;
  },
  readable-write_file listing name content paths apart.1 h.1,
)

abbrev totals : ℕ → ℕ → ℕ → Result GcError GcStats
totals scanned removed compacted = ok (record {
  entries_scanned = scanned;
  entries_removed = removed;
  segments_compacted = compacted;
})

-- What the command makes of a listing that replays.
abbrev pub collected : StoreDir → List (Bytes × Bytes) → Result GcError GcStats × StoreDir
collected dir listing =
    let (result, new) = compact_all (seg_names listing) listing no_stats in
    (result, record dir { segments = some new })

pub run_gc-collected :
    (dir : StoreDir) (listing : List (Bytes × Bytes)) (replayed : Replayed)
    → dir.mount_lock ≡ false
    → dir.segments ≡ some listing
    → load_store_from_segments listing ≡ ok replayed
    → run_gc dir ≡ collected dir listing
unfolding run_gc run_gc_inner
run_gc-collected dir listing replayed free there loaded =
    guarded ∙ ap (λ (t : Bool). if t then (err store_mounted, dir) else collected dir listing) free
  where
    guarded :
        run_gc dir ≡ (if dir.mount_lock then (err store_mounted, dir) else collected dir listing)
    guarded = rw (there, loaded, run_gc, there, run_gc_inner) refl
