-- ===== src/Segment/Replay.antt =====
-- `load_store_from_segments` of crates/metadata/src/segment/mod.rs: replaying all segment files.
use slicefs.Base.{
  ◌≡◌, refl, sym, ap, ◌∙◌, Bool, true, false, ◌&&◌, Option, none, some, List, [], ◌∷◌, ◌++◌,
  append_assoc, append-nil, length, take, drop, leb, ltb, if◌then◌else◌, ◌-◌, Bool-cases, inl, inr,
}
use slicefs.Base.Words.{Bytes}
use slicefs.Base.Keys.{lex_same, lex_key}
use slicefs.Base.Results.{Result, ok, err}
use slicefs.Base.Map
use slicefs.Base.Map.{Map, IsSorted, insert-IsSorted}
use slicefs.Digest.{Digest224}
use slicefs.Snapshot.{SnapshotEntry}
use slicefs.Segment.{SegmentEntry, root_entry, snapshot_entry, as_snapshot_entry}
use slicefs.Segment.Reader.{open_reader, read_all}
use slicefs.Segment.Crash.{read_file}

-- "segment-" and ".seg"
abbrev pub prefix : Bytes
prefix = b's' ∷ b'e' ∷ b'g' ∷ b'm' ∷ b'e' ∷ b'n' ∷ b't' ∷ b'-' ∷ []

abbrev pub suffix : Bytes
suffix = b'.' ∷ b's' ∷ b'e' ∷ b'g' ∷ []

abbrev pub starts_with : Bytes → Bytes → Bool
starts_with front name = lex_same (take (length front) name) front

abbrev pub ends_with : Bytes → Bytes → Bool
ends_with back name =
    leb (length back) (length name) && lex_same (drop (length name - length back) name) back

unfoldable pub is_segment_name : Bytes → Bool
is_segment_name name = starts_with prefix name && ends_with suffix name

-- A directory listing: names and contents, in any order. Sorting the paths of one directory
-- compares the names byte by byte.
unfoldable pub seg_paths : List (Bytes × Bytes) → Map Bytes Bytes
seg_paths [] = []
seg_paths ((name, content) ∷ listing) =
    let rest = seg_paths listing in
    if is_segment_name name then Map.insert name content rest else rest

-- `InvalidData` or a failed read.
pub data SegmentError : Type 0 where
  io_error : SegmentError

pub record Replayed : Type 0 where
  pub last_root : Option Digest224
  pub snapshots : List SnapshotEntry

unfoldable pub replay_entry : Replayed → SegmentEntry → Replayed
replay_entry r (root_entry root) = record r { last_root = some root }
replay_entry r (snapshot_entry version root created_at name) =
    elim (as_snapshot_entry (snapshot_entry version root created_at name)) [
      | none ↦ r
      | some snap ↦ record r { snapshots = r.snapshots ++ snap ∷ [] }
    ]

unfoldable pub replay_entries : Replayed → List SegmentEntry → Replayed
unfolding replay_entry
replay_entries r [] = r
replay_entries r (e ∷ es) = replay_entries (replay_entry r e) es

unfoldable pub replay_files : Replayed → Map Bytes Bytes → Result SegmentError Replayed
replay_files r [] = ok r
replay_files r ((name, content) ∷ paths) = elim (ltb (length content) 16) [
  | true ↦ replay_files r paths
  | false ↦ elim (open_reader content) [
    | none ↦ err io_error
    | some reader ↦ replay_files (replay_entries r (read_all reader)) paths
  ]
]

abbrev pub nothing_replayed : Replayed
nothing_replayed = record { last_root = none; snapshots = [] }

unfoldable pub load_store_from_segments : List (Bytes × Bytes) → Result SegmentError Replayed
unfolding seg_paths replay_files
load_store_from_segments listing = replay_files nothing_replayed (seg_paths listing)

-- The abstract view of a log: its roots and its snapshots, in their order.
abbrev pub roots : List SegmentEntry → List Digest224
roots [] = []
roots (root_entry root ∷ es) = root ∷ roots es
roots (snapshot_entry version root created_at name ∷ es) = roots es

abbrev pub snapshots_of : List SegmentEntry → List SnapshotEntry
snapshots_of [] = []
snapshots_of (root_entry root ∷ es) = snapshots_of es
snapshots_of (snapshot_entry version root created_at name ∷ es) =
    record { version = version; name = name; root = root; created_at = created_at }
    ∷ snapshots_of es

-- The last element, or the one given for an empty list.
abbrev pub last_or {ℓ} : {A : Type ℓ} → Option A → List A → Option A
last_or d [] = d
last_or d (x ∷ xs) = last_or (some x) xs

replay_entries_lem :
    (es : List SegmentEntry) (r : Replayed)
    → replay_entries r es ≡ record {
      last_root = last_or r.last_root (roots es);
      snapshots = r.snapshots ++ snapshots_of es;
    }
unfolding replay_entries
replay_entries_lem [] r =
    ap (λ s. record { last_root = r.last_root; snapshots = s }) (sym (append-nil r.snapshots))
replay_entries_lem (root_entry root ∷ es) r =
    replay_entries_lem es (replay_entry r (root_entry root))
replay_entries_lem (snapshot_entry v root c name ∷ es) r =
    replay_entries_lem es (replay_entry r (snapshot_entry v root c name))
    ∙ ap (λ s. record { last_root = last_or r.last_root (roots es); snapshots = s })
        (append_assoc r.snapshots
          (record { version = v; name = name; root = root; created_at = c } ∷ []) (snapshots_of es))

replay_entries-append :
    (xs ys : List SegmentEntry) (r : Replayed)
    → replay_entries (replay_entries r xs) ys ≡ replay_entries r (xs ++ ys)
unfolding replay_entries
replay_entries-append [] ys r = refl
replay_entries-append (x ∷ xs) ys r = replay_entries-append xs ys (replay_entry r x)

abbrev pub concat_logs :
    Option (List SegmentEntry) → Option (List SegmentEntry) → Option (List SegmentEntry)
concat_logs none ys = none
concat_logs (some xs) none = none
concat_logs (some xs) (some ys) = some (xs ++ ys)

-- The log that the files hold, one after the other: a file below 16 bytes holds nothing, and an
-- invalid header spoils the whole.
unfoldable pub log_of : Map Bytes Bytes → Option (List SegmentEntry)
log_of [] = some []
log_of ((name, content) ∷ paths) = elim (ltb (length content) 16) [
  | true ↦ log_of paths
  | false ↦ concat_logs (read_file content) (log_of paths)
]

abbrev pub replay_log : Replayed → Option (List SegmentEntry) → Result SegmentError Replayed
replay_log r none = err io_error
replay_log r (some es) = ok (replay_entries r es)

replay_one :
    (o : Option Bytes) (ys : Option (List SegmentEntry)) (r : Replayed)
    → (next : Replayed → Result SegmentError Replayed)
    → ((r' : Replayed) → next r' ≡ replay_log r' ys)
    → (elim o as (λ _. Result SegmentError Replayed) [
      | none ↦ err io_error
      | some reader ↦ next (replay_entries r (read_all reader))
    ])
      ≡ replay_log r (
          concat_logs
            (elim o as (λ _. Option (List SegmentEntry)) [
              | none ↦ none
              | some reader ↦ some (read_all reader)
            ])
            ys)
replay_one none ys r next h = refl
replay_one (some reader) none r next h = h (replay_entries r (read_all reader))
replay_one (some reader) (some zs) r next h =
    h (replay_entries r (read_all reader)) ∙ ap ok (replay_entries-append (read_all reader) zs r)

replay_files_lem :
    (paths : Map Bytes Bytes) (r : Replayed) → replay_files r paths ≡ replay_log r (log_of paths)
unfolding replay_files log_of replay_entries read_file
replay_files_lem [] r = refl
replay_files_lem ((name, content) ∷ paths) r = elim (Bool-cases (ltb (length content) 16)) [
  | inl short ↦ rw (short, replay_files, log_of) (replay_files_lem paths r)
  | inr long ↦
      rw (long, replay_files, log_of)
        (replay_one (open_reader content) (log_of paths) r (λ r'. replay_files r' paths)
          (replay_files_lem paths))
]

-- What a log says: its last root and its snapshots.
abbrev pub replayed_view : Option (List SegmentEntry) → Result SegmentError Replayed
replayed_view none = err io_error
replayed_view (some es) =
    ok (record { last_root = last_or none (roots es); snapshots = snapshots_of es })

-- Replaying the segment files fails exactly when one in name order has an invalid header;
-- otherwise it gives the last root update and all snapshot records, in order, of the concatenated
-- logs. A file below 16 bytes counts as empty.
pub load_store_from_segments_lem :
    (listing : List (Bytes × Bytes))
    → load_store_from_segments listing ≡ replayed_view (log_of (seg_paths listing))
unfolding load_store_from_segments
load_store_from_segments_lem listing =
    replay_files_lem (seg_paths listing) nothing_replayed ∙ outcome (log_of (seg_paths listing))
  where
    outcome : (o : Option (List SegmentEntry)) → replay_log nothing_replayed o ≡ replayed_view o
    outcome none = refl
    outcome (some es) = ap ok (replay_entries_lem es nothing_replayed)

-- The paths are taken in the order of their names.
pub seg_paths-IsSorted : (listing : List (Bytes × Bytes)) → IsSorted (seg_paths listing)
unfolding seg_paths
seg_paths-IsSorted [] = tt
seg_paths-IsSorted ((name, content) ∷ listing) = elim (Bool-cases (is_segment_name name)) [
  | inl y ↦
      rw (y, seg_paths)
        (insert-IsSorted name content (seg_paths listing) (seg_paths-IsSorted listing))
  | inr n ↦ rw (n, seg_paths) (seg_paths-IsSorted listing)
]
