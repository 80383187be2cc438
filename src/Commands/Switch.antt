-- ===== src/Commands/Switch.antt =====
-- crates/slicefs-cli/src/snapshot.rs: what the next mount finds after a snapshot is created or
-- switched to.
use slicefs.Base.{
  ℕ, ◌≡◌, refl, sym, ap, ◌∙◌, true, false, Option, none, some, List, [], ◌∷◌, ◌++◌, append_assoc,
  All, All-append, arith,
}
use slicefs.Base.Words.{Bytes, IsU64}
use slicefs.Base.Utf8.{is_utf8}
use slicefs.Base.Results.{ok}
use slicefs.Digest.{Digest224, IsDigest}
use slicefs.Blockset.{Blockset}
use slicefs.Snapshot.{SnapshotEntry}
use slicefs.Segment.{SegmentEntry, root_entry, snapshot_entry}
use slicefs.Segment.Payload.{IsSegmentEntry, IsSnapshotName}
use slicefs.Segment.Crash.{read_file}
use slicefs.Segment.Replay.{
  seg_paths, log_of, roots, snapshots_of, last_or, replayed_view, load_store_from_segments,
  load_store_from_segments_lem,
}
use slicefs.Wal.{
  root_update, snapshot, per_op, Op, log, shut, apply, run, create_wal, log_mutation, Wal, shutdown,
}
use slicefs.Wal.Refine.{segments}
use slicefs.Wal.Recovery.{written, logged, IsSynced, per_op-IsSynced, read_file-per_op}
use slicefs.Store.{Store, set_wal, shutdown_wal}
use slicefs.Store.Commit.{commit, load_from_root}
use slicefs.Store.Snapshots.{
  set_snapshots, create_snapshot, record_snapshot, find_snapshot, commit_root,
}
use slicefs.Mount.{StoreDir, next_segment_id, reload}
use slicefs.Mount.Recovery.{log_of-last, roots-append, last_or-append}
use slicefs.Commands.{
  segment_file_name, with_log, auto_before_switch, offline, switch_root, run_snapshot_create,
  run_snapshot_switch, log_bytes,
}

snapshots_of-append :
    (xs ys : List SegmentEntry) → snapshots_of (xs ++ ys) ≡ snapshots_of xs ++ snapshots_of ys
snapshots_of-append [] ys = refl
snapshots_of-append (root_entry root ∷ xs) ys = snapshots_of-append xs ys
snapshots_of-append (snapshot_entry version root created_at name ∷ xs) ys =
    ap (λ t. record { version = version; name = name; root = root; created_at = created_at } ∷ t)
      (snapshots_of-append xs ys)

-- The new segment file is the last in name order.
abbrev pub IsNewest : List (Bytes × Bytes) → Option Wal → Type 0
IsNewest listing wal =
    seg_paths (with_log listing wal)
    ≡ seg_paths listing ++ (segment_file_name (next_segment_id listing), log_bytes wal) ∷ []

-- What the next replay finds after a command.
abbrev pub Replays : List SegmentEntry → StoreDir → Digest224 → List SnapshotEntry → Type 0
Replays es dir last snaps =
    (new : List (Bytes × Bytes)) × (dir.segments ≡ some new)
    × (load_store_from_segments new
        ≡ ok (record { last_root = some last; snapshots = snapshots_of es ++ snaps }))

-- A log that a command wrote and shut down reads back whole.
read_file-shut :
    (id : ℕ) (ops : List Op)
    → IsU64 id
    → All IsSegmentEntry (segments (logged ops ++ []))
    → read_file (written (shutdown (run (create_wal per_op id) ops)))
      ≡ some (segments (logged ops ++ []))
unfolding IsSynced apply
read_file-shut id ops hi h =
    ap read_file (sym (per_op-IsSynced id ops shut)) ∙ read_file-per_op id ops shut hi h

-- What the next replay finds, where the new file is the last in name order.
pub replayed-last :
    (listing new : List (Bytes × Bytes)) (name file : Bytes) (es fs : List SegmentEntry)
    → (root : Digest224) (front : List Digest224) → log_of (seg_paths listing) ≡ some es
    → read_file file ≡ some fs
    → seg_paths new ≡ seg_paths listing ++ (name, file) ∷ []
    → roots fs ≡ front ++ root ∷ []
    → load_store_from_segments new
      ≡ ok (record { last_root = some root; snapshots = snapshots_of es ++ snapshots_of fs })
replayed-last listing new name file es fs root front before readable paths ends =
    load_store_from_segments_lem new
    ∙ ap replayed_view
        (ap log_of paths ∙ log_of-last (seg_paths listing) name file es fs before readable)
    ∙ ap (λ r. ok (record { last_root = r; snapshots = snapshots_of (es ++ fs) }))
        (ap (last_or none) (
            roots-append es fs
            ∙ ap (λ t. roots es ++ t) ends
            ∙ sym (append_assoc (roots es) front (root ∷ [])))
          ∙ last_or-append none (roots es ++ front) root)
    ∙ ap (λ s. ok (record { last_root = some root; snapshots = s })) (snapshots_of-append es fs)

module _ ⦃b : Blockset⦄ where
  open b use {Io, digest-IsDigest}

  commit-IsDigest : (s : Store Io) → IsDigest (commit s).0
  unfolding commit
  commit-IsDigest s = digest-IsDigest _

  -- The store that the commands work on.
  abbrev pub opened : Store Io → List SegmentEntry → List (Bytes × Bytes) → Store Io
  opened base es listing =
      set_wal (set_snapshots base (snapshots_of es)) (create_wal per_op (next_segment_id listing))

  -- The calls of the log that a command makes before it ends.
  abbrev calls_create : Digest224 → SnapshotEntry → List Op
  calls_create root entry =
      log (root_update root)
      ∷ log (snapshot entry.version entry.root entry.created_at entry.name)
      ∷ []

  abbrev calls_switch : Digest224 → SnapshotEntry → Digest224 → List Op
  calls_switch root entry target =
      log (root_update root)
      ∷ log (snapshot entry.version entry.root entry.created_at entry.name)
      ∷ log (root_update target)
      ∷ []

  -- The snapshot of the present state, and the logs that the commands leave.
  abbrev pub auto_snapshot : Store Io → ℕ → SnapshotEntry
  auto_snapshot s now = (create_snapshot s (some auto_before_switch) now).0

  abbrev pub created_wal : Store Io → Option Bytes → ℕ → Option Wal
  created_wal s name now = (shutdown_wal (create_snapshot s name now).1).wal

  abbrev pub switched_wal : Store Io → SnapshotEntry → ℕ → Option Wal
  switched_wal s target now =
      (shutdown_wal
        (commit_root (create_snapshot s (some auto_before_switch) now).1 target.root)).wal

  auto_utf8 : is_utf8 auto_before_switch ≡ true
  unfolding is_utf8
  auto_utf8 = refl

  next_segment_id-IsU64 : (listing : List (Bytes × Bytes)) → IsU64 (next_segment_id listing)
  unfolding next_segment_id
  next_segment_id-IsU64 listing = omega arith

  switch_root_lem :
      (s : Store Io) (version_or_name : Bytes) (target : SnapshotEntry) (now : ℕ)
      → find_snapshot s version_or_name ≡ some target
      → switch_root s version_or_name now ≡ (
        ok (target, (create_snapshot s (some auto_before_switch) now).0),
        shutdown_wal (commit_root (create_snapshot s (some auto_before_switch) now).1 target.root),
      )
  unfolding switch_root
  switch_root_lem s version_or_name target now found = rw (found, switch_root) refl

  entry_in_range :
      (s : Store Io) (name : Option Bytes) (now : ℕ)
      → IsU64 now
      → IsSnapshotName name
      → All IsSegmentEntry
          (segments (logged (calls_create (commit s).0 (create_snapshot s name now).0)))
  unfolding create_snapshot record_snapshot commit
  entry_in_range s name now hn named =
      (digest-IsDigest _, ((omega arith, digest-IsDigest _, hn, named), tt))

  module _ (dir : StoreDir) (io : Io) (listing : List (Bytes × Bytes)) (es : List SegmentEntry)
      (root : Digest224) (base : Store Io) (now : ℕ) (free : dir.mount_lock ≡ false)
      (there : dir.segments ≡ some listing) (before : log_of (seg_paths listing) ≡ some es)
      (last : last_or none (roots es) ≡ some root) (loaded : load_from_root io root ≡ ok base)
      (in_range : IsU64 now) where
    offline_lem : offline dir io ≡ ok (listing, opened base es listing)
    unfolding offline reload
    offline_lem = rw (free, there, load_store_from_segments_lem listing, before, last, loaded) refl

    -- Creating a snapshot of an unmounted store succeeds and returns its entry; the next replay of
    -- the segment files finds the root of the commit as the last root, and all snapshots with the
    -- new one behind them. The conditions are those of a switch, and that the name is one that the
    -- record format can express.
    pub run_snapshot_create_lem :
        (name : Option Bytes)
        → IsSnapshotName name
        → IsNewest listing (created_wal (opened base es listing) name now)
        → ((run_snapshot_create dir io name now).0
            ≡ ok (create_snapshot (opened base es listing) name now).0)
          × Replays es
              (run_snapshot_create dir io name now).1
              (commit (opened base es listing)).0
              ((create_snapshot (opened base es listing) name now).0 ∷ [])
    unfolding run_snapshot_create create_snapshot record_snapshot commit run log_mutation apply
        create_wal
    run_snapshot_create_lem name named newest =
        let s = opened base es listing in
        let entry : SnapshotEntry = (create_snapshot s name now).0 in
        rw (offline_lem, run_snapshot_create)
          (
            refl,
            (
              with_log listing (created_wal s name now),
              refl,
              replayed-last listing _ _ _ es (segments (logged (calls_create (commit s).0 entry)))
                  (commit s).0 [] before
                  (read_file-shut (next_segment_id listing) (calls_create (commit s).0 entry)
                    (next_segment_id-IsU64 listing) (entry_in_range s name now in_range named))
                  newest refl,
            ),
          )

    -- Switching an unmounted store to a snapshot that is found succeeds and records the present
    -- state as a snapshot of its own; the next replay of the segment files finds the root of the
    -- target as the last root, and all snapshots with the new one behind them. The segment files
    -- can be read, their last root loads, the clock and the target's root are in range, and the
    -- new segment file is the last in name order.
    pub run_snapshot_switch_lem :
        (version_or_name : Bytes) (target : SnapshotEntry)
        → find_snapshot (opened base es listing) version_or_name ≡ some target
        → IsDigest target.root
        → IsNewest listing (switched_wal (opened base es listing) target now)
        → ((run_snapshot_switch dir io version_or_name now).0
            ≡ ok (target, auto_snapshot (opened base es listing) now))
          × Replays es
              (run_snapshot_switch dir io version_or_name now).1
              target.root
              (auto_snapshot (opened base es listing) now ∷ [])
    unfolding run_snapshot_switch create_snapshot record_snapshot commit commit_root run
        log_mutation apply create_wal
    run_snapshot_switch_lem version_or_name target found digest newest =
        let s = opened base es listing in
        let auto : SnapshotEntry = auto_snapshot s now in
        let calls = calls_switch (commit s).0 auto target.root in
        rw (offline_lem, switch_root_lem s version_or_name target now found, run_snapshot_switch)
          (
            refl,
            (
              with_log listing (switched_wal s target now),
              refl,
              replayed-last listing _ _ _ es (segments (logged calls)) target.root
                  ((commit s).0 ∷ []) before
                  (read_file-shut (next_segment_id listing) calls (next_segment_id-IsU64 listing) (
                    All-append IsSegmentEntry (segments (logged (calls_create (commit s).0 auto)))
                      (root_entry target.root ∷ [])
                      (entry_in_range s (some auto_before_switch) now in_range named) (digest, tt)))
                  newest refl,
            ),
          )
      where
        named : IsSnapshotName (some auto_before_switch)
        named = (auto_utf8, omega arith, omega arith)
