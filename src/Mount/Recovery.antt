-- ===== src/Mount/Recovery.antt =====
-- The whole way of a committed state: from `commit` through the write-ahead log, a restart and the
-- replay of the segment files back to a store, as crates/slicefs-cli/src/mount.rs goes it.
use slicefs.Base.{
  ℕ, ◌≡◌, refl, sym, ap, ap₂, ◌∙◌, Bool, true, false, Option, none, some, List, [], ◌∷◌, ◌++◌,
  append_assoc, append-nil, length, All, All-append, ltb, ltb→lt, Bool-cases, inl, inr,
}
use mathlib.Core.List.{map-append}
use mathlib.Core.Path.{subst}
use slicefs.Base.Words.{Bytes, IsU64}
use slicefs.Base.Results.{ok}
use slicefs.Base.Keys.{lex_key}
use slicefs.Base.Map.{Map}
use slicefs.Digest.{Digest224}
use slicefs.Blockset.{Blockset, AllApart}
use slicefs.Segment.{SegmentEntry, root_entry, snapshot_entry}
use slicefs.Segment.Payload.{IsSegmentEntry}
use slicefs.Segment.Reader.{open_reader, read_exact_short}
use slicefs.Segment.Crash.{read_file}
use slicefs.Segment.Replay.{
  seg_paths, log_of, concat_logs, roots, snapshots_of, last_or, replayed_view,
  load_store_from_segments, load_store_from_segments_lem,
}
use slicefs.Wal.{
  Wal, WalEntry, WalConfig, root_update, Op, log, flush, shut, apply, run, create_wal, log_mutation,
  flush_and_sync, wal_entry_to_segment,
}
use slicefs.Wal.Refine.{segments}
use slicefs.Wal.Recovery.{has_file, on_disk, logged, read_file-flush_and_sync}
use slicefs.Store.{Store, set_wal, map_wal, flush_wal}
use slicefs.Store.Commit.{commit}
use slicefs.Store.Commit.Reload.{IsCommittable, nodes, reloaded, load_from_root-commit}
use slicefs.Store.Snapshots.{set_snapshots}
use slicefs.Mount.{StoreDir, next_segment_id, reload, load_store, take_lock, acquire_mount_lock}

pub roots-append : (xs ys : List SegmentEntry) → roots (xs ++ ys) ≡ roots xs ++ roots ys
roots-append [] ys = refl
roots-append (root_entry r ∷ xs) ys = ap (λ t. r ∷ t) (roots-append xs ys)
roots-append (snapshot_entry v r c n ∷ xs) ys = roots-append xs ys

snapshots_of-append_root :
    (xs : List SegmentEntry) (r : Digest224)
    → snapshots_of (xs ++ root_entry r ∷ []) ≡ snapshots_of xs
snapshots_of-append_root [] r = refl
snapshots_of-append_root (root_entry q ∷ xs) r = snapshots_of-append_root xs r
snapshots_of-append_root (snapshot_entry v q c n ∷ xs) r =
    ap (λ t. record { version = v; name = n; root = q; created_at = c } ∷ t)
      (snapshots_of-append_root xs r)

pub last_or-append :
    (d : Option Digest224) (xs : List Digest224) (x : Digest224) → last_or d (xs ++ x ∷ []) ≡ some x
last_or-append d [] x = refl
last_or-append d (y ∷ xs) x = last_or-append (some y) xs x

log_of-append :
    (xs : Map Bytes Bytes) (ys : Map Bytes Bytes)
    → log_of (xs ++ ys) ≡ concat_logs (log_of xs) (log_of ys)
unfolding log_of
log_of-append [] ys = whole (log_of ys)
  where
    whole : (o : Option (List SegmentEntry)) → o ≡ concat_logs (some []) o
    whole none = refl
    whole (some es) = refl
log_of-append ((n, c) ∷ xs) ys = elim (Bool-cases (ltb (length c) 16)) [
  | inl short ↦ rw (short, log_of) (log_of-append xs ys)
  | inr long ↦
      rw (long, log_of)
        (ap (concat_logs (read_file c)) (log_of-append xs ys)
          ∙ assoc (read_file c) (log_of xs) (log_of ys))
]
  where
    assoc :
        (a b c : Option (List SegmentEntry))
        → concat_logs a (concat_logs b c) ≡ concat_logs (concat_logs a b) c
    assoc none b c = refl
    assoc (some x) none c = refl
    assoc (some x) (some y) none = refl
    assoc (some x) (some y) (some z) = ap some (sym (append_assoc x y z))

-- A file that can be read has a header.
long_enough :
    (file : Bytes) (es : List SegmentEntry)
    → read_file file ≡ some es
    → ltb (length file) 16 ≡ false
unfolding read_file open_reader
long_enough file es e = elim (Bool-cases (ltb (length file) 16)) [
  | inr n ↦ n
  | inl y ↦
      cc (rw (read_exact_short file 16 (ltb→lt (length file) 16 y), open_reader, read_file) at e)
]

pub log_of-last :
    (old : Map Bytes Bytes) (name file : Bytes) (es fs : List SegmentEntry)
    → log_of old ≡ some es
    → read_file file ≡ some fs
    → log_of (old ++ (name, file) ∷ []) ≡ some (es ++ fs)
unfolding log_of
log_of-last old name file es fs e f =
    log_of-append old ((name, file) ∷ [])
    ∙ rw (e, long_enough file fs f, f, log_of) (ap some (ap (λ t. es ++ t) (append-nil fs)))

run-append :
    (wal : Wal) (ops : List Op) (op : Op) → run wal (ops ++ op ∷ []) ≡ apply (run wal ops) op
unfolding run
run-append wal [] op = refl
run-append wal (o ∷ ops) op = run-append (apply wal o) ops op

logged-append : (ops : List Op) (e : WalEntry) → logged (ops ++ log e ∷ []) ≡ logged ops ++ e ∷ []
logged-append [] e = refl
logged-append (log x ∷ ops) e = ap (λ t. x ∷ t) (logged-append ops e)
logged-append (flush ∷ ops) e = logged-append ops e
logged-append (shut ∷ ops) e = logged-append ops e

-- A store's directory in the present format, with or without a lock.
abbrev pub store_dir : Bool → List (Bytes × Bytes) → StoreDir
store_dir lock listing = record {
  dictionary_bin = false;
  mount_lock = lock;
  segments = some listing;
}

-- A log with some entries, once a root has been logged and everything flushed.
abbrev pub flushed_log : WalConfig → ℕ → List Op → Digest224 → Wal
flushed_log config id ops root =
    flush_and_sync (log_mutation (run (create_wal config id) ops) (root_update root))

module _ ⦃b : Blockset⦄ where
  open b use {Io, digest-IsDigest}

  load_store_of :
      (lock : Bool) (io : Io) (config : WalConfig) (listing : List (Bytes × Bytes)) (t : Store Io)
      → reload io config listing ≡ ok t
      → load_store (store_dir lock listing) io config ≡ (ok t, store_dir true listing)
  unfolding load_store take_lock acquire_mount_lock
  load_store_of true io config listing t r = rw r refl
  load_store_of false io config listing t r = rw r refl

  module _ (s : Store Io) (h : IsCommittable s) (apart : AllApart (nodes s)) (id : ℕ)
      (config : WalConfig) (ops : List Op) (has : has_file config ≡ true) (hi : IsU64 id)
      (started : s.wal ≡ some (run (create_wal config id) ops))
      (each : All IsSegmentEntry (segments (logged ops))) (listing : List (Bytes × Bytes))
      (old : Map Bytes Bytes) (name : Bytes) (es : List SegmentEntry)
      (before : log_of old ≡ some es) where
    flushed-read_file :
        All IsSegmentEntry (segments (logged ops) ++ root_entry (commit s).0 ∷ [])
        → read_file (on_disk (flushed_log config id ops (commit s).0))
          ≡ some (segments (logged ops) ++ root_entry (commit s).0 ∷ [])
    unfolding log_mutation apply
    flushed-read_file all =
        ap (λ w. read_file (on_disk (flush_and_sync w)))
          (sym (run-append (create_wal config id) ops (log (root_update (commit s).0))))
        ∙ read_file-flush_and_sync id config (ops ++ log (root_update (commit s).0) ∷ []) has hi
            (subst (All IsSegmentEntry) (sym entries) all)
        ∙ ap some entries
      where
        entries :
            segments (logged (ops ++ log (root_update (commit s).0) ∷ []))
            ≡ segments (logged ops) ++ root_entry (commit s).0 ∷ []
        entries =
            ap segments (logged-append ops (root_update (commit s).0))
            ∙ map-append wal_entry_to_segment (logged ops) (root_update (commit s).0 ∷ [])

    root_in_range : All IsSegmentEntry (segments (logged ops) ++ root_entry (commit s).0 ∷ [])
    unfolding commit
    root_in_range =
        All-append IsSegmentEntry (segments (logged ops)) (root_entry (commit s).0 ∷ []) each
          (digest-IsDigest _, tt)

    replayed :
        seg_paths listing ≡ old ++ (name, on_disk (flushed_log config id ops (commit s).0)) ∷ []
        → load_store_from_segments listing
          ≡ ok (record {
            last_root = some (commit s).0;
            snapshots = snapshots_of (es ++ segments (logged ops));
          })
    replayed paths =
        load_store_from_segments_lem listing
        ∙ ap replayed_view (
            ap log_of paths
            ∙ log_of-last old name (on_disk (flushed_log config id ops (commit s).0)) es
                (segments (logged ops) ++ root_entry (commit s).0 ∷ []) before
                (flushed-read_file root_in_range)
            ∙ ap some
                (sym (append_assoc es (segments (logged ops)) (root_entry (commit s).0 ∷ []))))
        ∙ ap₂ (λ r v. ok (record { last_root = r; snapshots = v }))
            (ap (last_or none)
                (roots-append (es ++ segments (logged ops)) (root_entry (commit s).0 ∷ []))
              ∙ last_or-append none (roots (es ++ segments (logged ops))) (commit s).0)
            (snapshots_of-append_root (es ++ segments (logged ops)) (commit s).0)

    flush_wal-commit : (flush_wal (commit s).1).wal ≡ some (flushed_log config id ops (commit s).0)
    unfolding commit
    flush_wal-commit =
        ap
          (λ w. map_wal flush_and_sync (map_wal (λ w. log_mutation w (root_update (commit s).0)) w))
          started

    -- After a commit and a flush of the log, mounting gives the committed store back, with the
    -- snapshots of all segment files in their order and a log of its own, and holds the lock, also
    -- over one that a crash left behind. The conditions: the store is committable, its nodes do
    -- not collide, its log has a file, was started under an id of 64 bits and holds entries in
    -- range only, and its file is the last in name order in a segments directory whose other files
    -- can be read.
    pub load_store-commit :
        (lock : Bool) (config' : WalConfig)
        → seg_paths listing ≡ old ++ (name, on_disk (flushed_log config id ops (commit s).0)) ∷ []
        → ((flush_wal (commit s).1).wal ≡ some (flushed_log config id ops (commit s).0))
          × (load_store (store_dir lock listing) (commit s).1.io config' ≡ (
            ok (
                set_wal
                  (set_snapshots
                    (reloaded (commit s).1)
                    (snapshots_of (es ++ segments (logged ops))))
                  (create_wal config' (next_segment_id listing))),
            store_dir true listing,
          ))
    load_store-commit lock config' paths = (
      flush_wal-commit,
      load_store_of lock (commit s).1.io config' listing _
          (unfold reload in rw (replayed paths, load_from_root-commit s h apart) refl),
    )
