-- ===== src/Filesystem/Release.antt =====
-- What releasing and syncing a handle that has bytes do to its file.
use slicefs.Base.{
  ℕ, ◌≡◌, refl, ap, ◌∙◌, Bool, true, false, none, some, Option, [], ◌∷◌, Bool-cases, Option-cases,
  inl, inr, ==_refl, ◌&&◌,
}
use slicefs.Base.Words.{Bytes}
use slicefs.Base.Keys.{nat_key}
use slicefs.Base.Results.{Result, ok, err, and_then-ok, Result-cases}
use slicefs.Base.Map
use slicefs.Base.Map.{Map, get-insert, get-remove}
use slicefs.Digest.{Digest224, digest_key}
use slicefs.Blockset.{Blockset}
use slicefs.Blockset.Accumulator.{Accumulator}
use slicefs.Meta.{InodeMeta, MetaError}
use slicefs.Inode.{serialize_inode}
use slicefs.Manifest.{manifest_bytes}
use slicefs.Store.{Store}
use slicefs.Store.Refcounts.{increment_refcount, decrement_refcount}
use slicefs.Store.Inodes.{get_inode, update_inode}
use slicefs.Store.Files.{set_manifest}
use slicefs.Filesystem.{
  Now, WriteMode, streaming, buffered, OpenFileState, modify_inode, to_errno, any_eio,
}
use slicefs.Filesystem.Handles.{is_root, commit_content, finalize, written_at, release_written}
use slicefs.Filesystem.Storage.{SameReads, push-SameReads, mode_bytes, ModeHolds, finalize_lem}
use slicefs.Filesystem.Stored.{IsStorable, Shows, one_block, modify_inode_lem}
use slicefs.Filesystem.Writes.{ModeTracks, Tracks}

and_false : (p : Bool) → (p && false) ≡ false
and_false true = refl
and_false false = refl

module _ ⦃b : Blockset⦄ where
  open b use {Io, digest, push, file_storage_get}

  -- Whatever root was committed before, the manifest of the new one is written.
  pub commit_content_lem :
      (s : Store Io) (ino : ℕ) (root : Option Digest224) (d : Digest224)
      → ((commit_content s ino root d).0 ≡ ok tt)
        × ((commit_content s ino root d).1.io ≡ push s.io (manifest_bytes (d ∷ [])))
        × ((commit_content s ino root d).1.inode_data ≡ s.inode_data)
        × (Map.get (commit_content s ino root d).1.manifest_data ino
            ≡ some (digest (manifest_bytes (d ∷ []))))
  unfolding commit_content set_manifest increment_refcount decrement_refcount
  commit_content_lem s ino none d =
      (refl, refl, refl, get-insert s.manifest_data ino ino _ ∙ rw (==_refl ino) refl)
  commit_content_lem s ino (some old) d =
      let named = get-insert s.manifest_data ino ino (digest (manifest_bytes (d ∷ []))) in
      elim (Bool-cases (digest_key.same old d)) [
        | inl y ↦ rw y (refl, refl, refl, named ∙ rw (==_refl ino) refl)
        | inr n ↦ rw n (refl, refl, refl, named ∙ rw (==_refl ino) refl)
      ]

  -- The log is not touched, neither by a new manifest nor by a changed inode.
  pub commit_content-wal :
      (s : Store Io) (ino : ℕ) (root : Option Digest224) (d : Digest224)
      → (commit_content s ino root d).1.wal ≡ s.wal
  unfolding commit_content set_manifest increment_refcount decrement_refcount
  commit_content-wal s ino none d = refl
  commit_content-wal s ino (some old) d = elim (Bool-cases (digest_key.same old d)) [
    | inl y ↦ rw y refl
    | inr n ↦ rw n refl
  ]

  pub update_inode-wal : (s : Store Io) (meta : InodeMeta) → (update_inode s meta).1.wal ≡ s.wal
  unfolding update_inode
  update_inode-wal s meta = elim (Option-cases (Map.get s.inode_data meta.ino)) [
    | inl gone ↦ rw (gone, update_inode) refl
    | inr (d, there) ↦ rw (there, update_inode) refl
  ]

  to_errno_store : (r : Result MetaError Unit × Store Io) → (to_errno any_eio r).1 ≡ r.1
  to_errno_store (ok u, s) = refl
  to_errno_store (err e, s) = refl

  pub modify_inode-wal :
      (s : Store Io) (ino : ℕ) (change : InodeMeta → InodeMeta)
      → (modify_inode s ino change).1.wal ≡ s.wal
  unfolding modify_inode
  modify_inode-wal s ino change = elim (Result-cases (get_inode s ino)) [
    | inr (e, unread) ↦ rw (unread, modify_inode) refl
    | inl (inode, read) ↦
        rw (read, modify_inode)
          (ap (λ (t : Store Io). t.wal) (to_errno_store (update_inode s (change inode)))
            ∙ update_inode-wal s (change inode))
  ]

  module _ ⦃a : Accumulator b⦄ where
    open a use {State, Holds}

    mode_bytes_of :
        (s : Store Io) (ino : ℕ) (mode : WriteMode State) (content : Bytes)
        → ModeTracks s ino mode content
        → (mode_bytes mode ≡ content) × ModeHolds s.io mode
    mode_bytes_of s ino (buffered buf) content e = (e, tt)
    mode_bytes_of s ino (streaming state next) content (p, q, holds, none_there) = (p, holds)

    -- The store after the content of a handle is finished.
    abbrev pub finished : Store Io → OpenFileState State → Store Io
    finished s o = record s { io = (finalize s.io o.write_mode).1 }

    module _ (s : Store Io) (ino : ℕ) (o : OpenFileState State) (content : Bytes) (now : Now)
        (old : InodeMeta) (tracks : Tracks s o content)
        (h : IsStorable s ino content old (written_at now o.byte_count old)) where
      finished_lem :
          ((finalize s.io o.write_mode).0 ≡ digest content)
          × SameReads (finished s o).io (push s.io content)
      finished_lem =
          let (bytes, holds) = mode_bytes_of s o.ino o.write_mode content tracks.mode in
          let (named, reads) = finalize_lem s.io o.write_mode holds in
          (named ∙ ap digest bytes, λ d. reads d ∙ ap (λ t. file_storage_get (push s.io t) d) bytes)

      -- After the manifest is replaced and the inode rewritten, the file has the content.
      pub committed_lem :
          (root : Option Digest224)
          → let t = (commit_content (finished s o) ino root (finalize s.io o.write_mode).0).1 in
            let change = written_at now o.byte_count in
            ((commit_content (finished s o) ino root (finalize s.io o.write_mode).0).0 ≡ ok tt)
            × ((modify_inode t ino change).0 ≡ ok tt)
            × Shows (modify_inode t ino change).1 ino content
            × (get_inode (modify_inode t ino change).1 ino ≡ ok (change old))
            × ((modify_inode t ino change).1.io
                ≡ push (push (finished s o).io (one_block content)) (serialize_inode (change old)))
      committed_lem root =
          let (d, reads) = finished_lem in
          let (done, io, inodes, named) =
            commit_content_lem (finished s o) ino root (digest content) in
          let t = (commit_content (finished s o) ino root (digest content)).1 in
          let (modified, shown, read, last) =
            modify_inode_lem s t ino content old (written_at now o.byte_count) h
              (λ e.
                ap (λ i. file_storage_get i e) io
                ∙ push-SameReads (finished s o).io (push s.io content) (one_block content) reads e)
              inodes named in
          rw d (
            done,
            modified,
            shown,
            read,
            last ∙ ap (λ i. push i (serialize_inode (written_at now o.byte_count old))) io,
          )

      -- The same by a release of a handle whose bytes are not committed.
      pub release_written_lem :
          o.cas_committed ≡ false
          → ((release_written s ino o now).0 ≡ ok tt)
            × Shows (release_written s ino o now).1 ino content
            × (get_inode (release_written s ino o now).1 ino ≡ ok (written_at now o.byte_count old))
      unfolding release_written
      release_written_lem dirty =
          let root = o.last_committed_root in
          let new_digest = (finalize s.io o.write_mode).0 in
          let (done, modified, shown, read, last) = committed_lem root in
          rw
            (
              dirty,
              and_false (is_root root new_digest),
              and_then-ok (commit_content (finished s o) ino root new_digest)
                  (λ _ s2. modify_inode s2 ino (written_at now o.byte_count)) tt done,
            )
            (modified, shown, read)
