-- ===== src/Filesystem/Stored.antt =====
-- A content that is stored as the one block of a file: its manifest is written, and its inode
-- rewritten. The end of a release, a sync, a truncation and a new symbolic link.
use slicefs.Base.{ℕ, ◌≡◌, refl, sym, ap, ◌∙◌, some, [], ◌∷◌, ==_refl}
use slicefs.Base.Words.{Bytes}
use slicefs.Base.Keys.{nat_key}
use slicefs.Base.Results.{ok}
use slicefs.Base.Map
use slicefs.Base.Map.{Map, get-insert}
use slicefs.Digest.{Digest224}
use slicefs.Blockset.{Blockset, NoClash, AllApart, get-push_many}
use slicefs.Meta.{InodeMeta, IsMeta}
use slicefs.Inode.{serialize_inode}
use slicefs.Manifest.{manifest_bytes, load_manifest, parse_manifest-manifest_bytes}
use slicefs.InodeMap
use slicefs.Store.{Store}
use slicefs.Store.Inodes.{size_at, get_inode, adjusted, update_inode}
use slicefs.Store.Inodes.Accounts.{load_inode-push_self, load_inode-push_keep, get_of_get_inode}
use slicefs.Store.Files.{get_manifest}
use slicefs.Filesystem.{modify_inode}
use slicefs.Filesystem.Content.{block_content, committed_content}
use slicefs.Filesystem.Storage.{SameReads, push-SameReads, get_inode_same}

module _ ⦃b : Blockset⦄ where
  open b use {Io, digest, push, file_storage_get, digest-IsDigest}

  -- The manifest of a file of one block.
  abbrev pub one_block : Bytes → Bytes
  one_block content = manifest_bytes (digest content ∷ [])

  -- The file can be read as the inode `old`, and the content, its manifest and the inode `new`
  -- collide neither with what is stored nor with each other.
  pub record IsStorable (s : Store Io) (ino : ℕ) (content : Bytes) (old new : InodeMeta)
      : Type 0 where
    pub there : get_inode s ino ≡ ok old
    pub number : new.ino ≡ ino
    pub meta : IsMeta new
    pub content_free : NoClash s.io content
    pub manifest_free : NoClash (push s.io content) (one_block content)
    pub apart : AllApart (content ∷ one_block content ∷ serialize_inode new ∷ [])

  -- The manifest names the content, and the content can be read.
  abbrev pub Shows : Store Io → ℕ → Bytes → Type 0
  Shows s ino content =
      (get_manifest s ino ≡ ok (digest content ∷ []))
      × (file_storage_get s.io (digest content) ≡ some content)

  pub committed_content_of :
      (s : Store Io) (ino : ℕ) (content : Bytes)
      → Shows s ino content
      → committed_content s ino ≡ content
  unfolding committed_content block_content
  committed_content_of s ino content (named, read) = rw (named, read) refl

  Shows_lem :
      (s : Store Io) (ino : ℕ) (content : Bytes)
      → Map.get s.manifest_data ino ≡ some (digest (one_block content))
      → file_storage_get s.io (digest (one_block content)) ≡ some (one_block content)
      → file_storage_get s.io (digest content) ≡ some content
      → Shows s ino content
  unfolding get_manifest load_manifest
  Shows_lem s ino content named block read = (
    rw (named, block)
        (parse_manifest-manifest_bytes (digest content ∷ []) (digest-IsDigest content, tt)),
    read,
  )

  -- The store after an inode is rewritten, the old one being at `d`.
  abbrev pub rewritten : Store Io → InodeMeta → Digest224 → Store Io
  rewritten t meta d = record t {
    io = push t.io (serialize_inode meta);
    inode_data = Map.insert meta.ino (digest (serialize_inode meta)) t.inode_data;
    inode_map = InodeMap.insert t.inode_map meta.ino (digest (serialize_inode meta));
    logical_bytes = adjusted t.logical_bytes (size_at t.io d) meta.size;
  }

  pub modify_inode_done :
      (t : Store Io) (ino : ℕ) (change : InodeMeta → InodeMeta) (old : InodeMeta) (d : Digest224)
      → get_inode t ino ≡ ok old
      → Map.get t.inode_data (change old).ino ≡ some d
      → modify_inode t ino change ≡ (ok tt, rewritten t (change old) d)
  unfolding modify_inode update_inode
  modify_inode_done t ino change old d there found = rw (there, found, update_inode) refl

  pub get_inode-rewritten :
      (t : Store Io) (meta : InodeMeta) (d : Digest224)
      → IsMeta meta
      → get_inode (rewritten t meta d) meta.ino ≡ ok meta
  unfolding get_inode
  get_inode-rewritten t meta d h =
      rw
        (
          get-insert t.inode_data meta.ino meta.ino (digest (serialize_inode meta)),
          ==_refl meta.ino,
        )
        (load_inode-push_self t.io meta h)

  module _ (s t : Store Io) (ino : ℕ) (content : Bytes) (old : InodeMeta)
      (change : InodeMeta → InodeMeta) (h : IsStorable s ino content old (change old))
      (reads : SameReads t.io (push (push s.io content) (one_block content)))
      (same : t.inode_data ≡ s.inode_data)
      (named : Map.get t.manifest_data ino ≡ some (digest (one_block content))) where
    -- The inode is still there behind the two writes.
    inode_kept : get_inode t ino ≡ ok old
    unfolding get_inode
    inode_kept =
        let (d, found, loads) = get_of_get_inode s ino old h.there in
        let io1 = push s.io content in
        let kept =
          load_inode-push_keep io1 (one_block content) d old h.manifest_free
            (load_inode-push_keep s.io content d old h.content_free loads) in
        get_inode_same t (record t { io = push io1 (one_block content) }) reads ino refl
        ∙ rw (same, found) kept

    -- After the inode is rewritten, the file has the content and the new inode.
    pub modify_inode_lem :
        ((modify_inode t ino change).0 ≡ ok tt)
        × Shows (modify_inode t ino change).1 ino content
        × (get_inode (modify_inode t ino change).1 ino ≡ ok (change old))
        × ((modify_inode t ino change).1.io ≡ push t.io (serialize_inode (change old)))
    modify_inode_lem =
        let (d, found, loads) = get_of_get_inode t ino old inode_kept in
        let found' = ap (Map.get t.inode_data) h.number ∙ found in
        let record_bytes = serialize_inode (change old) in
        let all = get-push_many s.io (content ∷ one_block content ∷ record_bytes ∷ []) h.apart in
        let reads' =
          push-SameReads t.io (push (push s.io content) (one_block content)) record_bytes reads in
        let after = rewritten t (change old) d in
        rw (modify_inode_done t ino change old d inode_kept found') (
          refl,
          Shows_lem after ino content named (reads' (digest (one_block content)) ∙ all.1.0)
              (reads' (digest content) ∙ all.0),
          ap (get_inode after) (sym h.number) ∙ get_inode-rewritten t (change old) d h.meta,
          refl,
        )
