-- ===== src/Filesystem/Resizing.antt =====
-- Content that is stored without a handle: the truncation of a closed file, and the target of a
-- symbolic link.
use slicefs.Base.{
  ℕ, ◌<◌, ◌≡◌, refl, ap, ◌∙◌, true, none, some, List, [], ◌∷◌, length, arith, ==_refl,
}
use slicefs.Base.Words.{Bytes}
use slicefs.Base.Keys.{nat_key}
use slicefs.Base.Utf8.{is_utf8}
use slicefs.Base.Results.{ok, and_then-ok}
use slicefs.Base.Map
use slicefs.Base.Map.{Map, get-insert}
use slicefs.Digest.{Digest224}
use slicefs.Blockset.{Blockset}
use slicefs.Blockset.Accumulator.{Accumulator}
use slicefs.Meta.{InodeMeta}
use slicefs.Store.{Store}
use slicefs.Store.Refcounts.{increment_refcount, decrement_refcount}
use slicefs.Store.Inodes.{get_inode}
use slicefs.Store.Files.{get_manifest, set_manifest}
use slicefs.Filesystem.{Now, SliceFsFilesystem, modify_inode}
use slicefs.Filesystem.Content.{resize, release_root, read_manifest, find_writer}
use slicefs.Filesystem.Sizes.{
  resized_at, old_manifest, store_content, resize_committed, test_setattr_size,
}
use slicefs.Filesystem.Rename.{store_target, read_target, simulate_readlink}
use slicefs.Filesystem.Ranges.{length-resize}
use slicefs.Filesystem.Stored.{IsStorable, Shows, one_block, committed_content_of, modify_inode_lem}
use slicefs.Filesystem.Closing.{IsWritten, read_committed}

module _ ⦃b : Blockset⦄ where
  open b use {Io, digest, push, file_storage_get}

  store_content_lem :
      (s : Store Io) (ino : ℕ) (bytes : Bytes)
      → 0 < length bytes
      → ((store_content s ino bytes).0 ≡ ok tt)
        × ((store_content s ino bytes).1.io ≡ push (push s.io bytes) (one_block bytes))
        × ((store_content s ino bytes).1.inode_data ≡ s.inode_data)
        × (Map.get (store_content s ino bytes).1.manifest_data ino
            ≡ some (digest (one_block bytes)))
  unfolding store_content set_manifest increment_refcount
  store_content_lem s ino [] h = absurd (omega (arith, h))
  store_content_lem s ino (byte ∷ bytes) h =
      (refl, refl, refl, get-insert s.manifest_data ino ino _ ∙ rw (==_refl ino) refl)

  old_manifest_lem :
      (s : Store Io) (ino : ℕ) (manifest : List Digest224)
      → get_manifest s ino ≡ ok manifest
      → old_manifest s ino ≡ ok manifest
  unfolding old_manifest
  old_manifest_lem s ino manifest named = rw (named, old_manifest) refl

  resize_done :
      (s : Store Io) (ino : ℕ) (content : Bytes) (new_size : ℕ) (now : Now) (d : Digest224)
      → get_manifest s ino ≡ ok (d ∷ [])
      → file_storage_get s.io d ≡ some content
      → (store_content (release_root s (some d)) ino (resize content new_size)).0 ≡ ok tt
      → resize_committed s ino new_size now
        ≡ modify_inode
            (store_content (release_root s (some d)) ino (resize content new_size)).1
            ino
            (resized_at now new_size)
  unfolding resize_committed read_manifest
  resize_done s ino content new_size now d named read done =
      rw (resize_committed, old_manifest_lem s ino (d ∷ []) named, read)
        (and_then-ok (store_content (release_root s (some d)) ino (resize content new_size))
          (λ _ s. modify_inode s ino (resized_at now new_size)) tt done)

  module _ (s : Store Io) (ino : ℕ) (content : Bytes) (new_size : ℕ) (now : Now) (old : InodeMeta)
      (h : Shows s ino content)
      (storable : IsStorable s ino (resize content new_size) old (resized_at now new_size old))
      (some_bytes : 0 < new_size) where
    -- The committed content is cut or extended.
    pub resize_committed_lem :
        ((resize_committed s ino new_size now).0 ≡ ok tt)
        × Shows (resize_committed s ino new_size now).1 ino (resize content new_size)
        × (get_inode (resize_committed s ino new_size now).1 ino ≡ ok (resized_at now new_size old))
    unfolding decrement_refcount
    resize_committed_lem =
        let bytes = resize content new_size in
        let freed = release_root s (some (digest content)) in
        let (done, io, inodes, named) =
          store_content_lem freed ino bytes
            (omega (arith, length-resize content new_size, some_bytes)) in
        let t = (store_content freed ino bytes).1 in
        let (modified, shown, read, last) =
          modify_inode_lem s t ino bytes old (resized_at now new_size) storable
            (λ e. ap (λ i. file_storage_get i e) io) inodes named in
        rw (resize_done s ino content new_size now (digest content) h.0 h.1 done)
          (modified, shown, read)

  -- Reading a symbolic link right after its target was stored gives the target back, and the inode
  -- has its length as size, if the target is UTF-8 and the target, its manifest and the new inode
  -- collide neither with what is stored nor with each other.
  pub simulate_readlink-store_target :
      (s : Store Io) (ino : ℕ) (target : Bytes) (old : InodeMeta)
      → is_utf8 target ≡ true
      → IsStorable s ino target old (record old { size = length target })
      → ((store_target s ino target).0 ≡ ok ino)
        × (simulate_readlink (store_target s ino target).1 ino ≡ ok target)
        × (get_inode (store_target s ino target).1 ino ≡ ok (record old { size = length target }))
  unfolding store_target simulate_readlink read_target set_manifest increment_refcount
  simulate_readlink-store_target s ino target old valid storable =
      let change = λ (inode : InodeMeta). record inode { size = length target } in
      let d = digest target in
      let t =
        increment_refcount (set_manifest (record s { io = push s.io target }) ino (d ∷ [])).1 d in
      let (modified, shown, read, last) =
        modify_inode_lem s t ino target old change storable (λ e. refl) refl
          (get-insert s.manifest_data ino ino _ ∙ rw (==_refl ino) refl) in
      rw (modified, shown.0, shown.1, valid) (refl, refl, read)

module _ ⦃b : Blockset⦄ ⦃a : Accumulator b⦄ where
  open b use {Io}
  open a use {State}

  -- Setting the size of a file that has a committed content and no writer, to a number of bytes
  -- above 0, commits the content cut, or extended by zeros, to that size; the inode has the size,
  -- and reads find it. The new content, its manifest and the new inode must collide neither with
  -- what is stored nor with each other.
  pub test_setattr_size_closed :
      (fs : SliceFsFilesystem Io State) (ino : ℕ) (content : Bytes) (new_size : ℕ) (now : Now)
      (old : InodeMeta)
      → Shows fs.meta ino content
      → find_writer ino fs.open_files ≡ none
      → IsStorable fs.meta ino (resize content new_size) old (resized_at now new_size old)
      → 0 < new_size
      → ((test_setattr_size fs ino none new_size now).0 ≡ ok tt)
        × IsWritten
            (test_setattr_size fs ino none new_size now).1
            ino
            (resize content new_size)
            (resized_at now new_size old)
  unfolding test_setattr_size
  test_setattr_size_closed fs ino content new_size now old h closed storable some_bytes =
      let (done, shown, read) =
        resize_committed_lem fs.meta ino content new_size now old h storable some_bytes in
      let t = record fs { meta = (resize_committed fs.meta ino new_size now).1 } in
      (
        done,
        record {
          committed = committed_content_of t.meta ino (resize content new_size) shown;
          attributes = read;
          reads = λ offset size.
              read_committed t ino (resize content new_size) offset size closed shown;
        },
      )
