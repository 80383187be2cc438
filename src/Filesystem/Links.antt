-- ===== src/Filesystem/Links.antt =====
-- The last name of a file: unlinking it, and renaming another of its names over it.
use slicefs.Base.{
  ℕ, ◌-◌, ◌≤◌, ◌<◌, ◌≡◌, refl, sym, ap, ◌∙◌, true, false, none, some, List, [], ◌∷◌, arith, ==_refl,
  ◌==◌, inl, inr, Option-cases, Bool-cases,
}
use slicefs.Base.Words.{Bytes}
use slicefs.Base.Keys.{nat_key}
use slicefs.Base.Results.{ok, err, Result-cases}
use slicefs.Base.Map
use slicefs.Base.Map.{Map, get-insert, get-remove}
use slicefs.Digest.{Digest224}
use slicefs.Blockset.{Blockset}
use slicefs.Meta.{InodeMeta, IsMeta, not_found}
use slicefs.Store.{Store, has_dir_bit}
use slicefs.Store.Refcounts.{decrement_refcount}
use slicefs.Store.Inodes.{get_inode, update_inode, delete_inode}
use slicefs.Store.Inodes.Accounts.{get_of_get_inode}
use slicefs.Store.Directories.{lookup, link, unlink}
use slicefs.Store.Files.{get_manifest}
use slicefs.Filesystem.{Errno, enoent, meta_error_to_errno, Now}
use slicefs.Filesystem.Names.{decrement_all, drop_file, remove_file, simulate_unlink}
use slicefs.Filesystem.Rename.{displace, move_name, simulate_rename}
use slicefs.Filesystem.Stored.{rewritten, get_inode-rewritten}
use slicefs.Filesystem.Removal.{link_tables, unlink_tables}

module _ ⦃b : Blockset⦄ where
  open b use {Io}

  decrement_all-inode_data :
      (s : Store Io) (manifest : List Digest224)
      → (decrement_all s manifest).inode_data ≡ s.inode_data
  unfolding decrement_all decrement_refcount
  decrement_all-inode_data s [] = refl
  decrement_all-inode_data s (d ∷ ds) = decrement_all-inode_data (decrement_refcount s d) ds

  delete_inode_gone :
      (s : Store Io) (ino : ℕ) → Map.get (delete_inode s ino).1.inode_data ino ≡ none
  unfolding delete_inode
  delete_inode_gone s ino = elim (Option-cases (Map.get s.inode_data ino)) [
    | inl gone ↦ rw (gone, delete_inode) gone
    | inr (d, there) ↦
        rw (there, delete_inode) (get-remove s.inode_data ino ino ∙ rw (==_refl ino) refl)
  ]

  drop_file_gone : (s : Store Io) (ino : ℕ) → Map.get (drop_file s ino).inode_data ino ≡ none
  unfolding drop_file
  drop_file_gone s ino = elim (Result-cases (get_manifest s ino)) [
    | inl (manifest, e) ↦ rw (e, drop_file) (delete_inode_gone (decrement_all s manifest) ino)
    | inr (failure, e) ↦ rw (e, drop_file) (delete_inode_gone s ino)
  ]

  get_inode-none :
      (s : Store Io) (ino : ℕ)
      → Map.get s.inode_data ino ≡ none
      → get_inode s ino ≡ err (not_found ino)
  unfolding get_inode
  get_inode-none s ino e = rw e refl

  -- A move of an inode that is gone fails at the latest when the inode is read.
  move_name_lem :
      (s : Store Io) (parent : ℕ) (name : Bytes) (newparent : ℕ) (newname : Bytes) (ino : ℕ)
      (now : Now)
      → Map.get s.inode_data ino ≡ none
      → (e : Errno) × ((move_name s parent name newparent newname ino now).0 ≡ err e)
        × (Map.get (move_name s parent name newparent newname ino now).1.inode_data ino ≡ none)
  unfolding move_name
  move_name_lem s parent name newparent newname ino now gone =
      let s1 = (link s newparent newname ino).1 in
      let s2 = (unlink s1 parent name).1 in
      let gone1 = ap (λ m. Map.get m ino) (link_tables s newparent newname ino).0 ∙ gone in
      let gone2 = ap (λ m. Map.get m ino) (unlink_tables s1 parent name).0 ∙ gone1 in
      elim (Result-cases (link s newparent newname ino).0) [
        | inr (e, refused) ↦
            (meta_error_to_errno e, rw (move_name, refused) refl, rw (move_name, refused) gone1)
        | inl (_, linked) ↦ elim (Result-cases (unlink s1 parent name).0) [
          | inr (e, refused) ↦ (
            meta_error_to_errno e,
            rw (move_name, linked, refused) refl,
            rw (move_name, linked, refused) gone2,
          )
          | inl (_, unlinked) ↦
              let missing = get_inode-none s2 ino gone2 in
              (
                enoent,
                rw (move_name, linked, unlinked, missing) refl,
                rw (move_name, linked, unlinked, missing) gone2,
              )
        ]
      ]

  -- Renaming a file over a name of its own destroys it: where both names look up as the same file,
  -- which is no directory and has no more than one link, and the displaced name can be unlinked,
  -- the call fails and the inode is gone.
  pub simulate_rename_same :
      (s : Store Io) (parent : ℕ) (name : Bytes) (newparent : ℕ) (newname : Bytes) (ino : ℕ)
      (inode : InodeMeta) (now : Now)
      → let t = (lookup (lookup s parent name).1 newparent newname).1 in
        (lookup s parent name).0 ≡ ok ino
        → (lookup (lookup s parent name).1 newparent newname).0 ≡ ok ino
        → get_inode t ino ≡ ok inode
        → has_dir_bit inode.mode ≡ false
        → inode.nlinks ≤ 1
        → (unlink t newparent newname).0 ≡ ok tt
        → (e : Errno) × ((simulate_rename s parent name newparent newname 0 now).0 ≡ err e)
          × (get_inode (simulate_rename s parent name newparent newname 0 now).1 ino
              ≡ err (not_found ino))
  unfolding simulate_rename displace
  simulate_rename_same s parent name newparent newname ino inode now found again read file one
        unlinked =
      let t = (lookup (lookup s parent name).1 newparent newname).1 in
      let dropped = drop_file (unlink t newparent newname).1 ino in
      let z : (inode.nlinks - 1 == 0) ≡ true = ground arith in
      let (e, failed, gone) =
        move_name_lem dropped parent name newparent newname ino now
          (drop_file_gone (unlink t newparent newname).1 ino) in
      rw (simulate_rename, found, again, displace, read, unlinked, z, file)
        (e, failed, get_inode-none _ ino gone)

  pub update_inode_done :
      (t : Store Io) (meta : InodeMeta) (d : Digest224)
      → Map.get t.inode_data meta.ino ≡ some d
      → update_inode t meta ≡ (ok tt, rewritten t meta d)
  unfolding update_inode
  update_inode_done t meta d there = rw (there, update_inode) refl

  one_less :
      (inode : InodeMeta) → IsMeta inode → IsMeta (record inode { nlinks = inode.nlinks - 1 })
  one_less inode h = record {
    ino = h.ino;
    mode = h.mode;
    uid = h.uid;
    gid = h.gid;
    nlinks = omega (arith, h.nlinks);
    size = h.size;
    mtime_sec = h.mtime_sec;
    mtime_nsec = h.mtime_nsec;
    ctime_sec = h.ctime_sec;
    ctime_nsec = h.ctime_nsec;
  }

  module _ (s : Store Io) (parent : ℕ) (name : Bytes) (ino : ℕ) (inode : InodeMeta)
      (found : (lookup s parent name).0 ≡ ok ino)
      (read : get_inode (lookup s parent name).1 ino ≡ ok inode)
      (file : has_dir_bit inode.mode ≡ false)
      (unlinked : (unlink (lookup s parent name).1 parent name).0 ≡ ok tt)
      (number : inode.ino ≡ ino) (h : IsMeta inode) where
    -- Unlinking a name of a file succeeds: with its last link the inode is gone, otherwise the
    -- inode has one link less. The name must look up as an inode that can be read and is no
    -- directory, the directory must give the name up, and the inode's fields be in range.
    pub simulate_unlink_lem :
        ((simulate_unlink s parent name).0 ≡ ok tt)
        × (inode.nlinks ≤ 1 → get_inode (simulate_unlink s parent name).1 ino ≡ err (not_found ino))
        × (1 < inode.nlinks
            → get_inode (simulate_unlink s parent name).1 ino
              ≡ ok (record inode { nlinks = inode.nlinks - 1 }))
    unfolding simulate_unlink remove_file
    simulate_unlink_lem =
        let t = (lookup s parent name).1 in
        let u = (unlink t parent name).1 in
        let fewer : InodeMeta = record inode { nlinks = inode.nlinks - 1 } in
        elim (Bool-cases (inode.nlinks - 1 == 0)) [
          | inl last ↦
              rw (simulate_unlink, found, read, file, remove_file, unlinked, last)
                (
                  refl,
                  λ _. get_inode-none (drop_file u ino) ino (drop_file_gone u ino),
                  λ more. absurd (ground arith),
                )
          | inr more ↦
              let (d, there, loads) = get_of_get_inode t ino inode read in
              let there' =
                ap (λ m. Map.get m inode.ino) (unlink_tables t parent name).0
                ∙ ap (Map.get t.inode_data) number
                ∙ there in
              let after = rewritten u fewer d in
              rw
                (
                  simulate_unlink,
                  found,
                  read,
                  file,
                  remove_file,
                  unlinked,
                  more,
                  update_inode_done u fewer d there',
                )
                (
                  refl,
                  λ last. absurd (ground arith),
                  λ _.
                      ap (get_inode after) (sym number)
                      ∙ get_inode-rewritten u fewer d (one_less inode h),
                )
        ]
