-- ===== src/Filesystem/Refusal.antt =====
-- Creating a node whose name is refused: what was created is undone.
use slicefs.Base.{
  ℕ, ◌+◌, ◌^◌, ◌<◌, ◌≡◌, refl, none, arith, ==_refl, ◌%◌, ◌⊎◌, inl, inr, Option-cases, Bool-cases,
}
use slicefs.Base.Words.{Bytes}
use slicefs.Base.Keys.{nat_key}
use slicefs.Base.Results.{ok, err, Result-cases, and_then}
use slicefs.Base.Map
use slicefs.Base.Map.{Map, get-insert, get-remove, All-insert}
use slicefs.Digest.{Digest224, digest_key}
use slicefs.Blockset.{Blockset, NoClash}
use slicefs.Meta.{MetaError, InodeMeta, IsMeta}
use slicefs.Inode.{serialize_inode}
use slicefs.InodeMap
use slicefs.InodeMap.{allocate_ino}
use slicefs.Directory.{add_dir_entry, load_entry_list, entry_key, is_dot_name}
use slicefs.Store.{Store}
use slicefs.Store.Inodes.{create_inode, delete_inode, size_at}
use slicefs.Store.Inodes.Accounts.{load_inode-push_self, load_inode-push_keep, size_at_of}
use slicefs.Store.Inodes.Laws.{numbered}
use slicefs.Store.Directories.{link}
use slicefs.Filesystem.{meta_error_to_errno, to_errno}
use slicefs.Filesystem.Names.{create_named}

module _ ⦃b : Blockset⦄ where
  open b use {Io, digest, push}

  -- Inserting and removing an absent key changes nothing.
  get-remove-insert :
      (m : Map ℕ Digest224) (k i : ℕ) (d : Digest224)
      → Map.get m k ≡ none
      → Map.get (Map.remove k (Map.insert k d m)) i ≡ Map.get m i
  get-remove-insert m k i d absent =
      ground (arith, get-remove (Map.insert k d m) k i, get-insert m k i d, absent)

  create_named_done :
      (s : Store Io) (parent : ℕ) (name : Bytes) (meta : InodeMeta) (ino : ℕ) (e : MetaError)
      → (create_inode s meta).0 ≡ ok ino
      → (link (create_inode s meta).1 parent name ino).0 ≡ err e
      → create_named s parent name meta ≡ (
        err (meta_error_to_errno e),
        (delete_inode (link (create_inode s meta).1 parent name ino).1 ino).1,
      )
  unfolding create_named
  create_named_done s parent name meta ino e made refused =
      rw (create_named, made, and_then, to_errno, refused) refl

  -- A refused name pushes its key at most.
  PushesKey : Io → Io → Bytes → Type 0
  PushesKey io io' name = (io' ≡ io) ⊎ (io' ≡ push io name)

  add_dir_entry_refused :
      (io : Io) (d : Digest224) (name : Bytes) (ino : ℕ) (e : MetaError)
      → (add_dir_entry io d name ino).0 ≡ err e
      → PushesKey io (add_dir_entry io d name ino).1 name
  unfolding add_dir_entry PushesKey
  add_dir_entry_refused io d name ino e refused = elim (Bool-cases (is_dot_name name)) [
    | inl dot ↦ rw (dot, add_dir_entry) (inl refl)
    | inr plain ↦ elim (Result-cases (load_entry_list io d)) [
      | inr (e', unread) ↦ rw (plain, unread, add_dir_entry) (inl refl)
      | inl (entries, read) ↦ elim (Bool-cases (Map.contains_key entries (entry_key io name).0)) [
        | inl taken ↦ rw (plain, read, taken, add_dir_entry) (inr refl)
        | inr free ↦ cc (rw (plain, read, free, add_dir_entry) at refused)
      ]
    ]
  ]

  -- A refused link changes the storage only.
  link_refused :
      (s : Store Io) (parent : ℕ) (name : Bytes) (ino : ℕ) (e : MetaError)
      → (link s parent name ino).0 ≡ err e
      → (io : Io) × ((link s parent name ino).1 ≡ record s { io = io }) × PushesKey s.io io name
  unfolding link PushesKey
  link_refused s parent name ino e refused = elim (Option-cases (Map.get s.dir_data parent)) [
    | inl gone ↦ rw (gone, link) (s.io, refl, inl refl)
    | inr (d, there) ↦ elim (Result-cases (add_dir_entry s.io d name ino).0) [
      | inl (d', added) ↦ cc (rw (there, link, added) at refused)
      | inr (e', failed) ↦
          rw (there, link, failed)
            (
              (add_dir_entry s.io d name ino).1,
              refl,
              add_dir_entry_refused s.io d name ino e' failed,
            )
    ]
  ]

  -- Only the storage has grown, and one number is spent: no table and no total differs.
  pub record IsUndone (s t : Store Io) : Type 0 where
    pub directories : t.dir_data ≡ s.dir_data
    pub manifests : t.manifest_data ≡ s.manifest_data
    pub attributes : t.xattr_data ≡ s.xattr_data
    pub counts : t.refcounts ≡ s.refcounts
    pub inodes : (ino : ℕ) → Map.get t.inode_data ino ≡ Map.get s.inode_data ino
    pub digests : (ino : ℕ) → InodeMap.get t.inode_map ino ≡ InodeMap.get s.inode_map ino
    pub bytes : t.logical_bytes ≡ s.logical_bytes
    pub count : t.inode_count ≡ s.inode_count
    pub next_ino : t.inode_map.next_ino ≡ (s.inode_map.next_ino + 1) % 2 ^ 64

  module _ (s : Store Io) (parent : ℕ) (name : Bytes) (meta : InodeMeta) (e : MetaError)
      (refused : (link (create_inode s meta).1 parent name s.inode_map.next_ino).0 ≡ err e)
      (absent : Map.get s.inode_data s.inode_map.next_ino ≡ none)
      (unmapped : InodeMap.get s.inode_map s.inode_map.next_ino ≡ none)
      (in_range : IsMeta (numbered s meta)) (clash : NoClash (create_inode s meta).1.io name)
      (room : s.inode_count + 1 < 2 ^ 64) (space : s.logical_bytes + meta.size < 2 ^ 64) where
    abbrev inode_digest : Digest224
    inode_digest = digest (serialize_inode (numbered s meta))

    -- The record of the new inode is still read behind the refusal.
    size_kept :
        (io : Io)
        → PushesKey (create_inode s meta).1.io io name
        → size_at io inode_digest ≡ meta.size
    unfolding PushesKey create_inode allocate_ino
    size_kept io grown =
        let here = load_inode-push_self s.io (numbered s meta) in_range in
        elim grown [
          | inl same ↦ rw same (size_at_of _ inode_digest (numbered s meta) here)
          | inr pushed ↦ rw pushed (
              size_at_of _ inode_digest (numbered s meta)
                (load_inode-push_keep _ name inode_digest (numbered s meta) clash here))
        ]

    -- Deleting the new inode takes everything back that creating it did.
    undone :
        (io : Io)
        → size_at io inode_digest ≡ meta.size
        → IsUndone s
            (delete_inode (record (create_inode s meta).1 { io = io }) s.inode_map.next_ino).1
    unfolding create_inode allocate_ino delete_inode InodeMap.insert InodeMap.remove InodeMap.get
    undone io size =
        let n = s.inode_map.next_ino in
        rw (get-insert s.inode_data n n inode_digest, ==_refl n, delete_inode, size)
          (record {
            directories = refl;
            manifests = refl;
            attributes = refl;
            counts = refl;
            inodes = λ ino. get-remove-insert s.inode_data n ino inode_digest absent;
            digests = λ ino. get-remove-insert s.inode_map.map n ino inode_digest unmapped;
            bytes = ground arith;
            count = omega (arith, room);
            next_ino = refl;
          })

    -- Where the name of a new node is refused, its inode is deleted again: the call fails with the
    -- error of the refusal, the directories, manifests, attributes and reference counts, the entry
    -- of every inode in both inode tables, the total of bytes and the count of inodes are as
    -- before, and one inode number is spent. The number must be unused, the inode in range, the
    -- name not collide in the storage, and neither total overflow.
    pub create_named_refused :
        ((create_named s parent name meta).0 ≡ err (meta_error_to_errno e))
        × IsUndone s (create_named s parent name meta).1
    unfolding create_inode allocate_ino
    create_named_refused =
        let n = s.inode_map.next_ino in
        let (io, same, grown) = link_refused (create_inode s meta).1 parent name n e refused in
        rw (create_named_done s parent name meta n e refl refused, same)
          (refl, undone io (size_kept io grown))
