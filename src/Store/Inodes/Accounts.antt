-- ===== src/Store/Inodes/Accounts.antt =====
-- crates/metadata/src/store.rs: the running totals of a store, and what a push keeps.
use slicefs.Base.{
  ℕ, ◌<◌, ◌≡◌, ◌≢◌, refl, sym, ◌∙◌, false, none, some, [], ◌∷◌, length, All, All-map, arith, ◌==◌,
  ==_iff, Bool-cases, Option-cases, inl, inr,
}
use slicefs.Base.Words.{Bytes}
use slicefs.Base.Keys.{nat_key}
use slicefs.Base.Results.{ok}
use slicefs.Base.Map
use slicefs.Base.Map.{
  Map, IsSorted, insert-IsSorted, remove-IsSorted, get-insert, get-remove, total, total-insert,
  total-remove, total-ext, All-insert, All-remove, All-get, length-insert_absent,
  length-insert_present, length-remove_present,
}
use slicefs.Digest.{Digest224}
use slicefs.Blockset.{Blockset, NoClash, get-push_keep}
use slicefs.Meta.{InodeMeta, IsMeta}
use slicefs.Inode.{serialize_inode, deserialize_inode-serialize_inode, load_inode}
use slicefs.Store.{Store}
use slicefs.Store.Inodes.{size_at, get_inode}

module _ ⦃b : Blockset⦄ where
  open b use {Io, digest, push, file_storage_get, get-push_self}

  -- An inode record stands under the digest.
  abbrev pub Loads : Io → Digest224 → Type 0
  Loads io d = (m : InodeMeta) × (load_inode io d ≡ ok m)

  -- The table of inodes is in order, every inode can be read, the totals are those of the table,
  -- and the next number is above all numbers in use.
  pub record IsAccounted (s : Store Io) : Type 0 where
    pub sorted : IsSorted s.inode_data
    pub loads : All (λ (e : ℕ × Digest224). Loads s.io e.1) s.inode_data
    pub bytes : s.logical_bytes ≡ total (size_at s.io) s.inode_data
    pub count : s.inode_count ≡ length s.inode_data
    pub fresh : All (λ (e : ℕ × Digest224). e.0 < s.inode_map.next_ino) s.inode_data

  pub load_inode-push_self :
      (io : Io) (m : InodeMeta)
      → IsMeta m
      → load_inode (push io (serialize_inode m)) (digest (serialize_inode m)) ≡ ok m
  unfolding load_inode
  load_inode-push_self io m h =
      rw (get-push_self io (serialize_inode m)) (deserialize_inode-serialize_inode m h)

  pub load_inode-push_keep :
      (io : Io) (bytes : Bytes) (d : Digest224) (m : InodeMeta)
      → NoClash io bytes
      → load_inode io d ≡ ok m
      → load_inode (push io bytes) d ≡ ok m
  unfolding load_inode
  load_inode-push_keep io bytes d m clash e = elim (Option-cases (file_storage_get io d)) [
    | inl gone ↦ cc (rw gone at e)
    | inr (x, there) ↦ rw (get-push_keep io bytes x d clash there) (rw there at e)
  ]

  pub size_at_of :
      (io : Io) (d : Digest224) (m : InodeMeta) → load_inode io d ≡ ok m → size_at io d ≡ m.size
  unfolding size_at
  size_at_of io d m e = rw e refl

  -- A push that does not collide keeps all inodes and their sizes.
  module _ (io : Io) (bytes : Bytes) (clash : NoClash io bytes) where
    pub keep-Loads :
        (m : Map ℕ Digest224)
        → All (λ (e : ℕ × Digest224). Loads io e.1) m
        → All (λ (e : ℕ × Digest224). Loads (push io bytes) e.1) m
    keep-Loads m h =
        All-map (λ (e : ℕ × Digest224). Loads io e.1)
          (λ (e : ℕ × Digest224). Loads (push io bytes) e.1) m
          (λ e l. (l.0, load_inode-push_keep io bytes e.1 l.0 clash l.1)) h

    pub keep_total :
        (m : Map ℕ Digest224)
        → All (λ (e : ℕ × Digest224). Loads io e.1) m
        → total (size_at (push io bytes)) m ≡ total (size_at io) m
    keep_total m h = total-ext (size_at (push io bytes)) (size_at io) m (
        All-map (λ (e : ℕ × Digest224). Loads io e.1)
          (λ (e : ℕ × Digest224). size_at (push io bytes) e.1 ≡ size_at io e.1) m
          (λ e l.
            size_at_of (push io bytes) e.1 l.0 (load_inode-push_keep io bytes e.1 l.0 clash l.1)
            ∙ sym (size_at_of io e.1 l.0 l.1))
          h)

  pub get-none_of_fresh :
      (m : Map ℕ Digest224) (n : ℕ) → All (λ (e : ℕ × Digest224). e.0 < n) m → Map.get m n ≡ none
  unfolding Map.get
  get-none_of_fresh [] n h = refl
  get-none_of_fresh ((j, d) ∷ m) n h = ground (arith, get-none_of_fresh m n h.1, h.0)

  pub get_of_get_inode :
      (s : Store Io) (ino : ℕ) (m : InodeMeta)
      → get_inode s ino ≡ ok m
      → (d : Digest224) × (Map.get s.inode_data ino ≡ some d) × (load_inode s.io d ≡ ok m)
  unfolding get_inode
  get_of_get_inode s ino m e = elim (Option-cases (Map.get s.inode_data ino)) [
    | inl gone ↦ cc (rw gone at e)
    | inr (d, there) ↦ (d, there, rw there at e)
  ]

  -- Reading another inode, after a push and an insertion.
  pub get_inode_other :
      (s t : Store Io) (bytes : Bytes) (ino other : ℕ) (d : Digest224)
      → NoClash s.io bytes
      → All (λ (e : ℕ × Digest224). Loads s.io e.1) s.inode_data
      → t.io ≡ push s.io bytes
      → t.inode_data ≡ Map.insert ino d s.inode_data
      → other ≢ ino
      → get_inode t other ≡ get_inode s other
  unfolding get_inode
  get_inode_other s t bytes ino other d clash loads p q ne =
      rw (p, q, get-insert s.inode_data ino other d, different)
        (elim (Option-cases (Map.get s.inode_data other)) [
          | inl gone ↦ rw gone refl
          | inr (d', there) ↦
              let (m, l) =
                All-get (λ (e : ℕ × Digest224). Loads s.io e.1) s.inode_data other d' loads there in
              rw (there, load_inode-push_keep s.io bytes d' m clash l) (sym l)
        ])
    where
      different : (ino == other) ≡ false
      different = elim (Bool-cases (ino == other)) [
        | inl y ↦ absurd (ne (sym ((==_iff ino other).0 y)))
        | inr n ↦ n
      ]
