-- ===== src/Store/Inodes/Laws.antt =====
-- crates/metadata/src/store.rs: what creating, updating and deleting an inode does to the inodes
-- that can be read, and to the running totals.
use slicefs.Base.{
  ℕ, ◌+◌, ◌^◌, ◌%◌, ◌<◌, ◌≡◌, ◌≢◌, refl, sym, ◌∙◌, false, none, All-map, arith, ◌==◌, ==_iff,
  ==_refl, Bool-cases, inl, inr,
}
use slicefs.Base.Keys.{nat_key}
use slicefs.Base.Results.{ok, err}
use slicefs.Base.Map
use slicefs.Base.Map.{
  Map, IsSorted, insert-IsSorted, remove-IsSorted, get-insert, get-remove, total, total-insert,
  total-remove, All-insert, All-remove, All-get, length-insert_absent, length-insert_present,
  length-remove_present,
}
use slicefs.Digest.{Digest224}
use slicefs.Blockset.{Blockset, NoClash}
use slicefs.Meta.{not_found, InodeMeta, IsMeta}
use slicefs.Inode.{serialize_inode}
use slicefs.InodeMap
use slicefs.InodeMap.{allocate_ino}
use slicefs.Store.{Store}
use slicefs.Store.Inodes.{size_at, create_inode, get_inode, adjusted, update_inode, delete_inode}
use slicefs.Store.Inodes.Accounts.{
  IsAccounted, Loads, load_inode-push_self, load_inode-push_keep, size_at_of, keep-Loads,
  keep_total, get-none_of_fresh, get_of_get_inode, get_inode_other,
}

module _ ⦃b : Blockset⦄ where
  open b use {Io, digest, push, file_storage_get}

  -- The inode that `create_inode` stores.
  abbrev pub numbered : Store Io → InodeMeta → InodeMeta
  numbered s meta = record meta { ino = s.inode_map.next_ino }

  module _ (s : Store Io) (meta : InodeMeta) (h : IsAccounted s) (hm : IsMeta (numbered s meta))
      (clash : NoClash s.io (serialize_inode (numbered s meta))) where
    absent : Map.get s.inode_data s.inode_map.next_ino ≡ none
    absent = get-none_of_fresh s.inode_data s.inode_map.next_ino h.fresh

    -- Creating an inode returns a number not in use, under which the inode can then be read; all
    -- other inodes read as before. The store must be accounted for, the fields in range, and the
    -- record must not collide with a stored one.
    pub get_inode-create_inode :
        ((create_inode s meta).0 ≡ ok s.inode_map.next_ino)
        × (get_inode s s.inode_map.next_ino ≡ err (not_found s.inode_map.next_ino))
        × (get_inode (create_inode s meta).1 s.inode_map.next_ino ≡ ok (numbered s meta))
        × ((other : ℕ)
            → other ≢ s.inode_map.next_ino
            → get_inode (create_inode s meta).1 other ≡ get_inode s other)
    unfolding create_inode get_inode allocate_ino
    get_inode-create_inode = (
      refl,
      rw absent refl,
      rw
          (
            get-insert s.inode_data s.inode_map.next_ino s.inode_map.next_ino
                (digest (serialize_inode (numbered s meta))),
            ==_refl s.inode_map.next_ino,
          )
          (load_inode-push_self s.io (numbered s meta) hm),
      λ other ne.
          get_inode_other s (create_inode s meta).1 (serialize_inode (numbered s meta))
            s.inode_map.next_ino other (digest (serialize_inode (numbered s meta))) clash h.loads
            refl refl ne,
    )

    -- Creating an inode keeps the running totals accounted for (bytes are the sum of the sizes,
    -- the count is the length of the table, the next number is above all in use), if they were,
    -- the fields are in range, the record does not collide with a stored one, and neither a total
    -- nor the counter of numbers overflows.
    pub create_inode-IsAccounted :
        s.logical_bytes + meta.size < 2 ^ 64
        → s.inode_count + 1 < 2 ^ 64
        → s.inode_map.next_ino + 1 < 2 ^ 64
        → IsAccounted (create_inode s meta).1
    unfolding create_inode allocate_ino InodeMap.insert
    create_inode-IsAccounted hb hc hn =
        let ino = s.inode_map.next_ino in
        let bytes = serialize_inode (numbered s meta) in
        let here = load_inode-push_self s.io (numbered s meta) hm in
        let kept = keep_total s.io bytes clash s.inode_data h.loads in
        let sum =
          rw absent at
            (total-insert (size_at (push s.io bytes)) s.inode_data ino (digest bytes) h.sorted) in
        let size = size_at_of (push s.io bytes) (digest bytes) (numbered s meta) here in
        record {
          sorted = insert-IsSorted ino (digest bytes) s.inode_data h.sorted;
          loads =
              All-insert (λ (e : ℕ × Digest224). Loads (push s.io bytes) e.1) ino (digest bytes)
                s.inode_data (numbered s meta, here)
                (keep-Loads s.io bytes clash s.inode_data h.loads);
          bytes = ground (arith, hb, kept, sum, size, h.bytes);
          count = omega (
            arith,
            hc,
            h.count,
            length-insert_absent ino (digest bytes) s.inode_data h.sorted absent,
          );
          fresh =
              All-insert (λ (e : ℕ × Digest224). e.0 < (ino + 1) % 2 ^ 64) ino (digest bytes)
                s.inode_data (omega (arith, hn))
                (All-map (λ (e : ℕ × Digest224). e.0 < ino)
                  (λ (e : ℕ × Digest224). e.0 < (ino + 1) % 2 ^ 64) s.inode_data
                  (λ e l. omega (arith, l, hn)) h.fresh);
        }

  module _ (s : Store Io) (meta old : InodeMeta) (h : IsAccounted s) (hm : IsMeta meta)
      (clash : NoClash s.io (serialize_inode meta)) (there : get_inode s meta.ino ≡ ok old) where
    -- The store after the update, the old inode being the one at `d`.
    abbrev updated : Digest224 → Store Io
    updated d = record s {
      io = push s.io (serialize_inode meta);
      inode_data = Map.insert meta.ino (digest (serialize_inode meta)) s.inode_data;
      inode_map = InodeMap.insert s.inode_map meta.ino (digest (serialize_inode meta));
      logical_bytes = adjusted s.logical_bytes (size_at s.io d) meta.size;
    }

    -- Updating an inode that can be read succeeds; it then reads as the new metadata and all
    -- others as before. The store must be accounted for, the fields in range, and the record must
    -- not collide with a stored one.
    pub get_inode-update_inode :
        ((update_inode s meta).0 ≡ ok tt)
        × (get_inode (update_inode s meta).1 meta.ino ≡ ok meta)
        × ((other : ℕ)
            → other ≢ meta.ino
            → get_inode (update_inode s meta).1 other ≡ get_inode s other)
    unfolding update_inode get_inode
    get_inode-update_inode =
        let (d, found, l) = get_of_get_inode s meta.ino old there in
        rw (found, update_inode)
          (
            refl,
            rw
                (
                  get-insert s.inode_data meta.ino meta.ino (digest (serialize_inode meta)),
                  ==_refl meta.ino,
                )
                (load_inode-push_self s.io meta hm),
            λ other ne.
                get_inode_other s (updated d) (serialize_inode meta) meta.ino other
                  (digest (serialize_inode meta)) clash h.loads refl refl ne,
          )

    -- Updating an inode that can be read keeps the running totals accounted for, if they were, the
    -- fields are in range, the record does not collide with a stored one, and the total does not
    -- overflow.
    pub update_inode-IsAccounted :
        s.logical_bytes + meta.size < 2 ^ 64 → IsAccounted (update_inode s meta).1
    unfolding update_inode InodeMap.insert
    update_inode-IsAccounted hb =
        let (d, found, l) = get_of_get_inode s meta.ino old there in
        let bytes = serialize_inode meta in
        let here = load_inode-push_self s.io meta hm in
        let kept = keep_total s.io bytes clash s.inode_data h.loads in
        let sum = rw found at (
          total-insert (size_at (push s.io bytes)) s.inode_data meta.ino (digest bytes) h.sorted) in
        let size = size_at_of (push s.io bytes) (digest bytes) meta here in
        let was = size_at_of s.io d old l in
        let still =
          size_at_of (push s.io bytes) d old (load_inode-push_keep s.io bytes d old clash l) in
        rw (found, update_inode)
          (record {
            sorted = insert-IsSorted meta.ino (digest bytes) s.inode_data h.sorted;
            loads =
                All-insert (λ (e : ℕ × Digest224). Loads (push s.io bytes) e.1) meta.ino
                  (digest bytes) s.inode_data (meta, here)
                  (keep-Loads s.io bytes clash s.inode_data h.loads);
            bytes = ground (arith, hb, kept, sum, size, was, still, h.bytes);
            count =
                h.count
                ∙ sym (length-insert_present meta.ino (digest bytes) d s.inode_data h.sorted found);
            fresh =
                All-insert (λ (e : ℕ × Digest224). e.0 < s.inode_map.next_ino) meta.ino
                  (digest bytes) s.inode_data
                  (All-get (λ (e : ℕ × Digest224). e.0 < s.inode_map.next_ino) s.inode_data meta.ino
                    d h.fresh found)
                  h.fresh;
          })

  module _ (s : Store Io) (old : InodeMeta) (ino : ℕ) (h : IsAccounted s)
      (there : get_inode s ino ≡ ok old) where
    -- Deleting an inode that can be read succeeds; it is then not found and all others read as
    -- before. The store must be accounted for.
    pub get_inode-delete_inode :
        ((delete_inode s ino).0 ≡ ok tt)
        × (get_inode (delete_inode s ino).1 ino ≡ err (not_found ino))
        × ((other : ℕ) → other ≢ ino → get_inode (delete_inode s ino).1 other ≡ get_inode s other)
    unfolding delete_inode get_inode
    get_inode-delete_inode =
        let (d, found, l) = get_of_get_inode s ino old there in
        rw (found, delete_inode)
          (
            refl,
            rw (get-remove s.inode_data ino ino, ==_refl ino) refl,
            λ other ne. rw (get-remove s.inode_data ino other, different other ne) refl,
          )
      where
        different : (other : ℕ) → other ≢ ino → (ino == other) ≡ false
        different other ne = elim (Bool-cases (ino == other)) [
          | inl y ↦ absurd (ne (sym ((==_iff ino other).0 y)))
          | inr n ↦ n
        ]

    -- Deleting an inode that can be read keeps the running totals accounted for, if they were.
    pub delete_inode-IsAccounted : IsAccounted (delete_inode s ino).1
    unfolding delete_inode InodeMap.remove
    delete_inode-IsAccounted =
        let (d, found, l) = get_of_get_inode s ino old there in
        let sum = rw found at (total-remove (size_at s.io) s.inode_data ino h.sorted) in
        let size = size_at_of s.io d old l in
        rw (found, delete_inode)
          (record {
            sorted = remove-IsSorted ino s.inode_data h.sorted;
            loads = All-remove (λ (e : ℕ × Digest224). Loads s.io e.1) ino s.inode_data h.loads;
            bytes = ground (arith, sum, size, h.bytes);
            count = omega (arith, h.count, length-remove_present ino d s.inode_data h.sorted found);
            fresh =
                All-remove (λ (e : ℕ × Digest224). e.0 < s.inode_map.next_ino) ino s.inode_data
                  h.fresh;
          })
