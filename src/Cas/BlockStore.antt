-- ===== src/Cas/BlockStore.antt =====
-- crates/cas-local/src/mem_block_store.rs: blocks in memory under their hashes.
use slicefs.Base.{
  ◌≡◌, ◌≢◌, refl, sym, ap, ◌∙◌, Bool, true, false, none, some, [], All, not, if◌then◌else◌,
  Bool-cases, Option-cases, inl, inr,
}
use slicefs.Base.Words.{Bytes}
use slicefs.Base.Keys.{lex_key, lex_same, lex_same_iff, lex_same→eq, lex_same_refl}
use slicefs.Base.Results.{Result, ok, err, ok_or, ◌>>=◌}
use slicefs.Base.Map
use slicefs.Base.Map.{Map, get-insert, get-remove, All-insert, All-remove, All-get}
use slicefs.Cas.{ChunkHash, CasError, not_found, integrity_failure, hash_collision}

pub record MemBlockStore : Type 0 where
  pub blocks : Map ChunkHash Bytes
  pub verify_on_read : Bool

abbrev pub new : Bool → MemBlockStore
new verify_on_read = record { blocks = []; verify_on_read = verify_on_read }

unfoldable pub exists : MemBlockStore → ChunkHash → Result CasError Bool
exists s h = ok (Map.contains_key s.blocks h)

unfoldable pub delete : MemBlockStore → ChunkHash → Result CasError Unit × MemBlockStore
delete s h = (ok tt, record s { blocks = Map.remove h s.blocks })

pub different : (a b : ChunkHash) → a ≢ b → lex_same a b ≡ false
different a b ne = elim (Bool-cases (lex_same a b)) [
  | inl y ↦ absurd (ne (lex_same→eq a b y))
  | inr n ↦ n
]

chosen : {A : Type 0} (t : Bool) (a b : A) → t ≡ true → (if t then a else b) ≡ a
chosen true a b h = refl
chosen false a b h = cc (h)

otherwise : {A : Type 0} (t : Bool) (a b : A) → t ≡ false → (if t then a else b) ≡ b
otherwise true a b h = cc (h)
otherwise false a b h = refl

-- The hasher is a parameter.
module _ (hash : Bytes → ChunkHash) where
  unfoldable pub put : MemBlockStore → ChunkHash → Bytes → Result CasError Unit × MemBlockStore
  put s h bytes =
      let computed = hash bytes in
      if not (lex_same computed h)
      then (err (integrity_failure h computed), s)
      else elim (Map.get s.blocks h) [
        | some existing ↦
            if not (lex_same existing bytes) then (err (hash_collision h), s) else (ok tt, s)
        | none ↦ (ok tt, record s { blocks = Map.insert h bytes s.blocks })
      ]

  unfoldable pub get : MemBlockStore → ChunkHash → Result CasError Bytes
  get s h = ok_or (Map.get s.blocks h) (not_found h) >>= λ bytes.
      let actual = hash bytes in
      if s.verify_on_read
      then (if not (lex_same actual h) then err (integrity_failure h actual) else ok bytes)
      else ok bytes

  -- Every block stands under its own hash.
  abbrev pub IsHashed : MemBlockStore → Type 0
  IsHashed s = All (λ (e : ChunkHash × Bytes). hash e.1 ≡ e.0) s.blocks

  get_of_hashed :
      (s : MemBlockStore) (h : ChunkHash)
      → IsHashed s
      → get s h ≡ ok_or (Map.get s.blocks h) (not_found h)
  unfolding get
  get_of_hashed s h hs = elim (Option-cases (Map.get s.blocks h)) [
    | inl e ↦ rw (e, get) refl
    | inr (bytes, e) ↦
        let same : lex_same (hash bytes) h ≡ true =
          (lex_same_iff (hash bytes) h).1
            (All-get (λ (e : ChunkHash × Bytes). hash e.1 ≡ e.0) s.blocks h bytes hs e) in
        elim (Bool-cases s.verify_on_read) [
          | inl v ↦ rw (e, v, same, get) refl
          | inr v ↦ rw (e, v, get) refl
        ]
  ]

  module _ (s : MemBlockStore) (bytes : Bytes) (hs : IsHashed s)
      (clash : (old : Bytes) → Map.get s.blocks (hash bytes) ≡ some old → old ≡ bytes) where
    -- What an accepted block makes of a store.
    abbrev Stored : Result CasError Unit × MemBlockStore → Type 0
    Stored r =
        (r.0 ≡ ok tt)
        × ((k : ChunkHash)
            → Map.get r.1.blocks k
              ≡ (if lex_same (hash bytes) k then some bytes else Map.get s.blocks k))
        × IsHashed r.1

    there_already :
        (old : Bytes) (k : ChunkHash)
        → Map.get s.blocks (hash bytes) ≡ some old
        → Map.get s.blocks k ≡ (if lex_same (hash bytes) k then some bytes else Map.get s.blocks k)
    there_already old k e = elim (Bool-cases (lex_same (hash bytes) k)) [
      | inl y ↦
          rw y
            (ap (Map.get s.blocks) (sym (lex_same→eq (hash bytes) k y)) ∙ e ∙ ap some (clash old e))
      | inr n ↦ rw n refl
    ]

    put-Stored : Stored (put s (hash bytes) bytes)
    unfolding put
    put-Stored = elim (Option-cases (Map.get s.blocks (hash bytes))) [
      | inl e ↦
          rw (lex_same_refl (hash bytes), e, put)
            (
              refl,
              λ k. get-insert s.blocks (hash bytes) k bytes,
              All-insert (λ (e : ChunkHash × Bytes). hash e.1 ≡ e.0) (hash bytes) bytes s.blocks
                  refl hs,
            )
      | inr (old, e) ↦
          rw (lex_same_refl (hash bytes), e, (lex_same_iff old bytes).1 (clash old e), put)
            (refl, λ k. there_already old k e, hs)
    ]

  -- In a store whose blocks stand under their own hashes, a block under a wrong hash is refused
  -- and changes nothing. Under its own hash, if no other content is stored there, it is accepted:
  -- it can then be read, every other hash reads as before, and every block still stands under its
  -- own hash.
  pub put_lem :
      (s : MemBlockStore) (bytes : Bytes)
      → IsHashed s
      → ((old : Bytes) → Map.get s.blocks (hash bytes) ≡ some old → old ≡ bytes)
      → ((h : ChunkHash)
          → h ≢ hash bytes
          → put s h bytes ≡ (err (integrity_failure h (hash bytes)), s))
        × ((put s (hash bytes) bytes).0 ≡ ok tt)
        × (get (put s (hash bytes) bytes).1 (hash bytes) ≡ ok bytes)
        × ((other : ChunkHash)
            → other ≢ hash bytes
            → get (put s (hash bytes) bytes).1 other ≡ get s other)
        × IsHashed (put s (hash bytes) bytes).1
  unfolding put
  put_lem s bytes hs clash =
      let (accepted, found, hashed) = put-Stored s bytes hs clash in
      let t : MemBlockStore = (put s (hash bytes) bytes).1 in
      (
        λ h ne. rw (different (hash bytes) h (λ e. ne (sym e)), put) refl,
        accepted,
        get_of_hashed t (hash bytes) hashed
            ∙ ap (λ o. ok_or o (not_found (hash bytes)))
                (found (hash bytes)
                  ∙ chosen (lex_same (hash bytes) (hash bytes)) (some bytes)
                      (Map.get s.blocks (hash bytes)) (lex_same_refl (hash bytes))),
        λ other ne.
            get_of_hashed t other hashed
            ∙ ap (λ o. ok_or o (not_found other))
                (found other
                  ∙ otherwise (lex_same (hash bytes) other) (some bytes) (Map.get s.blocks other)
                      (different (hash bytes) other (λ e. ne (sym e))))
            ∙ sym (get_of_hashed s other hs),
        hashed,
      )

  -- In a store whose blocks stand under their own hashes, deleting removes one block: it is not
  -- found, every other hash reads as before, and every block still stands under its own hash.
  pub delete_lem :
      (s : MemBlockStore) (h : ChunkHash)
      → IsHashed s
      → (get (delete s h).1 h ≡ err (not_found h))
        × ((other : ChunkHash) → other ≢ h → get (delete s h).1 other ≡ get s other)
        × IsHashed (delete s h).1
  unfolding delete
  delete_lem s h hs =
      let hashed = All-remove (λ (e : ChunkHash × Bytes). hash e.1 ≡ e.0) h s.blocks hs in
      let t : MemBlockStore = (delete s h).1 in
      (
        get_of_hashed t h hashed
            ∙ ap (λ o. ok_or o (not_found h))
                (get-remove s.blocks h h
                  ∙ chosen (lex_same h h) none (Map.get s.blocks h) (lex_same_refl h)),
        λ other ne.
            get_of_hashed t other hashed
            ∙ ap (λ o. ok_or o (not_found other))
                (get-remove s.blocks h other
                  ∙ otherwise (lex_same h other) none (Map.get s.blocks other)
                      (different h other (λ e. ne (sym e))))
            ∙ sym (get_of_hashed s other hs),
        hashed,
      )
