-- ===== src/Cas/DedupIndex.antt =====
-- crates/cas-local/src/mem_dedup_index.rs: the set of known hashes behind a Bloom filter.
pub mod Saved
use slicefs.Base.{
  ℕ, ◌≡◌, refl, ap, ◌∙◌, Bool, true, false, Option, none, some, [], All, All-map, not,
  if◌then◌else◌, Bool-cases, Option-cases, inl, inr,
}
use slicefs.Base.Words.{Bytes}
use slicefs.Base.Keys.{lex_key, lex_same}
use slicefs.Base.Results.{Result, ok, is_some}
use slicefs.Base.Map
use slicefs.Base.Map.{Map, get-insert, get-remove, All-insert, All-remove, All-get}
use slicefs.Cas.{ChunkHash, CasError, DedupResult, definitely_absent, present, absent}

-- The crate `fastbloom`: a filter never denies what was inserted.
pub record Bloom : Type 1 where
  pub Filter : Type 0
  pub with_capacity : ℕ → ℕ → Filter
  pub insert_bits : Filter → Bytes → Filter
  pub contains : Filter → Bytes → Bool
  pub contains-insert_self : (f : Filter) (x : Bytes) → contains (insert_bits f x) x ≡ true
  pub contains-insert_keep :
      (f : Filter) (x y : Bytes) → contains f y ≡ true → contains (insert_bits f x) y ≡ true

module _ ⦃b : Bloom⦄ where
  open b use {
    Filter, with_capacity, insert_bits, contains, contains-insert_self, contains-insert_keep,
  }

  -- `HashSet<ChunkHash>` is a map to the unit type. The rate is the 64-bit pattern of an `f64`.
  pub record MemDedupIndex : Type 0 where
    pub bloom : Filter
    pub known : Map ChunkHash (Unit {0})
    pub expected_items : ℕ
    pub false_positive_rate : ℕ

  abbrev pub new : ℕ → ℕ → MemDedupIndex
  new expected_items false_positive_rate = record {
    bloom = with_capacity false_positive_rate expected_items;
    known = [];
    expected_items = expected_items;
    false_positive_rate = false_positive_rate;
  }

  abbrev pub bloom_check : MemDedupIndex → ChunkHash → Bool
  bloom_check i h = contains i.bloom h

  unfoldable pub lookup : MemDedupIndex → ChunkHash → Result CasError DedupResult
  lookup i h =
      if not (bloom_check i h)
      then ok definitely_absent
      else if Map.contains_key i.known h
      then ok present
      else ok absent

  unfoldable pub insert : MemDedupIndex → ChunkHash → MemDedupIndex
  insert i h = record i { bloom = insert_bits i.bloom h; known = Map.insert h tt i.known }

  unfoldable pub remove : MemDedupIndex → ChunkHash → MemDedupIndex
  remove i h = record i { known = Map.remove h i.known }

  -- The filter admits every known hash.
  abbrev pub Admits : MemDedupIndex → Type 0
  Admits i = All (λ (e : ChunkHash × Unit {0}). contains i.bloom e.0 ≡ true) i.known

  -- In an index whose filter admits every known hash, a lookup says that a hash is present exactly
  -- if it is known: the fast path denies none.
  pub lookup_lem :
      (i : MemDedupIndex) (h : ChunkHash)
      → Admits i
      → lookup i h ≡ (
          if Map.contains_key i.known h
          then ok present
          else if bloom_check i h
          then ok absent
          else ok definitely_absent)
  unfolding lookup
  lookup_lem i h a = elim (Option-cases (Map.get i.known h)) [
    | inl e ↦ elim (Bool-cases (contains i.bloom h)) [
      | inl y ↦ rw (e, y) refl
      | inr n ↦ rw (e, n) refl
    ]
    | inr (u, e) ↦
        rw (e, All-get (λ (e : ChunkHash × Unit {0}). contains i.bloom e.0 ≡ true) i.known h u a e)
          refl
  ]

  -- If the filter of an index admits every known hash, it still does after an insertion and after
  -- a removal; after an insertion the hash is known, after a removal it is not, and no other hash
  -- changes.
  pub insert-remove_lem :
      (i : MemDedupIndex) (h : ChunkHash)
      → Admits i
      → Admits (insert i h)
        × Admits (remove i h)
        × ((k : ChunkHash)
            → Map.contains_key (insert i h).known k
              ≡ (if lex_same h k then true else Map.contains_key i.known k))
        × ((k : ChunkHash)
            → Map.contains_key (remove i h).known k
              ≡ (if lex_same h k then false else Map.contains_key i.known k))
  unfolding insert remove
  insert-remove_lem i h a = (
    All-insert (λ (e : ChunkHash × Unit {0}). contains (insert_bits i.bloom h) e.0 ≡ true) h tt
        i.known (contains-insert_self i.bloom h)
        (All-map (λ (e : ChunkHash × Unit {0}). contains i.bloom e.0 ≡ true)
          (λ (e : ChunkHash × Unit {0}). contains (insert_bits i.bloom h) e.0 ≡ true) i.known
          (λ e c. contains-insert_keep i.bloom h e.0 c) a),
    All-remove (λ (e : ChunkHash × Unit {0}). contains i.bloom e.0 ≡ true) h i.known a,
    λ k. ap is_some (get-insert i.known h k tt) ∙ pushed (lex_same h k) (Map.get i.known k),
    λ k. ap is_some (get-remove i.known h k) ∙ dropped (lex_same h k) (Map.get i.known k),
  )
    where
      pushed :
          (t : Bool) (o : Option (Unit {0}))
          → is_some (if t then some tt else o) ≡ (if t then true else is_some o)
      pushed true o = refl
      pushed false o = refl

      dropped :
          (t : Bool) (o : Option (Unit {0}))
          → is_some (if t then none else o) ≡ (if t then false else is_some o)
      dropped true o = refl
      dropped false o = refl
