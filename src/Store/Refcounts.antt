-- ===== src/Store/Refcounts.antt =====
-- crates/metadata/src/store.rs: the reference counts of the content digests.
use slicefs.Base.{
  ℕ, ◌+◌, ◌-◌, ◌^◌, ◌<◌, ◌≡◌, Option, none, some, [], ◌∷◌, ◌==◌, leb, if◌then◌else◌, arith,
  Option-cases, inl, inr,
}
use slicefs.Base.Keys.{Key}
use slicefs.Base.Map
use slicefs.Base.Map.{Map, get-insert, get-remove}
use slicefs.Digest.{Digest224, digest_key}
use slicefs.Store.{Store}

-- `u64::MAX`
abbrev pub u64_max : ℕ
u64_max = 2 ^ 64 - 1

abbrev pub count_or : ℕ → Option ℕ → ℕ
count_or d none = d
count_or d (some n) = n

-- `values().filter(|v| v == u64::MAX).count()`
unfoldable pub count_saturated : Map Digest224 ℕ → ℕ
count_saturated [] = 0
count_saturated ((d, n) ∷ m) = (if n == u64_max then 1 else 0) + count_saturated m

-- What an increment and a decrement make of one count.
abbrev pub raised : ℕ → ℕ
raised n = if n == u64_max then n else n + 1

abbrev pub lowered : ℕ → ℕ
lowered n = if n == u64_max then n else n - 1

module _ {K : Type 0} ⦃o : Key K⦄ where
  -- `entry(digest).or_insert(0)`, the early return at `u64::MAX`, and the increment.
  unfoldable pub increment_entry : Map K ℕ → K → Map K ℕ
  increment_entry rc digest =
      let val = count_or 0 (Map.get rc digest) in
      if val == u64_max then rc else Map.insert digest (val + 1) rc

  unfoldable pub decrement_entry : Map K ℕ → K → Map K ℕ
  decrement_entry rc digest = elim (Map.get rc digest) [
    | none ↦ rc
    | some count ↦
        if count == u64_max
        then rc
        else if leb count 1
        then Map.remove digest rc
        else Map.insert digest (count - 1) rc
  ]

  count_of : Map K ℕ → K → ℕ
  count_of rc k = count_or 0 (Map.get rc k)

  count-increment_entry :
      (m : Map K ℕ) (k i : K)
      → count_of (increment_entry m k) i
        ≡ (if o.same k i then raised (count_of m k) else count_of m i)
  unfolding increment_entry count_of
  count-increment_entry m k i =
      ground (arith, get-insert m k i (count_or 0 (Map.get m k) + 1), o.same_iff k i)

  count-decrement_entry :
      (m : Map K ℕ) (k i : K)
      → count_of (decrement_entry m k) i
        ≡ (if o.same k i then lowered (count_of m k) else count_of m i)
  unfolding decrement_entry count_of
  count-decrement_entry m k i = elim (Option-cases (Map.get m k)) [
    | inl e ↦ rw (e, decrement_entry) (ground (arith, e, o.same_iff k i))
    | inr (n, e) ↦
        rw (e, decrement_entry)
          (ground (arith, e, get-insert m k i (n - 1), get-remove m k i, o.same_iff k i))
  ]

  count-decrement-increment :
      (m : Map K ℕ) (k i : K)
      → count_of m k + 1 < u64_max
      → count_of (decrement_entry (increment_entry m k) k) i ≡ count_of m i
  count-decrement-increment m k i h = ground (
    arith,
    count-decrement_entry (increment_entry m k) k i,
    count-increment_entry m k k,
    count-increment_entry m k i,
    o.same_iff k i,
    o.same_iff k k,
  )

module _ {Io : Type 0} where
  unfoldable pub get_refcount : Store Io → Digest224 → ℕ
  get_refcount s digest = count_or 0 (Map.get s.refcounts digest)

  unfoldable pub increment_refcount : Store Io → Digest224 → Store Io
  increment_refcount s digest = record s { refcounts = increment_entry s.refcounts digest }

  unfoldable pub decrement_refcount : Store Io → Digest224 → Store Io
  decrement_refcount s digest = record s { refcounts = decrement_entry s.refcounts digest }

  unfoldable pub saturated_refcount_count : Store Io → ℕ
  saturated_refcount_count s = count_saturated s.refcounts

  -- An increment raises the count of its digest by one, unless that count is saturated, and
  -- changes no other count.
  pub get_refcount-increment_refcount :
      (s : Store Io) (d other : Digest224)
      → get_refcount (increment_refcount s d) other
        ≡ (if digest_key.same d other then raised (get_refcount s d) else get_refcount s other)
  unfolding get_refcount increment_refcount
  get_refcount-increment_refcount s d other =
      unfold count_of in count-increment_entry s.refcounts d other

  -- A decrement lowers the count of its digest by one, not below 0, unless that count is
  -- saturated, and changes no other count.
  pub get_refcount-decrement_refcount :
      (s : Store Io) (d other : Digest224)
      → get_refcount (decrement_refcount s d) other
        ≡ (if digest_key.same d other then lowered (get_refcount s d) else get_refcount s other)
  unfolding get_refcount decrement_refcount
  get_refcount-decrement_refcount s d other =
      unfold count_of in count-decrement_entry s.refcounts d other

  -- An increment and then a decrement of a digest whose count is below the maximum by more than
  -- one restores the count of every digest.
  pub decrement_refcount-increment_refcount :
      (s : Store Io) (d other : Digest224)
      → get_refcount s d + 1 < u64_max
      → get_refcount (decrement_refcount (increment_refcount s d) d) other ≡ get_refcount s other
  unfolding get_refcount increment_refcount decrement_refcount
  decrement_refcount-increment_refcount s d other h =
      unfold count_of in count-decrement-increment s.refcounts d other h
