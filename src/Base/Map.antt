-- ===== src/Base/Map.antt =====
-- `BTreeMap` as the list of its entries in key order; also `HashMap` and `HashSet`, whose
-- iteration order the program does not rely on.
use Prim.Native.Nat.{ℕ, ◌+◌, ◌≤◌}
use mathlib.Core.Path.{◌≡◌, refl, sym, ap, ap₂, subst, ◌∙◌}
use mathlib.Core.Logic.{inl, inr}
use mathlib.Core.Bool.{Bool, true}
use mathlib.Core.Option.{Option, none, some}
use mathlib.Core.List.{List, [], ◌∷◌, ◌++◌, append_assoc, append-nil}
use native.Mathlib.Nat.{add_comm}
use native.Mathlib.Omega.{arith}
use slicefs.Base.Tests.{if◌then◌else◌, Bool-cases}
use slicefs.Base.Lists.{All, All-append, length}
use slicefs.Base.Keys.{Key}
use slicefs.Base.Results.{is_some}

abbrev pub Map {ℓ} : Type ℓ → Type ℓ → Type ℓ
Map K V = List (K × V)

-- The share of one key in a total.
abbrev pub weigh {ℓ} : {V : Type ℓ} → (V → ℕ) → Option V → ℕ
weigh f none = 0
weigh f (some v) = f v

module _ {ℓ} {K V : Type ℓ} ⦃o : Key K⦄ where
  -- `m.get(&k)`
  unfoldable pub get : Map K V → K → Option V
  get [] k = none
  get ((j, v) ∷ m) k = if o.same j k then some v else get m k

  -- `m.insert(k, v)`, which replaces the value of a key that is there.
  unfoldable pub insert : K → V → Map K V → Map K V
  insert k v [] = (k, v) ∷ []
  insert k v ((j, w) ∷ m) =
      let rest = insert k v m in
      if o.before k j then (k, v) ∷ (j, w) ∷ m else if o.same j k then (k, v) ∷ m else (j, w) ∷ rest

  -- `m.remove(&k)`
  unfoldable pub remove : K → Map K V → Map K V
  remove k [] = []
  remove k ((j, v) ∷ m) = let rest = remove k m in if o.same j k then rest else (j, v) ∷ rest

  -- `m.contains_key(&k)`
  abbrev pub contains_key : Map K V → K → Bool
  contains_key m k = is_some (get m k)

  -- Every key of the map comes after `k`.
  abbrev pub After : K → Map K V → Type 0
  After k m = All (λ (e : K × V). o.before k e.0 ≡ true) m

  -- Entries in strictly ascending key order.
  abbrev pub IsSorted : Map K V → Type 0
  IsSorted [] = Unit
  IsSorted ((k, v) ∷ m) = After k m × IsSorted m

  pub get-insert :
      (m : Map K V) (k i : K) (v : V)
      → get (insert k v m) i ≡ (if o.same k i then some v else get m i)
  unfolding get insert
  get-insert [] k i v = refl
  get-insert ((j, w) ∷ m) k i v =
      ground (arith, get-insert m k i v, o.same_iff j k, o.same_iff k i, o.same_iff j i)

  pub get-remove :
      (m : Map K V) (k i : K) → get (remove k m) i ≡ (if o.same k i then none else get m i)
  unfolding get remove
  get-remove [] k i = ground arith
  get-remove ((j, w) ∷ m) k i =
      ground (arith, get-remove m k i, o.same_iff j k, o.same_iff k i, o.same_iff j i)

  After-insert :
      (j k : K) (v : V) (m : Map K V) → o.before j k ≡ true → After j m → After j (insert k v m)
  unfolding insert
  After-insert j k v [] b h = (b, tt)
  After-insert j k v ((i, w) ∷ m) b h = ground (arith, After-insert j k v m b h.1, h.0, h.1, b)

  After-trans : (j k : K) (m : Map K V) → o.before j k ≡ true → After k m → After j m
  After-trans j k [] b h = tt
  After-trans j k ((i, w) ∷ m) b h = (o.before_trans j k i b h.0, After-trans j k m b h.1)

  pub insert-IsSorted : (k : K) (v : V) (m : Map K V) → IsSorted m → IsSorted (insert k v m)
  unfolding insert
  insert-IsSorted k v [] h = (tt, tt)
  insert-IsSorted k v ((j, w) ∷ m) h = elim (Bool-cases (o.before k j)) [
    | inl b ↦ rw b ((b, After-trans k j m b h.0), h)
    | inr nb ↦ rw nb (elim (Bool-cases (o.same j k)) [
      | inl e ↦ rw e (subst (λ i. After i m) ((o.same_iff j k).0 e) h.0, h.1)
      | inr ne ↦
          rw ne (After-insert j k v m (o.before_connex k j nb ne) h.0, insert-IsSorted k v m h.1)
    ])
  ]

  After-remove : (j k : K) (m : Map K V) → After j m → After j (remove k m)
  unfolding remove
  After-remove j k [] h = tt
  After-remove j k ((i, w) ∷ m) h = ground (arith, After-remove j k m h.1, h.0)

  pub remove-IsSorted : (k : K) (m : Map K V) → IsSorted m → IsSorted (remove k m)
  unfolding remove
  remove-IsSorted k [] h = tt
  remove-IsSorted k ((j, w) ∷ m) h = ground (arith, remove-IsSorted k m h.1, After-remove j k m h.0)

  After-append_head :
      (j k : K) (v : V) (m rest : Map K V) → After j (m ++ (k, v) ∷ rest) → o.before j k ≡ true
  After-append_head j k v [] rest h = h.0
  After-append_head j k v (e ∷ m) rest h = After-append_head j k v m rest h.1

  -- A key behind all keys of the map goes to its end.
  pub insert_last :
      (m : Map K V) (k : K) (v : V) (rest : Map K V)
      → IsSorted (m ++ (k, v) ∷ rest)
      → insert k v m ≡ m ++ (k, v) ∷ []
  unfolding insert
  insert_last [] k v rest h = refl
  insert_last ((j, w) ∷ m) k v rest h =
      let b : o.before j k ≡ true = After-append_head j k v m rest h.0 in
      ground (
        arith,
        b,
        o.before_asymm j k b,
        o.same_iff j k,
        o.before_irrefl k,
        insert_last m k v rest h.1,
      )

  -- Inserting the entries of a sorted map, one after the other, builds that map.
  unfoldable pub insert_all : Map K V → Map K V → Map K V
  insert_all [] m = m
  insert_all ((k, v) ∷ es) m = insert_all es (insert k v m)

  pub insert_all_lem : (es m : Map K V) → IsSorted (m ++ es) → insert_all es m ≡ m ++ es
  unfolding insert_all
  insert_all_lem [] m h = sym (append-nil m)
  insert_all_lem ((k, v) ∷ es) m h =
      rw (insert_last m k v es h)
        (insert_all_lem es (m ++ (k, v) ∷ []) (rw append_assoc h) ∙ append_assoc m ((k, v) ∷ []) es)

  pub get-none_of_After : (k : K) (m : Map K V) → After k m → get m k ≡ none
  unfolding get
  get-none_of_After k [] h = refl
  get-none_of_After k ((j, w) ∷ m) h =
      ground (arith, get-none_of_After k m h.1, h.0, o.same_iff j k, o.before_irrefl k)

  pub remove_absent : (m : Map K V) (k : K) → get m k ≡ none → remove k m ≡ m
  unfolding get remove
  remove_absent [] k h = refl
  remove_absent ((j, w) ∷ m) k h = ground (arith, remove_absent m k)

  -- `values().map(f).sum()`
  abbrev pub total : (V → ℕ) → Map K V → ℕ
  total f [] = 0
  total f ((k, v) ∷ m) = f v + total f m

  pub total-insert :
      (f : V → ℕ) (m : Map K V) (k : K) (v : V)
      → IsSorted m
      → total f (insert k v m) + weigh f (get m k) ≡ f v + total f m
  unfolding insert get
  total-insert f [] k v h = omega arith
  total-insert f ((j, w) ∷ m) k v h = ground (
    arith,
    total-insert f m k v h.1,
    get-none_of_After k m,
    After-trans k j m,
    h.0,
    o.same_iff j k,
    o.before_irrefl k,
  )

  pub total-remove :
      (f : V → ℕ) (m : Map K V) (k : K)
      → IsSorted m
      → total f (remove k m) + weigh f (get m k) ≡ total f m
  unfolding remove get
  total-remove f [] k h = omega arith
  total-remove f ((j, w) ∷ m) k h = elim (Bool-cases (o.same j k)) [
    | inl e ↦ rw e (ap (λ t. total f t + f w) (absent e) ∙ add_comm (total f m) (f w))
    | inr ne ↦ rw ne (omega (arith, total-remove f m k h.1))
  ]
    where
      absent : o.same j k ≡ true → remove k m ≡ m
      absent e =
          remove_absent m k
            (get-none_of_After k m (subst (λ i. After i m) ((o.same_iff j k).0 e) h.0))

  pub All-insert {κ} :
      (P : K × V → Type κ) (k : K) (v : V) (m : Map K V) → P (k, v) → All P m → All P (insert k v m)
  unfolding insert
  All-insert P k v [] p h = (p, tt)
  All-insert P k v ((j, w) ∷ m) p h = elim (Bool-cases (o.before k j)) [
    | inl b ↦ rw b (p, h)
    | inr nb ↦ rw nb (elim (Bool-cases (o.same j k)) [
      | inl e ↦ rw e (p, h.1)
      | inr ne ↦ rw ne (h.0, All-insert P k v m p h.1)
    ])
  ]

  pub All-remove {κ} : (P : K × V → Type κ) (k : K) (m : Map K V) → All P m → All P (remove k m)
  unfolding remove
  All-remove P k [] h = tt
  All-remove P k ((j, w) ∷ m) h = elim (Bool-cases (o.same j k)) [
    | inl e ↦ rw e (All-remove P k m h.1)
    | inr ne ↦ rw ne (h.0, All-remove P k m h.1)
  ]

  pub length-insert : (k : K) (v : V) (m : Map K V) → length (insert k v m) ≤ length m + 1
  unfolding insert
  length-insert k v [] = omega arith
  length-insert k v ((j, w) ∷ m) = ground (arith, length-insert k v m)

  pub length-remove : (k : K) (m : Map K V) → length (remove k m) ≤ length m
  unfolding remove
  length-remove k [] = omega arith
  length-remove k ((j, w) ∷ m) = ground (arith, length-remove k m)

  pub total-ext :
      (f g : V → ℕ) (m : Map K V) → All (λ (e : K × V). f e.1 ≡ g e.1) m → total f m ≡ total g m
  total-ext f g [] h = refl
  total-ext f g ((k, v) ∷ m) h = ap₂ ◌+◌ h.0 (total-ext f g m h.1)

  length-total : (m : Map K V) → length m ≡ total (λ _. 1) m
  length-total [] = refl
  length-total ((k, v) ∷ m) = omega (arith, length-total m)

  pub length-insert_absent :
      (k : K) (v : V) (m : Map K V)
      → IsSorted m
      → get m k ≡ none
      → length (insert k v m) ≡ length m + 1
  length-insert_absent k v m s e =
      omega (
        arith,
        rw e at (total-insert (λ _. 1) m k v s),
        length-total m,
        length-total (insert k v m),
      )

  pub length-insert_present :
      (k : K) (v w : V) (m : Map K V)
      → IsSorted m
      → get m k ≡ some w
      → length (insert k v m) ≡ length m
  length-insert_present k v w m s e =
      omega (
        arith,
        rw e at (total-insert (λ _. 1) m k v s),
        length-total m,
        length-total (insert k v m),
      )

  pub length-remove_present :
      (k : K) (w : V) (m : Map K V)
      → IsSorted m
      → get m k ≡ some w
      → length (remove k m) + 1 ≡ length m
  length-remove_present k w m s e =
      omega
        (arith, rw e at (total-remove (λ _. 1) m k s), length-total m, length-total (remove k m))

  -- What holds of all entries holds of the one that is found.
  pub All-get {κ} :
      (P : K × V → Type κ) (m : Map K V) (k : K) (v : V) → All P m → get m k ≡ some v → P (k, v)
  unfolding get
  All-get P [] k v h e = cc
  All-get P ((j, w) ∷ m) k v h e = elim (Bool-cases (o.same j k)) [
    | inl s ↦
        subst (λ u. P (k, u)) (some_injective (rw s at e))
          (subst (λ i. P (i, w)) ((o.same_iff j k).0 s) h.0)
    | inr n ↦ All-get P m k v h.1 (rw n at e)
  ]
    where
      some_injective : {x y : V} → some x ≡ some y → x ≡ y
      some_injective p = cc

  -- A key behind all others may be appended.
  pub snoc-IsSorted :
      (m : Map K V) (k : K) (v : V)
      → IsSorted m
      → All (λ (e : K × V). o.before e.0 k ≡ true) m
      → IsSorted (m ++ (k, v) ∷ [])
  snoc-IsSorted [] k v s h = (tt, tt)
  snoc-IsSorted ((j, w) ∷ m) k v s h = (
    All-append (λ (e : K × V). o.before j e.0 ≡ true) m ((k, v) ∷ []) s.0 (h.0, tt),
    snoc-IsSorted m k v s.1 h.1,
  )

  pub insert_all-append :
      (xs ys m : Map K V) → insert_all (xs ++ ys) m ≡ insert_all ys (insert_all xs m)
  unfolding insert_all
  insert_all-append [] ys m = refl
  insert_all-append ((k, v) ∷ xs) ys m = insert_all-append xs ys (insert k v m)

-- `values()`
abbrev pub values {ℓ} : {K V : Type ℓ} → Map K V → List V
values [] = []
values ((k, v) ∷ m) = v ∷ values m
