-- ===== src/Base/Results.antt =====
-- Rust's `Result<A, E>` with the `?` operator, and `Option` with `?`.
use mathlib.Core.Path.{◌≡◌, refl}
use mathlib.Core.Logic.{◌⊎◌, inl, inr}
use mathlib.Core.Option.{Option, none, some}
use mathlib.Core.Bool.{Bool, true, false}

pub data Result {ℓ} (E A : Type ℓ) : Type ℓ where
  ok : A → Result E A
  err : E → Result E A

module _ {ℓ} {E A B : Type ℓ} where
  infixl 5 ◌>>=◌ ◌>>◌
  abbrev pub ◌>>=◌ : Result E A → (A → Result E B) → Result E B
  ok a >>= f = f a
  err e >>= f = err e

  abbrev pub ◌>>◌ : Result E A → Result E B → Result E B
  m >> k = m >>= λ _. k

-- `if !test { return Err(e) }`
abbrev pub guard {ℓ} : {E : Type ℓ} → Bool → E → Result E (Unit {ℓ})
guard true e = ok tt
guard false e = err e

module _ {ℓ} {E A : Type ℓ} where
  -- `o.ok_or(e)`
  abbrev pub ok_or : Option A → E → Result E A
  ok_or none e = err e
  ok_or (some a) e = ok a

  -- `r.unwrap_or(d)` after a `map`.
  abbrev pub unwrap_or : Result E A → A → A
  unwrap_or (ok a) d = a
  unwrap_or (err e) d = d

  abbrev pub IsOk : Result E A → Type 0
  IsOk (ok a) = Unit
  IsOk (err e) = ⊥

module _ {ℓ} {E A B : Type ℓ} where
  abbrev pub map_ok : (A → B) → Result E A → Result E B
  map_ok f (ok a) = ok (f a)
  map_ok f (err e) = err e

abbrev pub is_some {ℓ} : {A : Type ℓ} → Option A → Bool
is_some none = false
is_some (some a) = true

pub Result-cases {ℓ} :
    {E A : Type ℓ} (r : Result E A) → ((a : A) × (r ≡ ok a)) ⊎ ((e : E) × (r ≡ err e))
Result-cases (ok a) = inl (a, refl)
Result-cases (err e) = inr (e, refl)

-- A chain that succeeds has a first result, and the rest succeeds on it.
module _ {ℓ} {E A B : Type ℓ} where
  pub >>=-eq-ok :
      (first : Result E A) (rest : A → Result E B) {last : B}
      → (first >>= rest) ≡ ok last
      → (mid : A) × (first ≡ ok mid) × (rest mid ≡ ok last)
  >>=-eq-ok (ok mid) rest whole = (mid, refl, whole)
  >>=-eq-ok (err failure) rest whole = cc

-- Running on after a call that returns a result beside a state: `?` leaves with the state there is.
abbrev pub and_then {ℓ} :
    {S E A B : Type ℓ} → Result E A × S → (A → S → Result E B × S) → Result E B × S
and_then (ok a, s) k = k a s
and_then (err e, s) k = (err e, s)

pub and_then-ok {ℓ} :
    {S E A B : Type ℓ} (first : Result E A × S) (rest : A → S → Result E B × S) (a : A)
    → first.0 ≡ ok a
    → and_then first rest ≡ rest a first.1
and_then-ok (ok x, s) rest a e = let same : x ≡ a = cc (e) in rw same refl
and_then-ok (err x, s) rest a e = cc (e)
