-- ===== src/Base/Keys.antt =====
-- What the ordered maps ask of their keys: a strict order and an equality test.
use Prim.Native.Nat.{ℕ}
use mathlib.Core.Path.{◌≡◌, refl}
use mathlib.Core.Logic.{◌↔◌}
use mathlib.Core.Bool.{Bool, true, false, ◌&&◌, ◌||◌}
use mathlib.Core.List.{List, [], ◌∷◌}
use native.Mathlib.Omega.{arith}
use slicefs.Base.Tests.{ltb as nat_ltb, ◌==◌ as nat_beq, ==_iff}

-- `Ord` of the key types of `BTreeMap`.
pub record Key {ℓ} (K : Type ℓ) : Type ℓ where
  pub before : K → K → Bool
  pub same : K → K → Bool
  pub same_iff : (a b : K) → (same a b ≡ true) ↔ (a ≡ b)
  pub before_asymm : (a b : K) → before a b ≡ true → before b a ≡ false
  pub before_irrefl : (a : K) → before a a ≡ false
  pub before_trans : (a b c : K) → before a b ≡ true → before b c ≡ true → before a c ≡ true
  pub before_connex : (a b : K) → before a b ≡ false → same b a ≡ false → before b a ≡ true

pub ltb_trans : (a b c : ℕ) → nat_ltb a b ≡ true → nat_ltb b c ≡ true → nat_ltb a c ≡ true
ltb_trans a b c p q = ground arith

pub ltb_connex : (a b : ℕ) → nat_ltb a b ≡ false → nat_beq b a ≡ false → nat_ltb b a ≡ true
ltb_connex a b p q = ground arith

pub ltb_asymm : (a b : ℕ) → nat_ltb a b ≡ true → nat_ltb b a ≡ false
ltb_asymm a b p = ground arith

pub ltb_irrefl : (a : ℕ) → nat_ltb a a ≡ false
ltb_irrefl a = ground arith

instance abbrev pub nat_key : Key ℕ
nat_key = record {
  before = nat_ltb;
  same = nat_beq;
  same_iff = ==_iff;
  before_asymm = ltb_asymm;
  before_irrefl = ltb_irrefl;
  before_trans = ltb_trans;
  before_connex = ltb_connex;
}

-- The order of arrays and of byte strings, element by element.
abbrev pub lex_before : List ℕ → List ℕ → Bool
lex_before [] [] = false
lex_before [] (y ∷ ys) = true
lex_before (x ∷ xs) [] = false
lex_before (x ∷ xs) (y ∷ ys) = nat_ltb x y || (nat_beq x y && lex_before xs ys)

abbrev pub lex_same : List ℕ → List ℕ → Bool
lex_same [] [] = true
lex_same [] (y ∷ ys) = false
lex_same (x ∷ xs) [] = false
lex_same (x ∷ xs) (y ∷ ys) = nat_beq x y && lex_same xs ys

pub lex_same_refl : (xs : List ℕ) → lex_same xs xs ≡ true
lex_same_refl [] = refl
lex_same_refl (x ∷ xs) = ground (arith, lex_same_refl xs)

pub lex_same→eq : (xs ys : List ℕ) → lex_same xs ys ≡ true → xs ≡ ys
lex_same→eq [] [] h = refl
lex_same→eq [] (y ∷ ys) h = cc
lex_same→eq (x ∷ xs) [] h = cc
lex_same→eq (x ∷ xs) (y ∷ ys) h = ground (arith, lex_same→eq xs ys)

pub lex_same_iff : (xs ys : List ℕ) → (lex_same xs ys ≡ true) ↔ (xs ≡ ys)
lex_same_iff xs ys = (lex_same→eq xs ys, λ e. rw e (lex_same_refl ys))

pub lex_before_irrefl : (xs : List ℕ) → lex_before xs xs ≡ false
lex_before_irrefl [] = refl
lex_before_irrefl (x ∷ xs) = ground (arith, lex_before_irrefl xs)

pub lex_before_asymm : (xs ys : List ℕ) → lex_before xs ys ≡ true → lex_before ys xs ≡ false
lex_before_asymm [] [] h = cc
lex_before_asymm [] (y ∷ ys) h = refl
lex_before_asymm (x ∷ xs) [] h = cc
lex_before_asymm (x ∷ xs) (y ∷ ys) h = ground (arith, lex_before_asymm xs ys)

pub lex_before_trans :
    (xs ys zs : List ℕ)
    → lex_before xs ys ≡ true
    → lex_before ys zs ≡ true
    → lex_before xs zs ≡ true
lex_before_trans [] [] zs p q = cc
lex_before_trans [] (y ∷ ys) [] p q = cc
lex_before_trans [] (y ∷ ys) (z ∷ zs) p q = refl
lex_before_trans (x ∷ xs) [] zs p q = cc
lex_before_trans (x ∷ xs) (y ∷ ys) [] p q = cc
lex_before_trans (x ∷ xs) (y ∷ ys) (z ∷ zs) p q = ground (arith, lex_before_trans xs ys zs)

pub lex_before_connex :
    (xs ys : List ℕ) → lex_before xs ys ≡ false → lex_same ys xs ≡ false → lex_before ys xs ≡ true
lex_before_connex [] [] p q = cc
lex_before_connex [] (y ∷ ys) p q = cc
lex_before_connex (x ∷ xs) [] p q = refl
lex_before_connex (x ∷ xs) (y ∷ ys) p q = ground (arith, lex_before_connex xs ys)

-- Byte strings as keys.
instance abbrev pub lex_key : Key (List ℕ)
lex_key = record {
  before = lex_before;
  same = lex_same;
  same_iff = lex_same_iff;
  before_asymm = lex_before_asymm;
  before_irrefl = lex_before_irrefl;
  before_trans = lex_before_trans;
  before_connex = lex_before_connex;
}
