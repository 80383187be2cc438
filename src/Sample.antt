-- ===== src/Sample.antt =====
-- A concrete storage for the examples: it stands for the crate `blockset`, whose hash is another.
use slicefs.Base.{
  ℕ, ◌+◌, ◌*◌, ◌%◌, ◌^◌, ◌<◌, ◌≡◌, ◌≢◌, refl, sym, ◌∙◌, some, List, [], ◌∷◌, length, arith, true,
  false, Bool, Bool-cases, inl, inr, if◌then◌else◌, ◌&&◌, ◌++◌,
}
use slicefs.Base.Words.{Bytes}
use slicefs.Base.Map
use slicefs.Base.Map.{Map, get-insert}
use slicefs.Digest.{Digest224, IsDigest, digest_key, digest_same_iff}
use slicefs.Base.Keys.{lex_same, lex_same→eq}
use slicefs.Blockset.{Blockset, Apart, AllApart}
use slicefs.Blockset.Accumulator.{Accumulator}

-- A polynomial in the bytes, modulo 2^32.
abbrev pub checksum : ℕ → Bytes → ℕ
checksum k [] = 7
checksum k (x ∷ xs) = (x + k * checksum k xs) % 2 ^ 32

abbrev pub sample_digest : Bytes → Digest224
sample_digest bytes = record {
  w0 = checksum 31 bytes;
  w1 = checksum 65599 bytes;
  w2 = length bytes % 2 ^ 32;
  w3 = 0;
  w4 = 0;
  w5 = 0;
  w6 = 0;
}

checksum-lt : (k : ℕ) (bytes : Bytes) → checksum k bytes < 2 ^ 32
checksum-lt k [] = omega arith
checksum-lt k (x ∷ xs) = omega arith

pub sample_digest-IsDigest : (bytes : Bytes) → IsDigest (sample_digest bytes)
sample_digest-IsDigest bytes = (
  checksum-lt 31 bytes,
  checksum-lt 65599 bytes,
  omega arith,
  omega arith,
  omega arith,
  omega arith,
  omega arith,
)

pub get_self :
    (io : Map Digest224 Bytes) (bytes : Bytes)
    → Map.get (Map.insert (sample_digest bytes) bytes io) (sample_digest bytes) ≡ some bytes
get_self io bytes =
    get-insert io (sample_digest bytes) (sample_digest bytes) bytes
    ∙ rw ((digest_same_iff (sample_digest bytes) (sample_digest bytes)).1 refl) refl

pub get_ne :
    (io : Map Digest224 Bytes) (bytes : Bytes) (d : Digest224)
    → d ≢ sample_digest bytes
    → Map.get (Map.insert (sample_digest bytes) bytes io) d ≡ Map.get io d
get_ne io bytes d ne = elim (Bool-cases (digest_key.same (sample_digest bytes) d)) [
  | inl s ↦ absurd (ne (sym ((digest_same_iff (sample_digest bytes) d).0 s)))
  | inr n ↦ get-insert io (sample_digest bytes) d bytes ∙ rw n refl
]

instance abbrev pub sample : Blockset
sample = record {
  Io = Map Digest224 Bytes;
  digest = sample_digest;
  push = λ io bytes. Map.insert (sample_digest bytes) bytes io;
  file_storage_get = Map.get;
  digest-IsDigest = sample_digest-IsDigest;
  get-push_self = get_self;
  get-push_ne = get_ne;
}

-- Whether byte strings do not collide, as a test.
abbrev pub apart : Bytes → List Bytes → Bool
apart x [] = true
apart x (y ∷ ys) =
    (if digest_key.same (sample_digest x) (sample_digest y) then lex_same x y else true)
    && apart x ys

abbrev pub all_apart : List Bytes → Bool
all_apart [] = true
all_apart (x ∷ xs) = apart x xs && all_apart xs

and_left : (p q : Bool) → (p && q) ≡ true → p ≡ true
and_left true q h = refl
and_left false q h = cc (h)

and_right : (p q : Bool) → (p && q) ≡ true → q ≡ true
and_right true q h = h
and_right false q h = cc (h)

picked : (p q : Bool) → p ≡ true → (if p then q else true) ≡ true → q ≡ true
picked true q e h = h
picked false q e h = cc (e)

apart-Apart : (x : Bytes) (ys : List Bytes) → apart x ys ≡ true → Apart ⦃b = sample⦄ x ys
apart-Apart x [] h = tt
apart-Apart x (y ∷ ys) h = (
  λ e. lex_same→eq x y (
      picked (digest_key.same (sample_digest x) (sample_digest y)) (lex_same x y)
        ((digest_same_iff (sample_digest x) (sample_digest y)).1 e) (and_left _ _ h)),
  apart-Apart x ys (and_right _ _ h),
)

-- Byte strings that pass the test do not collide.
pub all_apart-AllApart : (xs : List Bytes) → all_apart xs ≡ true → AllApart ⦃b = sample⦄ xs
all_apart-AllApart [] h = tt
all_apart-AllApart (x ∷ xs) h =
    (apart-Apart x xs (and_left _ _ h), all_apart-AllApart xs (and_right _ _ h))

-- A state that collects its bytes, and writes nothing before it is finished.
instance abbrev pub sample_accumulator : Accumulator sample
sample_accumulator = record {
  State = Bytes;
  start = [];
  push_bytes = λ io state bytes. (state ++ bytes, io);
  finish = λ io state. (sample_digest state, Map.insert (sample_digest state) state io);
  pushed = λ state. state;
  Holds = λ io state. Unit;
  pushed-start = refl;
  pushed-push_bytes = λ io state bytes. refl;
  finish-digest = λ io state. refl;
  Holds-start = λ io. tt;
  Holds-push_bytes = λ io state bytes h. tt;
  get-push_bytes = λ io state bytes d. refl;
  get-finish = λ io state d h. refl;
  Holds-push = λ io state bytes h. tt;
  Holds-finish = λ io state h. tt;
}
