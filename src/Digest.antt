-- ===== src/Digest.antt =====
-- crates/slicefs-traits/src/digest.rs: `Digest224` is `[u32; 7]`. Its bytes are written and read in
-- the same way all over crates/metadata/src.
use slicefs.Base.{ℕ, ◌≡◌, ap, ◌↔◌, true, List, [], ◌∷◌, ◌++◌, slice}
use slicefs.Base.Words.{Bytes, IsU32, le_bytes, from_le, from_le-le_bytes}
use slicefs.Base.Keys.{
  Key, lex_before, lex_same, lex_same→eq, lex_same_refl, lex_before_asymm, lex_before_irrefl,
  lex_before_trans, lex_before_connex,
}

pub record Digest224 : Type 0 where
  pub w0 : ℕ
  pub w1 : ℕ
  pub w2 : ℕ
  pub w3 : ℕ
  pub w4 : ℕ
  pub w5 : ℕ
  pub w6 : ℕ

-- Each word is a `u32`.
abbrev pub IsDigest : Digest224 → Type 0
IsDigest d =
    IsU32 d.w0 × IsU32 d.w1 × IsU32 d.w2 × IsU32 d.w3 × IsU32 d.w4 × IsU32 d.w5 × IsU32 d.w6

-- `for word in &digest { buf.extend_from_slice(&word.to_le_bytes()) }`
abbrev pub digest_bytes : Digest224 → Bytes
digest_bytes d =
    le_bytes 4 d.w0
    ++ (le_bytes 4 d.w1
        ++ (le_bytes 4 d.w2
            ++ (le_bytes 4 d.w3 ++ (le_bytes 4 d.w4 ++ (le_bytes 4 d.w5 ++ le_bytes 4 d.w6)))))

-- `parse_digest224` of store.rs
abbrev pub parse_digest224 : Bytes → Digest224
parse_digest224 bytes = record {
  w0 = from_le (slice 0 4 bytes);
  w1 = from_le (slice 4 8 bytes);
  w2 = from_le (slice 8 12 bytes);
  w3 = from_le (slice 12 16 bytes);
  w4 = from_le (slice 16 20 bytes);
  w5 = from_le (slice 20 24 bytes);
  w6 = from_le (slice 24 28 bytes);
}

pub parse_digest224-digest_bytes :
    (d : Digest224) (rest : Bytes) → IsDigest d → parse_digest224 (digest_bytes d ++ rest) ≡ d
parse_digest224-digest_bytes d rest h = λ i. record {
  w0 = from_le-le_bytes 4 d.w0 h.0 i;
  w1 = from_le-le_bytes 4 d.w1 h.1 i;
  w2 = from_le-le_bytes 4 d.w2 h.2 i;
  w3 = from_le-le_bytes 4 d.w3 h.3 i;
  w4 = from_le-le_bytes 4 d.w4 h.4 i;
  w5 = from_le-le_bytes 4 d.w5 h.5 i;
  w6 = from_le-le_bytes 4 d.w6 h.6 i;
}

-- Arrays are ordered word by word.
abbrev pub words : Digest224 → List ℕ
words d = d.w0 ∷ d.w1 ∷ d.w2 ∷ d.w3 ∷ d.w4 ∷ d.w5 ∷ d.w6 ∷ []

of_words : List ℕ → Digest224
of_words (a ∷ b ∷ c ∷ d ∷ e ∷ f ∷ g ∷ []) = record {
  w0 = a;
  w1 = b;
  w2 = c;
  w3 = d;
  w4 = e;
  w5 = f;
  w6 = g;
}
of_words _ = record { w0 = 0; w1 = 0; w2 = 0; w3 = 0; w4 = 0; w5 = 0; w6 = 0 }

pub digest_same_iff : (a b : Digest224) → (lex_same (words a) (words b) ≡ true) ↔ (a ≡ b)
unfolding of_words
digest_same_iff a b =
    (λ h. ap of_words (lex_same→eq (words a) (words b) h), λ e. rw e (lex_same_refl (words b)))

instance abbrev pub digest_key : Key Digest224
digest_key = record {
  before = λ a b. lex_before (words a) (words b);
  same = λ a b. lex_same (words a) (words b);
  same_iff = digest_same_iff;
  before_asymm = λ a b. lex_before_asymm (words a) (words b);
  before_irrefl = λ a. lex_before_irrefl (words a);
  before_trans = λ a b c. lex_before_trans (words a) (words b) (words c);
  before_connex = λ a b. lex_before_connex (words a) (words b);
}
