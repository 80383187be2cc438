-- ===== src/Cas/Chunker.antt =====
-- crates/cas-local/src/fixed_chunker.rs: cutting a buffer into blocks of a fixed size.
use slicefs.Base.{
  ℕ, zero, suc, ◌+◌, ◌-◌, ◌≤◌, ◌<◌, min, ◌≡◌, refl, sym, ap, ◌∙◌, false, List, [], ◌∷◌, ◌++◌,
  length, take, drop, slice, length-take, length-drop, drop-drop, take-append-drop, arith, ltb,
  if◌then◌else◌, Bool-cases, inl, inr,
}
use slicefs.Base.{◌⊎◌}
use mathlib.Core.Path.{subst}
use slicefs.Base.Words.{Bytes}
use slicefs.Base.Results.{Result, ok}
use slicefs.Cas.{Chunk, CasError}

-- The loop `while offset < data.len()`, on fuel; a block size below 2^63 does not overflow the sum.
unfoldable pub chunk_from : ℕ → ℕ → ℕ → Bytes → List Chunk
chunk_from zero block_size offset bytes = []
chunk_from (suc fuel) block_size offset bytes =
    let end = min (offset + block_size) (length bytes) in
    let rest = chunk_from fuel block_size end bytes in
    if ltb offset (length bytes)
    then record { offset = offset; data_bytes = slice offset end bytes } ∷ rest
    else []

-- `chunk`: at most one round for each byte.
unfoldable pub chunk : ℕ → Bytes → Result CasError (List Chunk)
chunk block_size [] = ok []
chunk block_size (x ∷ xs) = ok (chunk_from (suc (length xs)) block_size 0 (x ∷ xs))

abbrev pub contents : List Chunk → Bytes
contents [] = []
contents (c ∷ cs) = c.data_bytes ++ contents cs

-- Chunks that follow each other from an offset on: none is empty or larger than a block, and only
-- the last may be smaller.
abbrev pub Follow : ℕ → ℕ → List Chunk → Type 0
Follow block_size offset [] = Unit
Follow block_size offset (c ∷ []) =
    (c.offset ≡ offset) × (0 < length c.data_bytes) × (length c.data_bytes ≤ block_size)
Follow block_size offset (c ∷ d ∷ cs) =
    (c.offset ≡ offset)
    × (length c.data_bytes ≡ block_size)
    × Follow block_size (offset + block_size) (d ∷ cs)

chunk_from_end :
    (fuel bs off : ℕ) (bytes : Bytes)
    → ltb off (length bytes) ≡ false
    → chunk_from fuel bs off bytes ≡ []
unfolding chunk_from
chunk_from_end zero bs off bytes h = refl
chunk_from_end (suc fuel) bs off bytes h = rw (h, chunk_from) refl

drop_all : (n : ℕ) (xs : Bytes) → length xs ≤ n → drop n xs ≡ []
drop_all zero [] h = refl
drop_all zero (x ∷ xs) h = absurd (omega arith)
drop_all (suc n) [] h = refl
drop_all (suc n) (x ∷ xs) h = drop_all n xs (omega arith)

contents-chunk_from :
    (fuel bs off : ℕ) (bytes : Bytes)
    → 0 < bs
    → length bytes ≤ fuel + off
    → contents (chunk_from fuel bs off bytes) ≡ drop off bytes
unfolding chunk_from
contents-chunk_from zero bs off bytes hb h = sym (drop_all off bytes (omega arith))
contents-chunk_from (suc fuel) bs off bytes hb h = elim (Bool-cases (ltb off (length bytes))) [
  | inr n ↦ rw (n, chunk_from) (sym (drop_all off bytes (ground arith)))
  | inl y ↦
      let end : ℕ = min (off + bs) (length bytes) in
      let inside : off < length bytes = ground arith in
      rw (y, chunk_from)
        (ap (λ t. take (end - off) (drop off bytes) ++ t)
            (contents-chunk_from fuel bs end bytes hb (omega (arith, h, inside))
              ∙ ap (λ k. drop k bytes) (omega (arith, inside))
              ∙ sym (drop-drop off (end - off) bytes))
          ∙ take-append-drop (end - off) (drop off bytes))
]

Follow-cons :
    (bs off : ℕ) (c : Chunk) (cs : List Chunk)
    → c.offset ≡ off
    → 0 < length c.data_bytes
    → length c.data_bytes ≤ bs
    → (cs ≡ []) ⊎ ((length c.data_bytes ≡ bs) × Follow bs (off + bs) cs)
    → Follow bs off (c ∷ cs)
Follow-cons bs off c [] o p q r = (o, p, q)
Follow-cons bs off c (d ∷ cs) o p q (inl e) = cc (e)
Follow-cons bs off c (d ∷ cs) o p q (inr (f, g)) = (o, f, g)

Follow-chunk_from :
    (fuel bs off : ℕ) (bytes : Bytes)
    → 0 < bs
    → length bytes ≤ fuel + off
    → Follow bs off (chunk_from fuel bs off bytes)
unfolding chunk_from
Follow-chunk_from zero bs off bytes hb h = tt
Follow-chunk_from (suc fuel) bs off bytes hb h = elim (Bool-cases (ltb off (length bytes))) [
  | inr n ↦ rw (n, chunk_from) tt
  | inl y ↦
      let end : ℕ = min (off + bs) (length bytes) in
      let inside : off < length bytes = ground arith in
      let size : length (slice off end bytes) ≡ end - off =
        omega (arith, length-take (end - off) (drop off bytes), length-drop off bytes, inside) in
      rw (y, chunk_from)
        (Follow-cons bs off (record { offset = off; data_bytes = slice off end bytes })
          (chunk_from fuel bs end bytes) refl (omega (arith, size, inside)) (omega (arith, size))
          (elim (Bool-cases (ltb end (length bytes))) [
            | inr n ↦ inl (chunk_from_end fuel bs end bytes n)
            | inl more ↦
                let full : end ≡ off + bs = ground arith in
                inr (
                  omega (arith, size, full),
                  subst (λ k. Follow bs k (chunk_from fuel bs end bytes)) full
                      (Follow-chunk_from fuel bs end bytes hb (omega (arith, h, inside))),
                )
          ]))
]

-- With a block size above 0, chunking any buffer succeeds: the contents of the chunks, put
-- together, are the buffer; the chunks follow each other from offset 0 on, each but the last of
-- the block size, the last not empty and not larger.
pub chunk_lem :
    (block_size : ℕ) (bytes : Bytes)
    → 0 < block_size
    → (cs : List Chunk) × (chunk block_size bytes ≡ ok cs)
      × (contents cs ≡ bytes)
      × Follow block_size 0 cs
unfolding chunk
chunk_lem bs [] hb = ([], refl, refl, tt)
chunk_lem bs (x ∷ xs) hb = (
  chunk_from (suc (length xs)) bs 0 (x ∷ xs),
  refl,
  contents-chunk_from (suc (length xs)) bs 0 (x ∷ xs) hb (omega arith),
  Follow-chunk_from (suc (length xs)) bs 0 (x ∷ xs) hb (omega arith),
)
