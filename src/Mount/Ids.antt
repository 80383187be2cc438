-- ===== src/Mount/Ids.antt =====
-- crates/slicefs-cli/src/mount.rs: the id of a new segment file.
use slicefs.Base.{
  ℕ, ◌+◌, ◌^◌, ◌%◌, ◌<◌, ◌≡◌, refl, Option, none, some, List, [], ◌∷◌, All, arith, ltb,
  if◌then◌else◌, Option-cases, inl, inr,
}
use slicefs.Base.Words.{Bytes}
use slicefs.Mount.{segment_number, max_segment_id, next_segment_id}

-- A number, where there is one, is below the bound.
abbrev pub Below : ℕ → Option ℕ → Type 0
Below n none = Unit
Below n (some id) = id < n

max_step : ℕ → Option ℕ → ℕ
max_step rest none = rest
max_step rest (some id) = if ltb rest id then id else rest

max_step-Below : (rest n : ℕ) (o : Option ℕ) → max_step rest o < n → Below n o × (rest < n)
unfolding max_step
max_step-Below rest n none h = (tt, h)
max_step-Below rest n (some id) h = (ground arith, ground arith)

max_segment_id-step :
    (name content : Bytes) (listing : List (Bytes × Bytes))
    → max_segment_id ((name, content) ∷ listing)
      ≡ max_step (max_segment_id listing) (segment_number name)
unfolding max_segment_id max_step
max_segment_id-step name content listing = elim (Option-cases (segment_number name)) [
  | inl e ↦ rw (e, max_segment_id) refl
  | inr (id, e) ↦ rw (e, max_segment_id) refl
]

max_segment_id-Below :
    (listing : List (Bytes × Bytes)) (n : ℕ)
    → max_segment_id listing < n
    → All (λ (f : Bytes × Bytes). Below n (segment_number f.0)) listing
max_segment_id-Below [] n h = tt
max_segment_id-Below ((name, content) ∷ listing) n h =
    let (here, more) =
      max_step-Below (max_segment_id listing) n (segment_number name)
        (omega (arith, h, max_segment_id-step name content listing)) in
    (here, max_segment_id-Below listing n more)

-- The id of a new segment is above the number of every segment file that there is, if the greatest
-- of these is below the last number of 64 bits.
pub next_segment_id_lem :
    (listing : List (Bytes × Bytes))
    → max_segment_id listing + 1 < 2 ^ 64
    → All (λ (f : Bytes × Bytes). Below (next_segment_id listing) (segment_number f.0)) listing
unfolding next_segment_id
next_segment_id_lem listing h =
    max_segment_id-Below listing ((max_segment_id listing + 1) % 2 ^ 64) (omega (arith, h))
