-- ===== src/Filesystem/Ranges.antt =====
-- What writing into a buffer, resizing it and reading a range of it do, by positions.
use slicefs.Base.{
  ℕ, zero, suc, ◌+◌, ◌-◌, ◌≤◌, ◌<◌, ◌≡◌, refl, sym, ap, ◌∙◌, min, ltb, List, [], ◌∷◌, ◌++◌,
  append-nil, length, length-append, length-take, length-drop, take, drop, take_all, take-append_eq,
  drop-append_eq, arith, Bool-cases, inl, inr, ltb→lt,
}
use slicefs.Base.Words.{Bytes}
use slicefs.Filesystem.Content.{zeros, resize, sized, pwrite, window}

pub length-zeros : (n : ℕ) → length (zeros n) ≡ n
length-zeros zero = refl
length-zeros (suc n) = ap suc (length-zeros n)

pub length-resize : (buf : Bytes) (n : ℕ) → length (resize buf n) ≡ n
unfolding resize
length-resize buf n = omega (
  arith,
  length-append (take n buf) (zeros (n - length buf)),
  length-take n buf,
  length-zeros (n - length buf),
)

take_over : {A : Type 0} → (n : ℕ) (xs : List A) → length xs ≤ n → take n xs ≡ xs
take_over zero [] h = refl
take_over zero (x ∷ xs) h = absurd (omega arith)
take_over (suc n) [] h = refl
take_over (suc n) (x ∷ xs) h = ap (λ t. x ∷ t) (take_over n xs (omega arith))

drop_over : {A : Type 0} → (n : ℕ) (xs : List A) → length xs ≤ n → drop n xs ≡ []
drop_over zero [] h = refl
drop_over zero (x ∷ xs) h = absurd (omega arith)
drop_over (suc n) [] h = refl
drop_over (suc n) (x ∷ xs) h = drop_over n xs (omega arith)

take-min : {A : Type 0} → (n : ℕ) (xs : List A) → take (min n (length xs)) xs ≡ take n xs
take-min n xs = elim (Bool-cases (ltb n (length xs))) [
  | inl y ↦ ap (λ k. take k xs) (omega (arith, ltb→lt n (length xs) y))
  | inr past ↦
      let over : length xs ≤ n = ground arith in
      ap (λ k. take k xs) (omega arith) ∙ take_all (length xs) xs refl ∙ sym (take_over n xs over)
]

-- A window is what is behind its offset, at most `size` bytes of it.
pub window_lem :
    (offset size : ℕ) (raw : Bytes) → window offset size raw ≡ take size (drop offset raw)
unfolding window
window_lem offset size raw = elim (Bool-cases (ltb offset (length raw))) [
  | inl y ↦
      let within : offset < length raw = ltb→lt offset (length raw) y in
      let start : min offset (length raw) ≡ offset = omega arith in
      let n : min (offset + size) (length raw) - offset ≡ min size (length (drop offset raw)) =
        omega (arith, length-drop offset raw) in
      rw (start, n) (take-min size (drop offset raw))
  | inr past ↦
      let over : length raw ≤ offset = ground arith in
      let start : min offset (length raw) ≡ length raw = omega arith in
      let n : min (length raw + size) (length raw) - length raw ≡ 0 = omega arith in
      rw (start, n, drop_over offset raw over) (sym (take_nil size))
]
  where
    take_nil : (n : ℕ) → take {A = ℕ} n [] ≡ []
    take_nil zero = refl
    take_nil (suc n) = refl

sized_short : (buf : Bytes) (end : ℕ) → length buf < end → sized buf end ≡ resize buf end
unfolding sized
sized_short buf end h = ground arith

sized_long : (buf : Bytes) (end : ℕ) → end ≤ length buf → sized buf end ≡ buf
unfolding sized
sized_long buf end h = ground arith

-- The buffer is kept in front of a write at its end, and nothing is behind the write.
sized_end :
    (buf : Bytes) (n : ℕ)
    → (take (length buf) (sized buf (length buf + n)) ≡ buf)
      × (drop (length buf + n) (sized buf (length buf + n)) ≡ [])
unfolding resize
sized_end buf zero =
    let e : length buf + 0 ≡ length buf = omega arith in
    rw (e, sized_long buf (length buf) (omega arith))
      (take_all (length buf) buf refl, drop_over (length buf) buf (omega arith))
sized_end buf (suc n) =
    let whole = take_over (length buf + suc n) buf (omega arith) in
    rw (sized_short buf (length buf + suc n) (omega arith)) (
      rw whole (take-append_eq (length buf) buf (zeros (length buf + suc n - length buf)) refl),
      drop_over (length buf + suc n) (resize buf (length buf + suc n))
          (omega (arith, length-resize buf (length buf + suc n))),
    )

-- A write at the end of the buffer appends.
pub pwrite_end : (buf bytes : Bytes) → pwrite buf (length buf) bytes ≡ buf ++ bytes
unfolding pwrite
pwrite_end buf bytes =
    let (front, back) = sized_end buf (length bytes) in
    rw (front, back) (ap (λ t. buf ++ t) (append-nil bytes))

length-sized : (buf : Bytes) (end : ℕ) → end ≤ length (sized buf end)
unfolding sized
length-sized buf end = elim (Bool-cases (ltb (length buf) end)) [
  | inl y ↦ rw y (omega (arith, length-resize buf end))
  | inr past ↦ rw past (ground arith)
]

-- What was written is read back.
pub window-pwrite :
    (buf bytes : Bytes) (offset : ℕ)
    → window offset (length bytes) (pwrite buf offset bytes) ≡ bytes
unfolding pwrite
window-pwrite buf bytes offset =
    let end = offset + length bytes in
    let front : length (take offset (sized buf end)) ≡ offset =
      omega (arith, length-take offset (sized buf end), length-sized buf end) in
    window_lem offset (length bytes) _
    ∙ ap (take (length bytes)) (
        drop-append_eq offset (take offset (sized buf end)) (bytes ++ drop end (sized buf end))
          front)
    ∙ take-append_eq (length bytes) bytes (drop end (sized buf end)) refl
