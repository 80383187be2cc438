-- ===== src/Counted.antt =====
-- A byte string behind its length, as crates/metadata/src/xattr.rs and
-- crates/metadata/src/directory.rs write and read names and values.
use slicefs.Base.{
  ℕ, ◌+◌, ◌-◌, ◌≤◌, ◌≡◌, refl, sym, ap, ◌∙◌, true, ◌++◌, append_assoc, length, length-append,
  length-take, length-drop, drop, slice, slice_lem, arith, leb, le→leb,
}
use slicefs.Base.Words.{Bytes, IsU32, le_bytes}
use slicefs.Base.Results.{Result, ok, guard, ◌>>◌}
use slicefs.Records.{u32_at, u32_at_lem}
use slicefs.Meta.{MetaError, corrupted}

-- `(xs.len() as u32).to_le_bytes()`, which keeps the low 32 bits of the length, and `xs`.
abbrev pub counted : Bytes → Bytes
counted xs = le_bytes 4 (length xs) ++ xs

-- The string at `i`, and the index behind it.
unfoldable pub read_counted : ℕ → Bytes → Result MetaError (Bytes × ℕ)
read_counted i bytes = do
  guard (leb (i + 4) (length bytes)) corrupted
  let len = u32_at i bytes
  guard (leb (i + 4 + len) (length bytes)) corrupted
  ok (slice (i + 4) (i + 4 + len) bytes, i + 4 + len)

-- A counted string behind a prefix is read back, with the index behind it.
pub read_counted_lem :
    (pre xs rest : Bytes) (i : ℕ)
    → length pre ≡ i
    → IsU32 (length xs)
    → read_counted i (pre ++ (counted xs ++ rest)) ≡ ok (xs, i + 4 + length xs)
unfolding read_counted
read_counted_lem pre xs rest i h hx = rw (room_for_len, len, room, body) refl
  where
    bytes : Bytes
    bytes = pre ++ (counted xs ++ rest)

    size : length (pre ++ (counted xs ++ rest)) ≡ i + (4 + (length xs + length rest))
    size = omega (arith, h, length-append pre (counted xs ++ rest), length-append xs rest)

    room_for_len : leb (i + 4) (length (pre ++ (counted xs ++ rest))) ≡ true
    room_for_len = le→leb _ _ (omega (arith, size))

    len : u32_at i (pre ++ (counted xs ++ rest)) ≡ length xs
    len = u32_at_lem pre (xs ++ rest) i (length xs) h hx

    room : leb (i + 4 + length xs) (length (pre ++ (counted xs ++ rest))) ≡ true
    room = le→leb _ _ (omega (arith, size))

    body : slice (i + 4) (i + 4 + length xs) (pre ++ (counted xs ++ rest)) ≡ xs
    body =
        ap (slice (i + 4) (i + 4 + length xs))
          (sym (append_assoc pre (le_bytes 4 (length xs)) (xs ++ rest)))
        ∙ slice_lem (pre ++ le_bytes 4 (length xs)) xs rest (i + 4) (i + 4 + length xs)
            (length-append pre (le_bytes 4 (length xs)) ∙ ap (λ k. k + 4) h) refl

-- What is read lies within the input, and the index moves past its four length bytes.
pub read_counted_grows :
    (i : ℕ) (bytes xs : Bytes) (j : ℕ)
    → read_counted i bytes ≡ ok (xs, j)
    → (i + 4 ≤ j) × (j ≤ length bytes) × (length xs + i + 4 ≡ j)
unfolding read_counted
read_counted_grows i bytes xs j h =
    let len = u32_at i bytes in
    ground
      (arith, length-take (i + 4 + len - (i + 4)) (drop (i + 4) bytes), length-drop (i + 4) bytes)
