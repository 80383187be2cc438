-- ===== src/Xattr/RoundTrip.antt =====
-- Reading serialized attributes back; the fuel of the loop.
use slicefs.Base.{
  ℕ, zero, suc, ◌+◌, ◌≤◌, ◌≡◌, refl, sym, ap, ◌∙◌, true, false, [], ◌∷◌, ◌++◌, append_assoc,
  append-nil, length, length-append, All, arith, ltb, lt→ltb, inl, inr, Bool-cases,
}
use slicefs.Base.Words.{Bytes, IsU32}
use slicefs.Base.Utf8.{is_utf8}
use slicefs.Base.Results.{ok, err, guard, >>=-eq-ok, Result-cases}
use slicefs.Counted.{counted, read_counted, read_counted_lem, read_counted_grows}
use slicefs.Meta.{MetaError, corrupted}
use slicefs.Xattr.{Xattrs, serialize_xattrs, read_xattr, read_xattrs, deserialize_xattrs}

-- A name is UTF-8, and both lengths fit 32 bits.
abbrev pub IsXattr : Bytes × Bytes → Type 0
IsXattr e = (is_utf8 e.0 ≡ true) × IsU32 (length e.0) × IsU32 (length e.1)

read_xattr_lem :
    (pre name value rest : Bytes) (i : ℕ)
    → length pre ≡ i
    → IsXattr (name, value)
    → read_xattr i (pre ++ (counted name ++ (counted value ++ rest)))
      ≡ ok ((name, value), i + 4 + length name + 4 + length value)
unfolding read_xattr
read_xattr_lem pre name value rest i h hx =
    rw (read_counted_lem pre name (counted value ++ rest) i h hx.1, hx.0, second) refl
  where
    second :
        read_counted (i + 4 + length name) (pre ++ (counted name ++ (counted value ++ rest)))
        ≡ ok (value, i + 4 + length name + 4 + length value)
    second =
        ap (read_counted (i + 4 + length name))
          (sym (append_assoc pre (counted name) (counted value ++ rest)))
        ∙ read_counted_lem (pre ++ counted name) value rest (i + 4 + length name)
            (length-append pre (counted name) ∙ omega (arith, h)) hx.2

read_xattrs_step :
    (fuel i j : ℕ) (bytes : Bytes) (result : Xattrs) (entry : Bytes × Bytes)
    → ltb i (length bytes) ≡ true
    → read_xattr i bytes ≡ ok (entry, j)
    → read_xattrs (suc fuel) i bytes result ≡ read_xattrs fuel j bytes (result ++ entry ∷ [])
unfolding read_xattrs
read_xattrs_step fuel i j bytes result entry p q = rw (p, q, read_xattrs)

read_xattrs_error :
    (fuel i : ℕ) (bytes : Bytes) (result : Xattrs) (e : MetaError)
    → ltb i (length bytes) ≡ true
    → read_xattr i bytes ≡ err e
    → read_xattrs (suc fuel) i bytes result ≡ err e
unfolding read_xattrs
read_xattrs_error fuel i bytes result e p q = rw (p, q, read_xattrs)

read_xattrs_end :
    (fuel i : ℕ) (bytes : Bytes) (result : Xattrs)
    → ltb i (length bytes) ≡ false
    → read_xattrs fuel i bytes result ≡ ok result
unfolding read_xattrs
read_xattrs_end zero i bytes result p = rw p
read_xattrs_end (suc fuel) i bytes result p = rw (p, read_xattrs)

at_end : (pre : Bytes) (i : ℕ) → length pre ≡ i → ltb i (length pre) ≡ false
at_end pre i h = ground arith

read_xattrs_lem :
    (xattrs : Xattrs) (fuel i : ℕ) (pre : Bytes) (result : Xattrs)
    → length pre ≡ i
    → All IsXattr xattrs
    → length (serialize_xattrs xattrs) ≤ fuel
    → read_xattrs fuel i (pre ++ serialize_xattrs xattrs) result ≡ ok (result ++ xattrs)
unfolding read_xattrs serialize_xattrs
read_xattrs_lem [] fuel i pre result h hs hf =
    rw append-nil
      (read_xattrs_end fuel i pre result (at_end pre i h) ∙ ap ok (sym (append-nil result)))
read_xattrs_lem ((name, value) ∷ xattrs) zero i pre result h hs hf = absurd (omega arith)
read_xattrs_lem ((name, value) ∷ xattrs) (suc fuel) i pre result h hs hf =
    read_xattrs_step fuel i (i + 4 + length name + 4 + length value) whole result (name, value)
      (lt→ltb i (length whole) (omega (arith, h, size)))
      (read_xattr_lem pre name value (serialize_xattrs xattrs) i h hs.0)
    ∙ ap
        (λ bs.
          read_xattrs fuel (i + 4 + length name + 4 + length value) bs
            (result ++ (name, value) ∷ []))
        (sym regroup)
    ∙ read_xattrs_lem xattrs fuel (i + 4 + length name + 4 + length value)
        (pre ++ (counted name ++ counted value)) (result ++ (name, value) ∷ [])
        (length-append pre (counted name ++ counted value)
          ∙ omega (arith, h, length-append (counted name) (counted value)))
        hs.1
        (omega (
          arith,
          hf,
          length-append (counted name) (counted value ++ serialize_xattrs xattrs),
          length-append (counted value) (serialize_xattrs xattrs),
        ))
    ∙ ap ok (append_assoc result ((name, value) ∷ []) xattrs)
  where
    whole : Bytes
    whole = pre ++ serialize_xattrs ((name, value) ∷ xattrs)

    size : length whole ≡ length pre + length (serialize_xattrs ((name, value) ∷ xattrs))
    size = length-append pre (serialize_xattrs ((name, value) ∷ xattrs))

    regroup : (pre ++ (counted name ++ counted value)) ++ serialize_xattrs xattrs ≡ whole
    regroup =
        append_assoc pre (counted name ++ counted value) (serialize_xattrs xattrs)
        ∙ ap (λ t. pre ++ t) (append_assoc (counted name) (counted value) (serialize_xattrs xattrs))

-- Deserializing serialized attributes whose names are UTF-8 and whose lengths fit 32 bits gives
-- them back, in order.
pub deserialize_xattrs-serialize_xattrs :
    (xattrs : Xattrs)
    → All IsXattr xattrs
    → deserialize_xattrs (serialize_xattrs xattrs) ≡ ok xattrs
unfolding deserialize_xattrs
deserialize_xattrs-serialize_xattrs xattrs h =
    read_xattrs_lem xattrs (length (serialize_xattrs xattrs)) 0 [] [] refl h (omega arith)

read_xattr_grows :
    (i : ℕ) (bytes : Bytes) {e : Bytes × Bytes} {j : ℕ} → read_xattr i bytes ≡ ok (e, j) → i + 8 ≤ j
unfolding read_xattr
read_xattr_grows i bytes h =
    let ((name, i'), p, q) = >>=-eq-ok (read_counted i bytes) _ h in
    let (_, _, r) = >>=-eq-ok (guard (is_utf8 name) corrupted) _ q in
    let ((value, i''), s, t) = >>=-eq-ok (read_counted i' bytes) _ r in
    ground (arith, read_counted_grows i bytes name i' p, read_counted_grows i' bytes value i'' s, t)

-- With fuel for the bytes that are left, more fuel changes nothing: the loop ends by its test.
pub read_xattrs_fuel :
    (fuel more i : ℕ) (bytes : Bytes) (result : Xattrs)
    → length bytes ≤ fuel + i
    → read_xattrs (fuel + more) i bytes result ≡ read_xattrs fuel i bytes result
unfolding read_xattrs
read_xattrs_fuel zero more i bytes result h =
    read_xattrs_end (0 + more) i bytes result (ground arith)
    ∙ sym (read_xattrs_end 0 i bytes result (ground arith))
read_xattrs_fuel (suc fuel) more i bytes result h =
    let e : suc fuel + more ≡ suc (fuel + more) = omega arith in
    rw e (elim (Bool-cases (ltb i (length bytes))) [
      | inr done ↦
          read_xattrs_end (suc (fuel + more)) i bytes result done
          ∙ sym (read_xattrs_end (suc fuel) i bytes result done)
      | inl go ↦ elim (Result-cases (read_xattr i bytes)) [
        | inl ((entry, j), p) ↦
            read_xattrs_step (fuel + more) i j bytes result entry go p
            ∙ read_xattrs_fuel fuel more j bytes (result ++ entry ∷ [])
                (omega (arith, h, read_xattr_grows i bytes p))
            ∙ sym (read_xattrs_step fuel i j bytes result entry go p)
        | inr (bad, p) ↦
            read_xattrs_error (fuel + more) i bytes result bad go p
            ∙ sym (read_xattrs_error fuel i bytes result bad go p)
      ]
    ])
