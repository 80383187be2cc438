-- ===== src/Commands/Names.antt =====
-- The names of segment files, as crates/metadata/src/wal/mod.rs writes and
-- crates/slicefs-cli/src/mount.rs reads them.
use slicefs.Base.{
  ℕ, zero, suc, ◌+◌, ◌-◌, ◌*◌, ◌/◌, ◌%◌, ◌^◌, ◌<◌, ◌≤◌, ◌≡◌, refl, sym, ap, ◌∙◌, arith, true, false,
  ◌==◌, ◌&&◌, some, [], ◌∷◌, ◌++◌, append_assoc, length, length-append, drop-append_eq, slice,
  slice_lem, ltb, leb, Bool-cases, inl, inr,
}
use native.Mathlib.Nat.{pow-suc}
use slicefs.Base.Words.{Bytes, IsU64}
use slicefs.Base.Keys.{lex_same_refl}
use slicefs.Segment.Replay.{prefix, suffix, is_segment_name, ends_with}
use slicefs.Store.Snapshots.{parse_digits, parse_u64}
use slicefs.Mount.{segment_number}
use slicefs.Commands.{decimal_from, decimal, padding, segment_file_name}

parse_digit :
    (m c v : ℕ) (acc : Bytes)
    → 48 ≤ c
    → c ≤ 57
    → m * 10 + (c - 48) ≡ v
    → IsU64 v
    → parse_digits m (c ∷ acc) ≡ parse_digits v acc
unfolding parse_digits
parse_digit m c v acc low high e hv =
    rw (test low high e hv, parse_digits) (ap (λ n. parse_digits n acc) e)
  where
    test :
        48 ≤ c
        → c ≤ 57
        → m * 10 + (c - 48) ≡ v
        → IsU64 v
        → (leb 48 c && (leb c 57 && ltb (m * 10 + (c - 48)) (2 ^ 64))) ≡ true
    test low high e hv = ground arith

-- Parsing what is printed of a number goes on as from that number.
parse_digits-decimal_from :
    (fuel n : ℕ) (acc : Bytes)
    → n < 10 ^ fuel
    → IsU64 n
    → parse_digits 0 (decimal_from fuel n acc) ≡ parse_digits n acc
unfolding decimal_from
parse_digits-decimal_from zero n acc h hn = ap (λ m. parse_digits m acc) (omega arith)
parse_digits-decimal_from (suc fuel) n acc h hn = elim (Bool-cases (ltb n 10)) [
  | inl y ↦
      rw (y, decimal_from)
        (parse_digit 0 (n % 10 + 48) n acc (omega arith) (omega arith) (ground arith) hn)
  | inr more ↦
      rw (more, decimal_from)
        (parse_digits-decimal_from fuel (n / 10) ((n % 10 + 48) ∷ acc)
            (omega (arith, pow-suc 10 fuel)) (ground arith)
          ∙ parse_digit (n / 10) (n % 10 + 48) n acc (omega arith) (omega arith) (omega arith) hn)
]

parse_digits-padding :
    (k : ℕ) (digits : Bytes) → parse_digits 0 (padding k ++ digits) ≡ parse_digits 0 digits
unfolding padding parse_digits
parse_digits-padding zero digits = refl
parse_digits-padding (suc k) digits = parse_digits-padding k digits

-- A text that is not empty and has no sign in front.
abbrev IsUnsigned : Bytes → Type 0
IsUnsigned [] = ⊥
IsUnsigned (c ∷ cs) = (c == 43) ≡ false

parse_u64-unsigned : (cs : Bytes) → IsUnsigned cs → parse_u64 cs ≡ parse_digits 0 cs
unfolding parse_u64
parse_u64-unsigned [] h = absurd h
parse_u64-unsigned (c ∷ []) h = refl
parse_u64-unsigned (c ∷ d ∷ cs) h = rw (h, parse_u64) refl

digit_unsigned : (n : ℕ) → (n % 10 + 48 == 43) ≡ false
digit_unsigned n = ground arith

decimal_from-IsUnsigned :
    (fuel n : ℕ) (acc : Bytes) → IsUnsigned acc → IsUnsigned (decimal_from fuel n acc)
unfolding decimal_from
decimal_from-IsUnsigned zero n acc h = h
decimal_from-IsUnsigned (suc fuel) n acc h = elim (Bool-cases (ltb n 10)) [
  | inl y ↦ rw (y, decimal_from) (digit_unsigned n)
  | inr more ↦
      rw (more, decimal_from)
        (decimal_from-IsUnsigned fuel (n / 10) ((n % 10 + 48) ∷ acc) (digit_unsigned n))
]

decimal-IsUnsigned : (n : ℕ) → IsUnsigned (decimal n)
unfolding decimal_from
decimal-IsUnsigned n = elim (Bool-cases (ltb n 10)) [
  | inl y ↦ rw (y, decimal_from) (digit_unsigned n)
  | inr more ↦
      rw (more, decimal_from)
        (decimal_from-IsUnsigned 19 (n / 10) ((n % 10 + 48) ∷ []) (digit_unsigned n))
]

padding-IsUnsigned : (k : ℕ) (cs : Bytes) → IsUnsigned cs → IsUnsigned (padding k ++ cs)
unfolding padding
padding-IsUnsigned zero cs h = h
padding-IsUnsigned (suc k) cs h = refl

parse_u64-decimal : (k n : ℕ) → IsU64 n → parse_u64 (padding k ++ decimal n) ≡ some n
unfolding parse_digits
parse_u64-decimal k n h =
    parse_u64-unsigned (padding k ++ decimal n)
      (padding-IsUnsigned k (decimal n) (decimal-IsUnsigned n))
    ∙ parse_digits-padding k (decimal n)
    ∙ parse_digits-decimal_from 20 n [] (omega arith) h

between :
    (front middle back : Bytes) (name : Bytes)
    → name ≡ front ++ (middle ++ back)
    → length back ≡ 4
    → length front ≡ 8
    → slice 8 (length name - 4) name ≡ middle
between front middle back name e hb hf = rw e (
    slice_lem front middle back 8 (length (front ++ (middle ++ back)) - 4) hf
      (omega (arith, length-append front (middle ++ back), length-append middle back)))

ends : (front back : Bytes) → ends_with back (front ++ back) ≡ true
ends front back =
    rw
      (
        drop-append_eq (length (front ++ back) - length back) front back
            (omega (arith, length-append front back)),
        lex_same_refl back,
      )
      (ground (arith, length-append front back))

segment_number_between :
    (middle : Bytes) → segment_number (prefix ++ (middle ++ suffix)) ≡ parse_u64 middle
unfolding segment_number is_segment_name
segment_number_between middle =
    rw
      (
        ends (prefix ++ middle) suffix,
        between prefix middle suffix (prefix ++ (middle ++ suffix)) refl refl refl,
        segment_number,
      )
      refl

-- The number that is read from the name of a new segment file is its id, for every id of 64 bits.
pub segment_number-segment_file_name :
    (id : ℕ) → IsU64 id → segment_number (segment_file_name id) ≡ some id
unfolding segment_file_name
segment_number-segment_file_name id h =
    let zeros = padding (6 - length (decimal id)) in
    ap (λ t. segment_number (prefix ++ t)) (sym (append_assoc zeros (decimal id) suffix))
    ∙ segment_number_between (zeros ++ decimal id)
    ∙ parse_u64-decimal (6 - length (decimal id)) id h
