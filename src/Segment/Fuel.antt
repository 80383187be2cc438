-- ===== src/Segment/Fuel.antt =====
-- The loops of reader.rs end: fuel for the bytes that are left is enough, and one round at the
-- front decides how `read_all` goes on.
use slicefs.Base.{
  ℕ, zero, suc, ◌+◌, ◌≤◌, ◌≡◌, refl, sym, ap, ◌∙◌, Option, none, some, [], ◌∷◌, length, arith,
}
use mathlib.Core.Path.{subst}
use slicefs.Base.Words.{Bytes}
use slicefs.Segment.{SegmentEntry}
use slicefs.Segment.Reader.{
  Round, stop, go_on, entry, round, next, collect, read_all, LeavesLess, round_shrinks,
}

next_stop : (fuel : ℕ) (reader : Bytes) → round reader ≡ stop → next fuel reader ≡ none
unfolding next
next_stop zero reader e = refl
next_stop (suc fuel) reader e = rw (e, next)

next_go_on :
    (fuel : ℕ) (reader rest : Bytes)
    → round reader ≡ go_on rest
    → next (suc fuel) reader ≡ next fuel rest
unfolding next
next_go_on fuel reader rest e = rw (e, next)

next_entry :
    (fuel : ℕ) (reader rest : Bytes) (x : SegmentEntry)
    → round reader ≡ entry x rest
    → next (suc fuel) reader ≡ some (x, rest)
unfolding next
next_entry fuel reader rest x e = rw (e, next)

no_bytes : (reader : Bytes) → length reader ≤ 0 → round reader ≡ stop
unfolding round
no_bytes [] h = refl
no_bytes (t ∷ reader) h = absurd (omega arith)

shrunk : (reader : Bytes) (r : Round) → round reader ≡ r → LeavesLess (length reader) r
shrunk reader r e = subst (LeavesLess (length reader)) e (round_shrinks reader)

-- Two amounts of fuel that are both enough find the same entry.
pub next_fuel :
    (f g : ℕ) (reader : Bytes)
    → length reader ≤ f
    → length reader ≤ g
    → next f reader ≡ next g reader
next_fuel zero g reader hf hg =
    next_stop zero reader (no_bytes reader hf) ∙ sym (next_stop g reader (no_bytes reader hf))
next_fuel (suc f) zero reader hf hg =
    next_stop (suc f) reader (no_bytes reader hg) ∙ sym (next_stop zero reader (no_bytes reader hg))
next_fuel (suc f) (suc g) reader hf hg = go (round reader) refl (next_fuel f g)
  where
    go :
        (r : Round)
        → round reader ≡ r
        → ((rest : Bytes) → length rest ≤ f → length rest ≤ g → next f rest ≡ next g rest)
        → next (suc f) reader ≡ next (suc g) reader
    go stop e ih = next_stop (suc f) reader e ∙ sym (next_stop (suc g) reader e)
    go (go_on rest) e ih =
        let less = shrunk reader (go_on rest) e in
        next_go_on f reader rest e
        ∙ ih rest (omega arith) (omega arith)
        ∙ sym (next_go_on g reader rest e)
    go (entry x rest) e ih = next_entry f reader rest x e ∙ sym (next_entry g reader rest x e)

-- What `next` leaves is shorter.
next_shrinks :
    (f : ℕ) (reader rest : Bytes) (x : SegmentEntry)
    → next f reader ≡ some (x, rest)
    → length rest + 5 ≤ length reader
next_shrinks zero reader rest x h = unfold next in cc (h)
next_shrinks (suc f) reader rest x h = go (round reader) refl (next_shrinks f)
  where
    go :
        (r : Round)
        → round reader ≡ r
        → ((mid out : Bytes) (y : SegmentEntry)
            → next f mid ≡ some (y, out)
            → length out + 5 ≤ length mid)
        → length rest + 5 ≤ length reader
    go stop e ih = cc (next_stop (suc f) reader e)
    go (go_on mid) e ih =
        let less = shrunk reader (go_on mid) e in
        let more = ih mid rest x (sym (next_go_on f reader mid e) ∙ h) in omega arith
    go (entry y mid) e ih =
        let less = shrunk reader (entry y mid) e in ground (arith, next_entry f reader mid y e)

collect_end : (fuel : ℕ) (reader : Bytes) → next fuel reader ≡ none → collect fuel reader ≡ []
unfolding collect
collect_end zero reader e = refl
collect_end (suc fuel) reader e = rw (e, collect)

collect_more :
    (fuel : ℕ) (reader rest : Bytes) (x : SegmentEntry)
    → next (suc fuel) reader ≡ some (x, rest)
    → collect (suc fuel) reader ≡ x ∷ collect fuel rest
unfolding collect
collect_more fuel reader rest x e = rw (e, collect)

same_next :
    (fuel : ℕ) (a b : Bytes)
    → next (suc fuel) a ≡ next (suc fuel) b
    → collect (suc fuel) a ≡ collect (suc fuel) b
unfolding collect
same_next fuel a b e = ap (λ o. elim o [ none ↦ [] | some (x, rest) ↦ x ∷ collect fuel rest ]) e

pub collect_fuel :
    (f g : ℕ) (reader : Bytes)
    → length reader ≤ f
    → length reader ≤ g
    → collect f reader ≡ collect g reader
collect_fuel zero g reader hf hg =
    collect_end zero reader (next_stop zero reader (no_bytes reader hf))
    ∙ sym (collect_end g reader (next_stop g reader (no_bytes reader hf)))
collect_fuel (suc f) zero reader hf hg =
    collect_end (suc f) reader (next_stop (suc f) reader (no_bytes reader hg))
    ∙ sym (collect_end zero reader (next_stop zero reader (no_bytes reader hg)))
collect_fuel (suc f) (suc g) reader hf hg = go (next (suc f) reader) refl (collect_fuel f g)
  where
    go :
        (o : Option (SegmentEntry × Bytes))
        → next (suc f) reader ≡ o
        → ((rest : Bytes) → length rest ≤ f → length rest ≤ g → collect f rest ≡ collect g rest)
        → collect (suc f) reader ≡ collect (suc g) reader
    go none e ih =
        collect_end (suc f) reader e
        ∙ sym (collect_end (suc g) reader (next_fuel (suc g) (suc f) reader hg hf ∙ e))
    go (some (x, rest)) e ih =
        let less = next_shrinks (suc f) reader rest x e in
        collect_more f reader rest x e
        ∙ ap (λ es. x ∷ es) (ih rest (omega arith) (omega arith))
        ∙ sym (collect_more g reader rest x (next_fuel (suc g) (suc f) reader hg hf ∙ e))

-- How reading goes on after one round.
pub read_all_stop : (reader : Bytes) → round reader ≡ stop → read_all reader ≡ []
unfolding read_all
read_all_stop reader e = collect_end (length reader) reader (next_stop (length reader) reader e)

pub read_all_go_on :
    (reader rest : Bytes) → round reader ≡ go_on rest → read_all reader ≡ read_all rest
unfolding read_all
read_all_go_on reader rest e =
    let less = shrunk reader (go_on rest) e in
    collect_fuel (length reader) (suc (length reader)) reader (omega arith) (omega arith)
    ∙ same_next (length reader) reader rest (
        next_go_on (length reader) reader rest e
        ∙ next_fuel (length reader) (suc (length reader)) rest (omega arith) (omega arith))
    ∙ collect_fuel (suc (length reader)) (length rest) rest (omega arith) (omega arith)

pub read_all_entry :
    (reader rest : Bytes) (x : SegmentEntry)
    → round reader ≡ entry x rest
    → read_all reader ≡ x ∷ read_all rest
unfolding read_all
read_all_entry reader rest x e =
    let less = shrunk reader (entry x rest) e in
    collect_fuel (length reader) (suc (length reader)) reader (omega arith) (omega arith)
    ∙ collect_more (length reader) reader rest x (next_entry (length reader) reader rest x e)
    ∙ ap (λ es. x ∷ es)
        (collect_fuel (length reader) (length rest) rest (omega arith) (omega arith))
