-- ===== src/Base/Utf8.antt =====
-- `str::from_utf8`: which byte strings are UTF-8.
use Prim.Native.Nat.{ℕ, ◌-◌}
use mathlib.Core.Bool.{Bool, false, ◌&&◌}
use mathlib.Core.List.{List, [], ◌∷◌}
use slicefs.Base.Tests.{ltb, leb, ◌==◌, if◌then◌else◌}

within : ℕ → ℕ → ℕ → Bool
within lo hi b = leb lo b && leb b hi

-- How many continuation bytes are still due, and the range of the next one.
utf8_from : ℕ → ℕ → ℕ → List ℕ → Bool
utf8_from due lo hi [] = due == 0
utf8_from due lo hi (b ∷ bs) =
    let ascii = utf8_from 0 0x80 0xbf bs in
    let next = utf8_from (due - 1) 0x80 0xbf bs in
    let two = utf8_from 1 0x80 0xbf bs in
    let e0 = utf8_from 2 0xa0 0xbf bs in
    let ed = utf8_from 2 0x80 0x9f bs in
    let three = utf8_from 2 0x80 0xbf bs in
    let f0 = utf8_from 3 0x90 0xbf bs in
    let f4 = utf8_from 3 0x80 0x8f bs in
    let four = utf8_from 3 0x80 0xbf bs in
    if due == 0
    then (if ltb b 0x80
        then ascii
        else if within 0xc2 0xdf b
        then two
        else if b == 0xe0
        then e0
        else if b == 0xed
        then ed
        else if within 0xe1 0xef b
        then three
        else if b == 0xf0
        then f0
        else if within 0xf1 0xf3 b
        then four
        else if b == 0xf4
        then f4
        else false)
    else (if within lo hi b then next else false)

unfoldable pub is_utf8 : List ℕ → Bool
unfolding within utf8_from
is_utf8 bytes = utf8_from 0 0x80 0xbf bytes
