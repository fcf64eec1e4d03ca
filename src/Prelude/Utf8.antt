-- ===== src/Prelude/Utf8.antt =====
-- The byte sequences that `String::from_utf8` accepts.
use Prim.Native.Nat.{ℕ, zero, suc}
use mathlib.Core.Bool.{Bool, true, false, ◌&&◌}
use mathlib.Core.List.{List, [], ◌∷◌}
use yl.Prelude.Tests.{ltb, leb, if◌then◌else◌}

-- `need` further bytes belong to the character, the next of them from `lo` to `hi`.
unfoldable pub utf8_from : ℕ → ℕ → ℕ → List ℕ → Bool
utf8_from zero lo hi [] = true
utf8_from (suc need) lo hi [] = false
utf8_from (suc need) lo hi (b ∷ bs) =
    let rest = utf8_from need 0x80 0xBF bs in leb lo b && (leb b hi && rest)
utf8_from zero lo hi (b ∷ bs) =
    let plain = utf8_from 0 0x80 0xBF bs in
    let two = utf8_from 1 0x80 0xBF bs in
    let e0 = utf8_from 2 0xA0 0xBF bs in
    let ed = utf8_from 2 0x80 0x9F bs in
    let three = utf8_from 2 0x80 0xBF bs in
    let f0 = utf8_from 3 0x90 0xBF bs in
    let f4 = utf8_from 3 0x80 0x8F bs in
    let four = utf8_from 3 0x80 0xBF bs in
    if ltb b 0x80
    then plain
    else (if ltb b 0xC2
        then false
        else (if ltb b 0xE0
            then two
            else (if ltb b 0xE1
                then e0
                else (if leb 0xED b && leb b 0xED
                    then ed
                    else (if ltb b 0xF0
                        then three
                        else (if ltb b 0xF1
                            then f0
                            else (if ltb b 0xF4
                                then four
                                else (if ltb b 0xF5 then f4 else false))))))))

unfoldable pub is_utf8 : List ℕ → Bool
unfolding utf8_from
is_utf8 bs = utf8_from 0 0x80 0xBF bs
