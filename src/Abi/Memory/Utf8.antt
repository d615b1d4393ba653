-- ===== src/Abi/Memory/Utf8.antt =====
-- `utf8.Valid` of Go's standard library, which internal/abi/memory.go asks of every string it loads.
use component_model.Prelude.{
  ℕ, zero, suc, List, [], ◌∷◌, Option, none, some, Bool, false, ◌&&◌, ltb, leb, ◌==◌, if◌then◌else◌,
}

-- After a leading byte: how many bytes must follow, and the bounds of the first of them.
unfoldable pub after_lead : ℕ → Option (ℕ × ℕ × ℕ)
after_lead b =
    if ltb b 0x80
    then some (0, 0x80, 0xBF)
    else if ltb b 0xC2
    then none
    else if ltb b 0xE0
    then some (1, 0x80, 0xBF)
    else if b == 0xE0
    then some (2, 0xA0, 0xBF)
    else if b == 0xED
    then some (2, 0x80, 0x9F)
    else if ltb b 0xF0
    then some (2, 0x80, 0xBF)
    else if b == 0xF0
    then some (3, 0x90, 0xBF)
    else if ltb b 0xF4
    then some (3, 0x80, 0xBF)
    else if b == 0xF4
    then some (3, 0x80, 0x8F)
    else none

-- `need` bytes are still to come, the next of them between `lo` and `hi`.
unfoldable pub utf8_from : ℕ → ℕ → ℕ → List ℕ → Bool
unfolding after_lead
utf8_from need lo hi [] = need == 0
utf8_from zero lo hi (b ∷ bs) = elim (after_lead b) [
  | none ↦ false
  | some (need, lo', hi') ↦ utf8_from need lo' hi' bs
]
utf8_from (suc need) lo hi (b ∷ bs) =
    let rest = utf8_from need 0x80 0xBF bs in leb lo b && leb b hi && rest

unfoldable pub utf8_valid : List ℕ → Bool
unfolding utf8_from
utf8_valid bytes = utf8_from 0 0x80 0xBF bytes
