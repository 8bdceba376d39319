-- ===== src/Str/Utf8.antt =====
-- `std::str::from_utf8` succeeds on these byte strings: the well-formed sequences of Unicode's table.
use nexad.Prelude.{
  ℕ, Bool, false, ◌&&◌, Option, none, some, List, [], ◌∷◌, Text, ltb, leb, if◌then◌else◌, is_empty,
}

-- The ranges of the bytes that must follow a first byte; `none` for a byte that starts nothing.
following : ℕ → Option (List (ℕ × ℕ))
following b =
    if ltb b 0x80
    then some []
    else if ltb b 0xC2
    then none
    else if ltb b 0xE0
    then some ((0x80, 0xBF) ∷ [])
    else if leb b 0xE0
    then some ((0xA0, 0xBF) ∷ (0x80, 0xBF) ∷ [])
    else if ltb b 0xED
    then some ((0x80, 0xBF) ∷ (0x80, 0xBF) ∷ [])
    else if leb b 0xED
    then some ((0x80, 0x9F) ∷ (0x80, 0xBF) ∷ [])
    else if ltb b 0xF0
    then some ((0x80, 0xBF) ∷ (0x80, 0xBF) ∷ [])
    else if leb b 0xF0
    then some ((0x90, 0xBF) ∷ (0x80, 0xBF) ∷ (0x80, 0xBF) ∷ [])
    else if ltb b 0xF4
    then some ((0x80, 0xBF) ∷ (0x80, 0xBF) ∷ (0x80, 0xBF) ∷ [])
    else if leb b 0xF4
    then some ((0x80, 0x8F) ∷ (0x80, 0xBF) ∷ (0x80, 0xBF) ∷ [])
    else none

-- `ranges` are those of the bytes still due.
check : List (ℕ × ℕ) → Text → Bool
check ranges [] = is_empty ranges
check ((lo, hi) ∷ ranges) (b ∷ bs) = leb lo b && leb b hi && check ranges bs
check [] (b ∷ bs) = elim (following b) [ none ↦ false | some ranges ↦ check ranges bs ]

unfoldable pub valid_utf8 : Text → Bool
unfolding check following
valid_utf8 s = check [] s
