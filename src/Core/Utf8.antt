-- ===== src/Core/Utf8.antt =====
-- `std::str::from_utf8`, the test of the standard library, on a list of bytes.
use oxibus.Base.{
  ℕ, ◌≡◌, refl, Bool, true, false, ◌&&◌, Option, none, some, List, [], ◌∷◌, ltb, leb, if◌then◌else◌,
  Text, arith,
}
use oxibus.Core.Signature.{is_ascii}

-- The ranges of the continuation bytes that a lead byte asks for.
unfoldable pub continuations : ℕ → Option (List (ℕ × ℕ))
continuations b =
    if ltb b 0x80
    then some []
    else if ltb b 0xC2
    then none
    else if ltb b 0xE0
    then some ((0x80, 0xBF) ∷ [])
    else if ltb b 0xE1
    then some ((0xA0, 0xBF) ∷ (0x80, 0xBF) ∷ [])
    else if ltb b 0xED
    then some ((0x80, 0xBF) ∷ (0x80, 0xBF) ∷ [])
    else if ltb b 0xEE
    then some ((0x80, 0x9F) ∷ (0x80, 0xBF) ∷ [])
    else if ltb b 0xF0
    then some ((0x80, 0xBF) ∷ (0x80, 0xBF) ∷ [])
    else if ltb b 0xF1
    then some ((0x90, 0xBF) ∷ (0x80, 0xBF) ∷ (0x80, 0xBF) ∷ [])
    else if ltb b 0xF4
    then some ((0x80, 0xBF) ∷ (0x80, 0xBF) ∷ (0x80, 0xBF) ∷ [])
    else if ltb b 0xF5
    then some ((0x80, 0x8F) ∷ (0x80, 0xBF) ∷ (0x80, 0xBF) ∷ [])
    else none

unfoldable pub is_utf8_after : List (ℕ × ℕ) → Text → Bool
is_utf8_after [] [] = true
is_utf8_after (r ∷ rs) [] = false
is_utf8_after ((lo, hi) ∷ rs) (b ∷ s) = (leb lo b && leb b hi) && is_utf8_after rs s
is_utf8_after [] (b ∷ s) = elim (continuations b) [ none ↦ false | some rs ↦ is_utf8_after rs s ]

unfoldable pub is_utf8 : Text → Bool
unfolding is_utf8_after continuations
is_utf8 s = is_utf8_after [] s

is_ascii-utf8_after : (s : Text) → is_ascii s ≡ true → is_utf8_after [] s ≡ true
unfolding is_utf8_after continuations is_ascii
is_ascii-utf8_after [] h = refl
is_ascii-utf8_after (b ∷ s) h = ground (arith, is_ascii-utf8_after s)

-- An ASCII text is valid.
pub is_ascii-is_utf8 : (s : Text) → is_ascii s ≡ true → is_utf8 s ≡ true
unfolding is_utf8
is_ascii-is_utf8 s h = is_ascii-utf8_after s h
