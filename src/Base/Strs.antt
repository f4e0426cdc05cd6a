-- ===== src/Base/Strs.antt =====
-- Methods of `str` that the program uses, on the bytes of the text.
use Prim.Native.Nat.{ℕ, zero, suc, ◌+◌, ◌*◌, ◌-◌, ◌^◌}
use mathlib.Core.Bool.{◌&&◌, ◌||◌}
use mathlib.Core.Option.{Option, none, some}
use mathlib.Core.Path.{◌≡◌, refl}
use mathlib.Core.Logic.{◌≢◌}
use native.Mathlib.Omega.{arith}
use mathlib.Core.List.{[], ◌∷◌, ◌++◌}
use oxibus.Base.Tests.{==_refl, leb, ltb, ◌==◌, if◌then◌else◌}
use oxibus.Base.Lists.{Text, All}

-- `split_once` at a byte.
unfoldable pub split_once : ℕ → Text → Option (Text × Text)
split_once sep [] = none
split_once sep (b ∷ s) =
    if b == sep
    then some ([], s)
    else elim (split_once sep s) [ none ↦ none | some (front, back) ↦ some (b ∷ front, back) ]

-- The bytes of the white space that a text starts with, 0 if it starts otherwise.
unfoldable pub white_space : Text → ℕ
white_space [] = 0
white_space (b ∷ []) = if b == 32 || (leb 9 b && leb b 13) then 1 else 0
white_space (b ∷ c ∷ []) =
    if b == 32 || (leb 9 b && leb b 13)
    then 1
    else if b == 0xC2 && (c == 0x85 || c == 0xA0)
    then 2
    else 0
white_space (b ∷ c ∷ d ∷ s) =
    if b == 32 || (leb 9 b && leb b 13)
    then 1
    else if b == 0xC2 && (c == 0x85 || c == 0xA0)
    then 2
    else if (b == 0xE1 && c == 0x9A && d == 0x80)
        || (b == 0xE2 && c == 0x80 && (leb d 0x8A || d == 0xA8 || d == 0xA9 || d == 0xAF))
        || (b == 0xE2 && c == 0x81 && d == 0x9F)
        || (b == 0xE3 && c == 0x80 && d == 0x80)
    then 3
    else 0

-- `trim_start`, with the bytes left of the white space in hand.
unfoldable pub trim_after : ℕ → Text → Text
unfolding white_space
trim_after n [] = []
trim_after (suc n) (b ∷ s) = trim_after n s
trim_after zero (b ∷ s) = elim (white_space (b ∷ s)) [ zero ↦ b ∷ s | suc n ↦ trim_after n s ]

-- `str::parse` for an unsigned type, after the sign: none if a byte is no digit or the number reaches
-- the bound.
unfoldable pub parse_digits : ℕ → ℕ → Text → Option ℕ
parse_digits bound acc [] = some acc
parse_digits bound acc (b ∷ s) =
    if (leb b'0' b && leb b b'9') && ltb (acc * 10 + (b - b'0')) bound
    then parse_digits bound (acc * 10 + (b - b'0')) s
    else none

unfoldable pub parse_uint : ℕ → Text → Option ℕ
unfolding parse_digits
parse_uint bound [] = none
parse_uint bound (b ∷ []) = if b == b'+' then none else parse_digits bound 0 (b ∷ [])
parse_uint bound (b ∷ c ∷ s) =
    if b == b'+' then parse_digits bound 0 (c ∷ s) else parse_digits bound 0 (b ∷ c ∷ s)

unfoldable pub parse_u32 : Text → Option ℕ
unfolding parse_uint
parse_u32 = parse_uint (2 ^ 32)

-- The first separator splits.
pub split_once-append :
    (c : ℕ) (key rest : Text)
    → All (λ b. b ≢ c) key
    → split_once c (key ++ (c ∷ rest)) ≡ some (key, rest)
unfolding split_once
split_once-append c [] rest h = rw (==_refl c) refl
split_once-append c (b ∷ key) rest (other, h) = ground (arith, split_once-append c key rest h)
