-- ===== src/Core/Names.antt =====
-- crates/oxibus-core/src/lib.rs: the well-known names, the names of errors that the bus answers with,
-- and the tests of names. Their characters are ASCII, so bytes stand for them.
use oxibus.Base.{
  ℕ, Bool, true, false, not, ◌&&◌, ◌||◌, Option, none, some, List, [], ◌∷◌, Text, codes, length,
  any, all, leb, ltb, ◌==◌, if◌then◌else◌,
}
use oxibus.Core.Types.Paths.{split, is_ascii_alphanumeric}
pub mod WellKnown
pub mod Errors

-- `is_ascii_alphabetic`
abbrev pub is_ascii_alphabetic : ℕ → Bool
is_ascii_alphabetic b = (leb b'a' b && leb b b'z') || (leb b'A' b && leb b b'Z')

abbrev pub is_word : Text → Bool
unfolding is_ascii_alphanumeric
is_word [] = false
is_word (b ∷ s) =
    (is_ascii_alphabetic b || b == b'_') && all (λ c. is_ascii_alphanumeric c || c == b'_') s

abbrev pub is_empty : Text → Bool
is_empty [] = true
is_empty (b ∷ s) = false

unfoldable pub is_valid_dotted_name : Text → Bool → Bool
unfolding split
is_valid_dotted_name s allow_leading_digit_after_hyphen =
    if is_empty s || ltb 255 (length s) || not (any (λ b. b == b'.') s)
    then false
    else all is_word (split b'.' s)

abbrev pub is_unique_element : Text → Bool
unfolding is_ascii_alphanumeric
is_unique_element el =
    not (is_empty el) && all (λ b. is_ascii_alphanumeric b || b == b'_' || b == b'-') el

-- `strip_prefix(':')`
abbrev pub after_colon : Text → Option Text
after_colon [] = none
after_colon (b ∷ s) = if b == b':' then some s else none

unfoldable pub is_valid_bus_name : Text → Bool
unfolding is_valid_dotted_name split
is_valid_bus_name s = elim (after_colon s) [
  | some rest ↦
      if is_empty rest || ltb 255 (length s) then false else all is_unique_element (split b'.' rest)
  | none ↦ is_valid_dotted_name s false
]

unfoldable pub is_valid_member_name : Text → Bool
is_valid_member_name s = if is_empty s || ltb 255 (length s) then false else is_word s
