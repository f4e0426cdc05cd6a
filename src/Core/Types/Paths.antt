-- ===== src/Core/Types/Paths.antt =====
-- crates/oxibus-core/src/types.rs: object paths, as texts.
use oxibus.Base.{
  ℕ, Bool, true, false, not, ◌&&◌, ◌||◌, List, [], ◌∷◌, ◌++◌, Text, codes, leb, ◌==◌, beq,
  starts_with, if◌then◌else◌, all, ok, err,
}
use oxibus.Core.Error.{CoreResult, invalid_object_path}

-- `str::split` at one byte: the pieces between its occurrences, at least one.
abbrev pub push_front : ℕ → List Text → List Text
push_front b [] = (b ∷ []) ∷ []
push_front b (p ∷ ps) = (b ∷ p) ∷ ps

unfoldable pub split : ℕ → Text → List Text
split c [] = [] ∷ []
split c (b ∷ s) = if b == c then [] ∷ split c s else push_front b (split c s)

-- `str::ends_with` at one byte.
unfoldable pub ends_with : ℕ → Text → Bool
ends_with c [] = false
ends_with c (b ∷ []) = b == c
ends_with c (b ∷ s) = ends_with c s

unfoldable pub is_ascii_alphanumeric : ℕ → Bool
is_ascii_alphanumeric b =
    (leb b'0' b && leb b b'9') || (leb b'a' b && leb b b'z') || (leb b'A' b && leb b b'Z')

abbrev pub is_segment_byte : ℕ → Bool
is_segment_byte b = is_ascii_alphanumeric b || b == b'_'

unfoldable pub is_segment : Text → Bool
is_segment [] = false
is_segment (b ∷ s) = all is_segment_byte (b ∷ s)

-- The body after the test of the first byte; `rest` is `s[1..]`.
unfoldable pub is_valid_object_path : Text → Bool
unfolding is_segment ends_with split beq
is_valid_object_path [] = false
is_valid_object_path (c ∷ rest) =
    if not (c == b'/')
    then false
    else if beq (c ∷ rest) (codes "/")
    then true
    else if ends_with b'/' (c ∷ rest)
    then false
    else all is_segment (split b'/' rest)

-- `ObjectPath::new`
unfoldable pub new_object_path : Text → CoreResult Text
unfolding is_valid_object_path
new_object_path s = if is_valid_object_path s then ok s else err (invalid_object_path s)

unfoldable pub is_within_namespace : Text → Text → Bool
unfolding starts_with beq
is_within_namespace p prefix =
    if beq prefix (codes "/") then true else beq p prefix || starts_with p (prefix ++ codes "/")
