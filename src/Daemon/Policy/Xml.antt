-- ===== src/Daemon/Policy/Xml.antt =====
-- `tokenize_xml` of crates/oxibus-daemon/src/policy.rs, on the bytes of the text. All characters that
-- it stops at are one byte long, but for white space.
pub mod Total
use oxibus.Base.{
  ℕ, zero, suc, ◌+◌, Bool, true, false, not, ◌&&◌, ◌||◌, Option, none, some, List, [], ◌∷◌, ◌++◌,
  Text, codes, length, drop, starts_with, ◌==◌, if◌then◌else◌,
}
use oxibus.Base.Assoc.{Assoc, insert}
use oxibus.Base.Strs.{white_space, trim_after}

abbrev pub Attributes : Type 0
Attributes = Assoc Text

pub data XmlToken : Type 0 where
  start_tag : Text → Attributes → XmlToken
  end_tag : Text → XmlToken
  self_closing_tag : Text → Attributes → XmlToken

-- Reads up to the first place where the test holds of what is left.
unfoldable pub until : (Text → Bool) → Text → Text × Text
until stop [] = ([], [])
until stop (b ∷ s) =
    let (front, back) = until stop s in if stop (b ∷ s) then ([], b ∷ s) else (b ∷ front, back)

-- The loops over `by_ref`: up to a byte, and past it.
unfoldable pub past : ℕ → Text → Text × Text
past stop [] = ([], [])
past stop (b ∷ s) =
    let (front, back) = past stop s in if b == stop then ([], s) else (b ∷ front, back)

unfoldable pub skip_comment : Text → Text
unfolding starts_with
skip_comment [] = []
skip_comment (b ∷ s) =
    let rest = skip_comment s in
    if b == b'-' && starts_with (b ∷ s) (codes "-->") then drop 2 s else rest

abbrev pub starts_white : Text → Bool
unfolding white_space
starts_white s = not (white_space s == 0)

-- `ch == '>' || ch == '/'` of the next character.
abbrev pub at_end : Text → Bool
at_end [] = false
at_end (b ∷ s) = b == b'>' || b == b'/'

abbrev pub at : ℕ → Text → Bool
at c [] = false
at c (b ∷ s) = b == c

abbrev pub skip_byte : ℕ → Text → Text
skip_byte c [] = []
skip_byte c (b ∷ s) = if b == c then s else b ∷ s

abbrev pub skip_white : Text → Text
unfolding trim_after
skip_white = trim_after 0

-- The quote, `"` if there is none, and what follows it.
abbrev pub quote_char : Text → ℕ × Text
quote_char [] = (b'"', [])
quote_char (q ∷ s) = if q == b'"' || q == b'\'' then (q, s) else (b'"', q ∷ s)

-- The value behind the equals sign.
unfoldable pub attribute_value : Text → Text × Text
unfolding past
attribute_value s = let (q, rest) = quote_char (skip_white s) in past q rest

abbrev pub insert_named : Text → Text → Attributes → Attributes
unfolding insert
insert_named [] value attrs = attrs
insert_named (b ∷ name) value attrs = insert (b ∷ name) value attrs

abbrev pub is_empty : Text → Bool
is_empty [] = true
is_empty (b ∷ s) = false

-- What follows the name of an attribute and white space: the value, if an equals sign stands there.
unfoldable pub behind_name : Text → Attributes → Text → Attributes × Text
unfolding attribute_value
behind_name name attrs s =
    if at b'=' s
    then (let (value, rest) = attribute_value (drop 1 s) in (insert_named name value attrs, rest))
    else (attrs, s)

abbrev pub ends_name : Text → Bool
ends_name t = at b'=' t || (starts_white t || at_end t)

-- One round of the loop over the attributes, at a name: the attributes and what is left.
unfoldable pub attribute : Text → Attributes → Attributes × Text
unfolding until behind_name
attribute s attrs = let (name, s') = until ends_name s in behind_name name attrs (skip_white s')

-- The loop over the attributes, on fuel.
unfoldable pub attributes : ℕ → Text → Attributes → Option (Attributes × Text)
attributes zero s attrs = none
attributes (suc f) s attrs =
    let s' = skip_white s in
    let (attrs', rest) = attribute s' attrs in
    let more = attributes f rest attrs' in
    if is_empty s' || at_end s' then some (attrs, s') else more

-- The end of a tag: the slash and the bracket.
unfoldable pub close_tag : Text → Bool × Text
close_tag s = (at b'/' s, skip_byte b'>' (skip_byte b'/' s))

abbrev pub finish_tag : Text → Option (Attributes × Text) → Option (XmlToken × Text)
finish_tag name none = none
finish_tag name (some (attrs, s)) =
    some (
      if (close_tag s).0 then self_closing_tag name attrs else start_tag name attrs,
      (close_tag s).1,
    )

unfoldable pub tag : Text → Option (XmlToken × Text)
unfolding until
tag s =
    let (name, s') = until (λ t. starts_white t || at_end t) (skip_byte b'/' s) in
    if at b'/' s
    then some (end_tag name, (close_tag s').1)
    else finish_tag name (attributes (suc (length s')) s' [])

unfoldable pub as_tag : Text → Option (List XmlToken × Text)
unfolding tag
as_tag s = elim (tag s) [ none ↦ none | some (token, rest) ↦ some (token ∷ [], rest) ]

-- What follows `<`: markup that gives no token, or a tag. `<!-` without a second dash is read as a tag.
unfoldable pub markup : Text → Option (List XmlToken × Text)
unfolding past skip_comment as_tag
markup s =
    if at b'!' s
    then (if at b'-' (drop 1 s)
        then (if at b'-' (drop 2 s) then some ([], skip_comment (drop 3 s)) else as_tag (drop 2 s))
        else some ([], (past b'>' (drop 1 s)).1))
    else as_tag s

-- The loop over the text, on fuel.
unfoldable pub tokens : ℕ → Text → Option (List XmlToken)
unfolding markup
tokens zero s = none
tokens (suc f) [] = some []
tokens (suc f) (b ∷ s) =
    let skipped = tokens f s in
    let tagged : Option (List XmlToken) = elim (markup s) [
      | none ↦ none
      | some (here, rest) ↦ elim (tokens f rest) [ none ↦ none | some later ↦ some (here ++ later) ]
    ] in
    if b == b'<' then tagged else skipped

unfoldable pub tokenize_xml : Text → Option (List XmlToken)
unfolding tokens
tokenize_xml xml = tokens (suc (length xml)) xml
