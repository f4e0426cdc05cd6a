-- ===== src/Daemon/Policy/Xml/Total.antt =====
-- The loops of `tokenize_xml` in crates/oxibus-daemon/src/policy.rs end on every text.
use mathlib.Core.Path.{subst, sym}
use oxibus.Base.{
  ◌⊎◌, ℕ, zero, suc, ◌≤◌, ◌<◌, ◌≡◌, ◌≢◌, refl, Bool, true, false, not, ◌||◌, Option, none, some,
  List, [], ◌∷◌, ◌++◌, Text, length, drop, ◌==◌, if◌then◌else◌, arith, Bool-cases, if_ind, inl, inr,
}
use oxibus.Base.Strs.{white_space, trim_after}
use oxibus.Daemon.Policy.Xml.{
  Attributes, XmlToken, until, behind_name, ends_name, past, skip_comment, starts_white, at_end, at,
  skip_byte, skip_white, quote_char, attribute_value, attribute, finish_tag, attributes, close_tag,
  tag, as_tag, markup, tokens, tokenize_xml, is_empty,
}

length-until : (stop : Text → Bool) (s : Text) → length (until stop s).1 ≤ length s
unfolding until
length-until stop [] = omega arith
length-until stop (b ∷ s) = ground (arith, length-until stop s)

length-past : (stop : ℕ) (s : Text) → length (past stop s).1 ≤ length s
unfolding past
length-past stop [] = omega arith
length-past stop (b ∷ s) = ground (arith, length-past stop s)

length-trim_after : (n : ℕ) (s : Text) → length (trim_after n s) ≤ length s
unfolding trim_after
length-trim_after n [] = omega arith
length-trim_after (suc n) (b ∷ s) = omega (arith, length-trim_after n s)
length-trim_after zero (b ∷ s) = by_width (white_space (b ∷ s)) (λ n. length-trim_after n s)
  where
    by_width :
        (w : ℕ)
        → ((n : ℕ) → length (trim_after n s) ≤ length s)
        → length (elim w [ zero ↦ b ∷ s | suc n ↦ trim_after n s ]) ≤ length (b ∷ s)
    by_width zero ih = omega arith
    by_width (suc n) ih = omega (arith, ih n)

length-drop : (n : ℕ) (s : Text) → length (drop n s) ≤ length s
length-drop zero s = omega arith
length-drop (suc n) [] = omega arith
length-drop (suc n) (b ∷ s) = omega (arith, length-drop n s)

length-skip_comment : (s : Text) → length (skip_comment s) ≤ length s
unfolding skip_comment
length-skip_comment [] = omega arith
length-skip_comment (b ∷ s) = ground (arith, length-skip_comment s, length-drop 2 s)

length-skip_byte : (c : ℕ) (s : Text) → length (skip_byte c s) ≤ length s
length-skip_byte c [] = omega arith
length-skip_byte c (b ∷ s) = ground arith

length-quote_char : (s : Text) → length (quote_char s).1 ≤ length s
length-quote_char [] = omega arith
length-quote_char (b ∷ s) = ground arith

length-attribute_value : (s : Text) → length (attribute_value s).1 ≤ length s
unfolding attribute_value skip_white
length-attribute_value s = omega (
  arith,
  length-past (quote_char (skip_white s)).0 (quote_char (skip_white s)).1,
  length-quote_char (skip_white s),
  length-trim_after 0 s,
)

-- Nothing is skipped, or the text gets shorter.
skip_white_cases :
    (s : Text)
    → ((starts_white s ≡ false) × (skip_white s ≡ s)) ⊎ (length (skip_white s) < length s)
unfolding starts_white skip_white trim_after
skip_white_cases [] = inl (refl, refl)
skip_white_cases (b ∷ s) = by_width (white_space (b ∷ s))
  where
    by_width :
        (w : ℕ)
        → ((not (w == 0) ≡ false)
            × (◌≡◌ {A = Text} (elim w [ zero ↦ b ∷ s | suc n ↦ trim_after n s ]) (b ∷ s)))
          ⊎ (length (elim w [ zero ↦ b ∷ s | suc n ↦ trim_after n s ]) < length (b ∷ s))
    by_width zero = inl (refl, refl)
    by_width (suc n) = inr (omega (arith, length-trim_after n s))

length-skip_white : (s : Text) → length (skip_white s) ≤ length s
unfolding skip_white
length-skip_white s = length-trim_after 0 s

at-length : (c : ℕ) (s : Text) → at c s ≡ true → length (drop 1 s) < length s
at-length c [] h = cc
at-length c (b ∷ s) h = omega arith

length-behind_name :
    (name : Text) (attrs : Attributes) (s : Text) → length (behind_name name attrs s).1 ≤ length s
unfolding behind_name
length-behind_name name attrs s = elim (Bool-cases (at b'=' s)) [
  | inl equals ↦
      rw equals (omega (arith, length-attribute_value (drop 1 s), at-length b'=' s equals))
  | inr other ↦ rw other (omega arith)
]

length-behind_name_equals :
    (name : Text) (attrs : Attributes) (s : Text)
    → at b'=' s ≡ true
    → length (behind_name name attrs s).1 < length s
unfolding behind_name
length-behind_name_equals name attrs s h =
    rw h (omega (arith, length-attribute_value (drop 1 s), at-length b'=' s h))

-- A round at a name takes at least a byte.
length-attribute :
    (b : ℕ) (t : Text) (attrs : Attributes)
    → at_end (b ∷ t) ≡ false
    → length (attribute (b ∷ t) attrs).1 < length (b ∷ t)
unfolding attribute until
length-attribute b t attrs h = elim (Bool-cases (ends_name (b ∷ t))) [
  | inl ends ↦ rw ends (elim (skip_white_cases (b ∷ t)) [
    | inl (black, same) ↦
        subst (λ s. length (behind_name [] attrs s).1 < length (b ∷ t)) (sym same)
          (length-behind_name_equals [] attrs (b ∷ t) (equals ends black))
    | inr shorter ↦ omega (arith, length-behind_name [] attrs (skip_white (b ∷ t)))
  ])
  | inr inside ↦ rw inside (
      omega (
        arith,
        length-until ends_name t,
        length-skip_white (until ends_name t).1,
        length-behind_name (b ∷ (until ends_name t).0) attrs (skip_white (until ends_name t).1),
      ))
]
  where
    equals : ends_name (b ∷ t) ≡ true → starts_white (b ∷ t) ≡ false → at b'=' (b ∷ t) ≡ true
    equals e black = ground arith

-- The loop over the attributes ends, and leaves no more text than it was given.
abbrev AttributesEnd : Text → Option (Attributes × Text) → Type 0
AttributesEnd s none = ⊥
AttributesEnd s (some (attrs, rest)) = length rest ≤ length s

attributes_end :
    (f : ℕ) (s : Text) (attrs : Attributes) → length s < f → AttributesEnd s (attributes f s attrs)
unfolding attributes
attributes_end zero s attrs h = absurd (omega arith)
attributes_end (suc f) s attrs h = round (skip_white s) (length-skip_white s) (attributes_end f)
  where
    shorter :
        (s' : Text) (o : Option (Attributes × Text))
        → length s' ≤ length s
        → AttributesEnd s' o
        → AttributesEnd s o
    shorter s' none le e = e
    shorter s' (some (m, rest)) le e = omega arith

    round :
        (s' : Text)
        → length s' ≤ length s
        → ((t : Text) (m : Attributes) → length t < f → AttributesEnd t (attributes f t m))
        → AttributesEnd s (
            if is_empty s' || at_end s'
            then some (attrs, s')
            else attributes f (attribute s' attrs).1 (attribute s' attrs).0)
    round [] le ih = le
    round (b ∷ t) le ih =
        if_ind (AttributesEnd s) (at_end (b ∷ t)) _ _ (λ done. le)
          λ more.
            let less : length (attribute (b ∷ t) attrs).1 < length (b ∷ t) =
              length-attribute b t attrs more in
            shorter (attribute (b ∷ t) attrs).1
              (attributes f (attribute (b ∷ t) attrs).1 (attribute (b ∷ t) attrs).0) (omega arith)
              (ih (attribute (b ∷ t) attrs).1 (attribute (b ∷ t) attrs).0 (omega arith))

length-close_tag : (s : Text) → length (close_tag s).1 ≤ length s
unfolding close_tag
length-close_tag s =
    omega (arith, length-skip_byte b'>' (skip_byte b'/' s), length-skip_byte b'/' s)

abbrev Ends {ℓ} : {A : Type ℓ} → Text → Option (A × Text) → Type 0
Ends s none = ⊥
Ends s (some (a, rest)) = length rest ≤ length s

finish_tag-Ends :
    (name s : Text) (o : Option (Attributes × Text))
    → AttributesEnd s o
    → Ends s (finish_tag name o)
finish_tag-Ends name s none h = h
finish_tag-Ends name s (some (attrs, rest)) h = omega (arith, length-close_tag rest)

Ends-weaken {ℓ} :
    {A : Type ℓ} (s t : Text) (o : Option (A × Text)) → length t ≤ length s → Ends t o → Ends s o
Ends-weaken s t none le h = h
Ends-weaken s t (some (a, rest)) le h = omega arith

tag-Ends : (s : Text) → Ends s (tag s)
unfolding tag
tag-Ends s =
    let name = (until (λ t. starts_white t || at_end t) (skip_byte b'/' s)).0 in
    let rest : Text = (until (λ t. starts_white t || at_end t) (skip_byte b'/' s)).1 in
    let le : length rest ≤ length s = omega (
      arith,
      length-until (λ t. starts_white t || at_end t) (skip_byte b'/' s),
      length-skip_byte b'/' s,
    ) in
    if_ind (Ends s) (at b'/' s) _ _ (λ slash. omega (arith, length-close_tag rest))
      λ no_slash.
        Ends-weaken s rest _ le
          (finish_tag-Ends name rest _ (attributes_end (suc (length rest)) rest [] (omega arith)))

as_tag-Ends : (s : Text) → Ends s (as_tag s)
unfolding as_tag
as_tag-Ends s = by_tag (tag s) (tag-Ends s)
  where
    by_tag :
        (o : Option (XmlToken × Text))
        → Ends s o
        → Ends s (elim o as (λ _. Option (List XmlToken × Text)) [
          | none ↦ none
          | some (token, rest) ↦ some (token ∷ [], rest)
        ])
    by_tag none h = h
    by_tag (some (token, rest)) h = h

markup-Ends : (s : Text) → Ends s (markup s)
unfolding markup
markup-Ends s = elim (Bool-cases (at b'!' s)) [
  | inr plain ↦ rw plain (as_tag-Ends s)
  | inl bang ↦ elim (Bool-cases (at b'-' (drop 1 s))) [
    | inr other ↦ rw (bang, other) (omega (arith, length-past b'>' (drop 1 s), length-drop 1 s))
    | inl dash ↦ elim (Bool-cases (at b'-' (drop 2 s))) [
      | inl comment ↦
          rw (bang, dash, comment) (omega (arith, length-skip_comment (drop 3 s), length-drop 3 s))
      | inr one ↦
          rw (bang, dash, one)
            (Ends-weaken s (drop 2 s) (as_tag (drop 2 s)) (length-drop 2 s)
              (as_tag-Ends (drop 2 s)))
    ]
  ]
]

tokens-ne-none : (f : ℕ) (s : Text) → length s < f → tokens f s ≢ none
unfolding tokens
tokens-ne-none zero s h = absurd (omega arith)
tokens-ne-none (suc f) [] h = λ e. cc
tokens-ne-none (suc f) (b ∷ s) h = elim (Bool-cases (b == b'<')) [
  | inr other ↦ rw other (tokens-ne-none f s (omega arith))
  | inl tagged ↦ rw tagged (by_markup (markup s) (markup-Ends s) (tokens-ne-none f))
]
  where
    by_tokens :
        (here : List XmlToken) (o : Option (List XmlToken))
        → o ≢ none
        → (elim o as (λ _. Option (List XmlToken)) [
          | none ↦ none
          | some later ↦ some (here ++ later)
        ])
          ≢ none
    by_tokens here none h' = λ e. h' refl
    by_tokens here (some later) h' = λ e. cc

    by_markup :
        (o : Option (List XmlToken × Text))
        → Ends s o
        → ((t : Text) → length t < f → tokens f t ≢ none)
        → (elim o as (λ _. Option (List XmlToken)) [
          | none ↦ none
          | some (here, rest) ↦ elim (tokens f rest) [
            | none ↦ none
            | some later ↦ some (here ++ later)
          ]
        ])
          ≢ none
    by_markup none h' ih = absurd h'
    by_markup (some (here, rest)) h' ih = by_tokens here (tokens f rest) (ih rest (omega arith))

-- The tokenizer ends on every text: its loops never run out of fuel, since each round takes a byte.
pub tokenize_xml-ne-none : (xml : Text) → tokenize_xml xml ≢ none
unfolding tokenize_xml
tokenize_xml-ne-none xml = tokens-ne-none (suc (length xml)) xml (omega arith)
