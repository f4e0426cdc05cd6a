-- ===== src/Daemon/MatchRules/RoundTrip.antt =====
-- `tokenize` of crates/oxibus-daemon/src/match_rules.rs reads back what is written in its quoting.
use oxibus.Base.{
  ℕ, zero, suc, ◌≤◌, ◌<◌, ◌≡◌, ◌≢◌, ◌⊎◌, refl, ap, ◌∙◌, true, false, some, List, [], ◌∷◌, ◌++◌,
  Text, All, length, ok, ◌>>=◌, ltb, ◌==◌, if◌then◌else◌, arith, Bool-cases, inl, inr,
  length-append,
}
use oxibus.Base.Strs.{split_once, split_once-append}
use oxibus.Daemon.MatchRules.{
  Closing, closing, quote, backslash, push_value, push_pair, read_value, quoted_value, skip_comma,
  tokens, tokenize,
}

-- A value as it stands between its quotes: each quote in it as `'\''`.
abbrev pub quoted : Text → Text
quoted [] = []
quoted (b ∷ s) = if b == quote then quote ∷ backslash ∷ quote ∷ quote ∷ quoted s else b ∷ quoted s

abbrev pub with_comma : Text → Text
with_comma [] = []
with_comma (b ∷ s) = b',' ∷ b ∷ s

-- Keys and values, with a comma between two pairs.
unfoldable pub write_rule : List (Text × Text) → Text
write_rule [] = []
write_rule ((key, value) ∷ pairs) =
    key ++ (b'=' ∷ quote ∷ (quoted value ++ (quote ∷ with_comma (write_rule pairs))))

abbrev pub IsPlain : Text × Text → Type 0
IsPlain (key, value) = All (λ b. b ≢ b'=') key × All (λ b. b < 128) value

read_value-quoted :
    (value rest : Text)
    → All (λ b. b < 128) value
    → closing rest ≡ Closing.ends
    → read_value 0 (quoted value ++ (quote ∷ rest)) ≡ ok (value, rest)
unfolding read_value
read_value-quoted [] rest h e = rw (e, read_value) refl
read_value-quoted (b ∷ value) rest (small, h) e =
    by_byte (read_value-quoted value rest h e) (Bool-cases (b == quote))
  where
    plain :
        b == quote ≡ false
        → ltb b 128 ≡ true
        → read_value 0 (b ∷ (quoted value ++ (quote ∷ rest)))
          ≡ push_value (b ∷ []) (read_value 0 (quoted value ++ (quote ∷ rest)))
    plain other ascii = rw (other, ascii, read_value) refl

    by_byte :
        read_value 0 (quoted value ++ (quote ∷ rest)) ≡ ok (value, rest)
        → (b == quote ≡ true) ⊎ (b == quote ≡ false)
        → read_value 0 (quoted (b ∷ value) ++ (quote ∷ rest)) ≡ ok (b ∷ value, rest)
    by_byte ih (inl q) =
        let same : quote ≡ b = ground arith in
        rw q (ap (push_value (quote ∷ [])) ih ∙ ap (λ c. ok (c ∷ value, rest)) same)
    by_byte ih (inr other) = rw other (plain other (ground arith) ∙ ap (push_value (b ∷ [])) ih)

closing-with_comma : (s : Text) → closing (with_comma s) ≡ Closing.ends
unfolding closing
closing-with_comma [] = refl
closing-with_comma (b ∷ []) = refl
closing-with_comma (b ∷ c ∷ s) = refl

skip_comma-with_comma : (s : Text) → skip_comma (with_comma s) ≡ s
skip_comma-with_comma [] = refl
skip_comma-with_comma (b ∷ s) = refl

-- A round of the tokenizer at a text with `=` in it.
tokens_round :
    (f : ℕ) (s key behind : Text)
    → split_once b'=' s ≡ some (key, behind)
    → tokens (suc f) s
      ≡ (quoted_value behind >>= λ r. push_pair (key, r.0) (tokens f (skip_comma r.1)))
tokens_round f [] key behind h = absurd_none h
  where
    absurd_none :
        split_once b'=' [] ≡ some (key, behind)
        → tokens (suc f) []
          ≡ (quoted_value behind >>= λ r. push_pair (key, r.0) (tokens f (skip_comma r.1)))
    absurd_none e = unfold split_once in cc
tokens_round f (b ∷ s) key behind h = unfold tokens in rw (h, tokens) refl

quoted_value-quoted :
    (value rest : Text)
    → All (λ b. b < 128) value
    → closing rest ≡ Closing.ends
    → quoted_value (quote ∷ (quoted value ++ (quote ∷ rest))) ≡ ok (value, rest)
unfolding quoted_value
quoted_value-quoted value rest h e = read_value-quoted value rest h e

tokens-write_rule :
    (f : ℕ) (pairs : List (Text × Text))
    → length pairs < f
    → All IsPlain pairs
    → tokens f (write_rule pairs) ≡ ok pairs
unfolding write_rule
tokens-write_rule zero pairs less h = absurd (omega arith)
tokens-write_rule (suc f) [] less h = unfold tokens in refl
tokens-write_rule (suc f) ((key, value) ∷ pairs) less ((plain_key, ascii), h) =
    by_later (tokens-write_rule f pairs (omega arith) h)
  where
    behind : Text
    behind = quote ∷ (quoted value ++ (quote ∷ with_comma (write_rule pairs)))

    by_later :
        tokens f (write_rule pairs) ≡ ok pairs
        → tokens
            (suc f)
            (key ++ (b'=' ∷ (quote ∷ (quoted value ++ (quote ∷ with_comma (write_rule pairs))))))
          ≡ ok ((key, value) ∷ pairs)
    by_later ih =
        tokens_round f (key ++ (b'=' ∷ behind)) key behind
          (split_once-append b'=' key behind plain_key)
        ∙ ap (λ r. r >>= λ r. push_pair (key, r.0) (tokens f (skip_comma r.1)))
            (quoted_value-quoted value (with_comma (write_rule pairs)) ascii
              (closing-with_comma (write_rule pairs)))
        ∙ ap (λ s. push_pair (key, value) (tokens f s)) (skip_comma-with_comma (write_rule pairs))
        ∙ ap (push_pair (key, value)) ih

length-write_rule : (pairs : List (Text × Text)) → length pairs ≤ length (write_rule pairs)
unfolding write_rule
length-write_rule [] = omega arith
length-write_rule ((key, value) ∷ pairs) = omega (
  arith,
  length-write_rule pairs,
  length-append {0} key (b'=' ∷ quote ∷ (quoted value ++ (quote ∷ with_comma (write_rule pairs)))),
  length-append {0} (quoted value) (quote ∷ with_comma (write_rule pairs)),
  length-with_comma (write_rule pairs),
)
  where
    length-with_comma : (s : Text) → length s ≤ length (with_comma s)
    length-with_comma [] = omega arith
    length-with_comma (b ∷ s) = omega arith

-- The pairs of a rule, written with a comma between them and each quote in a value as `'\''`, are read
-- back, if no key has an `=` and the values are ASCII.
pub tokenize-write_rule :
    (pairs : List (Text × Text)) → All IsPlain pairs → tokenize (write_rule pairs) ≡ ok pairs
unfolding tokenize
tokenize-write_rule pairs h =
    tokens-write_rule (suc (length (write_rule pairs))) pairs
      (omega (arith, length-write_rule pairs)) h
