-- ===== src/Daemon/MatchRules/Tokens.antt =====
-- `tokenize` of crates/oxibus-daemon/src/match_rules.rs ends on every text, and reads back what is
-- written in its quoting.
use oxibus.Base.{
  ℕ, zero, suc, ◌≤◌, ◌<◌, ◌≡◌, ◌≢◌, refl, Bool, true, false, Option, none, some, List, [], ◌∷◌,
  Text, codes, length, Result, ok, err, out_of_fuel, ◌>>=◌, ◌==◌, if◌then◌else◌, arith, Bool-cases,
  inl, inr,
}
use oxibus.Base.Strs.{split_once}
use oxibus.Daemon.MatchRules.{
  Closing, closing, quote, byte_as_char, push_value, push_pair, read_value, quoted_value,
  skip_comma, tokens, tokenize,
}

abbrev NoLonger : Text → Result Text (Text × Text) → Type 0
NoLonger s (ok (value, rest)) = length rest ≤ length s
NoLonger s (err e) = Unit {0}
NoLonger s out_of_fuel = ⊥

push_value-NoLonger :
    (c s t : Text) (r : Result Text (Text × Text))
    → length s ≤ length t
    → NoLonger s r
    → NoLonger t (push_value c r)
push_value-NoLonger c s t (ok (value, rest)) le h = omega arith
push_value-NoLonger c s t (err e) le h = tt
push_value-NoLonger c s t out_of_fuel le h = h

weaken :
    (s t : Text) (r : Result Text (Text × Text)) → length s ≤ length t → NoLonger s r → NoLonger t r
weaken s t (ok (value, rest)) le h = omega arith
weaken s t (err e) le h = tt
weaken s t out_of_fuel le h = h

read_value-NoLonger : (n : ℕ) (s : Text) → NoLonger s (read_value n s)
unfolding read_value
read_value-NoLonger n [] = tt
read_value-NoLonger (suc n) (b ∷ s) =
    weaken s (b ∷ s) (read_value n s) (omega arith) (read_value-NoLonger n s)
read_value-NoLonger zero (b ∷ s) =
    by_byte (b == quote) (closing s) (read_value-NoLonger 0 s) (read_value-NoLonger 3 s)
  where
    by_byte :
        (t : Bool) (c : Closing)
        → NoLonger s (read_value 0 s)
        → NoLonger s (read_value 3 s)
        → NoLonger (b ∷ s) (elim t as (λ _. Result Text (Text × Text)) [
          | false ↦ push_value (byte_as_char b) (read_value 0 s)
          | true ↦ elim c as (λ _. Result Text (Text × Text)) [
            | Closing.ends ↦ ok ([], s)
            | Closing.escaped ↦ push_value (quote ∷ []) (read_value 3 s)
            | Closing.malformed ↦ err (codes "malformed escaped quote in match rule")
          ]
        ])
    by_byte false c h0 h3 =
        push_value-NoLonger (byte_as_char b) s (b ∷ s) (read_value 0 s) (omega arith) h0
    by_byte true Closing.ends h0 h3 = omega arith
    by_byte true Closing.escaped h0 h3 =
        push_value-NoLonger (quote ∷ []) s (b ∷ s) (read_value 3 s) (omega arith) h3
    by_byte true Closing.malformed h0 h3 = tt

quoted_value-NoLonger : (s : Text) → NoLonger s (quoted_value s)
unfolding quoted_value
quoted_value-NoLonger [] = tt
quoted_value-NoLonger (b ∷ s) = elim (Bool-cases (b == quote)) [
  | inl q ↦ rw q (weaken s (b ∷ s) (read_value 0 s) (omega arith) (read_value-NoLonger 0 s))
  | inr other ↦ rw other tt
]

length-skip_comma : (s : Text) → length (skip_comma s) ≤ length s
length-skip_comma [] = omega arith
length-skip_comma (b ∷ s) = ground arith

length-split_once :
    (c : ℕ) (s front back : Text) → split_once c s ≡ some (front, back) → length back < length s
unfolding split_once
length-split_once c [] front back h = cc
length-split_once c (b ∷ s) front back h =
    by_rest (b == c) (split_once c s) (length-split_once c s) h
  where
    by_rest :
        (t : Bool) (o : Option (Text × Text))
        → ((front back : Text) → o ≡ some (front, back) → length back < length s)
        → (if t then some ([], s) else elim o as (λ _. Option (Text × Text)) [
          | none ↦ none
          | some (front, back) ↦ some (b ∷ front, back)
        ])
          ≡ some (front, back)
        → length back < length (b ∷ s)
    by_rest true o ih e = let same : s ≡ back = cc in ground arith
    by_rest false none ih e = cc
    by_rest false (some (f, k)) ih e =
        let same : k ≡ back = cc in let less : length k < length s = ih f k refl in ground arith

tokens-ne-out_of_fuel : (f : ℕ) (s : Text) → length s < f → tokens f s ≢ out_of_fuel
unfolding tokens
tokens-ne-out_of_fuel zero s h = absurd (omega arith)
tokens-ne-out_of_fuel (suc f) [] h = λ e. cc
tokens-ne-out_of_fuel (suc f) (b ∷ s) h =
    by_key (split_once b'=' (b ∷ s)) (length-split_once b'=' (b ∷ s)) (tokens-ne-out_of_fuel f)
  where
    by_later :
        (pair : Text × Text) (r : Result Text (List (Text × Text)))
        → r ≢ out_of_fuel
        → push_pair pair r ≢ out_of_fuel
    by_later pair (ok later) g = λ e. cc
    by_later pair (err x) g = λ e. cc
    by_later pair out_of_fuel g = λ e. g refl

    by_value :
        (key behind : Text) (r : Result Text (Text × Text))
        → NoLonger behind r
        → length behind < suc (length s)
        → ((t : Text) → length t < f → tokens f t ≢ out_of_fuel)
        → (r >>= λ r. push_pair (key, r.0) (tokens f (skip_comma r.1))) ≢ out_of_fuel
    by_value key behind (ok (value, rest)) le less ih =
        by_later (key, value) (tokens f (skip_comma rest))
          (ih (skip_comma rest) (omega (arith, length-skip_comma rest)))
    by_value key behind (err x) le less ih = λ e. cc
    by_value key behind out_of_fuel le less ih = absurd le

    by_key :
        (o : Option (Text × Text))
        → ((front back : Text) → o ≡ some (front, back) → length back < length (b ∷ s))
        → ((t : Text) → length t < f → tokens f t ≢ out_of_fuel)
        → (elim o as (λ _. Result Text (List (Text × Text))) [
          | none ↦ err (codes "match rule missing '=' after key")
          | some (key, behind) ↦
              quoted_value behind >>= λ r. push_pair (key, r.0) (tokens f (skip_comma r.1))
        ])
          ≢ out_of_fuel
    by_key none less ih = λ e. cc
    by_key (some (key, behind)) less ih =
        by_value key behind (quoted_value behind) (quoted_value-NoLonger behind)
          (less key behind refl) ih

-- The tokenizer ends on every text: each round takes a byte.
pub tokenize-ne-out_of_fuel : (s : Text) → tokenize s ≢ out_of_fuel
unfolding tokenize
tokenize-ne-out_of_fuel s = tokens-ne-out_of_fuel (suc (length s)) s (omega arith)
