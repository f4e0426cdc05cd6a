-- ===== src/Daemon/MatchRules.antt =====
-- crates/oxibus-daemon/src/match_rules.rs: the text of a match rule. A text is its bytes.
pub mod Filter
pub mod Tokens
pub mod RoundTrip
pub mod Total
use oxibus.Base.{
  ℕ, zero, suc, ◌+◌, ◌-◌, ◌/◌, ◌%◌, ◌^◌, Bool, true, false, ◌&&◌, ◌||◌, Option, none, some, List,
  [], ◌∷◌, ◌++◌, Text, codes, length, Result, ok, err, out_of_fuel, ◌>>=◌, beq, starts_with, ltb,
  ◌==◌, if◌then◌else◌,
}
use oxibus.Base.Strs.{split_once, parse_uint}
use oxibus.Core.Header.{MessageType}
use oxibus.Core.Names.Errors

pub record MatchRule : Type 0 where
  pub message_type : Option MessageType
  pub sender : Option Text
  pub interface : Option Text
  pub member : Option Text
  pub path : Option Text
  pub path_namespace : Option Text
  pub destination : Option Text
  pub args : List (ℕ × Text)
  pub arg_paths : List (ℕ × Text)
  pub arg0namespace : Option Text
  pub eavesdrop : Bool
  pub raw : Text

-- `MatchRule::default()`, with its `raw`.
abbrev pub default_rule : Text → MatchRule
default_rule raw = record {
  message_type = none;
  sender = none;
  interface = none;
  member = none;
  path = none;
  path_namespace = none;
  destination = none;
  args = [];
  arg_paths = [];
  arg0namespace = none;
  eavesdrop = false;
  raw = raw;
}

-- `value.push(byte as char)`: a byte from 128 on becomes the two bytes of its code point.
abbrev pub byte_as_char : ℕ → Text
byte_as_char b = if ltb b 128 then b ∷ [] else (0xC0 + b / 64) ∷ (0x80 + b % 64) ∷ []

abbrev pub quote : ℕ
quote = 39

abbrev pub backslash : ℕ
backslash = 92

-- What a quote inside a value is: its end, the start of an escaped quote, or neither.
pub data Closing : Type 0 where
  ends escaped malformed : Closing

unfoldable pub closing : Text → Closing
closing [] = ends
closing (b ∷ []) = ends
closing (b ∷ c ∷ []) = if b == backslash && c == quote then malformed else ends
closing (b ∷ c ∷ d ∷ s) =
    if b == backslash && c == quote then (if d == quote then escaped else malformed) else ends

abbrev pub push_value : Text → Result Text (Text × Text) → Result Text (Text × Text)
push_value c (ok (value, rest)) = ok (c ++ value, rest)
push_value c (err e) = err e
push_value c out_of_fuel = out_of_fuel

-- The loop over a value behind its first quote; the number counts the bytes left of an escape.
unfoldable pub read_value : ℕ → Text → Result Text (Text × Text)
unfolding closing
read_value n [] = err (codes "unterminated quoted value in match rule")
read_value (suc n) (b ∷ s) = read_value n s
read_value zero (b ∷ s) = elim (b == quote) [
  | false ↦ push_value (byte_as_char b) (read_value 0 s)
  | true ↦ elim (closing s) [
    | Closing.ends ↦ ok ([], s)
    | Closing.escaped ↦ push_value (quote ∷ []) (read_value 3 s)
    | Closing.malformed ↦ err (codes "malformed escaped quote in match rule")
  ]
]

unfoldable pub quoted_value : Text → Result Text (Text × Text)
unfolding read_value
quoted_value [] = err (codes "match rule value must be single-quoted")
quoted_value (b ∷ s) =
    if b == quote then read_value 0 s else err (codes "match rule value must be single-quoted")

abbrev pub skip_comma : Text → Text
skip_comma [] = []
skip_comma (b ∷ s) = if b == b',' then s else b ∷ s

abbrev pub push_pair :
    Text × Text → Result Text (List (Text × Text)) → Result Text (List (Text × Text))
push_pair pair (ok later) = ok (pair ∷ later)
push_pair pair (err e) = err e
push_pair pair out_of_fuel = out_of_fuel

-- Each round takes a byte.
unfoldable pub tokens : ℕ → Text → Result Text (List (Text × Text))
unfolding split_once quoted_value
tokens zero s = out_of_fuel
tokens (suc f) [] = ok []
tokens (suc f) (b ∷ s) = elim (split_once b'=' (b ∷ s)) [
  | none ↦ err (codes "match rule missing '=' after key")
  | some (key, behind) ↦
      quoted_value behind >>= λ r. push_pair (key, r.0) (tokens f (skip_comma r.1))
]

unfoldable pub tokenize : Text → Result Text (List (Text × Text))
unfolding tokens
tokenize s = tokens (suc (length s)) s

abbrev pub message_type_of : Text → Result Text MessageType
unfolding beq
message_type_of value =
    if beq value (codes "signal")
    then ok MessageType.signal
    else if beq value (codes "method_call")
    then ok MessageType.method_call
    else if beq value (codes "method_return")
    then ok MessageType.method_return
    else if beq value (codes "error")
    then ok MessageType.error
    else err (codes "invalid match rule type '" ++ (value ++ codes "'"))

-- `ends_with("path")`
abbrev pub ends_with_path : Text → Bool
unfolding beq
ends_with_path [] = false
ends_with_path (b ∷ s) = beq (b ∷ s) (codes "path") || ends_with_path s

-- `trim_start_matches("arg")`
unfoldable pub trim_arg : Text → Text
trim_arg (b ∷ c ∷ d ∷ s) = elim (b == b'a' && c == b'r' && d == b'g') [
  | true ↦ trim_arg s
  | false ↦ b ∷ c ∷ d ∷ s
]
trim_arg s = s

abbrev pub only_paths : Text → Bool
only_paths [] = true
only_paths (b ∷ c ∷ d ∷ e ∷ s) = (b == b'p' && c == b'a' && d == b't' && e == b'h') && only_paths s
only_paths s = false

-- `trim_end_matches("path")`: the text before the longest repetition of it at the end.
unfoldable pub trim_path : Text → Text
trim_path [] = []
trim_path (b ∷ s) = let rest = trim_path s in if only_paths (b ∷ s) then [] else b ∷ rest

-- `idx_str.parse()` as `usize`, and the bound.
unfoldable pub arg_index : Text → Text → Result Text ℕ
unfolding parse_uint
arg_index key idx_str = elim (parse_uint (2 ^ 64) idx_str) [
  | none ↦ err (codes "invalid match rule key '" ++ (key ++ codes "'"))
  | some idx ↦ if ltb 63 idx then err (codes "arg index must be 0..63") else ok idx
]

unfoldable pub arg_key : Text → Text → MatchRule → Result Text MatchRule
unfolding trim_arg trim_path arg_index
arg_key key value rule =
    if ends_with_path key
    then (arg_index key (trim_path (trim_arg key)) >>= λ idx.
        ok (record rule { arg_paths = rule.arg_paths ++ ((idx, value) ∷ []) }))
    else arg_index key (trim_arg key) >>= λ idx.
        ok (record rule { args = rule.args ++ ((idx, value) ∷ []) })

-- The keys of `parse_match_rule` that set a field to their value.
unfoldable pub text_key : Text → Text → MatchRule → Option MatchRule
unfolding beq
text_key key value rule =
    if beq key (codes "sender")
    then some (record rule { sender = some value })
    else if beq key (codes "interface")
    then some (record rule { interface = some value })
    else if beq key (codes "member")
    then some (record rule { member = some value })
    else if beq key (codes "path")
    then some (record rule { path = some value })
    else if beq key (codes "path_namespace")
    then some (record rule { path_namespace = some value })
    else if beq key (codes "destination")
    then some (record rule { destination = some value })
    else if beq key (codes "eavesdrop")
    then some (record rule { eavesdrop = beq value (codes "true") })
    else if beq key (codes "arg0namespace")
    then some (record rule { arg0namespace = some value })
    else none

-- One round of the loop of `parse_match_rule`.
unfoldable pub rule_key : Text → Text → MatchRule → Result Text MatchRule
unfolding beq starts_with arg_key text_key
rule_key key value rule =
    if beq key (codes "type")
    then (message_type_of value >>= λ t. ok (record rule { message_type = some t }))
    else elim (text_key key value rule) [
      | some rule' ↦ ok rule'
      | none ↦
          if starts_with key (codes "arg")
          then arg_key key value rule
          else err (codes "unknown match rule key '" ++ (key ++ codes "'"))
    ]

unfoldable pub rule_keys : List (Text × Text) → MatchRule → Result Text MatchRule
unfolding rule_key
rule_keys [] rule = ok rule
rule_keys ((key, value) ∷ pairs) rule = rule_key key value rule >>= λ rule'. rule_keys pairs rule'

unfoldable pub parse_match_rule : Text → Result Text MatchRule
unfolding tokenize rule_keys
parse_match_rule s = tokenize s >>= λ pairs. rule_keys pairs (default_rule s)

unfoldable pub validate_rule_string : Text → Result Text (Unit {0})
validate_rule_string s = if ltb 4096 (length s) then err Errors.match_rule_invalid else ok tt
