-- ===== src/Daemon/MatchRules/Total.antt =====
-- `parse_match_rule` of crates/oxibus-daemon/src/match_rules.rs ends on every text.
use oxibus.Base.{
  ◌≢◌, refl, Option, none, some, List, [], ◌∷◌, ◌++◌, Text, codes, beq, starts_with, if◌then◌else◌,
  if_ind, Result, ok, err, out_of_fuel, ◌>>=◌, arith, Bool-cases, inl, inr,
}
use oxibus.Daemon.MatchRules.{
  MatchRule, message_type_of, arg_index, arg_key, text_key, rule_key, rule_keys, tokenize,
  parse_match_rule, ends_with_path, trim_arg, trim_path, default_rule,
}
use oxibus.Daemon.MatchRules.Tokens.{tokenize-ne-out_of_fuel}

bind-ne-out_of_fuel {ℓ κ} :
    {A : Type ℓ} {B : Type κ} (m : Result Text A) (f : A → Result Text B)
    → m ≢ out_of_fuel
    → ((a : A) → f a ≢ out_of_fuel)
    → (m >>= f) ≢ out_of_fuel
bind-ne-out_of_fuel (ok a) f h k = k a
bind-ne-out_of_fuel (err e) f h k = λ e. cc
bind-ne-out_of_fuel out_of_fuel f h k = λ e. h refl

message_type_of-ne-out_of_fuel : (value : Text) → message_type_of value ≢ out_of_fuel
unfolding message_type_of
message_type_of-ne-out_of_fuel value = ground arith

arg_index-ne-out_of_fuel : (key idx_str : Text) → arg_index key idx_str ≢ out_of_fuel
unfolding arg_index
arg_index-ne-out_of_fuel key idx_str = ground arith

arg_key-ne-out_of_fuel :
    (key value : Text) (rule : MatchRule) → arg_key key value rule ≢ out_of_fuel
unfolding arg_key
arg_key-ne-out_of_fuel key value rule =
    if_ind (λ r. r ≢ out_of_fuel) (ends_with_path key) _ _
      (λ _.
        bind-ne-out_of_fuel _ _ (arg_index-ne-out_of_fuel key (trim_path (trim_arg key)))
          (λ idx e. cc))
      (λ _. bind-ne-out_of_fuel _ _ (arg_index-ne-out_of_fuel key (trim_arg key)) (λ idx e. cc))

rule_key-ne-out_of_fuel :
    (key value : Text) (rule : MatchRule) → rule_key key value rule ≢ out_of_fuel
unfolding rule_key
rule_key-ne-out_of_fuel key value rule = elim (Bool-cases (beq key (codes "type"))) [
  | inl is_type ↦
      rw is_type (bind-ne-out_of_fuel _ _ (message_type_of-ne-out_of_fuel value) (λ t e. cc))
  | inr other ↦ rw other (by_field (text_key key value rule))
]
  where
    by_field :
        (o : Option MatchRule)
        → (elim o as (λ _. Result Text MatchRule) [
          | some rule' ↦ ok rule'
          | none ↦
              if starts_with key (codes "arg")
              then arg_key key value rule
              else err (codes "unknown match rule key '" ++ (key ++ codes "'"))
        ])
          ≢ out_of_fuel
    by_field (some rule') = λ e. cc
    by_field none =
        if_ind (λ r. r ≢ out_of_fuel) (starts_with key (codes "arg")) _ _
          (λ _. arg_key-ne-out_of_fuel key value rule) (λ _ e. cc)

rule_keys-ne-out_of_fuel :
    (pairs : List (Text × Text)) (rule : MatchRule) → rule_keys pairs rule ≢ out_of_fuel
unfolding rule_keys
rule_keys-ne-out_of_fuel [] rule = λ e. cc
rule_keys-ne-out_of_fuel ((key, value) ∷ pairs) rule =
    bind-ne-out_of_fuel (rule_key key value rule) (rule_keys pairs)
      (rule_key-ne-out_of_fuel key value rule) (rule_keys-ne-out_of_fuel pairs)

-- The parser of match rules ends on every text, with a rule or an error.
pub parse_match_rule-ne-out_of_fuel : (s : Text) → parse_match_rule s ≢ out_of_fuel
unfolding parse_match_rule
parse_match_rule-ne-out_of_fuel s =
    bind-ne-out_of_fuel (tokenize s) (λ pairs. rule_keys pairs (default_rule s))
      (tokenize-ne-out_of_fuel s) (λ pairs. rule_keys-ne-out_of_fuel pairs (default_rule s))
