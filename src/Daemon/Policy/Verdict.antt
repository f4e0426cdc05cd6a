-- ===== src/Daemon/Policy/Verdict.antt =====
-- Which rule decides in crates/oxibus-daemon/src/policy.rs.
use oxibus.Base.{
  ◌≡◌, refl, sym, ap, ◌∙◌, Bool, true, false, Option, none, some, List, [], ◌∷◌, ◌++◌, Text,
  append-nil, append_assoc, retain, any, if◌then◌else◌, or_else, first_some, first_some-none,
  first_some_assoc, or_else-first_some,
}
use oxibus.Core.Message.{Message}
use oxibus.Daemon.Policy.{
  Context, default, user, group, mandatory, PolicyRule, Identity, Policy, Buckets, glob_match,
  matches, names_user, names_group, sort_rule_in, sort_rules, no_rules, applicable, verdict,
  no_rule, can_own, can_send, can_receive,
}

-- What one rule says: a denial goes before an allowance.
abbrev pub decision : Bool → Bool → Option Bool
decision allowed true = some false
decision true false = some true
decision false false = none

-- What the last rule with something to say says.
unfoldable pub last_decision :
    (PolicyRule → Bool) → (PolicyRule → Bool) → List PolicyRule → Option Bool
last_decision allows denies [] = none
last_decision allows denies (rule ∷ rules) =
    first_some (last_decision allows denies rules) (decision (allows rule) (denies rule))

abbrev applies_in : Context → Context → Identity → PolicyRule → Bool
applies_in default default identity rule = true
applies_in user user identity rule = names_user identity rule
applies_in group group identity rule = names_group identity rule
applies_in mandatory mandatory identity rule = true
applies_in _ _ identity rule = false

-- The rules of one context that are about the user.
abbrev pub rules_in : Context → Identity → Policy → List PolicyRule
rules_in c identity = retain (λ rule. applies_in c rule.context identity rule)

module _ (allows denies : PolicyRule → Bool) where
  last_decision-append :
      (xs ys : List PolicyRule)
      → last_decision allows denies (xs ++ ys)
        ≡ first_some (last_decision allows denies ys) (last_decision allows denies xs)
  unfolding last_decision
  last_decision-append [] ys = sym (first_some-none (last_decision allows denies ys))
  last_decision-append (x ∷ xs) ys =
      ap (λ o. first_some o (decision (allows x) (denies x))) (last_decision-append xs ys)
      ∙ first_some_assoc (last_decision allows denies ys) (last_decision allows denies xs)
          (decision (allows x) (denies x))

  verdict_lem :
      (rules : List PolicyRule) (v : Bool)
      → verdict allows denies rules v ≡ or_else v (last_decision allows denies rules)
  unfolding verdict last_decision
  verdict_lem [] v = refl
  verdict_lem (rule ∷ rules) v =
      verdict_lem rules (if denies rule then false else if allows rule then true else v)
      ∙ ap (λ w. or_else w (last_decision allows denies rules)) (said (allows rule) (denies rule))
      ∙ sym (
          or_else-first_some v (last_decision allows denies rules)
            (decision (allows rule) (denies rule)))
    where
      said :
          (allowed denied : Bool)
          → (if denied then false else if allowed then true else v)
            ≡ or_else v (decision allowed denied)
      said true true = refl
      said false true = refl
      said true false = refl
      said false false = refl

abbrev with_rules : Identity → List PolicyRule → Buckets → Buckets
with_rules identity rules b = record {
  default_rules = b.default_rules ++ rules_in default identity rules;
  user_rules = b.user_rules ++ rules_in user identity rules;
  group_rules = b.group_rules ++ rules_in group identity rules;
  mandatory_rules = b.mandatory_rules ++ rules_in mandatory identity rules;
}

snoc_if :
    (t : Bool) (rule : PolicyRule) (xs ys : List PolicyRule)
    → (if t then xs ++ (rule ∷ []) else xs) ++ ys ≡ xs ++ (if t then rule ∷ ys else ys)
snoc_if true rule xs ys = append_assoc xs (rule ∷ []) ys
snoc_if false rule xs ys = refl

sort_rule_in_lem :
    (c : Context) (identity : Identity) (rule : PolicyRule) (rules : List PolicyRule) (b : Buckets)
    → with_rules identity rules (sort_rule_in c identity rule b) ≡ record {
      default_rules =
          b.default_rules
          ++ (if applies_in default c identity rule
              then rule ∷ rules_in default identity rules
              else rules_in default identity rules);
      user_rules =
          b.user_rules
          ++ (if applies_in user c identity rule
              then rule ∷ rules_in user identity rules
              else rules_in user identity rules);
      group_rules =
          b.group_rules
          ++ (if applies_in group c identity rule
              then rule ∷ rules_in group identity rules
              else rules_in group identity rules);
      mandatory_rules =
          b.mandatory_rules
          ++ (if applies_in mandatory c identity rule
              then rule ∷ rules_in mandatory identity rules
              else rules_in mandatory identity rules);
    }
sort_rule_in_lem default identity rule rules b = λ i. record {
  default_rules = append_assoc b.default_rules (rule ∷ []) (rules_in default identity rules) i;
  user_rules = b.user_rules ++ rules_in user identity rules;
  group_rules = b.group_rules ++ rules_in group identity rules;
  mandatory_rules = b.mandatory_rules ++ rules_in mandatory identity rules;
}
sort_rule_in_lem user identity rule rules b = λ i. record {
  default_rules = b.default_rules ++ rules_in default identity rules;
  user_rules =
      snoc_if (names_user identity rule) rule b.user_rules (rules_in user identity rules) i;
  group_rules = b.group_rules ++ rules_in group identity rules;
  mandatory_rules = b.mandatory_rules ++ rules_in mandatory identity rules;
}
sort_rule_in_lem group identity rule rules b = λ i. record {
  default_rules = b.default_rules ++ rules_in default identity rules;
  user_rules = b.user_rules ++ rules_in user identity rules;
  group_rules =
      snoc_if (names_group identity rule) rule b.group_rules (rules_in group identity rules) i;
  mandatory_rules = b.mandatory_rules ++ rules_in mandatory identity rules;
}
sort_rule_in_lem mandatory identity rule rules b = λ i. record {
  default_rules = b.default_rules ++ rules_in default identity rules;
  user_rules = b.user_rules ++ rules_in user identity rules;
  group_rules = b.group_rules ++ rules_in group identity rules;
  mandatory_rules =
      append_assoc b.mandatory_rules (rule ∷ []) (rules_in mandatory identity rules) i;
}

sort_rules_lem :
    (identity : Identity) (rules : List PolicyRule) (b : Buckets)
    → sort_rules identity rules b ≡ with_rules identity rules b
unfolding sort_rules
sort_rules_lem identity [] b = λ i. record {
  default_rules = sym (append-nil b.default_rules) i;
  user_rules = sym (append-nil b.user_rules) i;
  group_rules = sym (append-nil b.group_rules) i;
  mandatory_rules = sym (append-nil b.mandatory_rules) i;
}
sort_rules_lem identity (rule ∷ rules) b =
    sort_rules_lem identity rules (sort_rule_in rule.context identity rule b)
    ∙ sort_rule_in_lem rule.context identity rule rules b

pub applicable_lem :
    (identity : Identity) (policy : Policy)
    → applicable identity policy
      ≡ rules_in default identity policy
        ++ (rules_in user identity policy
            ++ (rules_in group identity policy ++ rules_in mandatory identity policy))
unfolding applicable
applicable_lem identity policy =
    ap (λ b. b.default_rules ++ (b.user_rules ++ (b.group_rules ++ b.mandatory_rules)))
      (sort_rules_lem identity policy no_rules)

-- The last word of the mandatory rules that apply, else of the group's, else of the user's, else of
-- the default ones.
abbrev pub decided : (PolicyRule → Bool) → (PolicyRule → Bool) → Identity → Policy → Option Bool
decided allows denies identity policy =
    let last_in = λ (c : Context). last_decision allows denies (rules_in c identity policy) in
    first_some (last_in mandatory)
      (first_some (last_in group) (first_some (last_in user) (last_in default)))

verdict-applicable :
    (allows denies : PolicyRule → Bool) (identity : Identity) (policy : Policy)
    → verdict allows denies (applicable identity policy) false
      ≡ or_else false (decided allows denies identity policy)
verdict-applicable allows denies identity policy =
    verdict_lem allows denies (applicable identity policy) false ∙ ap (or_else false) split
  where
    split :
        last_decision allows denies (applicable identity policy)
        ≡ decided allows denies identity policy
    split = rw applicable_lem (simp (last_decision-append allows denies, first_some_assoc))

-- Owning, sending and receiving are decided alike: all is allowed where there are no rules at all;
-- otherwise the last rule with something to say decides, in the mandatory rules before the group's,
-- the user's and the default ones, a denial before an allowance in one rule, and silence denies.
pub verdicts :
    (policy : Policy) (identity : Identity) (name : Text) (msg : Message) (other : Option Text)
    → (can_own policy identity name ≡ (
        if no_rule policy
        then true
        else or_else false (
            decided
              (λ rule. any (λ p. glob_match p name) rule.allow_own)
              (λ rule. any (λ p. glob_match p name) rule.deny_own)
              identity
              policy)))
      × (can_send policy identity msg other ≡ (
          if no_rule policy
          then true
          else or_else false (
              decided
                (λ rule. any (λ p. matches p msg other) rule.allow_send)
                (λ rule. any (λ p. matches p msg other) rule.deny_send)
                identity
                policy)))
      × (can_receive policy identity msg other ≡ (
          if no_rule policy
          then true
          else or_else false (
              decided
                (λ rule. any (λ p. matches p msg other) rule.allow_receive)
                (λ rule. any (λ p. matches p msg other) rule.deny_receive)
                identity
                policy)))
unfolding can_own can_send can_receive
verdicts policy identity name msg other = (
  ap (λ v. if no_rule policy then true else v) (verdict-applicable _ _ identity policy),
  ap (λ v. if no_rule policy then true else v) (verdict-applicable _ _ identity policy),
  ap (λ v. if no_rule policy then true else v) (verdict-applicable _ _ identity policy),
)
