-- ===== src/Daemon/Policy.antt =====
-- crates/oxibus-daemon/src/policy.rs: the rules of the security policy and their evaluation. The files
-- that they are read from are left out.
pub mod Glob
pub mod Verdict
pub mod Xml
pub mod XmlRules
pub mod Denials
use oxibus.Base.{
  ℕ, Bool, true, false, ◌&&◌, ◌||◌, Option, none, some, List, [], ◌∷◌, ◌++◌, Text, codes, any, beq,
  starts_with, ◌==◌, if◌then◌else◌, or_else, none_or, opt_beq,
}
use oxibus.Base.Decimal.{decimal}
use oxibus.Core.Header.{MessageType, to_u8}
use oxibus.Core.Header.Access
use oxibus.Core.Message.{Message}

pub data Context : Type 0 where
  default : Context
  user : Context
  group : Context
  mandatory : Context

pub record FullPattern : Type 0 where
  pub destination : Option Text
  pub interface : Option Text
  pub member : Option Text
  pub path : Option Text
  pub message_type : Option Text

pub data SendReceivePattern : Type 0 where
  destination : Text → SendReceivePattern
  full : FullPattern → SendReceivePattern

pub record PolicyRule : Type 0 where
  pub context : Context
  pub user : Option Text
  pub group : Option Text
  pub allow_own : List Text
  pub deny_own : List Text
  pub allow_send : List SendReceivePattern
  pub deny_send : List SendReceivePattern
  pub allow_receive : List SendReceivePattern
  pub deny_receive : List SendReceivePattern

pub record Identity : Type 0 where
  pub uid : ℕ
  pub user_name : Option Text
  pub group_names : List Text

-- The `rules` of `Policy`.
abbrev pub Policy : Type 0
Policy = List PolicyRule

-- `strip_suffix('*')`
unfoldable pub strip_star : Text → Option Text
strip_star [] = none
strip_star (b ∷ []) = if b == b'*' then some [] else none
strip_star (b ∷ c ∷ s) = elim (strip_star (c ∷ s)) [ none ↦ none | some p ↦ some (b ∷ p) ]

unfoldable pub glob_match : Text → Text → Bool
unfolding beq starts_with strip_star
glob_match pattern' text =
    if beq pattern' (codes "*")
    then true
    else elim (strip_star pattern') [ none ↦ beq pattern' text | some p ↦ starts_with text p ]

-- `message_type() == t`
abbrev pub is_type : MessageType → Message → Bool
unfolding to_u8
is_type t msg = to_u8 msg.header.message_type == to_u8 t

-- `matches_type`
unfoldable pub matches_type : Message → Text → Bool
unfolding beq to_u8
matches_type msg t =
    if beq t (codes "method_call")
    then is_type MessageType.method_call msg
    else if beq t (codes "method_return")
    then is_type MessageType.method_return msg
    else if beq t (codes "signal")
    then is_type MessageType.signal msg
    else if beq t (codes "error")
    then is_type MessageType.error msg
    else true

unfoldable pub matches : SendReceivePattern → Message → Option Text → Bool
unfolding glob_match matches_type beq Access.interface Access.member Access.path
matches (SendReceivePattern.destination pat) msg other_party =
    glob_match pat (or_else [] other_party)
matches (SendReceivePattern.full p) msg other_party =
    none_or p.destination (λ d. glob_match d (or_else [] other_party))
    && none_or p.interface (λ i. opt_beq (Access.interface msg.header) (some i))
    && none_or p.member (λ m. opt_beq (Access.member msg.header) (some m))
    && none_or p.path (λ q. opt_beq (Access.path msg.header) (some q))
    && none_or p.message_type (matches_type msg)

-- The four vectors of `applicable`.
pub record Buckets : Type 0 where
  pub default_rules : List PolicyRule
  pub user_rules : List PolicyRule
  pub group_rules : List PolicyRule
  pub mandatory_rules : List PolicyRule

abbrev pub names_user : Identity → PolicyRule → Bool
unfolding beq decimal
names_user identity rule =
    opt_beq rule.user identity.user_name || opt_beq rule.user (some (decimal identity.uid))

abbrev pub names_group : Identity → PolicyRule → Bool
unfolding beq
names_group identity rule = elim rule.group [
  | none ↦ false
  | some g ↦ any (λ gn. beq gn g) identity.group_names
]

abbrev pub sort_rule_in : Context → Identity → PolicyRule → Buckets → Buckets
sort_rule_in default identity rule b = record b { default_rules = b.default_rules ++ (rule ∷ []) }
sort_rule_in user identity rule b = record b {
  user_rules = if names_user identity rule then b.user_rules ++ (rule ∷ []) else b.user_rules;
}
sort_rule_in group identity rule b = record b {
  group_rules = if names_group identity rule then b.group_rules ++ (rule ∷ []) else b.group_rules;
}
sort_rule_in mandatory identity rule b = record b {
  mandatory_rules = b.mandatory_rules ++ (rule ∷ []);
}

-- The loop of `applicable`.
unfoldable pub sort_rules : Identity → List PolicyRule → Buckets → Buckets
sort_rules identity [] b = b
sort_rules identity (rule ∷ rules) b =
    sort_rules identity rules (sort_rule_in rule.context identity rule b)

abbrev pub no_rules : Buckets
no_rules = record { default_rules = []; user_rules = []; group_rules = []; mandatory_rules = [] }

unfoldable pub applicable : Identity → Policy → List PolicyRule
unfolding sort_rules
applicable identity policy =
    let b = sort_rules identity policy no_rules in
    b.default_rules ++ (b.user_rules ++ (b.group_rules ++ b.mandatory_rules))

-- The loop that `can_own`, `can_send` and `can_receive` share.
unfoldable pub verdict : (PolicyRule → Bool) → (PolicyRule → Bool) → List PolicyRule → Bool → Bool
verdict allows denies [] v = v
verdict allows denies (rule ∷ rules) v =
    let allowed = if allows rule then true else v in
    verdict allows denies rules (if denies rule then false else allowed)

abbrev pub no_rule : Policy → Bool
no_rule [] = true
no_rule (rule ∷ rules) = false

unfoldable pub can_own : Policy → Identity → Text → Bool
unfolding applicable verdict glob_match
can_own policy identity name =
    if no_rule policy
    then true
    else verdict (λ rule. any (λ p. glob_match p name) rule.allow_own)
        (λ rule. any (λ p. glob_match p name) rule.deny_own) (applicable identity policy) false

unfoldable pub can_send : Policy → Identity → Message → Option Text → Bool
unfolding applicable verdict matches
can_send policy identity msg dest =
    if no_rule policy
    then true
    else verdict (λ rule. any (λ p. matches p msg dest) rule.allow_send)
        (λ rule. any (λ p. matches p msg dest) rule.deny_send) (applicable identity policy) false

unfoldable pub can_receive : Policy → Identity → Message → Option Text → Bool
unfolding applicable verdict matches
can_receive policy identity msg sender =
    if no_rule policy
    then true
    else verdict (λ rule. any (λ p. matches p msg sender) rule.allow_receive)
        (λ rule. any (λ p. matches p msg sender) rule.deny_receive) (applicable identity policy)
        false
