-- ===== src/Daemon/Policy/XmlRules.antt =====
-- `parse_xml_policy` of crates/oxibus-daemon/src/policy.rs: the rules that the elements of a
-- configuration in XML give.
use oxibus.Base.{
  Bool, true, false, not, ◌&&◌, ◌||◌, Option, none, some, List, [], ◌∷◌, ◌++◌, Text, codes, beq,
  if◌then◌else◌, first_some, present,
}
use oxibus.Base.Assoc.{lookup}
use oxibus.Daemon.Policy.{
  Context, default, user, group, mandatory, SendReceivePattern, full, PolicyRule,
}
use oxibus.Daemon.Policy.Xml.{
  Attributes, XmlToken, start_tag, end_tag, self_closing_tag, tokenize_xml,
}

-- `current_policy_context`
pub record Scope : Type 0 where
  pub context : Context
  pub user : Option Text
  pub group : Option Text

unfoldable pub policy_scope : Attributes → Scope
unfolding beq lookup
policy_scope attrs = elim (lookup (codes "context") attrs) [
  | some c ↦ record {
    context = if beq c (codes "mandatory") then mandatory else default;
    user = none;
    group = none;
  }
  | none ↦ elim (lookup (codes "user") attrs) [
    | some u ↦ record { context = user; user = some u; group = none }
    | none ↦ elim (lookup (codes "group") attrs) [
      | some g ↦ record { context = group; user = none; group = some g }
      | none ↦ record { context = default; user = none; group = none }
    ]
  ]
]

abbrev pub starred : Option Text → Option Text
starred none = none
starred (some p) = some (p ++ codes "*")

abbrev pub to_list {ℓ} : {A : Type ℓ} → Option A → List A
to_list none = []
to_list (some a) = a ∷ []

unfoldable pub own_patterns : Attributes → List Text
unfolding lookup
own_patterns attrs =
    to_list (first_some (lookup (codes "own") attrs) (starred (lookup (codes "own_prefix") attrs)))

-- The pattern for messages, if one of its attributes is there.
abbrev pub message_patterns :
    Option Text
    → Option Text
    → Option Text
    → Option Text
    → Option Text
    → Option Text
    → List SendReceivePattern
message_patterns party prefix interface member path message_type =
    if present party
      || present prefix
      || present interface
      || present member
      || present path
      || present message_type
    then full (record {
      destination = first_some party (starred prefix);
      interface = interface;
      member = member;
      path = path;
      message_type = message_type;
    })
      ∷ []
    else []

unfoldable pub send_patterns : Attributes → List SendReceivePattern
unfolding lookup
send_patterns attrs =
    message_patterns (lookup (codes "send_destination") attrs)
      (lookup (codes "send_destination_prefix") attrs) (lookup (codes "send_interface") attrs)
      (lookup (codes "send_member") attrs) (lookup (codes "send_path") attrs)
      (lookup (codes "send_type") attrs)

unfoldable pub receive_patterns : Attributes → List SendReceivePattern
unfolding lookup
receive_patterns attrs =
    message_patterns (lookup (codes "recv_sender") attrs)
      (lookup (codes "recv_sender_prefix") attrs) (lookup (codes "recv_interface") attrs)
      (lookup (codes "recv_member") attrs) (lookup (codes "recv_path") attrs)
      (lookup (codes "recv_type") attrs)

abbrev pub none_there {ℓ} : {A : Type ℓ} → List A → Bool
none_there [] = true
none_there (x ∷ xs) = false

abbrev pub when {ℓ} : {A : Type ℓ} → Bool → List A → List A
when true xs = xs
when false xs = []

-- The rule of an `allow` or `deny` element: none if no attribute of it applies.
unfoldable pub element_rules : Bool → Scope → Attributes → List PolicyRule
unfolding own_patterns send_patterns receive_patterns
element_rules is_allow scope attrs =
    let own = own_patterns attrs in
    let sends = send_patterns attrs in
    let receives = receive_patterns attrs in
    if none_there own && none_there sends && none_there receives
    then []
    else record {
      context = scope.context;
      user = scope.user;
      group = scope.group;
      allow_own = when is_allow own;
      deny_own = when (not is_allow) own;
      allow_send = when is_allow sends;
      deny_send = when (not is_allow) sends;
      allow_receive = when is_allow receives;
      deny_receive = when (not is_allow) receives;
    }
      ∷ []

abbrev pub is_element : Text → Bool
unfolding beq
is_element name = beq name (codes "allow") || beq name (codes "deny")

-- An `allow` or `deny` element counts only inside a policy.
unfoldable pub scoped_rules : Option Scope → Text → Attributes → List PolicyRule
unfolding beq element_rules
scoped_rules none name attrs = []
scoped_rules (some scope) name attrs =
    if is_element name then element_rules (beq name (codes "allow")) scope attrs else []

-- The loop over the tokens; the argument is `current_policy_context`.
unfoldable pub rules_of : Option Scope → List XmlToken → List PolicyRule
unfolding beq scoped_rules policy_scope
rules_of scope [] = []
rules_of scope (start_tag name attrs ∷ tokens) =
    let is_policy = beq name (codes "policy") in
    let later = rules_of (if is_policy then some (policy_scope attrs) else scope) tokens in
    if is_policy then later else scoped_rules scope name attrs ++ later
rules_of scope (end_tag name ∷ tokens) =
    rules_of (if beq name (codes "policy") then none else scope) tokens
rules_of scope (self_closing_tag name attrs ∷ tokens) =
    let later = rules_of scope tokens in scoped_rules scope name attrs ++ later

unfoldable pub parse_xml_policy : Text → Option (List PolicyRule)
unfolding tokenize_xml rules_of
parse_xml_policy xml = elim (tokenize_xml xml) [
  | none ↦ none
  | some tokens ↦ some (rules_of none tokens)
]
