-- ===== src/Tests/Policy.antt =====
-- The theorems on crates/oxibus-daemon/src/policy.rs and match_rules.rs at concrete inputs.
use oxibus.Base.{
  ◌≡◌, ◌≢◌, ◌↔◌, refl, true, false, none, some, List, [], ◌∷◌, Text, codes, any, ok, out_of_fuel,
  or_else, if◌then◌else◌, beq, arith,
}
use oxibus.Core.Header.{MessageType, HeaderField}
use oxibus.Core.Message.{Message}
use oxibus.Core.Types.{Values}
use oxibus.Daemon.MatchRules.{parse_match_rule, tokenize}
use oxibus.Daemon.MatchRules.RoundTrip.{write_rule, tokenize-write_rule}
use oxibus.Daemon.MatchRules.Total.{parse_match_rule-ne-out_of_fuel}
use oxibus.Daemon.Policy.{
  PolicyRule, Identity, Policy, default, mandatory, glob_match, matches, no_rule, can_own, can_send,
  can_receive,
}
use oxibus.Daemon.Policy.Denials.{is_allow_token, denies_all}
use oxibus.Daemon.Policy.Glob.{Globs, glob_match_iff}
use oxibus.Daemon.Policy.Verdict.{decided, verdicts}
use oxibus.Daemon.Policy.Xml.{XmlToken, start_tag, end_tag, self_closing_tag, tokenize_xml}
use oxibus.Daemon.Policy.Xml.Total.{tokenize_xml-ne-none}
use oxibus.Daemon.Policy.XmlRules.{rules_of}

abbrev pattern : Text
pattern = codes "org.x*"

abbrev name : Text
name = codes "org.x.Y"

glob_match_iff_example : (glob_match pattern name ≡ true) ↔ Globs pattern name
glob_match_iff_example = glob_match_iff pattern name

abbrev xml : Text
xml = codes "<!-- c --><policy context='default'><deny own='*'/></policy>"

tokenize_xml-ne-none_example : tokenize_xml xml ≢ none
tokenize_xml-ne-none_example = tokenize_xml-ne-none xml

abbrev denials : List XmlToken
denials =
    start_tag (codes "policy") ((codes "context", codes "default") ∷ [])
    ∷ self_closing_tag (codes "deny") ((codes "own", codes "*") ∷ [])
    ∷ end_tag (codes "policy")
    ∷ []

abbrev call : Message
call = record {
  header = record {
    big_endian = false;
    message_type = MessageType.method_call;
    flags = 0;
    protocol_version = 1;
    body_length = 0;
    serial = 7;
    fields = HeaderField.destination (codes "x.Y") ∷ [];
  };
  body = Values.nil;
  fds = [];
}

abbrev root : Identity
root = record { uid = 0; user_name = some (codes "root"); group_names = [] }

no_allow : any is_allow_token denials ≡ false
unfolding beq
no_allow = refl

denies_all_example :
    (can_own (rules_of none denials) root name ≡ no_rule (rules_of none denials))
    × (can_send (rules_of none denials) root call none ≡ no_rule (rules_of none denials))
    × (can_receive (rules_of none denials) root call none ≡ no_rule (rules_of none denials))
denies_all_example = denies_all denials root name call none no_allow

abbrev owning : PolicyRule
owning = record {
  context = default;
  user = none;
  group = none;
  allow_own = pattern ∷ [];
  deny_own = [];
  allow_send = [];
  deny_send = [];
  allow_receive = [];
  deny_receive = [];
}

abbrev policy : Policy
policy = owning ∷ record owning { context = mandatory; allow_own = []; deny_own = name ∷ [] } ∷ []

verdicts_example :
    (can_own policy root name ≡ (
      if no_rule policy
      then true
      else or_else false (
          decided
            (λ rule. any (λ p. glob_match p name) rule.allow_own)
            (λ rule. any (λ p. glob_match p name) rule.deny_own)
            root
            policy)))
    × (can_send policy root call none ≡ (
        if no_rule policy
        then true
        else or_else false (
            decided
              (λ rule. any (λ p. matches p call none) rule.allow_send)
              (λ rule. any (λ p. matches p call none) rule.deny_send)
              root
              policy)))
    × (can_receive policy root call none ≡ (
        if no_rule policy
        then true
        else or_else false (
            decided
              (λ rule. any (λ p. matches p call none) rule.allow_receive)
              (λ rule. any (λ p. matches p call none) rule.deny_receive)
              root
              policy)))
verdicts_example = verdicts policy root name call none

abbrev rule_text : Text
rule_text = codes "type='signal',arg3path='/a/b'"

parse_match_rule-ne-out_of_fuel_example : parse_match_rule rule_text ≢ out_of_fuel
parse_match_rule-ne-out_of_fuel_example = parse_match_rule-ne-out_of_fuel rule_text

-- The value has a quote in it.
abbrev pairs : List (Text × Text)
pairs = (b'k' ∷ [], b'a' ∷ 39 ∷ b'b' ∷ []) ∷ (b'l' ∷ [], []) ∷ []

tokenize-write_rule_example : tokenize (write_rule pairs) ≡ ok pairs
tokenize-write_rule_example = tokenize-write_rule pairs (
  ((omega arith, tt), (omega arith, (omega arith, (omega arith, tt)))),
  (((omega arith, tt), tt), tt),
)
