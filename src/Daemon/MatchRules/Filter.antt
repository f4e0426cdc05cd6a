-- ===== src/Daemon/MatchRules/Filter.antt =====
-- `MatchRule::matches` of crates/oxibus-daemon/src/match_rules.rs: which messages a rule selects.
use oxibus.Base.{
  ℕ, Bool, false, ◌&&◌, ◌||◌, Option, none, some, [], ◌++◌, Text, codes, beq, starts_with, all,
  if◌then◌else◌, none_or, or_else, some_and, opt_beq,
}
use oxibus.Core.Header.Access
use oxibus.Core.Message.{Message}
use oxibus.Core.Types.{as_str, unwrap_variant, get_value}
use oxibus.Core.Types.Paths.{is_within_namespace}
use oxibus.Daemon.MatchRules.{MatchRule}
use oxibus.Daemon.Policy.{is_type}

unfoldable pub is_path_parent_or_child : Text → Text → Bool
unfolding beq starts_with
is_path_parent_or_child p1 p2 =
    beq p1 p2
    || beq p1 (codes "/")
    || beq p2 (codes "/")
    || starts_with p1 (p2 ++ codes "/")
    || starts_with p2 (p1 ++ codes "/")

unfoldable pub value_as_str : Message → ℕ → Option Text
unfolding get_value unwrap_variant as_str
value_as_str msg idx = elim (get_value msg.body idx) [
  | none ↦ none
  | some v ↦ as_str (unwrap_variant v)
]

-- The owner of a well-known name counts, a unique name is no alias.
unfoldable pub matches_sender : (Text → Option Text) → Message → Text → Bool
unfolding beq starts_with Access.sender
matches_sender resolve_owner msg sender =
    beq (or_else [] (Access.sender msg.header)) sender
    || (if starts_with sender (codes ":")
        then false
        else opt_beq (resolve_owner sender) (some (or_else [] (Access.sender msg.header))))

abbrev pub matches_arg0namespace : Message → Text → Bool
unfolding value_as_str beq starts_with
matches_arg0namespace msg ns =
    some_and (value_as_str msg 0) (λ val. beq val ns || starts_with val (ns ++ codes "."))

-- Each guard that returns false is a test here; the second argument is `resolve_owner`.
unfoldable pub selects : MatchRule → (Text → Option Text) → Message → Bool
unfolding matches_sender beq is_within_namespace value_as_str is_path_parent_or_child
    Access.interface Access.member Access.path Access.destination
selects rule resolve_owner msg =
    none_or rule.message_type (λ t. is_type t msg)
    && none_or rule.sender (matches_sender resolve_owner msg)
    && none_or rule.interface (λ i. opt_beq (Access.interface msg.header) (some i))
    && none_or rule.member (λ m. opt_beq (Access.member msg.header) (some m))
    && none_or rule.path (λ p. opt_beq (Access.path msg.header) (some p))
    && none_or rule.path_namespace
        (λ ns. some_and (Access.path msg.header) (λ p. is_within_namespace p ns))
    && none_or rule.destination (λ d. opt_beq (Access.destination msg.header) (some d))
    && all (λ arg. opt_beq (value_as_str msg arg.0) (some arg.1)) rule.args
    && all (λ arg. some_and (value_as_str msg arg.0) (λ val. is_path_parent_or_child val arg.1))
        rule.arg_paths
    && none_or rule.arg0namespace (matches_arg0namespace msg)
