-- ===== src/Daemon/Dispatch/Interfaces.antt =====
-- `handle_side_interface` of crates/oxibus-daemon/src/dispatch.rs: the other interfaces of the bus.
use oxibus.Base.{
  ℕ, ◌%◌, ◌^◌, true, Option, none, some, List, [], ◌∷◌, ◌++◌, Text, codes, length, Result, ok, err,
  out_of_fuel, beq, if◌then◌else◌,
}
use oxibus.Core.Names.Errors
use oxibus.Core.Names.WellKnown
use oxibus.Core.Types.{DType, Value, Values, as_str, get_value}
use oxibus.Daemon.Bus.{Bus, World, guid, update_entry}
use oxibus.Daemon.Dispatch.Introspection.{driver_introspection_xml}
use oxibus.Daemon.Driver.{DriverOutcome, answer, refuse, one}
use oxibus.Daemon.Driver.Queries.{resolve_connection, pid_of, entry_of_u32, elements_of}
use oxibus.Daemon.Driver.Arguments.{driver_error}
use oxibus.Daemon.MatchRules.{MatchRule, default_rule, parse_match_rule}
use oxibus.Daemon.Registry.{ConnectionEntry, list_names, connection_count}

-- `driver_ok` and `driver_err`
abbrev pub driver_ok : Values → DriverOutcome
driver_ok values = answer values []

abbrev pub driver_err : Text → Text → DriverOutcome
driver_err name message = refuse (driver_error name message)

abbrev pub dict_entries : List (Text × ℕ) → Values
dict_entries [] = Values.nil
dict_entries ((key, n) ∷ entries) = Values.cons (entry_of_u32 key n) (dict_entries entries)

abbrev pub dict_of_u32 : List (Text × ℕ) → Value
dict_of_u32 entries =
    Value.array (DType.dict_entry DType.string DType.variant) (dict_entries entries)

-- The casts to `u32` keep the low bits.
unfoldable pub stats_dict : World → Bus → Value
unfolding list_names connection_count
stats_dict world bus = dict_of_u32 (
    (codes "BusNames", length (list_names bus.registry) % 2 ^ 32)
    ∷ (codes "ActiveConnections", connection_count bus.registry % 2 ^ 32)
    ∷ (codes "MessagesRouted", bus.stats.messages_routed % 2 ^ 32)
    ∷ (codes "BytesRouted", bus.stats.bytes_routed % 2 ^ 32)
    ∷ (codes "SignalsDelivered", bus.stats.signals_delivered % 2 ^ 32)
    ∷ (codes "ActivationsStarted", bus.stats.activations_started % 2 ^ 32)
    ∷ (codes "PolicyDenials", bus.stats.policy_denials % 2 ^ 32)
    ∷ (codes "UptimeSeconds", world.uptime_secs % 2 ^ 32)
    ∷ [])

unfoldable pub connection_stats_dict : ConnectionEntry → Value
connection_stats_dict conn = dict_of_u32 (
    (codes "UnixUserID", conn.credentials.uid)
    ∷ (codes "ProcessID", pid_of conn)
    ∷ (codes "MatchRules", length conn.match_rules % 2 ^ 32)
    ∷ [])

abbrev pub no_method : Text → Text → DriverOutcome
no_method who member =
    driver_err Errors.unknown_method (who ++ (codes " has no method \"" ++ (member ++ codes "\"")))

unfoldable pub peer_method : Text → Bus → DriverOutcome
unfolding beq
peer_method member bus =
    if beq member (codes "Ping")
    then driver_ok Values.nil
    else if beq member (codes "GetMachineId")
    then driver_ok (one (Value.string (guid bus)))
    else no_method (codes "Peer") member

unfoldable pub introspectable_method : Text → DriverOutcome
unfolding beq driver_introspection_xml
introspectable_method member =
    if beq member (codes "Introspect")
    then driver_ok (one (Value.string driver_introspection_xml))
    else no_method (codes "Introspectable") member

unfoldable pub connection_stats : Option Text → Bus → DriverOutcome
unfolding resolve_connection connection_stats_dict
connection_stats none bus =
    driver_err Errors.invalid_args (codes "GetConnectionStats needs a connection name")
connection_stats (some name) bus = elim (resolve_connection name bus) [
  | some conn ↦ driver_ok (one (connection_stats_dict conn))
  | none ↦
      driver_err Errors.name_has_no_owner
        (codes "Could not get stats for '" ++ (name ++ codes "': no such name"))
]

-- `args.first().and_then(|v| v.as_str())`
abbrev pub first_text : Values → Option Text
unfolding as_str
first_text Values.nil = none
first_text (Values.cons v vs) = as_str v

unfoldable pub stats_method : World → Text → Values → Bus → DriverOutcome
unfolding beq stats_dict connection_stats
stats_method world member args bus =
    if beq member (codes "GetStats")
    then driver_ok (one (stats_dict world bus))
    else if beq member (codes "GetConnectionStats")
    then connection_stats (first_text args) bus
    else no_method (codes "Debug.Stats") member

abbrev pub push_parsed : Result Text MatchRule → List MatchRule → List MatchRule
push_parsed (ok rule) rules = rule ∷ rules
push_parsed (err e) rules = rules
push_parsed out_of_fuel rules = rules

abbrev pub parse_text : Option Text → List MatchRule → List MatchRule
unfolding parse_match_rule
parse_text none rules = rules
parse_text (some s) rules = push_parsed (parse_match_rule s) rules

-- The two `filter_map`s: what is no text or no rule is left out.
unfoldable pub parsed_rules : Values → List MatchRule
unfolding as_str
parsed_rules Values.nil = []
parsed_rules (Values.cons v vs) = parse_text (as_str v) (parsed_rules vs)

abbrev pub values_or_none : Option Values → Values
values_or_none none = Values.nil
values_or_none (some vs) = vs

-- A monitor without a rule gets the empty one.
abbrev pub monitor_rules : List MatchRule → List MatchRule
monitor_rules [] = default_rule [] ∷ []
monitor_rules (rule ∷ rules) = rule ∷ rules

unfoldable pub become_monitor : ConnectionEntry → Values → Bus → DriverOutcome × Bus
unfolding parsed_rules get_value update_entry
become_monitor caller args bus = (
  driver_ok Values.nil,
  update_entry
      (record caller {
        match_rules =
            monitor_rules (parsed_rules (values_or_none (elements_of (get_value args 0))));
        is_monitor = true;
      })
      bus,
)

unfoldable pub monitoring_method : ConnectionEntry → Text → Values → Bus → DriverOutcome × Bus
unfolding beq become_monitor
monitoring_method caller member args bus =
    if beq member (codes "BecomeMonitor")
    then become_monitor caller args bus
    else (no_method (codes "Monitoring") member, bus)

unfoldable pub handle_side_interface :
    World → ConnectionEntry → Option Text → Text → Values → Bus → Option (DriverOutcome × Bus)
unfolding beq peer_method introspectable_method stats_method monitoring_method
handle_side_interface world caller none member args bus = none
handle_side_interface world caller (some interface) member args bus =
    if beq interface WellKnown.peer_interface
    then some (peer_method member bus, bus)
    else if beq interface WellKnown.introspectable_interface
    then some (introspectable_method member, bus)
    else if beq interface WellKnown.stats_interface
    then some (stats_method world member args bus, bus)
    else if beq interface WellKnown.monitoring_interface
    then some (monitoring_method caller member args bus)
    else none
