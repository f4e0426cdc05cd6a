-- ===== src/Daemon/Driver.antt =====
-- crates/oxibus-daemon/src/driver.rs: the methods of org.freedesktop.DBus.
pub mod Arguments
pub mod Queries
pub mod Calls
pub mod Limits
pub mod Arms
pub mod Invariant
pub mod Total
use oxibus.Base.{
  ℕ, ◌%◌, ◌^◌, Bool, true, false, not, ◌&&◌, Option, none, some, List, [], ◌∷◌, ◌++◌, Text, codes,
  length, retain, any, Result, ok, err, out_of_fuel, ◌>>=◌, beq, leb, ◌==◌, if◌then◌else◌,
}
use oxibus.Base.Assoc.{Assoc, insert}
use oxibus.Base.Decimal.{decimal}
use oxibus.Core.Names.Errors
use oxibus.Core.Types.{DType, Value, Values, as_str, unwrap_variant, get_value}
use oxibus.Core.Types.Int.{ℤ, pos, negsuc}
use oxibus.Daemon.Bus.{
  BusKind, Bus, World, Query, bustype, guid, record_denial, record_activation, update_entry,
}
use oxibus.Daemon.Driver.Arguments.{
  DriverError, driver_error, invalid_args, arg_str, arg_u32, validate_bus_name,
}
use oxibus.Daemon.MatchRules.{MatchRule, parse_match_rule}
use oxibus.Daemon.Policy.{can_own}
use oxibus.Daemon.Registry.{
  Registry, ConnectionEntry, NameOwnerChange, get, get_name_owner, name_has_owner, names_held_by,
  list_names, list_queued_owners, request_name, release_name,
}

pub record DriverOutcome : Type 0 where
  pub result : Result DriverError Values
  pub name_owner_changes : List NameOwnerChange

-- `ok` and `err` of the source.
abbrev pub answer : Values → List NameOwnerChange → DriverOutcome
answer values changes = record { result = ok values; name_owner_changes = changes }

abbrev pub refuse : DriverError → DriverOutcome
refuse e = record { result = err e; name_owner_changes = [] }

abbrev pub one : Value → Values
one v = Values.cons v Values.nil

abbrev pub strings : List Text → Values
strings [] = Values.nil
strings (s ∷ ss) = Values.cons (Value.string s) (strings ss)

abbrev pub string_array : List Text → Value
string_array items = Value.array DType.string (strings items)

-- `match arg_str(args, 0) { Ok(name) => …, Err(e) => return err(e) }`
unfoldable pub with_name : Values → Bus → (Text → DriverOutcome × Bus) → DriverOutcome × Bus
unfolding arg_str
with_name args bus k = elim (arg_str args 0) [
  | ok name ↦ k name
  | err e ↦ (refuse e, bus)
  | out_of_fuel ↦ (record { result = out_of_fuel; name_owner_changes = [] }, bus)
]

unfoldable pub handle_hello : ConnectionEntry → Bus → DriverOutcome × Bus
unfolding update_entry
handle_hello caller bus =
    if caller.is_registered
    then (refuse (driver_error Errors.failed (codes "Already handled an Hello message")), bus)
    else (
      answer (one (Value.string caller.unique_name)) (
          record {
            name = caller.unique_name;
            old_owner = none;
            new_owner = some caller.unique_name;
          }
          ∷ []),
      update_entry (record caller { is_registered = true }) bus,
    )

-- `AA_DBUS_BIND`
abbrev pub aa_dbus_bind : ℕ
aa_dbus_bind = 64

abbrev pub bind_query : ConnectionEntry → Text → Bus → Query
bind_query caller name bus = record {
  mask = aa_dbus_bind;
  label = caller.security_label;
  peer_label = none;
  bustype = bustype bus;
  destination = some name;
  path = none;
  interface = none;
  member = none;
  uid = caller.credentials.uid;
}

-- The checks of the policy, of AppArmor and of the limit, and the request itself.
unfoldable pub request_checked : World → ConnectionEntry → Text → ℕ → Bus → DriverOutcome × Bus
unfolding can_own record_denial names_held_by request_name decimal
request_checked world caller name flags bus =
    if not (can_own bus.policy (world.resolve caller.credentials.uid) name)
    then (
      refuse (
          driver_error Errors.access_denied
            (codes "Connection is not allowed to own the name \"" ++ (name ++ codes "\""))),
      record_denial bus,
    )
    else if not (world.check_permission (bind_query caller name bus))
    then (
      refuse (
          driver_error Errors.access_denied
            (codes "AppArmor mediation denied owning the name \"" ++ (name ++ codes "\""))),
      record_denial bus,
    )
    else if leb bus.limits.max_names_per_connection (names_held_by caller.unique_name bus.registry)
    then (
      refuse (
          driver_error Errors.limits_exceeded (
            codes "Connection has reached the maximum of "
            ++ (decimal bus.limits.max_names_per_connection ++ codes " owned/queued names"))),
      bus,
    )
    else let ((code, changes), registry) =
        request_name caller.unique_name name flags bus.registry in
      (answer (one (Value.uint32 code)) changes, record bus { registry = registry })

unfoldable pub request_arguments : Values → Result DriverError (Text × ℕ)
unfolding arg_str arg_u32 validate_bus_name
request_arguments args = arg_str args 0 >>= λ name.
    validate_bus_name name false >>= λ _. arg_u32 args 1 >>= λ flags. ok (name, flags)

unfoldable pub handle_request_name : World → ConnectionEntry → Values → Bus → DriverOutcome × Bus
unfolding request_arguments request_checked
handle_request_name world caller args bus = elim (request_arguments args) [
  | ok (name, flags) ↦ request_checked world caller name flags bus
  | err e ↦ (refuse e, bus)
  | out_of_fuel ↦ (record { result = out_of_fuel; name_owner_changes = [] }, bus)
]

unfoldable pub handle_release_name : ConnectionEntry → Values → Bus → DriverOutcome × Bus
unfolding with_name release_name
handle_release_name caller args bus = with_name args bus λ name.
    let ((code, changes), registry) = release_name caller.unique_name name bus.registry in
    (answer (one (Value.uint32 code)) changes, record bus { registry = registry })

abbrev pub no_such_name : Text → Text → DriverOutcome
no_such_name what name =
    refuse (driver_error Errors.name_has_no_owner (what ++ (name ++ codes "': no such name")))

unfoldable pub handle_get_name_owner : Values → Bus → DriverOutcome × Bus
unfolding with_name get_name_owner
handle_get_name_owner args bus = with_name args bus λ name. (
  elim (get_name_owner name bus.registry) [
    | some owner ↦ answer (one (Value.string owner)) []
    | none ↦ no_such_name (codes "Could not get owner of name '") name
  ],
  bus,
)

-- The loop of `activate_and_wait` over what it sees at its polls.
unfoldable pub wait_for : Text → List Registry → Bus → Bool × Bus
unfolding name_has_owner
wait_for name [] bus = (false, bus)
wait_for name (seen ∷ later) bus = elim (name_has_owner name seen) [
  | true ↦ (true, record bus { registry = seen })
  | false ↦ wait_for name later (record bus { registry = seen })
]

abbrev pub timed_out : Text → Text
timed_out name =
    codes "activation timed out waiting for '" ++ (name ++ codes "' to appear on the bus")

-- None is success, a text is the error's.
unfoldable pub activate_and_wait : World → Text → Bus → Option Text × Bus
unfolding record_activation wait_for
activate_and_wait world name bus = elim (world.spawn name bus) [
  | some e ↦ (some e, bus)
  | none ↦
      let (appeared, bus') = wait_for name (world.polls name) (record_activation bus) in
      (if appeared then none else some (timed_out name), bus')
]

abbrev pub is_activatable : Text → Bus → Bool
unfolding beq
is_activatable name bus = any (beq name) bus.activatable

-- The answer after an activation, with `START_REPLY_SUCCESS`.
abbrev pub started : Option Text → DriverOutcome
started none = answer (one (Value.uint32 1)) []
started (some e) = refuse (driver_error Errors.spawn_exec_failed e)

-- The first number is `START_REPLY_ALREADY_RUNNING`.
unfoldable pub handle_start_service : World → Values → Bus → DriverOutcome × Bus
unfolding with_name name_has_owner activate_and_wait
handle_start_service world args bus = with_name args bus λ name.
    if name_has_owner name bus.registry
    then (answer (one (Value.uint32 2)) [], bus)
    else if not (is_activatable name bus)
    then (
      refuse (
          driver_error Errors.service_unknown
            (codes "The name " ++ (name ++ codes " was not provided by any .service files"))),
      bus,
    )
    else let (e, bus') = activate_and_wait world name bus in (started e, bus')

abbrev pub add_parsed : ConnectionEntry → Bus → Result Text MatchRule → DriverOutcome × Bus
unfolding update_entry
add_parsed caller bus (ok rule) = (
  answer Values.nil [],
  update_entry (record caller { match_rules = caller.match_rules ++ (rule ∷ []) }) bus,
)
add_parsed caller bus (err msg) = (refuse (driver_error Errors.match_rule_invalid msg), bus)
add_parsed caller bus out_of_fuel = (record { result = out_of_fuel; name_owner_changes = [] }, bus)

unfoldable pub handle_add_match : ConnectionEntry → Values → Bus → DriverOutcome × Bus
unfolding with_name parse_match_rule decimal
handle_add_match caller args bus = with_name args bus λ rule_str.
    if leb bus.limits.max_match_rules_per_connection (length caller.match_rules)
    then (
      refuse (
          driver_error Errors.limits_exceeded (
            codes "Connection has reached the maximum of "
            ++ (decimal bus.limits.max_match_rules_per_connection ++ codes " match rules"))),
      bus,
    )
    else add_parsed caller bus (parse_match_rule rule_str)

unfoldable pub handle_remove_match : ConnectionEntry → Values → Bus → DriverOutcome × Bus
unfolding with_name beq update_entry
handle_remove_match caller args bus = with_name args bus λ rule_str.
    let rules = retain (λ r. not (beq r.raw rule_str)) caller.match_rules in
    if length rules == length caller.match_rules
    then (
      refuse (
          driver_error Errors.match_rule_not_found
            (codes "The given match rule wasn't found and can't be removed")),
      bus,
    )
    else (answer Values.nil [], update_entry (record caller { match_rules = rules }) bus)
