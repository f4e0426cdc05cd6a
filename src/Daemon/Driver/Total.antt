-- ===== src/Daemon/Driver/Total.antt =====
-- Every method in crates/oxibus-daemon/src/driver.rs gives an answer.
use oxibus.Base.{ℕ, ◌≢◌, refl, Option, none, some, [], Text, Result, ok, err, out_of_fuel, arith}
use oxibus.Core.Types.{Value, Values}
use oxibus.Daemon.Bus.{Bus, World}
use oxibus.Daemon.Driver.{
  DriverOutcome, refuse, handle_hello, request_checked, request_arguments, handle_request_name,
  handle_release_name, handle_get_name_owner, handle_start_service, activate_and_wait, started,
  add_parsed, handle_add_match, handle_remove_match,
}
use oxibus.Daemon.Driver.Queries.{
  about_connection, handle_update_activation_env, name_has_owner_answer,
}
use oxibus.Daemon.Driver.Arms.{handle_ind}
use oxibus.Daemon.Driver.Arguments.{DriverError, arg_str, arg_u32, validate_bus_name}
use oxibus.Daemon.Driver.Calls.{handle}
use oxibus.Daemon.Driver.Limits.{with_name_ind}
use oxibus.Daemon.MatchRules.{MatchRule, parse_match_rule}
use oxibus.Daemon.MatchRules.Total.{parse_match_rule-ne-out_of_fuel}
use oxibus.Daemon.Registry.{ConnectionEntry}

abbrev pub Answered : DriverOutcome × Bus → Type 0
Answered r = r.0.result ≢ out_of_fuel

arg_str-ne-out_of_fuel : (args : Values) (i : ℕ) → arg_str args i ≢ out_of_fuel
unfolding arg_str
arg_str-ne-out_of_fuel args i = ground arith

request_arguments-ne-out_of_fuel : (args : Values) → request_arguments args ≢ out_of_fuel
unfolding request_arguments arg_u32 validate_bus_name
request_arguments-ne-out_of_fuel args = ground (arith, arg_str-ne-out_of_fuel args 0)

handle_hello-Answered : (caller : ConnectionEntry) (bus : Bus) → Answered (handle_hello caller bus)
unfolding handle_hello
handle_hello-Answered caller bus = ground arith

request_checked-Answered :
    (world : World) (caller : ConnectionEntry) (name : Text) (flags : ℕ) (bus : Bus)
    → Answered (request_checked world caller name flags bus)
unfolding request_checked
request_checked-Answered world caller name flags bus = ground arith

handle_request_name-Answered :
    (world : World) (caller : ConnectionEntry) (args : Values) (bus : Bus)
    → Answered (handle_request_name world caller args bus)
unfolding handle_request_name
handle_request_name-Answered world caller args bus =
    by_arguments (request_arguments args) (request_arguments-ne-out_of_fuel args)
  where
    by_arguments :
        (r : Result DriverError (Text × ℕ))
        → r ≢ out_of_fuel
        → Answered (elim r as (λ _. DriverOutcome × Bus) [
          | ok (name, flags) ↦ request_checked world caller name flags bus
          | err e ↦ (refuse e, bus)
          | out_of_fuel ↦ (record { result = out_of_fuel; name_owner_changes = [] }, bus)
        ])
    by_arguments (ok (name, flags)) h = request_checked-Answered world caller name flags bus
    by_arguments (err e) h = λ e. cc
    by_arguments out_of_fuel h = λ e. h refl

handle_release_name-Answered :
    (caller : ConnectionEntry) (args : Values) (bus : Bus)
    → Answered (handle_release_name caller args bus)
unfolding handle_release_name
handle_release_name-Answered caller args bus =
    with_name_ind Answered args bus _ (λ x e. cc) (λ name e. cc)

handle_get_name_owner-Answered :
    (args : Values) (bus : Bus) → Answered (handle_get_name_owner args bus)
unfolding handle_get_name_owner
handle_get_name_owner-Answered args bus =
    with_name_ind Answered args bus _ (λ x e. cc) (λ name. ground arith)

handle_start_service-Answered :
    (world : World) (args : Values) (bus : Bus) → Answered (handle_start_service world args bus)
unfolding handle_start_service
handle_start_service-Answered world args bus =
    with_name_ind Answered args bus _ (λ x e. cc)
      (λ name. ground (arith, started_lem (activate_and_wait world name bus).0))
  where
    started_lem : (o : Option Text) → (started o).result ≢ out_of_fuel
    started_lem none = λ e. cc
    started_lem (some x) = λ e. cc

handle_add_match-Answered :
    (caller : ConnectionEntry) (args : Values) (bus : Bus)
    → Answered (handle_add_match caller args bus)
unfolding handle_add_match add_parsed
handle_add_match-Answered caller args bus =
    with_name_ind Answered args bus _ (λ x e. cc)
      λ rule_str.
        ground
          (arith, by_rule (parse_match_rule rule_str) (parse_match_rule-ne-out_of_fuel rule_str))
  where
    by_rule : (r : Result Text MatchRule) → r ≢ out_of_fuel → Answered (add_parsed caller bus r)
    by_rule (ok rule) h = λ e. cc
    by_rule (err x) h = λ e. cc
    by_rule out_of_fuel h = λ e. h refl

handle_remove_match-Answered :
    (caller : ConnectionEntry) (args : Values) (bus : Bus)
    → Answered (handle_remove_match caller args bus)
unfolding handle_remove_match
handle_remove_match-Answered caller args bus =
    with_name_ind Answered args bus _ (λ x e. cc) (λ name. ground arith)

about_connection-Answered :
    (tell : ConnectionEntry → Value) (args : Values) (bus : Bus)
    → Answered (about_connection tell args bus)
unfolding about_connection
about_connection-Answered tell args bus =
    with_name_ind Answered args bus _ (λ x e. cc) (λ name. ground arith)

handle_update_activation_env-Answered :
    (args : Values) (bus : Bus) → Answered (handle_update_activation_env args bus)
unfolding handle_update_activation_env
handle_update_activation_env-Answered args bus = ground arith

name_has_owner_answer-Answered :
    (args : Values) (bus : Bus) → (name_has_owner_answer args bus).result ≢ out_of_fuel
unfolding name_has_owner_answer
name_has_owner_answer-Answered args bus = ground arith

-- Every method of the driver answers a call, with values or with an error.
pub handle-Answered :
    (world : World) (caller : ConnectionEntry) (member : Text) (args : Values) (bus : Bus)
    → Answered (handle world caller member args bus)
handle-Answered world caller member args bus =
    handle_ind Answered world caller member args bus (λ values e. cc) (λ x e. cc)
      (handle_hello-Answered caller bus) (handle_request_name-Answered world caller args bus)
      (handle_release_name-Answered caller args bus) (name_has_owner_answer-Answered args bus)
      (handle_get_name_owner-Answered args bus)
      (λ k. with_name_ind Answered args bus _ (λ x e. cc) (λ name e. cc))
      (handle_start_service-Answered world args bus) (handle_add_match-Answered caller args bus)
      (handle_remove_match-Answered caller args bus)
      (λ tell. about_connection-Answered tell args bus)
      (handle_update_activation_env-Answered args bus)
