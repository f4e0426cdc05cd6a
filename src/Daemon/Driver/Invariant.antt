-- ===== src/Daemon/Driver/Invariant.antt =====
-- What crates/oxibus-daemon/src/driver.rs makes of the registry: what its operations preserve, every
-- method preserves.
use oxibus.Base.{
  ℕ, true, not, Option, none, some, List, [], ◌∷◌, ◌++◌, Text, All, codes, beq, leb, length, retain,
  ◌==◌, if◌then◌else◌, Bool-cases, inl, inr, Result, ok, err, out_of_fuel,
}
use oxibus.Core.Types.{Values, get_value}
use oxibus.Core.Names.Errors
use oxibus.Daemon.Policy.{can_own}
use oxibus.Daemon.Bus.{BusKind, Bus, World, update_entry, record_denial, record_activation}
use oxibus.Daemon.Driver.{
  DriverOutcome, answer, refuse, handle_hello, request_checked, request_arguments,
  handle_request_name, handle_release_name, handle_get_name_owner, wait_for, handle_start_service,
  activate_and_wait, timed_out, add_parsed, handle_add_match, handle_remove_match, bind_query,
  is_activatable,
}
use oxibus.Daemon.Driver.Queries.{
  elements_of, insert_elements, about_connection, handle_update_activation_env,
}
use oxibus.Daemon.Driver.Arms.{handle_ind}
use oxibus.Daemon.Driver.Arguments.{DriverError, driver_error, invalid_args}
use oxibus.Daemon.Driver.Calls.{handle}
use oxibus.Daemon.Driver.Limits.{with_name_ind}
use oxibus.Daemon.MatchRules.{MatchRule, parse_match_rule}
use oxibus.Daemon.Registry.{
  Registry, ConnectionEntry, name_has_owner, names_held_by, request_name, release_name,
}

-- A property of the registry that the operations of the driver preserve, and that holds of what the
-- wait for a service sees.
pub record Stable (world : World) (I : Registry → Type 0) : Type 0 where
  pub updated :
      (entry : ConnectionEntry) (bus : Bus) → I bus.registry → I (update_entry entry bus).registry
  pub requested :
      (u name : Text) (flags : ℕ) (r : Registry) → I r → I (request_name u name flags r).1
  pub released : (u name : Text) (r : Registry) → I r → I (release_name u name r).1
  pub polled : (name : Text) → All I (world.polls name)

module _ (world : World) (I : Registry → Type 0) (stable : Stable world I) where
  abbrev After : DriverOutcome × Bus → Type 0
  After r = I r.1.registry

  handle_hello_keeps :
      (caller : ConnectionEntry) (bus : Bus) → I bus.registry → After (handle_hello caller bus)
  unfolding handle_hello
  handle_hello_keeps caller bus h = elim (Bool-cases caller.is_registered) [
    | inl again ↦ rw again h
    | inr first ↦ rw first (stable.updated (record caller { is_registered = true }) bus h)
  ]

  handle_release_name_keeps :
      (caller : ConnectionEntry) (args : Values) (bus : Bus)
      → I bus.registry
      → After (handle_release_name caller args bus)
  unfolding handle_release_name
  handle_release_name_keeps caller args bus h =
      with_name_ind After args bus _ (λ e. h)
        (λ name. stable.released caller.unique_name name bus.registry h)

  wait_for_keeps :
      (name : Text) (polls : List Registry) (bus : Bus)
      → All I polls
      → I bus.registry
      → I (wait_for name polls bus).1.registry
  unfolding wait_for
  wait_for_keeps name [] bus hs h = h
  wait_for_keeps name (seen ∷ later) bus (now, hs) h =
      elim (Bool-cases (name_has_owner name seen)) [
        | inl appeared ↦ rw appeared now
        | inr missing ↦
            rw missing (wait_for_keeps name later (record bus { registry = seen }) hs now)
      ]

  pub activate_and_wait_keeps :
      (name : Text) (bus : Bus) → I bus.registry → I (activate_and_wait world name bus).1.registry
  unfolding activate_and_wait record_activation
  activate_and_wait_keeps name bus h = by_spawn (world.spawn name bus)
    where
      by_spawn :
          (o : Option Text)
          → I
              (elim o as (λ _. Option Text × Bus) [
                | some e ↦ (some e, bus)
                | none ↦
                    let (appeared, bus') =
                      wait_for name (world.polls name) (record_activation bus) in
                    (if appeared then none else some (timed_out name), bus')
              ]).1.registry
      by_spawn (some e) = h
      by_spawn none =
          wait_for_keeps name (world.polls name) (record_activation bus) (stable.polled name) h

  request_checked_keeps :
      (caller : ConnectionEntry) (name : Text) (flags : ℕ) (bus : Bus)
      → I bus.registry
      → After (request_checked world caller name flags bus)
  unfolding request_checked record_denial
  request_checked_keeps caller name flags bus h =
      elim (Bool-cases (can_own bus.policy (world.resolve caller.credentials.uid) name)) [
        | inr denied ↦ rw denied h
        | inl owned ↦
            rw owned (elim (Bool-cases (world.check_permission (bind_query caller name bus))) [
              | inr denied ↦ rw denied h
              | inl permitted ↦
                  rw permitted
                    (elim (Bool-cases (
                      leb bus.limits.max_names_per_connection
                        (names_held_by caller.unique_name bus.registry))) [
                          | inl full ↦ rw full h
                          | inr room ↦
                              rw room
                                (stable.requested caller.unique_name name flags bus.registry h)
                        ])
            ])
      ]

  handle_request_name_keeps :
      (caller : ConnectionEntry) (args : Values) (bus : Bus)
      → I bus.registry
      → After (handle_request_name world caller args bus)
  unfolding handle_request_name
  handle_request_name_keeps caller args bus h = by_arguments (request_arguments args)
    where
      by_arguments :
          (r : Result DriverError (Text × ℕ))
          → After (elim r as (λ _. DriverOutcome × Bus) [
            | ok (name, flags) ↦ request_checked world caller name flags bus
            | err e ↦ (refuse e, bus)
            | out_of_fuel ↦ (record { result = out_of_fuel; name_owner_changes = [] }, bus)
          ])
      by_arguments (ok (name, flags)) = request_checked_keeps caller name flags bus h
      by_arguments (err e) = h
      by_arguments out_of_fuel = h

  handle_start_service_keeps :
      (args : Values) (bus : Bus) → I bus.registry → After (handle_start_service world args bus)
  unfolding handle_start_service
  handle_start_service_keeps args bus h =
      with_name_ind After args bus _ (λ e. h)
        λ name. elim (Bool-cases (name_has_owner name bus.registry)) [
          | inl running ↦ rw running h
          | inr missing ↦ rw missing (elim (Bool-cases (is_activatable name bus)) [
            | inr unknown ↦ rw unknown h
            | inl known ↦ rw known (activate_and_wait_keeps name bus h)
          ])
        ]

  add_parsed_keeps :
      (caller : ConnectionEntry) (bus : Bus) (r : Result Text MatchRule)
      → I bus.registry
      → After (add_parsed caller bus r)
  unfolding add_parsed
  add_parsed_keeps caller bus (ok rule) h =
      stable.updated (record caller { match_rules = caller.match_rules ++ (rule ∷ []) }) bus h
  add_parsed_keeps caller bus (err e) h = h
  add_parsed_keeps caller bus out_of_fuel h = h

  handle_add_match_keeps :
      (caller : ConnectionEntry) (args : Values) (bus : Bus)
      → I bus.registry
      → After (handle_add_match caller args bus)
  unfolding handle_add_match
  handle_add_match_keeps caller args bus h =
      with_name_ind After args bus _ (λ e. h)
        λ rule_str.
          elim (Bool-cases
            (leb bus.limits.max_match_rules_per_connection (length caller.match_rules))) [
              | inl full ↦ rw full h
              | inr room ↦ rw room (add_parsed_keeps caller bus (parse_match_rule rule_str) h)
            ]

  handle_remove_match_keeps :
      (caller : ConnectionEntry) (args : Values) (bus : Bus)
      → I bus.registry
      → After (handle_remove_match caller args bus)
  unfolding handle_remove_match
  handle_remove_match_keeps caller args bus h =
      with_name_ind After args bus _ (λ e. h)
        λ rule_str.
          let rules = retain (λ r. not (beq r.raw rule_str)) caller.match_rules in
          elim (Bool-cases (length rules == length caller.match_rules)) [
            | inl none_found ↦ rw none_found h
            | inr found ↦ rw found (stable.updated (record caller { match_rules = rules }) bus h)
          ]

  handle_update_activation_env_keeps :
      (args : Values) (bus : Bus) → I bus.registry → After (handle_update_activation_env args bus)
  unfolding handle_update_activation_env
  handle_update_activation_env_keeps args bus h = by_kind bus.kind (elements_of (get_value args 0))
    where
      by_kind :
          (kind : BusKind) (o : Option Values)
          → After (elim kind as (λ _. DriverOutcome × Bus) [
            | BusKind.system ↦ (
              refuse (
                  driver_error Errors.access_denied
                    (codes "Cannot change activation environment on a system bus.")),
              bus,
            )
            | BusKind.session ↦ elim o as (λ _. DriverOutcome × Bus) [
              | none ↦ (refuse (invalid_args (codes "expected a{ss} environment map")), bus)
              | some elements ↦ (
                answer Values.nil [],
                record bus {
                  activation_environment = insert_elements elements bus.activation_environment;
                },
              )
            ]
          ])
      by_kind BusKind.system o = h
      by_kind BusKind.session none = h
      by_kind BusKind.session (some elements) = h

  -- Every method preserves the property.
  pub handle_keeps :
      (caller : ConnectionEntry) (member : Text) (args : Values) (bus : Bus)
      → I bus.registry
      → After (handle world caller member args bus)
  unfolding handle_get_name_owner about_connection
  handle_keeps caller member args bus h =
      handle_ind After world caller member args bus (λ values. h) (λ e. h)
        (handle_hello_keeps caller bus h) (handle_request_name_keeps caller args bus h)
        (handle_release_name_keeps caller args bus h) h
        (with_name_ind After args bus _ (λ e. h) (λ name. h))
        (λ k. with_name_ind After args bus _ (λ e. h) (λ name. h))
        (handle_start_service_keeps args bus h) (handle_add_match_keeps caller args bus h)
        (handle_remove_match_keeps caller args bus h)
        (λ tell. with_name_ind After args bus _ (λ e. h) (λ name. h))
        (handle_update_activation_env_keeps args bus h)
