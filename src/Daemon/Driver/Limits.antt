-- ===== src/Daemon/Driver/Limits.antt =====
-- Hello and the two limits of crates/oxibus-daemon/src/driver.rs.
use oxibus.Base.{
  ℕ, ◌+◌, ◌≤◌, ◌<◌, ◌≡◌, refl, Bool, true, false, Option, none, some, [], ◌∷◌, ◌++◌, Text, codes,
  Result, ok, err, out_of_fuel, any, retain, length, length-append, leb, beq, beq_iff, beq_refl,
  if◌then◌else◌, if_ind, arith,
}
use oxibus.Base.Assoc.{Assoc, lookup, insert, remove, values}
use oxibus.Core.Names.Errors
use oxibus.Core.Types.{Values, get_value}
use oxibus.Base.Decimal.{decimal}
use oxibus.Daemon.Bus.{Bus, World, replace_entry, update_entry, record_denial}
use oxibus.Daemon.Driver.{
  DriverOutcome, refuse, handle_hello, request_checked, handle_add_match, add_parsed, with_name,
}
use oxibus.Daemon.Driver.Arguments.{DriverError, driver_error, invalid_args, text_of, arg_str}
use oxibus.Daemon.MatchRules.{MatchRule, parse_match_rule}
use oxibus.Daemon.Registry.{
  Registry, Queue, ConnectionEntry, get, names_held_by, request_name, is_of,
}

-- The entry of a connection is replaced, the others stay.
lookup-replace_entry :
    (entry : ConnectionEntry) (k : Text) (m : Assoc ConnectionEntry)
    → lookup k (replace_entry entry m) ≡ (
        if beq k entry.unique_name
        then elim (lookup k m) [ none ↦ none | some old ↦ some entry ]
        else lookup k m)
unfolding lookup
lookup-replace_entry entry k [] = ground arith
lookup-replace_entry entry k ((j, c) ∷ m) = ground (
  arith,
  lookup-replace_entry entry k m,
  beq_iff j k,
  beq_iff j entry.unique_name,
  beq_iff k entry.unique_name,
)

get-update_entry :
    (entry : ConnectionEntry) (k : Text) (bus : Bus)
    → get k (update_entry entry bus).registry ≡ (
        if beq k entry.unique_name
        then elim (get k bus.registry) [ none ↦ none | some old ↦ some entry ]
        else get k bus.registry)
unfolding get update_entry
get-update_entry entry k bus = lookup-replace_entry entry k bus.registry.connections

get-update_entry_own :
    (entry old : ConnectionEntry) (bus : Bus)
    → get entry.unique_name bus.registry ≡ some old
    → get entry.unique_name (update_entry entry bus).registry ≡ some entry
get-update_entry_own entry old bus h =
    ground (arith, get-update_entry entry entry.unique_name bus, beq_refl entry.unique_name)

-- The first Hello of a connection registers it and nobody else, and a second one is refused and changes
-- nothing.
pub handle_hello_once :
    (caller : ConnectionEntry) (bus : Bus)
    → get caller.unique_name bus.registry ≡ some caller
    → caller.is_registered ≡ false
    → (get caller.unique_name (handle_hello caller bus).1.registry
        ≡ some (record caller { is_registered = true }))
      × ((k : Text)
          → beq k caller.unique_name ≡ false
          → get k (handle_hello caller bus).1.registry ≡ get k bus.registry)
      × (handle_hello (record caller { is_registered = true }) (handle_hello caller bus).1 ≡ (
        refuse (driver_error Errors.failed (codes "Already handled an Hello message")),
        (handle_hello caller bus).1,
      ))
unfolding handle_hello
handle_hello_once caller bus found fresh = rw fresh (
  get-update_entry_own (record caller { is_registered = true }) caller bus found,
  λ k other. ground (arith, get-update_entry (record caller { is_registered = true }) k bus),
  refl,
)

-- A method with a name for its argument refuses, or goes on with the name.
pub with_name_ind :
    (D : DriverOutcome × Bus → Type 0) (args : Values) (bus : Bus) (k : Text → DriverOutcome × Bus)
    → ((e : DriverError) → D (refuse e, bus))
    → ((name : Text) → D (k name))
    → D (with_name args bus k)
unfolding with_name arg_str
with_name_ind D args bus k refused named = by_text (text_of (get_value args 0))
  where
    by_text :
        (o : Option Text)
        → D
            (elim (elim o as (λ _. Result DriverError Text) [
              | some s ↦ ok s
              | none ↦ err (invalid_args (codes "expected string argument " ++ decimal 0))
            ])
              as (λ _. DriverOutcome × Bus) [
                | ok name ↦ k name
                | err e ↦ (refuse e, bus)
                | out_of_fuel ↦ (record { result = out_of_fuel; name_owner_changes = [] }, bus)
              ])
    by_text none = refused _
    by_text (some name) = named name

-- A request of a method leaves the caller no more match rules than the limit.
abbrev pub RulesWithin : ℕ → Text → Registry → Type 0
RulesWithin limit unique r =
    (c : ConnectionEntry) × (get unique r ≡ some c) × (length c.match_rules ≤ limit)

add_parsed-RulesWithin :
    (limit : ℕ) (caller : ConnectionEntry) (bus : Bus) (parsed : Result Text MatchRule)
    → get caller.unique_name bus.registry ≡ some caller
    → length caller.match_rules < limit
    → RulesWithin limit caller.unique_name (add_parsed caller bus parsed).1.registry
unfolding add_parsed
add_parsed-RulesWithin limit caller bus (ok rule) found less = (
  record caller { match_rules = caller.match_rules ++ (rule ∷ []) },
  get-update_entry_own (record caller { match_rules = caller.match_rules ++ (rule ∷ []) }) caller
      bus found,
  omega (arith, length-append {0} caller.match_rules (rule ∷ [])),
)
add_parsed-RulesWithin limit caller bus (err msg) found less = (caller, found, omega arith)
add_parsed-RulesWithin limit caller bus out_of_fuel found less = (caller, found, omega arith)

-- A caller with no more match rules than the limit has no more of them after `AddMatch`, whatever its
-- argument is.
pub handle_add_match-RulesWithin :
    (caller : ConnectionEntry) (args : Values) (bus : Bus)
    → get caller.unique_name bus.registry ≡ some caller
    → length caller.match_rules ≤ bus.limits.max_match_rules_per_connection
    → RulesWithin bus.limits.max_match_rules_per_connection caller.unique_name
        (handle_add_match caller args bus).1.registry
unfolding handle_add_match with_name
handle_add_match-RulesWithin caller args bus found le =
    with_name_ind
      (λ r. RulesWithin bus.limits.max_match_rules_per_connection caller.unique_name r.1.registry)
      args bus _ (λ e. (caller, found, le))
      λ rule_str.
        if_ind
          (λ (r : DriverOutcome × Bus).
            RulesWithin bus.limits.max_match_rules_per_connection caller.unique_name r.1.registry)
          (leb bus.limits.max_match_rules_per_connection (length caller.match_rules)) _
          (add_parsed caller bus (parse_match_rule rule_str)) (λ _. (caller, found, le))
          (λ room.
            add_parsed-RulesWithin bus.limits.max_match_rules_per_connection caller bus
              (parse_match_rule rule_str) found (ground arith))

length-retain-remove :
    (f : Queue → Bool) (k : Text) (m : Assoc Queue)
    → length (retain f (values (remove k m))) ≤ length (retain f (values m))
unfolding values remove
length-retain-remove f k [] = omega arith
length-retain-remove f k ((j, q) ∷ m) = ground (arith, length-retain-remove f k m)

-- One more name at most.
names_held_by-request_name :
    (unique name : Text) (flags : ℕ) (r : Registry)
    → names_held_by unique (request_name unique name flags r).1 ≤ names_held_by unique r + 1
unfolding names_held_by request_name insert values
names_held_by-request_name unique name flags r =
    ground (arith, length-retain-remove (any (is_of unique)) name r.names)

-- A caller that owns or queues for no more names than the limit does not pass it by a request.
pub request_checked-bounded :
    (world : World) (caller : ConnectionEntry) (name : Text) (flags : ℕ) (bus : Bus)
    → names_held_by caller.unique_name bus.registry ≤ bus.limits.max_names_per_connection
    → names_held_by caller.unique_name (request_checked world caller name flags bus).1.registry
      ≤ bus.limits.max_names_per_connection
unfolding request_checked record_denial
request_checked-bounded world caller name flags bus le =
    ground (arith, names_held_by-request_name caller.unique_name name flags bus.registry)
