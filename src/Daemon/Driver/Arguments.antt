-- ===== src/Daemon/Driver/Arguments.antt =====
-- The arguments of the methods in crates/oxibus-daemon/src/driver.rs, and its errors.
use oxibus.Base.{
  ℕ, Bool, ◌&&◌, Option, none, some, ◌++◌, Text, codes, Result, ok, err, starts_with, if◌then◌else◌,
}
use oxibus.Base.Decimal.{decimal}
use oxibus.Core.Names.{is_valid_bus_name}
use oxibus.Core.Names.Errors
use oxibus.Core.Types.{Value, Values, as_str, unwrap_variant, get_value}

pub record DriverError : Type 0 where
  pub name : Text
  pub message : Text

-- `DriverError::new`
abbrev pub driver_error : Text → Text → DriverError
driver_error name message = record { name = name; message = message }

abbrev pub invalid_args : Text → DriverError
invalid_args msg = driver_error Errors.invalid_args msg

abbrev pub text_of : Option Value → Option Text
unfolding as_str unwrap_variant
text_of none = none
text_of (some v) = as_str (unwrap_variant v)

unfoldable pub arg_str : Values → ℕ → Result DriverError Text
unfolding get_value decimal
arg_str args idx = elim (text_of (get_value args idx)) [
  | some s ↦ ok s
  | none ↦ err (invalid_args (codes "expected string argument " ++ decimal idx))
]

abbrev pub u32_of : Option Value → Option ℕ
unfolding unwrap_variant
u32_of none = none
u32_of (some v) = elim (unwrap_variant v) [ Value.uint32 n ↦ some n | _ ↦ none ]

unfoldable pub arg_u32 : Values → ℕ → Result DriverError ℕ
unfolding get_value decimal
arg_u32 args idx = elim (u32_of (get_value args idx)) [
  | some n ↦ ok n
  | none ↦ err (invalid_args (codes "expected uint32 argument " ++ decimal idx))
]

unfoldable pub validate_bus_name : Text → Bool → Result DriverError (Unit {0})
unfolding starts_with is_valid_bus_name
validate_bus_name name allow_unique =
    if (if starts_with name (codes ":")
      then allow_unique && is_valid_bus_name name
      else is_valid_bus_name name)
    then ok tt
    else err (invalid_args (codes "invalid bus name '" ++ (name ++ codes "'")))
