-- ===== src/Core/Names/Errors.antt =====
-- `errors` of crates/oxibus-core/src/lib.rs, those that the bus answers with.
use oxibus.Base.{Text, codes}

abbrev pub failed : Text
failed = codes "org.freedesktop.DBus.Error.Failed"

abbrev pub service_unknown : Text
service_unknown = codes "org.freedesktop.DBus.Error.ServiceUnknown"

abbrev pub name_has_no_owner : Text
name_has_no_owner = codes "org.freedesktop.DBus.Error.NameHasNoOwner"

abbrev pub no_reply : Text
no_reply = codes "org.freedesktop.DBus.Error.NoReply"

abbrev pub bad_address : Text
bad_address = codes "org.freedesktop.DBus.Error.BadAddress"

abbrev pub limits_exceeded : Text
limits_exceeded = codes "org.freedesktop.DBus.Error.LimitsExceeded"

abbrev pub access_denied : Text
access_denied = codes "org.freedesktop.DBus.Error.AccessDenied"

abbrev pub invalid_args : Text
invalid_args = codes "org.freedesktop.DBus.Error.InvalidArgs"

abbrev pub unknown_method : Text
unknown_method = codes "org.freedesktop.DBus.Error.UnknownMethod"

abbrev pub match_rule_not_found : Text
match_rule_not_found = codes "org.freedesktop.DBus.Error.MatchRuleNotFound"

abbrev pub match_rule_invalid : Text
match_rule_invalid = codes "org.freedesktop.DBus.Error.MatchRuleInvalid"

abbrev pub spawn_exec_failed : Text
spawn_exec_failed = codes "org.freedesktop.DBus.Error.Spawn.ExecFailed"
