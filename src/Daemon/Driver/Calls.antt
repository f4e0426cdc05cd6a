-- ===== src/Daemon/Driver/Calls.antt =====
-- `handle` of crates/oxibus-daemon/src/driver.rs: which method answers a call.
use oxibus.Base.{[], ◌++◌, Text, codes, beq, if◌then◌else◌}
use oxibus.Core.Names.Errors
use oxibus.Core.Types.{Value, Values}
use oxibus.Daemon.Bus.{Bus, World, guid}
use oxibus.Daemon.Driver.{
  DriverOutcome, answer, refuse, one, string_array, with_name, handle_hello, handle_request_name,
  handle_release_name, handle_get_name_owner, handle_start_service, handle_add_match,
  handle_remove_match,
}
use oxibus.Daemon.Driver.Queries.{
  pid_of, credentials_dict, about_connection, handle_update_activation_env, name_has_owner_answer,
}
use oxibus.Daemon.Driver.Arguments.{driver_error}
use oxibus.Daemon.Registry.{ConnectionEntry, list_names, list_queued_owners}

unfoldable pub handle : World → ConnectionEntry → Text → Values → Bus → DriverOutcome × Bus
unfolding beq handle_hello handle_request_name handle_release_name list_names handle_get_name_owner
    with_name list_queued_owners handle_start_service handle_add_match handle_remove_match
    about_connection handle_update_activation_env
handle world caller member args bus =
    if beq member (codes "Hello")
    then handle_hello caller bus
    else if beq member (codes "RequestName")
    then handle_request_name world caller args bus
    else if beq member (codes "ReleaseName")
    then handle_release_name caller args bus
    else if beq member (codes "ListNames")
    then (answer (one (string_array (list_names bus.registry))) [], bus)
    else if beq member (codes "ListActivatableNames")
    then (answer (one (string_array bus.activatable)) [], bus)
    else if beq member (codes "NameHasOwner")
    then (name_has_owner_answer args bus, bus)
    else if beq member (codes "GetNameOwner")
    then handle_get_name_owner args bus
    else if beq member (codes "ListQueuedOwners")
    then (with_name args bus
        λ name. (answer (one (string_array (list_queued_owners name bus.registry))) [], bus))
    else if beq member (codes "StartServiceByName")
    then handle_start_service world args bus
    else if beq member (codes "AddMatch")
    then handle_add_match caller args bus
    else if beq member (codes "RemoveMatch")
    then handle_remove_match caller args bus
    else if beq member (codes "GetConnectionUnixUser")
    then about_connection (λ c. Value.uint32 c.credentials.uid) args bus
    else if beq member (codes "GetConnectionUnixProcessID")
    then about_connection (λ c. Value.uint32 (pid_of c)) args bus
    else if beq member (codes "GetConnectionCredentials")
    then about_connection credentials_dict args bus
    else if beq member (codes "GetId")
    then (answer (one (Value.string (guid bus))) [], bus)
    else if beq member (codes "UpdateActivationEnvironment")
    then handle_update_activation_env args bus
    else if beq member (codes "ReloadConfig")
    then (answer Values.nil [], bus)
    else (
      refuse (
          driver_error Errors.unknown_method
            (codes "org.freedesktop.DBus has no method \"" ++ (member ++ codes "\""))),
      bus,
    )
