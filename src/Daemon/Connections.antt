-- ===== src/Daemon/Connections.antt =====
-- crates/oxibus-daemon/src/connection_handler.rs: the life of a connection. The handshake and the
-- reads of the socket lie outside: between them stand the operations here.
pub mod Life
use oxibus.Base.{
  ℕ, Bool, true, false, not, Option, none, some, List, [], ◌∷◌, Text, leb, if◌then◌else◌,
}
use oxibus.Daemon.Bus.{Bus, World}
use oxibus.Daemon.Dispatch.{broadcast_name_owner_changes}
use oxibus.Daemon.Registry.{
  ConnectionEntry, NameOwnerChange, Registry, try_begin_incomplete, end_incomplete,
  connection_count_for_uid, allocate_unique_name, add_connection, remove_connection,
}
use oxibus.Transport.{PeerCredentials}

-- Whether a socket is served at all.
unfoldable pub begin : Bus → Bool × Bus
unfolding try_begin_incomplete
begin bus =
    let (admitted, registry) =
      try_begin_incomplete bus.limits.max_incomplete_connections bus.registry in
    (admitted, record bus { registry = registry })

-- The drop of `IncompleteGuard`, where `handle_connection` returns: after a refusal, a failed
-- handshake, or the end of the connection.
unfoldable pub drop_guard : Bus → Bus
unfolding end_incomplete
drop_guard bus = record bus { registry = end_incomplete bus.registry }

-- The test against `max_connections_per_user`, before the handshake.
unfoldable pub may_connect : PeerCredentials → Bus → Bool
unfolding connection_count_for_uid
may_connect credentials bus = not (
    leb bus.limits.max_connections_per_user (connection_count_for_uid credentials.uid bus.registry))

abbrev pub new_entry : Text → PeerCredentials → Option Text → ConnectionEntry
new_entry unique_name credentials security_label = record {
  unique_name = unique_name;
  credentials = credentials;
  security_label = security_label;
  match_rules = [];
  is_monitor = false;
  is_registered = false;
}

-- After the handshake.
unfoldable pub accept : PeerCredentials → Option Text → Bus → Bus
unfolding allocate_unique_name add_connection
accept credentials security_label bus =
    let (unique_name, registry) = allocate_unique_name bus.registry in
    record bus {
      registry = add_connection (new_entry unique_name credentials security_label) registry;
    }

-- After the loop over the messages.
unfoldable pub disconnect : World → Text → Bus → Bus
unfolding remove_connection broadcast_name_owner_changes
disconnect world unique_name bus =
    let (events, registry) = remove_connection unique_name bus.registry in
    broadcast_name_owner_changes world events (record bus { registry = registry })
