-- ===== src/Daemon/Bus.antt =====
-- crates/oxibus-daemon/src/bus.rs and stats.rs: the state of the bus, and the world around it.
-- The state holds also the counter of `driver_serial` and the log of what was written.
use oxibus.Base.{
  ℕ, ◌+◌, ◌%◌, ◌^◌, Bool, true, false, Option, List, ◌∷◌, Text, codes, length, ok, err, out_of_fuel,
  map, beq, if◌then◌else◌,
}
use oxibus.Base.Assoc.{Assoc}
use oxibus.Core.Error.{CoreResult}
use oxibus.Core.Message.{Message, next_serial, to_bytes}
use oxibus.Daemon.Policy.{Identity, Policy}
use oxibus.Daemon.Registry.{Registry, ConnectionEntry}

pub data BusKind : Type 0 where
  system session : BusKind

pub record Stats : Type 0 where
  pub messages_routed : ℕ
  pub bytes_routed : ℕ
  pub signals_delivered : ℕ
  pub activations_started : ℕ
  pub policy_denials : ℕ

-- `fetch_add` on an `AtomicU64`.
abbrev pub fetch_add : ℕ → ℕ → ℕ
fetch_add v n = (v + n) % 2 ^ 64

-- The limits of the configuration that the bus reads.
pub record Limits : Type 0 where
  pub max_names_per_connection : ℕ
  pub max_match_rules_per_connection : ℕ
  pub max_incomplete_connections : ℕ
  pub max_connections_per_user : ℕ

-- A message, and the unique name of the connection that it is written to.
pub record Sent : Type 0 where
  pub to : Text
  pub message : Message

-- `activatable` holds the keys of the map of services, `serial` is the static `COUNTER`, `sent` what
-- was written to the connections, the last one first.
pub record Bus : Type 0 where
  pub kind : BusKind
  pub limits : Limits
  pub registry : Registry
  pub policy : Policy
  pub activatable : List Text
  pub stats : Stats
  pub guid_hex : Text
  pub activation_environment : Assoc Text
  pub serial : ℕ
  pub sent : List Sent

-- What apparmor.rs asks the kernel.
pub record Query : Type 0 where
  pub mask : ℕ
  pub label : Option Text
  pub peer_label : Option Text
  pub bustype : Text
  pub destination : Option Text
  pub path : Option Text
  pub interface : Option Text
  pub member : Option Text
  pub uid : ℕ

-- What lies outside: `resolve` of identity.rs and `check_permission` of apparmor.rs ask the system,
-- a write to a socket succeeds or not, `spawn` starts a service or fails with a text, `polls` are the
-- states of the registry that the wait for it sees until its deadline.
pub record World : Type 0 where
  pub big_endian : Bool
  pub resolve : ℕ → Identity
  pub check_permission : Query → Bool
  pub write_message : Sent → Bool
  pub spawn : Text → Bus → Option Text
  pub polls : Text → List Registry
  pub uptime_secs : ℕ

abbrev pub bustype : Bus → Text
bustype bus = elim bus.kind [ BusKind.system ↦ codes "system" | BusKind.session ↦ codes "session" ]

-- `Bus::guid`
abbrev pub guid : Bus → Text
guid bus = bus.guid_hex

unfoldable pub record_routed : ℕ → Bus → Bus
record_routed bytes bus = record bus {
  stats = record (bus.stats) {
    messages_routed = fetch_add bus.stats.messages_routed 1;
    bytes_routed = fetch_add bus.stats.bytes_routed bytes;
  };
}

unfoldable pub record_signal : Bus → Bus
record_signal bus = record bus {
  stats = record (bus.stats) { signals_delivered = fetch_add bus.stats.signals_delivered 1 };
}

unfoldable pub record_activation : Bus → Bus
record_activation bus = record bus {
  stats = record (bus.stats) { activations_started = fetch_add bus.stats.activations_started 1 };
}

unfoldable pub record_denial : Bus → Bus
record_denial bus = record bus {
  stats = record (bus.stats) { policy_denials = fetch_add bus.stats.policy_denials 1 };
}

-- `msg.to_bytes().map(|b| b.len() as u64).unwrap_or(0)`
abbrev pub length_or_zero : CoreResult Text → ℕ
length_or_zero (ok b) = length b % 2 ^ 64
length_or_zero (err e) = 0
length_or_zero out_of_fuel = 0

unfoldable pub message_length : Message → ℕ
unfolding to_bytes
message_length msg = length_or_zero (to_bytes msg)

-- `to_bytes` in `write_message` of stream.rs: a message that it rejects is not written.
abbrev pub is_ok : CoreResult Text → Bool
is_ok (ok b) = true
is_ok (err e) = false
is_ok out_of_fuel = false

unfoldable pub is_encodable : Message → Bool
unfolding to_bytes
is_encodable msg = is_ok (to_bytes msg)

abbrev pub add_if : Bool → Sent → List Sent → List Sent
add_if false s sent = sent
add_if true s sent = s ∷ sent

-- `writer.write_message`, up to the socket.
unfoldable pub write : Text → Message → Bus → Bus
unfolding is_encodable
write to msg bus = record bus {
  sent = add_if (is_encodable msg) (record { to = to; message = msg }) bus.sent;
}

-- Behind the `Arc` of a connection is the entry of the registry.
abbrev pub replace_entry : ConnectionEntry → Assoc ConnectionEntry → Assoc ConnectionEntry
replace_entry entry connections =
    map (λ c. if beq c.0 entry.unique_name then (c.0, entry) else c) connections

unfoldable pub update_entry : ConnectionEntry → Bus → Bus
unfolding beq
update_entry entry bus = record bus {
  registry = record (bus.registry) { connections = replace_entry entry bus.registry.connections };
}

-- `driver_serial` of dispatch.rs; the loop is that of `SerialGenerator.next`.
unfoldable pub driver_serial : Bus → ℕ × Bus
unfolding next_serial
driver_serial bus = ((next_serial bus.serial).0, record bus { serial = (next_serial bus.serial).1 })
