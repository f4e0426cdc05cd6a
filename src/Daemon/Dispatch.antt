-- ===== src/Daemon/Dispatch.antt =====
-- crates/oxibus-daemon/src/dispatch.rs: what the bus itself writes, and the delivery of signals by
-- the match rules. The writes of the tasks that `deliver_to_monitors` spawns stand in the log where
-- they are spawned; the order of their arrival among later writes is left open by the program.
pub mod Introspection
pub mod Written
pub mod Interfaces
pub mod Routing
use oxibus.Base.{
  ℕ, Bool, true, false, not, ◌&&◌, Option, none, some, List, [], ◌∷◌, Text, codes, any, or_else,
  Result, ok, err, out_of_fuel, if◌then◌else◌,
}
use oxibus.Core.Header.Access
use oxibus.Core.Message.{
  Message, MessageBuilder, signal, sender, destination, arg, args, build, reply_to,
  no_reply_expected,
}
use oxibus.Core.Names.WellKnown
use oxibus.Core.Types.{Value, Values}
use oxibus.Daemon.Bus.{Bus, World, Query, bustype, record_signal, write, driver_serial}
use oxibus.Daemon.Driver.{DriverOutcome}
use oxibus.Daemon.Driver.Arguments.{DriverError}
use oxibus.Daemon.MatchRules.Filter.{selects}
use oxibus.Daemon.Policy.{can_receive}
use oxibus.Daemon.Registry.{ConnectionEntry, NameOwnerChange, all_connections, get, get_name_owner}

-- `build(driver_serial())` and the write.
unfoldable pub write_built : Text → MessageBuilder → Bus → Bus
unfolding driver_serial write build
write_built to builder bus = write to (build (driver_serial bus).0 builder) (driver_serial bus).1

unfoldable pub reply_error : World → ConnectionEntry → Message → Text → Text → Bus → Bus
unfolding no_reply_expected write_built arg sender reply_to
reply_error world caller call error_name message bus =
    if no_reply_expected call
    then bus
    else write_built caller.unique_name
        (arg (Value.string message)
          (sender WellKnown.bus_name (reply_to world.big_endian call (some error_name))))
        bus

abbrev pub to_monitors : List ConnectionEntry → Message → Bus → Bus
unfolding write
to_monitors [] msg bus = bus
to_monitors (conn ∷ conns) msg bus =
    to_monitors conns msg (if conn.is_monitor then write conn.unique_name msg bus else bus)

unfoldable pub deliver_to_monitors : Message → Bus → Bus
unfolding all_connections
deliver_to_monitors msg bus = to_monitors (all_connections bus.registry) msg bus

-- What AppArmor is asked: the mask, the party, the label of its peer.
abbrev pub query : ℕ → ConnectionEntry → Option Text → Message → Bus → Query
unfolding Access.destination Access.path Access.interface Access.member
query mask party peer_label msg bus = record {
  mask = mask;
  label = party.security_label;
  peer_label = peer_label;
  bustype = bustype bus;
  destination = Access.destination msg.header;
  path = Access.path msg.header;
  interface = Access.interface msg.header;
  member = Access.member msg.header;
  uid = party.credentials.uid;
}

abbrev pub aa_dbus_send : ℕ
aa_dbus_send = 2

abbrev pub aa_dbus_receive : ℕ
aa_dbus_receive = 4

abbrev pub label_of : Option ConnectionEntry → Option Text
label_of none = none
label_of (some c) = c.security_label

-- `msg.sender().and_then(|s| bus.registry.get(s))`
abbrev pub sender_entry : Message → Bus → Option ConnectionEntry
unfolding Access.sender get
sender_entry msg bus = elim (Access.sender msg.header) [ none ↦ none | some s ↦ get s bus.registry ]

unfoldable pub receives : World → Bus → Message → ConnectionEntry → Bool
unfolding can_receive Access.sender
receives world bus msg conn =
    can_receive bus.policy (world.resolve conn.credentials.uid) msg (Access.sender msg.header)
    && world.check_permission (query aa_dbus_receive conn (label_of (sender_entry msg bus)) msg bus)

-- No rule selects anything where there is none.
unfoldable pub is_selected : Bus → Message → ConnectionEntry → Bool
unfolding selects get_name_owner
is_selected bus msg conn =
    any (λ r. selects r (λ n. get_name_owner n bus.registry) msg) conn.match_rules

-- A round of the loop of `broadcast_signal`.
unfoldable pub broadcast_to : World → Message → Bool → ConnectionEntry → Bus → Bus
unfolding is_selected receives write record_signal
broadcast_to world msg enforce_policy conn bus =
    if conn.is_monitor
    then bus
    else if not (is_selected bus msg conn)
    then bus
    else if enforce_policy && not (receives world bus msg conn)
    then bus
    else record_signal (write conn.unique_name msg bus)

unfoldable pub broadcast_all : World → Message → Bool → List ConnectionEntry → Bus → Bus
unfolding broadcast_to
broadcast_all world msg enforce_policy [] bus = bus
broadcast_all world msg enforce_policy (conn ∷ conns) bus =
    broadcast_all world msg enforce_policy conns (broadcast_to world msg enforce_policy conn bus)

unfoldable pub broadcast_signal : World → Message → Bool → Bus → Bus
unfolding broadcast_all all_connections
broadcast_signal world msg enforce_policy bus =
    broadcast_all world msg enforce_policy (all_connections bus.registry) bus

-- A signal of the bus, with the texts that it carries.
abbrev pub bus_signal : World → Text → MessageBuilder
unfolding signal sender
bus_signal world member =
    sender WellKnown.bus_name
      (signal world.big_endian WellKnown.bus_path WellKnown.bus_interface member)

unfoldable pub send_unicast_driver_signal : World → Text → Text → Text → Bus → Bus
unfolding get write_built destination arg
send_unicast_driver_signal world to_unique_name member name bus =
    elim (get to_unique_name bus.registry) [
      | none ↦ bus
      | some conn ↦
          write_built conn.unique_name
            (arg (Value.string name) (destination to_unique_name (bus_signal world member))) bus
    ]

abbrev pub tell_owner : World → Option Text → Text → Text → Bus → Bus
unfolding send_unicast_driver_signal
tell_owner world none member name bus = bus
tell_owner world (some owner) member name bus =
    send_unicast_driver_signal world owner member name bus

abbrev pub owner_changed : World → NameOwnerChange → MessageBuilder
unfolding arg
owner_changed world change = arg (Value.string (or_else [] change.new_owner)) (
    arg (Value.string (or_else [] change.old_owner))
      (arg (Value.string change.name) (bus_signal world WellKnown.name_owner_changed)))

unfoldable pub broadcast_change : World → NameOwnerChange → Bus → Bus
unfolding driver_serial broadcast_signal build
broadcast_change world change bus =
    let (serial, bus') = driver_serial bus in
    tell_owner world change.old_owner WellKnown.name_lost change.name (
      tell_owner world change.new_owner WellKnown.name_acquired change.name
        (broadcast_signal world (build serial (owner_changed world change)) false bus'))

unfoldable pub broadcast_name_owner_changes : World → List NameOwnerChange → Bus → Bus
unfolding broadcast_change
broadcast_name_owner_changes world [] bus = bus
broadcast_name_owner_changes world (change ∷ changes) bus =
    broadcast_name_owner_changes world changes (broadcast_change world change bus)

-- The reply to a call of the driver: none if `handle` was cut off, which it never is.
abbrev pub driver_reply : World → Message → Result DriverError Values → Option MessageBuilder
driver_reply world msg (ok values) =
    some (args values (sender WellKnown.bus_name (reply_to world.big_endian msg none)))
driver_reply world msg (err e) = some (
    arg (Value.string e.message)
      (sender WellKnown.bus_name (reply_to world.big_endian msg (some e.name))))
driver_reply world msg out_of_fuel = none

unfoldable pub finish_driver_reply : World → ConnectionEntry → Message → DriverOutcome → Bus → Bus
unfolding broadcast_name_owner_changes no_reply_expected write_built args arg sender reply_to
finish_driver_reply world caller msg outcome bus =
    let bus' = broadcast_name_owner_changes world outcome.name_owner_changes bus in
    if no_reply_expected msg then bus' else elim (driver_reply world msg outcome.result) [
      | none ↦ bus'
      | some builder ↦ write_built caller.unique_name builder bus'
    ]
