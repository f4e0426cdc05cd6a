-- ===== src/Daemon/Dispatch/Routing.antt =====
-- `dispatch_incoming` of crates/oxibus-daemon/src/dispatch.rs, and what it calls for each type of message.
pub mod Delivery
pub mod Mediation
pub mod Unregistered
pub mod Replies
pub mod Quiet
pub mod Invariant
pub mod Valid
use oxibus.Base.{
  ℕ, Bool, true, false, not, ◌&&◌, ◌||◌, Option, none, some, List, [], ◌∷◌, ◌++◌, Text, codes, beq,
  or_else, none_or, opt_beq, if◌then◌else◌,
}
use oxibus.Core.Header.{MessageType}
use oxibus.Core.Header.Access
use oxibus.Core.Message.{Message, no_auto_start}
use oxibus.Core.Names.Errors
use oxibus.Core.Names.WellKnown
use oxibus.Daemon.Bus.{
  Bus, World, Sent, record_routed, record_signal, record_denial, message_length, is_encodable,
  write,
}
use oxibus.Daemon.Dispatch.{
  reply_error, deliver_to_monitors, query, aa_dbus_send, aa_dbus_receive, label_of,
  broadcast_signal, finish_driver_reply,
}
use oxibus.Daemon.Dispatch.Interfaces.{handle_side_interface}
use oxibus.Daemon.Driver.{DriverOutcome, activate_and_wait, is_activatable}
use oxibus.Daemon.Driver.Queries.{resolve_connection}
use oxibus.Daemon.Driver.Calls.{handle}
use oxibus.Daemon.Policy.{is_type, can_send, can_receive}
use oxibus.Daemon.Registry.{ConnectionEntry, get, get_name_owner}

unfoldable pub is_hello_call : Message → Bool
unfolding beq Access.destination Access.interface Access.member
is_hello_call msg =
    is_type MessageType.method_call msg
    && opt_beq (Access.destination msg.header) (some WellKnown.bus_name)
    && none_or (Access.interface msg.header) (λ i. beq i WellKnown.bus_interface)
    && opt_beq (Access.member msg.header) (some (codes "Hello"))

-- `msg.set_sender(…)` on the message
unfoldable pub set_sender : Text → Message → Message
unfolding Access.set_sender
set_sender name msg = record msg { header = Access.set_sender name msg.header }

abbrev pub sends : World → ConnectionEntry → Message → Bus → Bool
unfolding can_send Access.destination
sends world caller msg bus =
    can_send bus.policy (world.resolve caller.credentials.uid) msg (Access.destination msg.header)

-- A signal for one destination.
unfoldable pub unicast_signal : Message → Text → Bus → Bus
unfolding resolve_connection write record_signal
unicast_signal msg dest bus = elim (resolve_connection dest bus) [
  | none ↦ bus
  | some conn ↦ record_signal (write conn.unique_name msg bus)
]

unfoldable pub dispatch_signal : World → ConnectionEntry → Message → Bus → Bus
unfolding record_denial Access.destination unicast_signal broadcast_signal
dispatch_signal world caller msg bus =
    if not (sends world caller msg bus)
    then record_denial bus
    else if not (world.check_permission (query aa_dbus_send caller none msg bus))
    then record_denial bus
    else elim (Access.destination msg.header) [
      | some dest ↦ unicast_signal msg dest bus
      | none ↦ broadcast_signal world msg true bus
    ]

unfoldable pub dispatch_reply : Message → Bus → Bus
unfolding Access.destination resolve_connection write record_routed message_length
dispatch_reply msg bus = elim (Access.destination msg.header) [
  | none ↦ bus
  | some dest ↦ elim (resolve_connection dest bus) [
    | none ↦ bus
    | some conn ↦ record_routed (message_length msg) (write conn.unique_name msg bus)
  ]
]

-- The delivery to a connection that is there.
unfoldable pub deliver_to : World → ConnectionEntry → Message → ConnectionEntry → Bus → Bus
unfolding can_receive Access.sender record_denial reply_error record_routed message_length write
    is_encodable
deliver_to world caller msg conn bus =
    if not
      (can_receive bus.policy (world.resolve conn.credentials.uid) msg (Access.sender msg.header))
    then reply_error world caller msg Errors.access_denied
        (codes "Destination is not allowed to receive this message") (record_denial bus)
    else if not (world.check_permission (query aa_dbus_receive conn caller.security_label msg bus))
    then reply_error world caller msg Errors.access_denied
        (codes "AppArmor mediation denied recipient from receiving this message")
        (record_denial bus)
    else if is_encodable msg
        && world.write_message (record { to = conn.unique_name; message = msg })
    then record_routed (message_length msg) (write conn.unique_name msg bus)
    else reply_error world caller msg Errors.no_reply (codes "destination connection is gone")
        (write conn.unique_name msg bus)

unfoldable pub deliver_to_owner : World → ConnectionEntry → Message → Text → Bus → Bus
unfolding get reply_error deliver_to
deliver_to_owner world caller msg owner bus = elim (get owner bus.registry) [
  | none ↦ reply_error world caller msg Errors.service_unknown (codes "owner vanished") bus
  | some conn ↦ deliver_to world caller msg conn bus
]

-- After an activation: its error, or the delivery to whoever owns the name now.
unfoldable pub deliver_activated :
    World → ConnectionEntry → Message → Text → Option Text × Bus → Bus
unfolding reply_error get_name_owner deliver_to_owner
deliver_activated world caller msg dest (some e, bus) =
    reply_error world caller msg Errors.spawn_exec_failed e bus
deliver_activated world caller msg dest (none, bus) = elim (get_name_owner dest bus.registry) [
  | some owner ↦ deliver_to_owner world caller msg owner bus
  | none ↦
      reply_error world caller msg Errors.service_unknown (codes "activation raced with removal")
        bus
]

-- The message for a destination that may have no owner yet.
unfoldable pub deliver_call : World → ConnectionEntry → Message → Text → Bus → Bus
unfolding get_name_owner deliver_to_owner no_auto_start reply_error activate_and_wait
    deliver_activated
deliver_call world caller msg dest bus = elim (get_name_owner dest bus.registry) [
  | some owner ↦ deliver_to_owner world caller msg owner bus
  | none ↦
      if no_auto_start msg || not (is_activatable dest bus)
      then reply_error world caller msg Errors.service_unknown
          (codes "The name "
            ++ (dest ++ codes " was not provided by any .service files or activatable connections"))
          bus
      else deliver_activated world caller msg dest (activate_and_wait world dest bus)
]

-- A method call for another destination than the bus.
unfoldable pub route_call : World → ConnectionEntry → Message → Text → Bus → Bus
unfolding reply_error record_denial resolve_connection deliver_call
route_call world caller msg dest bus =
    if not (sends world caller msg bus)
    then reply_error world caller msg Errors.access_denied
        (codes "Connection is not allowed to send to \"" ++ (dest ++ codes "\""))
        (record_denial bus)
    else if not (
        world.check_permission
          (query aa_dbus_send caller (label_of (resolve_connection dest bus)) msg bus))
    then reply_error world caller msg Errors.access_denied
        (codes "AppArmor mediation denied sending to \"" ++ (dest ++ codes "\""))
        (record_denial bus)
    else deliver_call world caller msg dest bus

unfoldable pub handle_driver_call : World → ConnectionEntry → Message → Bus → Bus
unfolding Access.member Access.interface handle_side_interface handle finish_driver_reply
handle_driver_call world caller msg bus =
    let member = or_else [] (Access.member msg.header) in
    elim (handle_side_interface world caller (Access.interface msg.header) member msg.body bus) [
      | some (outcome, bus') ↦ finish_driver_reply world caller msg outcome bus'
      | none ↦
          let (outcome, bus') = handle world caller member msg.body bus in
          finish_driver_reply world caller msg outcome bus'
    ]

unfoldable pub dispatch_method_call : World → ConnectionEntry → Message → Bus → Bus
unfolding Access.destination reply_error beq handle_driver_call route_call
dispatch_method_call world caller msg bus = elim (Access.destination msg.header) [
  | none ↦
      reply_error world caller msg Errors.bad_address (codes "Method call missing DESTINATION") bus
  | some dest ↦
      if beq dest WellKnown.bus_name
      then handle_driver_call world caller msg bus
      else route_call world caller msg dest bus
]

unfoldable pub by_type : World → ConnectionEntry → Message → Bus → MessageType → Bus
unfolding dispatch_signal dispatch_method_call dispatch_reply
by_type world caller msg bus MessageType.signal = dispatch_signal world caller msg bus
by_type world caller msg bus MessageType.method_call = dispatch_method_call world caller msg bus
by_type world caller msg bus MessageType.method_return = dispatch_reply msg bus
by_type world caller msg bus MessageType.error = dispatch_reply msg bus

-- The rest of `dispatch_incoming`, once the sender is set and the monitors have the message.
unfoldable pub dispatch_from : World → ConnectionEntry → Message → Bus → Bus
unfolding is_hello_call reply_error by_type
dispatch_from world caller msg bus =
    if not caller.is_registered && not (is_hello_call msg)
    then reply_error world caller msg Errors.access_denied
        (codes "Client tried to send a message other than Hello without being registered") bus
    else by_type world caller msg bus msg.header.message_type

-- The connection that the message comes from is one of the registry.
unfoldable pub dispatch_incoming : World → ConnectionEntry → Message → Bus → Bus
unfolding set_sender deliver_to_monitors dispatch_from
dispatch_incoming world caller msg bus =
    let sent = set_sender caller.unique_name msg in
    dispatch_from world caller sent (deliver_to_monitors sent bus)
