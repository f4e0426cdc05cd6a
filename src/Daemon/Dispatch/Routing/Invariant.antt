-- ===== src/Daemon/Dispatch/Routing/Invariant.antt =====
-- What the dispatch of a message in crates/oxibus-daemon/src/dispatch.rs makes of the registry: what the
-- driver's operations on it preserve.
use mathlib.Core.Path.{subst}
use oxibus.Base.{
  sym, Bool, true, false, not, ◌&&◌, ◌||◌, Option, none, some, [], ◌++◌, Text, codes, beq, or_else,
  if◌then◌else◌, if_ind, Bool-cases, inl, inr,
}
use oxibus.Core.Header.{MessageType}
use oxibus.Core.Header.Access
use oxibus.Core.Message.{Message, no_auto_start}
use oxibus.Core.Names.Errors
use oxibus.Core.Names.WellKnown
use oxibus.Core.Types.{Values}
use oxibus.Daemon.Bus.{Bus, World, record_denial}
use oxibus.Daemon.Dispatch.{
  reply_error, deliver_to_monitors, finish_driver_reply, query, aa_dbus_send, label_of,
}
use oxibus.Daemon.Dispatch.Interfaces.{handle_side_interface, monitoring_method, become_monitor}
use oxibus.Daemon.Dispatch.Routing.{
  is_hello_call, set_sender, sends, deliver_to_owner, deliver_activated, deliver_call, route_call,
  handle_driver_call, dispatch_method_call, by_type, dispatch_from, dispatch_incoming,
}
use oxibus.Daemon.Dispatch.Routing.Delivery.{deliver_to_owner-Writes}
use oxibus.Daemon.Dispatch.Routing.Quiet.{
  finish_driver_reply-registry, dispatch_signal-registry, dispatch_reply-registry,
}
use oxibus.Daemon.Dispatch.Routing.Unregistered.{to_monitors-Told}
use oxibus.Daemon.Dispatch.Written.{reply_error-registry}
use oxibus.Daemon.Driver.{DriverOutcome, activate_and_wait, is_activatable}
use oxibus.Daemon.Driver.Queries.{resolve_connection}
use oxibus.Daemon.Driver.Calls.{handle}
use oxibus.Daemon.Driver.Invariant.{Stable, activate_and_wait_keeps, handle_keeps}
use oxibus.Daemon.Registry.{Registry, ConnectionEntry, all_connections, get_name_owner}

module _ (world : World) (I : Registry → Type 0) (stable : Stable world I) where
  reply_error_keeps :
      (caller : ConnectionEntry) (call : Message) (name text : Text) (bus : Bus)
      → I bus.registry
      → I (reply_error world caller call name text bus).registry
  reply_error_keeps caller call name text bus h =
      subst I (sym (reply_error-registry world caller call name text bus)) h

  deliver_to_owner_keeps :
      (caller : ConnectionEntry) (msg : Message) (owner : Text) (bus : Bus)
      → I bus.registry
      → I (deliver_to_owner world caller msg owner bus).registry
  deliver_to_owner_keeps caller msg owner bus h =
      subst I (sym (deliver_to_owner-Writes world caller msg owner bus).0) h

  deliver_activated_keeps :
      (caller : ConnectionEntry) (msg : Message) (dest : Text) (o : Option Text) (bus : Bus)
      → I bus.registry
      → I (deliver_activated world caller msg dest (o, bus)).registry
  unfolding deliver_activated
  deliver_activated_keeps caller msg dest (some e) bus h =
      reply_error_keeps caller msg Errors.spawn_exec_failed e bus h
  deliver_activated_keeps caller msg dest none bus h = by_owner (get_name_owner dest bus.registry)
    where
      by_owner :
          (o : Option Text)
          → I
              (elim o as (λ _. Bus) [
                | some owner ↦ deliver_to_owner world caller msg owner bus
                | none ↦
                    reply_error world caller msg Errors.service_unknown
                      (codes "activation raced with removal")
                      bus
              ]).registry
      by_owner (some owner) = deliver_to_owner_keeps caller msg owner bus h
      by_owner none =
          reply_error_keeps caller msg Errors.service_unknown
            (codes "activation raced with removal") bus h

  deliver_call_keeps :
      (caller : ConnectionEntry) (msg : Message) (dest : Text) (bus : Bus)
      → I bus.registry
      → I (deliver_call world caller msg dest bus).registry
  unfolding deliver_call
  deliver_call_keeps caller msg dest bus h =
      by_owner (get_name_owner dest bus.registry)
        (no_auto_start msg || not (is_activatable dest bus))
    where
      by_owner :
          (o : Option Text) (t : Bool)
          → I
              (elim o as (λ _. Bus) [
                | some owner ↦ deliver_to_owner world caller msg owner bus
                | none ↦
                    if t
                    then reply_error world caller msg Errors.service_unknown
                        (codes "The name "
                          ++ (dest
                              ++ codes
                                  " was not provided by any .service files or activatable connections"))
                        bus
                    else deliver_activated world caller msg dest (activate_and_wait world dest bus)
              ]).registry
      by_owner (some owner) t = deliver_to_owner_keeps caller msg owner bus h
      by_owner none true =
          reply_error_keeps caller msg Errors.service_unknown
            (codes "The name "
              ++ (dest
                  ++ codes " was not provided by any .service files or activatable connections"))
            bus h
      by_owner none false =
          deliver_activated_keeps caller msg dest (activate_and_wait world dest bus).0
            (activate_and_wait world dest bus).1 (activate_and_wait_keeps world I stable dest bus h)

  route_call_keeps :
      (caller : ConnectionEntry) (msg : Message) (dest : Text) (bus : Bus)
      → I bus.registry
      → I (route_call world caller msg dest bus).registry
  unfolding route_call record_denial
  route_call_keeps caller msg dest bus h = elim (Bool-cases (sends world caller msg bus)) [
    | inr denied ↦ rw denied (reply_error_keeps caller msg _ _ (record_denial bus) h)
    | inl sent ↦
        rw sent
          (elim (Bool-cases (
            world.check_permission
              (query aa_dbus_send caller (label_of (resolve_connection dest bus)) msg bus))) [
                | inr denied ↦ rw denied (reply_error_keeps caller msg _ _ (record_denial bus) h)
                | inl permitted ↦ rw permitted (deliver_call_keeps caller msg dest bus h)
              ])
  ]

  abbrev KeptBy : Option (DriverOutcome × Bus) → Type 0
  KeptBy none = Unit {0}
  KeptBy (some r) = I r.1.registry

  monitoring_method_keeps :
      (caller : ConnectionEntry) (member : Text) (args : Values) (bus : Bus)
      → I bus.registry
      → I (monitoring_method caller member args bus).1.registry
  unfolding monitoring_method become_monitor
  monitoring_method_keeps caller member args bus h =
      elim (Bool-cases (beq member (codes "BecomeMonitor"))) [
        | inl monitor ↦ rw monitor (stable.updated _ bus h)
        | inr other ↦ rw other h
      ]

  handle_side_interface_keeps :
      (caller : ConnectionEntry) (interface : Option Text) (member : Text) (args : Values)
      (bus : Bus)
      → I bus.registry
      → KeptBy (handle_side_interface world caller interface member args bus)
  unfolding handle_side_interface
  handle_side_interface_keeps caller none member args bus h = tt
  handle_side_interface_keeps caller (some i) member args bus h =
      if_ind KeptBy (beq i WellKnown.peer_interface) _ _ (λ _. h)
        λ _.
          if_ind KeptBy (beq i WellKnown.introspectable_interface) _ _ (λ _. h)
            λ _.
              if_ind KeptBy (beq i WellKnown.stats_interface) _ _ (λ _. h)
                λ _.
                  if_ind KeptBy (beq i WellKnown.monitoring_interface)
                    (some (monitoring_method caller member args bus)) none
                    (λ _. monitoring_method_keeps caller member args bus h) λ _. tt

  handle_driver_call_keeps :
      (caller : ConnectionEntry) (msg : Message) (bus : Bus)
      → I bus.registry
      → I (handle_driver_call world caller msg bus).registry
  unfolding handle_driver_call
  handle_driver_call_keeps caller msg bus h =
      by_interface
        (handle_side_interface world caller (Access.interface msg.header)
          (or_else [] (Access.member msg.header)) msg.body bus)
        (handle_side_interface_keeps caller (Access.interface msg.header)
          (or_else [] (Access.member msg.header)) msg.body bus h)
    where
      finished :
          (outcome : DriverOutcome) (bus' : Bus)
          → I bus'.registry
          → I (finish_driver_reply world caller msg outcome bus').registry
      finished outcome bus' h' =
          subst I (sym (finish_driver_reply-registry world caller msg outcome bus')) h'

      by_interface :
          (o : Option (DriverOutcome × Bus))
          → KeptBy o
          → I
              (elim o as (λ _. Bus) [
                | some (outcome, bus') ↦ finish_driver_reply world caller msg outcome bus'
                | none ↦
                    let (outcome, bus') =
                      handle world caller (or_else [] (Access.member msg.header)) msg.body bus in
                    finish_driver_reply world caller msg outcome bus'
              ]).registry
      by_interface (some (outcome, bus')) h' = finished outcome bus' h'
      by_interface none h' =
          finished (handle world caller (or_else [] (Access.member msg.header)) msg.body bus).0
            (handle world caller (or_else [] (Access.member msg.header)) msg.body bus).1
            (handle_keeps world I stable caller (or_else [] (Access.member msg.header)) msg.body bus
              h)

  dispatch_method_call_keeps :
      (caller : ConnectionEntry) (msg : Message) (bus : Bus)
      → I bus.registry
      → I (dispatch_method_call world caller msg bus).registry
  unfolding dispatch_method_call
  dispatch_method_call_keeps caller msg bus h = by_destination (Access.destination msg.header)
    where
      by_destination :
          (o : Option Text)
          → I
              (elim o as (λ _. Bus) [
                | none ↦
                    reply_error world caller msg Errors.bad_address
                      (codes "Method call missing DESTINATION")
                      bus
                | some dest ↦
                    if beq dest WellKnown.bus_name
                    then handle_driver_call world caller msg bus
                    else route_call world caller msg dest bus
              ]).registry
      by_destination none =
          reply_error_keeps caller msg Errors.bad_address (codes "Method call missing DESTINATION")
            bus h
      by_destination (some dest) = elim (Bool-cases (beq dest WellKnown.bus_name)) [
        | inl to_bus ↦ rw to_bus (handle_driver_call_keeps caller msg bus h)
        | inr other ↦ rw other (route_call_keeps caller msg dest bus h)
      ]

  by_type_keeps :
      (caller : ConnectionEntry) (msg : Message) (bus : Bus) (t : MessageType)
      → I bus.registry
      → I (by_type world caller msg bus t).registry
  unfolding by_type
  by_type_keeps caller msg bus MessageType.signal h =
      subst I (sym (dispatch_signal-registry world caller msg bus)) h
  by_type_keeps caller msg bus MessageType.method_call h =
      dispatch_method_call_keeps caller msg bus h
  by_type_keeps caller msg bus MessageType.method_return h =
      subst I (sym (dispatch_reply-registry msg bus)) h
  by_type_keeps caller msg bus MessageType.error h =
      subst I (sym (dispatch_reply-registry msg bus)) h

  -- What the driver's operations on the registry preserve, the dispatch of any message preserves.
  pub dispatch_incoming_keeps :
      (caller : ConnectionEntry) (msg : Message) (bus : Bus)
      → I bus.registry
      → I (dispatch_incoming world caller msg bus).registry
  unfolding dispatch_incoming dispatch_from deliver_to_monitors
  dispatch_incoming_keeps caller msg bus h =
      let sent = set_sender caller.unique_name msg in
      let told = deliver_to_monitors (set_sender caller.unique_name msg) bus in
      let h' : I (deliver_to_monitors (set_sender caller.unique_name msg) bus).registry =
        subst I
          (sym
            (to_monitors-Told (all_connections bus.registry) (set_sender caller.unique_name msg)
              bus).0.0)
          h in
      elim (Bool-cases
        (not caller.is_registered && not (is_hello_call (set_sender caller.unique_name msg)))) [
          | inl refused ↦ rw refused (reply_error_keeps caller sent Errors.access_denied _ told h')
          | inr served ↦ rw served (by_type_keeps caller sent told sent.header.message_type h')
        ]
