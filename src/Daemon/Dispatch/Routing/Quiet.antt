-- ===== src/Daemon/Dispatch/Routing/Quiet.antt =====
-- What is written in crates/oxibus-daemon/src/dispatch.rs leaves the registry alone.
use oxibus.Base.{
  ◌≡◌, refl, ◌∙◌, Bool, true, false, not, ◌&&◌, Option, none, some, List, [], ◌∷◌, Text,
  if◌then◌else◌, Bool-cases, inl, inr,
}
use oxibus.Core.Header.Access
use oxibus.Core.Message.{Message, MessageBuilder, no_reply_expected, arg, destination, build}
use oxibus.Core.Names.WellKnown
use oxibus.Core.Types.{Value}
use oxibus.Daemon.Bus.{
  Bus, World, write, record_signal, record_denial, record_routed, message_length, driver_serial,
}
use oxibus.Daemon.Dispatch.{
  write_built, broadcast_to, broadcast_all, broadcast_signal, is_selected, receives,
  send_unicast_driver_signal, tell_owner, bus_signal, broadcast_change,
  broadcast_name_owner_changes, owner_changed, driver_reply, finish_driver_reply, query,
  aa_dbus_send,
}
use oxibus.Daemon.Dispatch.Routing.{sends, unicast_signal, dispatch_signal, dispatch_reply}
use oxibus.Daemon.Driver.{DriverOutcome}
use oxibus.Daemon.Driver.Queries.{resolve_connection}
use oxibus.Daemon.Registry.{ConnectionEntry, NameOwnerChange, all_connections, get}

broadcast_to-registry :
    (world : World) (msg : Message) (enforce : Bool) (conn : ConnectionEntry) (bus : Bus)
    → (broadcast_to world msg enforce conn bus).registry ≡ bus.registry
unfolding broadcast_to write record_signal
broadcast_to-registry world msg enforce conn bus = elim (Bool-cases conn.is_monitor) [
  | inl monitor ↦ rw monitor refl
  | inr plain ↦ rw plain (elim (Bool-cases (is_selected bus msg conn)) [
    | inr unselected ↦ rw unselected refl
    | inl selected ↦ rw selected (elim (Bool-cases (enforce && not (receives world bus msg conn))) [
      | inl denied ↦ rw denied refl
      | inr allowed ↦ rw allowed refl
    ])
  ])
]

broadcast_all-registry :
    (world : World) (msg : Message) (enforce : Bool) (conns : List ConnectionEntry) (bus : Bus)
    → (broadcast_all world msg enforce conns bus).registry ≡ bus.registry
unfolding broadcast_all
broadcast_all-registry world msg enforce [] bus = refl
broadcast_all-registry world msg enforce (conn ∷ conns) bus =
    broadcast_all-registry world msg enforce conns (broadcast_to world msg enforce conn bus)
    ∙ broadcast_to-registry world msg enforce conn bus

broadcast_signal-registry :
    (world : World) (msg : Message) (enforce : Bool) (bus : Bus)
    → (broadcast_signal world msg enforce bus).registry ≡ bus.registry
unfolding broadcast_signal
broadcast_signal-registry world msg enforce bus =
    broadcast_all-registry world msg enforce (all_connections bus.registry) bus

write_built-registry :
    (to : Text) (b : MessageBuilder) (bus : Bus) → (write_built to b bus).registry ≡ bus.registry
unfolding write_built write driver_serial
write_built-registry to b bus = refl

tell_owner-registry :
    (world : World) (o : Option Text) (member name : Text) (bus : Bus)
    → (tell_owner world o member name bus).registry ≡ bus.registry
unfolding tell_owner send_unicast_driver_signal
tell_owner-registry world none member name bus = refl
tell_owner-registry world (some owner) member name bus =
    by_entry (get owner bus.registry)
      (arg (Value.string name) (destination owner (bus_signal world member)))
  where
    by_entry :
        (o : Option ConnectionEntry) (b : MessageBuilder)
        → (elim o as (λ _. Bus) [
          | none ↦ bus
          | some conn ↦ write_built conn.unique_name b bus
        ]).registry
          ≡ bus.registry
    by_entry none b = refl
    by_entry (some conn) b = write_built-registry conn.unique_name b bus

broadcast_change-registry :
    (world : World) (change : NameOwnerChange) (bus : Bus)
    → (broadcast_change world change bus).registry ≡ bus.registry
unfolding broadcast_change driver_serial
broadcast_change-registry world change bus =
    let (serial, bus') = driver_serial bus in
    let signal = build (driver_serial bus).0 (owner_changed world change) in
    let told = broadcast_signal world signal false (driver_serial bus).1 in
    tell_owner-registry world change.old_owner WellKnown.name_lost change.name
      (tell_owner world change.new_owner WellKnown.name_acquired change.name told)
    ∙ tell_owner-registry world change.new_owner WellKnown.name_acquired change.name told
    ∙ broadcast_signal-registry world signal false (driver_serial bus).1

pub broadcast_name_owner_changes-registry :
    (world : World) (changes : List NameOwnerChange) (bus : Bus)
    → (broadcast_name_owner_changes world changes bus).registry ≡ bus.registry
unfolding broadcast_name_owner_changes
broadcast_name_owner_changes-registry world [] bus = refl
broadcast_name_owner_changes-registry world (change ∷ changes) bus =
    broadcast_name_owner_changes-registry world changes (broadcast_change world change bus)
    ∙ broadcast_change-registry world change bus

pub finish_driver_reply-registry :
    (world : World) (caller : ConnectionEntry) (msg : Message) (outcome : DriverOutcome) (bus : Bus)
    → (finish_driver_reply world caller msg outcome bus).registry ≡ bus.registry
unfolding finish_driver_reply
finish_driver_reply-registry world caller msg outcome bus =
    by_flag (no_reply_expected msg) (driver_reply world msg outcome.result)
      (broadcast_name_owner_changes world outcome.name_owner_changes bus)
    ∙ broadcast_name_owner_changes-registry world outcome.name_owner_changes bus
  where
    by_flag :
        (t : Bool) (o : Option MessageBuilder) (bus' : Bus)
        → (if t then bus' else elim o as (λ _. Bus) [
          | none ↦ bus'
          | some builder ↦ write_built caller.unique_name builder bus'
        ]).registry
          ≡ bus'.registry
    by_flag true o bus' = refl
    by_flag false none bus' = refl
    by_flag false (some builder) bus' = write_built-registry caller.unique_name builder bus'

unicast_signal-registry :
    (msg : Message) (dest : Text) (bus : Bus)
    → (unicast_signal msg dest bus).registry ≡ bus.registry
unfolding unicast_signal write record_signal
unicast_signal-registry msg dest bus = by_entry (resolve_connection dest bus)
  where
    by_entry :
        (o : Option ConnectionEntry)
        → (elim o as (λ _. Bus) [
          | none ↦ bus
          | some conn ↦ record_signal (write conn.unique_name msg bus)
        ]).registry
          ≡ bus.registry
    by_entry none = refl
    by_entry (some conn) = refl

pub dispatch_signal-registry :
    (world : World) (caller : ConnectionEntry) (msg : Message) (bus : Bus)
    → (dispatch_signal world caller msg bus).registry ≡ bus.registry
unfolding dispatch_signal record_denial
dispatch_signal-registry world caller msg bus = elim (Bool-cases (sends world caller msg bus)) [
  | inr denied ↦ rw denied refl
  | inl sent ↦
      rw sent (elim (Bool-cases (world.check_permission (query aa_dbus_send caller none msg bus))) [
        | inr denied ↦ rw denied refl
        | inl permitted ↦ rw permitted (by_destination (Access.destination msg.header))
      ])
]
  where
    by_destination :
        (o : Option Text)
        → (elim o as (λ _. Bus) [
          | some dest ↦ unicast_signal msg dest bus
          | none ↦ broadcast_signal world msg true bus
        ]).registry
          ≡ bus.registry
    by_destination (some dest) = unicast_signal-registry msg dest bus
    by_destination none = broadcast_signal-registry world msg true bus

pub dispatch_reply-registry :
    (msg : Message) (bus : Bus) → (dispatch_reply msg bus).registry ≡ bus.registry
unfolding dispatch_reply write record_routed
dispatch_reply-registry msg bus = by_destination (Access.destination msg.header)
  where
    by_entry :
        (o : Option ConnectionEntry)
        → (elim o as (λ _. Bus) [
          | none ↦ bus
          | some conn ↦ record_routed (message_length msg) (write conn.unique_name msg bus)
        ]).registry
          ≡ bus.registry
    by_entry none = refl
    by_entry (some conn) = refl

    by_destination :
        (o : Option Text)
        → (elim o as (λ _. Bus) [
          | none ↦ bus
          | some dest ↦ elim (resolve_connection dest bus) as (λ _. Bus) [
            | none ↦ bus
            | some conn ↦ record_routed (message_length msg) (write conn.unique_name msg bus)
          ]
        ]).registry
          ≡ bus.registry
    by_destination none = refl
    by_destination (some dest) = by_entry (resolve_connection dest bus)
