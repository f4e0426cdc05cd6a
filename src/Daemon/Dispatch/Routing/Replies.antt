-- ===== src/Daemon/Dispatch/Routing/Replies.antt =====
-- The reply to a call of the bus itself, in crates/oxibus-daemon/src/dispatch.rs.
use oxibus.Base.{◌≡◌, Option, none, some, [], or_else}
use mathlib.Core.Option
use oxibus.Core.Header.Access
use oxibus.Core.Message.{Message, sender, build}
use oxibus.Core.Names.WellKnown
use oxibus.Daemon.Bus.{Bus, World, driver_serial, add_if, is_encodable}
use oxibus.Daemon.Dispatch.{driver_reply, broadcast_name_owner_changes}
use oxibus.Daemon.Dispatch.Interfaces.{handle_side_interface}
use oxibus.Daemon.Driver.{DriverOutcome}
use oxibus.Daemon.Driver.Calls.{handle}
use oxibus.Daemon.Driver.Total.{Answered}
use oxibus.Daemon.Registry.{ConnectionEntry}

-- The message is for the sender of the call and names its serial.
abbrev pub ReplyTo : Message → Message → Type 0
ReplyTo call reply =
    (Access.reply_serial reply.header ≡ some call.header.serial)
    × (Access.destination reply.header ≡ Access.sender call.header)

-- What the driver makes of the call: the arm of a side interface, or of the driver itself.
unfoldable pub driver_outcome : World → ConnectionEntry → Message → Bus → DriverOutcome × Bus
unfolding handle_side_interface handle Access.interface Access.member
driver_outcome world caller msg bus =
    let member = or_else [] (Access.member msg.header) in
    elim (handle_side_interface world caller (Access.interface msg.header) member msg.body bus) [
      | some (outcome, bus') ↦ (outcome, bus')
      | none ↦ handle world caller member msg.body bus
    ]

-- The message that answers with an outcome, numbered in the state of the bus.
abbrev pub answer : World → Message → DriverOutcome → Bus → Option Message
unfolding driver_serial build
answer world call outcome bus =
    Option.map (build (driver_serial bus).0) (driver_reply world call outcome.result)

-- The outcome has its answer, which is a reply to the call, and is what the last write is for: behind
-- all else that was written, to the caller, if it can be encoded.
abbrev pub Replied : World → ConnectionEntry → Message → DriverOutcome × Bus → Bus → Type 0
unfolding broadcast_name_owner_changes is_encodable
Replied world caller call (outcome, before) bus =
    let told = broadcast_name_owner_changes world outcome.name_owner_changes before in
    (reply : Message) × (answer world call outcome told ≡ some reply)
    × ReplyTo call reply
    × (bus.sent
        ≡ add_if (is_encodable reply) (record { to = caller.unique_name; message = reply })
            told.sent)

abbrev SomeAnswered : Option (DriverOutcome × Bus) → Type 0
SomeAnswered none = Unit {0}
SomeAnswered (some r) = Answered r
