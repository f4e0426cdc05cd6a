-- ===== src/Daemon/Dispatch/Routing/Delivery.antt =====
-- The delivery of a call to a connection, in crates/oxibus-daemon/src/dispatch.rs: what it writes.
use oxibus.Base.{
  ◌&&◌, ◌≡◌, refl, ◌⊎◌, inl, inr, Bool, true, false, not, Option, none, some, Text, if◌then◌else◌,
  if_ind, codes,
}
use oxibus.Core.Header.Access
use oxibus.Core.Message.{Message}
use oxibus.Core.Names.Errors
use oxibus.Daemon.Bus.{
  Bus, World, Sent, record_routed, record_denial, write, is_encodable, message_length,
}
use oxibus.Daemon.Dispatch.{query, aa_dbus_receive, reply_error}
use oxibus.Daemon.Dispatch.Routing.{deliver_to, deliver_to_owner}
use oxibus.Daemon.Dispatch.Written.{
  Extends, same, added_if, Extends-trans, reply_error-Extends, reply_error-registry,
}
use oxibus.Daemon.Policy.{Policy, can_receive}
use oxibus.Daemon.Registry.{Registry, ConnectionEntry, get}

-- A connection of the registry that the policy lets receive the message.
abbrev pub AllowedReceiver : World → Policy → Registry → Message → Text → Type 0
AllowedReceiver world policy registry msg to =
    (owner : Text) × (conn : ConnectionEntry) × (get owner registry ≡ some conn)
    × (conn.unique_name ≡ to)
    × (can_receive policy (world.resolve conn.credentials.uid) msg (Access.sender msg.header)
        ≡ true)

-- What a call may cause to be written.
abbrev pub Mediated : World → Policy → Registry → ConnectionEntry → Message → Sent → Type 0
Mediated world policy registry caller msg s =
    (s.to ≡ caller.unique_name)
    ⊎ ((s.message ≡ msg) × AllowedReceiver world policy registry msg s.to)

-- The registry is as it was, and what was written since has the property.
abbrev pub Writes : (Sent → Type 0) → Bus → Bus → Type 0
Writes P old new = (new.registry ≡ old.registry) × Extends P old.sent new.sent

pub if_if_ind {ℓ} :
    {A : Type ℓ} (P : A → Type 0) (t u : Bool) (x y z : A)
    → P x
    → P y
    → (t ≡ false → P z)
    → P (if t then x else if u then y else z)
if_if_ind P true u x y z h h' k = h
if_if_ind P false true x y z h h' k = h'
if_if_ind P false false x y z h h' k = k refl

pub not-false : (b : Bool) → not b ≡ false → b ≡ true
not-false true h = refl
not-false false h = cc

module _ (world : World) (caller : ConnectionEntry) (msg : Message) where
  reply_error-Writes :
      (P : Sent → Type 0) (name text : Text) (bus : Bus)
      → ((s : Sent) → s.to ≡ caller.unique_name → P s)
      → Writes P bus (reply_error world caller msg name text bus)
  reply_error-Writes P name text bus h = (
    reply_error-registry world caller msg name text bus,
    reply_error-Extends P world caller msg name text bus h,
  )

  -- The four ends of a delivery.
  deliver_to_ind :
      (D : Bus → Type 0) (conn : ConnectionEntry) (bus : Bus)
      → ((name text : Text) → D (reply_error world caller msg name text (record_denial bus)))
      → (can_receive bus.policy (world.resolve conn.credentials.uid) msg (Access.sender msg.header)
            ≡ true
          → D (record_routed (message_length msg) (write conn.unique_name msg bus)))
      → (can_receive bus.policy (world.resolve conn.credentials.uid) msg (Access.sender msg.header)
            ≡ true
          → (name text : Text)
          → D (reply_error world caller msg name text (write conn.unique_name msg bus)))
      → D (deliver_to world caller msg conn bus)
  unfolding deliver_to
  deliver_to_ind D conn bus denied routed gone =
      let unwelcome = codes "Destination is not allowed to receive this message" in
      let mediated = codes "AppArmor mediation denied recipient from receiving this message" in
      let closed = codes "destination connection is gone" in
      let routed_bus = record_routed (message_length msg) (write conn.unique_name msg bus) in
      let gone_bus =
        reply_error world caller msg Errors.no_reply closed (write conn.unique_name msg bus) in
      let is_written =
        is_encodable msg && world.write_message (record { to = conn.unique_name; message = msg }) in
      if_if_ind D
        (not (
          can_receive bus.policy (world.resolve conn.credentials.uid) msg
            (Access.sender msg.header)))
        (not (world.check_permission (query aa_dbus_receive conn caller.security_label msg bus)))
        (reply_error world caller msg Errors.access_denied unwelcome (record_denial bus))
        (reply_error world caller msg Errors.access_denied mediated (record_denial bus))
        (if is_written then routed_bus else gone_bus) (denied Errors.access_denied unwelcome)
        (denied Errors.access_denied mediated)
        λ may.
          if_ind D is_written routed_bus gone_bus (λ _. routed (not-false _ may))
            λ _. gone (not-false _ may) Errors.no_reply closed

  deliver_to-Writes :
      (owner : Text) (conn : ConnectionEntry) (bus : Bus)
      → get owner bus.registry ≡ some conn
      → Writes
          (Mediated world bus.policy bus.registry caller msg)
          bus
          (deliver_to world caller msg conn bus)
  unfolding record_denial record_routed write
  deliver_to-Writes owner conn bus found =
      deliver_to_ind (Writes (Mediated world bus.policy bus.registry caller msg) bus) conn bus
        (λ name text. reply_error-Writes _ name text (record_denial bus) (λ s e. inl e))
        (λ may.
          (refl, added_if (is_encodable msg) _ (inr (refl, (owner, conn, found, refl, may))) same))
        (λ may name text.
          let (kept, later) =
            reply_error-Writes (Mediated world bus.policy bus.registry caller msg) name text
              (write conn.unique_name msg bus) (λ s e. inl e) in
          (
            kept,
            Extends-trans
                (added_if (is_encodable msg) _ (inr (refl, (owner, conn, found, refl, may))) same)
                later,
          ))

  pub deliver_to_owner-Writes :
      (owner : Text) (bus : Bus)
      → Writes
          (Mediated world bus.policy bus.registry caller msg)
          bus
          (deliver_to_owner world caller msg owner bus)
  unfolding deliver_to_owner
  deliver_to_owner-Writes owner bus = by_entry (get owner bus.registry) refl
    where
      by_entry :
          (o : Option ConnectionEntry)
          → get owner bus.registry ≡ o
          → Writes (Mediated world bus.policy bus.registry caller msg) bus (elim o as (λ _. Bus) [
            | none ↦
                reply_error world caller msg Errors.service_unknown (codes "owner vanished") bus
            | some conn ↦ deliver_to world caller msg conn bus
          ])
      by_entry none e = reply_error-Writes _ _ _ bus (λ s e. inl e)
      by_entry (some conn) e = deliver_to-Writes owner conn bus e
