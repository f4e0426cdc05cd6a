-- ===== src/Daemon/Dispatch/Routing/Unregistered.antt =====
-- Before its Hello a connection gets nothing done, in crates/oxibus-daemon/src/dispatch.rs.
use oxibus.Base.{
  ◌≡◌, refl, ◌∙◌, ◌⊎◌, inl, inr, Bool, true, false, ◌&&◌, List, [], ◌∷◌, Text, codes, any, beq,
  beq_refl, if◌then◌else◌, if_ind, arith,
}
use oxibus.Core.Message.{Message, no_reply_expected}
use oxibus.Core.Names.Errors
use oxibus.Daemon.Bus.{Bus, World, Sent, is_encodable, write}
use oxibus.Daemon.Dispatch.{reply_error, write_built, to_monitors, deliver_to_monitors}
use oxibus.Daemon.Dispatch.Routing.{is_hello_call, set_sender, dispatch_from, dispatch_incoming}
use oxibus.Daemon.Dispatch.Written.{
  Extends, same, added_if, Extends-map, Extends-trans, reply_error-Extends,
}
use oxibus.Daemon.Registry.{ConnectionEntry, all_connections}

-- Nothing but the log and the counter of the serials has changed.
abbrev pub OnlyWrites : Bus → Bus → Type 0
OnlyWrites old new =
    (new.registry ≡ old.registry)
    × (new.policy ≡ old.policy)
    × (new.stats ≡ old.stats)
    × (new.activation_environment ≡ old.activation_environment)

-- The message itself, to a monitor among the connections.
abbrev pub ToMonitor : Message → List ConnectionEntry → Sent → Type 0
ToMonitor msg conns s =
    (s.message ≡ msg) × (any (λ c. c.is_monitor && beq c.unique_name s.to) conns ≡ true)

abbrev pub Told : Message → List ConnectionEntry → Bus → Bus → Type 0
Told msg conns old new = OnlyWrites old new × Extends (ToMonitor msg conns) old.sent new.sent

pub to_monitors-Told :
    (conns : List ConnectionEntry) (msg : Message) (bus : Bus)
    → Told msg conns bus (to_monitors conns msg bus)
unfolding to_monitors write
to_monitors-Told [] msg bus = ((refl, refl, refl, refl), same)
to_monitors-Told (conn ∷ conns) msg bus =
    by_kind (conn.is_monitor) refl (to_monitors-Told conns msg bus)
      (to_monitors-Told conns msg (write conn.unique_name msg bus))
  where
    later : (s : Sent) → ToMonitor msg conns s → ToMonitor msg (conn ∷ conns) s
    later s (e, h) = (e, ground arith)

    by_kind :
        (t : Bool)
        → conn.is_monitor ≡ t
        → Told msg conns bus (to_monitors conns msg bus)
        → Told msg conns
            (write conn.unique_name msg bus)
            (to_monitors conns msg (write conn.unique_name msg bus))
        → Told msg
            (conn ∷ conns)
            bus
            (to_monitors conns msg (if t then write conn.unique_name msg bus else bus))
    by_kind false e (kept, plain) told = (kept, Extends-map later plain)
    by_kind true e plain (kept, told) = (
      kept,
      Extends-trans (added_if (is_encodable msg) _ (refl, here e) same) (Extends-map later told),
    )
      where
        here :
            conn.is_monitor ≡ true
            → any (λ c. c.is_monitor && beq c.unique_name conn.unique_name) (conn ∷ conns) ≡ true
        here e = ground (arith, beq_refl conn.unique_name)

reply_error-OnlyWrites :
    (world : World) (caller : ConnectionEntry) (call : Message) (name text : Text) (bus : Bus)
    → OnlyWrites bus (reply_error world caller call name text bus)
unfolding reply_error write_built write
reply_error-OnlyWrites world caller call name text bus =
    if_ind (λ (b : Bus). OnlyWrites bus b) (no_reply_expected call) bus _
      (λ _. (refl, refl, refl, refl)) (λ _. (refl, refl, refl, refl))

-- What a connection without its Hello causes to be written.
abbrev pub OnlyTold : ConnectionEntry → Message → Bus → Bus → Type 0
OnlyTold caller msg old new =
    Extends (λ s. (s.to ≡ caller.unique_name) ⊎ ToMonitor msg (all_connections old.registry) s)
      old.sent new.sent

-- A connection that is not registered, with a message that is no Hello call: the registry, the policy,
-- the statistics and the environment of services stay as they are, and all that is written is the
-- message to the monitors and an answer to the connection itself.
pub dispatch_incoming-OnlyTold :
    (world : World) (caller : ConnectionEntry) (msg : Message) (bus : Bus)
    → caller.is_registered ≡ false
    → is_hello_call (set_sender caller.unique_name msg) ≡ false
    → OnlyWrites bus (dispatch_incoming world caller msg bus)
      × OnlyTold caller
          (set_sender caller.unique_name msg)
          bus
          (dispatch_incoming world caller msg bus)
unfolding dispatch_incoming deliver_to_monitors dispatch_from
dispatch_incoming-OnlyTold world caller msg bus h h' =
    rw (h, h')
      (refused (deliver_to_monitors (set_sender caller.unique_name msg) bus)
        (to_monitors-Told (all_connections bus.registry) (set_sender caller.unique_name msg) bus))
  where
    text : Text
    text = codes "Client tried to send a message other than Hello without being registered"

    refused :
        (mid : Bus)
        → Told (set_sender caller.unique_name msg) (all_connections bus.registry) bus mid
        → OnlyWrites bus (
            reply_error world caller
              (set_sender caller.unique_name msg)
              Errors.access_denied
              text
              mid)
          × OnlyTold caller (set_sender caller.unique_name msg) bus (
              reply_error world caller
                (set_sender caller.unique_name msg)
                Errors.access_denied
                text
                mid)
    refused mid ((r, p, s, a), told) =
        let (r', p', s', a') =
          reply_error-OnlyWrites world caller (set_sender caller.unique_name msg)
            Errors.access_denied text mid in
        (
          (r' ∙ r, p' ∙ p, s' ∙ s, a' ∙ a),
          Extends-trans (Extends-map (λ s m. inr m) told) (
              reply_error-Extends _ world caller (set_sender caller.unique_name msg)
                Errors.access_denied text mid (λ s e. inl e)),
        )
