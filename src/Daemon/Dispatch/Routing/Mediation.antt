-- ===== src/Daemon/Dispatch/Routing/Mediation.antt =====
-- The policy in crates/oxibus-daemon/src/dispatch.rs stands between the caller and the callee.
use mathlib.Core.Path.{subst}
use oxibus.Base.{
  ◌≡◌, refl, sym, ◌⊎◌, inl, inr, Bool, true, false, not, ◌||◌, Option, none, some, List, [], ◌∷◌,
  Text, if◌then◌else◌, if_ind, codes, ◌++◌,
}
use oxibus.Core.Message.{Message, no_auto_start}
use oxibus.Core.Names.Errors
use oxibus.Daemon.Bus.{Bus, World, Sent, record_denial, record_activation}
use oxibus.Daemon.Dispatch.{query, aa_dbus_send, label_of, reply_error}
use oxibus.Daemon.Dispatch.Routing.{
  sends, deliver_to_owner, deliver_activated, deliver_call, route_call,
}
use oxibus.Daemon.Dispatch.Written.{Extends, Extends-map, reply_error-Extends}
use oxibus.Daemon.Driver.{activate_and_wait, wait_for, is_activatable, timed_out}
use oxibus.Daemon.Driver.Queries.{resolve_connection}
use oxibus.Daemon.Registry.{Registry, ConnectionEntry, get_name_owner, name_has_owner}
use oxibus.Daemon.Dispatch.Routing.Delivery.{
  AllowedReceiver, Mediated, Writes, deliver_to_owner-Writes, if_if_ind, not-false,
}

module _ (world : World) (caller : ConnectionEntry) (msg : Message) where
  -- The wait replaces the registry, the rest stays.
  abbrev Activated : Bus → Bus → Type 0
  Activated old new = (new.policy ≡ old.policy) × (new.sent ≡ old.sent)

  wait_for-Activated :
      (name : Text) (polls : List Registry) (bus : Bus) → Activated bus (wait_for name polls bus).1
  unfolding wait_for
  wait_for-Activated name [] bus = (refl, refl)
  wait_for-Activated name (seen ∷ later) bus =
      by_owner (name_has_owner name seen)
        (wait_for-Activated name later (record bus { registry = seen }))
    where
      by_owner :
          (t : Bool)
          → Activated bus (wait_for name later (record bus { registry = seen })).1
          → Activated bus
              (elim t as (λ _. Bool × Bus) [
                | true ↦ (true, record bus { registry = seen })
                | false ↦ wait_for name later (record bus { registry = seen })
              ]).1
      by_owner true h = (refl, refl)
      by_owner false h = h

  activate_and_wait-Activated :
      (name : Text) (bus : Bus) → Activated bus (activate_and_wait world name bus).1
  unfolding activate_and_wait record_activation
  activate_and_wait-Activated name bus = by_spawn (world.spawn name bus)
    where
      by_spawn :
          (o : Option Text)
          → Activated bus
              (elim o as (λ _. Option Text × Bus) [
                | some e ↦ (some e, bus)
                | none ↦
                    let (appeared, bus') =
                      wait_for name (world.polls name) (record_activation bus) in
                    (if appeared then none else some (timed_out name), bus')
              ]).1
      by_spawn (some e) = (refl, refl)
      by_spawn none = wait_for-Activated name (world.polls name) (record_activation bus)

  -- What the policy of an earlier state lets through, in the registry of the last one.
  abbrev Passes : Bus → Bus → Type 0
  Passes old new = Extends (Mediated world old.policy new.registry caller msg) old.sent new.sent

  Writes-Passes :
      (bus bus' : Bus)
      → Writes (Mediated world bus.policy bus.registry caller msg) bus bus'
      → Passes bus bus'
  Writes-Passes bus bus' (kept, e) =
      subst (λ r. Extends (Mediated world bus.policy r caller msg) bus.sent bus'.sent) (sym kept) e

  error-Passes :
      (name text : Text) (bus : Bus) → Passes bus (reply_error world caller msg name text bus)
  error-Passes name text bus = reply_error-Extends _ world caller msg name text bus (λ s e. inl e)

  owner-Passes :
      (owner : Text) (bus : Bus) → Passes bus (deliver_to_owner world caller msg owner bus)
  owner-Passes owner bus =
      Writes-Passes bus (deliver_to_owner world caller msg owner bus)
        (deliver_to_owner-Writes world caller msg owner bus)

  activated-Passes :
      (dest : Text) (o : Option Text) (bus : Bus)
      → Passes bus (deliver_activated world caller msg dest (o, bus))
  unfolding deliver_activated
  activated-Passes dest (some e) bus = error-Passes _ e bus
  activated-Passes dest none bus = by_owner (get_name_owner dest bus.registry)
    where
      by_owner :
          (o : Option Text)
          → Passes bus (elim o as (λ _. Bus) [
            | some owner ↦ deliver_to_owner world caller msg owner bus
            | none ↦
                reply_error world caller msg Errors.service_unknown
                  (codes "activation raced with removal")
                  bus
          ])
      by_owner none = error-Passes _ _ bus
      by_owner (some owner) = owner-Passes owner bus

  -- `Passes` looks at the policy and the log of the earlier state only.
  Passes-Activated : (old mid new : Bus) → Activated old mid → Passes mid new → Passes old new
  Passes-Activated old mid new (policy, sent) e =
      subst (λ p. Extends (Mediated world p new.registry caller msg) old.sent new.sent) policy
        (subst (λ l. Extends (Mediated world mid.policy new.registry caller msg) l new.sent) sent e)

  deliver_call-Passes :
      (dest : Text) (bus : Bus) → Passes bus (deliver_call world caller msg dest bus)
  unfolding deliver_call
  deliver_call-Passes dest bus = by_owner (get_name_owner dest bus.registry)
    where
      by_owner :
          (o : Option Text)
          → Passes bus (elim o as (λ _. Bus) [
            | some owner ↦ deliver_to_owner world caller msg owner bus
            | none ↦
                if no_auto_start msg || not (is_activatable dest bus)
                then reply_error world caller msg Errors.service_unknown
                    (codes "The name "
                      ++ (dest
                          ++ codes
                              " was not provided by any .service files or activatable connections"))
                    bus
                else deliver_activated world caller msg dest (activate_and_wait world dest bus)
          ])
      by_owner (some owner) = owner-Passes owner bus
      by_owner none =
          let unknown =
            codes "The name "
            ++ (dest
                ++ codes " was not provided by any .service files or activatable connections") in
          if_ind (Passes bus) (no_auto_start msg || not (is_activatable dest bus))
            (reply_error world caller msg Errors.service_unknown unknown bus)
            (deliver_activated world caller msg dest (activate_and_wait world dest bus))
            (λ _. error-Passes Errors.service_unknown unknown bus)
            λ _.
              Passes-Activated bus (activate_and_wait world dest bus).1
                (deliver_activated world caller msg dest (activate_and_wait world dest bus))
                (activate_and_wait-Activated dest bus)
                (activated-Passes dest (activate_and_wait world dest bus).0
                  (activate_and_wait world dest bus).1)

-- What a call may cause to be written, in the state that it leaves behind.
abbrev pub OnlyMediated : World → ConnectionEntry → Message → Bus → Bus → Type 0
OnlyMediated world caller msg old new =
    Extends
      (λ s.
        (s.to ≡ caller.unique_name)
        ⊎ ((sends world caller msg old ≡ true)
            × (s.message ≡ msg)
            × AllowedReceiver world old.policy new.registry msg s.to))
      old.sent new.sent

-- A call for another connection is mediated: what it causes to be written goes to the caller, or is
-- the call itself, which the policy lets the caller send, to a connection of the registry that the
-- policy lets receive it. So too where the call waits for a service to start.
pub route_call-Mediated :
    (world : World) (caller : ConnectionEntry) (msg : Message) (dest : Text) (bus : Bus)
    → OnlyMediated world caller msg bus (route_call world caller msg dest bus)
unfolding route_call record_denial
route_call-Mediated world caller msg dest bus =
    let denied_text = codes "Connection is not allowed to send to \"" ++ (dest ++ codes "\"") in
    let mediated = codes "AppArmor mediation denied sending to \"" ++ (dest ++ codes "\"") in
    if_if_ind (OnlyMediated world caller msg bus) (not (sends world caller msg bus))
      (not (
        world.check_permission
          (query aa_dbus_send caller (label_of (resolve_connection dest bus)) msg bus)))
      (reply_error world caller msg Errors.access_denied denied_text (record_denial bus))
      (reply_error world caller msg Errors.access_denied mediated (record_denial bus))
      (deliver_call world caller msg dest bus) (refused Errors.access_denied denied_text)
      (refused Errors.access_denied mediated)
      λ may.
        allowed (not-false _ may) (deliver_call world caller msg dest bus)
          (deliver_call-Passes world caller msg dest bus)
  where
    refused :
        (name text : Text)
        → OnlyMediated world caller msg bus
            (reply_error world caller msg name text (record_denial bus))
    refused name text =
        reply_error-Extends _ world caller msg name text (record_denial bus) (λ s e. inl e)

    allowed :
        sends world caller msg bus ≡ true
        → (new : Bus)
        → Extends (Mediated world bus.policy new.registry caller msg) bus.sent new.sent
        → OnlyMediated world caller msg bus new
    allowed may new e = Extends-map step e
      where
        step :
            (s : Sent)
            → Mediated world bus.policy new.registry caller msg s
            → (s.to ≡ caller.unique_name)
              ⊎ ((sends world caller msg bus ≡ true)
                  × (s.message ≡ msg)
                  × AllowedReceiver world bus.policy new.registry msg s.to)
        step s (inl e) = inl e
        step s (inr (m, a)) = inr (may, m, a)
