-- ===== src/Daemon/Connections/Life.antt =====
-- The bus over any run of connections, crates/oxibus-daemon/src/connection_handler.rs.
use mathlib.Core.Path.{subst}
use oxibus.Base.{◌≡◌, refl, sym, Bool, true, false, Option, some, [], ◌∷◌, Text, All, beq, if_ind}
use oxibus.Base.Assoc.{Assoc, insert, remove}
use oxibus.Core.Message.{Message}
use oxibus.Daemon.Bus.{Bus, World}
use oxibus.Daemon.Connections.{begin, drop_guard, accept, disconnect}
use oxibus.Daemon.Dispatch.Routing.{dispatch_incoming}
use oxibus.Daemon.Dispatch.Routing.Quiet.{broadcast_name_owner_changes-registry}
use oxibus.Daemon.Dispatch.Routing.Valid.{IsKeyed, IsSafe, dispatch_incoming-IsSafe}
use oxibus.Daemon.Registry.{
  Registry, ConnectionEntry, new, try_begin_incomplete, end_incomplete, allocate_unique_name,
  unique_name_of, add_connection, get, remove_connection,
}
use oxibus.Daemon.Registry.Reachable.{Reachable-IsValid, start}
use oxibus.Daemon.Registry.Removal.{remove_connection-IsValid, connections-remove_connection}
use oxibus.Transport.{PeerCredentials}

-- What happens to the bus between two reads of its sockets. A message comes from a connection of the
-- registry, and a wait for a service sees well formed registries.
pub data Step : Bus → Bus → Type 0 where
  began : (bus : Bus) → (begin bus).0 ≡ true → Step bus (begin bus).1
  dropped : (bus : Bus) → Step bus (drop_guard bus)
  accepted :
      (credentials : PeerCredentials) (label : Option Text) (bus : Bus)
      → Step bus (accept credentials label bus)
  received :
      (world : World) (caller : ConnectionEntry) (msg : Message) (bus : Bus)
      → get caller.unique_name bus.registry ≡ some caller
      → ((name : Text) → All IsSafe (world.polls name))
      → Step bus (dispatch_incoming world caller msg bus)
  closed : (world : World) (unique : Text) (bus : Bus) → Step bus (disconnect world unique bus)

-- From a bus with the empty registry.
pub data Runs : Bus → Type 0 where
  started : {bus : Bus} → bus.registry ≡ new → Runs bus
  next : {bus later : Bus} → Runs bus → Step bus later → Runs later

remove-IsKeyed : (k : Text) (m : Assoc ConnectionEntry) → IsKeyed m → IsKeyed (remove k m)
unfolding remove
remove-IsKeyed k [] h = tt
remove-IsKeyed k ((j, c) ∷ m) (own, h) =
    let rest : IsKeyed (remove k m) = remove-IsKeyed k m h in
    if_ind IsKeyed (beq j k) (remove k m) ((j, c) ∷ remove k m) (λ _. rest) (λ _. (own, rest))

begin-IsSafe : (bus : Bus) → IsSafe bus.registry → IsSafe (begin bus).1.registry
unfolding begin try_begin_incomplete
begin-IsSafe bus h =
    if_ind (λ (r : Bool × Registry). IsSafe r.1) _ (false, bus.registry)
      (true, record (bus.registry) { incomplete = _ }) (λ _. h)
      (λ _. (record { queues = h.0.queues }, h.1))

Step-IsSafe : {bus later : Bus} → Step bus later → IsSafe bus.registry → IsSafe later.registry
unfolding drop_guard end_incomplete accept allocate_unique_name add_connection insert disconnect
Step-IsSafe (began bus e) h = begin-IsSafe bus h
Step-IsSafe (dropped bus) h = (record { queues = h.0.queues }, h.1)
Step-IsSafe (accepted credentials label bus) h = (
  record { queues = h.0.queues },
  (refl, remove-IsKeyed (unique_name_of bus.registry.next_id) bus.registry.connections h.1),
)
Step-IsSafe (received world caller msg bus e polled) h =
    dispatch_incoming-IsSafe world caller msg bus polled h
Step-IsSafe (closed world unique bus) h =
    subst IsSafe
      (sym (
        broadcast_name_owner_changes-registry world (remove_connection unique bus.registry).0
          (record bus { registry = (remove_connection unique bus.registry).1 })))
      (
        remove_connection-IsValid unique bus.registry h.0,
        subst IsKeyed (sym (connections-remove_connection unique bus.registry))
            (remove-IsKeyed unique bus.registry.connections h.1),
      )

new-IsSafe : IsSafe new
unfolding new
new-IsSafe = (Reachable-IsValid start, tt)

-- Whatever connections come, are served and go, and whatever they send: every queue of the registry has
-- an owner and holds no connection twice, and every connection is stored under its own name, if this
-- holds of the registries that a wait for a service sees.
pub Runs-IsSafe : {bus : Bus} → Runs bus → IsSafe bus.registry
Runs-IsSafe (started e) = subst IsSafe (sym e) new-IsSafe
Runs-IsSafe (next run step) = Step-IsSafe step (Runs-IsSafe run)
