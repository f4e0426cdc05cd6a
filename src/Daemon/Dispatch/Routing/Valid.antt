-- ===== src/Daemon/Dispatch/Routing/Valid.antt =====
-- The registry stays well formed while crates/oxibus-daemon/src/dispatch.rs dispatches messages.
use mathlib.Core.Path.{subst}
use oxibus.Base.{
  ℕ, ◌≡◌, refl, sym, [], ◌∷◌, Text, All, beq, beq_iff, if_ind, Bool-cases, inl, inr, arith,
}
use oxibus.Base.Assoc.{Assoc, lookup}
use oxibus.Core.Message.{Message}
use oxibus.Daemon.Bus.{Bus, World, replace_entry, update_entry}
use oxibus.Daemon.Dispatch.Routing.{dispatch_incoming}
use oxibus.Daemon.Dispatch.Routing.Invariant.{dispatch_incoming_keeps}
use oxibus.Daemon.Driver.Invariant.{Stable}
use oxibus.Daemon.Registry.{
  Registry, ConnectionEntry, request_name, release_name, release_name_among, release_name_internal,
  present, is_queued,
}
use oxibus.Daemon.Registry.Removal.{connections-release_found}
use oxibus.Daemon.Registry.Ownership.{IsValid, request_name-IsValid}
use oxibus.Daemon.Registry.Release.{release_name-IsValid}

abbrev pub IsKeyed : Assoc ConnectionEntry → Type 0
IsKeyed connections = All (λ c. c.1.unique_name ≡ c.0) connections

-- Every stored queue has an owner and holds no connection twice, and every connection is stored under
-- its own name.
abbrev pub IsSafe : Registry → Type 0
IsSafe r = IsValid r × IsKeyed r.connections

replace_entry-IsKeyed :
    (entry : ConnectionEntry) (m : Assoc ConnectionEntry)
    → IsKeyed m
    → IsKeyed (replace_entry entry m)
replace_entry-IsKeyed entry [] h = tt
replace_entry-IsKeyed entry ((k, c) ∷ m) (own, h) = (
  if_ind (λ (d : Text × ConnectionEntry). d.1.unique_name ≡ d.0) (beq k entry.unique_name)
      (k, entry) (k, c) (λ e. ground (arith, beq_iff k entry.unique_name)) (λ _. own),
  replace_entry-IsKeyed entry m h,
)

connections-request_name :
    (u name : Text) (flags : ℕ) (r : Registry)
    → (request_name u name flags r).1.connections ≡ r.connections
unfolding request_name
connections-request_name u name flags r = refl

connections-release_name :
    (u name : Text) (r : Registry) → (release_name u name r).1.connections ≡ r.connections
unfolding release_name release_name_among release_name_internal
connections-release_name u name r = elim (Bool-cases (present (lookup name r.names))) [
  | inr missing ↦ rw missing refl
  | inl found ↦ rw found (elim (Bool-cases (is_queued u (lookup name r.names))) [
    | inr stranger ↦ rw stranger refl
    | inl queued ↦ rw queued (connections-release_found u name (lookup name r.names) r)
  ])
]

IsSafe-Stable :
    (world : World) → ((name : Text) → All IsSafe (world.polls name)) → Stable world IsSafe
unfolding update_entry
IsSafe-Stable world polled = record {
  updated = λ entry bus h.
      (record { queues = h.0.queues }, replace_entry-IsKeyed entry bus.registry.connections h.1);
  requested = λ u name flags r h. (
    request_name-IsValid u name flags r h.0,
    subst IsKeyed (sym (connections-request_name u name flags r)) h.1,
  );
  released = λ u name r h. (
    release_name-IsValid u name r h.0,
    subst IsKeyed (sym (connections-release_name u name r)) h.1,
  );
  polled = polled;
}

-- The dispatch of a message keeps the registry well formed, if so are the registries that a wait for a
-- service sees.
pub dispatch_incoming-IsSafe :
    (world : World) (caller : ConnectionEntry) (msg : Message) (bus : Bus)
    → ((name : Text) → All IsSafe (world.polls name))
    → IsSafe bus.registry
    → IsSafe (dispatch_incoming world caller msg bus).registry
dispatch_incoming-IsSafe world caller msg bus polled h =
    dispatch_incoming_keeps world IsSafe (IsSafe-Stable world polled) caller msg bus h
