-- ===== src/Daemon/Registry.antt =====
-- crates/oxibus-daemon/src/registry.rs: connections, and the queues of owners of the names.
-- A lock makes what a method does under it one step. `release_name` and `remove_connection` take
-- several locks one after another: what other methods do between them is an argument of
-- `release_name_among` and `remove_connection_among`. The writer of a connection is left out of
-- `ConnectionEntry`: a connection is written to by its name.
mod Entries
pub mod Queues
pub mod Ownership
pub mod Others
pub mod Unique
pub mod Release
pub mod Removal
pub mod Reachable
pub mod Names
unfoldable pub use Entries.*
use oxibus.Base.{
  ℕ, ◌+◌, ◌-◌, ◌%◌, ◌^◌, Bool, true, false, not, ◌&&◌, Option, none, some, List, [], ◌∷◌, ◌++◌, map,
  Text, codes, length, first, any, retain, beq, starts_with, leb, ◌==◌, if◌then◌else◌,
}
use oxibus.Base.Assoc.{Assoc, lookup, insert, remove, keys, values}
use oxibus.Base.Decimal.{decimal}
use oxibus.Transport.{PeerCredentials}
use oxibus.Daemon.MatchRules.{MatchRule}

pub record ConnectionEntry : Type 0 where
  pub unique_name : Text
  pub credentials : PeerCredentials
  pub security_label : Option Text
  pub match_rules : List MatchRule
  pub is_monitor : Bool
  pub is_registered : Bool

pub record Registry : Type 0 where
  pub connections : Assoc ConnectionEntry
  pub names : Assoc Queue
  pub next_id : ℕ
  pub incomplete : ℕ

unfoldable pub new : Registry
new = record { connections = []; names = []; next_id = 1; incomplete = 0 }

-- The loop around `compare_exchange` ends with one successful exchange.
unfoldable pub try_begin_incomplete : ℕ → Registry → Bool × Registry
try_begin_incomplete max r =
    if leb max r.incomplete
    then (false, r)
    else (true, record r { incomplete = (r.incomplete + 1) % 2 ^ 32 })

unfoldable pub end_incomplete : Registry → Registry
end_incomplete r = record r { incomplete = (r.incomplete + 2 ^ 32 - 1) % 2 ^ 32 }

unfoldable pub unique_name_of : ℕ → Text
unfolding decimal
unique_name_of n = codes ":1." ++ decimal n

unfoldable pub allocate_unique_name : Registry → Text × Registry
unfolding unique_name_of
allocate_unique_name r = (unique_name_of r.next_id, record r { next_id = (r.next_id + 1) % 2 ^ 64 })

unfoldable pub add_connection : ConnectionEntry → Registry → Registry
unfolding insert
add_connection entry r = record r { connections = insert entry.unique_name entry r.connections }

unfoldable pub get : Text → Registry → Option ConnectionEntry
unfolding lookup
get unique r = lookup unique r.connections

unfoldable pub all_connections : Registry → List ConnectionEntry
unfolding values
all_connections r = values r.connections

unfoldable pub connection_count : Registry → ℕ
connection_count r = length r.connections

unfoldable pub connection_count_for_uid : ℕ → Registry → ℕ
unfolding values
connection_count_for_uid uid r =
    length (retain (λ c. c.credentials.uid == uid) (values r.connections))

unfoldable pub names_owned : Assoc Queue → List Text
unfolding is_empty
names_owned [] = []
names_owned ((n, q) ∷ m) = let rest = names_owned m in if is_empty q then rest else n ∷ rest

unfoldable pub list_names : Registry → List Text
unfolding keys names_owned
list_names r = keys r.connections ++ names_owned r.names

abbrev pub present {ℓ} : {A : Type ℓ} → Option A → Bool
present none = false
present (some a) = true

unfoldable pub get_name_owner : Text → Registry → Option Text
unfolding lookup starts_with
get_name_owner name r =
    if starts_with name (codes ":")
    then (if present (lookup name r.connections) then some name else none)
    else owner_of (queue_or_empty (lookup name r.names))

unfoldable pub name_has_owner : Text → Registry → Bool
unfolding get_name_owner
name_has_owner name r = present (get_name_owner name r)

unfoldable pub names_held_by : Text → Registry → ℕ
unfolding values
names_held_by unique r = length (retain (any (is_of unique)) (values r.names))

unfoldable pub list_queued_owners : Text → Registry → List Text
unfolding lookup
list_queued_owners name r = map (λ e. e.unique_name) (queue_or_empty (lookup name r.names))

unfoldable pub request_name : Text → Text → ℕ → Registry → (ℕ × List NameOwnerChange) × Registry
unfolding insert lookup
request_name unique name flags r =
    let o = request_queue unique name flags (queue_or_empty (lookup name r.names)) in
    ((o.code, o.changes), record r { names = insert name o.queue r.names })

-- The queue without `unique`, dropped from the map if nothing is left.
abbrev pub store_queue : Text → Queue → Registry → Registry
store_queue name q r = record r {
  names = if is_empty q then remove name r.names else insert name q r.names;
}

abbrev pub release_found : Text → Text → Option Queue → Registry → Option NameOwnerChange × Registry
release_found unique name none r = (none, r)
release_found unique name (some q) r =
    let q' = retain (is_not_of unique) q in
    if any (is_of unique) q
    then (
      if is_primary unique q
          then some (record { name = name; old_owner = some unique; new_owner = owner_of q' })
          else none,
      store_queue name q' r,
    )
    else (none, r)

unfoldable pub release_name_internal : Text → Text → Registry → Option NameOwnerChange × Registry
unfolding insert remove lookup is_empty
release_name_internal unique name r = release_found unique name (lookup name r.names) r

abbrev pub to_list {ℓ} : {A : Type ℓ} → Option A → List A
to_list none = []
to_list (some a) = a ∷ []

abbrev pub is_queued : Text → Option Queue → Bool
is_queued unique none = false
is_queued unique (some q) = any (is_of unique) q

-- The three locks of `release_name`. What other methods do to the registry before the second and
-- before the third is given as functions.
unfoldable pub release_name_among :
    (Registry → Registry)
    → (Registry → Registry)
    → Text
    → Text
    → Registry
    → (ℕ × List NameOwnerChange) × Registry
unfolding lookup
release_name_among second third unique name r =
    if not (present (lookup name r.names))
    then ((reply_non_existent, []), r)
    else let r' = second r in
      if not (is_queued unique (lookup name r'.names))
      then ((reply_not_owner, []), r')
      else let (event, r'') = release_name_internal unique name (third r') in
        ((reply_released, to_list event), r'')

-- `release_name` with no other method between its locks.
unfoldable pub release_name : Text → Text → Registry → (ℕ × List NameOwnerChange) × Registry
unfolding release_name_among
release_name unique name r = release_name_among (λ s. s) (λ s. s) unique name r

-- The loop of `remove_connection` over the snapshot of the names; each round takes the lock anew.
-- `between` is what other methods do before a round, by the names that are left.
unfoldable pub release_all_among :
    (List Text → Registry → Registry)
    → Text
    → List Text
    → Registry
    → List NameOwnerChange × Registry
release_all_among between unique [] r = ([], r)
release_all_among between unique (name ∷ snapshot) r =
    let (event, r') = release_name_internal unique name (between (name ∷ snapshot) r) in
    let (events, r'') = release_all_among between unique snapshot r' in
    (to_list event ++ events, r'')

-- The lock of the connections, and its effect.
abbrev pub unregister : Text → Registry → Registry
unregister unique r = record r { connections = remove unique r.connections }

-- `second` is what other methods do before the snapshot.
unfoldable pub remove_connection_among :
    (Registry → Registry)
    → (List Text → Registry → Registry)
    → Text
    → Registry
    → List NameOwnerChange × Registry
unfolding remove keys release_all_among
remove_connection_among second between unique r =
    let r' = second (unregister unique r) in
    let (events, r'') = release_all_among between unique (keys r'.names) r' in
    (events ++ (record { name = unique; old_owner = some unique; new_owner = none } ∷ []), r'')

-- `remove_connection` with no other method between its locks.
unfoldable pub remove_connection : Text → Registry → List NameOwnerChange × Registry
unfolding remove_connection_among
remove_connection unique r = remove_connection_among (λ s. s) (λ names s. s) unique r
