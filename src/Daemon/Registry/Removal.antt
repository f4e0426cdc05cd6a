-- ===== src/Daemon/Registry/Removal.antt =====
-- `remove_connection` of crates/oxibus-daemon/src/registry.rs.
use oxibus.Base.{
  ◌≡◌, refl, ap, ◌∙◌, Bool, true, false, ◌||◌, Option, none, some, List, [], ◌∷◌, Text, any, retain,
  beq, if◌then◌else◌, arith, Bool-cases, inl, inr,
}
use oxibus.Base.Assoc.{lookup, remove, keys, lookup-remove, any-keys_of_lookup}
use oxibus.Daemon.Registry.{
  Queue, Registry, is_not_of, get, release_name_internal, release_found, release_all_among,
  remove_connection_among, unregister, remove_connection,
}
use oxibus.Daemon.Registry.Queues.{retain_twice}
use oxibus.Daemon.Registry.Ownership.{IsValid, queue_at}
use oxibus.Daemon.Registry.Release.{released, queue_at-released, released-IsValid}

-- The registry after the loop of `remove_connection`.
abbrev all_released : Text → List Text → Registry → Registry
unfolding release_all_among
all_released u names r = (release_all_among (λ left s. s) u names r).1

queue_at-all_released :
    (u : Text) (names : List Text) (r : Registry) (n : Text)
    → queue_at n (all_released u names r)
      ≡ (if any (λ j. beq j n) names then retain (is_not_of u) (queue_at n r) else queue_at n r)
unfolding release_all_among
queue_at-all_released u [] r n = refl
queue_at-all_released u (name ∷ names) r n =
    queue_at-all_released u names (released u name r) n ∙ step (any (λ j. beq j n) names)
  where
    step :
        (later : Bool)
        → (if later
            then retain (is_not_of u) (queue_at n (released u name r))
            else queue_at n (released u name r))
          ≡ (if beq name n || later then retain (is_not_of u) (queue_at n r) else queue_at n r)
    step later = elim (Bool-cases (beq name n)) [
      | inl same ↦ rw (queue_at-released u name r n, same) (again later)
      | inr other ↦ rw (queue_at-released u name r n, other) refl
    ]
      where
        again :
            (later : Bool)
            → (if later
                then retain (is_not_of u) (retain (is_not_of u) (queue_at n r))
                else retain (is_not_of u) (queue_at n r))
              ≡ retain (is_not_of u) (queue_at n r)
        again true = retain_twice u (queue_at n r)
        again false = refl

all_released-IsValid :
    (u : Text) (names : List Text) (r : Registry) → IsValid r → IsValid (all_released u names r)
unfolding release_all_among
all_released-IsValid u [] r v = v
all_released-IsValid u (name ∷ names) r v =
    all_released-IsValid u names (released u name r) (released-IsValid u name r v)

pub connections-release_found :
    (u name : Text) (o : Option Queue) (r : Registry)
    → (release_found u name o r).1.connections ≡ r.connections
connections-release_found u name none r = refl
connections-release_found u name (some q) r = ground arith

connections-released :
    (u name : Text) (r : Registry) → (released u name r).connections ≡ r.connections
unfolding release_name_internal
connections-released u name r = connections-release_found u name (lookup name r.names) r

connections-all_released :
    (u : Text) (names : List Text) (r : Registry)
    → (all_released u names r).connections ≡ r.connections
unfolding release_all_among
connections-all_released u [] r = refl
connections-all_released u (name ∷ names) r =
    connections-all_released u names (released u name r) ∙ connections-released u name r

-- The queue of a name is covered by the snapshot of the names, or it is empty.
snapshot_covers :
    (u n : Text) (r : Registry)
    → (if any (λ j. beq j n) (keys r.names)
        then retain (is_not_of u) (queue_at n r)
        else queue_at n r)
      ≡ retain (is_not_of u) (queue_at n r)
snapshot_covers u n r = by_lookup (lookup n r.names) refl
  where
    by_lookup :
        (o : Option Queue)
        → lookup n r.names ≡ o
        → (if any (λ j. beq j n) (keys r.names)
            then retain (is_not_of u) (queue_at n r)
            else queue_at n r)
          ≡ retain (is_not_of u) (queue_at n r)
    by_lookup none h = rw h (ground arith)
    by_lookup (some q) h = rw (any-keys_of_lookup n r.names q h) refl

-- `remove_connection`, with no other method between its locks, takes the entries of the connection
-- out of the queue of every name, and leaves the others in each queue as they were, with their flags
-- and in their order.
pub remove_connection_queues :
    (u n : Text) (r : Registry)
    → queue_at n (remove_connection u r).1 ≡ retain (is_not_of u) (queue_at n r)
unfolding remove_connection remove_connection_among
remove_connection_queues u n r =
    queue_at-all_released u (keys r.names) (unregister u r) n ∙ snapshot_covers u n r

-- `remove_connection` keeps every queue non-empty and free of duplicates.
pub remove_connection-IsValid :
    (u : Text) (r : Registry) → IsValid r → IsValid (remove_connection u r).1
unfolding remove_connection remove_connection_among
remove_connection-IsValid u r v =
    all_released-IsValid u (keys r.names) (unregister u r) (record { queues = v.queues })

pub connections-remove_connection :
    (u : Text) (r : Registry) → (remove_connection u r).1.connections ≡ remove u r.connections
unfolding remove_connection remove_connection_among
connections-remove_connection u r = connections-all_released u (keys r.names) (unregister u r)

-- After `remove_connection`, with no other method between its locks, the registry finds the
-- connection no more, and all others as before.
pub get-remove_connection :
    (u n : Text) (r : Registry)
    → get n (remove_connection u r).1 ≡ (if beq u n then none else get n r)
unfolding remove_connection remove_connection_among get
get-remove_connection u n r =
    ap (lookup n) (connections-all_released u (keys r.names) (unregister u r))
    ∙ lookup-remove u n r.connections
