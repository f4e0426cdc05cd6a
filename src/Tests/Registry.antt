-- ===== src/Tests/Registry.antt =====
-- The theorems on crates/oxibus-daemon/src/registry.rs at a registry with two owners of one name.
use oxibus.Base.{
  ◌+◌, ◌≤◌, ◌≡◌, ◌≢◌, ◌⊎◌, ◌||◌, refl, true, false, not, none, some, [], ◌∷◌, Text, codes, any,
  retain, beq, starts_with, ◌==◌, if◌then◌else◌, arith,
}
use oxibus.Base.Assoc.{lookup, insert, remove}
use oxibus.Daemon.Registry.{
  Registry, Queue, is_of, is_not_of, new, unique_name_of, reply_exists, request_name, release_name,
  remove_connection, get, get_name_owner, allocate_unique_name, try_begin_incomplete,
  end_incomplete, has_flag, flag_replace_existing, reply_primary_owner, reply_already_owner,
  request_queue,
}
use oxibus.Daemon.Registry.Queues.{change_of, same_owner}
use oxibus.Daemon.Registry.Ownership.{
  IsValid, queue_at, request_name-change_of, request_name_replaces, request_name_reply,
}
use oxibus.Daemon.Registry.Release.{release_name_queue, release_name-change_of}
use oxibus.Daemon.Registry.Removal.{remove_connection_queues, get-remove_connection}
use oxibus.Daemon.Registry.Others.{others_after, request_name_queues}
use oxibus.Daemon.Registry.Unique.{Run, stay, go, AllDistinct, Run-AllDistinct}
use oxibus.Daemon.Registry.Names.{try_begin_incomplete_bound, end_incomplete-try_begin_incomplete}
use oxibus.Daemon.Registry.Reachable.{
  Reachable, start, next, allocated, requested, disconnected, Reachable-IsValid,
}

abbrev a : Text
a = codes ":1.1"

abbrev b : Text
b = codes ":1.2"

abbrev name : Text
name = codes "x.Y"

-- `a` owns the name and allows a replacement; `b` waits.
abbrev entries : Queue
entries =
    record { unique_name = a; allow_replacement = true; do_not_queue = false }
    ∷ record { unique_name = b; allow_replacement = false; do_not_queue = false }
    ∷ []

abbrev two_owners : Registry
two_owners = record { connections = []; names = (name, entries) ∷ []; next_id = 3; incomplete = 1 }

well_known : starts_with name (codes ":") ≡ false
unfolding starts_with
well_known = refl

run : Reachable (remove_connection a (request_name a name 0 new).1).1
run = next (next start (requested a name 0 new)) (disconnected a (request_name a name 0 new).1)

Reachable-IsValid_example : IsValid (remove_connection a (request_name a name 0 new).1).1
Reachable-IsValid_example = Reachable-IsValid run

request_name-change_of_example :
    (request_name b name 2 two_owners).0.1
    ≡ change_of name
        (get_name_owner name two_owners)
        (get_name_owner name (request_name b name 2 two_owners).1)
request_name-change_of_example = request_name-change_of b name 2 two_owners well_known

request_name_queues_example :
    (queue_at (codes "z") (request_name b name 2 two_owners).1 ≡ (
      if beq name (codes "z")
      then queue_at name (request_name b name 2 two_owners).1
      else queue_at (codes "z") two_owners))
    × (retain (is_not_of b) (queue_at name (request_name b name 2 two_owners).1)
        ≡ others_after b 2 (queue_at name two_owners))
    × (any (is_of b) (queue_at name (request_name b name 2 two_owners).1) ≡ (
        not ((request_name b name 2 two_owners).0.0 == reply_exists)
        || any (is_of b) (queue_at name two_owners)))
request_name_queues_example = request_name_queues b name (codes "z") 2 two_owners

found : lookup name two_owners.names ≡ some entries
unfolding lookup beq
found = refl

taken : get_name_owner name (request_name b name 2 two_owners).1 ≢ get_name_owner name two_owners
unfolding get_name_owner request_name insert remove lookup beq starts_with request_queue has_flag
taken = λ e. cc

request_name_replaces_example : (has_flag 2 flag_replace_existing ≡ true) × (true ≡ true)
request_name_replaces_example =
    request_name_replaces b name 2 two_owners
      (record { unique_name = a; allow_replacement = true; do_not_queue = false })
      (record { unique_name = b; allow_replacement = false; do_not_queue = false } ∷ []) well_known
      found taken

request_name_reply_example :
    same_owner (get_name_owner name (request_name b name 2 two_owners).1) (some b) ≡ (
      (request_name b name 2 two_owners).0.0 == reply_primary_owner
      || (request_name b name 2 two_owners).0.0 == reply_already_owner)
request_name_reply_example = request_name_reply b name 2 two_owners well_known

release_name_queue_example : queue_at name (release_name a name two_owners).1 ≡ (
    if beq name name
    then retain (is_not_of a) (queue_at name two_owners)
    else queue_at name two_owners)
release_name_queue_example = release_name_queue a name name two_owners

release_name-change_of_example :
    (release_name a name two_owners).0.1
    ≡ change_of name
        (get_name_owner name two_owners)
        (get_name_owner name (release_name a name two_owners).1)
release_name-change_of_example = release_name-change_of a name two_owners well_known

remove_connection_queues_example :
    queue_at name (remove_connection a two_owners).1
    ≡ retain (is_not_of a) (queue_at name two_owners)
remove_connection_queues_example = remove_connection_queues a name two_owners

get-remove_connection_example :
    get b (remove_connection a two_owners).1 ≡ (if beq a b then none else get b two_owners)
get-remove_connection_example = get-remove_connection a b two_owners

-- Two connections, and a request of the first one between their arrivals.
abbrev one : Registry
one = (allocate_unique_name two_owners).1

two_arrivals :
    Run two_owners
      (unique_name_of 3 ∷ unique_name_of 4 ∷ [])
      (allocate_unique_name (request_name a (codes "z") 0 one).1).1
unfolding allocate_unique_name request_name
two_arrivals = go (allocated two_owners) (
    go (requested a (codes "z") 0 one) (
      go (allocated (request_name a (codes "z") 0 one).1)
        (stay (allocate_unique_name (request_name a (codes "z") 0 one).1).1)))

Run-AllDistinct_example : AllDistinct (unique_name_of 3 ∷ unique_name_of 4 ∷ [])
Run-AllDistinct_example = Run-AllDistinct two_arrivals (omega arith)

try_begin_incomplete_bound_example :
    (((try_begin_incomplete 5 two_owners).0 ≡ true)
      × ((try_begin_incomplete 5 two_owners).1.incomplete ≡ 1 + 1)
      × ((try_begin_incomplete 5 two_owners).1.incomplete ≤ 5))
    ⊎ (((try_begin_incomplete 5 two_owners).0 ≡ false)
        × ((try_begin_incomplete 5 two_owners).1 ≡ two_owners)
        × (two_owners.incomplete ≡ 5))
try_begin_incomplete_bound_example =
    try_begin_incomplete_bound 5 two_owners (omega arith) (omega arith)

end_incomplete-try_begin_incomplete_example :
    end_incomplete (try_begin_incomplete 5 two_owners).1 ≡ two_owners
end_incomplete-try_begin_incomplete_example =
    end_incomplete-try_begin_incomplete 5 two_owners (omega arith) (omega arith)
