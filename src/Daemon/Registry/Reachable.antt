-- ===== src/Daemon/Registry/Reachable.antt =====
-- The registry of crates/oxibus-daemon/src/registry.rs over a run of the daemon: any sequence of its
-- operations. `unregistered` and `let_go` are what `release_name` and `remove_connection` do under one
-- lock, so a run may have other steps between their locks.
use oxibus.Base.{sym, ap, ◌∙◌, arith, ℕ, Text, List, [], ◌∷◌, ◌≡◌, some, none, Bool-cases, inl, inr}
use oxibus.Base.Assoc.{lookup, keys}
use oxibus.Daemon.Registry.{
  Registry, Queue, ConnectionEntry, new, try_begin_incomplete, end_incomplete, allocate_unique_name,
  add_connection, request_name, release_name, release_name_internal, release_name_among, unregister,
  release_all_among, remove_connection_among, present, is_queued, remove_connection,
}
use oxibus.Daemon.Registry.Ownership.{IsValid, request_name-IsValid}
use oxibus.Daemon.Registry.Release.{release_name-IsValid, released-IsValid}
use oxibus.Daemon.Registry.Removal.{remove_connection-IsValid}

-- One operation of the registry, or what it does under one of its locks.
pub data Step : Registry → Registry → Type 0 where
  began : (max : ℕ) (r : Registry) → Step r (try_begin_incomplete max r).1
  ended : (r : Registry) → Step r (end_incomplete r)
  allocated : (r : Registry) → Step r (allocate_unique_name r).1
  connected : (c : ConnectionEntry) (r : Registry) → Step r (add_connection c r)
  requested : (u name : Text) (flags : ℕ) (r : Registry) → Step r (request_name u name flags r).1
  dropped : (u name : Text) (r : Registry) → Step r (release_name u name r).1
  disconnected : (u : Text) (r : Registry) → Step r (remove_connection u r).1
  unregistered : (u : Text) (r : Registry) → Step r (unregister u r)
  let_go : (u name : Text) (r : Registry) → Step r (release_name_internal u name r).1

pub data Reachable : Registry → Type 0 where
  start : Reachable new
  next : {r s : Registry} → Reachable r → Step r s → Reachable s

new-IsValid : IsValid new
unfolding new lookup
new-IsValid = record { queues = λ n q e. absurd (none_some q e) }
  where
    none_some : (q : Queue) → none ≡ some q → ⊥
    none_some q e = cc

same_names : (r s : Registry) → s.names ≡ r.names → IsValid r → IsValid s
same_names r s e v = record { queues = λ n q h. v.queues n q (ap (lookup n) (sym e) ∙ h) }

Step-IsValid : {r s : Registry} → Step r s → IsValid r → IsValid s
unfolding try_begin_incomplete end_incomplete allocate_unique_name add_connection
Step-IsValid (began max r) v = same_names r (try_begin_incomplete max r).1 (ground arith) v
Step-IsValid (ended r) v = record { queues = v.queues }
Step-IsValid (allocated r) v = record { queues = v.queues }
Step-IsValid (connected c r) v = record { queues = v.queues }
Step-IsValid (requested u name flags r) v = request_name-IsValid u name flags r v
Step-IsValid (dropped u name r) v = release_name-IsValid u name r v
Step-IsValid (disconnected u r) v = remove_connection-IsValid u r v
Step-IsValid (unregistered u r) v = record { queues = v.queues }
Step-IsValid (let_go u name r) v = released-IsValid u name r v

-- After any sequence of operations, in which others may come between the locks of `release_name` and
-- of `remove_connection`, every queue that is stored has an owner and holds no connection twice.
pub Reachable-IsValid : {r : Registry} → Reachable r → IsValid r
Reachable-IsValid start = new-IsValid
Reachable-IsValid (next run step) = Step-IsValid step (Reachable-IsValid run)

-- What other methods do between two locks leads from a reachable registry to a reachable one.
abbrev KeepsReachable : (Registry → Registry) → Type 0
KeepsReachable f = (r : Registry) → Reachable r → Reachable (f r)

-- So does `release_name`, whatever reachable changes come between its locks.
release_name_among-Reachable :
    (second third : Registry → Registry) (u name : Text) (r : Registry)
    → KeepsReachable second
    → KeepsReachable third
    → Reachable r
    → Reachable (release_name_among second third u name r).1
unfolding release_name_among
release_name_among-Reachable second third u name r hs ht h =
    elim (Bool-cases (present (lookup name r.names))) [
      | inr missing ↦ rw missing h
      | inl found ↦ elim (Bool-cases (is_queued u (lookup name (second r).names))) [
        | inr stranger ↦ rw (found, stranger) (hs r h)
        | inl queued ↦
            rw (found, queued) (next (ht (second r) (hs r h)) (let_go u name (third (second r))))
      ]
    ]

release_all_among-Reachable :
    (between : List Text → Registry → Registry) (u : Text) (names : List Text) (r : Registry)
    → ((left : List Text) → KeepsReachable (between left))
    → Reachable r
    → Reachable (release_all_among between u names r).1
unfolding release_all_among
release_all_among-Reachable between u [] r hb h = h
release_all_among-Reachable between u (name ∷ names) r hb h =
    release_all_among-Reachable between u names
      (release_name_internal u name (between (name ∷ names) r)).1 hb
      (next (hb (name ∷ names) r h) (let_go u name (between (name ∷ names) r)))

-- And `remove_connection`.
remove_connection_among-Reachable :
    (second : Registry → Registry) (between : List Text → Registry → Registry) (u : Text)
    (r : Registry)
    → KeepsReachable second
    → ((left : List Text) → KeepsReachable (between left))
    → Reachable r
    → Reachable (remove_connection_among second between u r).1
unfolding remove_connection_among
remove_connection_among-Reachable second between u r hs hb h =
    release_all_among-Reachable between u (keys (second (unregister u r)).names)
      (second (unregister u r)) hb (hs (unregister u r) (next h (unregistered u r)))
