-- ===== src/Daemon/Registry/Release.antt =====
-- `release_name` and `remove_connection` of crates/oxibus-daemon/src/registry.rs.
use mathlib.Core.Path.{subst}
use oxibus.Base.{
  ◌≡◌, refl, sym, ◌≢◌, Bool, true, false, Option, none, some, [], ◌∷◌, Text, codes, any, retain,
  beq, beq_iff, beq_refl, starts_with, if◌then◌else◌, arith, Bool-cases, inl, inr,
}
use oxibus.Base.Assoc.{lookup, lookup-insert, lookup-remove}
use oxibus.Daemon.Registry.{
  Queue, Registry, NameOwnerChange, owner_of, queue_or_empty, is_of, is_not_of, is_empty,
  is_primary, get_name_owner, store_queue, to_list, release_found, is_queued, present,
  release_name_internal, release_name, release_name_among, reply_released, reply_not_owner,
  reply_non_existent,
}
use oxibus.Daemon.Registry.Queues.{
  IsDistinct, retain-IsDistinct, retain_absent, same_owner, change_of, retain-change_of,
}
use oxibus.Daemon.Registry.Ownership.{IsValid, queue_at, some-Queue_eq, get_name_owner_lem}

lookup-store_queue :
    (name : Text) (q : Queue) (r : Registry) (n : Text)
    → lookup n (store_queue name q r).names
      ≡ (if beq name n then (if is_empty q then none else some q) else lookup n r.names)
lookup-store_queue name q r n = elim (Bool-cases (is_empty q)) [
  | inl e ↦ rw (e, lookup-remove name n r.names)
  | inr e ↦ rw (e, lookup-insert name n q r.names)
]

queue_at-store_queue :
    (name : Text) (q : Queue) (r : Registry) (n : Text)
    → queue_at n (store_queue name q r) ≡ (if beq name n then q else queue_at n r)
unfolding is_empty
queue_at-store_queue name [] r n = rw (lookup-store_queue name [] r n) (ground arith)
queue_at-store_queue name (e ∷ q) r n = rw (lookup-store_queue name (e ∷ q) r n) (ground arith)

-- The registry after `release_name_internal`.
abbrev pub released : Text → Text → Registry → Registry
released u name r = (release_name_internal u name r).1

release_found-queue_at :
    (u name : Text) (o : Option Queue) (r : Registry) (n : Text)
    → lookup name r.names ≡ o
    → queue_at n (release_found u name o r).1
      ≡ (if beq name n then retain (is_not_of u) (queue_at n r) else queue_at n r)
release_found-queue_at u name none r n h = elim (Bool-cases (beq name n)) [
  | inl same ↦ rw (same, sym ((beq_iff name n).0 same), h) refl
  | inr other ↦ rw other refl
]
release_found-queue_at u name (some q) r n h = elim (Bool-cases (any (is_of u) q)) [
  | inl queued ↦ elim (Bool-cases (beq name n)) [
    | inl same ↦
        rw
          (
            queued,
            queue_at-store_queue name (retain (is_not_of u) q) r n,
            same,
            sym ((beq_iff name n).0 same),
            h,
          )
          refl
    | inr other ↦ rw (queued, queue_at-store_queue name (retain (is_not_of u) q) r n, other) refl
  ]
  | inr absent ↦ elim (Bool-cases (beq name n)) [
    | inl same ↦
        rw (absent, same, sym ((beq_iff name n).0 same), h) (sym (retain_absent u q absent))
    | inr other ↦ rw (absent, other) refl
  ]
]

pub queue_at-released :
    (u name : Text) (r : Registry) (n : Text)
    → queue_at n (released u name r)
      ≡ (if beq name n then retain (is_not_of u) (queue_at n r) else queue_at n r)
unfolding release_name_internal
queue_at-released u name r n = release_found-queue_at u name (lookup name r.names) r n refl

change_of_self : (name : Text) (o : Option Text) → change_of name o o ≡ []
unfolding change_of same_owner
change_of_self name none = refl
change_of_self name (some w) = rw (beq_refl w) refl

to_list_if :
    (b : Bool) (e : NameOwnerChange)
    → to_list (if b then some e else none) ≡ (if b then e ∷ [] else [])
to_list_if true e = refl
to_list_if false e = refl

release_found-change_of :
    (u name : Text) (o : Option Queue) (r : Registry)
    → lookup name r.names ≡ o
    → to_list (release_found u name o r).0
      ≡ change_of name
          (owner_of (queue_at name r))
          (owner_of (retain (is_not_of u) (queue_at name r)))
release_found-change_of u name none r h = rw (h, change_of_self name none) refl
release_found-change_of u name (some q) r h = elim (Bool-cases (any (is_of u) q)) [
  | inl queued ↦ rw (queued, h, to_list_if (is_primary u q)) (retain-change_of u name q queued)
  | inr absent ↦ rw (absent, h, retain_absent u q absent, change_of_self name (owner_of q)) refl
]

queue_at_own :
    (u name : Text) (r : Registry)
    → queue_at name (released u name r) ≡ retain (is_not_of u) (queue_at name r)
queue_at_own u name r = rw (queue_at-released u name r name, beq_refl name) refl

pub released-change_of :
    (u name : Text) (r : Registry)
    → to_list (release_name_internal u name r).0
      ≡ change_of name (owner_of (queue_at name r)) (owner_of (queue_at name (released u name r)))
released-change_of u name r =
    subst
      (λ q.
        to_list (release_name_internal u name r).0
        ≡ change_of name (owner_of (queue_at name r)) (owner_of q))
      (sym (queue_at_own u name r))
      (unfold release_name_internal in release_found-change_of u name (lookup name r.names) r refl)

store_queue-IsValid :
    (name : Text) (q : Queue) (r : Registry)
    → IsDistinct q
    → IsValid r
    → IsValid (store_queue name q r)
unfolding is_empty
store_queue-IsValid name [] r d v = record {
  queues = λ n q e. elim (Bool-cases (beq name n)) [
    | inl same ↦ absurd (none_some q (rw (lookup-store_queue name [] r n, same) at e))
    | inr other ↦ v.queues n q (rw (lookup-store_queue name [] r n, other) at e)
  ];
}
  where
    none_some : (q : Queue) → none ≡ some q → ⊥
    none_some q e = cc
store_queue-IsValid name (w ∷ t) r d v = record {
  queues = λ n q e. elim (Bool-cases (beq name n)) [
    | inl same ↦
        subst (λ x. (x ≢ []) × IsDistinct x)
          (some-Queue_eq (w ∷ t) q (rw (lookup-store_queue name (w ∷ t) r n, same) at e))
          (cons_ne_nil, d)
    | inr other ↦ v.queues n q (rw (lookup-store_queue name (w ∷ t) r n, other) at e)
  ];
}
  where
    cons_ne_nil : w ∷ t ≢ []
    cons_ne_nil = λ e. cc

release_found-IsValid :
    (u name : Text) (o : Option Queue) (r : Registry)
    → lookup name r.names ≡ o
    → IsValid r
    → IsValid (release_found u name o r).1
release_found-IsValid u name none r h v = v
release_found-IsValid u name (some q) r h v = elim (Bool-cases (any (is_of u) q)) [
  | inl queued ↦ rw queued (
      store_queue-IsValid name (retain (is_not_of u) q) r
        (retain-IsDistinct (is_not_of u) q (v.queues name q h).1) v)
  | inr absent ↦ rw absent v
]

pub released-IsValid : (u name : Text) (r : Registry) → IsValid r → IsValid (released u name r)
unfolding release_name_internal
released-IsValid u name r v = release_found-IsValid u name (lookup name r.names) r refl v

-- The registry changes only if the connection stands in the queue.
pub release_name-released :
    (u name : Text) (r : Registry)
    → release_name u name r ≡ (
        if is_queued u (lookup name r.names)
        then ((reply_released, to_list (release_name_internal u name r).0), released u name r)
        else (
          (if present (lookup name r.names) then reply_not_owner else reply_non_existent, []),
          r,
        ))
unfolding release_name release_name_among
release_name-released u name r = by_lookup (lookup name r.names) refl
  where
    by_lookup :
        (o : Option Queue)
        → lookup name r.names ≡ o
        → release_name u name r ≡ (
            if is_queued u (lookup name r.names)
            then ((reply_released, to_list (release_name_internal u name r).0), released u name r)
            else (
              (if present (lookup name r.names) then reply_not_owner else reply_non_existent, []),
              r,
            ))
    by_lookup none h = rw h refl
    by_lookup (some q) h = elim (Bool-cases (any (is_of u) q)) [
      | inl queued ↦ rw (h, queued) refl
      | inr absent ↦ rw (h, absent) refl
    ]

not_queued :
    (u name : Text) (r : Registry)
    → is_queued u (lookup name r.names) ≡ false
    → retain (is_not_of u) (queue_at name r) ≡ queue_at name r
not_queued u name r = by_lookup (lookup name r.names)
  where
    by_lookup :
        (o : Option Queue)
        → is_queued u o ≡ false
        → retain (is_not_of u) (queue_or_empty o) ≡ queue_or_empty o
    by_lookup none h = refl
    by_lookup (some q) h = retain_absent u q h

-- `release_name`, with no other method between its locks, takes the connection out of the queue of
-- the name, and changes no other queue.
pub release_name_queue :
    (u name n : Text) (r : Registry)
    → queue_at n (release_name u name r).1
      ≡ (if beq name n then retain (is_not_of u) (queue_at n r) else queue_at n r)
release_name_queue u name n r = elim (Bool-cases (is_queued u (lookup name r.names))) [
  | inl queued ↦ rw (release_name-released u name r, queued) (queue_at-released u name r n)
  | inr absent ↦ elim (Bool-cases (beq name n)) [
    | inl same ↦
        rw (release_name-released u name r, absent, same)
          (subst (λ k. queue_at k r ≡ retain (is_not_of u) (queue_at k r)) ((beq_iff name n).0 same)
            (sym (not_queued u name r absent)))
    | inr other ↦ rw (release_name-released u name r, absent, other) refl
  ]
]

-- `release_name` keeps every queue non-empty and free of duplicates.
pub release_name-IsValid :
    (u name : Text) (r : Registry) → IsValid r → IsValid (release_name u name r).1
release_name-IsValid u name r v = elim (Bool-cases (is_queued u (lookup name r.names))) [
  | inl queued ↦ rw (release_name-released u name r, queued) (released-IsValid u name r v)
  | inr absent ↦ rw (release_name-released u name r, absent) v
]

-- With no other method between its locks, the signals that `release_name` returns for a well-known
-- name are exactly the change of its owner: none if the owner stays, and one from the old owner to the new one otherwise.
pub release_name-change_of :
    (u name : Text) (r : Registry)
    → starts_with name (codes ":") ≡ false
    → (release_name u name r).0.1
      ≡ change_of name (get_name_owner name r) (get_name_owner name (release_name u name r).1)
release_name-change_of u name r h =
    rw (get_name_owner_lem name r h, get_name_owner_lem name (release_name u name r).1 h)
      (elim (Bool-cases (is_queued u (lookup name r.names))) [
        | inl queued ↦ rw (release_name-released u name r, queued) (released-change_of u name r)
        | inr absent ↦
            rw (release_name-released u name r, absent)
              (sym (change_of_self name (owner_of (queue_at name r))))
      ])
