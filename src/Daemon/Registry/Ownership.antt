-- ===== src/Daemon/Registry/Ownership.antt =====
-- `request_name` of crates/oxibus-daemon/src/registry.rs: the invariant of the queues, what is
-- announced, and who can take a name from whom.
use mathlib.Core.Path.{subst}
use oxibus.Base.{
  ℕ, ◌≡◌, refl, ◌≢◌, true, false, ◌&&◌, ◌||◌, ◌==◌, Option, none, some, [], ◌∷◌, Text, codes, beq,
  beq_refl, starts_with, if◌then◌else◌, arith, Bool-cases, inl, inr,
}
use oxibus.Base.Assoc.{lookup, lookup-insert}
use oxibus.Daemon.Registry.{
  Queue, QueueEntry, Registry, owner_of, queue_or_empty, get_name_owner, request_queue,
  request_name, has_flag, flag_replace_existing, reply_primary_owner, reply_already_owner,
}
use oxibus.Daemon.Registry.Queues.{
  IsDistinct, request_queue-IsDistinct, request_queue-ne-nil, request_queue-change_of, change_of,
  same_owner,
}

-- Every queue that is stored has an owner and holds no connection twice.
pub record IsValid (r : Registry) : Type 0 where
  pub queues : (name : Text) (q : Queue) → lookup name r.names ≡ some q → (q ≢ []) × IsDistinct q

abbrev pub queue_at : Text → Registry → Queue
queue_at name r = queue_or_empty (lookup name r.names)

abbrev pub after_request : Text → Text → ℕ → Registry → Registry
after_request u name flags r = (request_name u name flags r).1

pub queue_at-request_name :
    (u name : Text) (flags : ℕ) (r : Registry) (n : Text)
    → lookup n (after_request u name flags r).names ≡ (
        if beq name n
        then some (request_queue u name flags (queue_at name r)).queue
        else lookup n r.names)
unfolding request_name
queue_at-request_name u name flags r n =
    lookup-insert name n (request_queue u name flags (queue_at name r)).queue r.names

queue_at-IsDistinct : (name : Text) (r : Registry) → IsValid r → IsDistinct (queue_at name r)
queue_at-IsDistinct name r h = by_lookup (lookup name r.names) refl
  where
    by_lookup : (o : Option Queue) → lookup name r.names ≡ o → IsDistinct (queue_or_empty o)
    by_lookup none e = tt
    by_lookup (some q) e = (h.queues name q e).1

pub some-Queue_eq : (a b : Queue) → some a ≡ some b → a ≡ b
some-Queue_eq a b h = cc

-- `request_name` keeps every queue non-empty and free of duplicates.
pub request_name-IsValid :
    (u name : Text) (flags : ℕ) (r : Registry) → IsValid r → IsValid (request_name u name flags r).1
request_name-IsValid u name flags r h = record {
  queues = λ n q e. elim (Bool-cases (beq name n)) [
    | inl same ↦
        subst (λ x. (x ≢ []) × IsDistinct x)
          (some-Queue_eq (request_queue u name flags (queue_at name r)).queue q
            (rw (queue_at-request_name u name flags r n, same) at e))
          (
            request_queue-ne-nil u name flags (queue_at name r),
            request_queue-IsDistinct u name flags (queue_at name r) (queue_at-IsDistinct name r h),
          )
    | inr other ↦ h.queues n q (rw (queue_at-request_name u name flags r n, other) at e)
  ];
}

pub get_name_owner_lem :
    (name : Text) (r : Registry)
    → starts_with name (codes ":") ≡ false
    → get_name_owner name r ≡ owner_of (queue_at name r)
unfolding get_name_owner
get_name_owner_lem name r h = rw h

-- The signals that `request_name` returns for a well-known name are exactly the change of its
-- owner: none if the owner stays, and one from the old owner to the new one otherwise.
pub request_name-change_of :
    (u name : Text) (flags : ℕ) (r : Registry)
    → starts_with name (codes ":") ≡ false
    → (request_name u name flags r).0.1
      ≡ change_of name (get_name_owner name r) (get_name_owner name (request_name u name flags r).1)
request_name-change_of u name flags r h =
    rw
      (
        get_name_owner_lem name r h,
        get_name_owner_lem name (after_request u name flags r) h,
        queue_at-request_name u name flags r name,
        beq_refl name,
      )
      (unfold request_name in request_queue-change_of u name flags (queue_at name r))

keeps_owner :
    (u name : Text) (flags : ℕ) (p : QueueEntry) (q : Queue)
    → has_flag flags flag_replace_existing && p.allow_replacement ≡ false
    → owner_of (request_queue u name flags (p ∷ q)).queue ≡ some p.unique_name
unfolding request_queue
keeps_owner u name flags p q h = ground arith

-- A request takes a well-known name from its owner only if it asks for a replacement and the owner
-- has allowed one.
pub request_name_replaces :
    (u name : Text) (flags : ℕ) (r : Registry) (p : QueueEntry) (q : Queue)
    → starts_with name (codes ":") ≡ false
    → lookup name r.names ≡ some (p ∷ q)
    → get_name_owner name (request_name u name flags r).1 ≢ get_name_owner name r
    → (has_flag flags flag_replace_existing ≡ true) × (p.allow_replacement ≡ true)
request_name_replaces u name flags r p q hn hq change =
    elim (Bool-cases (has_flag flags flag_replace_existing && p.allow_replacement)) [
      | inl replace ↦ ground arith
      | inr keep ↦ absurd (
          change (
            rw
              (
                get_name_owner_lem name r hn,
                get_name_owner_lem name (after_request u name flags r) hn,
                queue_at-request_name u name flags r name,
                beq_refl name,
                hq,
              )
              (keeps_owner u name flags p q keep)))
    ]

reply_owner :
    (u name : Text) (flags : ℕ) (q : Queue)
    → same_owner (owner_of (request_queue u name flags q).queue) (some u) ≡ (
        (request_queue u name flags q).code == reply_primary_owner
        || (request_queue u name flags q).code == reply_already_owner)
unfolding request_queue same_owner
reply_owner u name flags [] = beq_refl u
reply_owner u name flags (p ∷ q) = ground (arith, beq_refl u)

-- The answer of `request_name` tells the owner: `PRIMARY_OWNER` or `ALREADY_OWNER` is returned
-- exactly if the requester owns the well-known name afterwards.
pub request_name_reply :
    (u name : Text) (flags : ℕ) (r : Registry)
    → starts_with name (codes ":") ≡ false
    → same_owner (get_name_owner name (request_name u name flags r).1) (some u) ≡ (
        (request_name u name flags r).0.0 == reply_primary_owner
        || (request_name u name flags r).0.0 == reply_already_owner)
request_name_reply u name flags r h =
    rw
      (
        get_name_owner_lem name (after_request u name flags r) h,
        queue_at-request_name u name flags r name,
        beq_refl name,
      )
      (unfold request_name in reply_owner u name flags (queue_at name r))
