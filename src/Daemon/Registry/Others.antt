-- ===== src/Daemon/Registry/Others.antt =====
-- What `request_name` of crates/oxibus-daemon/src/registry.rs does to the other connections in a queue.
use oxibus.Base.{
  ℕ, ◌≡◌, refl, Bool, true, false, not, ◌&&◌, ◌||◌, ◌==◌, [], ◌∷◌, ◌++◌, Text, append-nil, any,
  retain, retain-append, beq, beq_iff, beq_refl, if◌then◌else◌, arith, Bool-cases, inl, inr,
}
use oxibus.Daemon.Registry.{
  Queue, QueueEntry, Registry, is_of, is_not_of, has_flag, flag_replace_existing,
  flag_allow_replacement, flag_do_not_queue, replace_primary, request_queue, request_name,
  reply_exists,
}
use oxibus.Daemon.Registry.Queues.{retain_twice}
use oxibus.Daemon.Registry.Ownership.{queue_at, queue_at-request_name}

-- The others in the queue after a request of `u`: an owner that is replaced goes to the end, or leaves
-- if it does not want to wait.
abbrev pub others_after : Text → ℕ → Queue → Queue
others_after u flags [] = []
others_after u flags (p ∷ q) =
    if not (beq p.unique_name u) && has_flag flags flag_replace_existing && p.allow_replacement
    then retain (is_not_of u) q ++ (if p.do_not_queue then [] else p ∷ [])
    else retain (is_not_of u) (p ∷ q)

retain_new :
    (u : Text) (e : QueueEntry) (q : Queue)
    → beq e.unique_name u ≡ true
    → retain (is_not_of u) (q ++ (e ∷ [])) ≡ retain (is_not_of u) q
retain_new u e [] h = rw h refl
retain_new u e (d ∷ q) h = ground (arith, retain_new u e q)

retain-replace_primary :
    (u : Text) (e p : QueueEntry) (leaves : Bool) (q : Queue)
    → beq e.unique_name u ≡ true
    → beq p.unique_name u ≡ false
    → retain (is_not_of u) (replace_primary e leaves (retain (is_not_of u) (p ∷ q)))
      ≡ retain (is_not_of u) q ++ (if leaves then [] else p ∷ [])
retain-replace_primary u e p true q own other =
    rw (other, own, append-nil (retain (is_not_of u) q)) (retain_twice u q)
retain-replace_primary u e p false q own other =
    rw
      (
        other,
        own,
        retain-append (is_not_of u) (retain (is_not_of u) q) (p ∷ []),
        retain_twice u q,
        other,
      )
      refl

any_new :
    (u : Text) (e : QueueEntry) (q : Queue)
    → beq e.unique_name u ≡ true
    → any (is_of u) (q ++ (e ∷ [])) ≡ true
any_new u e [] h = rw h refl
any_new u e (d ∷ q) h = ground (arith, any_new u e q)

any-replace_primary :
    (u : Text) (e p : QueueEntry) (leaves : Bool) (q : Queue)
    → beq e.unique_name u ≡ true
    → beq p.unique_name u ≡ false
    → any (is_of u) (replace_primary e leaves (retain (is_not_of u) (p ∷ q))) ≡ true
any-replace_primary u e p leaves q own other = rw (other, own) refl

module _ (u name : Text) (flags : ℕ) where
  abbrev entry : Bool → QueueEntry
  entry d = record {
    unique_name = u;
    allow_replacement = has_flag flags flag_allow_replacement;
    do_not_queue = d;
  }

  request_queue-others_after :
      (q : Queue)
      → retain (is_not_of u) (request_queue u name flags q).queue ≡ others_after u flags q
  unfolding request_queue
  request_queue-others_after [] = rw (beq_refl u) refl
  request_queue-others_after (p ∷ q) = ground (
    arith,
    retain-replace_primary u (entry (has_flag flags flag_do_not_queue)) p p.do_not_queue q
        (beq_refl u),
    retain_new u (entry false) (p ∷ q) (beq_refl u),
  )

  request_queue-any :
      (q : Queue)
      → any (is_of u) (request_queue u name flags q).queue
        ≡ (not ((request_queue u name flags q).code == reply_exists) || any (is_of u) q)
  unfolding request_queue
  request_queue-any [] = rw (beq_refl u) refl
  request_queue-any (p ∷ q) = ground (
    arith,
    any-replace_primary u (entry (has_flag flags flag_do_not_queue)) p p.do_not_queue q
        (beq_refl u),
    any_new u (entry false) (p ∷ q) (beq_refl u),
  )

-- A request of `u` for a name leaves the queues of all other names as they were, and in the queue of
-- this name the entries of the others, with their flags and in their order, but for an owner that is
-- replaced: if the request asks for that and the owner allows it, the owner goes to the end of the
-- queue, or leaves it if it does not want to wait. Afterwards `u` stands in the queue, unless the
-- answer is `EXISTS` and it did not stand there before.
pub request_name_queues :
    (u name n : Text) (flags : ℕ) (r : Registry)
    → (queue_at n (request_name u name flags r).1
        ≡ (if beq name n then queue_at name (request_name u name flags r).1 else queue_at n r))
      × (retain (is_not_of u) (queue_at name (request_name u name flags r).1)
          ≡ others_after u flags (queue_at name r))
      × (any (is_of u) (queue_at name (request_name u name flags r).1) ≡ (
          not ((request_name u name flags r).0.0 == reply_exists)
          || any (is_of u) (queue_at name r)))
request_name_queues u name n flags r = (
  elim (Bool-cases (beq name n)) [
    | inl same ↦ rw (same, (beq_iff name n).0 same) refl
    | inr other ↦ rw (queue_at-request_name u name flags r n, other) refl
  ],
  rw (queue_at-request_name u name flags r name, beq_refl name)
      (request_queue-others_after u name flags (queue_at name r)),
  rw (queue_at-request_name u name flags r name, beq_refl name)
      (unfold request_name in request_queue-any u name flags (queue_at name r)),
)
