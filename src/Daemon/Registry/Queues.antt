-- ===== src/Daemon/Registry/Queues.antt =====
-- The queue of owners of one name, in crates/oxibus-daemon/src/registry.rs.
use mathlib.Core.Path.{subst}
use oxibus.Base.{
  ℕ, ◌≡◌, refl, sym, ◌≢◌, Bool, true, false, ◌&&◌, Option, none, some, List, [], ◌∷◌, ◌++◌, Text,
  append-nil, any, retain, beq, beq_iff, beq_refl, if◌then◌else◌, arith, Bool-cases, inl, inr,
}
use oxibus.Daemon.Registry.{
  Queue, QueueEntry, NameOwnerChange, is_of, is_not_of, owner_of, request_queue, replace_primary,
  has_flag, flag_replace_existing, flag_do_not_queue, flag_allow_replacement, is_primary,
}

-- No connection stands twice in a queue.
abbrev pub IsDistinct : Queue → Type 0
IsDistinct [] = Unit {0}
IsDistinct (e ∷ q) = (any (is_of e.unique_name) q ≡ false) × IsDistinct q

pub any-retain_self : (u : Text) (q : Queue) → any (is_of u) (retain (is_not_of u) q) ≡ false
any-retain_self u [] = refl
any-retain_self u (e ∷ q) = ground (arith, any-retain_self u q)

any-retain :
    (p : QueueEntry → Bool) (w : Text) (q : Queue)
    → any (is_of w) q ≡ false
    → any (is_of w) (retain p q) ≡ false
any-retain p w [] h = refl
any-retain p w (e ∷ q) h = ground (arith, any-retain p w q)

pub retain-IsDistinct : (p : QueueEntry → Bool) (q : Queue) → IsDistinct q → IsDistinct (retain p q)
retain-IsDistinct p [] h = tt
retain-IsDistinct p (e ∷ q) h = elim (Bool-cases (p e)) [
  | inl y ↦ rw y (any-retain p e.unique_name q h.0, retain-IsDistinct p q h.1)
  | inr n ↦ rw n (retain-IsDistinct p q h.1)
]

any-append :
    (w : Text) (q : Queue) (e : QueueEntry)
    → any (is_of w) q ≡ false
    → beq e.unique_name w ≡ false
    → any (is_of w) (q ++ (e ∷ [])) ≡ false
any-append w [] e h h' = ground arith
any-append w (d ∷ q) e h h' = ground (arith, any-append w q e)

beq_sym : (s t : Text) → beq s t ≡ false → beq t s ≡ false
beq_sym s t h = ground (arith, beq_iff s t, beq_iff t s)

append-IsDistinct :
    (q : Queue) (e : QueueEntry)
    → IsDistinct q
    → any (is_of e.unique_name) q ≡ false
    → IsDistinct (q ++ (e ∷ []))
append-IsDistinct [] e h new = (refl, tt)
append-IsDistinct (d ∷ q) e h new = (
  any-append d.unique_name q e h.0 (beq_sym d.unique_name e.unique_name (ground arith)),
  append-IsDistinct q e h.1 (ground arith),
)

-- A queue without `u` is left as it is by the removal of `u`.
pub retain_absent : (u : Text) (q : Queue) → any (is_of u) q ≡ false → retain (is_not_of u) q ≡ q
retain_absent u [] h = refl
retain_absent u (e ∷ q) h = ground (arith, retain_absent u q)

pub retain_twice :
    (u : Text) (q : Queue) → retain (is_not_of u) (retain (is_not_of u) q) ≡ retain (is_not_of u) q
retain_twice u q = retain_absent u (retain (is_not_of u) q) (any-retain_self u q)

any-rotate :
    (w : Text) (q : Queue) (d : QueueEntry) (drop : Bool)
    → any (is_of w) (d ∷ q) ≡ false
    → any (is_of w) (q ++ (if drop then [] else d ∷ [])) ≡ false
any-rotate w q d true h = ground (arith, append-nil q)
any-rotate w q d false h = any-append w q d (ground arith) (ground arith)

replace_primary-IsDistinct :
    (entry : QueueEntry) (drop : Bool) (q : Queue)
    → IsDistinct q
    → any (is_of entry.unique_name) q ≡ false
    → IsDistinct (replace_primary entry drop q)
replace_primary-IsDistinct entry drop [] h new = (refl, tt)
replace_primary-IsDistinct entry true (d ∷ q) h new =
    (any-rotate entry.unique_name q d true new, rw append-nil h.1)
replace_primary-IsDistinct entry false (d ∷ q) h new =
    (any-rotate entry.unique_name q d false new, append-IsDistinct q d h.1 h.0)

-- A request keeps the queue free of duplicates.
pub request_queue-IsDistinct :
    (u name : Text) (flags : ℕ) (q : Queue)
    → IsDistinct q
    → IsDistinct (request_queue u name flags q).queue
unfolding request_queue
request_queue-IsDistinct u name flags [] h = (refl, tt)
request_queue-IsDistinct u name flags (p ∷ q) h = elim (Bool-cases (beq p.unique_name u)) [
  | inl same ↦ rw same h
  | inr other ↦ elim (Bool-cases (has_flag flags flag_replace_existing && p.allow_replacement)) [
    | inl replace ↦
        rw (other, replace)
          (replace_primary-IsDistinct (entry (has_flag flags flag_do_not_queue)) p.do_not_queue
            (p ∷ retain (is_not_of u) q)
            (any-retain (is_not_of u) p.unique_name q h.0, retain-IsDistinct (is_not_of u) q h.1)
            (rw other (any-retain_self u q)))
    | inr keep ↦ elim (Bool-cases (has_flag flags flag_do_not_queue)) [
      | inl exists ↦ rw (other, keep, exists) h
      | inr queued ↦ elim (Bool-cases (any (is_of u) q)) [
        | inl old ↦ rw (other, keep, queued, old) h
        | inr new ↦
            rw (other, keep, queued, new)
              (append-IsDistinct (p ∷ q) (entry false) h (rw (other, new)))
      ]
    ]
  ]
]
  where
    entry : Bool → QueueEntry
    entry d = record {
      unique_name = u;
      allow_replacement = has_flag flags flag_allow_replacement;
      do_not_queue = d;
    }

pub request_queue-ne-nil :
    (u name : Text) (flags : ℕ) (q : Queue) → (request_queue u name flags q).queue ≢ []
unfolding request_queue
request_queue-ne-nil u name flags [] = λ e. cc
request_queue-ne-nil u name flags (p ∷ q) = ground arith

-- The signals that tell of the passage from one owner of a name to another.
unfoldable pub same_owner : Option Text → Option Text → Bool
same_owner none none = true
same_owner none (some b) = false
same_owner (some a) none = false
same_owner (some a) (some b) = beq a b

unfoldable pub change_of : Text → Option Text → Option Text → List NameOwnerChange
unfolding same_owner
change_of name old new =
    if same_owner old new then [] else record { name = name; old_owner = old; new_owner = new } ∷ []

owner_of-replace_primary :
    (e : QueueEntry) (d : Bool) (q : Queue) → owner_of (replace_primary e d q) ≡ some e.unique_name
owner_of-replace_primary e d [] = refl
owner_of-replace_primary e d (x ∷ q) = refl

-- A request announces exactly the passage of the name to its new owner.
pub request_queue-change_of :
    (u name : Text) (flags : ℕ) (q : Queue)
    → (request_queue u name flags q).changes
      ≡ change_of name (owner_of q) (owner_of (request_queue u name flags q).queue)
unfolding request_queue change_of
request_queue-change_of u name flags [] = refl
request_queue-change_of u name flags (p ∷ q) = ground (arith, beq_refl p.unique_name)

owner_of-absent :
    (u : Text) (q : Queue) → any (is_of u) q ≡ false → same_owner (some u) (owner_of q) ≡ false
unfolding same_owner
owner_of-absent u [] h = refl
owner_of-absent u (e ∷ q) h = beq_sym e.unique_name u (ground arith)

-- So does a release.
pub retain-change_of :
    (u name : Text) (q : Queue)
    → any (is_of u) q ≡ true
    → (if is_primary u q
        then record {
          name = name;
          old_owner = some u;
          new_owner = owner_of (retain (is_not_of u) q);
        }
          ∷ []
        else [])
      ≡ change_of name (owner_of q) (owner_of (retain (is_not_of u) q))
unfolding change_of
retain-change_of u name [] h = cc
retain-change_of u name (e ∷ q) h = elim (Bool-cases (beq e.unique_name u)) [
  | inl primary ↦ rw primary (
      subst
        (λ w.
          record { name = name; old_owner = some u; new_owner = owner_of (retain (is_not_of u) q) }
            ∷ []
          ≡ change_of name (some w) (owner_of (retain (is_not_of u) q)))
        (sym ((beq_iff e.unique_name u).0 primary))
        (rw (owner_of-absent u (retain (is_not_of u) q) (any-retain_self u q))))
  | inr other ↦ rw (other, beq_refl e.unique_name)
]
