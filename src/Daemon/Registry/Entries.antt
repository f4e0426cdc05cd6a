-- ===== src/Daemon/Registry/Entries.antt =====
-- The queues of owners of crates/oxibus-daemon/src/registry.rs, and `request_name` on one of them.
use Prim.Native.Nat.{bit_and}
use oxibus.Base.{
  ℕ, Bool, true, false, not, ◌&&◌, Option, none, some, List, [], ◌∷◌, ◌++◌, Text, any, retain, beq,
  ◌==◌, if◌then◌else◌,
}

abbrev pub flag_allow_replacement : ℕ
flag_allow_replacement = 0x1

abbrev pub flag_replace_existing : ℕ
flag_replace_existing = 0x2

abbrev pub flag_do_not_queue : ℕ
flag_do_not_queue = 0x4

-- The codes of the replies, `REQUEST_REPLY_…` and `RELEASE_REPLY_…`.
abbrev pub reply_primary_owner : ℕ
reply_primary_owner = 1

abbrev pub reply_in_queue : ℕ
reply_in_queue = 2

abbrev pub reply_exists : ℕ
reply_exists = 3

abbrev pub reply_already_owner : ℕ
reply_already_owner = 4

abbrev pub reply_released : ℕ
reply_released = 1

abbrev pub reply_non_existent : ℕ
reply_non_existent = 2

abbrev pub reply_not_owner : ℕ
reply_not_owner = 3

pub record QueueEntry : Type 0 where
  pub unique_name : Text
  pub allow_replacement : Bool
  pub do_not_queue : Bool

-- The `queue` of `NameOwnership`.
abbrev pub Queue : Type 0
Queue = List QueueEntry

pub record NameOwnerChange : Type 0 where
  pub name : Text
  pub old_owner : Option Text
  pub new_owner : Option Text

unfoldable pub is_empty : Queue → Bool
is_empty [] = true
is_empty (e ∷ q) = false

abbrev pub is_of : Text → QueueEntry → Bool
is_of unique e = beq e.unique_name unique

abbrev pub is_not_of : Text → QueueEntry → Bool
is_not_of unique e = not (beq e.unique_name unique)

abbrev pub owner_of : Queue → Option Text
owner_of [] = none
owner_of (e ∷ q) = some e.unique_name

abbrev pub queue_or_empty : Option Queue → Queue
queue_or_empty none = []
queue_or_empty (some q) = q

-- `request_flags & flag != 0`
unfoldable pub has_flag : ℕ → ℕ → Bool
has_flag flags flag = not (bit_and flags flag == 0)

-- What `request_name` answers and what it makes of the queue.
pub record Outcome : Type 0 where
  pub code : ℕ
  pub changes : List NameOwnerChange
  pub queue : Queue

-- `remove(0)`, `insert(0, …)` and the push of the displaced owner.
abbrev pub replace_primary : QueueEntry → Bool → Queue → Queue
replace_primary entry old_do_not_queue [] = entry ∷ []
replace_primary entry old_do_not_queue (displaced ∷ rest) =
    entry ∷ (rest ++ (if old_do_not_queue then [] else displaced ∷ []))

unfoldable pub request_queue : Text → Text → ℕ → Queue → Outcome
unfolding has_flag
request_queue unique name flags [] = record {
  code = reply_primary_owner;
  changes = record { name = name; old_owner = none; new_owner = some unique } ∷ [];
  queue =
      record {
        unique_name = unique;
        allow_replacement = has_flag flags flag_allow_replacement;
        do_not_queue = has_flag flags flag_do_not_queue;
      }
      ∷ [];
}
request_queue unique name flags (primary ∷ rest) =
    if beq primary.unique_name unique
    then record { code = reply_already_owner; changes = []; queue = primary ∷ rest }
    else if has_flag flags flag_replace_existing && primary.allow_replacement
    then record {
      code = reply_primary_owner;
      changes =
          record { name = name; old_owner = some primary.unique_name; new_owner = some unique }
          ∷ [];
      queue =
          replace_primary
            (record {
              unique_name = unique;
              allow_replacement = has_flag flags flag_allow_replacement;
              do_not_queue = has_flag flags flag_do_not_queue;
            })
            primary.do_not_queue (retain (is_not_of unique) (primary ∷ rest));
    }
    else if has_flag flags flag_do_not_queue
    then record { code = reply_exists; changes = []; queue = primary ∷ rest }
    else record {
      code = reply_in_queue;
      changes = [];
      queue =
          if any (is_of unique) (primary ∷ rest)
          then primary ∷ rest
          else (primary ∷ rest)
            ++ (record {
              unique_name = unique;
              allow_replacement = has_flag flags flag_allow_replacement;
              do_not_queue = false;
            }
                ∷ []);
    }

-- `was_primary`
abbrev pub is_primary : Text → Queue → Bool
is_primary unique [] = false
is_primary unique (e ∷ q) = beq e.unique_name unique
