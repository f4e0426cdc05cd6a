-- ===== src/Daemon/Registry/Names.antt =====
-- The counters of crates/oxibus-daemon/src/registry.rs: unique names and incomplete connections.
use oxibus.Base.{
  ℕ, ◌+◌, ◌%◌, ◌^◌, ◌<◌, ◌≤◌, ◌≡◌, refl, ◌∷◌, ◌++◌, true, false, leb, codes, Text, arith,
  Bool-cases, inl, inr, ◌⊎◌, ap, ◌-◌,
}
use oxibus.Base.Decimal.{decimal, decimal-injective}
use oxibus.Daemon.Registry.{Registry, unique_name_of, try_begin_incomplete, end_incomplete}

tail_eq : (a b : ℕ) (s t : Text) → a ∷ s ≡ b ∷ t → s ≡ t
tail_eq a b s t h = cc

strip : (s t : Text) → codes ":1." ++ s ≡ codes ":1." ++ t → s ≡ t
strip s t h = tail_eq b'.' b'.' s t (
    tail_eq b'1' b'1' (b'.' ∷ s) (b'.' ∷ t)
      (tail_eq b':' b':' (b'1' ∷ b'.' ∷ s) (b'1' ∷ b'.' ∷ t) h))

pub unique_name_of-injective :
    (m n : ℕ) → m < 2 ^ 64 → n < 2 ^ 64 → unique_name_of m ≡ unique_name_of n → m ≡ n
unfolding unique_name_of
unique_name_of-injective m n hm hn e = decimal-injective m n hm hn (strip (decimal m) (decimal n) e)

-- From at most `max` incomplete connections, `try_begin_incomplete` admits one more, counts it and
-- stays at `max` or below, or it stands at `max`, refuses and changes nothing.
pub try_begin_incomplete_bound :
    (max : ℕ) (r : Registry)
    → max < 2 ^ 32
    → r.incomplete ≤ max
    → (((try_begin_incomplete max r).0 ≡ true)
        × ((try_begin_incomplete max r).1.incomplete ≡ r.incomplete + 1)
        × ((try_begin_incomplete max r).1.incomplete ≤ max))
      ⊎ (((try_begin_incomplete max r).0 ≡ false)
          × ((try_begin_incomplete max r).1 ≡ r)
          × (r.incomplete ≡ max))
unfolding try_begin_incomplete
try_begin_incomplete_bound max r hm h = elim (Bool-cases (leb max r.incomplete)) [
  | inl full ↦ rw full (inr (refl, refl, ground arith))
  | inr room ↦ rw room (inl (refl, ground arith, ground arith))
]

-- `end_incomplete` takes back what a successful `try_begin_incomplete` has counted.
pub end_incomplete-try_begin_incomplete :
    (max : ℕ) (r : Registry)
    → max < 2 ^ 32
    → r.incomplete < max
    → end_incomplete (try_begin_incomplete max r).1 ≡ r
unfolding try_begin_incomplete end_incomplete
end_incomplete-try_begin_incomplete max r hm h =
    rw lt-leb_false (ap (λ n. record r { incomplete = n }) (count r.incomplete (omega arith)))
  where
    lt-leb_false : leb max r.incomplete ≡ false
    lt-leb_false = ground arith

    count : (n : ℕ) → n + 1 < 2 ^ 32 → ((n + 1) % 2 ^ 32 + 2 ^ 32 - 1) % 2 ^ 32 ≡ n
    count n hn = omega arith
