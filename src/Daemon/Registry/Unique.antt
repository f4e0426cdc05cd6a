-- ===== src/Daemon/Registry/Unique.antt =====
-- The unique names that crates/oxibus-daemon/src/registry.rs hands out over a run of the daemon.
use mathlib.Core.Path.{subst}
use oxibus.Base.{
  ℕ, ◌+◌, ◌^◌, ◌<◌, ◌≤◌, ◌≡◌, ◌≢◌, ◌⊎◌, refl, sym, ◌∙◌, Option, none, some, [], ◌∷◌, ◌++◌, List,
  Text, All, All-map, length, length-append, arith, inl, inr, if_ind,
}
use oxibus.Base.Assoc.{lookup, keys}
use oxibus.Daemon.Registry.{
  Registry, Queue, NameOwnerChange, unique_name_of, allocate_unique_name, try_begin_incomplete,
  end_incomplete, add_connection, request_name, release_found, release_name_internal, release_name,
  release_all_among, remove_connection, remove_connection_among, unregister, is_queued,
}
use oxibus.Daemon.Registry.Release.{release_name-released}
use oxibus.Daemon.Registry.Names.{unique_name_of-injective}
use oxibus.Daemon.Registry.Reachable.{
  Step, began, ended, allocated, connected, requested, dropped, disconnected, unregistered, let_go,
}

-- The names that a step hands out.
abbrev pub handed : {r s : Registry} → Step r s → List Text
unfolding allocate_unique_name
handed (allocated r) = (allocate_unique_name r).0 ∷ []
handed _ = []

-- A run of the registry, with the names that it hands out.
pub data Run : Registry → List Text → Registry → Type 0 where
  stay : (r : Registry) → Run r [] r
  go :
      {r s t : Registry} {names : List Text} (step : Step r s)
      → Run s names t
      → Run r (handed step ++ names) t

abbrev pub AllDistinct : List Text → Type 0
AllDistinct [] = Unit {0}
AllDistinct (w ∷ ws) = All (λ v. w ≢ v) ws × AllDistinct ws

-- A name numbered from `low` on.
abbrev IsFrom : ℕ → Text → Type 0
IsFrom low w = (k : ℕ) × (low ≤ k) × (k < 2 ^ 64) × (w ≡ unique_name_of k)

next_id-release_found :
    (u name : Text) (o : Option Queue) (r : Registry)
    → (release_found u name o r).1.next_id ≡ r.next_id
next_id-release_found u name none r = refl
next_id-release_found u name (some q) r = ground arith

next_id-let_go :
    (u name : Text) (r : Registry) → (release_name_internal u name r).1.next_id ≡ r.next_id
unfolding release_name_internal
next_id-let_go u name r = next_id-release_found u name (lookup name r.names) r

next_id-release_all :
    (u : Text) (names : List Text) (r : Registry)
    → (release_all_among (λ left s. s) u names r).1.next_id ≡ r.next_id
unfolding release_all_among
next_id-release_all u [] r = refl
next_id-release_all u (name ∷ names) r =
    next_id-release_all u names (release_name_internal u name r).1 ∙ next_id-let_go u name r

next_id-release_name :
    (u name : Text) (r : Registry) → (release_name u name r).1.next_id ≡ r.next_id
next_id-release_name u name r = rw (release_name-released u name r) (
    if_ind (λ (x : (ℕ × List NameOwnerChange) × Registry). x.1.next_id ≡ r.next_id)
      (is_queued u (lookup name r.names)) _ _ (λ _. next_id-let_go u name r) (λ _. refl))

-- The counter after a step.
counted :
    {r s : Registry} (step : Step r s)
    → r.next_id + length (handed step) < 2 ^ 64
    → s.next_id ≡ r.next_id + length (handed step)
unfolding try_begin_incomplete end_incomplete add_connection request_name remove_connection
    remove_connection_among allocate_unique_name
counted (began max r) h = ground arith
counted (ended r) h = omega arith
counted (allocated r) h = omega arith
counted (connected c r) h = omega arith
counted (requested u name flags r) h = omega arith
counted (dropped u name r) h = omega (arith, next_id-release_name u name r)
counted (disconnected u r) h = omega (arith, next_id-release_all u (keys r.names) (unregister u r))
counted (unregistered u r) h = omega arith
counted (let_go u name r) h = omega (arith, next_id-let_go u name r)

handed-cases :
    {r s : Registry} (step : Step r s)
    → (handed step ≡ []) ⊎ (handed step ≡ unique_name_of r.next_id ∷ [])
unfolding allocate_unique_name
handed-cases (began max r) = inl refl
handed-cases (ended r) = inl refl
handed-cases (allocated r) = inr refl
handed-cases (connected c r) = inl refl
handed-cases (requested u name flags r) = inl refl
handed-cases (dropped u name r) = inl refl
handed-cases (disconnected u r) = inl refl
handed-cases (unregistered u r) = inl refl
handed-cases (let_go u name r) = inl refl

IsFrom-later : (m n : ℕ) → m ≤ n → (w : Text) → IsFrom n w → IsFrom m w
IsFrom-later m n h w (k, low, high, e) = (k, omega arith, high, e)

IsFrom-ne : (n : ℕ) (w : Text) → n < 2 ^ 64 → IsFrom (n + 1) w → unique_name_of n ≢ w
IsFrom-ne n w h (k, low, high, e) =
    λ same. absurd (omega (arith, unique_name_of-injective n k h high (same ∙ e)))

abbrev AreFrom : ℕ → List Text → Type 0
AreFrom low names = All (IsFrom low) names × AllDistinct names

-- What holds behind a step holds before it.
abbrev Backward : ℕ → List Text → List Text → Type 0
Backward n names new =
    n + length (new ++ names) < 2 ^ 64 → AreFrom (n + length new) names → AreFrom n (new ++ names)

AreFrom-append :
    (n : ℕ) (new names : List Text)
    → (new ≡ []) ⊎ (new ≡ unique_name_of n ∷ [])
    → Backward n names new
AreFrom-append n new names (inl e) = subst (Backward n names) (sym e) λ h (from, distinct). (
  All-map (IsFrom (n + 0)) (IsFrom n) names (IsFrom-later n (n + 0) (omega arith)) from,
  distinct,
)
AreFrom-append n new names (inr e) = subst (Backward n names) (sym e) λ h (from, distinct). (
  (
    (n, omega arith, omega arith, refl),
    All-map (IsFrom (n + 1)) (IsFrom n) names (IsFrom-later n (n + 1) (omega arith)) from,
  ),
  (
    All-map (IsFrom (n + 1)) (λ v. unique_name_of n ≢ v) names (λ v. IsFrom-ne n v (omega arith))
        from,
    distinct,
  ),
)

length-append_names : (new names : List Text) → length (new ++ names) ≡ length new + length names
length-append_names = length-append

Run-AreFrom :
    {r t : Registry} {names : List Text}
    → Run r names t
    → r.next_id + length names < 2 ^ 64
    → AreFrom r.next_id names
Run-AreFrom (stay r) h = (tt, tt)
Run-AreFrom (go {r} {s} {t} {names} step run) h =
    AreFrom-append r.next_id (handed step) names (handed-cases step) h
      (subst (λ n. AreFrom n names) next (Run-AreFrom run (omega (arith, next, total))))
  where
    total : length (handed step ++ names) ≡ length (handed step) + length names
    total = length-append_names (handed step) names

    next : s.next_id ≡ r.next_id + length (handed step)
    next = counted step (omega (arith, total))

-- The unique names that a run of the registry hands out are all different, as long as the counter of
-- 64 bits does not wrap around.
pub Run-AllDistinct :
    {r t : Registry} {names : List Text}
    → Run r names t
    → r.next_id + length names < 2 ^ 64
    → AllDistinct names
Run-AllDistinct run h = (Run-AreFrom run h).1
