-- ===== src/Base/Options.antt =====
-- Methods of `Option` that the program uses.
use mathlib.Core.Path.{◌≡◌, refl}
use mathlib.Core.Bool.{Bool, true, false}
use mathlib.Core.Option.{Option, none, some}
use oxibus.Base.Lists.{Text, beq}

module _ {ℓ} {A : Type ℓ} where
  -- `unwrap_or`
  abbrev pub or_else : A → Option A → A
  or_else d none = d
  or_else d (some a) = a

  -- `or`: the first that is there.
  abbrev pub first_some : Option A → Option A → Option A
  first_some none o = o
  first_some (some a) o = some a

  abbrev pub present : Option A → Bool
  present none = false
  present (some a) = true

  -- `is_none_or`: what a guard `if let Some(x) = o && !test { return false }` lets through.
  abbrev pub none_or : Option A → (A → Bool) → Bool
  none_or none test = true
  none_or (some a) test = test a

  abbrev pub some_and : Option A → (A → Bool) → Bool
  some_and none test = false
  some_and (some a) test = test a

-- `==` on `Option<&str>`.
abbrev pub opt_beq : Option Text → Option Text → Bool
opt_beq none none = true
opt_beq none (some t) = false
opt_beq (some s) none = false
opt_beq (some s) (some t) = beq s t

module _ {ℓ} {A : Type ℓ} where
  pub first_some-none : (o : Option A) → first_some o none ≡ o
  first_some-none none = refl
  first_some-none (some a) = refl

  pub first_some_assoc :
      (o p q : Option A) → first_some (first_some o p) q ≡ first_some o (first_some p q)
  first_some_assoc none p q = refl
  first_some_assoc (some a) p q = refl

  pub or_else-first_some :
      (d : A) (o p : Option A) → or_else d (first_some o p) ≡ or_else (or_else d p) o
  or_else-first_some d none p = refl
  or_else-first_some d (some a) p = refl
