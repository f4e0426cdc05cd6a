-- ===== src/Base/Results.antt =====
-- Results of fallible code. `out_of_fuel` has no counterpart in the program: it marks a recursion
-- that was cut off, and the developments prove where it cannot be reached.
use mathlib.Core.Path.{◌≡◌, refl, subst}
use mathlib.Core.Logic.{◌≢◌}
use mathlib.Core.Bool.{Bool, true, false}

pub data Result {ℓ κ} (E : Type ℓ) (A : Type κ) : Type (ℓ ⊔ κ) where
  ok : A → Result E A
  err : E → Result E A
  out_of_fuel : Result E A

infixl 5 ◌>>=◌ ◌>>◌
abbrev pub ◌>>=◌ {ℓ κ μ} :
    {E : Type ℓ} {A : Type κ} {B : Type μ} → Result E A → (A → Result E B) → Result E B
ok a >>= f = f a
err e >>= f = err e
out_of_fuel >>= f = out_of_fuel

abbrev pub ◌>>◌ {ℓ κ} : {E : Type ℓ} {B : Type κ} → Result E (Unit {0}) → Result E B → Result E B
m >> k = m >>= λ _. k

-- An early `return Err(e)` when the test holds.
unfoldable pub fail_if {ℓ} : {E : Type ℓ} → Bool → E → Result E (Unit {0})
fail_if true e = err e
fail_if false e = ok tt

-- The run ended, and `P` holds of its value if it succeeded.
pub data Ensures {ℓ κ μ} {E : Type ℓ} {A : Type κ} (P : A → Type μ)
    : Result E A → Type (ℓ ⊔ κ ⊔ μ) where
  holds : {a : A} → P a → Ensures P (ok a)
  rejected : {e : E} → Ensures P (err e)

module _ {ℓ κ μ} {E : Type ℓ} {A : Type κ} {P : A → Type μ} where
  pub Ensures-ok : {r : Result E A} {a : A} → Ensures P r → r ≡ ok a → P a
  Ensures-ok (holds h) e = subst P (cc) h
  Ensures-ok rejected e = cc

  pub Ensures-out_of_fuel : {r : Result E A} → Ensures P r → r ≢ out_of_fuel
  Ensures-out_of_fuel (holds h) = cc
  Ensures-out_of_fuel rejected = cc

  pub Ensures-fail_if :
      (t : Bool) (e : E) (k : Result E A) → (t ≡ false → Ensures P k) → Ensures P (fail_if t e >> k)
  unfolding fail_if
  Ensures-fail_if true e k h = rejected
  Ensures-fail_if false e k h = h refl

module _ {ℓ κ μ κ' μ'} {E : Type ℓ} {A : Type κ} {P : A → Type μ} {B : Type κ'}
    {Q : B → Type μ'} where
  pub Ensures-bind :
      {m : Result E A} {f : A → Result E B}
      → Ensures P m
      → ((a : A) → P a → Ensures Q (f a))
      → Ensures Q (m >>= f)
  Ensures-bind (holds {a} h) k = k a h
  Ensures-bind rejected k = rejected
