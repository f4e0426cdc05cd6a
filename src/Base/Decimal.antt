-- ===== src/Base/Decimal.antt =====
-- The decimal form of a number, as `format!` prints it.
use Prim.Native.Nat.{ℕ, zero, suc, ◌+◌, ◌-◌, ◌*◌, ◌/◌, ◌%◌, ◌^◌, ◌<◌}
use mathlib.Core.Path.{◌≡◌, refl}
use mathlib.Core.List.{[], ◌∷◌, ◌++◌}
use native.Mathlib.Nat.{pow-suc}
use native.Mathlib.Omega.{arith}
use oxibus.Base.Tests.{ltb, if◌then◌else◌}
use oxibus.Base.Lists.{Text}

-- At most `f + 1` digits.
unfoldable pub digits : ℕ → ℕ → Text
digits zero n = (b'0' + n % 10) ∷ []
digits (suc f) n =
    let front = digits f (n / 10) in
    if ltb n 10 then (b'0' + n) ∷ [] else front ++ ((b'0' + n % 10) ∷ [])

-- A `u64` has at most 20 digits.
unfoldable pub decimal : ℕ → Text
unfolding digits
decimal n = digits 19 n

read_digits : ℕ → Text → ℕ
read_digits acc [] = acc
read_digits acc (b ∷ s) = read_digits (acc * 10 + (b - b'0')) s

read_digits-append :
    (acc : ℕ) (s t : Text) → read_digits acc (s ++ t) ≡ read_digits (read_digits acc s) t
unfolding read_digits
read_digits-append acc [] t = refl
read_digits-append acc (b ∷ s) t = read_digits-append (acc * 10 + (b - b'0')) s t

read_digits-digits : (f n : ℕ) → n < 10 ^ suc f → read_digits 0 (digits f n) ≡ n
unfolding read_digits digits
read_digits-digits zero n h = omega arith
read_digits-digits (suc f) n h = ground (
  arith,
  read_digits-append 0 (digits f (n / 10)) ((b'0' + n % 10) ∷ []),
  read_digits-digits f (n / 10) (omega (arith, pow-suc 10 (suc f))),
)

-- Two numbers of 64 bits that print alike are equal.
pub decimal-injective : (m n : ℕ) → m < 2 ^ 64 → n < 2 ^ 64 → decimal m ≡ decimal n → m ≡ n
unfolding decimal
decimal-injective m n hm hn e =
    cc (read_digits-digits 19 m (omega arith), read_digits-digits 19 n (omega arith))
