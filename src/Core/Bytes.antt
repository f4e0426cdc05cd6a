-- ===== src/Core/Bytes.antt =====
-- `to_le_bytes`, `to_be_bytes` and their inverses, on numbers of n bytes, and the padding to an
-- alignment.
use mathlib.Core.List.{reverse, reverse-reverse, reverse-append}
use native.Mathlib.Nat.{pow-suc}
use oxibus.Base.{
  ℕ, zero, suc, ◌+◌, ◌-◌, ◌*◌, ◌/◌, ◌%◌, ◌^◌, ◌<◌, ◌≡◌, refl, ap, ◌∙◌, Bool, true, false, [], ◌∷◌,
  Text, arith, length, length-append, if◌then◌else◌, ◌==◌,
}

unfoldable pub le_bytes : ℕ → ℕ → Text
le_bytes zero v = []
le_bytes (suc n) v = v % 256 ∷ le_bytes n (v / 256)

unfoldable pub from_le : Text → ℕ
from_le [] = 0
from_le (b ∷ s) = b + 256 * from_le s

unfoldable pub to_bytes : Bool → ℕ → ℕ → Text
unfolding le_bytes
to_bytes big_endian n v = if big_endian then reverse (le_bytes n v) else le_bytes n v

unfoldable pub from_bytes : Bool → Text → ℕ
unfolding from_le
from_bytes big_endian s = if big_endian then from_le (reverse s) else from_le s

from_le-le_bytes : (n v : ℕ) → v < 256 ^ n → from_le (le_bytes n v) ≡ v
unfolding from_le le_bytes
from_le-le_bytes zero v h = omega arith
from_le-le_bytes (suc n) v h =
    omega (arith, from_le-le_bytes n (v / 256) (omega (arith, pow-suc 256 n)))

length-le_bytes : (n v : ℕ) → length (le_bytes n v) ≡ n
unfolding le_bytes
length-le_bytes zero v = refl
length-le_bytes (suc n) v = ap suc (length-le_bytes n (v / 256))

length-reverse : (s : Text) → length (reverse s) ≡ length s
length-reverse [] = refl
length-reverse (b ∷ s) =
    rw (reverse-append (b ∷ []) s)
      (length-append (reverse s) (b ∷ []) ∙ omega (arith, length-reverse s))

pub length-to_bytes : (big_endian : Bool) (n v : ℕ) → length (to_bytes big_endian n v) ≡ n
unfolding to_bytes
length-to_bytes true n v = length-reverse (le_bytes n v) ∙ length-le_bytes n v
length-to_bytes false n v = length-le_bytes n v

-- A number below 256 ^ n is read back from its n bytes, in either byte order.
pub from_bytes-to_bytes :
    (big_endian : Bool) (n v : ℕ)
    → v < 256 ^ n
    → from_bytes big_endian (to_bytes big_endian n v) ≡ v
unfolding to_bytes from_bytes
from_bytes-to_bytes true n v h = rw reverse-reverse (from_le-le_bytes n v h)
from_bytes-to_bytes false n v h = from_le-le_bytes n v h

-- The number of zero bytes from position `pos` to the next multiple of `n`.
unfoldable pub gap : ℕ → ℕ → ℕ
gap n pos = if pos % n == 0 then 0 else n - pos % n
