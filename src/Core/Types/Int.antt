-- ===== src/Core/Types/Int.antt =====
-- The signed integers of Rust, and the casts `as u16`, `as i16` and so on between a signed integer
-- and its two's complement bit pattern.
use oxibus.Base.{ℕ, ◌-◌, ◌*◌, ◌%◌, ◌<◌, ltb, if◌then◌else◌}

-- `negsuc n` is -(n + 1).
pub data ℤ : Type 0 where
  pos : ℕ → ℤ
  negsuc : ℕ → ℤ

-- `h` is half the modulus: 2^15, 2^31 or 2^63.
abbrev pub InRange : ℕ → ℤ → Type 0
InRange h (pos n) = n < h
InRange h (negsuc n) = n < h

unfoldable pub to_unsigned : ℕ → ℤ → ℕ
to_unsigned h (pos n) = n % (2 * h)
to_unsigned h (negsuc n) = 2 * h - 1 - n % (2 * h)

unfoldable pub to_signed : ℕ → ℕ → ℤ
to_signed h n = if ltb n h then pos n else negsuc (2 * h - 1 - n)
