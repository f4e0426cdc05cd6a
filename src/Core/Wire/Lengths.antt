-- ===== src/Core/Wire/Lengths.antt =====
-- Lengths of pieces of the wire format, for `omega`.
use oxibus.Base.{ℕ, ◌≡◌, length, length-append_text, length-replicate, arith}
use oxibus.Core.Bytes.{gap, length-to_bytes}
use oxibus.Core.Wire.{padding}

pub length-padding : (n pos : ℕ) → length (padding n pos) ≡ gap n pos
length-padding n pos = length-replicate (gap n pos) 0

pub ruleset lengths = (arith, length-append_text, length-to_bytes, length-padding)
