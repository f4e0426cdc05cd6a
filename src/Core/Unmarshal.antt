-- ===== src/Core/Unmarshal.antt =====
-- crates/oxibus-core/src/unmarshal.rs: reading values from the wire format.
use oxibus.Base.{
  ℕ, zero, suc, ◌+◌, ◌-◌, ◌%◌, ◌^◌, Bool, true, false, not, [], ◌∷◌, Text, length, take, drop, ok,
  err, out_of_fuel, ◌>>=◌, ◌>>◌, fail_if, ltb, ◌==◌, if◌then◌else◌,
}
use oxibus.Core.Error.{
  CoreResult, invalid_signature, invalid_object_path, invalid_utf8, unexpected_eof, invalid_boolean,
  array_too_long,
}
use oxibus.Core.Types.{DType, DTypes, Value, Values, max_array_len, alignment}
use oxibus.Core.Types.Int.{ℤ, to_signed}
use oxibus.Core.Types.Paths.{is_valid_object_path}
use oxibus.Core.Signature.{parse_signature, parse_single_complete_type, new_signature}
use oxibus.Core.Bytes.{from_bytes}
use oxibus.Core.Utf8.{is_utf8}

pub record Unmarshaler : Type 0 where
  pub buf : Text
  pub pos : ℕ
  pub big_endian : Bool

unfoldable pub new_unmarshaler : Text → Bool → Unmarshaler
new_unmarshaler buf big_endian = record { buf = buf; pos = 0; big_endian = big_endian }

abbrev pub skip : ℕ → Unmarshaler → Unmarshaler
skip n u = record u { pos = u.pos + n }

-- `buf[pos..pos + n]` and `buf[pos + n]`, which each call guards by `need`.
abbrev pub slice : ℕ → Unmarshaler → Text
slice n u = take n (drop u.pos u.buf)

abbrev pub head_or_zero : Text → ℕ
head_or_zero [] = 0
head_or_zero (b ∷ s) = b

abbrev pub byte_at : ℕ → Unmarshaler → ℕ
byte_at n u = head_or_zero (drop n (drop u.pos u.buf))

unfoldable pub need : ℕ → Unmarshaler → CoreResult (Unit {0})
unfolding fail_if
need n u = fail_if (ltb (length u.buf) (u.pos + n)) (unexpected_eof n (length u.buf - u.pos))

unfoldable pub align : ℕ → Unmarshaler → CoreResult Unmarshaler
align n u =
    let rem = u.pos % n in if rem == 0 then ok u else (do need (n - rem) u; ok (skip (n - rem) u))

unfoldable pub read_u8 : Unmarshaler → CoreResult (ℕ × Unmarshaler)
read_u8 u = do need 1 u; ok (byte_at 0 u, skip 1 u)

-- `read_u16`, `read_u32` and `read_u64` align to their width and take that many bytes.
unfoldable pub read_uint : ℕ → Unmarshaler → CoreResult (ℕ × Unmarshaler)
read_uint width u = do
  u' ← align width u
  need width u'
  ok (from_bytes u'.big_endian (slice width u'), skip width u')

unfoldable pub read_u16 : Unmarshaler → CoreResult (ℕ × Unmarshaler)
unfolding read_uint
read_u16 = read_uint 2

unfoldable pub read_i16 : Unmarshaler → CoreResult (ℤ × Unmarshaler)
unfolding read_u16
read_i16 u = do (v, u') ← read_u16 u; ok (to_signed (2 ^ 15) v, u')

unfoldable pub read_u32 : Unmarshaler → CoreResult (ℕ × Unmarshaler)
unfolding read_uint
read_u32 = read_uint 4

unfoldable pub read_i32 : Unmarshaler → CoreResult (ℤ × Unmarshaler)
unfolding read_u32
read_i32 u = do (v, u') ← read_u32 u; ok (to_signed (2 ^ 31) v, u')

unfoldable pub read_u64 : Unmarshaler → CoreResult (ℕ × Unmarshaler)
unfolding read_uint
read_u64 = read_uint 8

unfoldable pub read_i64 : Unmarshaler → CoreResult (ℤ × Unmarshaler)
unfolding read_u64
read_i64 u = do (v, u') ← read_u64 u; ok (to_signed (2 ^ 63) v, u')

-- The result is the bits of the float.
unfoldable pub read_f64 : Unmarshaler → CoreResult (ℕ × Unmarshaler)
unfolding read_u64
read_f64 = read_u64

unfoldable pub read_raw_string : Unmarshaler → CoreResult (Text × Unmarshaler)
read_raw_string u = do
  (len, u') ← read_u32 u
  need (len + 1) u'
  fail_if (not (is_utf8 (slice len u'))) invalid_utf8
  fail_if (not (byte_at len u' == 0)) (invalid_signature (slice len u') "string not NUL-terminated")
  ok (slice len u', skip (len + 1) u')

unfoldable pub read_signature_str : Unmarshaler → CoreResult (Text × Unmarshaler)
read_signature_str u = do
  (len, u') ← read_u8 u
  need (len + 1) u'
  fail_if (not (is_utf8 (slice len u'))) invalid_utf8
  fail_if (not (byte_at len u' == 0))
      (invalid_signature (slice len u') "signature not NUL-terminated")
  ok (slice len u', skip (len + 1) u')

abbrev pub boolean_of : ℕ → Unmarshaler → CoreResult (Value × Unmarshaler)
boolean_of raw u =
    if raw == 0
    then ok (Value.boolean false, u)
    else if raw == 1
    then ok (Value.boolean true, u)
    else err (invalid_boolean raw)

unfoldable pub read_boolean : Unmarshaler → CoreResult (Value × Unmarshaler)
read_boolean u = do (raw, u') ← read_u32 u; boolean_of raw u'

unfoldable pub read_object_path : Unmarshaler → CoreResult (Value × Unmarshaler)
read_object_path u = do
  (s, u') ← read_raw_string u
  fail_if (not (is_valid_object_path s)) (invalid_object_path s)
  ok (Value.object_path s, u')

unfoldable pub read_signature : Unmarshaler → CoreResult (Value × Unmarshaler)
read_signature u = do
  (s, u') ← read_signature_str u
  sig ← new_signature s
  ok (Value.signature sig, u')

-- The check after the loop over the elements.
unfoldable pub close_array : DType → ℕ → Values × Unmarshaler → CoreResult (Value × Unmarshaler)
close_array t end (vs, u) = do
  fail_if (not (u.pos == end))
      (invalid_signature [] "array element did not end on declared boundary")
  ok (Value.array t vs, u)

abbrev pub tag {ℓ} : {A : Type ℓ} → (A → Value) → A × Unmarshaler → CoreResult (Value × Unmarshaler)
tag c (a, u) = ok (c a, u)

-- `read_value` on fuel: a unit for each nested call and each round of a loop.
unfoldable mutual
  pub read_value : ℕ → DType → Unmarshaler → CoreResult (Value × Unmarshaler)
  read_value zero t u = out_of_fuel
  read_value (suc f) DType.byte u = read_u8 u >>= tag Value.byte
  read_value (suc f) DType.boolean u = read_boolean u
  read_value (suc f) DType.int16 u = read_i16 u >>= tag Value.int16
  read_value (suc f) DType.uint16 u = read_u16 u >>= tag Value.uint16
  read_value (suc f) DType.int32 u = read_i32 u >>= tag Value.int32
  read_value (suc f) DType.uint32 u = read_u32 u >>= tag Value.uint32
  read_value (suc f) DType.int64 u = read_i64 u >>= tag Value.int64
  read_value (suc f) DType.uint64 u = read_u64 u >>= tag Value.uint64
  read_value (suc f) DType.double u = read_f64 u >>= tag Value.double
  read_value (suc f) DType.string u = read_raw_string u >>= tag Value.string
  read_value (suc f) DType.object_path u = read_object_path u
  read_value (suc f) DType.signature u = read_signature u
  read_value (suc f) DType.unix_fd u = read_u32 u >>= tag Value.unix_fd
  read_value (suc f) (DType.array t) u = do
    (byte_len, u') ← read_u32 u
    fail_if (ltb max_array_len byte_len) (array_too_long byte_len)
    start ← align (alignment t) u'
    need byte_len start
    read_elements f t (start.pos + byte_len) start >>= close_array t (start.pos + byte_len)
  read_value (suc f) (DType.struct ts) u = do
    u' ← align 8 u
    read_fields f ts u' >>= tag Value.struct
  read_value (suc f) (DType.dict_entry k v) u = do
    u' ← align 8 u
    (key, u'') ← read_value f k u'
    (val, end) ← read_value f v u''
    ok (Value.dict_entry key val, end)
  read_value (suc f) DType.variant u = do
    (sig, u') ← read_signature_str u
    t ← parse_single_complete_type sig
    read_value f t u' >>= tag Value.variant

  pub read_elements : ℕ → DType → ℕ → Unmarshaler → CoreResult (Values × Unmarshaler)
  read_elements zero t end u = out_of_fuel
  read_elements (suc f) t end u = elim (ltb u.pos end) [
    | true ↦ do
      (v, u') ← read_value f t u
      (vs, u'') ← read_elements f t end u'
      ok (Values.cons v vs, u'')
    | false ↦ ok (Values.nil, u)
  ]

  -- `read_values`, and the loop over the fields of a struct.
  pub read_fields : ℕ → DTypes → Unmarshaler → CoreResult (Values × Unmarshaler)
  read_fields zero ts u = out_of_fuel
  read_fields (suc f) DTypes.nil u = ok (Values.nil, u)
  read_fields (suc f) (DTypes.cons t ts) u = do
    (v, u') ← read_value f t u
    (vs, u'') ← read_fields f ts u'
    ok (Values.cons v vs, u'')

unfoldable pub unmarshal_body : ℕ → Text → Text → Bool → CoreResult Values
unmarshal_body f buf signature big_endian = do
  ts ← parse_signature signature
  (vs, u) ← read_fields f ts (new_unmarshaler buf big_endian)
  ok vs
