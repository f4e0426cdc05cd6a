-- ===== src/Core/Marshal.antt =====
-- crates/oxibus-core/src/marshal.rs: writing values in the wire format.
-- A method that fails leaves a partly written buffer, which every caller drops with the error.
use oxibus.Base.{
  ℕ, ◌+◌, ◌-◌, ◌%◌, ◌^◌, Bool, [], ◌∷◌, ◌++◌, Text, length, take, drop, replicate, any, ok, ◌>>=◌,
  ◌>>◌, fail_if, ltb, ◌==◌, if◌then◌else◌,
}
use oxibus.Core.Error.{CoreResult, embedded_nul, signature_too_long, array_too_long}
use oxibus.Core.Types.{
  Value, Values, max_signature_len, max_array_len, alignment, to_signature_string, value_type,
}
use oxibus.Core.Types.Int.{ℤ, to_unsigned}
use oxibus.Core.Bytes.{to_bytes}

pub record Marshaler : Type 0 where
  pub buf : Text
  pub big_endian : Bool

unfoldable pub new_marshaler : Bool → Marshaler
new_marshaler big_endian = record { buf = []; big_endian = big_endian }

abbrev pub append : Text → Marshaler → Marshaler
append s m = record m { buf = m.buf ++ s }

unfoldable pub align : ℕ → Marshaler → Marshaler
align n m = let rem = length m.buf % n in if rem == 0 then m else append (replicate (n - rem) 0) m

unfoldable pub write_u8 : ℕ → Marshaler → Marshaler
write_u8 v m = append (v ∷ []) m

-- `write_u16`, `write_u32` and `write_u64` align to their width and push that many bytes.
unfoldable pub write_uint : ℕ → ℕ → Marshaler → Marshaler
unfolding align
write_uint width v m = append (to_bytes m.big_endian width v) (align width m)

unfoldable pub write_u16 : ℕ → Marshaler → Marshaler
unfolding write_uint
write_u16 = write_uint 2

unfoldable pub write_i16 : ℤ → Marshaler → Marshaler
unfolding write_u16
write_i16 v = write_u16 (to_unsigned (2 ^ 15) v)

unfoldable pub write_u32 : ℕ → Marshaler → Marshaler
unfolding write_uint
write_u32 = write_uint 4

unfoldable pub write_i32 : ℤ → Marshaler → Marshaler
unfolding write_u32
write_i32 v = write_u32 (to_unsigned (2 ^ 31) v)

unfoldable pub write_u64 : ℕ → Marshaler → Marshaler
unfolding write_uint
write_u64 = write_uint 8

unfoldable pub write_i64 : ℤ → Marshaler → Marshaler
unfolding write_u64
write_i64 v = write_u64 (to_unsigned (2 ^ 63) v)

-- The argument is `to_bits` of the float.
unfoldable pub write_f64 : ℕ → Marshaler → Marshaler
unfolding write_u64
write_f64 = write_u64

-- Every call patches four bytes that were written before.
unfoldable pub patch_u32 : ℕ → ℕ → Marshaler → Marshaler
patch_u32 at v m = record m {
  buf = take at m.buf ++ (to_bytes m.big_endian 4 v ++ drop (at + 4) m.buf);
}

unfoldable pub write_raw_string : Text → Marshaler → CoreResult Marshaler
write_raw_string s m = do
  fail_if (any (λ b. b == 0) s) embedded_nul
  ok (append (s ++ (0 ∷ [])) (write_u32 (length s % 2 ^ 32) m))

unfoldable pub write_signature_str : Text → Marshaler → CoreResult Marshaler
write_signature_str s m = do
  fail_if (ltb max_signature_len (length s)) (signature_too_long (length s))
  ok (append (length s % 256 ∷ (s ++ (0 ∷ []))) m)

-- The end of the array arm: the length check and the patch.
unfoldable pub close_array : ℕ → ℕ → Marshaler → CoreResult Marshaler
close_array len_pos start m = do
  fail_if (ltb max_array_len (length m.buf - start)) (array_too_long (length m.buf - start))
  ok (patch_u32 len_pos ((length m.buf - start) % 2 ^ 32) m)

unfoldable mutual
  pub write_value : Value → Marshaler → CoreResult Marshaler
  write_value (Value.byte v) m = ok (write_u8 v m)
  write_value (Value.boolean v) m = ok (write_u32 (if v then 1 else 0) m)
  write_value (Value.int16 v) m = ok (write_i16 v m)
  write_value (Value.uint16 v) m = ok (write_u16 v m)
  write_value (Value.int32 v) m = ok (write_i32 v m)
  write_value (Value.uint32 v) m = ok (write_u32 v m)
  write_value (Value.int64 v) m = ok (write_i64 v m)
  write_value (Value.uint64 v) m = ok (write_u64 v m)
  write_value (Value.double v) m = ok (write_f64 v m)
  write_value (Value.string s) m = write_raw_string s m
  write_value (Value.object_path s) m = write_raw_string s m
  write_value (Value.signature s) m = write_signature_str s m
  write_value (Value.unix_fd v) m = ok (write_u32 v m)
  write_value (Value.array t vs) m =
      let aligned = align 4 m in
      let opened = align (alignment t) (write_u32 0 aligned) in
      write_values vs opened >>= close_array (length aligned.buf) (length opened.buf)
  write_value (Value.struct vs) m = write_values vs (align 8 m)
  write_value (Value.dict_entry k v) m = do m' ← write_value k (align 8 m); write_value v m'
  write_value (Value.variant v) m = do
    m' ← write_signature_str (to_signature_string (value_type v)) m
    write_value v m'

  pub write_values : Values → Marshaler → CoreResult Marshaler
  write_values Values.nil m = ok m
  write_values (Values.cons v vs) m = do m' ← write_value v m; write_values vs m'

unfoldable pub signatures_of : Values → Text
signatures_of Values.nil = []
signatures_of (Values.cons v vs) = to_signature_string (value_type v) ++ signatures_of vs

unfoldable pub marshal_body : Values → Bool → CoreResult (Text × Text)
marshal_body values big_endian = do
  m ← write_values values (new_marshaler big_endian)
  ok (m.buf, signatures_of values)
