-- ===== src/Core/Header/Wire.antt =====
-- Writing and reading a header, in crates/oxibus-core/src/header.rs.
use oxibus.Base.{
  ℕ, ◌+◌, ◌*◌, ◌/◌, Bool, true, false, not, Option, none, some, List, [], ◌∷◌, ◌++◌, Text, length,
  drop, ok, err, ◌>>=◌, ◌>>◌, fail_if, ltb, ◌==◌, if◌then◌else◌,
}
use oxibus.Core.Error.{CoreResult, unexpected_eof, bad_byte_order, bad_protocol_version}
use oxibus.Core.Types.{DType, DTypes, Value, Values}
use oxibus.Core.Marshal
use oxibus.Core.Marshal.{Marshaler, write_u8, write_u32, write_value}
use oxibus.Core.Unmarshal
use oxibus.Core.Unmarshal.{Unmarshaler, new_unmarshaler, head_or_zero, read_u32, read_value}
use oxibus.Core.Header.{
  MessageType, HeaderField, MessageHeader, protocol_version_1, to_u8, from_u8, code, to_value,
  from_code_and_value,
}

-- The type of the elements of the array of fields.
abbrev pub field_type : DType
field_type = DType.struct (DTypes.cons DType.byte (DTypes.cons DType.variant DTypes.nil))

unfoldable pub field_values : List HeaderField → Values
unfolding code to_value
field_values [] = Values.nil
field_values (f ∷ fs) =
    Values.cons
      (Value.struct
        (Values.cons (Value.byte (code f)) (Values.cons (Value.variant (to_value f)) Values.nil)))
      (field_values fs)

unfoldable pub write_fixed : MessageHeader → Marshaler → Marshaler
unfolding write_u8 write_u32 to_u8
write_fixed h m = write_u32 h.serial (
    write_u32 h.body_length (
      write_u8 h.protocol_version (
        write_u8 h.flags
          (write_u8 (to_u8 h.message_type) (write_u8 (if h.big_endian then b'B' else b'l') m)))))

unfoldable pub write : MessageHeader → Marshaler → CoreResult Marshaler
unfolding write_fixed field_values
write h m = do
  m' ← write_value (Value.array field_type (field_values h.fields)) (write_fixed h m)
  ok (Marshal.align 8 m')

-- The tuple that `read_prefix` returns.
pub record Prefix : Type 0 where
  pub big_endian : Bool
  pub message_type : MessageType
  pub flags : ℕ
  pub protocol_version : ℕ
  pub body_length : ℕ
  pub serial : ℕ
  pub fields_array_len : ℕ

unfoldable pub byte_order : ℕ → CoreResult Bool
byte_order b = if b == b'l' then ok false else if b == b'B' then ok true else err (bad_byte_order b)

unfoldable pub read_prefix : Text → CoreResult Prefix
read_prefix buf = do
  fail_if (ltb (length buf) 16) (unexpected_eof 16 (length buf))
  big_endian ← byte_order (head_or_zero buf)
  message_type ← from_u8 (head_or_zero (drop 1 buf))
  fail_if (not (head_or_zero (drop 3 buf) == protocol_version_1))
      (bad_protocol_version (head_or_zero (drop 3 buf)))
  (body_length, u1) ← read_u32 (new_unmarshaler (drop 4 buf) big_endian)
  (serial, u2) ← read_u32 u1
  (fields_array_len, u3) ← read_u32 u2
  ok (record {
    big_endian = big_endian;
    message_type = message_type;
    flags = head_or_zero (drop 2 buf);
    protocol_version = head_or_zero (drop 3 buf);
    body_length = body_length;
    serial = serial;
    fields_array_len = fields_array_len;
  })

-- Sizes are `usize` of 64 bits, which these sums of 32-bit numbers do not leave.
unfoldable pub frame_len : Prefix → ℕ
frame_len p = (16 + p.fields_array_len + 7) / 8 * 8 + p.body_length

unfoldable pub peek_frame_len : Text → CoreResult (Option ℕ)
peek_frame_len buf =
    if ltb (length buf) 16 then ok none else (do p ← read_prefix buf; ok (some (frame_len p)))

abbrev pub to_list {ℓ} : {A : Type ℓ} → Option A → List A
to_list none = []
to_list (some a) = a ∷ []

abbrev pub inner_of : Value → Value
inner_of v = elim v [ Value.variant w ↦ w | other ↦ other ]

-- One round of the loop over the fields; `continue` gives no field.
unfoldable pub field_of_pair : Values → CoreResult (List HeaderField)
field_of_pair Values.nil = ok []
field_of_pair (Values.cons c Values.nil) = ok []
field_of_pair (Values.cons c (Values.cons v Values.nil)) = elim c [
  | Value.byte n ↦ from_code_and_value n (inner_of v) >>= λ f. ok (to_list f)
  | _ ↦ ok []
]
field_of_pair (Values.cons c (Values.cons v (Values.cons w ws))) = ok []

unfoldable pub field_of : Value → CoreResult (List HeaderField)
unfolding field_of_pair
field_of v = elim v [ Value.struct pair ↦ field_of_pair pair | _ ↦ ok [] ]

unfoldable pub fields_of : Values → CoreResult (List HeaderField)
fields_of Values.nil = ok []
fields_of (Values.cons v vs) = do here ← field_of v; rest ← fields_of vs; ok (here ++ rest)

unfoldable pub fields_of_array : Value → CoreResult (List HeaderField)
fields_of_array v = elim v [ Value.array t vs ↦ fields_of vs | _ ↦ ok [] ]

-- The fuel is that of `read_value`.
unfoldable pub read : ℕ → Text → CoreResult (MessageHeader × ℕ)
read f buf = do
  p ← read_prefix buf
  let u : Unmarshaler = record { buf = buf; pos = 4; big_endian = p.big_endian }
  (body_length, u1) ← read_u32 u
  (serial, u2) ← read_u32 u1
  (fields_value, u3) ← read_value f (DType.array field_type) u2
  fields ← fields_of_array fields_value
  end ← Unmarshal.align 8 u3
  ok (
    record {
      big_endian = p.big_endian;
      message_type = p.message_type;
      flags = p.flags;
      protocol_version = p.protocol_version;
      body_length = p.body_length;
      serial = p.serial;
      fields = fields;
    },
    end.pos,
  )
