-- ===== src/Tests/Core.antt =====
-- The theorems on crates/oxibus-core at concrete values, signatures and headers.
use oxibus.Core.Addr.{unix_path, parse_one, to_address_string}
use oxibus.Core.Addr.RoundTrip.{IsLocal, parse_one-to_address_string}
use oxibus.Base.{
  ◌-◌, ◌*◌, ◌^◌, ◌<◌, ◌≤◌, ◌≡◌, ◌≢◌, ◌↔◌, refl, true, false, some, List, [], ◌∷◌, ◌++◌, codes,
  length, ok, out_of_fuel, ◌>>=◌, arith,
}
use oxibus.Core.Types.{
  DType, DTypes, Value, Values, max_signature_len, alignment, value_type, value_types, code,
  to_signature_string, signature_strings,
}
use oxibus.Core.Types.Int.{ℤ, to_signed, to_unsigned}
use oxibus.Core.Utf8.{is_utf8, is_utf8_after, continuations}
use oxibus.Core.Bytes.{to_bytes, from_bytes, le_bytes, gap, from_bytes-to_bytes}
use oxibus.Core.Marshal.{Marshaler, write_value, marshal_body}
use oxibus.Core.Unmarshal.{read_value, unmarshal_body}
use oxibus.Core.Signature.{parse_signature, parse_single_complete_type}
use oxibus.Core.Signature.Sound.{
  parse_signature_iff, parse_single_complete_type_iff, parse_signature-ne-out_of_fuel,
}
use oxibus.Core.Signature.Grammar.{Fits, FitAll}
use oxibus.Core.Header.{MessageType, HeaderField, MessageHeader}
use oxibus.Core.Header.Access
use oxibus.Core.Header.Access.{set_sender, validate}
use oxibus.Core.Header.Wire.{field_values, fields_of}
use oxibus.Core.Header.Fields.{fields_of-field_values, set_sender_lem}
use oxibus.Core.Message.{Message, build, reply_to, next_serial}
use oxibus.Core.Message.Replies.{reply_to_lem, next_serial_bound}
use oxibus.Core.Wire.{array_start, bytes_of, IsWireString, IsSendable, AreSendable}
use oxibus.Core.Wire.Read.{to_signed-to_unsigned}
use oxibus.Core.Wire.Fuel.{fuel_of, fuel_of_all}
use oxibus.Core.Wire.Body.{unmarshal_body-marshal_body, read_value-write_value, write_value_lem}

-- An array of texts.
abbrev hello : Value
hello = Value.array DType.string (Values.cons (Value.string (codes "hi")) Values.nil)

-- A struct of a negative number and a variant.
abbrev pair : Value
pair = Value.struct (
    Values.cons (Value.int16 (ℤ.negsuc 4))
      (Values.cons (Value.variant (Value.uint32 7)) Values.nil))

abbrev body : Values
body = Values.cons hello (Values.cons pair Values.nil)

hi-IsWireString : IsWireString (codes "hi")
unfolding is_utf8 is_utf8_after continuations
hi-IsWireString = record { utf8 = refl; no_nul = refl; short = omega arith }

cons_ne_nil : (v : Value) (vs : Values) → Values.cons v vs ≢ Values.nil
cons_ne_nil v vs = λ e. cc

hello-IsSendable : IsSendable true 0 hello
unfolding bytes_of array_start alignment gap to_bytes le_bytes value_type
hello-IsSendable = (omega arith, (refl, tt), (hi-IsWireString, tt))

body-AreSendable : AreSendable true 0 body
unfolding bytes_of array_start alignment gap to_bytes le_bytes value_type to_signature_string code
body-AreSendable = (
  hello-IsSendable,
  (
    (
      cons_ne_nil (Value.int16 (ℤ.negsuc 4))
          (Values.cons (Value.variant (Value.uint32 7)) Values.nil),
      (omega arith, ((tt, omega arith, omega arith), tt)),
    ),
    tt,
  ),
)

struct_ne_nil : (t : DType) (ts : DTypes) → DTypes.cons t ts ≢ DTypes.nil
struct_ne_nil t ts = λ e. cc

body-FitAll : FitAll 0 0 (value_types body)
unfolding value_type
body-FitAll = (
  (omega arith, tt),
  (
    (omega arith, struct_ne_nil DType.int16 (DTypes.cons DType.variant DTypes.nil), (tt, (tt, tt))),
    tt,
  ),
)

body_short : length (signature_strings (value_types body)) ≤ max_signature_len
unfolding value_type to_signature_string code
body_short = omega arith

body_fuel : fuel_of_all body ≤ 40
unfolding fuel_of
body_fuel = omega arith

unmarshal_body-marshal_body_example :
    (marshal_body body true >>= λ (buf, sig). unmarshal_body 40 buf sig true) ≡ ok body
unmarshal_body-marshal_body_example =
    unmarshal_body-marshal_body body true 40 body-AreSendable body-FitAll body_short body_fuel

abbrev empty : Marshaler
empty = record { buf = []; big_endian = true }

abbrev written : Marshaler
written = record { buf = bytes_of true 0 hello; big_endian = true }

hello_fuel : fuel_of hello ≤ 9
unfolding fuel_of
hello_fuel = omega arith

write_value_lem_example : write_value hello empty ≡ ok written
write_value_lem_example = write_value_lem hello empty hello-IsSendable

read_value-write_value_example :
    read_value 9
      (value_type hello)
      (record { buf = written.buf ++ (1 ∷ []); pos = 0; big_endian = true })
    ≡ ok (
      hello,
      record { buf = written.buf ++ (1 ∷ []); pos = length written.buf; big_endian = true },
    )
read_value-write_value_example =
    read_value-write_value hello empty written (1 ∷ []) 9 hello-IsSendable write_value_lem_example
      hello_fuel

abbrev texts : DType
texts = DType.array DType.string

parse_single_complete_type_iff_example : (parse_single_complete_type (codes "as") ≡ ok texts) ↔ (
    (codes "as" ≡ to_signature_string texts)
    × Fits false 0 0 texts
    × (length (codes "as") ≤ max_signature_len))
parse_single_complete_type_iff_example = parse_single_complete_type_iff (codes "as") texts

parse_signature_iff_example : (parse_signature (codes "as") ≡ ok (DTypes.cons texts DTypes.nil)) ↔ (
    (codes "as" ≡ signature_strings (DTypes.cons texts DTypes.nil))
    × FitAll 0 0 (DTypes.cons texts DTypes.nil)
    × (length (codes "as") ≤ max_signature_len))
parse_signature_iff_example = parse_signature_iff (codes "as") (DTypes.cons texts DTypes.nil)

parse_signature-ne-out_of_fuel_example : parse_signature (codes "a{s(ii") ≢ out_of_fuel
parse_signature-ne-out_of_fuel_example = parse_signature-ne-out_of_fuel (codes "a{s(ii")

from_bytes-to_bytes_example : from_bytes true (to_bytes true 4 70000) ≡ 70000
from_bytes-to_bytes_example = from_bytes-to_bytes true 4 70000 (omega arith)

to_signed-to_unsigned_example :
    (to_signed (2 ^ 15) (to_unsigned (2 ^ 15) (ℤ.negsuc 4)) ≡ ℤ.negsuc 4)
    × (to_unsigned (2 ^ 15) (ℤ.negsuc 4) < 2 * 2 ^ 15)
to_signed-to_unsigned_example = to_signed-to_unsigned (2 ^ 15) (ℤ.negsuc 4) (omega arith)

abbrev call_fields : List HeaderField
call_fields =
    HeaderField.path (codes "/a")
    ∷ HeaderField.sender (codes ":1.7")
    ∷ HeaderField.member (codes "Ping")
    ∷ []

abbrev call_header : MessageHeader
call_header = record {
  big_endian = false;
  message_type = MessageType.method_call;
  flags = 0;
  protocol_version = 1;
  body_length = 0;
  serial = 5;
  fields = call_fields;
}

abbrev call : Message
call = record { header = call_header; body = Values.nil; fds = [] }

fields_of-field_values_example : fields_of (field_values call_fields) ≡ ok call_fields
fields_of-field_values_example = fields_of-field_values call_fields

set_sender_lem_example :
    (Access.sender (set_sender (codes ":1.9") call_header) ≡ some (codes ":1.9"))
    × (Access.path (set_sender (codes ":1.9") call_header) ≡ Access.path call_header)
    × (Access.interface (set_sender (codes ":1.9") call_header) ≡ Access.interface call_header)
    × (Access.member (set_sender (codes ":1.9") call_header) ≡ Access.member call_header)
    × (Access.destination (set_sender (codes ":1.9") call_header) ≡ Access.destination call_header)
    × (Access.reply_serial (set_sender (codes ":1.9") call_header)
        ≡ Access.reply_serial call_header)
set_sender_lem_example = set_sender_lem (codes ":1.9") call_header

reply_to_lem_example :
    (validate (build 8 (reply_to false call (some (codes "a.B")))).header ≡ ok tt)
    × (Access.reply_serial (build 8 (reply_to false call (some (codes "a.B")))).header ≡ some 5)
    × (Access.destination (build 8 (reply_to false call (some (codes "a.B")))).header
        ≡ Access.sender call_header)
reply_to_lem_example = reply_to_lem false 8 call (some (codes "a.B"))

next_serial_bound_example :
    ((next_serial (2 ^ 32 - 1)).0 ≢ 0)
    × ((next_serial (2 ^ 32 - 1)).0 < 2 ^ 32)
    × ((next_serial (2 ^ 32 - 1)).1 < 2 ^ 32)
next_serial_bound_example = next_serial_bound (2 ^ 32 - 1) (omega arith)

spaced : IsLocal (unix_path (codes "/run/needs space"))
unfolding is_utf8 is_utf8_after continuations
spaced = (omega arith, refl)

parse_one-to_address_string_example :
    parse_one (λ s. s) (to_address_string (unix_path (codes "/run/needs space")))
    ≡ ok (unix_path (codes "/run/needs space"))
parse_one-to_address_string_example =
    parse_one-to_address_string (λ s. s) (unix_path (codes "/run/needs space")) spaced
