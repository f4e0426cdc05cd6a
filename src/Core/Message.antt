-- ===== src/Core/Message.antt =====
-- crates/oxibus-core/src/message.rs: messages, their builder and their bytes. A file descriptor is
-- its number.
pub mod Replies
use Prim.Native.Nat.{bit_and}
use oxibus.Base.{
  ℕ, zero, suc, ◌+◌, ◌%◌, ◌^◌, Bool, true, false, not, Option, none, some, List, [], ◌∷◌, ◌++◌,
  Text, length, take, drop, retain, Result, ok, err, out_of_fuel, ◌>>=◌, ◌>>◌, fail_if, ltb, ◌==◌,
  if◌then◌else◌,
}
use oxibus.Core.Error.{CoreResult, fd_index_out_of_range}
use oxibus.Core.Types.{Value, Values}
use oxibus.Core.Signature.{new_signature}
use oxibus.Core.Marshal.{Marshaler, new_marshaler, marshal_body}
use oxibus.Core.Unmarshal.{unmarshal_body}
use oxibus.Core.Header.{MessageType, HeaderField, MessageHeader, protocol_version_1}
use oxibus.Core.Header.Access
use oxibus.Core.Header.Wire

abbrev pub no_reply_expected_flag : ℕ
no_reply_expected_flag = 0x1

abbrev pub no_auto_start_flag : ℕ
no_auto_start_flag = 0x2

abbrev pub allow_interactive_authorization_flag : ℕ
allow_interactive_authorization_flag = 0x4

-- `SerialGenerator.next` on the value of the counter: a second round follows only a zero.
unfoldable pub next_serial : ℕ → ℕ × ℕ
next_serial v = if v == 0 then (1, 2) else (v, (v + 1) % 2 ^ 32)

pub record Message : Type 0 where
  pub header : MessageHeader
  pub body : Values
  pub fds : List ℕ

abbrev pub is_empty : Text → Bool
is_empty [] = true
is_empty (b ∷ s) = false

abbrev pub is_kept : HeaderField → Bool
is_kept f = elim f [ HeaderField.signature s ↦ false | HeaderField.unix_fds v ↦ false | _ ↦ true ]

unfoldable pub signature_field : Text → CoreResult (List HeaderField)
signature_field [] = ok []
signature_field (b ∷ sig) = new_signature (b ∷ sig) >>= λ s. ok (HeaderField.signature s ∷ [])

unfoldable pub fds_field : List ℕ → List HeaderField
fds_field [] = []
fds_field (fd ∷ fds) = HeaderField.unix_fds (length (fd ∷ fds) % 2 ^ 32) ∷ []

-- The header that `to_bytes` writes.
unfoldable pub sent_header : Message → Text → Text → CoreResult MessageHeader
unfolding signature_field fds_field
sent_header msg body_bytes sig = do
  s ← signature_field sig
  ok (record (msg.header) {
    body_length = length body_bytes % 2 ^ 32;
    fields = (retain is_kept msg.header.fields ++ s) ++ fds_field msg.fds;
  })

unfoldable pub to_bytes : Message → CoreResult Text
unfolding sent_header
to_bytes msg = do
  (body_bytes, sig) ← marshal_body msg.body msg.header.big_endian
  header ← sent_header msg body_bytes sig
  Access.validate header
  m ← Wire.write header (new_marshaler header.big_endian)
  ok (m.buf ++ body_bytes)

unfoldable pub read_body : ℕ → Text → Text → Bool → CoreResult Values
read_body f body_buf [] big_endian = ok Values.nil
read_body f body_buf (b ∷ sig) big_endian = unmarshal_body f body_buf (b ∷ sig) big_endian

-- The result of `from_bytes`. The slice of the body panics where the buffer is too short.
pub data FromBytes : Type 0 where
  returned : CoreResult Message → FromBytes
  panicked : FromBytes

unfoldable pub finish : ℕ → Text → List ℕ → MessageHeader × ℕ → FromBytes
unfolding read_body
finish f buf fds (header, body_offset) =
    if ltb (length buf) (body_offset + header.body_length)
    then panicked
    else returned (do
      body ←
          read_body f (take header.body_length (drop body_offset buf)) (Access.signature header)
            header.big_endian
      fail_if (ltb (length fds) (Access.unix_fds header))
          (fd_index_out_of_range (Access.unix_fds header) (length fds))
      ok (record { header = header; body = body; fds = fds }))

-- The fuel is that of `read_value`, for the header and for the body.
unfoldable pub from_bytes : ℕ → Text → List ℕ → FromBytes
unfolding finish
from_bytes f buf fds = elim (Wire.read f buf) [
  | ok r ↦ finish f buf fds r
  | err e ↦ returned (err e)
  | out_of_fuel ↦ returned out_of_fuel
]

pub record MessageBuilder : Type 0 where
  pub message_type : MessageType
  pub flags : ℕ
  pub fields : List HeaderField
  pub body : Values
  pub fds : List ℕ
  pub big_endian : Bool

-- The byte order is that of the machine.
unfoldable pub new_builder : Bool → MessageType → MessageBuilder
new_builder big_endian t = record {
  message_type = t;
  flags = 0;
  fields = [];
  body = Values.nil;
  fds = [];
  big_endian = big_endian;
}

unfoldable pub push_field : HeaderField → MessageBuilder → MessageBuilder
push_field f b = record b { fields = b.fields ++ (f ∷ []) }

unfoldable pub method_call : Bool → Text → Text → MessageBuilder
unfolding new_builder push_field
method_call big_endian path member =
    push_field (HeaderField.member member)
      (push_field (HeaderField.path path) (new_builder big_endian MessageType.method_call))

unfoldable pub signal : Bool → Text → Text → Text → MessageBuilder
unfolding new_builder push_field
signal big_endian path interface member = push_field (HeaderField.member member) (
    push_field (HeaderField.interface interface)
      (push_field (HeaderField.path path) (new_builder big_endian MessageType.signal)))

unfoldable pub method_return : Bool → ℕ → MessageBuilder
unfolding new_builder push_field
method_return big_endian reply_to_serial =
    push_field (HeaderField.reply_serial reply_to_serial)
      (new_builder big_endian MessageType.method_return)

unfoldable pub error : Bool → ℕ → Text → MessageBuilder
unfolding new_builder push_field
error big_endian reply_to_serial error_name = push_field (HeaderField.error_name error_name) (
    push_field (HeaderField.reply_serial reply_to_serial)
      (new_builder big_endian MessageType.error))

unfoldable pub build : ℕ → MessageBuilder → Message
build serial b = record {
  header = record {
    big_endian = b.big_endian;
    message_type = b.message_type;
    flags = b.flags;
    protocol_version = protocol_version_1;
    body_length = 0;
    serial = serial;
    fields = b.fields;
  };
  body = b.body;
  fds = b.fds;
}

unfoldable pub sender : Text → MessageBuilder → MessageBuilder
unfolding push_field
sender s b = push_field (HeaderField.sender s) b

unfoldable pub destination : Text → MessageBuilder → MessageBuilder
unfolding push_field
destination dest b = push_field (HeaderField.destination dest) b

unfoldable pub extend_values : Values → Values → Values
extend_values Values.nil ws = ws
extend_values (Values.cons v vs) ws = Values.cons v (extend_values vs ws)

unfoldable pub args : Values → MessageBuilder → MessageBuilder
unfolding extend_values
args vs b = record b { body = extend_values b.body vs }

unfoldable pub arg : Value → MessageBuilder → MessageBuilder
unfolding args
arg v b = args (Values.cons v Values.nil) b

unfoldable pub no_reply_expected : Message → Bool
no_reply_expected msg = not (bit_and msg.header.flags no_reply_expected_flag == 0)

unfoldable pub no_auto_start : Message → Bool
no_auto_start msg = not (bit_and msg.header.flags no_auto_start_flag == 0)

abbrev pub address_to : Option Text → MessageBuilder → MessageBuilder
unfolding push_field
address_to none b = b
address_to (some sender) b = push_field (HeaderField.destination sender) b

unfoldable pub reply_to : Bool → Message → Option Text → MessageBuilder
unfolding method_return error
reply_to big_endian call none =
    address_to (Access.sender call.header) (method_return big_endian call.header.serial)
reply_to big_endian call (some name) =
    address_to (Access.sender call.header) (error big_endian call.header.serial name)
