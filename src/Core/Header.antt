-- ===== src/Core/Header.antt =====
-- crates/oxibus-core/src/header.rs: the header of a message and its fields.
pub mod Access
pub mod Wire
pub mod Fields
use Prim.Native.String.{String}
use oxibus.Base.{ℕ, Bool, Option, none, some, List, ◌++◌, Text, codes, ok, err, ◌==◌, if◌then◌else◌}
use oxibus.Base.Decimal.{decimal}
use oxibus.Core.Error.{CoreError, CoreResult, invalid_signature, type_mismatch}
use oxibus.Core.Types.{Value}

abbrev pub protocol_version_1 : ℕ
protocol_version_1 = 1

pub data MessageType : Type 0 where
  method_call : MessageType
  method_return : MessageType
  error : MessageType
  signal : MessageType

-- `self as u8`
unfoldable pub to_u8 : MessageType → ℕ
to_u8 MessageType.method_call = 1
to_u8 MessageType.method_return = 2
to_u8 MessageType.error = 3
to_u8 MessageType.signal = 4

unfoldable pub from_u8 : ℕ → CoreResult MessageType
unfolding decimal
from_u8 v =
    if v == 1
    then ok MessageType.method_call
    else if v == 2
    then ok MessageType.method_return
    else if v == 3
    then ok MessageType.error
    else if v == 4
    then ok MessageType.signal
    else err (invalid_signature (decimal v) "unknown message type")

pub data HeaderField : Type 0 where
  path : Text → HeaderField
  interface : Text → HeaderField
  member : Text → HeaderField
  error_name : Text → HeaderField
  reply_serial : ℕ → HeaderField
  destination : Text → HeaderField
  sender : Text → HeaderField
  signature : Text → HeaderField
  unix_fds : ℕ → HeaderField

unfoldable pub code : HeaderField → ℕ
code (HeaderField.path p) = 1
code (HeaderField.interface s) = 2
code (HeaderField.member s) = 3
code (HeaderField.error_name s) = 4
code (HeaderField.reply_serial v) = 5
code (HeaderField.destination s) = 6
code (HeaderField.sender s) = 7
code (HeaderField.signature s) = 8
code (HeaderField.unix_fds v) = 9

unfoldable pub to_value : HeaderField → Value
to_value (HeaderField.path p) = Value.object_path p
to_value (HeaderField.interface s) = Value.string s
to_value (HeaderField.member s) = Value.string s
to_value (HeaderField.error_name s) = Value.string s
to_value (HeaderField.reply_serial v) = Value.uint32 v
to_value (HeaderField.destination s) = Value.string s
to_value (HeaderField.sender s) = Value.string s
to_value (HeaderField.signature s) = Value.signature s
to_value (HeaderField.unix_fds v) = Value.uint32 v

unfoldable pub bad_field {ℓ} : {A : Type ℓ} → String → CoreResult A
bad_field name =
    err (type_mismatch (codes "header field " ++ codes name ++ codes " has wrong variant type"))

unfoldable pub expect_string :
    Value → (Text → HeaderField) → String → CoreResult (Option HeaderField)
unfolding bad_field
expect_string v c name = elim v [
  | Value.string s ↦ ok (some (c s))
  | Value.object_path p ↦ ok (some (c p))
  | _ ↦ bad_field name
]

abbrev pub expect_path : Value → CoreResult (Option HeaderField)
unfolding bad_field
expect_path v = elim v [
  | Value.object_path p ↦ ok (some (HeaderField.path p))
  | _ ↦ bad_field "PATH"
]

abbrev pub expect_signature : Value → CoreResult (Option HeaderField)
unfolding bad_field
expect_signature v = elim v [
  | Value.signature s ↦ ok (some (HeaderField.signature s))
  | _ ↦ bad_field "SIGNATURE"
]

abbrev pub expect_u32 : Value → (ℕ → HeaderField) → String → CoreResult (Option HeaderField)
unfolding bad_field
expect_u32 v c name = elim v [ Value.uint32 n ↦ ok (some (c n)) | _ ↦ bad_field name ]

unfoldable pub from_code_and_value : ℕ → Value → CoreResult (Option HeaderField)
unfolding expect_string
from_code_and_value c v =
    if c == 1
    then expect_path v
    else if c == 2
    then expect_string v HeaderField.interface "INTERFACE"
    else if c == 3
    then expect_string v HeaderField.member "MEMBER"
    else if c == 4
    then expect_string v HeaderField.error_name "ERROR_NAME"
    else if c == 5
    then expect_u32 v HeaderField.reply_serial "REPLY_SERIAL"
    else if c == 6
    then expect_string v HeaderField.destination "DESTINATION"
    else if c == 7
    then expect_string v HeaderField.sender "SENDER"
    else if c == 8
    then expect_signature v
    else if c == 9
    then expect_u32 v HeaderField.unix_fds "UNIX_FDS"
    else ok none

pub record MessageHeader : Type 0 where
  pub big_endian : Bool
  pub message_type : MessageType
  pub flags : ℕ
  pub protocol_version : ℕ
  pub body_length : ℕ
  pub serial : ℕ
  pub fields : List HeaderField
