-- ===== src/Core/Header/Access.antt =====
-- The fields of a header by name, and the check of the mandatory ones, in
-- crates/oxibus-core/src/header.rs.
use oxibus.Base.{
  ℕ, Bool, true, false, Option, none, some, [], ◌∷◌, ◌++◌, Text, find_map, retain, ok, ◌>>◌,
  fail_if, ◌==◌, if◌then◌else◌,
}
use oxibus.Core.Error.{CoreResult, missing_header_field}
use oxibus.Core.Header.{MessageType, HeaderField, MessageHeader, code}

unfoldable pub field : ℕ → MessageHeader → Option HeaderField
unfolding code
field c h = find_map (λ f. if code f == c then some f else none) h.fields

unfoldable pub path : MessageHeader → Option Text
path h = find_map (λ f. elim f [ HeaderField.path p ↦ some p | _ ↦ none ]) h.fields

unfoldable pub interface : MessageHeader → Option Text
interface h = find_map (λ f. elim f [ HeaderField.interface s ↦ some s | _ ↦ none ]) h.fields

unfoldable pub member : MessageHeader → Option Text
member h = find_map (λ f. elim f [ HeaderField.member s ↦ some s | _ ↦ none ]) h.fields

unfoldable pub error_name : MessageHeader → Option Text
error_name h = find_map (λ f. elim f [ HeaderField.error_name s ↦ some s | _ ↦ none ]) h.fields

unfoldable pub reply_serial : MessageHeader → Option ℕ
reply_serial h = find_map (λ f. elim f [ HeaderField.reply_serial v ↦ some v | _ ↦ none ]) h.fields

unfoldable pub destination : MessageHeader → Option Text
destination h = find_map (λ f. elim f [ HeaderField.destination s ↦ some s | _ ↦ none ]) h.fields

unfoldable pub sender : MessageHeader → Option Text
sender h = find_map (λ f. elim f [ HeaderField.sender s ↦ some s | _ ↦ none ]) h.fields

abbrev pub or_else {ℓ} : {A : Type ℓ} → A → Option A → A
or_else d none = d
or_else d (some a) = a

unfoldable pub signature : MessageHeader → Text
signature h =
    or_else [] (find_map (λ f. elim f [ HeaderField.signature s ↦ some s | _ ↦ none ]) h.fields)

unfoldable pub unix_fds : MessageHeader → ℕ
unix_fds h =
    or_else 0 (find_map (λ f. elim f [ HeaderField.unix_fds v ↦ some v | _ ↦ none ]) h.fields)

abbrev pub is_no_sender : HeaderField → Bool
is_no_sender f = elim f [ HeaderField.sender s ↦ false | _ ↦ true ]

unfoldable pub set_sender : Text → MessageHeader → MessageHeader
set_sender s h = record h { fields = retain is_no_sender h.fields ++ (HeaderField.sender s ∷ []) }

abbrev pub is_none {ℓ} : {A : Type ℓ} → Option A → Bool
is_none none = true
is_none (some a) = false

unfoldable pub validate_as : MessageType → MessageHeader → CoreResult (Unit {0})
validate_as MessageType.method_call h = do
  fail_if (is_none (path h)) (missing_header_field "PATH")
  fail_if (is_none (member h)) (missing_header_field "MEMBER")
  ok tt
validate_as MessageType.signal h = do
  fail_if (is_none (path h)) (missing_header_field "PATH")
  fail_if (is_none (interface h)) (missing_header_field "INTERFACE")
  fail_if (is_none (member h)) (missing_header_field "MEMBER")
  ok tt
validate_as MessageType.error h = do
  fail_if (is_none (error_name h)) (missing_header_field "ERROR_NAME")
  fail_if (is_none (reply_serial h)) (missing_header_field "REPLY_SERIAL")
  ok tt
validate_as MessageType.method_return h = do
  fail_if (is_none (reply_serial h)) (missing_header_field "REPLY_SERIAL")
  ok tt

unfoldable pub validate : MessageHeader → CoreResult (Unit {0})
unfolding validate_as
validate h = validate_as h.message_type h
