-- ===== src/Core/Error.antt =====
-- crates/oxibus-core/src/error.rs: the error type. A `&'static str` is a native text.
use Prim.Native.String.{String}
use oxibus.Base.{ℕ, Text, Result}

pub data CoreError : Type 0 where
  invalid_signature : Text → String → CoreError
  signature_too_long : ℕ → CoreError
  nesting_too_deep : ℕ → ℕ → CoreError
  invalid_object_path : Text → CoreError
  invalid_utf8 : CoreError
  embedded_nul : CoreError
  unexpected_eof : ℕ → ℕ → CoreError
  invalid_boolean : ℕ → CoreError
  array_too_long : ℕ → CoreError
  message_too_long : ℕ → ℕ → CoreError
  bad_byte_order : ℕ → CoreError
  bad_protocol_version : ℕ → CoreError
  missing_header_field : String → CoreError
  type_mismatch : Text → CoreError
  fd_index_out_of_range : ℕ → ℕ → CoreError
  too_many_fds : ℕ → ℕ → CoreError
  invalid_address : Text → CoreError
  io : Text → CoreError

abbrev pub CoreResult {ℓ} : Type ℓ → Type ℓ
CoreResult A = Result CoreError A
