-- ===== src/Core/Wire.antt =====
-- The wire format as a function of the position at which a value stands: what `write_value` of
-- crates/oxibus-core/src/marshal.rs is to write and `read_value` of unmarshal.rs is to read.
pub mod Lengths
pub mod Pieces
pub mod Write
pub mod Read
pub mod Fuel
pub mod RoundTrip
pub mod Body
use oxibus.Base.{
  ℕ, suc, ◌+◌, ◌^◌, ◌≤◌, ◌<◌, ◌≡◌, ◌≢◌, Bool, true, false, List, [], ◌∷◌, ◌++◌, Text, length,
  replicate, any, ok, if◌then◌else◌, ◌==◌,
}
use oxibus.Core.Types.{
  DType, Value, Values, max_signature_len, max_array_len, alignment, to_signature_string,
  value_type,
}
use oxibus.Core.Types.Int.{ℤ, InRange, to_unsigned}
use oxibus.Core.Types.Paths.{is_valid_object_path}
use oxibus.Core.Signature.{new_signature}
use oxibus.Core.Signature.Grammar.{Fits}
use oxibus.Core.Bytes.{to_bytes, gap}
use oxibus.Core.Utf8.{is_utf8}

abbrev pub padding : ℕ → ℕ → Text
padding n pos = replicate (gap n pos) 0

abbrev pub uint_bytes : Bool → ℕ → ℕ → ℕ → Text
uint_bytes e width pos v = padding width pos ++ to_bytes e width v

abbrev pub string_bytes : Bool → ℕ → Text → Text
string_bytes e pos s = uint_bytes e 4 pos (length s) ++ (s ++ (0 ∷ []))

abbrev pub signature_bytes : Text → Text
signature_bytes s = length s ∷ (s ++ (0 ∷ []))

-- The position of the first element of an array that stands at `pos`.
unfoldable pub array_start : DType → ℕ → ℕ
array_start t pos = let p = pos + gap 4 pos + 4 in p + gap (alignment t) p

abbrev pub array_bytes : Bool → ℕ → DType → Text → Text
array_bytes e pos t body =
    padding 4 pos
    ++ (to_bytes e 4 (length body) ++ (padding (alignment t) (pos + gap 4 pos + 4) ++ body))

unfoldable mutual
  pub bytes_of : Bool → ℕ → Value → Text
  bytes_of e pos (Value.byte v) = v ∷ []
  bytes_of e pos (Value.boolean v) = uint_bytes e 4 pos (if v then 1 else 0)
  bytes_of e pos (Value.int16 v) = uint_bytes e 2 pos (to_unsigned (2 ^ 15) v)
  bytes_of e pos (Value.uint16 v) = uint_bytes e 2 pos v
  bytes_of e pos (Value.int32 v) = uint_bytes e 4 pos (to_unsigned (2 ^ 31) v)
  bytes_of e pos (Value.uint32 v) = uint_bytes e 4 pos v
  bytes_of e pos (Value.int64 v) = uint_bytes e 8 pos (to_unsigned (2 ^ 63) v)
  bytes_of e pos (Value.uint64 v) = uint_bytes e 8 pos v
  bytes_of e pos (Value.double v) = uint_bytes e 8 pos v
  bytes_of e pos (Value.string s) = string_bytes e pos s
  bytes_of e pos (Value.object_path s) = string_bytes e pos s
  bytes_of e pos (Value.signature s) = signature_bytes s
  bytes_of e pos (Value.unix_fd v) = uint_bytes e 4 pos v
  bytes_of e pos (Value.array t vs) = array_bytes e pos t (bytes_of_all e (array_start t pos) vs)
  bytes_of e pos (Value.struct vs) = padding 8 pos ++ bytes_of_all e (pos + gap 8 pos) vs
  bytes_of e pos (Value.dict_entry k v) =
      let key = bytes_of e (pos + gap 8 pos) k in
      padding 8 pos ++ (key ++ bytes_of e (pos + gap 8 pos + length key) v)
  bytes_of e pos (Value.variant v) =
      let sig = signature_bytes (to_signature_string (value_type v)) in
      sig ++ bytes_of e (pos + length sig) v

  pub bytes_of_all : Bool → ℕ → Values → Text
  bytes_of_all e pos Values.nil = []
  bytes_of_all e pos (Values.cons v vs) =
      let front = bytes_of e pos v in front ++ bytes_of_all e (pos + length front) vs

-- A Rust `String` of less than 4 GiB with no zero byte.
pub record IsWireString (s : Text) : Type 0 where
  pub utf8 : is_utf8 s ≡ true
  pub no_nul : any (λ b. b == 0) s ≡ false
  pub short : length s < 2 ^ 32

-- The values that can be sent, at position `pos`: each number in its range, texts valid, arrays of
-- one type and at most 64 MiB long, structs with a field, and a signature for what a variant holds.
abbrev mutual
  pub IsSendable : Bool → ℕ → Value → Type 0
  IsSendable e pos (Value.byte v) = v < 256
  IsSendable e pos (Value.boolean v) = Unit {0}
  IsSendable e pos (Value.int16 v) = InRange (2 ^ 15) v
  IsSendable e pos (Value.uint16 v) = v < 2 ^ 16
  IsSendable e pos (Value.int32 v) = InRange (2 ^ 31) v
  IsSendable e pos (Value.uint32 v) = v < 2 ^ 32
  IsSendable e pos (Value.int64 v) = InRange (2 ^ 63) v
  IsSendable e pos (Value.uint64 v) = v < 2 ^ 64
  IsSendable e pos (Value.double v) = v < 2 ^ 64
  IsSendable e pos (Value.string s) = IsWireString s
  IsSendable e pos (Value.object_path s) = IsWireString s × (is_valid_object_path s ≡ true)
  IsSendable e pos (Value.signature s) = new_signature s ≡ ok s
  IsSendable e pos (Value.unix_fd v) = v < 2 ^ 32
  IsSendable e pos (Value.array t vs) =
      (length (bytes_of_all e (array_start t pos) vs) ≤ max_array_len)
      × AreOfType t vs
      × AreSendable e (array_start t pos) vs
  IsSendable e pos (Value.struct vs) = (vs ≢ Values.nil) × AreSendable e (pos + gap 8 pos) vs
  IsSendable e pos (Value.dict_entry k v) =
      IsSendable e (pos + gap 8 pos) k
      × IsSendable e (pos + gap 8 pos + length (bytes_of e (pos + gap 8 pos) k)) v
  IsSendable e pos (Value.variant v) =
      Fits false 0 0 (value_type v)
      × (length (to_signature_string (value_type v)) ≤ max_signature_len)
      × IsSendable e (pos + length (signature_bytes (to_signature_string (value_type v)))) v

  pub AreSendable : Bool → ℕ → Values → Type 0
  AreSendable e pos Values.nil = Unit {0}
  AreSendable e pos (Values.cons v vs) =
      IsSendable e pos v × AreSendable e (pos + length (bytes_of e pos v)) vs

  pub AreOfType : DType → Values → Type 0
  AreOfType t Values.nil = Unit {0}
  AreOfType t (Values.cons v vs) = (value_type v ≡ t) × AreOfType t vs
