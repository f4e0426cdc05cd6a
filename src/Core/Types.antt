-- ===== src/Core/Types.antt =====
-- crates/oxibus-core/src/types.rs: the type language of D-Bus and the values.
-- A byte is a number below 256, `f64` stands as its 64 bits, a `Vec` of types or values is the list
-- type of the same block. `ObjectPath` and `Signature` are the texts that they wrap.
use oxibus.Base.{
  ℕ, ◌+◌, Bool, true, false, not, ◌&&◌, ◌||◌, Option, none, some, List, [], ◌∷◌, ◌++◌, Text, codes,
  ltb, leb, ◌==◌, beq, starts_with, if◌then◌else◌, all, first, length,
}
use oxibus.Core.Types.Int.{ℤ}
pub mod Int
pub mod Paths

abbrev pub max_array_depth : ℕ
max_array_depth = 32

abbrev pub max_struct_depth : ℕ
max_struct_depth = 32

abbrev pub max_signature_len : ℕ
max_signature_len = 255

abbrev pub max_array_len : ℕ
max_array_len = 67_108_864

-- `Type` of the source.
mutual
  pub data DType : Type 0 where
    byte boolean int16 uint16 int32 uint32 int64 uint64 double : DType
    string object_path signature unix_fd : DType
    array : DType → DType
    struct : DTypes → DType
    dict_entry : DType → DType → DType
    variant : DType

  pub data DTypes : Type 0 where
    nil : DTypes
    cons : DType → DTypes → DTypes

-- `Value` of the source; `array` holds the two fields of `ArrayValue`.
mutual
  pub data Value : Type 0 where
    byte : ℕ → Value
    boolean : Bool → Value
    int16 : ℤ → Value
    uint16 : ℕ → Value
    int32 : ℤ → Value
    uint32 : ℕ → Value
    int64 : ℤ → Value
    uint64 : ℕ → Value
    double : ℕ → Value
    string : Text → Value
    object_path : Text → Value
    signature : Text → Value
    unix_fd : ℕ → Value
    array : DType → Values → Value
    struct : Values → Value
    dict_entry : Value → Value → Value
    variant : Value → Value

  pub data Values : Type 0 where
    nil : Values
    cons : Value → Values → Values

unfoldable pub code : DType → ℕ
code DType.byte = b'y'
code DType.boolean = b'b'
code DType.int16 = b'n'
code DType.uint16 = b'q'
code DType.int32 = b'i'
code DType.uint32 = b'u'
code DType.int64 = b'x'
code DType.uint64 = b't'
code DType.double = b'd'
code DType.string = b's'
code DType.object_path = b'o'
code DType.signature = b'g'
code DType.unix_fd = b'h'
code (DType.array t) = b'a'
code (DType.struct ts) = b'('
code (DType.dict_entry k v) = b'{'
code DType.variant = b'v'

unfoldable pub alignment : DType → ℕ
alignment DType.byte = 1
alignment DType.signature = 1
alignment DType.variant = 1
alignment DType.int16 = 2
alignment DType.uint16 = 2
alignment DType.boolean = 4
alignment DType.int32 = 4
alignment DType.uint32 = 4
alignment DType.unix_fd = 4
alignment DType.string = 4
alignment DType.object_path = 4
alignment (DType.array t) = 4
alignment DType.int64 = 8
alignment DType.uint64 = 8
alignment DType.double = 8
alignment (DType.struct ts) = 8
alignment (DType.dict_entry k v) = 8

unfoldable pub is_basic : DType → Bool
is_basic (DType.array t) = false
is_basic (DType.struct ts) = false
is_basic (DType.dict_entry k v) = false
is_basic DType.variant = false
is_basic _ = true

-- `write_signature`: the text that it pushes onto `out`.
unfoldable mutual
  unfolding code

  pub to_signature_string : DType → Text
  to_signature_string (DType.array t) = b'a' ∷ to_signature_string t
  to_signature_string (DType.struct ts) = b'(' ∷ (signature_strings ts ++ (b')' ∷ []))
  to_signature_string (DType.dict_entry k v) =
      b'{' ∷ (to_signature_string k ++ (to_signature_string v ++ (b'}' ∷ [])))
  to_signature_string t = code t ∷ []

  pub signature_strings : DTypes → Text
  signature_strings DTypes.nil = []
  signature_strings (DTypes.cons t ts) = to_signature_string t ++ signature_strings ts

unfoldable mutual
  pub value_type : Value → DType
  value_type (Value.byte n) = DType.byte
  value_type (Value.boolean b) = DType.boolean
  value_type (Value.int16 n) = DType.int16
  value_type (Value.uint16 n) = DType.uint16
  value_type (Value.int32 n) = DType.int32
  value_type (Value.uint32 n) = DType.uint32
  value_type (Value.int64 n) = DType.int64
  value_type (Value.uint64 n) = DType.uint64
  value_type (Value.double n) = DType.double
  value_type (Value.string s) = DType.string
  value_type (Value.object_path s) = DType.object_path
  value_type (Value.signature s) = DType.signature
  value_type (Value.unix_fd n) = DType.unix_fd
  value_type (Value.array t vs) = DType.array t
  value_type (Value.struct vs) = DType.struct (value_types vs)
  value_type (Value.dict_entry k v) = DType.dict_entry (value_type k) (value_type v)
  value_type (Value.variant v) = DType.variant

  pub value_types : Values → DTypes
  value_types Values.nil = DTypes.nil
  value_types (Values.cons v vs) = DTypes.cons (value_type v) (value_types vs)

unfoldable pub as_str : Value → Option Text
as_str (Value.string s) = some s
as_str (Value.object_path s) = some s
as_str (Value.signature s) = some s
as_str _ = none

unfoldable pub as_u32 : Value → Option ℕ
as_u32 (Value.uint32 n) = some n
as_u32 (Value.unix_fd n) = some n
as_u32 _ = none

unfoldable pub unwrap_variant : Value → Value
unwrap_variant (Value.variant v) = unwrap_variant v
unwrap_variant v = v

unfoldable pub get_value : Values → ℕ → Option Value
get_value Values.nil n = none
get_value (Values.cons v vs) ℕ.zero = some v
get_value (Values.cons v vs) (ℕ.suc n) = get_value vs n
