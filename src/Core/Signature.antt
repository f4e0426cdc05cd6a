-- ===== src/Core/Signature.antt =====
-- crates/oxibus-core/src/signature.rs: the parser of type signatures.
use oxibus.Base.{
  ℕ, zero, suc, ◌+◌, ◌-◌, ◌*◌, Bool, true, false, not, ◌&&◌, Option, none, some, List, [], ◌∷◌,
  ◌++◌, Text, codes, ltb, leb, ◌==◌, if◌then◌else◌, all, length, Result, ok, err, out_of_fuel,
  ◌>>=◌, ◌>>◌, fail_if,
}
pub mod Grammar
pub mod RoundTrip
pub mod Codes
pub mod Steps
pub mod Sound
use oxibus.Core.Error.{
  CoreError, CoreResult, invalid_signature, signature_too_long, nesting_too_deep,
}
use oxibus.Core.Types.{
  DType, DTypes, max_array_depth, max_struct_depth, max_signature_len, is_basic,
}

-- `rest` is `bytes[pos..]`.
pub record Parser : Type 0 where
  pub rest : Text
  pub array_depth : ℕ
  pub struct_depth : ℕ

-- What the byte at the position begins: the arms of the match in `parse_one`.
pub data Code : Type 0 where
  leaf : DType → Code
  open_array open_struct open_dict closing : Code
  unknown : Code

unfoldable pub code_of : ℕ → Code
code_of b =
    if b == b'y'
    then leaf DType.byte
    else if b == b'b'
    then leaf DType.boolean
    else if b == b'n'
    then leaf DType.int16
    else if b == b'q'
    then leaf DType.uint16
    else if b == b'i'
    then leaf DType.int32
    else if b == b'u'
    then leaf DType.uint32
    else if b == b'x'
    then leaf DType.int64
    else if b == b't'
    then leaf DType.uint64
    else if b == b'd'
    then leaf DType.double
    else if b == b's'
    then leaf DType.string
    else if b == b'o'
    then leaf DType.object_path
    else if b == b'g'
    then leaf DType.signature
    else if b == b'h'
    then leaf DType.unix_fd
    else if b == b'v'
    then leaf DType.variant
    else if b == b'a'
    then open_array
    else if b == b'('
    then open_struct
    else if b == b'{'
    then open_dict
    else if b == b')'
    then closing
    else if b == b'}'
    then closing
    else unknown

abbrev pub too_deep : CoreError
too_deep = nesting_too_deep max_array_depth max_struct_depth

-- What follows the loop over the fields of a struct.
abbrev pub close_struct : DTypes × Parser → CoreResult (DType × Parser)
close_struct (DTypes.nil, p) = err (invalid_signature [] "struct must have at least one field")
close_struct (DTypes.cons t ts, p) =
    ok (DType.struct (DTypes.cons t ts), record p { struct_depth = p.struct_depth - 1 })

-- The last step of a dict entry: the closing brace.
abbrev pub close_dict : DType → DType → Text → ℕ → ℕ → CoreResult (DType × Parser)
close_dict k v [] ad sd = err (invalid_signature [] "unterminated dict-entry: missing '}'")
close_dict k v (b ∷ s) ad sd =
    if b == b'}'
    then ok (DType.dict_entry k v, record { rest = s; array_depth = ad; struct_depth = sd - 1 })
    else err (invalid_signature [] "unterminated dict-entry: missing '}'")

abbrev pub parser : Text → ℕ → ℕ → Parser
parser s ad sd = record { rest = s; array_depth = ad; struct_depth = sd }

-- `parse_one` on fuel, with the loop over the fields of a struct.
unfoldable mutual
  unfolding is_basic

  pub parse_one : ℕ → Bool → Text → ℕ → ℕ → CoreResult (DType × Parser)
  parse_one zero allow s ad sd = out_of_fuel
  parse_one (suc f) allow [] ad sd = err (invalid_signature [] "unexpected end of signature")
  parse_one (suc f) allow (b ∷ s) ad sd = elim (code_of b) [
    | leaf t ↦ ok (t, parser s ad sd)
    | open_array ↦ do
      fail_if (ltb max_array_depth (ad + 1)) too_deep
      (elem, p) ← parse_one f true s (ad + 1) sd
      ok (DType.array elem, record p { array_depth = p.array_depth - 1 })
    | open_struct ↦ do
      fail_if (ltb max_struct_depth (sd + 1)) too_deep
      parse_fields f s ad (sd + 1) >>= close_struct
    | open_dict ↦ do
      fail_if (not allow)
          (invalid_signature [] "dict-entry '{' only allowed as an array element type")
      fail_if (ltb max_struct_depth (sd + 1)) too_deep
      (key, p) ← parse_one f false s ad (sd + 1)
      fail_if (not (is_basic key)) (invalid_signature [] "dict-entry key must be a basic type")
      (val, q) ← parse_one f false p.rest p.array_depth p.struct_depth
      close_dict key val q.rest q.array_depth q.struct_depth
    | closing ↦ err (invalid_signature [] "unexpected closing bracket")
    | unknown ↦ err (invalid_signature (b ∷ []) "unknown type code")
  ]

  pub parse_fields : ℕ → Text → ℕ → ℕ → CoreResult (DTypes × Parser)
  parse_fields zero s ad sd = out_of_fuel
  parse_fields (suc f) [] ad sd = err (invalid_signature [] "unterminated struct: missing ')'")
  parse_fields (suc f) (b ∷ s) ad sd = elim (b == b')') [
    | true ↦ ok (DTypes.nil, parser s ad sd)
    | false ↦ do
      (t, p) ← parse_one f false (b ∷ s) ad sd
      (ts, q) ← parse_fields f p.rest p.array_depth p.struct_depth
      ok (DTypes.cons t ts, q)
  ]

-- The loop of `parse_signature`.
unfoldable pub parse_all : ℕ → Text → ℕ → ℕ → CoreResult DTypes
parse_all f [] ad sd = ok DTypes.nil
parse_all zero (b ∷ s) ad sd = out_of_fuel
parse_all (suc f) (b ∷ s) ad sd = do
  (t, p) ← parse_one (suc f) false (b ∷ s) ad sd
  ts ← parse_all f p.rest p.array_depth p.struct_depth
  ok (DTypes.cons t ts)

unfoldable pub is_ascii : Text → Bool
is_ascii s = all (λ b. ltb b 128) s

-- A signature of n bytes is parsed within 2 * n units of fuel.
unfoldable pub parse_signature : Text → CoreResult DTypes
unfolding parse_one parse_all is_ascii
parse_signature s = do
  fail_if (ltb max_signature_len (length s)) (signature_too_long (length s))
  fail_if (not (is_ascii s)) (invalid_signature s "signature must be ASCII")
  parse_all (2 * length s) s 0 0

abbrev single : Text → DTypes → CoreResult DType
single s (DTypes.cons t DTypes.nil) = ok t
single s _ = err (invalid_signature s "expected exactly one complete type")

unfoldable pub parse_single_complete_type : Text → CoreResult DType
unfolding parse_signature
parse_single_complete_type s = do ts ← parse_signature s; single s ts

-- `Signature::new` of types.rs.
unfoldable pub new_signature : Text → CoreResult Text
unfolding parse_signature
new_signature s = do
  fail_if (ltb max_signature_len (length s)) (signature_too_long (length s))
  types ← parse_signature s
  ok s
