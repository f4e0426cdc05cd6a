-- ===== src/Core/Signature/Codes.antt =====
-- The codes of types in crates/oxibus-core/src/signature.rs: what the match of `parse_one` tells apart.
use oxibus.Base.{
  ℕ, zero, suc, ◌+◌, ◌*◌, ◌-◌, ◌≤◌, ◌<◌, ◌≡◌, refl, ap, ◌≢◌, Bool, true, false, [], ◌∷◌, ◌++◌, Text,
  arith, append_assoc, ◌∙◌, length, length-append_text, ok, Ensures, holds, rejected, Ensures-ok,
  ◌↔◌, fail_if, Ensures-out_of_fuel, Ensures-fail_if, Ensures-bind, out_of_fuel, ◌==◌, ==_iff,
  if◌then◌else◌, Bool-cases, inl, inr,
}
use oxibus.Core.Types.{DType, to_signature_string}
use oxibus.Core.Signature.{
  Code, leaf, open_array, open_struct, open_dict, closing, unknown, code_of,
}
use oxibus.Core.Signature.Grammar.{Fits}
use oxibus.Core.Signature.RoundTrip.{to_signature_string_pos, parse_all-nil, parse_signature-print}

abbrev pub is_leaf : DType → Bool
is_leaf (DType.array t) = false
is_leaf (DType.struct ts) = false
is_leaf (DType.dict_entry k v) = false
is_leaf _ = true

pub is_leaf-Fits : (t : DType) (allow : Bool) (ad sd : ℕ) → is_leaf t ≡ true → Fits allow ad sd t
is_leaf-Fits (DType.array t) allow ad sd h = cc
is_leaf-Fits (DType.struct ts) allow ad sd h = cc
is_leaf-Fits (DType.dict_entry k v) allow ad sd h = cc
is_leaf-Fits _ allow ad sd h = tt

-- What each code says of its byte.
abbrev pub IsCode : ℕ → Code → Type 0
IsCode b (leaf t) = (to_signature_string t ≡ b ∷ []) × (is_leaf t ≡ true)
IsCode b open_array = b ≡ b'a'
IsCode b open_struct = b ≡ b'('
IsCode b open_dict = b ≡ b'{'
IsCode b _ = Unit {0}

pub IsCode-leaf :
    (b : ℕ) (t : DType) (y : Code) (c : ℕ)
    → to_signature_string t ≡ c ∷ []
    → is_leaf t ≡ true
    → IsCode b y
    → IsCode b (if b == c then leaf t else y)
IsCode-leaf b t y c print h rest = elim (Bool-cases (b == c)) [
  | inl e ↦ rw e (cc (print, (==_iff b c).0 e), h)
  | inr e ↦ rw e rest
]

pub IsCode-if :
    (b c : ℕ) (x y : Code) → (b ≡ c → IsCode b x) → IsCode b y → IsCode b (if b == c then x else y)
IsCode-if b c x y hit rest = elim (Bool-cases (b == c)) [
  | inl e ↦ rw e (hit ((==_iff b c).0 e))
  | inr e ↦ rw e rest
]

pub code_of-IsCode : (b : ℕ) → IsCode b (code_of b)
unfolding code_of to_signature_string
code_of-IsCode b = IsCode-leaf b DType.byte _ _ refl refl (
    IsCode-leaf b DType.boolean _ _ refl refl (
      IsCode-leaf b DType.int16 _ _ refl refl (
        IsCode-leaf b DType.uint16 _ _ refl refl (
          IsCode-leaf b DType.int32 _ _ refl refl (
            IsCode-leaf b DType.uint32 _ _ refl refl (
              IsCode-leaf b DType.int64 _ _ refl refl (
                IsCode-leaf b DType.uint64 _ _ refl refl (
                  IsCode-leaf b DType.double _ _ refl refl (
                    IsCode-leaf b DType.string _ _ refl refl (
                      IsCode-leaf b DType.object_path _ _ refl refl (
                        IsCode-leaf b DType.signature _ _ refl refl (
                          IsCode-leaf b DType.unix_fd _ _ refl refl
                            (IsCode-leaf b DType.variant _ _ refl refl brackets)))))))))))))
  where
    brackets : IsCode b (
        if b == b'a'
        then open_array
        else if b == b'('
        then open_struct
        else if b == b'{'
        then open_dict
        else if b == b')'
        then closing
        else if b == b'}'
        then closing
        else unknown)
    brackets =
        IsCode-if b _ open_array _ (λ e. e)
          (IsCode-if b _ open_struct _ (λ e. e)
            (IsCode-if b _ open_dict _ (λ e. e)
              (IsCode-if b _ closing _ (λ e. tt) (IsCode-if b _ closing unknown (λ e. tt) tt))))

pub ruleset lengths = (arith, length-append_text, to_signature_string_pos)
