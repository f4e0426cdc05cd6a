-- ===== src/Core/Signature/Steps.antt =====
-- One step of the parser of crates/oxibus-core/src/signature.rs.
use oxibus.Base.{
  ℕ, zero, suc, ◌+◌, ◌*◌, ◌-◌, ◌≤◌, ◌<◌, ◌≡◌, refl, ap, Bool, true, false, [], ◌∷◌, ◌++◌, Text,
  arith, append_assoc, ◌∙◌, length, Ensures, holds, rejected, Ensures-fail_if, Ensures-bind, ◌==◌,
  ==_iff, Bool-cases, inl, inr,
}
use mathlib.Core.Path.{subst₂}
use oxibus.Core.Types.{DType, DTypes, to_signature_string, signature_strings}
use oxibus.Core.Signature.{
  Parser, Code, leaf, open_array, open_struct, open_dict, closing, unknown, code_of, parse_one,
  parse_fields, close_dict, close_struct,
}
use oxibus.Core.Signature.Grammar.{Fits, FitAll}
use oxibus.Core.Signature.Codes.{lengths, is_leaf-Fits, IsCode, code_of-IsCode}

abbrev pub IsParsed : Bool → Text → ℕ → ℕ → DType × Parser → Type 0
IsParsed allow s ad sd (t, p) =
    (s ≡ to_signature_string t ++ p.rest)
    × Fits allow ad sd t
    × (p.array_depth ≡ ad)
    × (p.struct_depth ≡ sd)

abbrev pub AreParsed : Text → ℕ → ℕ → DTypes × Parser → Type 0
AreParsed s ad sd (ts, p) =
    (s ≡ signature_strings ts ++ (b')' ∷ p.rest))
    × FitAll ad sd ts
    × (p.array_depth ≡ ad)
    × (p.struct_depth ≡ sd)

abbrev pub SoundOne : ℕ → Type 0
SoundOne f =
    (allow : Bool) (s : Text) (ad sd : ℕ)
    → 0 < f
    → 2 * length s ≤ f
    → Ensures (IsParsed allow s ad sd) (parse_one f allow s ad sd)

abbrev pub SoundFields : ℕ → Type 0
SoundFields f =
    (s : Text) (ad sd : ℕ) → 2 * length s < f → Ensures (AreParsed s ad sd) (parse_fields f s ad sd)

-- The arms of `parse_one`, over what the calls with less fuel do.
module _ (f : ℕ) (one : SoundOne f) (fields : SoundFields f) (b : ℕ) (s : Text) (allow : Bool)
    (ad sd : ℕ) (fuel : 2 * length (b ∷ s) ≤ suc f) where
  sound_array :
      b ≡ b'a'
      → code_of b ≡ open_array
      → Ensures (IsParsed allow (b ∷ s) ad sd) (parse_one (suc f) allow (b ∷ s) ad sd)
  unfolding parse_one to_signature_string
  sound_array hb h =
      rw (h, parse_one)
        (Ensures-fail_if _ _ _ λ near.
          Ensures-bind (one true s (ad + 1) sd (omega arith) (omega arith))
            λ (t, p) (print, fits, pa, ps).
              holds {a = (DType.array t, record p { array_depth = p.array_depth - 1 })}
                (cc, (ground arith, fits), omega arith, ps))

  sound_struct :
      b ≡ b'('
      → code_of b ≡ open_struct
      → Ensures (IsParsed allow (b ∷ s) ad sd) (parse_one (suc f) allow (b ∷ s) ad sd)
  unfolding parse_one to_signature_string
  sound_struct hb h =
      rw (h, parse_one)
        (Ensures-fail_if _ _ _
          λ near. Ensures-bind (fields s ad (sd + 1) (omega arith)) (close (ground arith)))
    where
      close :
          sd < 32
          → (r : DTypes × Parser) → AreParsed s ad (sd + 1) r
          → Ensures (IsParsed allow (b ∷ s) ad sd) (close_struct r)
      close near (DTypes.nil, p) parsed = rejected
      close near (DTypes.cons t ts, p) (print, fits, pa, ps) = holds (
        cc (append_assoc (signature_strings (DTypes.cons t ts)) (b')' ∷ []) p.rest),
        (near, λ x. cc, fits),
        pa,
        omega arith,
      )

  close_dict-IsParsed :
      (k v : DType) (pr qr : Text) (qad qsd : ℕ)
      → b ≡ b'{'
      → Fits allow ad sd (DType.dict_entry k v)
      → s ≡ to_signature_string k ++ pr
      → pr ≡ to_signature_string v ++ qr
      → qad ≡ ad
      → qsd ≡ sd + 1
      → Ensures (IsParsed allow (b ∷ s) ad sd) (close_dict k v qr qad qsd)
  unfolding to_signature_string
  close_dict-IsParsed k v pr [] qad qsd hb fits print print' qa qs = rejected
  close_dict-IsParsed k v pr (c ∷ qr) qad qsd hb fits print print' qa qs =
      elim (Bool-cases (c == b'}')) [
        | inl h ↦ rw h (
            holds (
              cc (
                (==_iff c b'}').0 h,
                append_assoc (to_signature_string k) (to_signature_string v ++ (b'}' ∷ [])) qr,
                append_assoc (to_signature_string v) (b'}' ∷ []) qr,
              ),
              fits,
              qa,
              omega arith,
            ))
        | inr h ↦ rw h rejected
      ]

  sound_dict :
      b ≡ b'{'
      → code_of b ≡ open_dict
      → Ensures (IsParsed allow (b ∷ s) ad sd) (parse_one (suc f) allow (b ∷ s) ad sd)
  unfolding parse_one to_signature_string
  sound_dict hb h =
      rw (h, parse_one)
        (Ensures-fail_if _ _ _ λ allowed. Ensures-fail_if _ _ _ λ near.
          Ensures-bind (one false s ad (sd + 1) (omega arith) (omega arith))
            λ (k, p) (print, fits, pa, ps). Ensures-fail_if _ _ _ λ basic.
              Ensures-bind
                (one false p.rest p.array_depth p.struct_depth (omega arith)
                  (omega (lengths, ap length print)))
                λ (v, q) (print', fits', qa, qs).
                  close_dict-IsParsed k v p.rest q.rest q.array_depth q.struct_depth hb
                    (
                      ground arith,
                      ground arith,
                      ground arith,
                      fits,
                      subst₂ (λ m n. Fits false m n v) pa ps fits',
                    )
                    print print' (qa ∙ pa) (qs ∙ ps))

pub sound_fields : (f : ℕ) → SoundOne f → SoundFields f → SoundFields (suc f)
unfolding parse_fields to_signature_string
sound_fields f one fields [] ad sd fuel = rejected
sound_fields f one fields (b ∷ s) ad sd fuel = elim (Bool-cases (b == b')')) [
  | inl h ↦ rw (h, parse_fields) (holds (cc ((==_iff b b')').0 h), tt, refl, refl))
  | inr h ↦
      rw (h, parse_fields)
        (Ensures-bind (one false (b ∷ s) ad sd (omega arith) (omega arith))
          λ (t, p) (print, fits, pa, ps).
            Ensures-bind
              (fields p.rest p.array_depth p.struct_depth (omega (lengths, ap length print)))
              λ (ts, q) (print', fits', qa, qs). holds (
                cc (append_assoc (to_signature_string t) (signature_strings ts) (b')' ∷ q.rest)),
                (fits, subst₂ (λ m n. FitAll m n ts) pa ps fits'),
                qa ∙ pa,
                qs ∙ ps,
              ))
]

pub sound_one : (f : ℕ) → SoundOne f → SoundFields f → SoundOne (suc f)
unfolding parse_one
sound_one f one fields allow [] ad sd pos fuel = rejected
sound_one f one fields allow (b ∷ s) ad sd pos fuel = by_code (code_of b) (code_of-IsCode b) refl
  where
    by_code :
        (c : Code)
        → IsCode b c
        → code_of b ≡ c
        → Ensures (IsParsed allow (b ∷ s) ad sd) (parse_one (suc f) allow (b ∷ s) ad sd)
    by_code (leaf t) (print, leafy) h =
        rw (h, parse_one) (holds (rw print refl, is_leaf-Fits t allow ad sd leafy, refl, refl))
    by_code open_array hb h = sound_array f one fields b s allow ad sd fuel hb h
    by_code open_struct hb h = sound_struct f one fields b s allow ad sd fuel hb h
    by_code open_dict hb h = sound_dict f one fields b s allow ad sd fuel hb h
    by_code closing hb h = rw (h, parse_one) rejected
    by_code unknown hb h = rw (h, parse_one) rejected

pub parse_sound : (f : ℕ) → SoundOne f × SoundFields f
parse_sound zero =
    (λ allow s ad sd pos fuel. absurd (omega arith), λ s ad sd fuel. absurd (omega arith))
parse_sound (suc f) =
    let (one, fields) = parse_sound f in (sound_one f one fields, sound_fields f one fields)
