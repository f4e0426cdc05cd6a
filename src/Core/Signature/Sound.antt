-- ===== src/Core/Signature/Sound.antt =====
-- Whatever the parser of crates/oxibus-core/src/signature.rs accepts is a printed well-formed type,
-- and the parser never runs out of its fuel.
use oxibus.Base.{
  ℕ, zero, suc, ◌*◌, ◌≤◌, ◌≡◌, refl, ap, ◌≢◌, false, [], ◌∷◌, Text, arith, length, ok, Ensures,
  holds, Ensures-ok, ◌↔◌, fail_if, Ensures-out_of_fuel, Ensures-fail_if, Ensures-bind, out_of_fuel,
  err, ◌>>=◌, sym, ◌∙◌, append-nil,
}
use mathlib.Core.Path.{subst₂}
use oxibus.Core.Error.{CoreResult}
use oxibus.Core.Types.{DType, DTypes, to_signature_string, signature_strings, max_signature_len}
use oxibus.Core.Signature.{parse_all, parse_signature, single, parse_single_complete_type}
use oxibus.Core.Signature.Grammar.{Fits, FitAll}
use oxibus.Core.Signature.RoundTrip.{parse_all-nil, parse_signature-print}
use oxibus.Core.Signature.Codes.{lengths}
use oxibus.Core.Signature.Steps.{parse_sound}

abbrev IsSignature : ℕ → ℕ → Text → DTypes → Type 0
IsSignature ad sd s ts = (s ≡ signature_strings ts) × FitAll ad sd ts

parse_all-IsSignature :
    (f : ℕ) (s : Text) (ad sd : ℕ)
    → 2 * length s ≤ f
    → Ensures (IsSignature ad sd s) (parse_all f s ad sd)
unfolding to_signature_string parse_all
parse_all-IsSignature f [] ad sd fuel = rw (parse_all-nil f ad sd) (holds (refl, tt))
parse_all-IsSignature zero (b ∷ s) ad sd fuel = absurd (omega arith)
parse_all-IsSignature (suc f) (b ∷ s) ad sd fuel =
    Ensures-bind ((parse_sound (suc f)).0 false (b ∷ s) ad sd (omega arith) fuel)
      λ (t, p) (print, fits, pa, ps).
        Ensures-bind
          (parse_all-IsSignature f p.rest p.array_depth p.struct_depth
            (omega (lengths, ap length print)))
          λ ts (print', fits'). holds (cc, (fits, subst₂ (λ m n. FitAll m n ts) pa ps fits'))

parse_signature-Ensures : (s : Text) → Ensures (IsSignature 0 0 s) (parse_signature s)
unfolding parse_signature
parse_signature-Ensures s =
    Ensures-fail_if _ _ _ λ short.
      Ensures-fail_if _ _ _ λ ascii. parse_all-IsSignature (2 * length s) s 0 0 (omega arith)

length-of_ok : (s : Text) (ts : DTypes) → parse_signature s ≡ ok ts → length s ≤ max_signature_len
unfolding parse_signature fail_if
length-of_ok s ts h = ground arith

-- The parser accepts a text with the types `ts` exactly when the text has at most 255 bytes and is
-- the printed form of `ts`, and all of `ts` are well formed.
pub parse_signature_iff :
    (s : Text) (ts : DTypes)
    → (parse_signature s ≡ ok ts)
      ↔ ((s ≡ signature_strings ts) × FitAll 0 0 ts × (length s ≤ max_signature_len))
parse_signature_iff s ts = (
  λ h.
      let (print, fits) = Ensures-ok (parse_signature-Ensures s) h in
      (print, fits, length-of_ok s ts h),
  λ (print, fits, short). rw print (parse_signature-print ts fits (rw print at short)),
)

-- The fuel of 2 * n that a signature of n bytes is parsed with is enough on every input.
pub parse_signature-ne-out_of_fuel : (s : Text) → parse_signature s ≢ out_of_fuel
parse_signature-ne-out_of_fuel s = Ensures-out_of_fuel (parse_signature-Ensures s)

-- A text of several types, or of none, is no single complete type.
single-ok :
    (s : Text) (ts : DTypes) (t : DType) → single s ts ≡ ok t → ts ≡ DTypes.cons t DTypes.nil
single-ok s DTypes.nil t h = cc
single-ok s (DTypes.cons u DTypes.nil) t h = cc
single-ok s (DTypes.cons u (DTypes.cons v ts)) t h = cc

parse_single-parse_signature :
    (s : Text) (t : DType)
    → (parse_single_complete_type s ≡ ok t) ↔ (parse_signature s ≡ ok (DTypes.cons t DTypes.nil))
unfolding parse_single_complete_type
parse_single-parse_signature s t = (by_result (parse_signature s), λ h. rw h refl)
  where
    by_result :
        (r : CoreResult DTypes) → (r >>= single s) ≡ ok t → r ≡ ok (DTypes.cons t DTypes.nil)
    by_result (ok ts) h = ap ok (single-ok s ts t h)
    by_result (err e) h = cc
    by_result out_of_fuel h = cc

-- `parse_single_complete_type` accepts a text as the type `t` exactly when the text has at most 255
-- bytes and is the printed form of this one type, which is well formed.
pub parse_single_complete_type_iff :
    (s : Text) (t : DType)
    → (parse_single_complete_type s ≡ ok t)
      ↔ ((s ≡ to_signature_string t) × Fits false 0 0 t × (length s ≤ max_signature_len))
unfolding to_signature_string
parse_single_complete_type_iff s t = (
  λ h.
      let (print, fits, short) =
        (parse_signature_iff s (DTypes.cons t DTypes.nil)).0
          ((parse_single-parse_signature s t).0 h) in
      (print ∙ append-nil (to_signature_string t), fits.0, short),
  λ (print, fits, short). (parse_single-parse_signature s t).1 (
      (parse_signature_iff s (DTypes.cons t DTypes.nil)).1
        (print ∙ sym (append-nil (to_signature_string t)), (fits, tt), short)),
)
