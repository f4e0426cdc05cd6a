-- ===== src/Core/Signature/RoundTrip.antt =====
-- What `write_signature` prints, the parser of crates/oxibus-core/src/signature.rs reads back.
use oxibus.Base.{
  ℕ, zero, suc, ◌+◌, ◌*◌, ◌≤◌, ◌<◌, ◌≡◌, refl, Bool, true, false, [], ◌∷◌, ◌++◌, Text, arith,
  append_assoc, length, length-append_text, ok, fail_if, ◌>>=◌, le→ltb_false,
}
use oxibus.Core.Types.{DType, DTypes, to_signature_string, signature_strings, max_signature_len}
use oxibus.Core.Signature.{
  parser, code_of, is_ascii, parse_one, parse_fields, parse_all, parse_signature,
}
use oxibus.Core.Signature.Grammar.{Fits, FitAll}

ruleset lengths = (arith, length-append_text)

pub to_signature_string_pos : (t : DType) → 0 < length (to_signature_string t)
unfolding to_signature_string
to_signature_string_pos (DType.array t) = omega arith
to_signature_string_pos _ = omega arith

-- A printed type does not begin like the end of a struct.
parse_fields_step :
    (f : ℕ) (t : DType) (s : Text) (ad sd : ℕ)
    → parse_fields (suc f) (to_signature_string t ++ s) ad sd ≡ (
        parse_one f false (to_signature_string t ++ s) ad sd >>= λ (u, p).
        parse_fields f p.rest p.array_depth p.struct_depth >>= λ (us, q). ok (DTypes.cons u us, q))
unfolding to_signature_string parse_fields
parse_fields_step f (DType.array t) s ad sd = refl
parse_fields_step f _ s ad sd = refl

-- A positive amount of fuel is a successor.
on_suc {ℓ} :
    {n : ℕ} (P : ℕ → Type ℓ) → 0 < n → ((f : ℕ) → n ≤ suc f → P (suc f)) → (f : ℕ) → n ≤ f → P f
on_suc P pos k zero h = absurd (omega arith)
on_suc P pos k (suc f) h = k f h

abbrev ReadsType : DType → Type 0
ReadsType t =
    (allow : Bool) (s : Text) (ad sd : ℕ)
    → Fits allow ad sd t
    → (f : ℕ) → 2 * length (to_signature_string t) ≤ f
    → parse_one f allow (to_signature_string t ++ s) ad sd ≡ ok (t, parser s ad sd)

abbrev ReadsTypes : DTypes → Type 0
ReadsTypes ts =
    (s : Text) (ad sd : ℕ)
    → FitAll ad sd ts
    → (f : ℕ) → 2 * length (signature_strings ts) + 1 ≤ f
    → parse_fields f (signature_strings ts ++ (b')' ∷ s)) ad sd ≡ ok (ts, parser s ad sd)

mutual
  unfolding parse_one to_signature_string code_of fail_if

  parse_one-print : (t : DType) → ReadsType t
  parse_one-print (DType.array t) allow s ad sd fits =
      on_suc _ (omega arith)
        λ f h. ground (arith, parse_one-print t true s (ad + 1) sd fits.1 f (omega arith))
  parse_one-print (DType.struct DTypes.nil) allow s ad sd fits = absurd (fits.1 refl)
  parse_one-print (DType.struct (DTypes.cons t ts)) allow s ad sd fits =
      on_suc _ (omega arith) λ f h. ground (
        arith,
        append_assoc (signature_strings (DTypes.cons t ts)) (b')' ∷ []) s,
        parse_fields-print (DTypes.cons t ts) s ad (sd + 1) fits.2 f (omega lengths),
      )
  parse_one-print (DType.dict_entry k v) allow s ad sd fits = on_suc _ (omega arith) λ f h. ground (
    arith,
    append_assoc (to_signature_string k) (to_signature_string v ++ (b'}' ∷ [])) s,
    append_assoc (to_signature_string v) (b'}' ∷ []) s,
    parse_one-print k false (to_signature_string v ++ (b'}' ∷ s)) ad (sd + 1) fits.3 f
        (omega lengths),
    parse_one-print v false (b'}' ∷ s) ad (sd + 1) fits.4 f (omega lengths),
  )
  parse_one-print _ allow s ad sd fits = on_suc _ (omega arith) λ f h. refl

  parse_fields-print : (ts : DTypes) → ReadsTypes ts
  parse_fields-print DTypes.nil s ad sd fits = on_suc _ (omega arith) λ f h. refl
  parse_fields-print (DTypes.cons t ts) s ad sd fits = on_suc _ (omega arith) λ f h. ground (
    arith,
    append_assoc (to_signature_string t) (signature_strings ts) (b')' ∷ s),
    parse_fields_step f t (signature_strings ts ++ (b')' ∷ s)) ad sd,
    parse_one-print t false (signature_strings ts ++ (b')' ∷ s)) ad sd fits.0 f (omega lengths),
    parse_fields-print ts s ad sd fits.1 f (omega (lengths, to_signature_string_pos t)),
  )

is_ascii-append : (s t : Text) → is_ascii s ≡ true → is_ascii t ≡ true → is_ascii (s ++ t) ≡ true
unfolding is_ascii
is_ascii-append [] t p q = q
is_ascii-append (b ∷ s) t p q = ground (arith, is_ascii-append s t)

mutual
  unfolding to_signature_string is_ascii

  pub is_ascii-print : (t : DType) → is_ascii (to_signature_string t) ≡ true
  is_ascii-print (DType.array t) = is_ascii-print t
  is_ascii-print (DType.struct ts) =
      is_ascii-append (signature_strings ts) (b')' ∷ []) (is_ascii-prints ts) refl
  is_ascii-print (DType.dict_entry k v) =
      is_ascii-append (to_signature_string k) (to_signature_string v ++ (b'}' ∷ []))
        (is_ascii-print k)
        (is_ascii-append (to_signature_string v) (b'}' ∷ []) (is_ascii-print v) refl)
  is_ascii-print _ = refl

  pub is_ascii-prints : (ts : DTypes) → is_ascii (signature_strings ts) ≡ true
  is_ascii-prints DTypes.nil = refl
  is_ascii-prints (DTypes.cons t ts) =
      is_ascii-append (to_signature_string t) (signature_strings ts) (is_ascii-print t)
        (is_ascii-prints ts)

parse_all_step :
    (f : ℕ) (t : DType) (s : Text) (ad sd : ℕ)
    → parse_all (suc f) (to_signature_string t ++ s) ad sd ≡ (
        parse_one (suc f) false (to_signature_string t ++ s) ad sd >>= λ (u, p).
        parse_all f p.rest p.array_depth p.struct_depth >>= λ us. ok (DTypes.cons u us))
unfolding to_signature_string parse_all
parse_all_step f (DType.array t) s ad sd = refl
parse_all_step f _ s ad sd = refl

pub parse_all-nil : (f ad sd : ℕ) → parse_all f [] ad sd ≡ ok DTypes.nil
unfolding parse_all
parse_all-nil zero ad sd = refl
parse_all-nil (suc f) ad sd = refl

parse_all-print :
    (ts : DTypes) (ad sd : ℕ)
    → FitAll ad sd ts
    → (f : ℕ) → 2 * length (signature_strings ts) ≤ f
    → parse_all f (signature_strings ts) ad sd ≡ ok ts
unfolding to_signature_string
parse_all-print DTypes.nil ad sd fits = λ f h. parse_all-nil f ad sd
parse_all-print (DTypes.cons t ts) ad sd fits =
    on_suc _ (omega (lengths, to_signature_string_pos t)) λ f h. ground (
      arith,
      parse_all_step f t (signature_strings ts) ad sd,
      parse_one-print t false (signature_strings ts) ad sd fits.0 (suc f) (omega lengths),
      parse_all-print ts ad sd fits.1 f (omega (lengths, to_signature_string_pos t)),
    )

-- A list of well-formed types whose printed signature has at most 255 bytes is what the parser
-- reads from that signature.
pub parse_signature-print :
    (ts : DTypes)
    → FitAll 0 0 ts
    → length (signature_strings ts) ≤ max_signature_len
    → parse_signature (signature_strings ts) ≡ ok ts
unfolding parse_signature fail_if
parse_signature-print ts fits h =
    rw (le→ltb_false _ _ h, is_ascii-prints ts) (parse_all-print ts 0 0 fits _ (omega arith))
