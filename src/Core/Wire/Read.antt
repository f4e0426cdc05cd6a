-- ===== src/Core/Wire/Read.antt =====
-- The reading methods of crates/oxibus-core/src/unmarshal.rs on bytes in the wire format.
use mathlib.Core.Path.{subst}
use native.Mathlib.Nat.{mod-eq_of_lt}
use oxibus.Base.{
  ℕ, zero, suc, ◌+◌, ◌*◌, ◌%◌, ◌^◌, ◌<◌, ◌≡◌, refl, sym, ap, ◌∙◌, true, [], ◌∷◌, ◌++◌, Text, length,
  length-append_text, append_assoc, drop, take-length-append, drop-length-append, ok, ◌==◌, arith,
  fail_if, Bool-cases, inl, inr, le→ltb_false,
}
use oxibus.Core.Types.Int.{ℤ, pos as positive, negsuc, InRange, to_unsigned, to_signed}
use oxibus.Core.Bytes.{to_bytes, from_bytes-to_bytes, gap, length-to_bytes}
use oxibus.Core.Unmarshal.{
  Unmarshaler, skip, slice, byte_at, head_or_zero, need, align, read_u8, read_uint, read_u32,
  read_raw_string, read_signature_str,
}
use oxibus.Core.Utf8.{is_utf8}
use oxibus.Core.Wire.Lengths.{length-padding, lengths}
use oxibus.Core.Wire.{padding, uint_bytes, string_bytes, signature_bytes, IsWireString}

-- The bytes `s` are what is left to read.
pub record Ahead (u : Unmarshaler) (s : Text) : Type 0 where
  pub left : drop u.pos u.buf ≡ s
  pub total : u.pos + length s ≡ length u.buf

drop-add : (m n : ℕ) (s : Text) → drop (m + n) s ≡ drop n (drop m s)
drop-add zero n s = ap (λ k. drop k s) (let p : zero + n ≡ n = omega arith in p)
drop-add (suc m) zero [] = ap (λ k. drop k []) (let p : suc m + 0 ≡ suc m = omega arith in p)
drop-add (suc m) (suc n) [] =
    ap (λ k. drop k []) (let p : suc m + suc n ≡ suc (m + suc n) = omega arith in p)
drop-add (suc m) n (b ∷ s) =
    ap (λ k. drop k (b ∷ s)) (let p : suc m + n ≡ suc (m + n) = omega arith in p) ∙ drop-add m n s

pub skip_zero : (u : Unmarshaler) → skip 0 u ≡ u
skip_zero u =
    let p : u.pos + 0 ≡ u.pos = omega arith in
    λ i. record { buf = u.buf; pos = p i; big_endian = u.big_endian }

pub skip-skip : (m n : ℕ) (u : Unmarshaler) → skip n (skip m u) ≡ skip (m + n) u
skip-skip m n u =
    let p : u.pos + m + n ≡ u.pos + (m + n) = omega arith in
    λ i. record { buf = u.buf; pos = p i; big_endian = u.big_endian }

module _ (u : Unmarshaler) (s t : Text) (n : ℕ) (hn : length s ≡ n) (h : Ahead u (s ++ t)) where
  pub Ahead-skip : Ahead (skip n u) t
  Ahead-skip = record {
    left = drop-add u.pos n u.buf ∙ (ap (drop n) h.left ∙ rw (sym hn) (drop-length-append s t));
    total = omega (lengths, h.total, hn);
  }

  pub need-ok : need n u ≡ ok tt
  unfolding need fail_if
  need-ok = rw (le→ltb_false (length u.buf) (u.pos + n) (omega (lengths, h.total, hn)))

  pub slice_lem : slice n u ≡ s
  slice_lem = rw (h.left, sym hn) (take-length-append s t)

  pub byte_at_lem : byte_at n u ≡ head_or_zero t
  byte_at_lem = rw (h.left, sym hn, drop-length-append s t)

align_here :
    (n : ℕ) (u : Unmarshaler) (rest : Text)
    → Ahead u (padding n u.pos ++ rest)
    → align n u ≡ ok (skip (gap n u.pos) u)
unfolding align gap
align_here n u rest h =
    let nd : need (gap n u.pos) u ≡ ok tt =
      need-ok u (padding n u.pos) rest (gap n u.pos) (length-padding n u.pos) h in
    elim (Bool-cases (u.pos % n == 0)) [
      | inl e ↦ rw e (ap ok (sym (skip_zero u)))
      | inr e ↦ rw e (rw (rw (e, gap) at nd))
    ]

pub align_lem :
    (n pos : ℕ) (u : Unmarshaler) (rest : Text)
    → u.pos ≡ pos
    → Ahead u (padding n pos ++ rest)
    → align n u ≡ ok (skip (gap n pos) u)
unfolding align gap
align_lem n pos u rest hp h =
    subst (λ p. Ahead u (padding n p ++ rest) → align n u ≡ ok (skip (gap n p) u)) hp
      (align_here n u rest) h

pub read_u8_lem :
    (v : ℕ) (u : Unmarshaler) (rest : Text) → Ahead u (v ∷ rest) → read_u8 u ≡ ok (v, skip 1 u)
unfolding read_u8
read_u8_lem v u rest h = rw (need-ok u (v ∷ []) rest 1 refl h, h.left)

pub read_uint_lem :
    (width v pos : ℕ) (u : Unmarshaler) (rest : Text)
    → v < 256 ^ width
    → u.pos ≡ pos
    → Ahead u (uint_bytes u.big_endian width pos v ++ rest)
    → read_uint width u ≡ ok (v, skip (length (uint_bytes u.big_endian width pos v)) u)
unfolding read_uint
read_uint_lem width v pos u rest hv hp h =
    let bytes : Text = to_bytes u.big_endian width v in
    let h1 : Ahead u (padding width pos ++ (bytes ++ rest)) =
      rw (sym (append_assoc (padding width pos) bytes rest)) h in
    let h2 : Ahead (skip (gap width pos) u) (bytes ++ rest) =
      Ahead-skip u (padding width pos) (bytes ++ rest) (gap width pos) (length-padding width pos)
        h1 in
    let w : length bytes ≡ width = length-to_bytes u.big_endian width v in
    let n : gap width pos + width ≡ length (padding width pos ++ bytes) = omega (lengths, w) in
    rw
      (
        align_lem width pos u (bytes ++ rest) hp h1,
        need-ok (skip (gap width pos) u) bytes rest width w h2,
        slice_lem (skip (gap width pos) u) bytes rest width w h2,
        from_bytes-to_bytes u.big_endian width v hv,
      )
      (ap (λ x. ok (v, x)) (skip-skip (gap width pos) width u ∙ ap (λ k. skip k u) n))

pub read_u32_lem :
    (v pos : ℕ) (u : Unmarshaler) (rest : Text)
    → v < 2 ^ 32
    → u.pos ≡ pos
    → Ahead u (uint_bytes u.big_endian 4 pos v ++ rest)
    → read_u32 u ≡ ok (v, skip (length (uint_bytes u.big_endian 4 pos v)) u)
unfolding read_u32
read_u32_lem v pos u rest hv hp h = read_uint_lem 4 v pos u rest hv hp h

-- A signed integer in range survives the two casts.
pub to_signed-to_unsigned :
    (h : ℕ) (v : ℤ) → InRange h v → (to_signed h (to_unsigned h v) ≡ v) × (to_unsigned h v < 2 * h)
unfolding to_signed to_unsigned
to_signed-to_unsigned h (positive n) r =
    let small : n < 2 * h = omega arith in rw (mod-eq_of_lt small) (ground arith, small)
to_signed-to_unsigned h (negsuc n) r =
    let small : n < 2 * h = omega arith in rw (mod-eq_of_lt small) (ground arith, omega arith)

-- The text behind its length, in both forms of a string.
module _ (s : Text) (u : Unmarshaler) (rest : Text) (utf8 : is_utf8 s ≡ true)
    (h : Ahead u ((s ++ (0 ∷ [])) ++ rest)) where
  tail : Ahead u (s ++ (0 ∷ rest))
  tail = rw (append_assoc s (0 ∷ []) rest) at h

  text_need : need (length s + 1) u ≡ ok tt
  text_need = need-ok u (s ++ (0 ∷ [])) rest (length s + 1) (length-append_text s (0 ∷ [])) h

  text_slice : slice (length s) u ≡ s
  text_slice = slice_lem u s (0 ∷ rest) (length s) refl tail

  text_end : byte_at (length s) u ≡ 0
  text_end = byte_at_lem u s (0 ∷ rest) (length s) refl tail

pub read_raw_string_lem :
    (s : Text) (pos : ℕ) (u : Unmarshaler) (rest : Text)
    → IsWireString s
    → u.pos ≡ pos
    → Ahead u (string_bytes u.big_endian pos s ++ rest)
    → read_raw_string u ≡ ok (s, skip (length (string_bytes u.big_endian pos s)) u)
unfolding read_raw_string fail_if
read_raw_string_lem s pos u rest str hp h =
    let len : Text = uint_bytes u.big_endian 4 pos (length s) in
    let text : Text = s ++ (0 ∷ []) in
    let h1 : Ahead u (len ++ (text ++ rest)) = rw (sym (append_assoc len text rest)) h in
    let u' : Unmarshaler = skip (length len) u in
    let h2 : Ahead u' (text ++ rest) = Ahead-skip u len (text ++ rest) (length len) refl h1 in
    let n : length len + (length s + 1) ≡ length (len ++ text) = omega lengths in
    rw
      (
        read_u32_lem (length s) pos u (text ++ rest) str.short hp h1,
        text_need s u' rest str.utf8 h2,
        text_slice s u' rest str.utf8 h2,
        str.utf8,
        text_end s u' rest str.utf8 h2,
      )
      (ap (λ x. ok (s, x)) (skip-skip (length len) (length s + 1) u ∙ ap (λ k. skip k u) n))

pub read_signature_str_lem :
    (s : Text) (u : Unmarshaler) (rest : Text)
    → is_utf8 s ≡ true
    → Ahead u (signature_bytes s ++ rest)
    → read_signature_str u ≡ ok (s, skip (length (signature_bytes s)) u)
unfolding read_signature_str fail_if
read_signature_str_lem s u rest utf8 h =
    let text : Text = s ++ (0 ∷ []) in
    let u' : Unmarshaler = skip 1 u in
    let h2 : Ahead u' (text ++ rest) = Ahead-skip u (length s ∷ []) (text ++ rest) 1 refl h in
    let n : 1 + (length s + 1) ≡ length (length s ∷ text) = omega lengths in
    rw
      (
        read_u8_lem (length s) u (text ++ rest) h,
        text_need s u' rest utf8 h2,
        text_slice s u' rest utf8 h2,
        utf8,
        text_end s u' rest utf8 h2,
      )
      (ap (λ x. ok (s, x)) (skip-skip 1 (length s + 1) u ∙ ap (λ k. skip k u) n))
