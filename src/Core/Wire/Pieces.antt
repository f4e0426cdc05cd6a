-- ===== src/Core/Wire/Pieces.antt =====
-- What the operations of crates/oxibus-core/src/marshal.rs append, one by one.
use oxibus.Base.{
  ℕ, ◌+◌, ◌-◌, ◌%◌, ◌^◌, ◌≤◌, ◌<◌, ◌≡◌, sym, ap, ◌∙◌, Bool, [], ◌∷◌, ◌++◌, Text, length,
  length-append_text, append_assoc, append-nil, drop, take-length-append, drop-length-append, ok,
  ◌==◌, arith, fail_if, Bool-cases, inl, inr, le→ltb_false,
}
use native.Mathlib.Nat.{mod-eq_of_lt}
use oxibus.Core.Types.{DType, max_signature_len, max_array_len, alignment}
use oxibus.Core.Marshal.{
  Marshaler, append, align, write_uint, write_u32, patch_u32, write_raw_string, write_signature_str,
  close_array,
}
use oxibus.Core.Bytes.{to_bytes, gap, length-to_bytes}
use oxibus.Core.Wire.Lengths.{lengths}
use oxibus.Core.Wire.{
  padding, uint_bytes, string_bytes, signature_bytes, array_start, array_bytes, IsWireString,
}

pub append-append : (s t : Text) (m : Marshaler) → append t (append s m) ≡ append (s ++ t) m
append-append s t m = λ i. record { buf = append_assoc m.buf s t i; big_endian = m.big_endian }

pub append_nil : (m : Marshaler) → append [] m ≡ m
append_nil m = λ i. record { buf = append-nil m.buf i; big_endian = m.big_endian }

pub align_lem : (n : ℕ) (m : Marshaler) → align n m ≡ append (padding n (length m.buf)) m
unfolding align gap
align_lem n m = elim (Bool-cases (length m.buf % n == 0)) [
  | inl h ↦ rw h (sym (append_nil m))
  | inr h ↦ rw h
]

pub write_uint_lem :
    (width v : ℕ) (m : Marshaler)
    → write_uint width v m ≡ append (uint_bytes m.big_endian width (length m.buf) v) m
unfolding write_uint
write_uint_lem width v m =
    rw (align_lem width m)
      (append-append (padding width (length m.buf)) (to_bytes m.big_endian width v) m)

pub write_u32_lem :
    (v : ℕ) (m : Marshaler) → write_u32 v m ≡ append (uint_bytes m.big_endian 4 (length m.buf) v) m
unfolding write_u32
write_u32_lem v m = write_uint_lem 4 v m

pub write_raw_string_lem :
    (s : Text) (m : Marshaler)
    → IsWireString s
    → write_raw_string s m ≡ ok (append (string_bytes m.big_endian (length m.buf) s) m)
unfolding write_raw_string fail_if
write_raw_string_lem s m h =
    rw (h.no_nul, mod-eq_of_lt h.short, write_u32_lem)
      (ap ok
        (append-append (uint_bytes m.big_endian 4 (length m.buf) (length s)) (s ++ (0 ∷ [])) m))

pub write_signature_str_lem :
    (s : Text) (m : Marshaler)
    → length s ≤ max_signature_len
    → write_signature_str s m ≡ ok (append (signature_bytes s) m)
unfolding write_signature_str fail_if
write_signature_str_lem s m h =
    rw (le→ltb_false _ _ h, mod-eq_of_lt (let p : length s < 256 = omega arith in p))

-- The length field of an array: written as zero, and patched once the elements are there.
pub patch_u32_lem :
    (front old rest : Text) (e : Bool) (v : ℕ)
    → length old ≡ 4
    → patch_u32 (length front) v (record { buf = front ++ (old ++ rest); big_endian = e })
      ≡ record { buf = front ++ (to_bytes e 4 v ++ rest); big_endian = e }
unfolding patch_u32
patch_u32_lem front old rest e v h = λ i. record {
  buf = take-length-append front (old ++ rest) i ++ (to_bytes e 4 v ++ tail i);
  big_endian = e;
}
  where
    tail : drop (length front + 4) (front ++ (old ++ rest)) ≡ rest
    tail =
        let p : length front + 4 ≡ length (front ++ old) =
          omega (arith, h, length-append_text front old) in
        rw (p, sym (append_assoc front old rest)) (drop-length-append (front ++ old) rest)

pub gap-gap : (pos : ℕ) → gap 4 (pos + gap 4 pos) ≡ 0
unfolding gap
gap-gap pos = ground arith

-- A length field of zero behind its padding, and the padding of the first element.
pub open_array :
    (t : DType) (m : Marshaler)
    → align (alignment t) (write_u32 0 (align 4 m))
      ≡ append
          (padding 4 (length m.buf)
            ++ (to_bytes m.big_endian 4 0
                ++ padding (alignment t) (length m.buf + gap 4 (length m.buf) + 4)))
          m
open_array t m =
    let p : length (m.buf ++ padding 4 (length m.buf)) ≡ length m.buf + gap 4 (length m.buf) =
      omega lengths in
    let q : length ((m.buf ++ padding 4 (length m.buf)) ++ to_bytes m.big_endian 4 0)
        ≡ length m.buf + gap 4 (length m.buf) + 4 =
      omega lengths in
    rw (align_lem 4 m, write_u32_lem, p, gap-gap, align_lem (alignment t), q) (simp append_assoc)

-- The end of an array: the check passes, and the patch puts the length in its place.
pub close_array_lem :
    (t : DType) (m : Marshaler) (body : Text) (pos : ℕ)
    → length m.buf ≡ pos
    → length body ≤ max_array_len
    → close_array
        (length (align 4 m).buf)
        (length (align (alignment t) (write_u32 0 (align 4 m))).buf)
        (append body (align (alignment t) (write_u32 0 (align 4 m))))
      ≡ ok (append (array_bytes m.big_endian pos t body) m)
unfolding close_array fail_if
close_array_lem t m body pos hp h =
    let pad : Text = padding (alignment t) (pos + gap 4 pos + 4) in
    let front : Text = m.buf ++ padding 4 pos in
    let opened : Text = m.buf ++ (padding 4 pos ++ (to_bytes m.big_endian 4 0 ++ pad)) in
    let n : length (opened ++ body) - length opened ≡ length body = omega lengths in
    rw (open_array t m, align_lem 4 m, hp, n, le→ltb_false _ _ h, mod-eq_of_lt small)
      (ap ok (shape ∙ patch ∙ shape'))
  where
    e : Bool
    e = m.big_endian

    pad : Text
    pad = padding (alignment t) (pos + gap 4 pos + 4)

    front : Text
    front = m.buf ++ padding 4 pos

    small : length body < 2 ^ 32
    small = omega arith

    shape :
        patch_u32 (length front) (length body) (record {
          buf = (m.buf ++ (padding 4 pos ++ (to_bytes e 4 0 ++ pad))) ++ body;
          big_endian = e;
        })
        ≡ patch_u32
            (length front)
            (length body)
            (record { buf = front ++ (to_bytes e 4 0 ++ (pad ++ body)); big_endian = e })
    shape = simp append_assoc

    patch :
        patch_u32
          (length front)
          (length body)
          (record { buf = front ++ (to_bytes e 4 0 ++ (pad ++ body)); big_endian = e })
        ≡ record { buf = front ++ (to_bytes e 4 (length body) ++ (pad ++ body)); big_endian = e }
    patch =
        patch_u32_lem front (to_bytes e 4 0) (pad ++ body) e (length body) (length-to_bytes e 4 0)

    shape' :
        ◌≡◌ {A = Marshaler}
          (record { buf = front ++ (to_bytes e 4 (length body) ++ (pad ++ body)); big_endian = e })
          (append (array_bytes e pos t body) m)
    shape' = simp append_assoc

pub length-array_start :
    (t : DType) (m : Marshaler) (pos : ℕ)
    → length m.buf ≡ pos
    → length (align (alignment t) (write_u32 0 (align 4 m))).buf ≡ array_start t pos
unfolding array_start
length-array_start t m pos hp =
    rw (open_array t m, hp)
      (length-append_text m.buf (
          padding 4 pos
          ++ (to_bytes m.big_endian 4 0 ++ padding (alignment t) (pos + gap 4 pos + 4)))
        ∙ omega (lengths, hp))
