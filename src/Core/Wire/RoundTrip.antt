-- ===== src/Core/Wire/RoundTrip.antt =====
-- `read_value` of crates/oxibus-core/src/unmarshal.rs reads back what `write_value` of marshal.rs
-- wrote, at any position, in either byte order, and leaves whatever follows.
use mathlib.Core.Path.{subst}
use oxibus.Base.{
  ℕ, suc, ◌+◌, ◌<◌, ◌≡◌, ◌^◌, refl, sym, ap, length-append_text, Bool, true, false, ◌++◌, Text,
  length, append_assoc, ok, err, out_of_fuel, arith, ◌>>=◌, fail_if, ltb, lt→ltb, le→ltb_false,
  ==_refl,
}
use oxibus.Core.Error.{CoreResult}
use oxibus.Core.Types.{
  DType, DTypes, signature_strings, Value, Values, alignment, to_signature_string, value_type,
}
use oxibus.Core.Signature.{parse_signature, new_signature}
use oxibus.Core.Signature.RoundTrip.{is_ascii-print, is_ascii-prints}
use oxibus.Core.Signature.Sound.{parse_signature_iff, parse_single_complete_type_iff}
use oxibus.Core.Bytes.{gap}
use oxibus.Core.Utf8.{is_utf8, is_ascii-is_utf8}
use oxibus.Core.Unmarshal.{
  Unmarshaler, skip, close_array, read_value, read_elements, read_boolean, read_object_path,
  read_signature, read_u16, read_i16, read_i32, read_u64, read_i64, read_f64,
}
use oxibus.Core.Wire.{padding, uint_bytes, signature_bytes, array_start, bytes_of, bytes_of_all}
use oxibus.Core.Wire.Lengths.{lengths, length-padding}
use oxibus.Core.Wire.Read.{
  Ahead, Ahead-skip, skip_zero, need-ok, align_lem, read_u8_lem, read_uint_lem, read_u32_lem,
  read_raw_string_lem, read_signature_str_lem, to_signed-to_unsigned,
}
use oxibus.Core.Wire.Fuel.{
  fuel_of, bytes_of_pos, on_suc, ok_skip, ok_skip_twice, Reads, ReadsFields, ReadsElements,
}

read_struct : (vs : Values) → ReadsFields vs → Reads (Value.struct vs)
unfolding read_value bytes_of value_type fuel_of
read_struct vs ih u pos rest hp h ahead = on_suc _ (omega arith) λ f hf.
    let body : Text = bytes_of_all u.big_endian (pos + gap 8 pos) vs in
    let h1 : Ahead u (padding 8 pos ++ (body ++ rest)) =
      rw (sym (append_assoc (padding 8 pos) body rest)) ahead in
    let h2 : Ahead (skip (gap 8 pos) u) (body ++ rest) =
      Ahead-skip u (padding 8 pos) (body ++ rest) (gap 8 pos) (length-padding 8 pos) h1 in
    rw
      (
        align_lem 8 pos u (body ++ rest) hp h1,
        ih (skip (gap 8 pos) u) (pos + gap 8 pos) rest (omega arith) h.1 h2 f (omega arith),
      )
      (ok_skip (Value.struct vs) (gap 8 pos) (length body) _ u (omega lengths))

read_dict_entry : (k v : Value) → Reads k → Reads v → Reads (Value.dict_entry k v)
unfolding read_value bytes_of value_type fuel_of
read_dict_entry k v ihk ihv u pos rest hp h ahead = on_suc _ (omega arith) λ f hf.
    let e : Bool = u.big_endian in
    let p : ℕ = pos + gap 8 pos in
    let key : Text = bytes_of e p k in
    let val : Text = bytes_of e (p + length key) v in
    let h1 : Ahead u (padding 8 pos ++ (key ++ (val ++ rest))) = simp append_assoc at ahead in
    let u1 : Unmarshaler = skip (gap 8 pos) u in
    let h2 : Ahead u1 (key ++ (val ++ rest)) =
      Ahead-skip u (padding 8 pos) (key ++ (val ++ rest)) (gap 8 pos) (length-padding 8 pos) h1 in
    let u2 : Unmarshaler = skip (length key) u1 in
    let h3 : Ahead u2 (val ++ rest) = Ahead-skip u1 key (val ++ rest) (length key) refl h2 in
    rw
      (
        align_lem 8 pos u (key ++ (val ++ rest)) hp h1,
        ihk u1 p (val ++ rest) (omega arith) h.0 h2 f (omega arith),
        ihv u2 (p + length key) rest (omega arith) h.1 h3 f (omega arith),
      )
      (ok_skip_twice (Value.dict_entry k v) (gap 8 pos) (length key) (length val) _ u
        (omega lengths))

read_variant : (v : Value) → Reads v → Reads (Value.variant v)
unfolding read_value bytes_of value_type fuel_of
read_variant v ih u pos rest hp h ahead = on_suc _ (omega arith) λ f hf.
    let s : Text = to_signature_string (value_type v) in
    let sig : Text = signature_bytes s in
    let body : Text = bytes_of u.big_endian (pos + length sig) v in
    let h1 : Ahead u (sig ++ (body ++ rest)) = rw (sym (append_assoc sig body rest)) ahead in
    let h2 : Ahead (skip (length sig) u) (body ++ rest) =
      Ahead-skip u sig (body ++ rest) (length sig) refl h1 in
    rw
      (
        read_signature_str_lem s u (body ++ rest)
            (is_ascii-is_utf8 s (is_ascii-print (value_type v))) h1,
        (parse_single_complete_type_iff (to_signature_string (value_type v)) (value_type v)).1
            (refl, h.0, h.1),
        ih (skip (length sig) u) (pos + length sig) rest (omega arith) h.2 h2 f (omega arith),
      )
      (ok_skip (Value.variant v) (length sig) (length body) _ u (sym (length-append_text sig body)))

read_elements_more :
    (f : ℕ) (t : DType) (end : ℕ) (u : Unmarshaler)
    → ltb u.pos end ≡ true
    → read_elements (suc f) t end u ≡ (
        read_value f t u >>= λ (v, u').
        read_elements f t end u' >>= λ (vs, u''). ok (Values.cons v vs, u''))
unfolding read_value
read_elements_more f t end u h = rw (h, read_elements)

-- One more field, and one more element.
module _ (v : Value) (vs : Values) (head : Reads v) where
  read_fields_cons : ReadsFields vs → ReadsFields (Values.cons v vs)
  unfolding read_value bytes_of value_type fuel_of
  read_fields_cons tail u pos rest hp h ahead = on_suc _ (omega arith) λ f hf.
      let front : Text = bytes_of u.big_endian pos v in
      let back : Text = bytes_of_all u.big_endian (pos + length front) vs in
      let h1 : Ahead u (front ++ (back ++ rest)) = rw (sym (append_assoc front back rest)) ahead in
      let u1 : Unmarshaler = skip (length front) u in
      let h2 : Ahead u1 (back ++ rest) = Ahead-skip u front (back ++ rest) (length front) refl h1 in
      rw
        (
          head u pos (back ++ rest) hp h.0 h1 f (omega arith),
          tail u1 (pos + length front) rest (omega arith) h.1 h2 f (omega arith),
        )
        (ok_skip (Values.cons v vs) (length front) (length back) _ u (omega lengths))

  read_elements_cons : ReadsElements vs → ReadsElements (Values.cons v vs)
  unfolding bytes_of fuel_of
  read_elements_cons tail t end u pos rest typed hp he h ahead = on_suc _ (omega arith) λ f hf.
      let front : Text = bytes_of u.big_endian pos v in
      let back : Text = bytes_of_all u.big_endian (pos + length front) vs in
      let size : pos + length (front ++ back) ≡ end = he in
      let h1 : Ahead u (front ++ (back ++ rest)) = rw (sym (append_assoc front back rest)) ahead in
      let u1 : Unmarshaler = skip (length front) u in
      let h2 : Ahead u1 (back ++ rest) = Ahead-skip u front (back ++ rest) (length front) refl h1 in
      let more : ltb u.pos end ≡ true =
        lt→ltb u.pos end (omega (lengths, size, hp, bytes_of_pos v u.big_endian pos h.0)) in
      let one : read_value f t u ≡ ok (v, u1) =
        subst (λ x. read_value f x u ≡ ok (v, u1)) typed.0
          (head u pos (back ++ rest) hp h.0 h1 f (omega arith)) in
      rw
        (
          read_elements_more f t end u more,
          one,
          tail t end u1 (pos + length front) rest typed.1 (omega arith) (omega (lengths, size)) h.1
              h2 f (omega arith),
        )
        (ok_skip (Values.cons v vs) (length front) (length back) _ u (omega lengths))

parsed_of : (s : Text) → new_signature s ≡ ok s → (ts : DTypes) × (parse_signature s ≡ ok ts)
unfolding new_signature fail_if
parsed_of s h = by_result (parse_signature s) refl
  where
    by_result :
        (r : CoreResult DTypes)
        → parse_signature s ≡ r
        → (ts : DTypes) × (parse_signature s ≡ ok ts)
    by_result (ok ts) e = (ts, e)
    by_result (err x) e = ground (arith, h)
    by_result out_of_fuel e = ground (arith, h)

new_signature-is_utf8 : (s : Text) → new_signature s ≡ ok s → is_utf8 s ≡ true
unfolding new_signature fail_if
new_signature-is_utf8 s h =
    let (ts, parsed) = parsed_of s h in
    rw ((parse_signature_iff s ts).0 parsed).0
      (is_ascii-is_utf8 (signature_strings ts) (is_ascii-prints ts))

-- The steps of the array arm, over the reading of the elements.
read_array : (t : DType) (vs : Values) → ReadsElements vs → Reads (Value.array t vs)
unfolding read_value bytes_of value_type fuel_of close_array fail_if array_start
read_array t vs ih u pos rest hp h ahead = on_suc _ (omega arith) λ f hf.
    let e : Bool = u.big_endian in
    let body : Text = bytes_of_all e (array_start t pos) vs in
    let p1 : ℕ = pos + gap 4 pos + 4 in
    let len : Text = uint_bytes e 4 pos (length body) in
    let pad : Text = padding (alignment t) p1 in
    let w : length len ≡ gap 4 pos + 4 = omega lengths in
    let h1 : Ahead u (len ++ (pad ++ (body ++ rest))) = subst (Ahead u) (simp append_assoc) ahead in
    let u1 : Unmarshaler = skip (length len) u in
    let h2 : Ahead u1 (pad ++ (body ++ rest)) =
      Ahead-skip u len (pad ++ (body ++ rest)) (length len) refl h1 in
    let hp1 : u1.pos ≡ p1 = omega arith in
    let u2 : Unmarshaler = skip (gap (alignment t) p1) u1 in
    let h3 : Ahead u2 (body ++ rest) =
      Ahead-skip u1 pad (body ++ rest) (gap (alignment t) p1) (length-padding (alignment t) p1)
        h2 in
    let small : length body < 2 ^ 32 = omega (arith, h.0) in
    rw
      (
        read_u32_lem (length body) pos u (pad ++ (body ++ rest)) small hp h1,
        le→ltb_false _ _ h.0,
        align_lem (alignment t) p1 u1 (body ++ rest) hp1 h2,
        need-ok u2 body rest (length body) refl h3,
        ih t (u2.pos + length body) u2 (array_start t pos) rest h.1 (omega arith) (omega arith) h.2
            h3 f (omega arith),
        ==_refl (u2.pos + length body),
      )
      (ok_skip_twice (Value.array t vs) (length len) (gap (alignment t) p1) (length body) _ u
        (omega (lengths, w)))

mutual
  unfolding read_value bytes_of value_type fuel_of read_boolean read_object_path read_signature
      read_u16 read_i16 read_i32 read_u64 read_i64 read_f64 fail_if

  pub read_value-bytes_of : (v : Value) → Reads v
  read_value-bytes_of (Value.byte v) u pos rest hp h ahead =
      on_suc _ (omega arith) λ f hf. rw (read_u8_lem v u rest ahead)
  read_value-bytes_of (Value.boolean true) u pos rest hp h ahead =
      on_suc _ (omega arith) λ f hf. rw (read_u32_lem 1 pos u rest (omega arith) hp ahead)
  read_value-bytes_of (Value.boolean false) u pos rest hp h ahead =
      on_suc _ (omega arith) λ f hf. rw (read_u32_lem 0 pos u rest (omega arith) hp ahead)
  read_value-bytes_of (Value.int16 v) u pos rest hp h ahead =
      let (back, small) = to_signed-to_unsigned (2 ^ 15) v h in
      on_suc _ (omega arith) λ f hf. rw (read_uint_lem 2 _ pos u rest small hp ahead, back)
  read_value-bytes_of (Value.uint16 v) u pos rest hp h ahead =
      on_suc _ (omega arith) λ f hf. rw (read_uint_lem 2 v pos u rest h hp ahead)
  read_value-bytes_of (Value.int32 v) u pos rest hp h ahead =
      let (back, small) = to_signed-to_unsigned (2 ^ 31) v h in
      on_suc _ (omega arith) λ f hf. rw (read_u32_lem _ pos u rest small hp ahead, back)
  read_value-bytes_of (Value.uint32 v) u pos rest hp h ahead =
      on_suc _ (omega arith) λ f hf. rw (read_u32_lem v pos u rest h hp ahead)
  read_value-bytes_of (Value.int64 v) u pos rest hp h ahead =
      let (back, small) = to_signed-to_unsigned (2 ^ 63) v h in
      on_suc _ (omega arith) λ f hf. rw (read_uint_lem 8 _ pos u rest small hp ahead, back)
  read_value-bytes_of (Value.uint64 v) u pos rest hp h ahead =
      on_suc _ (omega arith) λ f hf. rw (read_uint_lem 8 v pos u rest h hp ahead)
  read_value-bytes_of (Value.double v) u pos rest hp h ahead =
      on_suc _ (omega arith) λ f hf. rw (read_uint_lem 8 v pos u rest h hp ahead)
  read_value-bytes_of (Value.string s) u pos rest hp h ahead =
      on_suc _ (omega arith) λ f hf. rw (read_raw_string_lem s pos u rest h hp ahead)
  read_value-bytes_of (Value.object_path s) u pos rest hp h ahead =
      on_suc _ (omega arith) λ f hf. rw (read_raw_string_lem s pos u rest h.0 hp ahead, h.1)
  read_value-bytes_of (Value.signature s) u pos rest hp h ahead =
      on_suc _ (omega arith)
        λ f hf. rw (read_signature_str_lem s u rest (new_signature-is_utf8 s h) ahead, h)
  read_value-bytes_of (Value.unix_fd v) u pos rest hp h ahead =
      on_suc _ (omega arith) λ f hf. rw (read_u32_lem v pos u rest h hp ahead)
  read_value-bytes_of (Value.array t vs) u pos rest hp h ahead =
      read_array t vs (read_elements-bytes_of_all vs) u pos rest hp h ahead
  read_value-bytes_of (Value.struct vs) u pos rest hp h ahead =
      read_struct vs (read_fields-bytes_of_all vs) u pos rest hp h ahead
  read_value-bytes_of (Value.dict_entry k v) u pos rest hp h ahead =
      read_dict_entry k v (read_value-bytes_of k) (read_value-bytes_of v) u pos rest hp h ahead
  read_value-bytes_of (Value.variant v) u pos rest hp h ahead =
      read_variant v (read_value-bytes_of v) u pos rest hp h ahead

  pub read_fields-bytes_of_all : (vs : Values) → ReadsFields vs
  read_fields-bytes_of_all Values.nil u pos rest hp h ahead =
      on_suc _ (omega arith) λ f hf. ap (λ x. ok (Values.nil, x)) (sym (skip_zero u))
  read_fields-bytes_of_all (Values.cons v vs) u pos rest hp h ahead =
      read_fields_cons v vs (read_value-bytes_of v) (read_fields-bytes_of_all vs) u pos rest hp h
        ahead

  read_elements-bytes_of_all : (vs : Values) → ReadsElements vs
  read_elements-bytes_of_all Values.nil t end u pos rest typed hp he h ahead =
      on_suc _ (omega arith) λ f hf.
        rw (le→ltb_false u.pos end (omega arith), read_elements)
          (ap (λ x. ok (Values.nil, x)) (sym (skip_zero u)))
  read_elements-bytes_of_all (Values.cons v vs) t end u pos rest typed hp he h ahead =
      read_elements_cons v vs (read_value-bytes_of v) (read_elements-bytes_of_all vs) t end u pos
        rest typed hp he h ahead
