-- ===== src/Core/Wire/Write.antt =====
-- What `write_value` of crates/oxibus-core/src/marshal.rs writes is the wire format.
use oxibus.Base.{
  ℕ, ◌+◌, ◌≤◌, ◌≡◌, refl, sym, ap, ◌∙◌, ◌++◌, Text, length, append_assoc, ok, arith, fail_if,
}
use mathlib.Core.Path.{subst}
use oxibus.Core.Types.{
  DType, Value, Values, max_signature_len, alignment, to_signature_string, value_type,
}
use oxibus.Core.Marshal.{
  Marshaler, append, align, write_u8, write_u16, write_u64, write_u32, write_f64, write_i16,
  write_i32, write_i64, close_array, write_value, write_values,
}
use oxibus.Core.Signature.{new_signature}
use oxibus.Core.Bytes.{gap}
use oxibus.Core.Wire.Lengths.{lengths}
use oxibus.Core.Wire.{
  padding, signature_bytes, array_start, bytes_of, bytes_of_all, IsSendable, AreSendable,
}
use oxibus.Core.Wire.Pieces.{
  append-append, append_nil, align_lem, write_uint_lem, write_u32_lem, write_raw_string_lem,
  write_signature_str_lem, open_array, close_array_lem, length-array_start,
}

abbrev pub Writes : Value → Type 0
Writes v =
    (m : Marshaler) (pos : ℕ)
    → length m.buf ≡ pos
    → IsSendable m.big_endian pos v
    → write_value v m ≡ ok (append (bytes_of m.big_endian pos v) m)

abbrev pub WritesAll : Values → Type 0
WritesAll vs =
    (m : Marshaler) (pos : ℕ)
    → length m.buf ≡ pos
    → AreSendable m.big_endian pos vs
    → write_values vs m ≡ ok (append (bytes_of_all m.big_endian pos vs) m)

-- Writing on after the bytes `s`.
module _ (m : Marshaler) (pos next : ℕ) (s : Text) (hp : length m.buf ≡ pos)
    (hn : pos + length s ≡ next) where
  after :
      (v : Value)
      → Writes v
      → IsSendable m.big_endian next v
      → write_value v (append s m) ≡ ok (append (s ++ bytes_of m.big_endian next v) m)
  after v ih h =
      ih (append s m) next (omega (lengths, hp, hn)) h
      ∙ ap ok (append-append s (bytes_of m.big_endian next v) m)

  after_all :
      (vs : Values)
      → WritesAll vs
      → AreSendable m.big_endian next vs
      → write_values vs (append s m) ≡ ok (append (s ++ bytes_of_all m.big_endian next vs) m)
  after_all vs ih h =
      ih (append s m) next (omega (lengths, hp, hn)) h
      ∙ ap ok (append-append s (bytes_of_all m.big_endian next vs) m)

write_dict_entry : (k v : Value) → Writes k → Writes v → Writes (Value.dict_entry k v)
unfolding write_value bytes_of
write_dict_entry k v ihk ihv m pos hp h =
    let key : Text = bytes_of m.big_endian (pos + gap 8 pos) k in
    rw
      (
        align_lem 8 m,
        hp,
        after m pos (pos + gap 8 pos) (padding 8 pos) hp (omega lengths) k ihk h.0,
        after m pos (pos + gap 8 pos + length key) (padding 8 pos ++ key) hp (omega lengths) v ihv
            h.1,
      )
      (simp append_assoc)

write_variant : (v : Value) → Writes v → Writes (Value.variant v)
unfolding write_value bytes_of
write_variant v ih m pos hp h =
    let sig : Text = to_signature_string (value_type v) in
    rw (
      write_signature_str_lem sig m h.1,
      after m pos (pos + length (signature_bytes sig)) (signature_bytes sig) hp refl v ih h.2,
    )

write_array : (t : DType) (vs : Values) → WritesAll vs → Writes (Value.array t vs)
unfolding write_value bytes_of
write_array t vs ih m pos hp h =
    let opened : Marshaler = align (alignment t) (write_u32 0 (align 4 m)) in
    let e : opened.big_endian ≡ m.big_endian = rw (open_array t m) in
    rw
      (ih opened (array_start t pos) (length-array_start t m pos hp)
        (subst (λ b. AreSendable b (array_start t pos) vs) (sym e) h.2))
      (ap
          (λ b.
            close_array (length (align 4 m).buf) (length opened.buf)
              (append (bytes_of_all b (array_start t pos) vs) opened))
          e
        ∙ close_array_lem t m (bytes_of_all m.big_endian (array_start t pos) vs) pos hp h.0)

length-new_signature : (s : Text) → new_signature s ≡ ok s → length s ≤ max_signature_len
unfolding new_signature fail_if
length-new_signature s h = ground arith

mutual
  unfolding write_value bytes_of write_u8 write_u16 write_i16 write_i32 write_u64 write_i64
      write_f64

  pub write_value-bytes_of : (v : Value) → Writes v
  write_value-bytes_of (Value.byte v) m pos hp h = refl
  write_value-bytes_of (Value.boolean v) m pos hp h = rw (write_u32_lem, hp)
  write_value-bytes_of (Value.int16 v) m pos hp h = rw (write_uint_lem 2 _ m, hp)
  write_value-bytes_of (Value.uint16 v) m pos hp h = rw (write_uint_lem 2 _ m, hp)
  write_value-bytes_of (Value.int32 v) m pos hp h = rw (write_u32_lem, hp)
  write_value-bytes_of (Value.uint32 v) m pos hp h = rw (write_u32_lem, hp)
  write_value-bytes_of (Value.int64 v) m pos hp h = rw (write_uint_lem 8 _ m, hp)
  write_value-bytes_of (Value.uint64 v) m pos hp h = rw (write_uint_lem 8 _ m, hp)
  write_value-bytes_of (Value.double v) m pos hp h = rw (write_uint_lem 8 _ m, hp)
  write_value-bytes_of (Value.string s) m pos hp h = rw (write_raw_string_lem s m h, hp)
  write_value-bytes_of (Value.object_path s) m pos hp h = rw (write_raw_string_lem s m h.0, hp)
  write_value-bytes_of (Value.signature s) m pos hp h =
      write_signature_str_lem s m (length-new_signature s h)
  write_value-bytes_of (Value.unix_fd v) m pos hp h = rw (write_u32_lem, hp)
  write_value-bytes_of (Value.array t vs) m pos hp h =
      write_array t vs (write_values-bytes_of_all vs) m pos hp h
  write_value-bytes_of (Value.struct vs) m pos hp h =
      rw (align_lem 8 m, hp)
        (after_all m pos (pos + gap 8 pos) (padding 8 pos) hp (omega lengths) vs
          (write_values-bytes_of_all vs) h.1)
  write_value-bytes_of (Value.dict_entry k v) m pos hp h =
      write_dict_entry k v (write_value-bytes_of k) (write_value-bytes_of v) m pos hp h
  write_value-bytes_of (Value.variant v) m pos hp h =
      write_variant v (write_value-bytes_of v) m pos hp h

  pub write_values-bytes_of_all : (vs : Values) → WritesAll vs
  write_values-bytes_of_all Values.nil m pos hp h = ap ok (sym (append_nil m))
  write_values-bytes_of_all (Values.cons v vs) m pos hp h =
      rw (write_value-bytes_of v m pos hp h.0) (
        after_all m pos (pos + length (bytes_of m.big_endian pos v)) (bytes_of m.big_endian pos v)
          hp refl vs (write_values-bytes_of_all vs) h.1)
