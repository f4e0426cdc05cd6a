-- ===== src/Core/Wire/Body.antt =====
-- Writing and reading back, for one value anywhere in a buffer and for the body of a message:
-- `Marshaler::write_value`, `Unmarshaler::read_value`, `marshal_body` and `unmarshal_body`.
use oxibus.Base.{
  ℕ, ◌+◌, ◌≤◌, ◌≡◌, refl, sym, ap, ◌∙◌, Bool, [], ◌++◌, Text, length, length-append_text,
  append_assoc, append-nil, drop-length-append, ok, arith, ◌>>=◌,
}
use oxibus.Core.Types.{
  Value, Values, max_signature_len, to_signature_string, signature_strings, value_type, value_types,
}
use oxibus.Core.Signature.Grammar.{FitAll}
use oxibus.Core.Signature.RoundTrip.{parse_signature-print}
use oxibus.Core.Marshal.{Marshaler, append, new_marshaler, write_value, signatures_of, marshal_body}
use oxibus.Core.Unmarshal.{
  Unmarshaler, skip, new_unmarshaler, read_value, read_fields, unmarshal_body,
}
use oxibus.Core.Wire.{bytes_of, bytes_of_all, IsSendable, AreSendable}
use oxibus.Core.Wire.Read.{Ahead}
use oxibus.Core.Wire.Write.{write_value-bytes_of, write_values-bytes_of_all}
use oxibus.Core.Wire.Fuel.{fuel_of, fuel_of_all}
use oxibus.Core.Wire.RoundTrip.{read_value-bytes_of, read_fields-bytes_of_all}

-- `write_value` succeeds on a sendable value, keeps what the buffer held, and appends the wire
-- format of the value at the position where the buffer ended.
pub write_value_lem :
    (v : Value) (m : Marshaler)
    → IsSendable m.big_endian (length m.buf) v
    → write_value v m ≡ ok (record m { buf = m.buf ++ bytes_of m.big_endian (length m.buf) v })
write_value_lem v m h = write_value-bytes_of v m (length m.buf) refl h

-- `read_value`, with a unit of fuel for each nested value and loop round at least, reads the bytes
-- that `write_value` appended to any buffer back as the same value, whatever follows them, and
-- stands behind them.
pub read_value-write_value :
    (v : Value) (m m' : Marshaler) (rest : Text) (f : ℕ)
    → IsSendable m.big_endian (length m.buf) v
    → write_value v m ≡ ok m'
    → fuel_of v ≤ f
    → read_value f
        (value_type v)
        (record { buf = m'.buf ++ rest; pos = length m.buf; big_endian = m.big_endian })
      ≡ ok (v, record { buf = m'.buf ++ rest; pos = length m'.buf; big_endian = m.big_endian })
read_value-write_value v m m' rest f h e hf =
    rw (ap (λ x. x.buf) same) (read ∙ ap (λ k. ok (v, at k)) (sym (length-append_text m.buf bytes)))
  where
    bytes : Text
    bytes = bytes_of m.big_endian (length m.buf) v

    same : m' ≡ append bytes m
    same = cc (e, write_value_lem v m h)

    at : ℕ → Unmarshaler
    at k = record { buf = (m.buf ++ bytes) ++ rest; pos = k; big_endian = m.big_endian }

    ahead : Ahead (at (length m.buf)) (bytes ++ rest)
    ahead = record {
      left = rw (append_assoc m.buf bytes rest) (drop-length-append m.buf (bytes ++ rest));
      total = rw (append_assoc m.buf bytes rest) (sym (length-append_text m.buf (bytes ++ rest)));
    }

    read :
        read_value f (value_type v) (at (length m.buf)) ≡ ok (v, at (length m.buf + length bytes))
    read = read_value-bytes_of v (at (length m.buf)) (length m.buf) rest refl h ahead f hf

signatures_of_lem : (vs : Values) → signatures_of vs ≡ signature_strings (value_types vs)
unfolding signatures_of value_type to_signature_string
signatures_of_lem Values.nil = refl
signatures_of_lem (Values.cons v vs) =
    ap (◌++◌ (to_signature_string (value_type v))) (signatures_of_lem vs)

-- `marshal_body` succeeds on sendable values, and what it returns `unmarshal_body` reads back as
-- the same values, in either byte order, if their types fit a signature of 255 bytes.
pub unmarshal_body-marshal_body :
    (vs : Values) (big_endian : Bool) (f : ℕ)
    → AreSendable big_endian 0 vs
    → FitAll 0 0 (value_types vs)
    → length (signature_strings (value_types vs)) ≤ max_signature_len
    → fuel_of_all vs ≤ f
    → (marshal_body vs big_endian >>= λ (buf, sig). unmarshal_body f buf sig big_endian) ≡ ok vs
unfolding marshal_body unmarshal_body new_marshaler new_unmarshaler
unmarshal_body-marshal_body vs big_endian f h fits short hf = rw (
  write_values-bytes_of_all vs (new_marshaler big_endian) 0 refl h,
  signatures_of_lem vs,
  parse_signature-print (value_types vs) fits short,
  read,
)
  where
    bytes : Text
    bytes = bytes_of_all big_endian 0 vs

    start : Unmarshaler
    start = record { buf = bytes; pos = 0; big_endian = big_endian }

    read : read_fields f (value_types vs) start ≡ ok (vs, skip (length bytes) start)
    read =
        read_fields-bytes_of_all vs start 0 [] refl h
          (record { left = sym (append-nil bytes); total = rw append-nil (omega arith) }) f hf
