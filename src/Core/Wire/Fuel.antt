-- ===== src/Core/Wire/Fuel.antt =====
-- The fuel that a value is read back with, and what it means that it is.
use oxibus.Base.{
  ℕ, zero, suc, ◌+◌, ◌≤◌, ◌<◌, ◌≡◌, refl, ap, ◌∙◌, ◌≢◌, Bool, ◌++◌, Text, length, ok, arith,
}
use oxibus.Core.Error.{CoreResult}
use oxibus.Core.Types.{DType, Value, Values, value_type, value_types}
use oxibus.Core.Bytes.{gap}
use oxibus.Core.Unmarshal.{Unmarshaler, skip, read_value, read_elements, read_fields}
use oxibus.Core.Wire.{bytes_of, bytes_of_all, IsSendable, AreSendable, AreOfType}
use oxibus.Core.Wire.Lengths.{lengths}
use oxibus.Core.Wire.Read.{Ahead, skip-skip}

-- A unit of fuel for each nested value and each round of a loop.
unfoldable mutual
  pub fuel_of : Value → ℕ
  fuel_of (Value.array t vs) = suc (fuel_of_all vs)
  fuel_of (Value.struct vs) = suc (fuel_of_all vs)
  fuel_of (Value.dict_entry k v) = suc (fuel_of k + fuel_of v)
  fuel_of (Value.variant v) = suc (fuel_of v)
  fuel_of _ = 1

  pub fuel_of_all : Values → ℕ
  fuel_of_all Values.nil = 1
  fuel_of_all (Values.cons v vs) = suc (fuel_of v + fuel_of_all vs)

mutual
  unfolding bytes_of

  pub bytes_of_pos :
      (v : Value) (e : Bool) (pos : ℕ) → IsSendable e pos v → 0 < length (bytes_of e pos v)
  bytes_of_pos (Value.struct vs) e pos h =
      omega (lengths, bytes_of_all_pos vs e (pos + gap 8 pos) h.0 h.1)
  bytes_of_pos (Value.dict_entry k v) e pos h =
      omega (lengths, bytes_of_pos k e (pos + gap 8 pos) h.0)
  bytes_of_pos _ e pos h = omega lengths

  pub bytes_of_all_pos :
      (vs : Values) (e : Bool) (pos : ℕ)
      → vs ≢ Values.nil
      → AreSendable e pos vs
      → 0 < length (bytes_of_all e pos vs)
  bytes_of_all_pos Values.nil e pos ne h = absurd (ne refl)
  bytes_of_all_pos (Values.cons v vs) e pos ne h = omega (lengths, bytes_of_pos v e pos h.0)

pub on_suc {ℓ} :
    {n : ℕ} (P : ℕ → Type ℓ) → 0 < n → ((f : ℕ) → n ≤ suc f → P (suc f)) → (f : ℕ) → n ≤ f → P f
on_suc P pos k zero h = absurd (omega arith)
on_suc P pos k (suc f) h = k f h

pub ok_skip {ℓ} :
    {A : Type ℓ} (a : A) (m n k : ℕ) (u : Unmarshaler)
    → m + n ≡ k
    → ◌≡◌ {A = CoreResult (A × Unmarshaler)} (ok (a, skip n (skip m u))) (ok (a, skip k u))
ok_skip a m n k u p = ap (λ x. ok (a, x)) (skip-skip m n u ∙ ap (λ j. skip j u) p)

pub ok_skip_twice {ℓ} :
    {A : Type ℓ} (a : A) (l m n k : ℕ) (u : Unmarshaler)
    → l + m + n ≡ k
    → ◌≡◌ {A = CoreResult (A × Unmarshaler)} (ok (a, skip n (skip m (skip l u)))) (ok (a, skip k u))
ok_skip_twice a l m n k u p =
    ap (λ x. ok (a, skip n x)) (skip-skip l m u) ∙ ok_skip a (l + m) n k u p

abbrev pub Reads : Value → Type 0
Reads v =
    (u : Unmarshaler) (pos : ℕ) (rest : Text)
    → u.pos ≡ pos
    → IsSendable u.big_endian pos v
    → Ahead u (bytes_of u.big_endian pos v ++ rest)
    → (f : ℕ) → fuel_of v ≤ f
    → read_value f (value_type v) u ≡ ok (v, skip (length (bytes_of u.big_endian pos v)) u)

abbrev pub ReadsFields : Values → Type 0
ReadsFields vs =
    (u : Unmarshaler) (pos : ℕ) (rest : Text)
    → u.pos ≡ pos
    → AreSendable u.big_endian pos vs
    → Ahead u (bytes_of_all u.big_endian pos vs ++ rest)
    → (f : ℕ) → fuel_of_all vs ≤ f
    → read_fields f (value_types vs) u ≡ ok (vs, skip (length (bytes_of_all u.big_endian pos vs)) u)

abbrev pub ReadsElements : Values → Type 0
ReadsElements vs =
    (t : DType) (end : ℕ) (u : Unmarshaler) (pos : ℕ) (rest : Text)
    → AreOfType t vs
    → u.pos ≡ pos
    → pos + length (bytes_of_all u.big_endian pos vs) ≡ end
    → AreSendable u.big_endian pos vs
    → Ahead u (bytes_of_all u.big_endian pos vs ++ rest)
    → (f : ℕ) → fuel_of_all vs ≤ f
    → read_elements f t end u ≡ ok (vs, skip (length (bytes_of_all u.big_endian pos vs)) u)
