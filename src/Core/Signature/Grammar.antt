-- ===== src/Core/Signature/Grammar.antt =====
-- The well-formed types, an independent description of what crates/oxibus-core/src/signature.rs
-- accepts: dict entries only as elements of arrays and with basic keys, structs with a field, at
-- most 32 arrays and 32 structs and dict entries around one another.
use oxibus.Base.{ℕ, ◌<◌, ◌+◌, ◌≡◌, ◌≢◌, Bool, true, false}
use oxibus.Core.Types.{DType, DTypes, is_basic, max_array_depth, max_struct_depth}

abbrev mutual
  -- `allow` says that a dict entry may stand here; `ad` arrays and `sd` structs and dict entries
  -- stand around the type.
  pub Fits : Bool → ℕ → ℕ → DType → Type 0
  Fits allow ad sd (DType.array t) = (ad < max_array_depth) × Fits true (ad + 1) sd t
  Fits allow ad sd (DType.struct ts) =
      (sd < max_struct_depth) × (ts ≢ DTypes.nil) × FitAll ad (sd + 1) ts
  Fits allow ad sd (DType.dict_entry k v) =
      (allow ≡ true)
      × (sd < max_struct_depth)
      × (is_basic k ≡ true)
      × Fits false ad (sd + 1) k
      × Fits false ad (sd + 1) v
  Fits allow ad sd _ = Unit {0}

  pub FitAll : ℕ → ℕ → DTypes → Type 0
  FitAll ad sd DTypes.nil = Unit {0}
  FitAll ad sd (DTypes.cons t ts) = Fits false ad sd t × FitAll ad sd ts
