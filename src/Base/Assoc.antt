-- ===== src/Base/Assoc.antt =====
-- `HashMap` with text keys as an association list. The order of the entries stands for the order in
-- which the map iterates, which Rust leaves open.
use mathlib.Core.Path.{◌≡◌}
use mathlib.Core.Bool.{true}
use mathlib.Core.Option.{Option, none, some}
use mathlib.Core.List.{List, [], ◌∷◌}
use native.Mathlib.Omega.{arith}
use oxibus.Base.Tests.{if◌then◌else◌}
use oxibus.Base.Lists.{Text, beq, beq_iff, any}

abbrev pub Assoc {ℓ} : Type ℓ → Type ℓ
Assoc V = List (Text × V)

module _ {ℓ} {V : Type ℓ} where
  unfoldable pub lookup : Text → Assoc V → Option V
  lookup k [] = none
  lookup k ((j, v) ∷ m) = if beq j k then some v else lookup k m

  unfoldable pub remove : Text → Assoc V → Assoc V
  remove k [] = []
  remove k ((j, v) ∷ m) = let rest = remove k m in if beq j k then rest else (j, v) ∷ rest

  unfoldable pub insert : Text → V → Assoc V → Assoc V
  unfolding remove
  insert k v m = (k, v) ∷ remove k m

  unfoldable pub keys : Assoc V → List Text
  keys [] = []
  keys ((j, v) ∷ m) = j ∷ keys m

  unfoldable pub values : Assoc V → List V
  values [] = []
  values ((j, v) ∷ m) = v ∷ values m

  pub lookup-remove :
      (k j : Text) (m : Assoc V) → lookup j (remove k m) ≡ (if beq k j then none else lookup j m)
  unfolding lookup remove
  lookup-remove k j [] = ground arith
  lookup-remove k j ((i, v) ∷ m) =
      ground (arith, lookup-remove k j m, beq_iff i k, beq_iff i j, beq_iff k j)

  pub lookup-insert :
      (k j : Text) (v : V) (m : Assoc V)
      → lookup j (insert k v m) ≡ (if beq k j then some v else lookup j m)
  unfolding lookup insert
  lookup-insert k j v m = ground (arith, lookup-remove k j m)

  pub any-keys_of_lookup :
      (k : Text) (m : Assoc V) (v : V) → lookup k m ≡ some v → any (λ j. beq j k) (keys m) ≡ true
  unfolding lookup keys
  any-keys_of_lookup k [] v h = cc
  any-keys_of_lookup k ((j, w) ∷ m) v h = ground (arith, any-keys_of_lookup k m v)
