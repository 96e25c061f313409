-- ===== src/Common/Assoc.antt =====
-- `std::map` with string keys, without its order: the code only looks keys up.
use p2_hash_join_optimizatio.Common.Tests.{if◌then◌else◌}
use text.Mathlib.Text.{◌==◌ as str_eq}
use text.Mathlib.TextEquality.{eq_iff}
use mathlib.Core.List.{List, [], ◌∷◌}
use mathlib.Core.Option.{Option, none, some}
use mathlib.Core.Path.{◌≡◌}
use native.Mathlib.Omega.{arith}
use Prim.Native.String.{String}

abbrev pub Assoc {ℓ} : Type ℓ → Type ℓ
Assoc V = List (String × V)

module _ {ℓ} {V : Type ℓ} where
  -- `find`, with `none` for `end()`
  unfoldable pub lookup : String → Assoc V → Option V
  lookup k [] = none
  lookup k ((j, v) ∷ m) = if str_eq j k then some v else lookup k m

  -- `insert` of a key that is absent
  unfoldable pub insert : String → V → Assoc V → Assoc V
  insert k v m = elim (lookup k m) [ none ↦ (k, v) ∷ m | some _ ↦ m ]

  -- a write through an iterator at `k`
  unfoldable pub assign : String → V → Assoc V → Assoc V
  assign k v [] = []
  assign k v ((j, w) ∷ m) =
      let rest = assign k v m in if str_eq j k then (j, v) ∷ rest else (j, w) ∷ rest

  unfoldable pub erase : String → Assoc V → Assoc V
  erase k [] = []
  erase k ((j, v) ∷ m) = let rest = erase k m in if str_eq j k then rest else (j, v) ∷ rest

  pub lookup-insert :
      (k j : String) (v : V) (m : Assoc V)
      → lookup k m ≡ none
      → lookup j (insert k v m) ≡ (if str_eq k j then some v else lookup j m)
  unfolding lookup insert
  lookup-insert k j v m h = ground arith

  pub lookup-assign :
      (k j : String) (v : V) (m : Assoc V)
      → lookup j (assign k v m)
        ≡ (if str_eq k j then (elim (lookup k m) [ none ↦ none | some _ ↦ some v ]) else lookup j m)
  unfolding lookup assign
  lookup-assign k j v [] = ground arith
  lookup-assign k j v ((i, x) ∷ m) =
      ground (arith, lookup-assign k j v m, eq_iff i k, eq_iff i j, eq_iff k j)

  pub lookup-erase :
      (k j : String) (m : Assoc V)
      → lookup j (erase k m) ≡ (if str_eq k j then none else lookup j m)
  unfolding lookup erase
  lookup-erase k j [] = ground arith
  lookup-erase k j ((i, x) ∷ m) =
      ground (arith, lookup-erase k j m, eq_iff i k, eq_iff i j, eq_iff k j)
