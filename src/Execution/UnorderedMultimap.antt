-- ===== src/Execution/UnorderedMultimap.antt =====
-- `std::unordered_multimap<data_t, V>`, as its documentation describes it: the order in which
-- `equal_range` gives the values of a key is left open.
use p2_hash_join_optimizatio.Common.{ℕ, ◌≡◌, refl, List, [], ◌∷◌, Perm, if◌then◌else◌, eqb_ℤ}
use mathlib.Core.List.Perm
use p2_hash_join_optimizatio.Types.{Data}

pub record UnorderedMultimap (V : Type 0) : Type 1 where
  pub Map : Type 0
  pub empty : Map
  pub reserve : ℕ → Map → Map
  pub insert : Data → V → Map → Map
  pub equal_range : Data → Map → List V
  pub range-empty : (k : Data) → equal_range k empty ≡ []
  pub range-reserve :
      (k : Data) (n : ℕ) (m : Map) → Perm (equal_range k (reserve n m)) (equal_range k m)
  pub range-insert :
      (k j : Data) (v : V) (m : Map)
      → Perm
          (equal_range k (insert j v m))
          (if eqb_ℤ j k then v ∷ equal_range k m else equal_range k m)

-- The newest first.
values_of {ℓ} : {V : Type ℓ} → Data → List (Data × V) → List V
values_of k [] = []
values_of k ((j, v) ∷ m) = let rest = values_of k m in if eqb_ℤ j k then v ∷ rest else rest

-- A list of entries is such a map.
unfoldable pub list_multimap : (V : Type 0) → UnorderedMultimap V
unfolding values_of
list_multimap V = record {
  Map = List (Data × V);
  empty = [];
  reserve = λ n m. m;
  insert = λ k v m. (k, v) ∷ m;
  equal_range = values_of;
  range-empty = λ k. refl;
  range-reserve = λ k n m. Perm.refl _;
  range-insert = λ k j v m. Perm.refl _;
}
