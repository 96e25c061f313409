-- ===== src/Execution/Aggregate/Table.antt =====
-- `std::unordered_multimap<data_t, data_t>` as the aggregation uses it: `find`, a write to the element
-- that it has found, and a walk from `begin()` to `end()` in an order that is left open.
use mathlib.Core.List.Perm
use p2_hash_join_optimizatio.Common.{
  ◌≡◌, refl, false, List, [], ◌∷◌, Option, none, some, Perm, All, if◌then◌else◌, eqb_ℤ, eqb_ℤ_iff,
  Bool-cases, inl, inr, some_injective,
}
use p2_hash_join_optimizatio.Types.{Data}

pub record GroupTable : Type 1 where
  pub Map : Type 0
  pub empty : Map
  pub find : Data → Map → Option Data
  pub insert : Data → Data → Map → Map
  pub write_found : Data → Data → Map → Map
  pub entries : Map → List (Data × Data)
  pub entries-empty : entries empty ≡ []
  pub entries-insert : (k v : Data) (m : Map) → Perm (entries (insert k v m)) ((k, v) ∷ entries m)
  pub find-none :
      (k : Data) (m : Map) → find k m ≡ none → All (λ e. eqb_ℤ e.0 k ≡ false) (entries m)
  pub find-some :
      (k v w : Data) (m : Map)
      → find k m ≡ some v
      → (rest : List (Data × Data)) × Perm (entries m) ((k, v) ∷ rest)
        × Perm (entries (write_found k w m)) ((k, w) ∷ rest)

-- The newest first, and a write changes the first entry of the key.
unfoldable pub first : Data → List (Data × Data) → Option Data
first k [] = none
first k (e ∷ m) = let rest = first k m in if eqb_ℤ e.0 k then some e.1 else rest

unfoldable pub write_first : Data → Data → List (Data × Data) → List (Data × Data)
write_first k w [] = []
write_first k w (e ∷ m) =
    let rest = write_first k w m in if eqb_ℤ e.0 k then (k, w) ∷ m else e ∷ rest

pub first-none :
    (k : Data) (m : List (Data × Data)) → first k m ≡ none → All (λ e. eqb_ℤ e.0 k ≡ false) m
unfolding first
first-none k [] h = tt
first-none k (e ∷ m) h = elim (Bool-cases (eqb_ℤ e.0 k)) [
  | inl same ↦ absurd (cc (rw same at h))
  | inr other ↦ (other, first-none k m (rw other at h))
]

pub first-some :
    (k v w : Data) (m : List (Data × Data))
    → first k m ≡ some v
    → (rest : List (Data × Data)) × Perm m ((k, v) ∷ rest)
      × Perm (write_first k w m) ((k, w) ∷ rest)
unfolding first write_first
first-some k v w [] h = absurd (cc)
first-some k v w ((j, x) ∷ m) h = elim (Bool-cases (eqb_ℤ j k)) [
  | inl same ↦
      let e : x ≡ v = some_injective (rw same at h) in
      (m, rw (← e, (eqb_ℤ_iff j k).0 same) (Perm.refl _), rw same (Perm.refl _))
  | inr other ↦
      let (rest, here, there) = first-some k v w m (rw other at h) in
      (
        (j, x) ∷ rest,
        Perm.trans (Perm.cons (j, x) here) (Perm.swap _ _ rest),
        rw other (Perm.trans (Perm.cons (j, x) there) (Perm.swap _ _ rest)),
      )
]

-- A list of entries is such a map.
unfoldable pub list_group_table : GroupTable
unfolding first write_first
list_group_table = record {
  Map = List (Data × Data);
  empty = [];
  find = first;
  insert = λ k v m. (k, v) ∷ m;
  write_found = write_first;
  entries = λ m. m;
  entries-empty = refl;
  entries-insert = λ k v m. Perm.refl _;
  find-none = first-none;
  find-some = first-some;
}
