-- ===== src/Execution/Aggregate/Sums.antt =====
-- What the aggregation is to return, from the pairs of key and value in the order of the rows, and that
-- one round of the inner loop of `BuildHashTable` keeps the table in step with it.
use mathlib.Core.List.{Perm, perm-replicate, filter_map as list_filter_map}
use mathlib.Core.List.Perm
use p2_hash_join_optimizatio.Common.{
  length, ◌<◌, ℕ, ◌≡◌, refl, sym, ap, ◌∙◌, Bool, true, false, ◌&&◌, List, [], ◌∷◌, ◌++◌, Option,
  none, some, Perm, All, if◌then◌else◌, eqb_ℤ, Bool-cases, inl, inr, ◌+ℤ◌, +ℤ_assoc, +ℤ_zero,
  zero_+ℤ, ℤ_set, pos,
}
use p2_hash_join_optimizatio.Types.{Data}
use p2_hash_join_optimizatio.Types.Lookup.{column}
use p2_hash_join_optimizatio.Execution.Operator.{Entry}
use p2_hash_join_optimizatio.Execution.Aggregate.{in_int64}

-- The values of the pairs with the key.
unfoldable pub values_of : Data → List (Data × Data) → List Data
values_of k [] = []
values_of k (p ∷ ps) = let rest = values_of k ps in if eqb_ℤ p.0 k then p.1 ∷ rest else rest

unfoldable pub sum : List Data → Data
sum [] = pos 0
sum (v ∷ vs) = v +ℤ sum vs

-- The sum of the group, where there is one.
abbrev pub group_sum : List Data → List Data
group_sum [] = []
group_sum (v ∷ vs) = sum (v ∷ vs) ∷ []

-- The key and the value of each row.
unfoldable pub pairs : ℕ → ℕ → List Entry → List (Data × Data)
pairs group_by_attr aggregate_column_attr [] = []
pairs group_by_attr aggregate_column_attr (row ∷ rows) =
    (column row.0 group_by_attr, column row.0 aggregate_column_attr)
    ∷ pairs group_by_attr aggregate_column_attr rows

-- The row has both columns, and the value is a signed 64-bit number.
abbrev pub Fits : ℕ → ℕ → Entry → Type 0
Fits group_by_attr aggregate_column_attr row =
    (group_by_attr < length row.0)
    × (aggregate_column_attr < length row.0)
    × (in_int64 (column row.0 aggregate_column_attr) ≡ true)

-- When the pairs `ps` come after `front`, the sum of a group is a signed 64-bit number after each.
unfoldable pub sums_fit : List (Data × Data) → List (Data × Data) → Bool
sums_fit front [] = true
sums_fit front (p ∷ ps) =
    in_int64 (sum (values_of p.0 (front ++ p ∷ []))) && sums_fit (front ++ p ∷ []) ps

pub values_of-append :
    (k : Data) (xs ys : List (Data × Data))
    → values_of k (xs ++ ys) ≡ values_of k xs ++ values_of k ys
unfolding values_of
values_of-append k [] ys = refl
values_of-append k (x ∷ xs) ys = elim (Bool-cases (eqb_ℤ x.0 k)) [
  | inl same ↦ rw (same, values_of-append k xs ys)
  | inr other ↦ rw (other, values_of-append k xs ys)
]

pub values_of-perm :
    (k : Data) {xs ys : List (Data × Data)} → Perm xs ys → Perm (values_of k xs) (values_of k ys)
unfolding values_of list_filter_map
values_of-perm k {xs} {ys} h = rw (as_filter xs, as_filter ys) (Perm.filter_map f h)
  where
    f : Data × Data → Option Data
    f p = if eqb_ℤ p.0 k then some p.1 else none

    as_filter : (ps : List (Data × Data)) → values_of k ps ≡ list_filter_map f ps
    as_filter [] = refl
    as_filter (p ∷ ps) = elim (Bool-cases (eqb_ℤ p.0 k)) [
      | inl same ↦ rw (same, as_filter ps)
      | inr other ↦ rw (other, as_filter ps)
    ]

pub values_of-other :
    (k : Data) (ps : List (Data × Data)) → All (λ e. eqb_ℤ e.0 k ≡ false) ps → values_of k ps ≡ []
unfolding values_of
values_of-other k [] h = refl
values_of-other k (p ∷ ps) h = rw (h.0, values_of-other k ps h.1)

pub sum-append : (xs ys : List Data) → sum (xs ++ ys) ≡ sum xs +ℤ sum ys
unfolding sum
sum-append [] ys = sym (zero_+ℤ (sum ys))
sum-append (x ∷ xs) ys = ap (λ s. x +ℤ s) (sum-append xs ys) ∙ sym (+ℤ_assoc x (sum xs) (sum ys))

pub sum-snoc : (vs : List Data) (v : Data) → sum (vs ++ v ∷ []) ≡ sum vs +ℤ v
unfolding sum
sum-snoc vs v = sum-append vs (v ∷ []) ∙ ap (λ s. sum vs +ℤ s) (+ℤ_zero v)

pub group_sum-snoc : (vs : List Data) (v : Data) → group_sum (vs ++ v ∷ []) ≡ (sum vs +ℤ v) ∷ []
unfolding sum
group_sum-snoc [] v = ap (λ s. s ∷ []) (+ℤ_zero v ∙ sym (zero_+ℤ v))
group_sum-snoc (w ∷ vs) v = ap (λ s. s ∷ []) (sum-snoc (w ∷ vs) v)

pub group_sum-perm : (l vs : List Data) → Perm l (group_sum vs) → l ≡ group_sum vs
group_sum-perm l [] h = Perm.eq-nil h
group_sum-perm l (v ∷ vs) h = (perm-replicate ℤ_set 1 (sum (v ∷ vs))).0 h

pub group_sum-nil : (vs : List Data) → [] ≡ group_sum vs → vs ≡ []
group_sum-nil [] h = refl
group_sum-nil (v ∷ vs) h = absurd (cc)

pub group_sum-cons :
    (vs rest : List Data) (u : Data) → (u ∷ rest) ≡ group_sum vs → (u ≡ sum vs) × (rest ≡ [])
group_sum-cons [] rest u h = absurd (cc)
group_sum-cons (v ∷ vs) rest u h = (cc, cc)
