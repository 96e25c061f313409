-- ===== src/Execution/Aggregate/Groups.antt =====
-- `BuildHashTable`: after each row the table holds, for each key, the sum of the group so far.
use mathlib.Core.List.Perm
use p2_hash_join_optimizatio.Common.{
  ◌≡◌, sym, ap, ◌∙◌, true, List, [], ◌∷◌, ◌++◌, none, some, ok, ◌>>=◌, fault, signed_overflow,
  if◌then◌else◌, eqb_ℤ, eqb_ℤ_iff, eqb_ℤ_refl, Bool-cases, Option-cases, inl, inr, ◌+ℤ◌, +ℤ_zero,
  append-nil, Result,
}
use p2_hash_join_optimizatio.Types.{Data}
use p2_hash_join_optimizatio.Execution.Aggregate.Table.{GroupTable}
use p2_hash_join_optimizatio.Execution.Aggregate.Sums.{
  values_of, sum, group_sum, values_of-append, values_of-perm, values_of-other, sum-snoc,
  group_sum-snoc, group_sum-perm, group_sum-nil, group_sum-cons,
}
use p2_hash_join_optimizatio.Execution.Aggregate.{in_int64, add_data}

module _ (hash_table : GroupTable) where
  open hash_table use {
    Map, empty, find, insert, write_found, entries, entries-empty, entries-insert, find-none,
    find-some,
  }

  -- The table holds the sums of the groups of the pairs.
  abbrev pub Holds : List (Data × Data) → Map → Type 0
  Holds front m = (k : Data) → values_of k (entries m) ≡ group_sum (values_of k front)

  pub empty-Holds : Holds [] empty
  unfolding values_of
  empty-Holds k = rw entries-empty

  -- An entry for a new key.
  insert-Holds :
      (front : List (Data × Data)) (m : Map) (k v : Data)
      → Holds front m
      → values_of k front ≡ []
      → Holds (front ++ (k, v) ∷ []) (insert k v m)
  unfolding values_of sum
  insert-Holds front m k v h fresh j =
      let grown = values_of-perm j (entries-insert k v m) in
      let old = h j in
      elim (Bool-cases (eqb_ℤ k j)) [
        | inl same ↦
            let e : k ≡ j = (eqb_ℤ_iff k j).0 same in
            let none_before : values_of j front ≡ [] = rw e at fresh in
            let none_here : values_of j (entries m) ≡ [] = old ∙ ap group_sum none_before in
            group_sum-perm _ _ (
              rw (values_of-append j front ((k, v) ∷ []), same, none_before, +ℤ_zero)
                (rw (same, none_here) at grown))
        | inr other ↦
            rw (values_of-append j front ((k, v) ∷ []), other, append-nil)
              (group_sum-perm _ _ (rw (other, old) at grown))
      ]

  -- An entry written over with the sum.
  write-Holds :
      (front : List (Data × Data)) (m : Map) (k v u : Data)
      → Holds front m
      → find k m ≡ some u
      → (u ≡ sum (values_of k front)) × Holds (front ++ (k, v) ∷ []) (write_found k (u +ℤ v) m)
  unfolding values_of
  write-Holds front m k v u h found =
      let (rest, before, after) = find-some k u (u +ℤ v) m found in
      let here : u ∷ values_of k rest ≡ group_sum (values_of k front) =
        group_sum-perm _ _ (Perm.symm (rw (h k, eqb_ℤ_refl) at (values_of-perm k before))) in
      let (total, alone) = group_sum-cons (values_of k front) (values_of k rest) u here in
      (
        total,
        λ j. elim (Bool-cases (eqb_ℤ k j)) [
          | inl same ↦
              let e : k ≡ j = (eqb_ℤ_iff k j).0 same in
              let (total_j, alone_j) : (u ≡ sum (values_of j front)) × (values_of j rest ≡ []) =
                (rw e at total, rw e at alone) in
              group_sum-perm _ _ (
                rw (values_of-append j front ((k, v) ∷ []), same, group_sum-snoc, ← total_j)
                  (rw (same, alone_j) at (values_of-perm j after)))
          | inr other ↦
              let old = rw (other, h j) at (values_of-perm j before) in
              rw (values_of-append j front ((k, v) ∷ []), other, append-nil)
                (group_sum-perm _ _
                  (Perm.trans (rw other at (values_of-perm j after)) (Perm.symm old)))
        ],
      )

  -- One row, as the inner loop takes it.
  unfoldable pub add_pair : Data → Data → Map → Result Map
  add_pair k v m = elim (find k m) [
    | none ↦ ok (insert k v m)
    | some u ↦ (do u' ← add_data u v; ok (write_found k u' m))
  ]

  pub add_pair-Holds :
      (front : List (Data × Data)) (m : Map) (k v : Data)
      → Holds front m
      → in_int64 v ≡ true
      → (m' : Map) × Holds (front ++ (k, v) ∷ []) m'
        × (add_pair k v m ≡ (
            if in_int64 (sum (values_of k (front ++ (k, v) ∷ [])))
            then ok m'
            else fault signed_overflow))
  unfolding add_pair values_of add_data sum
  add_pair-Holds front m k v h small = elim (Option-cases (find k m)) [
    | inl absent ↦
        let fresh : values_of k front ≡ [] =
          group_sum-nil _ (sym (values_of-other k _ (find-none k m absent)) ∙ h k) in
        (
          insert k v m,
          insert-Holds front m k v h fresh,
          rw (
            absent,
            add_pair,
            values_of-append k front ((k, v) ∷ []),
            fresh,
            eqb_ℤ_refl,
            +ℤ_zero,
            small,
          ),
        )
    | inr (u, found) ↦
        let (total, next) = write-Holds front m k v u h found in
        (
          write_found k (u +ℤ v) m,
          next,
          elim (Bool-cases (in_int64 (u +ℤ v))) [
            | inl fits ↦ rw (
              found,
              add_pair,
              values_of-append k front ((k, v) ∷ []),
              eqb_ℤ_refl,
              sum-snoc,
              ← total,
              fits,
            )
            | inr large ↦ rw (
              found,
              add_pair,
              values_of-append k front ((k, v) ∷ []),
              eqb_ℤ_refl,
              sum-snoc,
              ← total,
              large,
            )
          ],
        )
  ]
