-- ===== src/Execution/Plan/Perms.antt =====
-- A filter and a join of the same rows in another order give the same rows in another order.
use mathlib.Core.List.Perm
use p2_hash_join_optimizatio.Common.{
  ℕ, ◌≡◌, refl, ap, inl, inr, List, [], ◌∷◌, ◌++◌, Perm, eqb_ℤ, if◌then◌else◌, Bool-cases, collect,
  perm-collect, perm-collect_parts,
}
use p2_hash_join_optimizatio.Types.{Data, Tuple}
use p2_hash_join_optimizatio.Types.Lookup.{column}
use p2_hash_join_optimizatio.Execution.Operator.{Entry}
use p2_hash_join_optimizatio.Execution.Expression.Filters.{Filter}
use p2_hash_join_optimizatio.Execution.Filter.Rows.{keep, accepts}
use p2_hash_join_optimizatio.Execution.HashJoin.Spec.{matching, pair_with, nested_loop_join}
use p2_hash_join_optimizatio.Execution.HashJoin.Rows.{pair_with-perm}

abbrev kept_row : List Filter → Entry → List Entry
kept_row fs row = if accepts fs row.0 then row ∷ [] else []

keep-collect : (fs : List Filter) (rows : List Entry) → keep fs rows ≡ collect (kept_row fs) rows
unfolding keep
keep-collect fs [] = refl
keep-collect fs (row ∷ rows) = elim (Bool-cases (accepts fs row.0)) [
  | inl pass ↦ rw (pass, keep-collect fs rows)
  | inr stop ↦ rw (stop, keep-collect fs rows)
]

pub keep-perm :
    (fs : List Filter) {xs ys : List Entry} → Perm xs ys → Perm (keep fs xs) (keep fs ys)
keep-perm fs {xs} {ys} p =
    rw (keep-collect fs xs, keep-collect fs ys) (perm-collect (kept_row fs) p)

abbrev matching_row : ℕ → Data → Entry → List Tuple
matching_row attr key row = if eqb_ℤ (column row.0 attr) key then row.0 ∷ [] else []

matching-collect :
    (attr : ℕ) (key : Data) (rows : List Entry)
    → matching attr key rows ≡ collect (matching_row attr key) rows
unfolding matching
matching-collect attr key [] = refl
matching-collect attr key (row ∷ rows) = elim (Bool-cases (eqb_ℤ (column row.0 attr) key)) [
  | inl same ↦ rw (same, matching-collect attr key rows)
  | inr other ↦ rw (other, matching-collect attr key rows)
]

matching-perm :
    (attr : ℕ) (key : Data) {xs ys : List Entry}
    → Perm xs ys
    → Perm (matching attr key xs) (matching attr key ys)
matching-perm attr key {xs} {ys} p =
    rw (matching-collect attr key xs, matching-collect attr key ys)
      (perm-collect (matching_row attr key) p)

module _ (probe_attr build_attr : ℕ) where
  abbrev joined_row : List Entry → Entry → List Entry
  joined_row build_rows p = pair_with p.0 (matching build_attr (column p.0 probe_attr) build_rows)

  nested_loop_join-collect :
      (ps bs : List Entry)
      → nested_loop_join probe_attr build_attr ps bs ≡ collect (joined_row bs) ps
  unfolding nested_loop_join
  nested_loop_join-collect [] bs = refl
  nested_loop_join-collect (p ∷ ps) bs =
      ap (λ r. joined_row bs p ++ r) (nested_loop_join-collect ps bs)

  pub nested_loop_join-perm :
      {ps ps' bs bs' : List Entry}
      → Perm ps ps'
      → Perm bs bs'
      → Perm
          (nested_loop_join probe_attr build_attr ps bs)
          (nested_loop_join probe_attr build_attr ps' bs')
  nested_loop_join-perm {ps} {ps'} {bs} {bs'} p b =
      rw (nested_loop_join-collect ps bs, nested_loop_join-collect ps' bs')
        (Perm.trans (perm-collect (joined_row bs) p) (
          perm-collect_parts (joined_row bs) (joined_row bs')
            (λ x. pair_with-perm x.0 (matching-perm build_attr (column x.0 probe_attr) b)) ps'))
