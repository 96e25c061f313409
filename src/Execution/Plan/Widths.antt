-- ===== src/Execution/Plan/Widths.antt =====
-- The answer of a tree has rows as wide as its schema.
use native.Mathlib.Bridge.{le_prop}
use p2_hash_join_optimizatio.Common.{
  ℕ, ◌<◌, inl, inr, List, [], ◌∷◌, length, All, Bool-cases, length-append,
}
use p2_hash_join_optimizatio.Types.{Tuple}
use p2_hash_join_optimizatio.Storage.Catalog.{Catalog}
use p2_hash_join_optimizatio.Execution.Operator.{Entry}
use p2_hash_join_optimizatio.Execution.SeqScan.Loop.{live_rows-Wide}
use p2_hash_join_optimizatio.Execution.Expression.Filters.{
  Filter, Condition, range_filter, equal_filter, ud_filter,
}
use p2_hash_join_optimizatio.Execution.Filter.Rows.{keep, accepts, Applies, HasKey}
use p2_hash_join_optimizatio.Execution.HashJoin.Spec.{Wide}
use p2_hash_join_optimizatio.Execution.HashJoin.Rows.{nested_loop_join-Wide}
use p2_hash_join_optimizatio.Execution.Plan.{Plan, output_schema}
use p2_hash_join_optimizatio.Execution.Plan.Answers.{
  Answers, of_values, of_scan, of_filter, of_join,
}

pub All-prop {ℓ κ} :
    {A : Type ℓ} (P : A → Type κ) → ((x : A) → IsProp (P x)) → (xs : List A) → IsProp (All P xs)
All-prop P prop [] = hlevel
All-prop P prop (x ∷ xs) =
    let here : IsProp (P x) = prop x in
    let there : IsProp (All P xs) = All-prop P prop xs in hlevel (here, there)

pub Applies-prop : (t : Tuple) (f : Filter) → IsProp (Applies f t)
Applies-prop t f =
    let columns : IsProp (All (λ p. p < length t) f.key_attrs) =
      All-prop (λ p. p < length t) (λ p. le_prop) f.key_attrs in
    let key : IsProp (HasKey f.condition (length f.key_attrs)) =
      HasKey-prop f.condition (length f.key_attrs) in
    hlevel (columns, key)
  where
    HasKey-prop : (c : Condition) (n : ℕ) → IsProp (HasKey c n)
    HasKey-prop (range_filter range) n = le_prop
    HasKey-prop (equal_filter target_key) n = le_prop
    HasKey-prop (ud_filter udf) n = hlevel

pub keep-All {κ} :
    (P : Entry → Type κ) (fs : List Filter) (rows : List Entry) → All P rows → All P (keep fs rows)
unfolding keep
keep-All P fs [] h = tt
keep-All P fs (row ∷ rows) h = elim (Bool-cases (accepts fs row.0)) [
  | inl pass ↦ rw pass (h.0, keep-All P fs rows h.1)
  | inr stop ↦ rw stop (keep-All P fs rows h.1)
]

-- The rows of an answer are as wide as the output schema.
pub Answers-Wide :
    {catalog : Catalog} {plan : Plan} {rows : List Entry}
    → Answers catalog plan rows
    → Wide (length (output_schema plan)) rows
Answers-Wide (of_values v wide) = wide
Answers-Wide (of_scan s table attrs found keys count fits) =
    rw (← count) (live_rows-Wide attrs table.rows 0)
Answers-Wide (of_filter {rows} filters ready answers started applies) =
    keep-All _ ready rows (Answers-Wide answers)
Answers-Wide
      (of_join {probe} {build} {probe_rows = ps} {build_rows = bs} probe_column build_column
        probe_attr build_attr pa ba pk bk) =
    rw (length-append (output_schema probe) (output_schema build))
      (nested_loop_join-Wide _ _ probe_attr build_attr ps bs (Answers-Wide pa) (Answers-Wide ba))
