-- ===== src/Execution/HashJoin/Spec.antt =====
-- What the join is to return: for each probe row, in order, its pairs with the build rows whose
-- column is equal.
use p2_hash_join_optimizatio.Common.{ℕ, List, [], ◌∷◌, ◌++◌, ◌≡◌, eqb_ℤ, if◌then◌else◌, length, All}
use p2_hash_join_optimizatio.Types.{Data, Tuple, invalid_id}
use p2_hash_join_optimizatio.Types.Lookup.{column}
use p2_hash_join_optimizatio.Execution.Operator.{Entry}

-- The tuples of the rows whose column `attr` is `key`.
unfoldable pub matching : ℕ → Data → List Entry → List Tuple
matching attr key [] = []
matching attr key (row ∷ rows) =
    let rest = matching attr key rows in
    if eqb_ℤ (column row.0 attr) key then row.0 ∷ rest else rest

-- The rows that a probe tuple makes with the tuples, without row ids.
unfoldable pub pair_with : Tuple → List Tuple → List Entry
pair_with p [] = []
pair_with p (t ∷ ts) = (p ++ t, invalid_id) ∷ pair_with p ts

unfoldable pub nested_loop_join : ℕ → ℕ → List Entry → List Entry → List Entry
nested_loop_join probe_attr build_attr [] build_rows = []
nested_loop_join probe_attr build_attr (p ∷ probe_rows) build_rows =
    pair_with p.0 (matching build_attr (column p.0 probe_attr) build_rows)
    ++ nested_loop_join probe_attr build_attr probe_rows build_rows

-- Every tuple has `width` values.
abbrev pub Wide : ℕ → List Entry → Type 0
Wide width rows = All (λ row. length row.0 ≡ width) rows
