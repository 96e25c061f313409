-- ===== src/Execution/Filter.antt =====
-- src/execution/filter_operator.cpp: the rows of the child that pass every filter.
pub mod Rows
pub mod Chunks
use p2_hash_join_optimizatio.Common.{
  ℕ, String, Bool, true, false, List, [], ◌∷◌, ◌++◌, Result, ok, ◌>>=◌,
}
use p2_hash_join_optimizatio.Types.{Tuple, Schema}
use p2_hash_join_optimizatio.Execution.Operator.{
  ExecutionContext, Chunk, OperatorState, Operator, check_schema,
}
use p2_hash_join_optimizatio.Execution.Expression.Filters
use p2_hash_join_optimizatio.Execution.Expression.Filters.{Filter}

pub record FilterOperator (C : Type 0) : Type 0 where
  pub child : C
  pub filters : List Filter

-- `TransToVec`
unfoldable pub one_filter : {C : Type 0} → C → Filter → FilterOperator C
one_filter child filter = record { child = child; filters = filter ∷ [] }

-- The inner loop of `Next`: the first filter that fails ends it.
unfoldable pub pass_tag : List Filter → Tuple → Result Bool
pass_tag [] tuple = ok true
pass_tag (filter ∷ filters) tuple = do
  pass ← Filters.check filter tuple
  elim pass [ true ↦ pass_tag filters tuple | false ↦ ok false ]

-- The outer loop of `Next`.
unfoldable pub filter_rows : List Filter → Chunk → Result Chunk
unfolding pass_tag
filter_rows filters [] = ok []
filter_rows filters (row ∷ rows) = do
  pass ← pass_tag filters row.0
  rest ← filter_rows filters rows
  ok (elim pass [ true ↦ row ∷ rest | false ↦ rest ])

unfoldable pub init_filters : Schema → List Filter → Result (List Filter)
init_filters schema [] = ok []
init_filters schema (filter ∷ filters) = do
  f ← Filters.init filter schema
  fs ← init_filters schema filters
  ok (f ∷ fs)

module _ {C : Type 0} (child_operator : Operator C) where
  unfoldable pub next :
      ℕ
      → ExecutionContext
      → FilterOperator C
      → Chunk
      → Result (OperatorState × Chunk × FilterOperator C)
  next fuel ctx o output_chunk = do
    r ← child_operator.next fuel ctx o.child []
    out ← filter_rows o.filters r.1
    ok (r.0, out, record o { child = r.2 })

  unfoldable pub self_init : FilterOperator C → Result (FilterOperator C)
  unfolding init_filters
  self_init o = do
    fs ← init_filters child_operator.output_schema o.filters
    ok (record o { filters = fs })

  unfoldable pub init : FilterOperator C → Result (FilterOperator C)
  unfolding self_init
  init o = do c ← child_operator.init o.child; self_init (record o { child = c })

  unfoldable pub check : ExecutionContext → FilterOperator C → Result (FilterOperator C)
  unfolding self_init
  check ctx o = do
    c ← child_operator.check ctx o.child
    _ ← check_schema child_operator.output_schema
    self_init (record o { child = c })

  unfoldable pub filter_operator : Operator (FilterOperator C)
  filter_operator = record {
    next = next;
    init = init;
    check = check;
    output_schema = child_operator.output_schema;
    bind_table_name = child_operator.bind_table_name;
  }
