-- ===== src/Execution/Delete.antt =====
-- src/execution/delete_operator.cpp: the rows that the child returns are deleted by their ids.
pub mod Marks
pub mod Values
pub mod OfScan
use p2_hash_join_optimizatio.Common.{
  ℕ, zero, suc, String, [], ◌∷◌, Result, ok, err, out_of_fuel, fault, assertion_failed, ◌==◌,
  if◌then◌else◌,
}
use p2_hash_join_optimizatio.Types.{invalid_id}
use p2_hash_join_optimizatio.Execution.Operator.{
  Chunk, OperatorState, have_more_output, exhausted, Operator, check_schema,
}
use p2_hash_join_optimizatio.Execution.Effects.{Effect, ◌>>=◌, lift, context, table_of, put_rows}
use p2_hash_join_optimizatio.Execution.RowOps.{delete_row}

-- `B_ASSERT`, as in a build without `NDEBUG`: with it the test is not there.
abbrev pub assert_valid : ℕ → Result (Unit {0})
assert_valid row_id = if row_id == invalid_id then fault assertion_failed else ok tt

-- The inner loop of `Next`.
unfoldable pub delete_rows : String → Chunk → Effect (Unit {0})
delete_rows table_name [] = lift (ok tt)
delete_rows table_name (delete_data ∷ rest) = do
  _ ← lift (assert_valid delete_data.1)
  table ← table_of table_name
  rows ← lift (delete_row delete_data.1 table.rows)
  _ ← put_rows table_name rows
  delete_rows table_name rest

-- The constructor: the rows are deleted from the table that the child is bound to.
unfoldable pub new_delete : {C : Type 0} → Operator C → String
new_delete child_operator = child_operator.bind_table_name

-- `table_name` is what the constructor leaves.
module _ {C : Type 0} (child_operator : Operator C) (table_name : String) where
  -- The outer loop of `Next`: the child reads the table as the calls before have left it.
  unfoldable pub delete_loop : ℕ → C → Chunk → Effect C
  delete_loop zero s delete_chunk = lift (err out_of_fuel)
  delete_loop (suc fuel) s delete_chunk = do
    ctx ← context
    r ← lift (child_operator.next fuel ctx s delete_chunk)
    _ ← delete_rows table_name r.1
    elim r.0 [ exhausted ↦ lift (ok r.2) | have_more_output ↦ delete_loop fuel r.2 r.1 ]

  unfoldable pub next : ℕ → C → Chunk → Effect (OperatorState × Chunk × C)
  unfolding delete_loop
  next fuel s output_chunk = do
    _ ← table_of table_name
    s' ← delete_loop fuel s []
    lift (ok (exhausted, [], s'))

  -- `Init`: `SelfInit` does nothing.
  unfoldable pub init : C → Effect C
  init s = lift (child_operator.init s)

  unfoldable pub check : C → Effect C
  check s = do
    ctx ← context
    s' ← lift (child_operator.check ctx s)
    _ ← lift (check_schema [])
    _ ← table_of table_name
    lift (ok s')
