-- ===== src/Execution/Update.antt =====
-- src/execution/update_operator.cpp: the rows with the ids that the child returns take its values. A
-- row that changes its key is deleted and inserted, after all other rows.
pub mod Row
pub mod InPlace
pub mod Values
pub mod OfScan
use p2_hash_join_optimizatio.Common.{
  ℕ, zero, suc, String, Bool, true, false, List, [], ◌∷◌, ◌++◌, Option, none, some, Result, ok, err,
  out_of_fuel, throw, fault, null_dereference, schema_mismatch, length, ◌==◌, if◌then◌else◌,
}
use p2_hash_join_optimizatio.Types.{Tuple, Schema, get_key_attrs}
use p2_hash_join_optimizatio.Execution.Operator.{
  Chunk, OperatorState, have_more_output, exhausted, Operator, check_schema,
}
use p2_hash_join_optimizatio.Execution.Effects.{Effect, ◌>>=◌, lift, context, table_of, put_rows}
use p2_hash_join_optimizatio.Execution.RowOps.{delete_row}
use p2_hash_join_optimizatio.Execution.Update.Row.{update_row}
use p2_hash_join_optimizatio.Execution.Insert.{index_key, insert_with_index}

-- The inner loop of `Next`: it returns the rows that change their keys.
unfoldable pub update_rows : String → Option (List ℕ) → Option (String × ℕ) → Chunk → Effect Chunk
update_rows table_name key_attrs index [] = lift (ok [])
update_rows table_name key_attrs index (update_data ∷ rest) = do
  table ← table_of table_name
  r ← lift (update_row key_attrs index update_data.0 update_data.1 table.rows)
  _ ← put_rows table_name r.2
  key_change_chunk ← update_rows table_name key_attrs index rest
  lift (ok (if r.1 then (r.0, update_data.1) ∷ key_change_chunk else key_change_chunk))

-- The two loops after the child is exhausted.
unfoldable pub delete_changed : String → Chunk → Effect (Unit {0})
delete_changed table_name [] = lift (ok tt)
delete_changed table_name (changed ∷ rest) = do
  table ← table_of table_name
  rows ← lift (delete_row changed.1 table.rows)
  _ ← put_rows table_name rows
  delete_changed table_name rest

-- Without an index no row changes its key.
unfoldable pub insert_changed : String → Option (String × ℕ) → Chunk → Effect (Unit {0})
insert_changed table_name index [] = lift (ok tt)
insert_changed table_name none (changed ∷ rest) = lift (fault null_dereference)
insert_changed table_name (some index) (changed ∷ rest) = do
  _ ← insert_with_index table_name index.0 index.1 changed.0
  insert_changed table_name (some index) rest

pub record UpdateOperator : Type 0 where
  pub table_name : String
  pub input_schema : Option Schema

-- The constructors: the rows are updated in the table that the child is bound to.
unfoldable pub new_update : {C : Type 0} → Operator C → UpdateOperator
new_update child_operator = record {
  table_name = child_operator.bind_table_name;
  input_schema = none;
}

unfoldable pub new_update_columns : {C : Type 0} → Operator C → Schema → UpdateOperator
new_update_columns child_operator input_schema = record {
  table_name = child_operator.bind_table_name;
  input_schema = some input_schema;
}

-- The members that the constructors leave.
module _ {C : Type 0} (child_operator : Operator C) (table_name : String)
    (input_schema : Option Schema) where
  -- The outer loop of `Next`: the child reads the table as the calls before have left it.
  unfoldable pub update_loop :
      ℕ → Option (List ℕ) → Option (String × ℕ) → C → Chunk → Chunk → Effect (C × Chunk)
  update_loop zero key_attrs index s update_chunk key_change_chunk = lift (err out_of_fuel)
  update_loop (suc fuel) key_attrs index s update_chunk key_change_chunk = do
    ctx ← context
    r ← lift (child_operator.next fuel ctx s update_chunk)
    changed ← update_rows table_name key_attrs index r.1
    elim r.0 [
      | exhausted ↦ lift (ok (r.2, key_change_chunk ++ changed))
      | have_more_output ↦ update_loop fuel key_attrs index r.2 r.1 (key_change_chunk ++ changed)
    ]

  -- The positions of the columns of the input schema, if there is one.
  unfoldable pub input_attrs : Result (Option (List ℕ))
  input_attrs = elim input_schema [
    | none ↦ ok none
    | some schema ↦ some_ok (get_key_attrs child_operator.output_schema schema)
  ]
    where
      some_ok : Result (List ℕ) → Result (Option (List ℕ))
      some_ok (ok attrs) = ok (some attrs)
      some_ok (err e) = err e

  unfoldable pub next : ℕ → C → Effect (OperatorState × C)
  unfolding update_loop input_attrs
  next fuel s = do
    _ ← table_of table_name
    key_attrs ← lift input_attrs
    index ← index_key table_name
    r ← update_loop fuel key_attrs index s [] []
    _ ← delete_changed table_name r.1
    _ ← insert_changed table_name index r.1
    lift (ok (exhausted, r.0))

  -- `Init`: `SelfInit` does nothing.
  unfoldable pub init : C → Effect C
  init s = lift (child_operator.init s)

  unfoldable pub check : C → Effect C
  unfolding input_attrs
  check s = do
    ctx ← context
    s' ← lift (child_operator.check ctx s)
    _ ← lift (check_schema [])
    table ← table_of table_name
    let columns : Schema = elim input_schema [
      | none ↦ child_operator.output_schema
      | some schema ↦ schema
    ]
    _ ← lift (if length columns == length table.schema then ok (tt {0}) else throw schema_mismatch)
    _ ← lift input_attrs
    lift (ok s')
