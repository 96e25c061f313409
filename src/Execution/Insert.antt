-- ===== src/Execution/Insert.antt =====
-- src/execution/insert_operator.cpp: the rows that the child returns become rows of a table.
pub mod Values
pub mod RoundTrip
pub mod OfScan
use p2_hash_join_optimizatio.Common.{
  ℕ, zero, suc, String, List, [], ◌∷◌, Option, none, some, ok, err, out_of_fuel, throw,
  schema_mismatch, length, ◌==◌, if◌then◌else◌, str_eq,
}
use p2_hash_join_optimizatio.Types.{
  Tuple, Schema, invalid_name, key_from_tuple, keys_from_tuple, get_key_attr, get_key_attrs,
}
use p2_hash_join_optimizatio.Execution.Operator.{
  Chunk, OperatorState, have_more_output, exhausted, Operator, check_schema,
}
use p2_hash_join_optimizatio.Execution.Effects.{
  Effect, ◌>>=◌, lift, context, table_of, index_of, put_rows, put_index,
}
use p2_hash_join_optimizatio.Execution.RowOps.{insert_row_wo_index, insert_row_with_index}

-- The name of the index of the table and the attribute that it is over, or none.
unfoldable pub index_key : String → Effect (Option (String × ℕ))
index_key table_name = do
  table ← table_of table_name
  if str_eq table.index_name invalid_name then lift (ok none) else (do
    index ← index_of table.index_name
    index_key_attr ← lift (get_key_attr table.schema index.key_name)
    lift (ok (some (table.index_name, index_key_attr))))

-- `InsertRowWithIndex` under the key of the tuple, on the table and its index.
unfoldable pub insert_with_index : String → String → ℕ → Tuple → Effect (Unit {0})
insert_with_index table_name index_name index_key_attr tuple = do
  table ← table_of table_name
  index ← index_of index_name
  key ← lift (key_from_tuple tuple index_key_attr)
  r ← lift (insert_row_with_index tuple key table.rows index)
  _ ← put_rows table_name r.0
  put_index index_name r.1

-- The inner loop of `Next`.
unfoldable pub insert_rows : String → List ℕ → Option (String × ℕ) → Chunk → Effect (Unit {0})
unfolding insert_with_index
insert_rows table_name key_attrs index [] = lift (ok tt)
insert_rows table_name key_attrs none (insert_data ∷ rest) = do
  insert_tuple ← lift (keys_from_tuple insert_data.0 key_attrs)
  table ← table_of table_name
  _ ← put_rows table_name (insert_row_wo_index insert_tuple table.rows)
  insert_rows table_name key_attrs none rest
insert_rows table_name key_attrs (some index) (insert_data ∷ rest) = do
  insert_tuple ← lift (keys_from_tuple insert_data.0 key_attrs)
  _ ← insert_with_index table_name index.0 index.1 insert_tuple
  insert_rows table_name key_attrs (some index) rest

pub record InsertOperator : Type 0 where
  pub table_name : String
  pub input_schema : Schema

-- The constructor without an input schema takes that of the child.
unfoldable pub new_insert : {C : Type 0} → Operator C → String → InsertOperator
new_insert child_operator table_name = record {
  table_name = table_name;
  input_schema = child_operator.output_schema;
}

unfoldable pub new_insert_columns : String → Schema → InsertOperator
new_insert_columns table_name input_schema = record {
  table_name = table_name;
  input_schema = input_schema;
}

-- The members that the constructors leave.
module _ {C : Type 0} (child_operator : Operator C) (table_name : String)
    (input_schema : Schema) where
  -- The outer loop of `Next`: the child reads the table as the calls before have left it.
  unfoldable pub insert_loop : ℕ → List ℕ → Option (String × ℕ) → C → Chunk → Effect C
  insert_loop zero key_attrs index s insert_chunk = lift (err out_of_fuel)
  insert_loop (suc fuel) key_attrs index s insert_chunk = do
    ctx ← context
    r ← lift (child_operator.next fuel ctx s insert_chunk)
    _ ← insert_rows table_name key_attrs index r.1
    elim r.0 [
      | exhausted ↦ lift (ok r.2)
      | have_more_output ↦ insert_loop fuel key_attrs index r.2 r.1
    ]

  unfoldable pub next : ℕ → C → Chunk → Effect (OperatorState × Chunk × C)
  unfolding index_key insert_loop
  next fuel s output_chunk = do
    _ ← table_of table_name
    key_attrs ← lift (get_key_attrs child_operator.output_schema input_schema)
    index ← index_key table_name
    s' ← insert_loop fuel key_attrs index s []
    lift (ok (exhausted, [], s'))

  -- `Init`: `SelfInit` does nothing.
  unfoldable pub init : C → Effect C
  init s = lift (child_operator.init s)

  unfoldable pub check : C → Effect C
  check s = do
    ctx ← context
    s' ← lift (child_operator.check ctx s)
    _ ← lift (check_schema [])
    table ← table_of table_name
    _ ←
        lift (
          if length input_schema == length table.schema then ok (tt {0}) else throw schema_mismatch)
    _ ← lift (get_key_attrs child_operator.output_schema input_schema)
    lift (ok s')
