-- ===== src/Execution/SeqScan.antt =====
-- src/execution/seq_scan_operator.cpp: the live rows of a table, in the order of their ids.
pub mod Loop
pub mod Fuel
pub mod Rows
pub mod Ahead
use Prim.Native.String.{◌++◌}
use p2_hash_join_optimizatio.Common.{
  ℕ, zero, suc, ◌+◌, ◌-◌, String, true, false, List, [], ◌∷◌, Result, ok, err, out_of_fuel, ◌>>=◌,
  throw, schema_mismatch, length, ltb, leb, ◌==◌, if◌then◌else◌,
}
use p2_hash_join_optimizatio.Types.{Schema, at, get_key_attrs, keys_from_tuple}
use p2_hash_join_optimizatio.Storage.Table.{Table, Row}
use p2_hash_join_optimizatio.Storage.Catalog.{fetch_table}
use p2_hash_join_optimizatio.Execution.Operator.{
  ExecutionContext, Chunk, OperatorState, have_more_output, exhausted, Operator, check_schema,
  write, resize,
}

pub record SeqScanOperator : Type 0 where
  pub output_schema : Schema
  pub table_name : String
  pub fetch_columns : Schema
  pub next_row_id : ℕ

-- `CombineSchema`
unfoldable pub combine_schema : String → Schema → Schema
combine_schema table_name [] = []
combine_schema table_name (column ∷ rest) =
    (table_name ++ ("." ++ column)) ∷ combine_schema table_name rest

-- The constructor that the others delegate to.
unfoldable pub new_seq_scan : String → Schema → Schema → SeqScanOperator
new_seq_scan table_name fetch_columns output_schema = record {
  output_schema = output_schema;
  table_name = table_name;
  fetch_columns = fetch_columns;
  next_row_id = 0;
}

unfoldable pub new_seq_scan_as : String → Schema → String → SeqScanOperator
unfolding new_seq_scan combine_schema
new_seq_scan_as table_name fetch_columns table_output_name =
    new_seq_scan table_name fetch_columns (combine_schema table_output_name fetch_columns)

unfoldable pub new_seq_scan_columns : String → Schema → SeqScanOperator
unfolding new_seq_scan_as
new_seq_scan_columns table_name fetch_columns = new_seq_scan_as table_name fetch_columns table_name

unfoldable pub fetch_table_schema : ExecutionContext → String → Result Schema
unfolding fetch_table
fetch_table_schema ctx table_name = do table ← fetch_table ctx.catalog table_name; ok table.schema

unfoldable pub new_seq_scan_table : ExecutionContext → String → Result SeqScanOperator
unfolding fetch_table_schema new_seq_scan_columns
new_seq_scan_table ctx table_name = do
  schema ← fetch_table_schema ctx table_name
  ok (new_seq_scan_columns table_name schema)

-- The loop of `Next`, from row `row_id` on, with `output_size` rows written.
unfoldable pub next_loop :
    ℕ → ℕ → List Row → List ℕ → ℕ → Chunk → ℕ → Result (OperatorState × Chunk × ℕ)
next_loop zero chunk_size rows key_attrs row_id out output_size = err out_of_fuel
next_loop (suc fuel) chunk_size rows key_attrs row_id out output_size =
    let step = do
      row ← at rows row_id
      elim row.tuple_meta.is_deleted [
        | true ↦ next_loop fuel chunk_size rows key_attrs (row_id + 1) out output_size
        | false ↦ do
          tuple ← keys_from_tuple row.tuple key_attrs
          next_loop fuel chunk_size rows key_attrs (row_id + 1)
              (write out output_size (tuple, row_id + 1 - 1)) (output_size + 1)
      ]
    in if ltb output_size chunk_size
      then if leb (length rows) row_id then ok (exhausted, resize out output_size, row_id) else step
      else ok (have_more_output, resize out output_size, row_id)

unfoldable pub next :
    ℕ
    → ExecutionContext
    → SeqScanOperator
    → Chunk
    → Result (OperatorState × Chunk × SeqScanOperator)
unfolding next_loop
next fuel ctx s output_chunk = do
  table ← fetch_table ctx.catalog s.table_name
  key_attrs ← get_key_attrs table.schema s.fetch_columns
  r ← next_loop fuel ctx.config.chunk_suggest_size table.rows key_attrs s.next_row_id output_chunk 0
  ok (r.0, r.1, record s { next_row_id = r.2 })

unfoldable pub self_init : SeqScanOperator → Result SeqScanOperator
self_init s = ok (record s { next_row_id = 0 })

unfoldable pub self_check : ExecutionContext → SeqScanOperator → Result SeqScanOperator
unfolding fetch_table_schema
self_check ctx s = do
  schema ← fetch_table_schema ctx s.table_name
  _ ← get_key_attrs schema s.fetch_columns
  if length s.fetch_columns == length s.output_schema then ok s else throw schema_mismatch

unfoldable pub check : ExecutionContext → SeqScanOperator → Result SeqScanOperator
check ctx s = do _ ← check_schema s.output_schema; self_check ctx s

-- The operator over the object that the constructor leaves.
unfoldable pub seq_scan_operator : SeqScanOperator → Operator SeqScanOperator
seq_scan_operator built = record {
  next = next;
  init = self_init;
  check = check;
  output_schema = built.output_schema;
  bind_table_name = built.table_name;
}
