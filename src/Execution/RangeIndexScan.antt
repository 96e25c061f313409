-- ===== src/Execution/RangeIndexScan.antt =====
-- src/execution/range_index_scan_operator.cpp: the rows that an index gives for a range of keys.
pub mod Fetched
pub mod Counts
pub mod Same
pub mod Loop
pub mod Rows
use p2_hash_join_optimizatio.Common.{
  ℕ, ◌+◌, String, Bool, true, false, List, [], ◌∷◌, ◌++◌, Result, ok, ◌>>=◌, throw, schema_mismatch,
  table_index_mismatch, length, drop, ltb, ◌==◌, if◌then◌else◌, str_eq,
}
use p2_hash_join_optimizatio.Types.{Schema, RangeInfo, at, get_key_attrs, keys_from_tuple}
use p2_hash_join_optimizatio.Storage.Table.{Row}
use p2_hash_join_optimizatio.Storage.Catalog.{fetch_table, fetch_index}
use p2_hash_join_optimizatio.Storage.StlmapIndex.{scan_range}
use p2_hash_join_optimizatio.Execution.Operator.{
  ExecutionContext, Chunk, OperatorState, have_more_output, exhausted, Operator, check_schema,
}

-- `next_ite` is a position in `row_ids`.
pub record RangeIndexScanOperator : Type 0 where
  pub output_schema : Schema
  pub table_name : String
  pub fetch_columns : Schema
  pub index_name : String
  pub range : RangeInfo
  pub row_ids : List ℕ
  pub next_ite : ℕ
  pub results_scanned : Bool

-- The loop of `Next`, with the row ids that are left at the iterator.
unfoldable pub scan_loop :
    ℕ → List Row → List ℕ → List ℕ → ℕ → Chunk → Result (OperatorState × Chunk × ℕ)
scan_loop chunk_size rows key_attrs [] next_ite out =
    if ltb (length out) chunk_size
    then ok (exhausted, out, next_ite)
    else ok (have_more_output, out, next_ite)
scan_loop chunk_size rows key_attrs (row_id ∷ row_ids) next_ite out =
    let step = do
      row ← at rows row_id
      elim row.tuple_meta.is_deleted [
        | true ↦ scan_loop chunk_size rows key_attrs row_ids (next_ite + 1) out
        | false ↦ do
          tuple ← keys_from_tuple row.tuple key_attrs
          scan_loop chunk_size rows key_attrs row_ids (next_ite + 1) (out ++ (tuple, row_id) ∷ [])
      ]
    in if ltb (length out) chunk_size then step else ok (have_more_output, out, next_ite)

-- The scan of the index, at the first call.
unfoldable pub scan_index :
    ExecutionContext → RangeIndexScanOperator → Result RangeIndexScanOperator
scan_index ctx s = elim s.results_scanned [
  | true ↦ ok s
  | false ↦ do
    index ← fetch_index ctx.catalog s.index_name
    row_ids ← scan_range s.range index
    ok (record s { results_scanned = true; row_ids = row_ids; next_ite = 0 })
]

unfoldable pub next :
    ℕ
    → ExecutionContext
    → RangeIndexScanOperator
    → Chunk
    → Result (OperatorState × Chunk × RangeIndexScanOperator)
unfolding scan_loop scan_index
next fuel ctx s output_chunk = do
  table ← fetch_table ctx.catalog s.table_name
  key_attrs ← get_key_attrs table.schema s.fetch_columns
  s' ← scan_index ctx s
  r ←
      scan_loop ctx.config.chunk_suggest_size table.rows key_attrs (drop s'.next_ite s'.row_ids)
        s'.next_ite []
  ok (r.0, r.1, record s' { next_ite = r.2 })

unfoldable pub self_init : RangeIndexScanOperator → Result RangeIndexScanOperator
self_init s = ok (record s { row_ids = []; results_scanned = false; next_ite = 0 })

unfoldable pub self_check :
    ExecutionContext → RangeIndexScanOperator → Result RangeIndexScanOperator
self_check ctx s = do
  table ← fetch_table ctx.catalog s.table_name
  index ← fetch_index ctx.catalog s.index_name
  _ ← if str_eq index.table_name s.table_name then ok (tt {0}) else throw table_index_mismatch
  _ ← get_key_attrs table.schema s.fetch_columns
  if length s.fetch_columns == length s.output_schema then ok s else throw schema_mismatch

unfoldable pub check : ExecutionContext → RangeIndexScanOperator → Result RangeIndexScanOperator
unfolding self_check
check ctx s = do _ ← check_schema s.output_schema; self_check ctx s

unfoldable pub range_index_scan_operator : RangeIndexScanOperator → Operator RangeIndexScanOperator
range_index_scan_operator built = record {
  next = next;
  init = self_init;
  check = check;
  output_schema = built.output_schema;
  bind_table_name = built.table_name;
}
