-- ===== src/Tests/Scans.antt =====
-- A scan of a table with a deleted row, and projections over a child of two columns.
use p2_hash_join_optimizatio.Common.{
  ◌+◌, ◌≡◌, refl, true, false, pos, [], ◌∷◌, some, ok, arith, length, All,
}
use p2_hash_join_optimizatio.Common.Assoc.{lookup}
use p2_hash_join_optimizatio.Types.{
  RangeInfo, get_key_attrs, get_key_attr, keys_from_tuple, invalid_name,
}
use p2_hash_join_optimizatio.Types.Ranges.{in_range}
use p2_hash_join_optimizatio.Storage.Table.{Table, fresh_meta}
use p2_hash_join_optimizatio.Storage.Catalog.{fetch_table}
use p2_hash_join_optimizatio.Execution.Operator.{ExecutionContext, Entry}
use p2_hash_join_optimizatio.Execution.Operator.Contract.{Produces}
use p2_hash_join_optimizatio.Execution.SeqScan.{SeqScanOperator, seq_scan_operator}
use p2_hash_join_optimizatio.Execution.SeqScan.Rows.{live_rows, seq_scan_operator-Produces}
use p2_hash_join_optimizatio.Execution.Expression.Filters.{check_range, check_range-in_range}
use p2_hash_join_optimizatio.Execution.Expression.Projections
use p2_hash_join_optimizatio.Execution.Expression.Projections.{
  Projection, new_unit_projection, calc_internal,
}
use p2_hash_join_optimizatio.Execution.Projection.{
  new_projection, new_one_projection, place, fill_units, push_names, init_projections, project_rows,
  project_tuple,
}
use p2_hash_join_optimizatio.Execution.Projection.Width.{new_projection-width}

abbrev pub items : Table
items = record {
  name = "items";
  schema = "id" ∷ "price" ∷ [];
  rows =
      record { tuple = pos 1 ∷ pos 10 ∷ []; tuple_meta = fresh_meta }
      ∷ record { tuple = pos 2 ∷ pos 20 ∷ []; tuple_meta = record { is_deleted = true } }
      ∷ record { tuple = pos 3 ∷ pos 30 ∷ []; tuple_meta = fresh_meta }
      ∷ [];
  index_name = invalid_name;
}

abbrev pub ctx : ExecutionContext
ctx = record {
  catalog = record { tables = ("items", items) ∷ []; indexes = [] };
  config = record { chunk_suggest_size = 1 };
}

abbrev pub prices : SeqScanOperator
prices = record {
  output_schema = "items.price" ∷ [];
  table_name = "items";
  fetch_columns = "price" ∷ [];
  next_row_id = 0;
}

seq_scan_operator-Produces_example :
    Produces (seq_scan_operator prices) ctx prices (live_rows (1 ∷ []) items.rows 0)
unfolding fetch_table lookup get_key_attrs get_key_attr
seq_scan_operator-Produces_example =
    seq_scan_operator-Produces ctx prices items (1 ∷ []) refl refl
      ((omega arith, tt), ((omega arith, tt), ((omega arith, tt), tt))) (omega arith)

abbrev empty_range : RangeInfo
empty_range = record { start = pos 5; end = pos 5; contain_start = false; contain_end = true }

check_range-in_range_example : check_range empty_range (pos 5) ≡ in_range empty_range (pos 5)
check_range-in_range_example = check_range-in_range empty_range (pos 5)

abbrev double_price : Projection
double_price = new_unit_projection "price" "again"

abbrev ready : Projection
unfolding new_unit_projection
ready = record double_price { key_attrs = 1 ∷ [] }

new_projection-width_example :
    All {A = Entry} (λ row. 3 ≡ 2 + length row.0) (((pos 10 ∷ []), 0) ∷ [])
unfolding new_projection push_names init_projections Projections.init project_rows project_tuple
    Projections.calc calc_internal keys_from_tuple get_key_attrs get_key_attr new_unit_projection
new_projection-width_example =
    new_projection-width ("id" ∷ "price" ∷ []) ("id" ∷ "price" ∷ "again" ∷ [])
      (some double_price ∷ []) (double_price ∷ []) (ready ∷ []) false
      (((pos 1 ∷ pos 10 ∷ []), 0) ∷ []) (((pos 10 ∷ []), 0) ∷ []) refl refl refl

-- One projection in place of a column: the other column is passed through.
new_one_projection_in_place :
    new_one_projection ("id" ∷ "again" ∷ []) (some double_price) true
    ≡ ok ("id" ∷ "again" ∷ [], new_unit_projection "id" "id" ∷ double_price ∷ [])
unfolding new_one_projection place fill_units get_key_attr new_unit_projection
new_one_projection_in_place = refl
