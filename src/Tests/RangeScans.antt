-- ===== src/Tests/RangeScans.antt =====
-- An index over a table with one deleted row: its construction and its scan.
use p2_hash_join_optimizatio.Common.{
  ◌≡◌, refl, ◌⊎◌, inl, true, false, pos, [], ◌∷◌, Perm, ok, throw, duplicated_key, arith,
}
use p2_hash_join_optimizatio.Common.Assoc.{lookup}
use p2_hash_join_optimizatio.Types.{
  RangeInfo, get_key_attr, get_key_attrs, keys_from_tuple, key_from_tuple,
}
use p2_hash_join_optimizatio.Types.Ranges.{in_range}
use p2_hash_join_optimizatio.Storage.Table.{Table}
use p2_hash_join_optimizatio.Storage.Catalog.{fetch_table, fetch_index}
use p2_hash_join_optimizatio.Storage.StlmapIndex.{
  StlmapIndex, find, put, lower_bound, upper_bound, collect, scan_range, start_ite, end_ite,
  insert_entry, index_rows, new_stlmap_index,
}
use p2_hash_join_optimizatio.Storage.StlmapIndex.Laws.{IsSorted}
use p2_hash_join_optimizatio.Storage.StlmapIndex.Ranges.{ids}
use p2_hash_join_optimizatio.Storage.StlmapIndex.OfTable.{
  IsIndexed, Duplicate, new_stlmap_index-IsIndexed,
}
use p2_hash_join_optimizatio.Execution.Operator.{ExecutionContext, exhausted}
use p2_hash_join_optimizatio.Execution.Operator.Contract.{Produces}
use p2_hash_join_optimizatio.Execution.RangeIndexScan.{
  RangeIndexScanOperator, next, scan_index, scan_loop, range_index_scan_operator,
}
use p2_hash_join_optimizatio.Execution.RangeIndexScan.Fetched.{fetched, chosen_rows}
use p2_hash_join_optimizatio.Execution.RangeIndexScan.Rows.{range_index_scan_operator-Produces}
use p2_hash_join_optimizatio.Tests.Indexes.{rows, by_id, by_id-IsIndexed}

abbrev pub prices : Table
prices = record { name = "t"; schema = "id" ∷ "price" ∷ []; rows = rows; index_name = "by_id" }

new_stlmap_index-IsIndexed_example :
    ((index : StlmapIndex) × (new_stlmap_index "by_price" prices "price" ≡ ok index)
      × IsSorted index.index
      × IsIndexed 1 prices.rows index)
    ⊎ ((new_stlmap_index "by_price" prices "price" ≡ throw duplicated_key)
        × Duplicate 1 prices.rows)
unfolding get_key_attr
new_stlmap_index-IsIndexed_example =
    new_stlmap_index-IsIndexed "by_price" prices "price" 1 refl (omega arith, (omega arith, tt))

abbrev pub ctx : ExecutionContext
ctx = record {
  catalog = record { tables = ("t", prices) ∷ []; indexes = ("by_id", by_id) ∷ [] };
  config = record { chunk_suggest_size = 4 };
}

abbrev from_five_to_eight : RangeInfo
from_five_to_eight = record { start = pos 5; end = pos 8; contain_start = true; contain_end = true }

abbrev pub in_order : RangeIndexScanOperator
in_order = record {
  output_schema = "price" ∷ [];
  table_name = "t";
  fetch_columns = "price" ∷ [];
  index_name = "by_id";
  range = from_five_to_eight;
  row_ids = [];
  next_ite = 0;
  results_scanned = false;
}

range_index_scan_operator-Produces_example :
    Produces
      (range_index_scan_operator in_order)
      ctx
      in_order
      (fetched (1 ∷ []) rows (ids (in_range from_five_to_eight) by_id.index))
    × Perm
        (fetched (1 ∷ []) rows (ids (in_range from_five_to_eight) by_id.index))
        (chosen_rows (in_range from_five_to_eight) 0 (1 ∷ []) rows 0)
unfolding fetch_table fetch_index lookup get_key_attrs get_key_attr
range_index_scan_operator-Produces_example =
    range_index_scan_operator-Produces ctx in_order prices by_id 0 (1 ∷ []) refl refl refl
      ((omega arith, tt), ((omega arith, tt), tt)) by_id-IsIndexed ((refl, tt), (tt, tt)) (inl refl)
      (omega arith)

program : Unit {0}
unfolding range_index_scan_operator next scan_index scan_loop fetch_table fetch_index lookup
    scan_range start_ite end_ite lower_bound upper_bound collect get_key_attrs get_key_attr
    keys_from_tuple key_from_tuple new_stlmap_index index_rows insert_entry find put
program = tt

-- The deleted row is not returned, though the index still leads to it.
scan_returns :
    next 0 ctx in_order []
    ≡ ok (
      exhausted,
      (pos 50 ∷ [], 0) ∷ [],
      record in_order { row_ids = 0 ∷ 1 ∷ []; next_ite = 2; results_scanned = true },
    )
unfolding program
scan_returns = refl

-- An index that is made anew leaves it out.
new_index : (ix : StlmapIndex) × (new_stlmap_index "by_price" prices "price" ≡ ok ix)
unfolding program
new_index = (_, refl)
