-- ===== src/Tests/Statements.antt =====
-- Insert, delete and update on a table with an index.
use p2_hash_join_optimizatio.Common.{
  ◌≡◌, refl, true, pos, [], ◌∷◌, none, err, logic_error, insert_duplicated_key,
}
use p2_hash_join_optimizatio.Common.Assoc.{lookup, assign}
use p2_hash_join_optimizatio.Types.{get_key_attr, get_key_attrs, key_from_tuple, keys_from_tuple}
use p2_hash_join_optimizatio.Storage.Table.{fresh_meta}
use p2_hash_join_optimizatio.Storage.Catalog.{fetch_table, fetch_index}
use p2_hash_join_optimizatio.Storage.StlmapIndex.{
  find, put, scan_key, insert_entry, scan_range, start_ite, end_ite, lower_bound, upper_bound,
  collect,
}
use p2_hash_join_optimizatio.Execution.Effects.{put_rows, put_index}
use p2_hash_join_optimizatio.Execution.RowOps.{
  delete_row, insert_row_with_index, insert_row_wo_index,
}
use p2_hash_join_optimizatio.Execution.Value
use p2_hash_join_optimizatio.Execution.Value.{ValueOperator, value_operator, next_loop}
use p2_hash_join_optimizatio.Execution.RangeIndexScan
use p2_hash_join_optimizatio.Execution.RangeIndexScan.{
  range_index_scan_operator, scan_index, scan_loop,
}
use p2_hash_join_optimizatio.Execution.Delete
use p2_hash_join_optimizatio.Execution.Delete.{delete_loop, delete_rows}
use p2_hash_join_optimizatio.Execution.Insert
use p2_hash_join_optimizatio.Execution.Insert.{
  insert_loop, insert_rows, insert_with_index, index_key,
}
use p2_hash_join_optimizatio.Execution.Update
use p2_hash_join_optimizatio.Execution.Kept.{IsKept}
use p2_hash_join_optimizatio.Execution.Kept.Deletes.{delete-IsKept}
use p2_hash_join_optimizatio.Execution.Kept.Inserts.{insert-IsKept}
use p2_hash_join_optimizatio.Execution.Kept.Updates.{update-IsKept}
use p2_hash_join_optimizatio.Tests.Indexes.{by_id, by_id-IsIndexed}
use p2_hash_join_optimizatio.Tests.RangeScans.{ctx, prices, in_order}

ctx-IsKept : IsKept "t" "by_id" 0 ctx
unfolding lookup get_key_attr
ctx-IsKept = record {
  table = prices;
  index = by_id;
  found_table = refl;
  found_index = refl;
  named = refl;
  not_empty = refl;
  keyed = refl;
  sorted = ((refl, tt), (tt, tt));
  right = λ few. by_id-IsIndexed;
}

-- A new row, and one whose key is there.
abbrev new_prices : ValueOperator
new_prices = record {
  output_schema = "id" ∷ "price" ∷ [];
  tuples = (pos 7 ∷ pos 70 ∷ []) ∷ (pos 5 ∷ pos 55 ∷ []) ∷ [];
  next_tuple_id = 0;
}

insert-IsKept_example :
    IsKept "t" "by_id" 0
      (Insert.next (value_operator new_prices) "t" ("id" ∷ "price" ∷ []) 9 new_prices [] ctx).0
insert-IsKept_example =
    insert-IsKept "t" "by_id" 0 (value_operator new_prices) ("id" ∷ "price" ∷ []) 9 new_prices []
      ctx ctx-IsKept

delete-IsKept_example :
    IsKept "t" "by_id" 0 (Delete.next (range_index_scan_operator in_order) "t" 9 in_order [] ctx).0
delete-IsKept_example =
    delete-IsKept "t" "by_id" 0 (range_index_scan_operator in_order) 9 in_order [] ctx ctx-IsKept

update-IsKept_example :
    IsKept "t" "by_id" 0
      (Update.next (range_index_scan_operator in_order) "t" none 9 in_order ctx).0
update-IsKept_example =
    update-IsKept "t" "by_id" 0 (range_index_scan_operator in_order) none 9 in_order ctx ctx-IsKept

program : Unit {0}
unfolding Insert.next insert_loop insert_rows insert_with_index index_key put_rows put_index
    insert_row_with_index insert_row_wo_index insert_entry scan_key find put value_operator
    Value.next next_loop fetch_table fetch_index lookup assign get_key_attr get_key_attrs
    key_from_tuple keys_from_tuple Delete.next delete_loop delete_rows delete_row
    range_index_scan_operator RangeIndexScan.next scan_index scan_loop scan_range start_ite end_ite
    lower_bound upper_bound collect
program = tt

-- The second row is refused, and the first stays, in the table and in the index.
insert_stops :
    Insert.next (value_operator new_prices) "t" ("id" ∷ "price" ∷ []) 9 new_prices [] ctx ≡ (
      record ctx {
        catalog = record {
          tables =
              (
                "t",
                record prices {
                  rows =
                      record { tuple = pos 5 ∷ pos 50 ∷ []; tuple_meta = fresh_meta }
                      ∷ record {
                        tuple = pos 8 ∷ pos 80 ∷ [];
                        tuple_meta = record { is_deleted = true };
                      }
                      ∷ record { tuple = pos 7 ∷ pos 70 ∷ []; tuple_meta = fresh_meta }
                      ∷ [];
                },
              )
              ∷ [];
          indexes =
              ("by_id", record by_id { index = (pos 5, 0) ∷ (pos 7, 2) ∷ (pos 8, 1) ∷ [] }) ∷ [];
        };
      },
      err (logic_error insert_duplicated_key),
    )
unfolding program
insert_stops = refl
