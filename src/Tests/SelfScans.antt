-- ===== src/Tests/SelfScans.antt =====
-- An insertion over a scan of the same table.
use p2_hash_join_optimizatio.Common.{
  ◌+◌, ◌≤◌, ◌≡◌, refl, List, [], ◌∷◌, ◌++◌, some, err, out_of_fuel, arith, length,
}
use p2_hash_join_optimizatio.Common.Assoc.{lookup}
use p2_hash_join_optimizatio.Types.{get_key_attr, get_key_attrs}
use p2_hash_join_optimizatio.Storage.Table.{Row}
use p2_hash_join_optimizatio.Storage.Catalog.{Catalog}
use p2_hash_join_optimizatio.Execution.Effects.{over}
use p2_hash_join_optimizatio.Execution.SeqScan.{SeqScanOperator, seq_scan_operator}
use p2_hash_join_optimizatio.Execution.SeqScan.Rows.{Fits, live_rows}
use p2_hash_join_optimizatio.Execution.Insert
use p2_hash_join_optimizatio.Execution.Insert.OfScan.{insert_of_scan-diverges}
use p2_hash_join_optimizatio.Execution.Update
use p2_hash_join_optimizatio.Tests.Scans.{ctx, items}

abbrev pub all_columns : SeqScanOperator
all_columns = record {
  output_schema = "items.id" ∷ "items.price" ∷ [];
  table_name = "items";
  fetch_columns = "id" ∷ "price" ∷ [];
  next_row_id = 0;
}

pub items_fit : Fits (0 ∷ 1 ∷ []) items.rows
items_fit = (
  (omega arith, (omega arith, tt)),
  ((omega arith, (omega arith, tt)), ((omega arith, (omega arith, tt)), tt)),
)

insert_of_scan-diverges_example :
    (catalog : Catalog) × (more : List Row) × (Insert.next
        (seq_scan_operator all_columns)
        "items"
        ("items.id" ∷ "items.price" ∷ [])
        9
        all_columns
        []
        ctx
      ≡ (over ctx catalog, err out_of_fuel))
    × (lookup "items" catalog.tables ≡ some (record items { rows = items.rows ++ more }))
    × (9 ≤ length items.rows + length more + 1)
unfolding lookup get_key_attrs get_key_attr live_rows
insert_of_scan-diverges_example =
    insert_of_scan-diverges all_columns items ("items.id" ∷ "items.price" ∷ []) ctx (0 ∷ 1 ∷ [])
      (0 ∷ 1 ∷ []) (omega arith) refl (omega arith, (omega arith, tt))
      (omega arith, (omega arith, tt)) refl refl refl items_fit (omega arith) 9 []

-- The operators that the constructors make over the scan.
new_insert_of_scan :
    Insert.new_insert (seq_scan_operator all_columns) "items"
    ≡ Insert.new_insert_columns "items" ("items.id" ∷ "items.price" ∷ [])
unfolding Insert.new_insert Insert.new_insert_columns seq_scan_operator
new_insert_of_scan = refl

new_update_of_scan :
    Update.new_update_columns (seq_scan_operator all_columns) ("items.id" ∷ [])
    ≡ record (Update.new_update (seq_scan_operator all_columns)) {
      input_schema = some ("items.id" ∷ []);
    }
unfolding Update.new_update Update.new_update_columns seq_scan_operator
new_update_of_scan = refl
