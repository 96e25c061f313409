-- ===== src/Tests/Updates.antt =====
-- An update and a deletion of the rows of a table that a filter over a scan of it lets through.
use p2_hash_join_optimizatio.Common.{
  ℕ, ◌<◌, ◌≡◌, refl, pos, [], ◌∷◌, none, some, ok, true, arith, map,
}
use p2_hash_join_optimizatio.Common.Assoc.{lookup}
use p2_hash_join_optimizatio.Types.{get_key_attr, get_key_attrs, keys_from_tuple}
use p2_hash_join_optimizatio.Storage.Table.{fresh_meta}
use p2_hash_join_optimizatio.Storage.Catalog.{Catalog, fetch_table}
use p2_hash_join_optimizatio.Execution.Operator.{Chunk, exhausted, Operator}
use p2_hash_join_optimizatio.Execution.Effects.{over}
use p2_hash_join_optimizatio.Execution.SeqScan.{SeqScanOperator, seq_scan_operator}
use p2_hash_join_optimizatio.Execution.SeqScan.Rows.{live_rows}
use p2_hash_join_optimizatio.Types.Lookup.{project}
use p2_hash_join_optimizatio.Execution.Expression.Filters
use p2_hash_join_optimizatio.Execution.Expression.Filters.{Filter, equal_filter, check_internal}
use p2_hash_join_optimizatio.Execution.Expression.Projections
use p2_hash_join_optimizatio.Execution.Expression.Projections.{
  Projection, unit_projection, calc_internal,
}
use p2_hash_join_optimizatio.Execution.Filter.{
  FilterOperator, filter_rows, pass_tag, filter_operator,
}
use p2_hash_join_optimizatio.Execution.Projection.{
  ProjectionOperator, project_rows, project_tuple, projection_operator,
}
use p2_hash_join_optimizatio.Execution.Filter.Rows.{AllApply}
use p2_hash_join_optimizatio.Execution.Delete
use p2_hash_join_optimizatio.Execution.Delete.Marks.{deleted_if_accepted}
use p2_hash_join_optimizatio.Execution.Delete.OfScan.{delete_of_scan-returns}
use p2_hash_join_optimizatio.Execution.Update
use p2_hash_join_optimizatio.Execution.Update.{input_attrs}
use p2_hash_join_optimizatio.Execution.Update.InPlace.{takes, taken}
use p2_hash_join_optimizatio.Execution.RowOps.Changes.{rows_after, row_after}
use p2_hash_join_optimizatio.Execution.Update.OfScan.{update_of_scan-replaces}
use p2_hash_join_optimizatio.Tests.Scans.{ctx, items}
use p2_hash_join_optimizatio.Tests.SelfScans.{all_columns, items_fit}

abbrev third : Filter
third = record { keys_schema = "id" ∷ []; condition = equal_filter (pos 3); key_attrs = 0 ∷ [] }

abbrev price_as_id : Projection
price_as_id = record {
  keys_schema = "price" ∷ [];
  output_name = "id";
  calculation = unit_projection;
  key_attrs = 1 ∷ [];
}

abbrev id_as_price : Projection
id_as_price = record {
  keys_schema = "id" ∷ [];
  output_name = "price";
  calculation = unit_projection;
  key_attrs = 0 ∷ [];
}

abbrev Exchanging : Type 0
Exchanging = ProjectionOperator (FilterOperator SeqScanOperator)

abbrev exchanging_operator : Operator Exchanging
exchanging_operator =
    projection_operator (filter_operator (seq_scan_operator all_columns)) ("id" ∷ "price" ∷ [])

abbrev exchanging : Exchanging
exchanging = record {
  child = record { child = all_columns; filters = third ∷ [] };
  projections = price_as_id ∷ id_as_price ∷ [];
}

update_of_scan-replaces_example :
    (catalog : Catalog) × (s' : Exchanging) × ((fuel : ℕ)
      → 7 < fuel
      → Update.next exchanging_operator "items" none fuel exchanging ctx
        ≡ (over ctx catalog, ok (exhausted, s')))
    × (fetch_table catalog "items"
        ≡ ok (record items {
          rows = rows_after (takes none) (((pos 30 ∷ pos 3 ∷ []), 2) ∷ []) items.rows 0;
        }))
unfolding lookup get_key_attrs get_key_attr live_rows project filter_rows pass_tag Filters.check
    check_internal keys_from_tuple project_rows project_tuple Projections.calc calc_internal
    input_attrs
update_of_scan-replaces_example =
    update_of_scan-replaces all_columns (third ∷ []) (price_as_id ∷ id_as_price ∷ [])
      ("id" ∷ "price" ∷ []) none items ctx (0 ∷ 1 ∷ []) none (((pos 3 ∷ pos 30 ∷ []), 2) ∷ [])
      (((pos 30 ∷ pos 3 ∷ []), 2) ∷ []) (omega arith) refl refl (omega arith) refl items_fit refl
      refl refl (tt, tt)

exchanged :
    rows_after (takes none) (((pos 30 ∷ pos 3 ∷ []), 2) ∷ []) items.rows 0
    ≡ record { tuple = pos 1 ∷ pos 10 ∷ []; tuple_meta = fresh_meta }
      ∷ record { tuple = pos 2 ∷ pos 20 ∷ []; tuple_meta = record { is_deleted = true } }
      ∷ record { tuple = pos 30 ∷ pos 3 ∷ []; tuple_meta = fresh_meta }
      ∷ []
unfolding rows_after row_after taken
exchanged = refl

abbrev third_only : FilterOperator SeqScanOperator
third_only = record { child = all_columns; filters = third ∷ [] }

third_applies : AllApply (third ∷ []) (live_rows (0 ∷ 1 ∷ []) items.rows 0)
unfolding live_rows project
third_applies =
    ((((omega arith, tt), omega arith), tt), ((((omega arith, tt), omega arith), tt), tt))

delete_of_scan-returns_example :
    (catalog : Catalog) × (s' : FilterOperator SeqScanOperator) × ((fuel : ℕ) (output_chunk : Chunk)
      → 7 < fuel
      → Delete.next
          (filter_operator (seq_scan_operator all_columns))
          (Delete.new_delete (filter_operator (seq_scan_operator all_columns)))
          fuel
          third_only
          output_chunk
          ctx
        ≡ (over ctx catalog, ok (exhausted, [], s')))
    × (lookup "items" catalog.tables
        ≡ some (record items {
          rows = map (deleted_if_accepted (third ∷ []) (0 ∷ 1 ∷ [])) items.rows;
        }))
unfolding lookup get_key_attrs get_key_attr
delete_of_scan-returns_example =
    delete_of_scan-returns all_columns (third ∷ []) items ctx (0 ∷ 1 ∷ []) (omega arith) refl
      (omega arith) refl items_fit third_applies

third_deleted :
    map (deleted_if_accepted (third ∷ []) (0 ∷ 1 ∷ [])) items.rows
    ≡ record { tuple = pos 1 ∷ pos 10 ∷ []; tuple_meta = fresh_meta }
      ∷ record { tuple = pos 2 ∷ pos 20 ∷ []; tuple_meta = record { is_deleted = true } }
      ∷ record { tuple = pos 3 ∷ pos 30 ∷ []; tuple_meta = record { is_deleted = true } }
      ∷ []
unfolding project
third_deleted = refl
