-- ===== src/Execution/Update/OfScan.antt =====
-- src/execution/update_operator.cpp over projection_operator.cpp, filter_operator.cpp and
-- seq_scan_operator.cpp: an update of the rows of a table that pass filters.
use p2_hash_join_optimizatio.Common.{
  ℕ, ◌+◌, ◌≤◌, ◌<◌, ◌≡◌, refl, List, Option, some, ok, length, All,
}
use p2_hash_join_optimizatio.Common.Assoc.{lookup}
use p2_hash_join_optimizatio.Types.{Schema, get_key_attrs, invalid_name, invalid_id}
use p2_hash_join_optimizatio.Storage.Table.{Table}
use p2_hash_join_optimizatio.Storage.Catalog.{Catalog, fetch_table}
use p2_hash_join_optimizatio.Execution.Operator.{
  ExecutionContext, Operator, Entry, Chunk, exhausted,
}
use p2_hash_join_optimizatio.Execution.Effects.{over}
use p2_hash_join_optimizatio.Execution.SeqScan.{SeqScanOperator, seq_scan_operator}
use p2_hash_join_optimizatio.Execution.SeqScan.Loop
use p2_hash_join_optimizatio.Execution.SeqScan.Loop.{live_rows}
use p2_hash_join_optimizatio.Execution.SeqScan.Ahead.{IsLive, live_rows-IsLive, scan-Walks}
use p2_hash_join_optimizatio.Execution.Expression.Filters.{Filter}
use p2_hash_join_optimizatio.Execution.Expression.Projections.{Projection}
use p2_hash_join_optimizatio.Execution.Filter.{FilterOperator, filter_rows, filter_operator}
use p2_hash_join_optimizatio.Execution.Filter.Chunks.{filter_rows-ids, filter-Walks}
use p2_hash_join_optimizatio.Execution.Projection.{
  ProjectionOperator, project_rows, projection_operator,
}
use p2_hash_join_optimizatio.Execution.Projection.Chunks.{project_rows-ids, projection-Walks}
use p2_hash_join_optimizatio.Execution.Update.{input_attrs, next}
use p2_hash_join_optimizatio.Execution.Update.InPlace.{takes, HasTaken, both-Fits}
use p2_hash_join_optimizatio.Execution.RowOps.Changes.{rows_after}
use p2_hash_join_optimizatio.Execution.Update.Values.{update-replaces}

module _ (q : SeqScanOperator) (fs : List Filter) (ps : List Projection) (schema : Schema)
    (input_schema : Option Schema) where
  abbrev Source : Type 0
  Source = ProjectionOperator (FilterOperator SeqScanOperator)

  abbrev source_operator : Operator Source
  source_operator = projection_operator (filter_operator (seq_scan_operator q)) schema

  -- The tree of operators below the update, after `Init`.
  abbrev source : Source
  source = record {
    child = record { child = record q { next_row_id = 0 }; filters = fs };
    projections = ps;
  }

  -- Where the suggested size of a chunk is positive, and a table is there that has no index, at
  -- most as many rows as the invalid id, and the scanned columns, in each row too; where the
  -- filters and then the projections make some entries of its live rows without an error; and where
  -- the input columns are found in the schema of the projection, and each of the entries has them:
  -- a call of UpdateOperator::Next over a ProjectionOperator over a FilterOperator over a
  -- SeqScanOperator of the same table after Init returns with fuel above twice the number of rows
  -- and one; each entry, in their order, has then replaced the tuple of the row with its id by the
  -- input columns of its own, by all of it without an input schema, and nothing else of the table
  -- has changed.
  pub update_of_scan-replaces :
      (table : Table) (ctx : ExecutionContext) (attrs : List ℕ) (key_attrs : Option (List ℕ))
      (passed made : Chunk)
      → 0 < ctx.config.chunk_suggest_size
      → lookup q.table_name ctx.catalog.tables ≡ some table
      → table.index_name ≡ invalid_name
      → length table.rows ≤ invalid_id
      → get_key_attrs table.schema q.fetch_columns ≡ ok attrs
      → Loop.Fits attrs table.rows
      → filter_rows fs (live_rows attrs table.rows 0) ≡ ok passed
      → project_rows ps passed ≡ ok made
      → input_attrs source_operator q.table_name input_schema ≡ ok key_attrs
      → All (λ (e : Entry). HasTaken key_attrs e.0) made
      → (catalog : Catalog) × (s' : Source) × ((fuel : ℕ)
          → length table.rows + length table.rows + 1 < fuel
          → next source_operator q.table_name input_schema fuel source ctx
            ≡ (over ctx catalog, ok (exhausted, s')))
        × (fetch_table catalog q.table_name
            ≡ ok (record table { rows = rows_after (takes key_attrs) made table.rows 0 }))
  update_of_scan-replaces table ctx attrs key_attrs passed made positive found no_index few keys
        columns filtered projected inputs taken_columns =
      let scans = scan-Walks q table ctx attrs positive keys columns in
      let filters =
        filter-Walks (seq_scan_operator q) fs ctx q.table_name table _ _ passed scans filtered in
      let walks =
        projection-Walks (filter_operator (seq_scan_operator q)) schema ps ctx q.table_name table _
          _ made filters projected in
      let live = project_rows-ids ps (IsLive table.rows) passed made projected (
        filter_rows-ids fs (IsLive table.rows) _ passed filtered
          (live_rows-IsLive attrs table.rows table.rows 0 refl)) in
      let fits = both-Fits key_attrs table.rows made taken_columns live in
      update-replaces source_operator q.table_name input_schema ctx key_attrs table source made
        walks found no_index inputs fits few
