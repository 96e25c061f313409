-- ===== src/Execution/Delete/OfScan.antt =====
-- src/execution/delete_operator.cpp over filter_operator.cpp and seq_scan_operator.cpp: the deletion
-- of the rows of a table that pass filters.
use p2_hash_join_optimizatio.Common.{
  ℕ, ◌+◌, ◌≤◌, ◌<◌, ◌≡◌, refl, ap, ◌∙◌, List, [], ◌∷◌, some, ok, length, map, All,
}
use p2_hash_join_optimizatio.Common.Assoc.{lookup}
use p2_hash_join_optimizatio.Types.{get_key_attrs, invalid_id}
use p2_hash_join_optimizatio.Storage.Table.{Table, Row}
use p2_hash_join_optimizatio.Storage.Catalog.{Catalog}
use p2_hash_join_optimizatio.Execution.Operator.{
  ExecutionContext, Operator, Entry, Chunk, exhausted,
}
use p2_hash_join_optimizatio.Execution.Effects.{over}
use p2_hash_join_optimizatio.Execution.SeqScan.{SeqScanOperator, seq_scan_operator}
use p2_hash_join_optimizatio.Execution.SeqScan.Loop.{live_rows, Fits}
use p2_hash_join_optimizatio.Execution.SeqScan.Ahead.{IsLive, live_rows-IsLive, scan-Walks}
use p2_hash_join_optimizatio.Execution.Expression.Filters.{Filter}
use p2_hash_join_optimizatio.Execution.Filter.{FilterOperator, filter_operator}
use p2_hash_join_optimizatio.Execution.Filter.Rows.{AllApply, keep, filter_rows-keep}
use p2_hash_join_optimizatio.Execution.Filter.Chunks.{filter_rows-ids, filter-Walks}
use p2_hash_join_optimizatio.Execution.Delete.{new_delete, next}
use p2_hash_join_optimizatio.Execution.Delete.Marks.{IsThere, deleted_if_accepted, rows_after-map}
use p2_hash_join_optimizatio.Execution.Delete.Values.{delete-deletes}

all-IsThere :
    (rows : List Row) (entries : List Entry)
    → All (λ (e : Entry). IsLive rows e.1) entries
    → All (IsThere rows) entries
all-IsThere rows [] live = tt
all-IsThere rows (e ∷ entries) live = ((live.0.0, live.0.1), all-IsThere rows entries live.1)

module _ (q : SeqScanOperator) (fs : List Filter) where
  abbrev Source : Type 0
  Source = FilterOperator SeqScanOperator

  abbrev source_operator : Operator Source
  source_operator = filter_operator (seq_scan_operator q)

  -- The operators below the deletion, after `Init`.
  abbrev source : Source
  source = record { child = record q { next_row_id = 0 }; filters = fs }

  -- Where the suggested size of a chunk is positive, a table is there with at most as many rows as
  -- the invalid id and with the scanned columns, in each row too, and every filter can be evaluated
  -- on the scanned columns of each live row: a call of DeleteOperator::Next over a FilterOperator
  -- over a SeqScanOperator of the same table after Init, which reads the table while its rows are
  -- being deleted, returns with fuel above twice the number of rows and one; each row whose scanned
  -- columns all filters accept is then deleted, and nothing else of the table has changed.
  pub delete_of_scan-returns :
      (table : Table) (ctx : ExecutionContext) (attrs : List ℕ)
      → 0 < ctx.config.chunk_suggest_size
      → lookup q.table_name ctx.catalog.tables ≡ some table
      → length table.rows ≤ invalid_id
      → get_key_attrs table.schema q.fetch_columns ≡ ok attrs
      → Fits attrs table.rows
      → AllApply fs (live_rows attrs table.rows 0)
      → (catalog : Catalog) × (s' : Source) × ((fuel : ℕ) (output_chunk : Chunk)
          → length table.rows + length table.rows + 1 < fuel
          → next source_operator (new_delete source_operator) fuel source output_chunk ctx
            ≡ (over ctx catalog, ok (exhausted, [], s')))
        × (lookup q.table_name catalog.tables
            ≡ some (record table { rows = map (deleted_if_accepted fs attrs) table.rows }))
  unfolding new_delete seq_scan_operator filter_operator
  delete_of_scan-returns table ctx attrs positive found few keys columns apply =
      let passed = keep fs (live_rows attrs table.rows 0) in
      let filtered = filter_rows-keep fs (live_rows attrs table.rows 0) apply in
      let walks =
        filter-Walks (seq_scan_operator q) fs ctx q.table_name table _ _ passed
          (scan-Walks q table ctx attrs positive keys columns) filtered in
      let live =
        filter_rows-ids fs (IsLive table.rows) _ passed filtered
          (live_rows-IsLive attrs table.rows table.rows 0 refl) in
      let (catalog, s', run, found') =
        delete-deletes source_operator q.table_name ctx table source passed walks found
          (all-IsThere table.rows passed live) few in
      (
        catalog,
        s',
        run,
        found' ∙ ap (λ r. some (record table { rows = r })) (rows_after-map fs attrs table.rows 0),
      )
