-- ===== src/Execution/SeqScan/Rows.antt =====
-- The sequential scan produces the live rows of its table.
pub use p2_hash_join_optimizatio.Execution.SeqScan.Loop.{Fits}
unfoldable pub use p2_hash_join_optimizatio.Execution.SeqScan.Loop.{live_rows}
use p2_hash_join_optimizatio.Execution.SeqScan.Loop.{next_loop-Outcome}
use p2_hash_join_optimizatio.Common.{
  ℕ, suc, ◌≤◌, ◌<◌, ◌≡◌, refl, ap, ◌∙◌, inl, inr, List, ok, arith, length, drop,
}
use p2_hash_join_optimizatio.Types.{get_key_attrs}
use p2_hash_join_optimizatio.Storage.Table.{Table, Row}
use p2_hash_join_optimizatio.Storage.Catalog.{fetch_table}
use p2_hash_join_optimizatio.Execution.Operator.{ExecutionContext, Entry}
use p2_hash_join_optimizatio.Execution.Operator.Contract.{Produces}
use p2_hash_join_optimizatio.Execution.Operator.Pages.{Page, Page-Produces}
use p2_hash_join_optimizatio.Execution.SeqScan.{SeqScanOperator, next, seq_scan_operator}

module _ (table : Table) (attrs : List ℕ) (ctx : ExecutionContext) (s₀ : SeqScanOperator) where
  -- What is left of the table from the state on; the other fields do not change.
  abbrev Ready : ℕ → SeqScanOperator → List Entry → Type 0
  Ready k s rows =
      (rest : List Row) × (s ≡ record s₀ { next_row_id = s.next_row_id })
      × (drop s.next_row_id table.rows ≡ rest)
      × Fits attrs rest
      × (rows ≡ live_rows attrs rest s.next_row_id)
      × (k ≡ length rest)
      × (k ≤ length table.rows)

  module _ (found : fetch_table ctx.catalog s₀.table_name ≡ ok table)
      (keys : get_key_attrs table.schema s₀.fetch_columns ≡ ok attrs)
      (positive : 0 < ctx.config.chunk_suggest_size) where
    next-Page :
        (k : ℕ) (s : SeqScanOperator) (rows : List Entry)
        → Ready k s rows
        → Page (seq_scan_operator s₀) ctx (suc (length table.rows)) Ready k s rows
    unfolding seq_scan_operator next
    next-Page k s rows (rest, same, d, fits, e, ek, bound) =
        let found' : fetch_table ctx.catalog s.table_name ≡ ok table =
          ap (λ (t : SeqScanOperator). fetch_table ctx.catalog t.table_name) same ∙ found in
        let keys' : get_key_attrs table.schema s.fetch_columns ≡ ok attrs =
          ap (λ (t : SeqScanOperator). get_key_attrs table.schema t.fetch_columns) same ∙ keys in
        elim (next_loop-Outcome ctx.config.chunk_suggest_size table.rows attrs rest s.next_row_id 0
          d fits) [
            | inl (id', few, run) ↦ inl (
              record s { next_row_id = id' },
              λ fuel chunk h. rw (found', keys', run chunk (omega arith) fuel (omega arith), e),
            )
            | inr f ↦ inr (
              length f.left,
              live_rows attrs f.seen s.next_row_id,
              live_rows attrs f.left f.id',
              record s { next_row_id = f.id' },
              omega (arith, f.less, f.large),
              omega (arith, f.large),
              e ∙ f.split,
              λ fuel chunk h. rw (found', keys', f.run chunk (omega arith) fuel (omega arith)),
              (
                f.left,
                ap (λ (t : SeqScanOperator). record t { next_row_id = f.id' }) same,
                f.drops,
                f.fits,
                refl,
                refl,
                omega (arith, f.less),
              ),
            )
          ]

-- Where the table and its columns are there and every row has them, the calls of
-- SeqScanOperator::Next after Init return the fetched columns of the rows that are not deleted, in
-- the order of their ids, each with its id, if the suggested size of a chunk is positive.
pub seq_scan_operator-Produces :
    (ctx : ExecutionContext) (s : SeqScanOperator) (table : Table) (attrs : List ℕ)
    → fetch_table ctx.catalog s.table_name ≡ ok table
    → get_key_attrs table.schema s.fetch_columns ≡ ok attrs
    → Fits attrs table.rows
    → 0 < ctx.config.chunk_suggest_size
    → Produces
        (seq_scan_operator s)
        ctx
        (record s { next_row_id = 0 })
        (live_rows attrs table.rows 0)
seq_scan_operator-Produces ctx s table attrs found keys fits positive =
    (Page-Produces (seq_scan_operator s) ctx (suc (length table.rows)) (Ready table attrs ctx s)
      (next-Page table attrs ctx s found keys positive) (suc (length table.rows))
      (length table.rows) _ _ (omega arith)
      (table.rows, refl, refl, fits, refl, refl, omega arith)).0
