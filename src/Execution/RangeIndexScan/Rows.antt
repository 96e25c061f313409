-- ===== src/Execution/RangeIndexScan/Rows.antt =====
-- src/execution/range_index_scan_operator.cpp: the rows that the calls of `Next` return.
use p2_hash_join_optimizatio.Common.{
  ℕ, suc, ◌+◌, ◌≤◌, ◌<◌, ◌≡◌, refl, sym, ap, ◌∙◌, inl, inr, true, false, List, [], ◌∷◌, ◌++◌,
  append_assoc, Perm, some, ok, ◌>>=◌, arith, length, drop, get_elem?, All, All-append_right,
  drop-append_length, length-append,
}
use p2_hash_join_optimizatio.Types.{get_key_attrs}
use p2_hash_join_optimizatio.Types.Ranges.{in_range}
use p2_hash_join_optimizatio.Storage.Table.{Table, Row}
use p2_hash_join_optimizatio.Storage.Catalog.{fetch_table, fetch_index}
use p2_hash_join_optimizatio.Storage.StlmapIndex.{StlmapIndex}
use p2_hash_join_optimizatio.Storage.StlmapIndex.Laws.{IsSorted}
use p2_hash_join_optimizatio.Storage.StlmapIndex.Ranges.{ids, IsProper, scan_range-ids}
use p2_hash_join_optimizatio.Execution.Operator.{ExecutionContext, Entry, Chunk}
use p2_hash_join_optimizatio.Execution.Operator.Contract.{Produces}
use p2_hash_join_optimizatio.Execution.Operator.Pages.{Page, Page-Produces}
use p2_hash_join_optimizatio.Execution.SeqScan.Rows.{Fits}
use p2_hash_join_optimizatio.Storage.StlmapIndex.OfTable.{IsIndexed}
use p2_hash_join_optimizatio.Execution.RangeIndexScan.Fetched.{fetched, fetched-append, chosen_rows}
use p2_hash_join_optimizatio.Execution.RangeIndexScan.Same.{
  fetched-chosen_rows, ids-rows, entries-found,
}
use p2_hash_join_optimizatio.Execution.RangeIndexScan.{
  RangeIndexScanOperator, scan_loop, scan_index, next, range_index_scan_operator,
}
use p2_hash_join_optimizatio.Execution.RangeIndexScan.Loop.{
  IsThere, Fits-get_elem?, scan_loop-Outcome,
}

module _ (ctx : ExecutionContext) (s₀ : RangeIndexScanOperator) (table : Table)
    (attrs row_ids : List ℕ) (found : fetch_table ctx.catalog s₀.table_name ≡ ok table)
    (keys : get_key_attrs table.schema s₀.fetch_columns ≡ ok attrs)
    (positive : 0 < ctx.config.chunk_suggest_size) where
  -- A state after the scan of the index.
  abbrev scanned : ℕ → RangeIndexScanOperator
  scanned ite = record s₀ { row_ids = row_ids; next_ite = ite; results_scanned = true }

  -- `left` are the ids from the iterator on.
  abbrev Ready : ℕ → RangeIndexScanOperator → List Entry → Type 0
  Ready k s rows =
      (front left : List ℕ) × (row_ids ≡ front ++ left)
      × All (IsThere attrs table.rows) left
      × (rows ≡ fetched attrs table.rows left)
      × (length left ≤ k)
      × ((fuel : ℕ) (chunk : Chunk)
          → next fuel ctx s chunk ≡ (
              scan_loop ctx.config.chunk_suggest_size table.rows attrs left (length front) []
              >>= λ r. ok (r.0, r.1, scanned r.2)))

  next-scanned :
      (front left : List ℕ) (ite fuel : ℕ) (chunk : Chunk)
      → row_ids ≡ front ++ left
      → ite ≡ length front
      → next fuel ctx (scanned ite) chunk ≡ (
          scan_loop ctx.config.chunk_suggest_size table.rows attrs left (length front) [] >>= λ r.
          ok (r.0, r.1, scanned r.2))
  unfolding next scan_index
  next-scanned front left ite fuel chunk e at_front =
      rw (found, keys, at_front)
        (ap
          (λ l.
            scan_loop ctx.config.chunk_suggest_size table.rows attrs l (length front) [] >>= λ r.
            ok (r.0, r.1, scanned r.2))
          (ap (drop (length front)) e ∙ drop-append_length front left))

  some_fetched : (a : List ℕ) → 0 < length (fetched attrs table.rows a) → 0 < length a
  unfolding fetched
  some_fetched [] h = absurd (omega arith)
  some_fetched (r ∷ a) h = omega arith

  next-Page :
      (k : ℕ) (s : RangeIndexScanOperator) (rows : List Entry)
      → Ready k s rows
      → Page (range_index_scan_operator s₀) ctx 0 Ready k s rows
  unfolding range_index_scan_operator
  next-Page k s rows (front, left, e, there, whole, measure, step) =
      elim (scan_loop-Outcome ctx.config.chunk_suggest_size table.rows attrs left (length front) []
        there) [
          | inl run ↦ inl (
            scanned (length front + length left),
            λ fuel chunk h. step fuel chunk ∙ rw (run, whole),
          )
          | inr (a, b, same, large, run) ↦
              let count : length left ≡ length a + length b = rw same (length-append a b) in
              let taken : 0 < length a = some_fetched a (omega (arith, large)) in
              let split = e ∙ ap (λ l. front ++ l) same ∙ sym (append_assoc front a b) in
              inr (
                length b,
                fetched attrs table.rows a,
                fetched attrs table.rows b,
                scanned (length front + length a),
                omega arith,
                omega (arith, large),
                whole ∙ ap (fetched attrs table.rows) same ∙ fetched-append attrs table.rows a b,
                λ fuel chunk h. step fuel chunk ∙ rw run,
                (
                  front ++ a,
                  b,
                  split,
                  All-append_right _ a b (rw same at there),
                  refl,
                  omega arith,
                  λ fuel chunk.
                      next-scanned (front ++ a) b _ fuel chunk split (sym (length-append front a)),
                ),
              )
        ]

-- The ids lead to rows that have the columns.
All-IsThere :
    (attrs : List ℕ) (rows : List Row) (row_ids : List ℕ)
    → Fits attrs rows
    → All (λ r. (row : Row) × (get_elem? rows r ≡ some row)) row_ids
    → All (IsThere attrs rows) row_ids
All-IsThere attrs rows [] fits there = tt
All-IsThere attrs rows (r ∷ row_ids) fits ((row, found), there) = (
  (row, found, Fits-get_elem? attrs rows r row fits found),
  All-IsThere attrs rows row_ids fits there,
)

-- Where the table, its columns and the index are there, every row has the columns, the index is in
-- order and right for the table, the start of the range lies before its end or is it with one of
-- the two included, and the suggested size of a chunk is positive: the calls of
-- RangeIndexScanOperator::Next after Init return the fetched columns of the live rows that the
-- index gives for the range, in the order of their keys, each with its id; and these are, in
-- another order, the rows that a walk over the table finds live and with a key in the range.
pub range_index_scan_operator-Produces :
    (ctx : ExecutionContext) (s : RangeIndexScanOperator) (table : Table) (index : StlmapIndex)
    (attr : ℕ) (attrs : List ℕ)
    → fetch_table ctx.catalog s.table_name ≡ ok table
    → get_key_attrs table.schema s.fetch_columns ≡ ok attrs
    → fetch_index ctx.catalog s.index_name ≡ ok index
    → Fits attrs table.rows
    → IsIndexed attr table.rows index
    → IsSorted index.index
    → IsProper s.range
    → 0 < ctx.config.chunk_suggest_size
    → Produces
        (range_index_scan_operator s)
        ctx
        (record s { row_ids = []; next_ite = 0; results_scanned = false })
        (fetched attrs table.rows (ids (in_range s.range) index.index))
      × Perm
          (fetched attrs table.rows (ids (in_range s.range) index.index))
          (chosen_rows (in_range s.range) attr attrs table.rows 0)
unfolding next scan_index
range_index_scan_operator-Produces ctx s table index attr attrs found keys found_index fits ind
      sorted proper positive =
    let row_ids = ids (in_range s.range) index.index in
    let scan = scan_range-ids s.range index sorted proper in
    let there = All-IsThere attrs table.rows row_ids fits (
      ids-rows attr table.rows index ind (in_range s.range) index.index
        (entries-found index.index sorted)) in
    let init : RangeIndexScanOperator = record s {
      row_ids = [];
      next_ite = 0;
      results_scanned = false;
    } in
    let start : Ready ctx s table attrs row_ids found keys positive (length row_ids) init
        (fetched attrs table.rows row_ids) =
      (
        [],
        row_ids,
        refl,
        there,
        refl,
        omega arith,
        λ fuel chunk. rw (found, keys, found_index, scan),
      ) in
    (
      (Page-Produces (range_index_scan_operator s) ctx 0
          (Ready ctx s table attrs row_ids found keys positive)
          (next-Page ctx s table attrs row_ids found keys positive) (suc (length row_ids))
          (length row_ids) init _ (omega arith) start).0,
      fetched-chosen_rows (in_range s.range) attr attrs table.rows index ind sorted,
    )
