-- ===== src/Execution/Insert/RoundTrip.antt =====
-- src/execution/insert_operator.cpp and seq_scan_operator.cpp: an insertion and then a scan.
use native.Mathlib.Nat.{add-zero, zero-add}
use p2_hash_join_optimizatio.Common.{
  ℕ, suc, ◌+◌, ◌≤◌, ◌<◌, length-append, ◌≡◌, refl, ap, inl, inr, String, List, [], ◌∷◌, ◌++◌, some,
  ok, arith, length, All, Bool-cases, All-append,
}
use p2_hash_join_optimizatio.Common.Assoc.{lookup}
use p2_hash_join_optimizatio.Types.{Schema, invalid_name, get_key_attrs}
use p2_hash_join_optimizatio.Types.Lookup.{length-project, project}
use p2_hash_join_optimizatio.Storage.Table.{Table, Row}
use p2_hash_join_optimizatio.Storage.Catalog.{Catalog}
use p2_hash_join_optimizatio.Execution.Operator.{
  ExecutionContext, Entry, Chunk, Operator, exhausted,
}
use p2_hash_join_optimizatio.Execution.Operator.Contract.{Delivers, Produces}
use p2_hash_join_optimizatio.Execution.SeqScan.{SeqScanOperator, seq_scan_operator}
use p2_hash_join_optimizatio.Execution.SeqScan.Rows.{live_rows, Fits, seq_scan_operator-Produces}
use p2_hash_join_optimizatio.Execution.Effects.{over}
use p2_hash_join_optimizatio.Execution.Insert.{next}
use p2_hash_join_optimizatio.Execution.Insert.Values.{HasColumns, fresh_rows, insert-appends}

-- What a scan of `scan_attrs` is to return of the new rows, the first of which has number `row_id`.
unfoldable pub inserted : List ℕ → List ℕ → List Entry → ℕ → List Entry
inserted scan_attrs attrs [] row_id = []
inserted scan_attrs attrs (e ∷ entries) row_id =
    (project (project e.0 attrs) scan_attrs, row_id)
    ∷ inserted scan_attrs attrs entries (row_id + 1)

live_rows-append :
    (scan_attrs : List ℕ) (a b : List Row) (row_id : ℕ)
    → live_rows scan_attrs (a ++ b) row_id
      ≡ live_rows scan_attrs a row_id ++ live_rows scan_attrs b (row_id + length a)
unfolding live_rows
live_rows-append scan_attrs [] b row_id = rw add-zero
live_rows-append scan_attrs (row ∷ a) b row_id =
    let shift : row_id + 1 + length a ≡ row_id + suc (length a) = omega arith in
    elim (Bool-cases row.tuple_meta.is_deleted) [
      | inl gone ↦ rw (gone, live_rows-append scan_attrs a b (row_id + 1), shift)
      | inr live ↦ rw (live, live_rows-append scan_attrs a b (row_id + 1), shift)
    ]

live_rows-fresh_rows :
    (scan_attrs attrs : List ℕ) (entries : List Entry) (row_id : ℕ)
    → live_rows scan_attrs (fresh_rows attrs entries) row_id
      ≡ inserted scan_attrs attrs entries row_id
unfolding live_rows fresh_rows inserted
live_rows-fresh_rows scan_attrs attrs [] row_id = refl
live_rows-fresh_rows scan_attrs attrs (e ∷ entries) row_id =
    ap (λ r. (project (project e.0 attrs) scan_attrs, row_id) ∷ r)
      (live_rows-fresh_rows scan_attrs attrs entries (row_id + 1))

pub fresh_rows-Fits :
    (scan_attrs attrs : List ℕ) (entries : List Entry)
    → All (λ p. p < length attrs) scan_attrs
    → Fits scan_attrs (fresh_rows attrs entries)
unfolding fresh_rows
fresh_rows-Fits scan_attrs attrs [] h = tt
fresh_rows-Fits scan_attrs attrs (e ∷ entries) h =
    (rw (length-project e.0 attrs) h, fresh_rows-Fits scan_attrs attrs entries h)

pub length-fresh_rows :
    (attrs : List ℕ) (entries : List Entry) → length (fresh_rows attrs entries) ≡ length entries
unfolding fresh_rows
length-fresh_rows attrs [] = refl
length-fresh_rows attrs (e ∷ entries) = ap suc (length-fresh_rows attrs entries)

length-inserted :
    (scan_attrs attrs : List ℕ) (entries : List Entry) (row_id : ℕ)
    → length (inserted scan_attrs attrs entries row_id) ≡ length entries
unfolding inserted
length-inserted scan_attrs attrs [] row_id = refl
length-inserted scan_attrs attrs (e ∷ entries) row_id =
    ap suc (length-inserted scan_attrs attrs entries (row_id + 1))

-- The new rows are live, so that the scan has at least as many rows before it as they are.
pub fresh-live :
    (scan_attrs attrs : List ℕ) (left : List Row) (page : List Entry) (row_id : ℕ)
    → length page ≤ length (live_rows scan_attrs (left ++ fresh_rows attrs page) row_id)
fresh-live scan_attrs attrs left page row_id =
    rw (live_rows-append scan_attrs left (fresh_rows attrs page) row_id) (
      omega (
        arith,
        length-append (live_rows scan_attrs left row_id)
            (live_rows scan_attrs (fresh_rows attrs page) (row_id + length left)),
        ap length (live_rows-fresh_rows scan_attrs attrs page (row_id + length left)),
        length-inserted scan_attrs attrs page (row_id + length left),
      ))

module _ {C : Type 0} (child : Operator C) (table_name : String) (input_schema : Schema)
    (ctx : ExecutionContext) (attrs scan_attrs : List ℕ)
    (ignores : (fuel : ℕ) (catalog : Catalog) (s : C) (chunk : Chunk)
      → child.next fuel (over ctx catalog) s chunk ≡ child.next fuel ctx s chunk) where
  -- Over a child that does not read the catalog, whose schema has the input columns, and that
  -- returns, in finitely many calls and with enough fuel, rows which have them, into a table that
  -- is there and has no index, a call of InsertOperator::Next returns with enough fuel, and then
  -- the calls of a SeqScanOperator on the table after Init return what the table had, and behind it
  -- the fetched columns of the inserted tuples in their order, each with its row id; where the
  -- scanned columns are there in the table, in its rows and in the input columns, and the suggested
  -- size of a chunk is positive.
  pub insert_then_scan :
      (s : C) (input : List Entry) (table : Table) (scan : SeqScanOperator)
      → Delivers child ctx s input
      → lookup table_name ctx.catalog.tables ≡ some table
      → table.index_name ≡ invalid_name
      → get_key_attrs child.output_schema input_schema ≡ ok attrs
      → HasColumns attrs input
      → scan.table_name ≡ table_name
      → get_key_attrs table.schema scan.fetch_columns ≡ ok scan_attrs
      → Fits scan_attrs table.rows
      → All (λ p. p < length attrs) scan_attrs
      → 0 < ctx.config.chunk_suggest_size
      → (catalog : Catalog) × (s' : C) × (bound : ℕ) × ((fuel : ℕ) (chunk : Chunk)
          → bound < fuel
          → next child table_name input_schema fuel s chunk ctx
            ≡ (over ctx catalog, ok (exhausted, [], s')))
        × Produces
            (seq_scan_operator scan)
            (over ctx catalog)
            (record scan { next_row_id = 0 })
            (live_rows scan_attrs table.rows 0
              ++ inserted scan_attrs attrs input (length table.rows))
  insert_then_scan s input table scan p found no_index keys fits same scan_keys old new positive =
      let (catalog, s', run, fetched) =
        insert-appends child table_name input_schema ctx attrs ignores s input table p found
          no_index keys fits in
      let after : Table = record table { rows = table.rows ++ fresh_rows attrs input } in
      let rows : live_rows scan_attrs after.rows 0
          ≡ live_rows scan_attrs table.rows 0
            ++ inserted scan_attrs attrs input (length table.rows) =
        rw (
          live_rows-append scan_attrs table.rows (fresh_rows attrs input) 0,
          zero-add,
          live_rows-fresh_rows scan_attrs attrs input,
        ) in
      (
        catalog,
        s',
        p.bound + length p.chunks,
        run,
        rw (← rows) (
            seq_scan_operator-Produces (over ctx catalog) scan after scan_attrs (rw same fetched)
              scan_keys
              (All-append _ table.rows (fresh_rows attrs input) old
                (fresh_rows-Fits scan_attrs attrs input new))
              positive),
      )
