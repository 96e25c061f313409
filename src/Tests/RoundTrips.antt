-- ===== src/Tests/RoundTrips.antt =====
-- An insert of two rows into a table without an index, and a scan of it.
use p2_hash_join_optimizatio.Common.{ℕ, ◌<◌, ◌≡◌, refl, pos, [], ◌∷◌, ◌++◌, ok, arith, length}
use p2_hash_join_optimizatio.Common.Assoc.{lookup}
use p2_hash_join_optimizatio.Types.{get_key_attr, get_key_attrs}
use p2_hash_join_optimizatio.Storage.Catalog.{Catalog}
use p2_hash_join_optimizatio.Execution.Operator.{Chunk, exhausted}
use p2_hash_join_optimizatio.Execution.Operator.Contract.{Produces, delivered}
use p2_hash_join_optimizatio.Execution.Value.{ValueOperator, value_operator}
use p2_hash_join_optimizatio.Execution.Value.Rows.{
  value_operator-Produces, value_operator-over, as_rows,
}
use p2_hash_join_optimizatio.Execution.SeqScan.{seq_scan_operator}
use p2_hash_join_optimizatio.Execution.SeqScan.Rows.{live_rows}
use p2_hash_join_optimizatio.Execution.Effects.{over}
use p2_hash_join_optimizatio.Execution.Insert.{next}
use p2_hash_join_optimizatio.Execution.Insert.RoundTrip.{inserted, insert_then_scan}
use p2_hash_join_optimizatio.Tests.Scans.{ctx, items, prices}

-- The columns stand in another order than in the table.
abbrev new_items : ValueOperator
new_items = record {
  output_schema = "price" ∷ "id" ∷ [];
  tuples = (pos 40 ∷ pos 4 ∷ []) ∷ (pos 50 ∷ pos 5 ∷ []) ∷ [];
  next_tuple_id = 0;
}

insert_then_scan_example :
    (catalog : Catalog) × (s' : ValueOperator) × (bound : ℕ) × ((fuel : ℕ) (chunk : Chunk)
      → bound < fuel
      → next (value_operator new_items) "items" ("id" ∷ "price" ∷ []) fuel new_items chunk ctx
        ≡ (over ctx catalog, ok (exhausted, [], s')))
    × Produces
        (seq_scan_operator prices)
        (over ctx catalog)
        (record prices { next_row_id = 0 })
        (live_rows (1 ∷ []) items.rows 0
          ++ inserted (1 ∷ []) (1 ∷ 0 ∷ []) (as_rows new_items.tuples) (length items.rows))
unfolding lookup get_key_attrs get_key_attr value_operator
insert_then_scan_example =
    insert_then_scan (value_operator new_items) "items" ("id" ∷ "price" ∷ []) ctx (1 ∷ 0 ∷ [])
      (1 ∷ []) (λ fuel catalog s chunk. value_operator-over new_items fuel ctx catalog s chunk)
      new_items (as_rows new_items.tuples) items prices
      (delivered (value_operator new_items) ctx
        (value_operator-Produces ctx new_items (omega arith)))
      refl refl refl ((omega arith, (omega arith, tt)), ((omega arith, (omega arith, tt)), tt)) refl
      refl ((omega arith, tt), ((omega arith, tt), ((omega arith, tt), tt))) (omega arith, tt)
      (omega arith)
