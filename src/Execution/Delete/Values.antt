-- ===== src/Execution/Delete/Values.antt =====
-- Deletions over a child that walks the table.
use p2_hash_join_optimizatio.Common.{
  ℕ, suc, ◌+◌, ◌<◌, ◌≤◌, ◌≡◌, refl, sym, ap, subst, ◌∙◌, String, List, [], ◌∷◌, append-nil, flatten,
  some, ok, arith, length, drop, drop-drop, All, All-append_left, All-append_right, by_fuel,
}
use p2_hash_join_optimizatio.Common.Assoc.{lookup}
use p2_hash_join_optimizatio.Types.{invalid_id}
use p2_hash_join_optimizatio.Storage.Table.{Table, Row}
use p2_hash_join_optimizatio.Storage.Catalog.{Catalog, fetch_table}
use p2_hash_join_optimizatio.Execution.Operator.{
  ExecutionContext, Entry, Chunk, Operator, exhausted,
}
use p2_hash_join_optimizatio.Execution.Operator.Walks.{Reads, ended, again, Walks}
use p2_hash_join_optimizatio.Execution.Effects.{◌>>=◌, over}
use p2_hash_join_optimizatio.Execution.Effects.Writes.{put_rows-puts}
use p2_hash_join_optimizatio.Execution.RowOps.Changes.{
  rows_after, rows_after-append, rows_after-nil, drop-rows_after, length-rows_after,
}
use p2_hash_join_optimizatio.Execution.Delete.{delete_rows, delete_loop, next}
use p2_hash_join_optimizatio.Execution.Delete.Marks.{
  deletes, IsThere, All-IsThere, delete_row-IsThere, valid_id,
}

module _ (table_name : String) where
  delete_rows-deletes :
      (entries : Chunk) (ctx : ExecutionContext) (table : Table)
      → lookup table_name ctx.catalog.tables ≡ some table
      → All (IsThere table.rows) entries
      → length table.rows ≤ invalid_id
      → (catalog : Catalog) × (delete_rows table_name entries ctx ≡ (over ctx catalog, ok tt))
        × (lookup table_name catalog.tables
            ≡ some (record table { rows = rows_after deletes entries table.rows 0 }))
  unfolding delete_rows fetch_table
  delete_rows-deletes [] ctx table found there few =
      (ctx.catalog, refl, rw (rows_after-nil deletes table.rows 0) found)
  delete_rows-deletes (e ∷ entries) ctx table found (this, there) few =
      let rows = rows_after deletes (e ∷ []) table.rows 0 in
      let (catalog, put, found') = put_rows-puts table_name table ctx rows found in
      let fetched : fetch_table ctx.catalog table_name ≡ ok table = rw (fetch_table, found) in
      let (catalog', run, found'') =
        delete_rows-deletes entries (over ctx catalog) (record table { rows = rows }) found'
          (All-IsThere (e ∷ []) entries table.rows there)
          (rw (length-rows_after deletes (e ∷ []) table.rows 0) few) in
      (
        catalog',
        rw
            (
              ◌>>=◌,
              valid_id e table.rows this few,
              fetched,
              delete_row-IsThere e table.rows this,
              put,
              put,
            )
            run,
        found''
            ∙ ap (λ r. some (record table { rows = r }))
                (sym (rows_after-append deletes (e ∷ []) entries table.rows 0)),
      )

module _ {C : Type 0} (child : Operator C) (table_name : String) (ctx : ExecutionContext)
    (table : Table) where
  delete_loop-deletes :
      (n : ℕ) {s : C} {row_id : ℕ} {rest : List Row} {chunks : List Chunk} (catalog : Catalog)
      (rows : List Row)
      → Reads child ctx table_name table n s row_id rest chunks
      → lookup table_name catalog.tables ≡ some (record table { rows = rows })
      → drop row_id rows ≡ rest
      → All (IsThere rows) (flatten chunks)
      → length rows ≤ invalid_id
      → (catalog' : Catalog) × (s' : C) × ((chunk : Chunk) (fuel : ℕ)
          → n + length chunks < fuel
          → delete_loop child table_name fuel s chunk (over ctx catalog)
            ≡ (over ctx catalog', ok s'))
        × (lookup table_name catalog'.tables
            ≡ some (record table { rows = rows_after deletes (flatten chunks) rows 0 }))
  unfolding delete_loop flatten
  delete_loop-deletes n catalog rows (ended {s' = s'} {out = out} y) found left there few =
      let (catalog', run, found') =
        delete_rows-deletes table_name out (over ctx catalog) (record table { rows = rows }) found
          (rw append-nil at there) few in
      (
        catalog',
        s',
        λ chunk.
            by_fuel _ (n + 1)
              (λ g h. rw (◌>>=◌, y catalog rows found left g chunk (omega arith), run, run)),
        rw append-nil found',
      )
  delete_loop-deletes n {row_id = row_id} catalog rows
        (again {s' = s'} {out = out} {chunks = chunks} seen y below st) found left there few =
      let rows₁ = rows_after deletes out rows 0 in
      let from_start : row_id + seen ≡ 0 + (row_id + seen) = omega arith in
      let below' = subst (λ k. All (λ (e : Entry). e.1 < k) out) from_start below in
      let left₁ : drop (row_id + seen) rows₁ ≡ drop seen _ =
        drop-rows_after deletes out (row_id + seen) 0 rows below'
        ∙ sym (drop-drop row_id seen rows)
        ∙ ap (drop seen) left in
      let (catalog₁, run, found₁) =
        delete_rows-deletes table_name out (over ctx catalog) (record table { rows = rows }) found
          (All-append_left _ out (flatten chunks) there) few in
      let (catalog', s'', loop, found') =
        delete_loop-deletes n catalog₁ rows₁ st found₁ left₁
          (All-IsThere out (flatten chunks) rows (All-append_right _ out (flatten chunks) there))
          (rw (length-rows_after deletes out rows 0) few) in
      (
        catalog',
        s'',
        λ chunk. by_fuel _ (n + suc (length chunks)) (λ g h.
            rw (◌>>=◌, y catalog rows found left g chunk (omega arith), run, run)
              (loop out g (omega arith))),
        found'
            ∙ ap (λ r. some (record table { rows = r }))
                (sym (rows_after-append deletes out (flatten chunks) rows 0)),
      )

  -- The whole call.
  pub delete-deletes :
      (s : C) (input : List Entry)
      → Walks child ctx table_name table s input
      → lookup table_name ctx.catalog.tables ≡ some table
      → All (IsThere table.rows) input
      → length table.rows ≤ invalid_id
      → (catalog : Catalog) × (s' : C) × ((fuel : ℕ) (output_chunk : Chunk)
          → length table.rows + length table.rows + 1 < fuel
          → next child table_name fuel s output_chunk ctx
            ≡ (over ctx catalog, ok (exhausted, [], s')))
        × (lookup table_name catalog.tables
            ≡ some (record table { rows = rows_after deletes input table.rows 0 }))
  unfolding next fetch_table
  delete-deletes s input w found there few =
      let (catalog, s', loop, found') =
        delete_loop-deletes (length table.rows) ctx.catalog table.rows w.reads found refl
          (rw w.total there) few in
      let fetched : fetch_table ctx.catalog table_name ≡ ok table = rw (fetch_table, found) refl in
      (
        catalog,
        s',
        λ fuel output_chunk enough.
            let run = loop [] fuel (omega (arith, enough, w.few)) in
            rw (◌>>=◌, fetched, run, run) refl,
        rw (found', w.total) refl,
      )
