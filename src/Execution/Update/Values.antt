-- ===== src/Execution/Update/Values.antt =====
-- src/execution/update_operator.cpp: updates without an index, over a child that walks the table.
use p2_hash_join_optimizatio.Common.{
  ℕ, suc, ◌+◌, ◌<◌, ◌≤◌, ◌≡◌, refl, sym, ap, subst, ◌∙◌, String, List, [], ◌∷◌, append-nil, flatten,
  Option, none, some, ok, arith, length, drop, drop-drop, All, All-append_left, All-append_right,
  by_fuel,
}
use p2_hash_join_optimizatio.Common.Assoc.{lookup}
use p2_hash_join_optimizatio.Types.{Schema, invalid_name, invalid_id}
use p2_hash_join_optimizatio.Storage.Table.{Table, Row}
use p2_hash_join_optimizatio.Storage.Catalog.{Catalog, fetch_table}
use p2_hash_join_optimizatio.Execution.Operator.{
  ExecutionContext, Entry, Chunk, Operator, exhausted,
}
use p2_hash_join_optimizatio.Execution.Operator.Walks.{Reads, ended, again, Walks}
use p2_hash_join_optimizatio.Execution.Effects.{◌>>=◌, over}
use p2_hash_join_optimizatio.Execution.Effects.Writes.{put_rows-puts}
use p2_hash_join_optimizatio.Execution.Insert.Values.{index_key-none}
use p2_hash_join_optimizatio.Execution.Update.{
  update_rows, update_loop, input_attrs, delete_changed, insert_changed, next,
}
use p2_hash_join_optimizatio.Execution.RowOps.Changes.{
  rows_after, rows_after-append, rows_after-nil, drop-rows_after, length-rows_after,
}
use p2_hash_join_optimizatio.Execution.Update.InPlace.{takes, Fits, All-Fits, update_row-Fits}

module _ (table_name : String) (key_attrs : Option (List ℕ)) where
  pub update_rows-updates :
      (entries : Chunk) (ctx : ExecutionContext) (table : Table)
      → lookup table_name ctx.catalog.tables ≡ some table
      → All (Fits key_attrs table.rows) entries
      → length table.rows ≤ invalid_id
      → (catalog : Catalog) × (update_rows table_name key_attrs none entries ctx
          ≡ (over ctx catalog, ok []))
        × (lookup table_name catalog.tables
            ≡ some (record table { rows = rows_after (takes key_attrs) entries table.rows 0 }))
  unfolding update_rows fetch_table
  update_rows-updates [] ctx table found fits few =
      (ctx.catalog, refl, rw (rows_after-nil (takes key_attrs) table.rows 0) found)
  update_rows-updates (e ∷ entries) ctx table found (fit, fits) few =
      let rows = rows_after (takes key_attrs) (e ∷ []) table.rows 0 in
      let (catalog, put, found') = put_rows-puts table_name table ctx rows found in
      let fetched : fetch_table ctx.catalog table_name ≡ ok table = rw (fetch_table, found) in
      let (catalog', run, found'') =
        update_rows-updates entries (over ctx catalog) (record table { rows = rows }) found'
          (All-Fits key_attrs (e ∷ []) entries table.rows fits)
          (rw (length-rows_after (takes key_attrs) (e ∷ []) table.rows 0) few) in
      (
        catalog',
        rw (◌>>=◌, fetched, update_row-Fits key_attrs e table.rows fit few, put, put, run, put, run)
            refl,
        found''
            ∙ ap (λ r. some (record table { rows = r }))
                (sym (rows_after-append (takes key_attrs) (e ∷ []) entries table.rows 0)),
      )

module _ {C : Type 0} (child : Operator C) (table_name : String) (input_schema : Option Schema)
    (ctx : ExecutionContext) (key_attrs : Option (List ℕ)) (table : Table) where
  update_loop-updates :
      (n : ℕ) {s : C} {row_id : ℕ} {rest : List Row} {chunks : List Chunk} (catalog : Catalog)
      (rows : List Row)
      → Reads child ctx table_name table n s row_id rest chunks
      → lookup table_name catalog.tables ≡ some (record table { rows = rows })
      → drop row_id rows ≡ rest
      → All (Fits key_attrs rows) (flatten chunks)
      → length rows ≤ invalid_id
      → (catalog' : Catalog) × (s' : C) × ((chunk : Chunk) (fuel : ℕ)
          → n + length chunks < fuel
          → update_loop child table_name input_schema fuel key_attrs none s chunk []
              (over ctx catalog)
            ≡ (over ctx catalog', ok (s', [])))
        × (lookup table_name catalog'.tables
            ≡ some (record table { rows = rows_after (takes key_attrs) (flatten chunks) rows 0 }))
  unfolding update_loop flatten
  update_loop-updates n catalog rows (ended {s' = s'} {out = out} y) found left fits few =
      let (catalog', run, found') =
        update_rows-updates table_name key_attrs out (over ctx catalog)
          (record table { rows = rows }) found (rw append-nil at fits) few in
      (
        catalog',
        s',
        λ chunk.
            by_fuel _ (n + 1)
              (λ g h. rw (◌>>=◌, y catalog rows found left g chunk (omega arith), run, run)),
        rw append-nil found',
      )
  update_loop-updates n {row_id = row_id} catalog rows
        (again {s' = s'} {out = out} {chunks = chunks} seen y below st) found left fits few =
      let rows₁ = rows_after (takes key_attrs) out rows 0 in
      let from_start : row_id + seen ≡ 0 + (row_id + seen) = omega arith in
      let below' = subst (λ k. All (λ (e : Entry). e.1 < k) out) from_start below in
      let left₁ : drop (row_id + seen) rows₁ ≡ drop seen _ =
        drop-rows_after (takes key_attrs) out (row_id + seen) 0 rows below'
        ∙ sym (drop-drop row_id seen rows)
        ∙ ap (drop seen) left in
      let (catalog₁, run, found₁) =
        update_rows-updates table_name key_attrs out (over ctx catalog)
          (record table { rows = rows }) found (All-append_left _ out (flatten chunks) fits) few in
      let (catalog', s'', loop, found') =
        update_loop-updates n catalog₁ rows₁ st found₁ left₁
          (All-Fits key_attrs out (flatten chunks) rows
            (All-append_right _ out (flatten chunks) fits))
          (rw (length-rows_after (takes key_attrs) out rows 0) few) in
      (
        catalog',
        s'',
        λ chunk. by_fuel _ (n + suc (length chunks)) (λ g h.
            rw (◌>>=◌, y catalog rows found left g chunk (omega arith), run, run)
              (loop out g (omega arith))),
        found'
            ∙ ap (λ r. some (record table { rows = r }))
                (sym (rows_after-append (takes key_attrs) out (flatten chunks) rows 0)),
      )

  -- The whole call, over a child that walks the table.
  pub update-replaces :
      (s : C) (input : List Entry)
      → (w : Walks child ctx table_name table s input)
      → lookup table_name ctx.catalog.tables ≡ some table
      → table.index_name ≡ invalid_name
      → input_attrs child table_name input_schema ≡ ok key_attrs
      → All (Fits key_attrs table.rows) input
      → length table.rows ≤ invalid_id
      → (catalog : Catalog) × (s' : C) × ((fuel : ℕ)
          → length table.rows + length table.rows + 1 < fuel
          → next child table_name input_schema fuel s ctx ≡ (over ctx catalog, ok (exhausted, s')))
        × (fetch_table catalog table_name
            ≡ ok (record table { rows = rows_after (takes key_attrs) input table.rows 0 }))
  unfolding next fetch_table delete_changed insert_changed
  update-replaces s input w found no_index keys fits few =
      let (catalog, s', loop, found') =
        update_loop-updates (length table.rows) ctx.catalog table.rows w.reads found refl
          (rw w.total fits) few in
      let fetched : fetch_table ctx.catalog table_name ≡ ok table = rw (fetch_table, found) in
      let no_key = index_key-none table_name ctx table fetched no_index in
      (
        catalog,
        s',
        λ fuel enough. rw (
          ◌>>=◌,
          fetched,
          keys,
          no_key,
          no_key,
          loop [] fuel (omega (arith, enough, w.few)),
          no_key,
          loop [] fuel (omega (arith, enough, w.few)),
        ),
        rw (fetch_table, found', w.total),
      )
