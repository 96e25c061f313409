-- ===== src/Execution/Insert/Values.antt =====
-- src/execution/insert_operator.cpp: insertions without an index, from a child that does not read the catalog.
use p2_hash_join_optimizatio.Common.{
  ℕ, suc, ◌+◌, ◌<◌, ◌≡◌, refl, ap, true, String, List, [], ◌∷◌, ◌++◌, append_assoc, append-nil,
  flatten, none, some, ok, arith, length, All, All-append_left, All-append_right, by_fuel, str_eq,
  eq_iff,
}
use p2_hash_join_optimizatio.Common.Assoc.{lookup}
use p2_hash_join_optimizatio.Types.{Schema, invalid_name, get_key_attrs}
use p2_hash_join_optimizatio.Types.Lookup.{project, keys_from_tuple-project}
use p2_hash_join_optimizatio.Storage.Table.{Table, Row, fresh_meta}
use p2_hash_join_optimizatio.Storage.Catalog.{Catalog, fetch_table}
use p2_hash_join_optimizatio.Execution.Operator.{
  ExecutionContext, Entry, Chunk, Operator, exhausted,
}
use p2_hash_join_optimizatio.Execution.Operator.Contract.{Streams, last, more, Delivers}
use p2_hash_join_optimizatio.Execution.Effects.{◌>>=◌, over}
use p2_hash_join_optimizatio.Execution.Effects.Writes.{put_rows-puts}
use p2_hash_join_optimizatio.Execution.RowOps.{insert_row_wo_index}
use p2_hash_join_optimizatio.Execution.Insert.{index_key, insert_rows, insert_loop, next}

-- The rows that the tuples of the entries become.
unfoldable pub fresh_rows : List ℕ → List Entry → List Row
fresh_rows attrs [] = []
fresh_rows attrs (e ∷ entries) =
    record { tuple = project e.0 attrs; tuple_meta = fresh_meta } ∷ fresh_rows attrs entries

-- Every entry has the columns.
abbrev pub HasColumns : List ℕ → List Entry → Type 0
HasColumns attrs entries = All (λ e. All (λ p. p < length e.0) attrs) entries

module _ (table_name : String) (attrs : List ℕ) where
  pub insert_rows-appends :
      (rows : Chunk) (ctx : ExecutionContext) (table : Table)
      → lookup table_name ctx.catalog.tables ≡ some table
      → HasColumns attrs rows
      → (catalog : Catalog) × (insert_rows table_name attrs none rows ctx
          ≡ (over ctx catalog, ok tt))
        × (lookup table_name catalog.tables
            ≡ some (record table { rows = table.rows ++ fresh_rows attrs rows }))
  unfolding insert_rows fresh_rows fetch_table insert_row_wo_index
  insert_rows-appends [] ctx table found fits = (ctx.catalog, refl, rw append-nil found)
  insert_rows-appends (e ∷ rows) ctx table found (fit, fits) =
      let tuple = project e.0 attrs in
      let fetched : fetch_table ctx.catalog table_name ≡ ok table = rw (fetch_table, found) in
      let (catalog, put, found') =
        put_rows-puts table_name table ctx (insert_row_wo_index tuple table.rows) found in
      let (catalog', run, found'') = insert_rows-appends rows (over ctx catalog) _ found' fits in
      (
        catalog',
        rw (◌>>=◌, keys_from_tuple-project e.0 attrs fit, fetched, put, put) run,
        rw
            (← append_assoc table.rows (record { tuple = tuple; tuple_meta = fresh_meta } ∷ [])
              (fresh_rows attrs rows))
            found'',
      )

fresh_rows-append :
    (attrs : List ℕ) (a b : List Entry)
    → fresh_rows attrs (a ++ b) ≡ fresh_rows attrs a ++ fresh_rows attrs b
unfolding fresh_rows
fresh_rows-append attrs [] b = refl
fresh_rows-append attrs (e ∷ a) b =
    ap (λ r. record { tuple = project e.0 attrs; tuple_meta = fresh_meta } ∷ r)
      (fresh_rows-append attrs a b)

pub index_key-none :
    (table_name : String) (ctx : ExecutionContext) (table : Table)
    → fetch_table ctx.catalog table_name ≡ ok table
    → table.index_name ≡ invalid_name
    → index_key table_name ctx ≡ (ctx, ok none)
unfolding index_key
index_key-none table_name ctx table fetched no_index =
    let none_named : str_eq table.index_name invalid_name ≡ true =
      (eq_iff table.index_name invalid_name).1 no_index in
    rw (index_key, ◌>>=◌, fetched, none_named)

module _ {C : Type 0} (child : Operator C) (table_name : String) (input_schema : Schema)
    (ctx : ExecutionContext) (attrs : List ℕ)
    (ignores : (fuel : ℕ) (catalog : Catalog) (s : C) (chunk : Chunk)
      → child.next fuel (over ctx catalog) s chunk ≡ child.next fuel ctx s chunk) where
  insert_loop-appends :
      (n : ℕ) {s : C} {chunks : List Chunk} (catalog : Catalog) (table : Table)
      → Streams child ctx n s chunks
      → lookup table_name catalog.tables ≡ some table
      → HasColumns attrs (flatten chunks)
      → (catalog' : Catalog) × (s' : C) × ((chunk : Chunk) (fuel : ℕ)
          → n + length chunks < fuel
          → insert_loop child table_name input_schema fuel attrs none s chunk (over ctx catalog)
            ≡ (over ctx catalog', ok s'))
        × (lookup table_name catalog'.tables
            ≡ some (record table { rows = table.rows ++ fresh_rows attrs (flatten chunks) }))
  unfolding insert_loop flatten
  insert_loop-appends n catalog table (last {s' = s'} {out} y) found fits =
      let (catalog', run, found') =
        insert_rows-appends table_name attrs out (over ctx catalog) table found
          (rw append-nil at fits) in
      (
        catalog',
        s',
        λ chunk.
            by_fuel _ (n + 1)
              (λ g h. rw (◌>>=◌, ignores g catalog, y g chunk (omega arith), run, run)),
        rw append-nil found',
      )
  insert_loop-appends n catalog table (more {s'} {out} {rest} y st) found fits =
      let (catalog₁, run, found₁) =
        insert_rows-appends table_name attrs out (over ctx catalog) table found
          (All-append_left _ out (flatten rest) fits) in
      let (catalog', s'', loop, found') =
        insert_loop-appends n catalog₁ _ st found₁ (All-append_right _ out (flatten rest) fits) in
      (
        catalog',
        s'',
        λ chunk. by_fuel _ (n + suc (length rest)) (λ g h.
            rw (◌>>=◌, ignores g catalog, y g chunk (omega arith), run, run)
              (loop out g (omega arith))),
        rw
            (
              fresh_rows-append attrs out (flatten rest),
              ← append_assoc table.rows (fresh_rows attrs out) (fresh_rows attrs (flatten rest)),
            )
            found',
      )

  -- The whole call.
  pub insert-appends :
      (s : C) (input : List Entry) (table : Table)
      → (p : Delivers child ctx s input) → lookup table_name ctx.catalog.tables ≡ some table
      → table.index_name ≡ invalid_name
      → get_key_attrs child.output_schema input_schema ≡ ok attrs
      → HasColumns attrs input
      → (catalog : Catalog) × (s' : C) × ((fuel : ℕ) (chunk : Chunk)
          → p.bound + length p.chunks < fuel
          → next child table_name input_schema fuel s chunk ctx
            ≡ (over ctx catalog, ok (exhausted, [], s')))
        × (fetch_table catalog table_name
            ≡ ok (record table { rows = table.rows ++ fresh_rows attrs input }))
  unfolding next fetch_table
  insert-appends s input table p found no_index keys fits =
      let (catalog, s', loop, found') =
        insert_loop-appends p.bound ctx.catalog table p.streams found (rw p.total fits) in
      let fetched : fetch_table ctx.catalog table_name ≡ ok table = rw (fetch_table, found) in
      let no_key = index_key-none table_name ctx table fetched no_index in
      (
        catalog,
        s',
        λ fuel chunk enough. rw (
          ◌>>=◌,
          fetched,
          keys,
          no_key,
          no_key,
          loop [] fuel enough,
          no_key,
          loop [] fuel enough,
        ),
        rw (fetch_table, found', p.total),
      )
