-- ===== src/Execution/Insert/OfScan.antt =====
-- src/execution/insert_operator.cpp over seq_scan_operator.cpp: an insertion into a table of the rows
-- that a scan of the same table returns.
use p2_hash_join_optimizatio.Common.{
  ℕ, zero, suc, ◌+◌, ◌≤◌, ◌<◌, ◌≡◌, refl, ap, ◌∙◌, inl, inr, List, [], ◌++◌, append-nil,
  append_assoc, none, some, ok, err, out_of_fuel, arith, length, length-append, drop, drop-append,
  length-drop, All, All-map, All-append, ltb, ltb→lt, ltb_false→le, Bool-cases,
}
use p2_hash_join_optimizatio.Common.Assoc.{lookup}
use p2_hash_join_optimizatio.Types.{Schema, invalid_name, get_key_attrs}
use p2_hash_join_optimizatio.Storage.Table.{Table, Row}
use p2_hash_join_optimizatio.Storage.Catalog.{Catalog, fetch_table}
use p2_hash_join_optimizatio.Execution.Operator.{ExecutionContext, Chunk, have_more_output}
use p2_hash_join_optimizatio.Execution.Effects.{◌>>=◌, over}
use p2_hash_join_optimizatio.Execution.SeqScan.{SeqScanOperator, next_loop, seq_scan_operator}
use p2_hash_join_optimizatio.Execution.SeqScan
use p2_hash_join_optimizatio.Execution.SeqScan.Loop.{
  live_rows, Fits, Filled, next_loop-Outcome, live_rows-Wide,
}
use p2_hash_join_optimizatio.Execution.SeqScan.Fuel.{next_loop-fuel}
use p2_hash_join_optimizatio.Execution.Insert.{insert_loop, next}
use p2_hash_join_optimizatio.Execution.Insert.Values.{
  HasColumns, fresh_rows, insert_rows-appends, index_key-none,
}
use p2_hash_join_optimizatio.Execution.Insert.RoundTrip.{
  fresh_rows-Fits, length-fresh_rows, fresh-live,
}

module _ (q : SeqScanOperator) (table : Table) (input_schema : Schema) (ctx : ExecutionContext)
    (scan_attrs attrs : List ℕ) (positive : 0 < ctx.config.chunk_suggest_size)
    (keys : get_key_attrs table.schema q.fetch_columns ≡ ok scan_attrs)
    (read : All (λ p. p < length scan_attrs) attrs)
    (written : All (λ p. p < length attrs) scan_attrs) where
  abbrev chunk_size : ℕ
  chunk_size = ctx.config.chunk_suggest_size

  page-HasColumns :
      (rows : List Row) (row_id : ℕ) → HasColumns attrs (live_rows scan_attrs rows row_id)
  page-HasColumns rows row_id =
      All-map _ _ (λ e wide. All-map _ _ (λ p lt. rw wide lt) attrs read) _
        (live_rows-Wide scan_attrs rows row_id)

  -- What the loop of the insertion has done when its fuel is used up: it has written at least a row
  -- for each round.
  abbrev Grown : ℕ → Catalog → List Row → List Row → SeqScanOperator → Chunk → Type 0
  Grown fuel catalog rows rest s chunk =
      (catalog' : Catalog) × (more : List Row) × (insert_loop (seq_scan_operator q) q.table_name
          input_schema fuel attrs none s chunk (over ctx catalog)
        ≡ (over ctx catalog', err out_of_fuel))
      × (lookup q.table_name catalog'.tables ≡ some (record table { rows = rows ++ more }))
      × (fuel ≤ length rest + length more + 1)

  record Ready (catalog : Catalog) (rows rest : List Row) (s : SeqScanOperator) : Type 0 where
    found : lookup q.table_name catalog.tables ≡ some (record table { rows = rows })
    same : s ≡ record q { next_row_id = s.next_row_id }
    left : drop s.next_row_id rows ≡ rest
    fits : Fits scan_attrs rest
    plenty : chunk_size ≤ length (live_rows scan_attrs rest s.next_row_id)

  -- A chunk that the scan has filled makes as many rows that it has yet to come to.
  page-Ready :
      (catalog catalog' : Catalog) (rows rest : List Row) (s : SeqScanOperator)
      → Ready catalog rows rest s
      → (f : Filled chunk_size rows scan_attrs rest s.next_row_id 0)
      → lookup q.table_name catalog'.tables
        ≡ some (record table {
          rows = rows ++ fresh_rows attrs (live_rows scan_attrs f.seen s.next_row_id);
        })
      → Ready catalog'
          (rows ++ fresh_rows attrs (live_rows scan_attrs f.seen s.next_row_id))
          (f.left ++ fresh_rows attrs (live_rows scan_attrs f.seen s.next_row_id))
          (record s { next_row_id = f.id' })
  page-Ready catalog catalog' rows rest s r f found' =
      let page = live_rows scan_attrs f.seen s.next_row_id in
      let inside : f.id' ≤ length rows = omega (
        arith,
        f.stands,
        f.less,
        f.large,
        ap length f.parts,
        length-append f.seen f.left,
        ap length r.left,
        length-drop s.next_row_id rows,
      ) in
      record {
        found = found';
        same = ap (λ (t : SeqScanOperator). record t { next_row_id = f.id' }) r.same;
        left = rw (drop-append f.id' rows (fresh_rows attrs page) inside, f.drops) refl;
        fits =
            All-append _ f.left (fresh_rows attrs page) f.fits
              (fresh_rows-Fits scan_attrs attrs page written);
        plenty = omega (arith, f.large, fresh-live scan_attrs attrs f.left page f.id');
      }

  -- A round that gets a full chunk, and the rounds after it.
  round-Grown :
      (fuel : ℕ) (catalog : Catalog) (rows rest : List Row) (s : SeqScanOperator) (chunk : Chunk)
      → (r : Ready catalog rows rest s) (f : Filled chunk_size rows scan_attrs rest s.next_row_id 0)
      → next_loop fuel chunk_size rows scan_attrs s.next_row_id chunk 0
        ≡ ok (have_more_output, live_rows scan_attrs f.seen s.next_row_id, f.id')
      → ((catalog' : Catalog) (rows' rest' : List Row) (s' : SeqScanOperator) (chunk' : Chunk)
          → Ready catalog' rows' rest' s'
          → Grown fuel catalog' rows' rest' s' chunk')
      → Grown (suc fuel) catalog rows rest s chunk
  unfolding insert_loop seq_scan_operator SeqScan.next fetch_table
  round-Grown fuel catalog rows rest s chunk r f run again =
      let page = live_rows scan_attrs f.seen s.next_row_id in
      let s' : SeqScanOperator = record s { next_row_id = f.id' } in
      let (catalog₁, wrote, found₁) =
        insert_rows-appends q.table_name attrs page (over ctx catalog)
          (record table { rows = rows }) r.found (page-HasColumns f.seen s.next_row_id) in
      let (catalog₂, more, after, found₂, bound) =
        again catalog₁ (rows ++ fresh_rows attrs page) (f.left ++ fresh_rows attrs page) s' page
          (page-Ready catalog catalog₁ rows rest s r f found₁) in
      let fetched : fetch_table catalog s.table_name ≡ ok (record table { rows = rows }) =
        ap (λ (t : SeqScanOperator). fetch_table catalog t.table_name) r.same
        ∙ rw (fetch_table, r.found) refl in
      let columns : get_key_attrs table.schema s.fetch_columns ≡ ok scan_attrs =
        ap (λ (t : SeqScanOperator). get_key_attrs table.schema t.fetch_columns) r.same ∙ keys in
      (
        catalog₂,
        fresh_rows attrs page ++ more,
        rw (◌>>=◌, fetched, columns, run, wrote, wrote) after,
        rw (append_assoc rows (fresh_rows attrs page) more) at found₂,
        omega (
          arith,
          bound,
          f.less,
          f.large,
          length-append f.left (fresh_rows attrs page),
          length-append (fresh_rows attrs page) more,
          length-fresh_rows attrs page,
        ),
      )

  -- The scan itself runs out of fuel.
  stopped-Grown :
      (fuel : ℕ) (catalog : Catalog) (rows rest : List Row) (s : SeqScanOperator) (chunk : Chunk)
      → Ready catalog rows rest s
      → fuel ≤ length rest
      → next_loop fuel chunk_size rows scan_attrs s.next_row_id chunk 0 ≡ err out_of_fuel
      → Grown (suc fuel) catalog rows rest s chunk
  unfolding insert_loop seq_scan_operator SeqScan.next fetch_table
  stopped-Grown fuel catalog rows rest s chunk r little stop =
      let fetched : fetch_table catalog s.table_name ≡ ok (record table { rows = rows }) =
        ap (λ (t : SeqScanOperator). fetch_table catalog t.table_name) r.same
        ∙ rw (fetch_table, r.found) refl in
      let columns : get_key_attrs table.schema s.fetch_columns ≡ ok scan_attrs =
        ap (λ (t : SeqScanOperator). get_key_attrs table.schema t.fetch_columns) r.same ∙ keys in
      (catalog, [], rw (◌>>=◌, fetched, columns, stop) refl, rw append-nil r.found, omega arith)

  insert_loop-Grown :
      (fuel : ℕ) (catalog : Catalog) (rows rest : List Row) (s : SeqScanOperator) (chunk : Chunk)
      → Ready catalog rows rest s
      → Grown fuel catalog rows rest s chunk
  unfolding insert_loop
  insert_loop-Grown zero catalog rows rest s chunk r =
      (catalog, [], refl, rw append-nil r.found, omega arith)
  insert_loop-Grown (suc fuel) catalog rows rest s chunk r =
      elim (next_loop-Outcome chunk_size rows scan_attrs rest s.next_row_id 0 r.left r.fits) [
        | inl (id', few, run) ↦ absurd (omega (arith, few, r.plenty))
        | inr f ↦
            let go =
              λ (run : next_loop fuel chunk_size rows scan_attrs s.next_row_id chunk 0
                  ≡ ok (have_more_output, live_rows scan_attrs f.seen s.next_row_id, f.id')).
                round-Grown fuel catalog rows rest s chunk r f run (insert_loop-Grown fuel) in
            elim (Bool-cases (ltb (length rest) fuel)) [
              | inl enough ↦ go (f.run chunk (omega arith) fuel (ltb→lt (length rest) fuel enough))
              | inr short ↦
                  let little = ltb_false→le (length rest) fuel short in
                  elim (next_loop-fuel chunk_size rows scan_attrs fuel (suc (length rest))
                    s.next_row_id chunk 0 (omega (arith, little))) [
                      | inl stop ↦ stopped-Grown fuel catalog rows rest s chunk r little stop
                      | inr same ↦
                          go (same ∙ f.run chunk (omega arith) (suc (length rest)) (omega arith))
                    ]
            ]
      ]

  -- Where a table without an index has at least as many live rows as the suggested size of a chunk,
  -- which is positive, and the scanned columns are there in the table, in its rows and in the rows
  -- that are written; and where the input columns are found in the output schema of the scan, at
  -- positions of scanned columns: InsertOperator::Next over a SeqScanOperator on the same table
  -- after Init never returns; with any fuel the call is still running when the fuel is used up, and
  -- with each unit of fuel above the number of rows that the table had and one the table has grown
  -- by a row at least.
  pub insert_of_scan-diverges :
      lookup q.table_name ctx.catalog.tables ≡ some table
      → table.index_name ≡ invalid_name
      → get_key_attrs q.output_schema input_schema ≡ ok attrs
      → Fits scan_attrs table.rows
      → chunk_size ≤ length (live_rows scan_attrs table.rows 0)
      → (fuel : ℕ) (output_chunk : Chunk)
      → (catalog : Catalog) × (more : List Row) × (next
            (seq_scan_operator q)
            q.table_name
            input_schema
            fuel
            (record q { next_row_id = 0 })
            output_chunk
            ctx
          ≡ (over ctx catalog, err out_of_fuel))
        × (lookup q.table_name catalog.tables ≡ some (record table { rows = table.rows ++ more }))
        × (fuel ≤ length table.rows + length more + 1)
  unfolding next fetch_table seq_scan_operator
  insert_of_scan-diverges found no_index columns fits plenty fuel output_chunk =
      let fetched : fetch_table ctx.catalog q.table_name ≡ ok table =
        rw (fetch_table, found) refl in
      let no_key = index_key-none q.table_name ctx table fetched no_index in
      let (catalog, more, loop, found', bound) =
        insert_loop-Grown fuel ctx.catalog table.rows table.rows (record q { next_row_id = 0 }) []
          (record { found = found; same = refl; left = refl; fits = fits; plenty = plenty }) in
      (
        catalog,
        more,
        rw (◌>>=◌, fetched, columns, no_key, no_key, loop, no_key, loop) refl,
        found',
        bound,
      )
