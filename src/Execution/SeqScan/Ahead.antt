-- ===== src/Execution/SeqScan/Ahead.antt =====
-- What a scan of a table depends on: the rows that it has not read.
use p2_hash_join_optimizatio.Common.{
  ℕ, zero, suc, ◌+◌, ◌-◌, ◌≤◌, ◌<◌, ◌≡◌, refl, sym, ap, ap₂, ◌∙◌, subst, inl, inr, false, List, [],
  ◌∷◌, ◌++◌, append-nil, flatten, ok, arith, length, drop, length-drop, drop-suc,
  drop-append_length, le→leb, lt→leb_false, Bool-cases, Result-cases, All,
}
use p2_hash_join_optimizatio.Types.{at, keys_from_tuple, get_key_attrs}
use p2_hash_join_optimizatio.Types.Lookup.{at-drop}
use p2_hash_join_optimizatio.Storage.Table.{Table, Row}
use p2_hash_join_optimizatio.Storage.Catalog.{fetch_table}
use p2_hash_join_optimizatio.Execution.Operator.{
  ExecutionContext, Entry, Chunk, write, exhausted, have_more_output, OperatorState,
}
use p2_hash_join_optimizatio.Execution.Operator.Walks.{Serves, Reads, ended, again, Walks}
use p2_hash_join_optimizatio.Execution.SeqScan.{SeqScanOperator, next_loop, next, seq_scan_operator}
use p2_hash_join_optimizatio.Execution.SeqScan.Loop.{live_rows, Fits, Filled, next_loop-Outcome}

-- The loop does the same on two tables whose rows are the same from its position on.
next_loop-same :
    (chunk_size : ℕ) (rows rows' : List Row) (attrs : List ℕ) (fuel row_id : ℕ) (rest : List Row)
    (out : Chunk) (size : ℕ)
    → drop row_id rows ≡ rest
    → drop row_id rows' ≡ rest
    → next_loop fuel chunk_size rows attrs row_id out size
      ≡ next_loop fuel chunk_size rows' attrs row_id out size
unfolding next_loop
next_loop-same chunk_size rows rows' attrs zero row_id rest out size e e' = refl
next_loop-same chunk_size rows rows' attrs (suc fuel) row_id [] out size e e' =
    let past = λ (t : List Row) (d : drop row_id t ≡ []).
      le→leb (length t) row_id (omega (arith, length-drop row_id t, ap length d)) in
    rw (past rows e, past rows' e') refl
next_loop-same chunk_size rows rows' attrs (suc fuel) row_id (row ∷ rest) out size e e' =
    let more = λ (t : List Row) (d : drop row_id t ≡ row ∷ rest).
      lt→leb_false (length t) row_id (omega (arith, length-drop row_id t, ap length d)) in
    let again = λ (out : Chunk) (size : ℕ).
      next_loop-same chunk_size rows rows' attrs fuel (row_id + 1) rest out size
        (drop-suc row_id rows row rest e) (drop-suc row_id rows' row rest e') in
    let here = at-drop row_id rows row rest e in
    let here' = at-drop row_id rows' row rest e' in
    elim (Bool-cases row.tuple_meta.is_deleted) [
      | inl gone ↦ rw (more rows e, more rows' e', here, here', gone, again out size) refl
      | inr live ↦ elim (Result-cases (keys_from_tuple row.tuple attrs)) [
        | inl (x, failed) ↦ rw (more rows e, more rows' e', here, here', live, failed) refl
        | inr (tuple, keys) ↦
            let rest_same = again (write out size (tuple, row_id + 1 - 1)) (size + 1) in
            rw (more rows e, more rows' e', here, here', live, keys, rest_same) refl
      ]
    ]

-- A row with the id is there, and is not deleted.
abbrev pub IsLive : List Row → ℕ → Type 0
IsLive rows row_id = (row : Row) × (at rows row_id ≡ ok row) × (row.tuple_meta.is_deleted ≡ false)

pub live_rows-IsLive :
    (attrs : List ℕ) (rows rest : List Row) (row_id : ℕ)
    → drop row_id rows ≡ rest
    → All (λ (e : Entry). IsLive rows e.1) (live_rows attrs rest row_id)
unfolding live_rows
live_rows-IsLive attrs rows [] row_id here = tt
live_rows-IsLive attrs rows (row ∷ rest) row_id here =
    let others =
      live_rows-IsLive attrs rows rest (row_id + 1) (drop-suc row_id rows row rest here) in
    elim (Bool-cases row.tuple_meta.is_deleted) [
      | inl gone ↦ rw gone others
      | inr live ↦ rw live ((row, at-drop row_id rows row rest here, live), others)
    ]

live_rows-below :
    (attrs : List ℕ) (rows : List Row) (row_id last : ℕ)
    → row_id + length rows ≤ last
    → All (λ (e : Entry). e.1 < last) (live_rows attrs rows row_id)
unfolding live_rows
live_rows-below attrs [] row_id last h = tt
live_rows-below attrs (row ∷ rows) row_id last h =
    let rest = live_rows-below attrs rows (row_id + 1) last (omega (arith, h)) in
    elim (Bool-cases row.tuple_meta.is_deleted) [
      | inl gone ↦ rw gone rest
      | inr live ↦ rw live (omega (arith, h), rest)
    ]

module _ (q : SeqScanOperator) (table : Table) (ctx : ExecutionContext) (attrs : List ℕ)
    (positive : 0 < ctx.config.chunk_suggest_size)
    (keys : get_key_attrs table.schema q.fetch_columns ≡ ok attrs) where
  next-Serves :
      (row_id id' : ℕ) (rest : List Row) (state : OperatorState) (out : Chunk)
      → drop row_id table.rows ≡ rest
      → ((out' : Chunk)
          → 0 ≤ length out'
          → (fuel : ℕ) → length rest < fuel
          → next_loop fuel ctx.config.chunk_suggest_size table.rows attrs row_id out' 0
            ≡ ok (state, out, id'))
      → Serves
          (seq_scan_operator q)
          ctx
          q.table_name
          table
          (length table.rows)
          (record q { next_row_id = row_id })
          row_id
          rest
          state
          out
          (record q { next_row_id = id' })
  unfolding seq_scan_operator next fetch_table
  next-Serves row_id id' rest state out here run catalog rows found same fuel chunk enough =
      let done =
        run chunk (omega arith) fuel
          (omega (arith, length-drop row_id table.rows, ap length here)) in
      let moved =
        next_loop-same ctx.config.chunk_suggest_size rows table.rows attrs fuel row_id rest chunk 0
          same here in
      rw (fetch_table, found, keys, moved, done) refl

  abbrev FromHere : ℕ → List Row → Type 0
  FromHere row_id rest =
      (chunks : List Chunk) × Reads (seq_scan_operator q) ctx q.table_name table (length table.rows)
        (record q { next_row_id = row_id }) row_id rest chunks
      × (length chunks ≤ length rest + 1)
      × (flatten chunks ≡ live_rows attrs rest row_id)

  -- The call that fills the chunk, and the calls after it.
  page-FromHere :
      (row_id : ℕ) (rest : List Row)
      → drop row_id table.rows ≡ rest
      → (f : Filled ctx.config.chunk_suggest_size table.rows attrs rest row_id 0)
      → ((row_id' : ℕ) (rest' : List Row)
          → length rest' ≡ length f.left
          → drop row_id' table.rows ≡ rest'
          → Fits attrs rest'
          → FromHere row_id' rest')
      → FromHere row_id rest
  unfolding flatten
  page-FromHere row_id rest here f next_calls =
      let k = length f.seen in
      let left : f.left ≡ drop k rest =
        sym (ap (drop k) f.parts ∙ drop-append_length f.seen f.left) in
      let (chunks, reads, count, total) =
        next_calls (row_id + k) (drop k rest) (sym (ap length left))
          (ap (λ i. drop i table.rows) (sym f.stands) ∙ f.drops ∙ left)
          (subst (Fits attrs) left f.fits) in
      let page = live_rows attrs f.seen row_id in
      (
        page ∷ chunks,
        again k
            (subst
              (λ i.
                Serves (seq_scan_operator q) ctx q.table_name table (length table.rows)
                  (record q { next_row_id = row_id }) row_id rest have_more_output page
                  (record q { next_row_id = i }))
              f.stands (next-Serves row_id f.id' rest have_more_output _ here f.run))
            (live_rows-below attrs f.seen row_id (row_id + k) (omega arith)) reads,
        omega (arith, count, ap length left, f.less, f.large, positive),
        ap (λ p. page ++ p) (total ∙ ap₂ (λ r i. live_rows attrs r i) (sym left) (sym f.stands))
            ∙ sym f.split,
      )

  last-FromHere :
      (row_id : ℕ) (rest : List Row)
      → drop row_id table.rows ≡ rest
      → (id' : ℕ)
      → ((out' : Chunk)
          → 0 ≤ length out'
          → (fuel : ℕ) → length rest < fuel
          → next_loop fuel ctx.config.chunk_suggest_size table.rows attrs row_id out' 0
            ≡ ok (exhausted, live_rows attrs rest row_id, id'))
      → FromHere row_id rest
  unfolding flatten
  last-FromHere row_id rest here id' run = (
    live_rows attrs rest row_id ∷ [],
    ended (next-Serves row_id id' rest exhausted _ here run),
    omega arith,
    append-nil _,
  )

  rest-FromHere :
      (n row_id : ℕ) (rest : List Row)
      → length rest ≤ n
      → drop row_id table.rows ≡ rest
      → Fits attrs rest
      → FromHere row_id rest
  rest-FromHere zero row_id rest bound here fits =
      elim (next_loop-Outcome ctx.config.chunk_suggest_size table.rows attrs rest row_id 0 here
        fits) [
          | inl (id', under, run) ↦ last-FromHere row_id rest here id' run
          | inr f ↦ absurd (omega (arith, f.less, f.large, positive, bound))
        ]
  rest-FromHere (suc n) row_id rest bound here fits =
      elim (next_loop-Outcome ctx.config.chunk_suggest_size table.rows attrs rest row_id 0 here
        fits) [
          | inl (id', under, run) ↦ last-FromHere row_id rest here id' run
          | inr f ↦ page-FromHere row_id rest here f (λ row_id' rest' size here' fits'.
              rest-FromHere n row_id' rest' (omega (arith, size, f.less, f.large, positive, bound))
                here' fits')
        ]

  -- A scan of a table that has the scanned columns, in each row, walks the table and returns its live rows.
  pub scan-Walks :
      Fits attrs table.rows
      → Walks
          (seq_scan_operator q)
          ctx
          q.table_name
          table
          (record q { next_row_id = 0 })
          (live_rows attrs table.rows 0)
  scan-Walks fits =
      let (chunks, reads, count, total) =
        rest-FromHere (length table.rows) 0 table.rows (omega arith) refl fits in
      record { chunks = chunks; reads = reads; few = count; total = total }
