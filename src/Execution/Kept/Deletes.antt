-- ===== src/Execution/Kept/Deletes.antt =====
-- src/execution/delete_operator.cpp: the deletions, and the index of the table.
use p2_hash_join_optimizatio.Common.{
  ℕ, zero, suc, ◌<◌, ◌≡◌, sym, ◌∙◌, String, List, [], ◌∷◌, ok, arith, length, length-set, >>=-eq-ok,
  ok_injective, subst,
}
use p2_hash_join_optimizatio.Types.{invalid_id, at}
use p2_hash_join_optimizatio.Types.Lookup.{get_elem?-at}
use p2_hash_join_optimizatio.Storage.Table.{Row}
use p2_hash_join_optimizatio.Storage.StlmapIndex.{StlmapIndex}
use p2_hash_join_optimizatio.Storage.StlmapIndex.OfTable.{IsIndexed}
use p2_hash_join_optimizatio.Execution.Operator.{ExecutionContext, Chunk, Operator}
use p2_hash_join_optimizatio.Execution.Effects.{Effect, ◌>>=◌, lift, table_of, put_rows}
use p2_hash_join_optimizatio.Execution.RowOps.{delete_row}
use p2_hash_join_optimizatio.Execution.RowOps.Indexed.{delete_row-IsIndexed}
use p2_hash_join_optimizatio.Execution.Delete.{delete_rows, delete_loop, next, assert_valid}
use p2_hash_join_optimizatio.Execution.Kept.{
  IsKept, call_keeps, put_rows-IsKept, state_keeps, fetched_table,
}

module _ (table_name index_name : String) (attr : ℕ) where
  abbrev Keeps : ExecutionContext → Type 0
  Keeps = IsKept table_name index_name attr

  -- DeleteRow on the rows of the table.
  pub delete_row-right :
      (rows rows' : List Row) (index : StlmapIndex) (row_id : ℕ)
      → delete_row row_id rows ≡ ok rows'
      → (length rows < invalid_id → IsIndexed attr rows index)
      → length rows' < invalid_id
      → IsIndexed attr rows' index
  unfolding delete_row
  delete_row-right rows rows' index row_id run right few =
      let (row, read, done) = >>=-eq-ok (at rows row_id) _ run in
      let after = ok_injective done in
      let same_length : length rows' ≡ length rows = rw (← after) (length-set rows row_id _) in
      let (rows₁, run₁, ind, _) =
        delete_row-IsIndexed attr rows index (right (omega (arith, same_length))) row_id row
          (get_elem?-at rows row_id row read) in
      subst (λ rs. IsIndexed attr rs index) (ok_injective (sym run₁ ∙ run)) ind

  -- One row deleted, and what comes after.
  pub delete_then :
      {A : Type 0} (row_id : ℕ) (rest : Effect A) (ctx : ExecutionContext)
      → Keeps ctx
      → ((ctx' : ExecutionContext) → Keeps ctx' → Keeps (rest ctx').0)
      → Keeps
          ((table_of table_name >>= λ table. lift (delete_row row_id table.rows) >>= λ rows.
              put_rows table_name rows >>= λ _. rest)
            ctx).0
  delete_then row_id rest ctx kept after =
      call_keeps Keeps (table_of table_name ctx) _ kept (λ table fetched.
        call_keeps Keeps (ctx, delete_row row_id table.rows) _ kept
          (λ rows deleted.
            let same : table ≡ kept.table =
              ok_injective (sym fetched ∙ fetched_table table_name index_name attr ctx kept) in
            let kept' = put_rows-IsKept table_name index_name attr ctx kept rows (
              delete_row-right kept.table.rows rows kept.index row_id (rw same at deleted)
                kept.right) in
            call_keeps Keeps (put_rows table_name rows ctx) _ kept' (λ _ _. after _ kept')))

  delete_rows-Keeps :
      (rows : Chunk) (ctx : ExecutionContext)
      → Keeps ctx
      → Keeps (delete_rows table_name rows ctx).0
  unfolding delete_rows
  delete_rows-Keeps [] ctx kept = kept
  delete_rows-Keeps (delete_data ∷ rest) ctx kept =
      call_keeps Keeps (ctx, assert_valid delete_data.1) _ kept
        (λ _ valid.
          delete_then delete_data.1 (delete_rows table_name rest) ctx kept (delete_rows-Keeps rest))

  module _ {C : Type 0} (child_operator : Operator C) where
    delete_loop-Keeps :
        (fuel : ℕ) (s : C) (chunk : Chunk) (ctx : ExecutionContext)
        → Keeps ctx
        → Keeps (delete_loop child_operator table_name fuel s chunk ctx).0
    unfolding delete_loop
    delete_loop-Keeps zero s chunk ctx kept = kept
    delete_loop-Keeps (suc fuel) s chunk ctx kept =
        call_keeps Keeps (ctx, child_operator.next fuel ctx s chunk) _ kept
          (λ r pulled.
            call_keeps Keeps (delete_rows table_name r.1 ctx) _ (delete_rows-Keeps r.1 ctx kept)
              (λ _ deleted.
                state_keeps Keeps r.0 _ _ _
                  (delete_loop-Keeps fuel r.2 r.1 _ (delete_rows-Keeps r.1 ctx kept))
                  (delete_rows-Keeps r.1 ctx kept)))

    -- Where a table has an index with a name over one of its columns, which is in order and, as
    -- long as the table has fewer rows than the invalid id, right for it, the same holds after a
    -- call of DeleteOperator::Next on the table, over any child that does not itself write to the
    -- catalog, and however the call ends: with its result, an exception, an undefined step or no
    -- fuel.
    pub delete-IsKept :
        (fuel : ℕ) (s : C) (output_chunk : Chunk) (ctx : ExecutionContext)
        → IsKept table_name index_name attr ctx
        → IsKept table_name index_name attr
            (next child_operator table_name fuel s output_chunk ctx).0
    unfolding next
    delete-IsKept fuel s output_chunk ctx kept =
        call_keeps Keeps (table_of table_name ctx) _ kept (λ _ _.
          let kept' = delete_loop-Keeps fuel s [] ctx kept in
          call_keeps Keeps (delete_loop child_operator table_name fuel s [] ctx) _ kept'
            (λ _ _. kept'))
