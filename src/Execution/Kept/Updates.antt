-- ===== src/Execution/Kept/Updates.antt =====
-- src/execution/update_operator.cpp: the updates, and the index of the table.
use p2_hash_join_optimizatio.Common.{
  ℕ, zero, suc, ◌≡◌, refl, sym, ap, ◌∙◌, inl, inr, Bool, String, List, [], ◌∷◌, ◌++◌, Option, some,
  Bool-cases, ok, Result, fault, assertion_failed, arith, length, length-set, set, >>=-eq-ok,
  ok_injective, if◌then◌else◌,
}
use p2_hash_join_optimizatio.Types.{Tuple, Schema, at}
use p2_hash_join_optimizatio.Storage.Table.{Row}
use p2_hash_join_optimizatio.Execution.Operator.{
  ExecutionContext, Chunk, Operator, OperatorState, exhausted,
}
use p2_hash_join_optimizatio.Execution.Effects.{Effect, ◌>>=◌, lift, table_of, put_rows}
use p2_hash_join_optimizatio.Execution.Delete.{assert_valid}
use p2_hash_join_optimizatio.Execution.Insert.{index_key, insert_with_index}
use p2_hash_join_optimizatio.Execution.Update.{
  update_rows, delete_changed, insert_changed, update_loop, input_attrs, next,
}
use p2_hash_join_optimizatio.Execution.Update.Row.{update_row, update_tuple, changes_key}
use p2_hash_join_optimizatio.Execution.Update.Row.Indexed.{update_row-IsIndexed}
use p2_hash_join_optimizatio.Execution.Kept.{
  IsKept, call_keeps, state_keeps, put_rows-IsKept, fetched_table,
}
use p2_hash_join_optimizatio.Execution.Kept.Deletes.{delete_then}
use p2_hash_join_optimizatio.Execution.Kept.Inserts.{insert_with_index-Keeps, index_key-kept}

length-update_row :
    (key_attrs : Option (List ℕ)) (index : Option (String × ℕ)) (tuple new : Tuple) (row_id : ℕ)
    (changed : Bool) (rows rows' : List Row)
    → update_row key_attrs index tuple row_id rows ≡ ok (new, changed, rows')
    → length rows' ≡ length rows
unfolding update_row
length-update_row key_attrs index tuple new row_id changed rows rows' h =
    let (_, valid, h₁) = >>=-eq-ok (assert_valid row_id) _ h in
    let (new_tuple, projected, h₂) = >>=-eq-ok (update_tuple key_attrs tuple) _ h₁ in
    let (row, read, h₃) = >>=-eq-ok (at rows row_id) _ h₂ in
    let (_, live, h₄) =
      >>=-eq-ok (if row.tuple_meta.is_deleted then fault assertion_failed else ok (tt {0})) _ h₃ in
    let (differs, compared, h₅) = >>=-eq-ok (changes_key index new_tuple row.tuple) _ h₄ in
    let after : (if differs then rows else set rows row_id (record row { tuple = new_tuple }))
        ≡ rows' =
      ap (λ (p : Tuple × Bool × List Row). p.2) (ok_injective h₅) in
    elim (Bool-cases differs) [
      | inl moves ↦ rw (← (rw moves at after)) refl
      | inr stays ↦ rw (← (rw stays at after)) (length-set rows row_id _)
    ]

module _ (table_name index_name : String) (attr : ℕ) where
  abbrev Keeps : ExecutionContext → Type 0
  Keeps = IsKept table_name index_name attr

  update_rows-Keeps :
      (key_attrs : Option (List ℕ)) (rows : Chunk) (ctx : ExecutionContext)
      → Keeps ctx
      → Keeps (update_rows table_name key_attrs (some (index_name, attr)) rows ctx).0
  unfolding update_rows
  update_rows-Keeps key_attrs [] ctx kept = kept
  update_rows-Keeps key_attrs (update_data ∷ rest) ctx kept =
      call_keeps Keeps (table_of table_name ctx) _ kept (λ table fetched.
        call_keeps Keeps
          (
            ctx,
            update_row key_attrs (some (index_name, attr)) update_data.0 update_data.1 table.rows,
          )
          _ kept
          (λ r run.
            let same : table ≡ kept.table =
              ok_injective (sym fetched ∙ fetched_table table_name index_name attr ctx kept) in
            let run' : update_row key_attrs (some (index_name, attr)) update_data.0 update_data.1
                  kept.table.rows
                ≡ ok r =
              rw same at run in
            let rows_same =
              length-update_row key_attrs (some (index_name, attr)) update_data.0 r.0 update_data.1
                r.1 kept.table.rows r.2 run' in
            let kept' = put_rows-IsKept table_name index_name attr ctx kept r.2 (λ few.
              (update_row-IsIndexed attr kept.table.rows kept.index
                (kept.right (omega (arith, rows_same, few))) index_name key_attrs update_data.0 r.0
                update_data.1 r.1 r.2 run').0) in
            call_keeps Keeps (put_rows table_name r.2 ctx) _ kept' (λ _ _.
              let later = update_rows-Keeps key_attrs rest _ kept' in
              call_keeps Keeps
                (update_rows table_name key_attrs (some (index_name, attr)) rest
                  (put_rows table_name r.2 ctx).0)
                _ later (λ _ _. later))))

  delete_changed-Keeps :
      (rows : Chunk) (ctx : ExecutionContext)
      → Keeps ctx
      → Keeps (delete_changed table_name rows ctx).0
  unfolding delete_changed
  delete_changed-Keeps [] ctx kept = kept
  delete_changed-Keeps (changed ∷ rest) ctx kept =
      delete_then table_name index_name attr changed.1 (delete_changed table_name rest) ctx kept
        (delete_changed-Keeps rest)

  insert_changed-Keeps :
      (rows : Chunk) (ctx : ExecutionContext)
      → Keeps ctx
      → Keeps (insert_changed table_name (some (index_name, attr)) rows ctx).0
  unfolding insert_changed
  insert_changed-Keeps [] ctx kept = kept
  insert_changed-Keeps (changed ∷ rest) ctx kept =
      let kept' = insert_with_index-Keeps table_name index_name attr changed.0 ctx kept in
      call_keeps Keeps (insert_with_index table_name index_name attr changed.0 ctx) _ kept'
        (λ _ _. insert_changed-Keeps rest _ kept')

  module _ {C : Type 0} (child_operator : Operator C) (input_schema : Option Schema) where
    update_loop-Keeps :
        (fuel : ℕ) (key_attrs : Option (List ℕ)) (s : C) (chunk changed : Chunk)
        (ctx : ExecutionContext)
        → Keeps ctx
        → Keeps
            (update_loop child_operator table_name input_schema fuel key_attrs
              (some (index_name, attr))
              s
              chunk
              changed
              ctx).0
    unfolding update_loop
    update_loop-Keeps zero key_attrs s chunk changed ctx kept = kept
    update_loop-Keeps (suc fuel) key_attrs s chunk changed ctx kept =
        call_keeps Keeps (ctx, child_operator.next fuel ctx s chunk) _ kept
          (λ r _.
            let kept' = update_rows-Keeps key_attrs r.1 ctx kept in
            call_keeps Keeps (update_rows table_name key_attrs (some (index_name, attr)) r.1 ctx) _
              kept'
              (λ more _.
                state_keeps Keeps r.0 _ _ _
                  (update_loop-Keeps fuel key_attrs r.2 r.1 (changed ++ more) _ kept') kept'))

    -- The calls after the index is known.
    abbrev finish : ℕ → Option (List ℕ) → Option (String × ℕ) → C → Effect (OperatorState × C)
    finish fuel key_attrs index s = do
      r ← update_loop child_operator table_name input_schema fuel key_attrs index s [] []
      _ ← delete_changed table_name r.1
      _ ← insert_changed table_name index r.1
      lift (ok (exhausted, r.0))

    finish-Keeps :
        (fuel : ℕ) (key_attrs : Option (List ℕ)) (s : C) (ctx : ExecutionContext)
        → Keeps ctx
        → Keeps (finish fuel key_attrs (some (index_name, attr)) s ctx).0
    finish-Keeps fuel key_attrs s ctx kept =
        let looped = update_loop-Keeps fuel key_attrs s [] [] ctx kept in
        call_keeps Keeps
          (update_loop child_operator table_name input_schema fuel key_attrs
            (some (index_name, attr)) s [] [] ctx)
          _ looped
          (λ r _.
            let deleted = delete_changed-Keeps r.1 _ looped in
            call_keeps Keeps (delete_changed table_name r.1 _) _ deleted (λ _ _.
              let inserted = insert_changed-Keeps r.1 _ deleted in
              call_keeps Keeps (insert_changed table_name (some (index_name, attr)) r.1 _) _
                inserted (λ _ _. inserted)))

    -- Where a table has an index with a name over one of its columns, which is in order and, as
    -- long as the table has fewer rows than the invalid id, right for it, the same holds after a
    -- call of UpdateOperator::Next on the table, over any child that does not itself write to the
    -- catalog, and however the call ends: with its result, an exception between the deletions and
    -- the insertions included, an undefined step or no fuel.
    pub update-IsKept :
        (fuel : ℕ) (s : C) (ctx : ExecutionContext)
        → IsKept table_name index_name attr ctx
        → IsKept table_name index_name attr
            (next child_operator table_name input_schema fuel s ctx).0
    unfolding next
    update-IsKept fuel s ctx kept =
        let found = index_key-kept table_name index_name attr ctx kept in
        let read = ap (λ (x : ExecutionContext × Result (Option (String × ℕ))). x.0) found in
        call_keeps Keeps (table_of table_name ctx) _ kept (λ _ _.
          call_keeps Keeps (ctx, input_attrs child_operator table_name input_schema) _ kept
            (λ key_attrs _.
              call_keeps Keeps (index_key table_name ctx) _ (rw read kept) (λ index at_key.
                let same : index ≡ some (index_name, attr) = ok_injective (
                  sym at_key
                  ∙ ap (λ (x : ExecutionContext × Result (Option (String × ℕ))). x.1) found) in
                rw same
                  (finish-Keeps fuel key_attrs s (index_key table_name ctx).0 (rw read kept)))))
