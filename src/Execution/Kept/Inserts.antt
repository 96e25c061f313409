-- ===== src/Execution/Kept/Inserts.antt =====
-- src/execution/insert_operator.cpp: the insertions, and the index of the table.
use p2_hash_join_optimizatio.Common.{
  ℕ, zero, suc, ◌≤◌, ◌<◌, ◌≡◌, refl, sym, ap, ◌∙◌, inl, inr, false, String, List, [], ◌∷◌, Option,
  some, Option-cases, Bool-cases, ok, Result, arith, length, length-set, length-append, >>=-eq-ok,
  ok_injective, subst, ◌==◌, str_eq,
}
use p2_hash_join_optimizatio.Types.{
  Data, Tuple, Schema, invalid_id, invalid_name, at, key_from_tuple, keys_from_tuple, get_key_attrs,
}
use p2_hash_join_optimizatio.Types.Lookup.{column, column-at}
use p2_hash_join_optimizatio.Storage.Table.{Row, fresh_meta}
use p2_hash_join_optimizatio.Storage.Catalog.{fetch_index}
use p2_hash_join_optimizatio.Storage.StlmapIndex.{StlmapIndex, find, scan_key, insert_entry}
use p2_hash_join_optimizatio.Storage.StlmapIndex.Laws.{IsSorted, put-IsSorted}
use p2_hash_join_optimizatio.Storage.StlmapIndex.OfTable.{IsIndexed}
use p2_hash_join_optimizatio.Execution.Operator.{ExecutionContext, Chunk, Operator}
use p2_hash_join_optimizatio.Execution.Effects.{◌>>=◌, table_of, index_of}
use p2_hash_join_optimizatio.Execution.RowOps.{insert_row_with_index, insert_row_wo_index}
use p2_hash_join_optimizatio.Execution.RowOps.Indexed.{insert_row_with_index-Inserts}
use p2_hash_join_optimizatio.Execution.Insert.{
  index_key, insert_with_index, insert_rows, insert_loop, next,
}
use p2_hash_join_optimizatio.Execution.Kept.{
  IsKept, call_keeps, state_keeps, put_both-IsKept, fetched_table, fetched_index,
}

-- The rows are no fewer and the order of the index is kept.
abbrev Grows : List Row → StlmapIndex → List Row × StlmapIndex → Type 0
Grows rows index after =
    (length rows ≤ length after.0) × (after.1.key_name ≡ index.key_name) × IsSorted after.1.index

-- What an insertion that returns has done to the number of rows and to the order of the index.
insert_row_with_index-Grows :
    (tuple : Tuple) (key : Data) (rows rows' : List Row) (index index' : StlmapIndex)
    → insert_row_with_index tuple key rows index ≡ ok (rows', index')
    → IsSorted index.index
    → Grows rows index (rows', index')
unfolding insert_row_with_index insert_row_wo_index insert_entry
insert_row_with_index-Grows tuple key rows rows' index index' run s =
    elim (Bool-cases (scan_key key index == invalid_id)) [
      | inl fresh ↦ elim (Option-cases (find key index.index)) [
        | inr (r, there) ↦ absurd (cc (rw (fresh, insert_entry, there) at run))
        | inl absent ↦
            subst (Grows rows index) (ok_injective (rw (fresh, insert_entry, absent) at run)) (
              omega (
                arith,
                length-append rows (record { tuple = tuple; tuple_meta = fresh_meta } ∷ []),
              ),
              refl,
              put-IsSorted key (length rows) index.index s,
            )
      ]
      | inr used ↦
          let (row, read, rest) = >>=-eq-ok (at rows (scan_key key index)) _ (rw used at run) in
          elim (Bool-cases row.tuple_meta.is_deleted) [
            | inr live ↦ absurd (cc (rw live at rest))
            | inl gone ↦ subst (Grows rows index) (ok_injective (rw gone at rest)) (
              omega (
                arith,
                length-set rows (scan_key key index)
                    (record { tuple = tuple; tuple_meta = record { is_deleted = false } }),
              ),
              refl,
              s,
            )
          ]
    ]

module _ (table_name index_name : String) (attr : ℕ) where
  abbrev Keeps : ExecutionContext → Type 0
  Keeps = IsKept table_name index_name attr

  insert_row_with_index-right :
      (tuple : Tuple) (key : Data) (rows rows' : List Row) (index index' : StlmapIndex)
      → key_from_tuple tuple attr ≡ ok key
      → insert_row_with_index tuple key rows index ≡ ok (rows', index')
      → (length rows < invalid_id → IsIndexed attr rows index)
      → length rows ≤ length rows'
      → length rows' < invalid_id
      → IsIndexed attr rows' index'
  unfolding key_from_tuple
  insert_row_with_index-right tuple key rows rows' index index' keyed run right grown few =
      let same : column tuple attr ≡ key = column-at tuple attr key keyed in
      let few_before : length rows < invalid_id = omega (arith, grown, few) in
      elim (insert_row_with_index-Inserts attr rows index (right few_before) tuple few_before) [
        | inl (q, row, there, live, keyed', stop) ↦ absurd (cc (rw same at stop, run))
        | inr (rows₁, index₁, r, run₁, inserts) ↦
            subst (λ (x : List Row × StlmapIndex). IsIndexed attr x.0 x.1)
              (ok_injective (sym (rw same at run₁) ∙ run)) inserts.indexed
      ]

  -- One tuple inserted under its key.
  pub insert_with_index-Keeps :
      (tuple : Tuple) (ctx : ExecutionContext)
      → Keeps ctx
      → Keeps (insert_with_index table_name index_name attr tuple ctx).0
  unfolding insert_with_index
  insert_with_index-Keeps tuple ctx kept =
      call_keeps Keeps (table_of table_name ctx) _ kept (λ table found_table.
        call_keeps Keeps (index_of index_name ctx) _ kept (λ index found_index.
          call_keeps Keeps (ctx, key_from_tuple tuple attr) _ kept
            (λ key keyed.
              call_keeps Keeps (ctx, insert_row_with_index tuple key table.rows index) _ kept
                (λ r run.
                  let same_table : table ≡ kept.table =
                    ok_injective
                      (sym found_table ∙ fetched_table table_name index_name attr ctx kept) in
                  let same_index : index ≡ kept.index =
                    ok_injective
                      (sym found_index ∙ fetched_index table_name index_name attr ctx kept) in
                  let run' : insert_row_with_index tuple key kept.table.rows kept.index ≡ ok r =
                    rw (same_table, same_index) at run in
                  let (grown, named, sorted) =
                    insert_row_with_index-Grows tuple key kept.table.rows r.0 kept.index r.1 run'
                      kept.sorted in
                  put_both-IsKept table_name index_name attr ctx kept r.0 r.1 named sorted (
                    insert_row_with_index-right tuple key kept.table.rows r.0 kept.index r.1 keyed
                      run' kept.right grown)))))

  -- What `Next` finds for the table.
  pub index_key-kept :
      (ctx : ExecutionContext)
      → Keeps ctx
      → index_key table_name ctx ≡ (ctx, ok (some (index_name, attr)))
  unfolding index_key
  index_key-kept ctx kept =
      let has_index : str_eq kept.table.index_name invalid_name ≡ false =
        rw kept.named kept.not_empty in
      let at_name : fetch_index ctx.catalog kept.table.index_name ≡ ok kept.index =
        rw kept.named (fetched_index table_name index_name attr ctx kept) in
      rw (
        index_key,
        ◌>>=◌,
        fetched_table table_name index_name attr ctx kept,
        has_index,
        at_name,
        kept.keyed,
        kept.named,
      )

  insert_rows-Keeps :
      (key_attrs : List ℕ) (rows : Chunk) (ctx : ExecutionContext)
      → Keeps ctx
      → Keeps (insert_rows table_name key_attrs (some (index_name, attr)) rows ctx).0
  unfolding insert_rows
  insert_rows-Keeps key_attrs [] ctx kept = kept
  insert_rows-Keeps key_attrs (insert_data ∷ rest) ctx kept =
      call_keeps Keeps (ctx, keys_from_tuple insert_data.0 key_attrs) _ kept
        (λ tuple _.
          let kept' = insert_with_index-Keeps tuple ctx kept in
          call_keeps Keeps (insert_with_index table_name index_name attr tuple ctx) _ kept'
            (λ _ _. insert_rows-Keeps key_attrs rest _ kept'))

  module _ {C : Type 0} (child_operator : Operator C) (input_schema : Schema) where
    insert_loop-Keeps :
        (fuel : ℕ) (key_attrs : List ℕ) (s : C) (chunk : Chunk) (ctx : ExecutionContext)
        → Keeps ctx
        → Keeps
            (insert_loop child_operator table_name input_schema fuel key_attrs
              (some (index_name, attr))
              s
              chunk
              ctx).0
    unfolding insert_loop
    insert_loop-Keeps zero key_attrs s chunk ctx kept = kept
    insert_loop-Keeps (suc fuel) key_attrs s chunk ctx kept =
        call_keeps Keeps (ctx, child_operator.next fuel ctx s chunk) _ kept
          (λ r _.
            let kept' = insert_rows-Keeps key_attrs r.1 ctx kept in
            call_keeps Keeps (insert_rows table_name key_attrs (some (index_name, attr)) r.1 ctx) _
              kept'
              (λ _ _.
                state_keeps Keeps r.0 _ _ _ (insert_loop-Keeps fuel key_attrs r.2 r.1 _ kept')
                  kept'))

    -- Where a table has an index with a name over one of its columns, which is in order and, as
    -- long as the table has fewer rows than the invalid id, right for it, the same holds after a
    -- call of InsertOperator::Next on the table, over any child that does not itself write to the
    -- catalog, and however the call ends: with its result, an exception, an undefined step or no
    -- fuel.
    pub insert-IsKept :
        (fuel : ℕ) (s : C) (output_chunk : Chunk) (ctx : ExecutionContext)
        → IsKept table_name index_name attr ctx
        → IsKept table_name index_name attr
            (next child_operator table_name input_schema fuel s output_chunk ctx).0
    unfolding next
    insert-IsKept fuel s output_chunk ctx kept =
        let found = index_key-kept ctx kept in
        let read = ap (λ (x : ExecutionContext × Result (Option (String × ℕ))). x.0) found in
        call_keeps Keeps (table_of table_name ctx) _ kept (λ _ _.
          call_keeps Keeps (ctx, get_key_attrs child_operator.output_schema input_schema) _ kept
            (λ key_attrs _.
              call_keeps Keeps (index_key table_name ctx) _ (rw read kept) (λ index at_key.
                let same : index ≡ some (index_name, attr) = ok_injective (
                  sym at_key
                  ∙ ap (λ (x : ExecutionContext × Result (Option (String × ℕ))). x.1) found) in
                let looped : Keeps
                    (insert_loop child_operator table_name input_schema fuel key_attrs index s []
                      (index_key table_name ctx).0).0 =
                  rw same (
                    insert_loop-Keeps fuel key_attrs s [] (index_key table_name ctx).0
                      (rw read kept)) in
                call_keeps Keeps
                  (insert_loop child_operator table_name input_schema fuel key_attrs index s []
                    (index_key table_name ctx).0)
                  _ looped (λ _ _. looped))))
