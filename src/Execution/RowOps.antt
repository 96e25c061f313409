-- ===== src/Execution/RowOps.antt =====
-- src/execution/execution_common.cpp: how rows are deleted and inserted. A call that throws has
-- changed nothing.
pub mod Indexed
pub mod Changes
use p2_hash_join_optimizatio.Common.{
  ℕ, true, false, List, [], ◌∷◌, ◌++◌, Result, ok, ◌>>=◌, throw, insert_duplicated_key, length, set,
  if◌then◌else◌, ◌==◌,
}
use p2_hash_join_optimizatio.Types.{Data, Tuple, at, invalid_id}
use p2_hash_join_optimizatio.Storage.Table.{Row, TupleMeta, fresh_meta}
use p2_hash_join_optimizatio.Storage.StlmapIndex.{StlmapIndex, scan_key, insert_entry}

unfoldable pub delete_row : ℕ → List Row → Result (List Row)
delete_row row_id rows = do
  row ← at rows row_id
  ok (set rows row_id (record row { tuple_meta = record { is_deleted = true } }))

unfoldable pub insert_row_wo_index : Tuple → List Row → List Row
insert_row_wo_index tuple rows = rows ++ record { tuple = tuple; tuple_meta = fresh_meta } ∷ []

-- A key that is there belongs to a row that is live, or to a deleted row that is used again.
unfoldable pub insert_row_with_index :
    Tuple → Data → List Row → StlmapIndex → Result (List Row × StlmapIndex)
unfolding insert_row_wo_index
insert_row_with_index tuple key rows index =
    let row_id = scan_key key index in
    let append = do
      index' ← insert_entry key (length rows) index
      ok (insert_row_wo_index tuple rows, index')
    in let reuse = do
      row ← at rows row_id
      elim row.tuple_meta.is_deleted [
        | false ↦ throw insert_duplicated_key
        | true ↦ ok (
          set rows row_id (record { tuple = tuple; tuple_meta = record { is_deleted = false } }),
          index,
        )
      ]
      in if row_id == invalid_id then append else reuse
