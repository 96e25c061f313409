-- ===== src/Execution/Update/Row.antt =====
-- src/execution/update_operator.cpp: one round of the inner loop of `Next`.
pub mod Indexed
use p2_hash_join_optimizatio.Common.{
  ℕ, String, Bool, false, not, List, Option, none, some, Result, ok, fault, ◌>>=◌, assertion_failed,
  set, if◌then◌else◌, eqb_ℤ,
}
use p2_hash_join_optimizatio.Types.{Tuple, at, key_from_tuple, keys_from_tuple}
use p2_hash_join_optimizatio.Storage.Table.{Row}
use p2_hash_join_optimizatio.Execution.Delete.{assert_valid}

-- The new tuple: the columns of the input schema, if there is one.
unfoldable pub update_tuple : Option (List ℕ) → Tuple → Result Tuple
update_tuple none tuple = ok tuple
update_tuple (some key_attrs) tuple = keys_from_tuple tuple key_attrs

-- The change of key, which is there only for a table with an index.
unfoldable pub changes_key : Option (String × ℕ) → Tuple → Tuple → Result Bool
changes_key none new_tuple target_tuple = ok false
changes_key (some index) new_tuple target_tuple = do
  new_key ← key_from_tuple new_tuple index.1
  old_key ← key_from_tuple target_tuple index.1
  ok (not (eqb_ℤ new_key old_key))

-- One round of the inner loop: the rows after it, and whether the key changes.
unfoldable pub update_row :
    Option (List ℕ) → Option (String × ℕ) → Tuple → ℕ → List Row → Result (Tuple × Bool × List Row)
unfolding update_tuple changes_key
update_row key_attrs index tuple row_id rows = do
  _ ← assert_valid row_id
  new_tuple ← update_tuple key_attrs tuple
  row ← at rows row_id
  _ ← if row.tuple_meta.is_deleted then fault assertion_failed else ok (tt {0})
  changed ← changes_key index new_tuple row.tuple
  ok (
    new_tuple,
    changed,
    if changed then rows else set rows row_id (record row { tuple = new_tuple }),
  )
