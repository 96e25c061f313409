-- ===== src/Tests/Calls.antt =====
-- A client that makes a table and an index, tries the table again, and drops it.
use p2_hash_join_optimizatio.Common.{refl, [], ◌∷◌, List}
use p2_hash_join_optimizatio.Types.{default_config}
use p2_hash_join_optimizatio.Storage.Catalog.Consistent.{IsConsistent}
use p2_hash_join_optimizatio.Database.{
  new_baby_db, Call, creates_table, drops_table, creates_index, drops_index, run,
}
use p2_hash_join_optimizatio.Database.Calls.{run-IsConsistent}

abbrev calls : List Call
calls =
    creates_table "orders" ("id" ∷ "total" ∷ [])
    ∷ creates_index "by_id" "orders" "id"
    ∷ creates_table "orders" ("id" ∷ [])
    ∷ drops_table "orders"
    ∷ drops_index "by_id"
    ∷ []

run-IsConsistent_example : IsConsistent (run calls (new_baby_db default_config)).catalog
run-IsConsistent_example = run-IsConsistent default_config calls (tt, (refl, (tt, (tt, (tt, tt)))))
