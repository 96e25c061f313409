-- ===== src/Database/Calls.antt =====
-- Sequences of calls on a database.
use p2_hash_join_optimizatio.Common.{
  ok_injective, Result-cases, ℕ, ◌+◌, String, ◌≡◌, refl, sym, ap, ◌∙◌, inl, inr, false, List, [],
  ◌∷◌, Result, ok, ◌>>=◌, >>=-eq-ok, Option-cases, Bool-cases, All, str_eq,
}
use p2_hash_join_optimizatio.Types.{Data, ConfigGroup, invalid_name, key_from_tuple, get_key_attr}
use p2_hash_join_optimizatio.Storage.Table.{Row, new_table}
use p2_hash_join_optimizatio.Storage.StlmapIndex.{
  StlmapIndex, find, put, insert_entry, index_rows, new_stlmap_index,
}
use p2_hash_join_optimizatio.Storage.Catalog
use p2_hash_join_optimizatio.Storage.Catalog.{Catalog, fetch_table}
use p2_hash_join_optimizatio.Storage.Catalog.Consistent.{IsConsistent, Keeps, IsConsistent-empty}
use p2_hash_join_optimizatio.Storage.Catalog.Consistent.Tables.{
  create_table-Keeps, drop_table-Keeps,
}
use p2_hash_join_optimizatio.Storage.Catalog.Consistent.Indexes.{
  create_index-Keeps, drop_index-Keeps,
}
use p2_hash_join_optimizatio.Database.{
  BabyDb, new_baby_db, Call, creates_table, drops_table, creates_index, drops_index, apply, kept,
  run, create_table, drop_table, create_index, drop_index,
}

insert_entry-name :
    (key : Data) (row_id : ℕ) (ix ix' : StlmapIndex)
    → insert_entry key row_id ix ≡ ok ix'
    → ix'.name ≡ ix.name
unfolding insert_entry
insert_entry-name key row_id ix ix' h = elim (Option-cases (find key ix.index)) [
  | inl absent ↦
      let e : ok (record ix { index = put key row_id ix.index }) ≡ ok ix' =
        rw (absent, insert_entry) at h in
      sym (ap (λ (x : StlmapIndex). x.name) (ok_injective e))
  | inr (r, there) ↦ absurd (cc (rw (there, insert_entry) at h))
]

index_rows-name :
    (key_attr : ℕ) (rows : List Row) (row_id : ℕ) (ix ix' : StlmapIndex)
    → index_rows key_attr rows row_id ix ≡ ok ix'
    → ix'.name ≡ ix.name
unfolding index_rows
index_rows-name key_attr [] row_id ix ix' h =
    sym (ap (λ (x : StlmapIndex). x.name) (ok_injective h))
index_rows-name key_attr (row ∷ rows) row_id ix ix' h =
    elim (Bool-cases row.tuple_meta.is_deleted) [
      | inl gone ↦ index_rows-name key_attr rows (row_id + 1) ix ix' (rw (gone, index_rows) at h)
      | inr live ↦
          let (key, read, rest) =
            >>=-eq-ok (key_from_tuple row.tuple key_attr) _ (rw (live, index_rows) at h) in
          let (ix₁, inserted, rest') = >>=-eq-ok (insert_entry key row_id ix) _ rest in
          index_rows-name key_attr rows (row_id + 1) ix₁ ix' rest'
          ∙ insert_entry-name key row_id ix ix₁ inserted
    ]

-- An index that is created has a name.
abbrev pub IsNamed : Call → Type 0
IsNamed (creates_table table_name schema) = Unit
IsNamed (drops_table table_name) = Unit
IsNamed (creates_index index_name table_name key_column) = str_eq index_name invalid_name ≡ false
IsNamed (drops_index index_name) = Unit

module _ (db : BabyDb) (consistent : IsConsistent db.catalog) where
  kept-IsConsistent :
      (m : Result Catalog)
      → Keeps m
      → IsConsistent (kept (m >>= λ c. ok (record db { catalog = c })) db).catalog
  kept-IsConsistent m keeps = elim keeps [
    | inl (e, threw) ↦ rw threw consistent
    | inr (c', done, after) ↦ rw done after
  ]

  created-IsConsistent :
      (index_name table_name key_column : String)
      → str_eq index_name invalid_name ≡ false
      → IsConsistent (kept (create_index index_name table_name key_column db) db).catalog
  unfolding create_index new_stlmap_index
  created-IsConsistent index_name table_name key_column named =
      elim (Result-cases (fetch_table db.catalog table_name)) [
        | inl (e, failed) ↦ rw (failed) consistent
        | inr (table, fetched) ↦
            elim (Result-cases (new_stlmap_index index_name table key_column)) [
              | inl (e, failed) ↦ rw (fetched, failed) consistent
              | inr (index, built) ↦
                  let (attr, key, rows) =
                    >>=-eq-ok (get_key_attr table.schema key_column) _ built in
                  let name = index_rows-name attr table.rows 0 _ index rows in
                  rw (fetched, built)
                    (kept-IsConsistent (Catalog.create_index index db.catalog)
                      (create_index-Keeps db.catalog consistent index (rw name named)))
            ]
      ]

  apply-IsConsistent : (call : Call) → IsNamed call → IsConsistent (kept (apply call db) db).catalog
  unfolding apply create_table drop_table drop_index new_table
  apply-IsConsistent (creates_table table_name schema) named =
      kept-IsConsistent (Catalog.create_table (new_table table_name schema) db.catalog)
        (create_table-Keeps db.catalog consistent (new_table table_name schema) refl)
  apply-IsConsistent (drops_table table_name) named =
      kept-IsConsistent (Catalog.drop_table table_name db.catalog)
        (drop_table-Keeps db.catalog consistent table_name)
  apply-IsConsistent (creates_index index_name table_name key_column) named =
      created-IsConsistent index_name table_name key_column named
  apply-IsConsistent (drops_index index_name) named =
      kept-IsConsistent (Catalog.drop_index index_name db.catalog)
        (drop_index-Keeps db.catalog consistent index_name)

run-kept :
    (calls : List Call) (db : BabyDb)
    → IsConsistent db.catalog
    → All IsNamed calls
    → IsConsistent (run calls db).catalog
unfolding run
run-kept [] db consistent named = consistent
run-kept (call ∷ calls) db consistent named =
    run-kept calls (kept (apply call db) db) (apply-IsConsistent db consistent call named.0) named.1

-- Whatever a client of a new database calls, with a name for each index that it creates, and
-- whichever of the calls throw, the catalog is consistent.
pub run-IsConsistent :
    (config : ConfigGroup) (calls : List Call)
    → All IsNamed calls
    → IsConsistent (run calls (new_baby_db config)).catalog
unfolding new_baby_db
run-IsConsistent config calls named = run-kept calls (new_baby_db config) IsConsistent-empty named
