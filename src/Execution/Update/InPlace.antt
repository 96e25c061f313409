-- ===== src/Execution/Update/InPlace.antt =====
-- src/execution/update_operator.cpp: the rows of a table after updates that keep their keys.
use p2_hash_join_optimizatio.Common.{
  ℕ, ◌<◌, ◌≤◌, ◌≡◌, refl, ap, ◌∙◌, inl, inr, false, List, [], ◌∷◌, Option, none, some, ok, arith,
  length, All, Bool-cases, ◌==◌, get_elem?-lt,
}
use p2_hash_join_optimizatio.Types.{Tuple, invalid_id}
use p2_hash_join_optimizatio.Types.Lookup.{project, keys_from_tuple-project, get_elem?-at}
use p2_hash_join_optimizatio.Storage.Table.{Row}
use p2_hash_join_optimizatio.Execution.Operator.{Entry}
use p2_hash_join_optimizatio.Execution.RowOps.Changes.{
  row_after, rows_after, rows_after-set, at-rows_after,
}
use p2_hash_join_optimizatio.Execution.SeqScan.Ahead.{IsLive}
use p2_hash_join_optimizatio.Execution.Update.Row.{update_tuple, changes_key, update_row}

-- The columns of an entry that a row takes.
unfoldable pub taken : Option (List ℕ) → Tuple → Tuple
taken none tuple = tuple
taken (some attrs) tuple = project tuple attrs

abbrev pub HasTaken : Option (List ℕ) → Tuple → Type 0
HasTaken none tuple = Unit {0}
HasTaken (some attrs) tuple = All (λ p. p < length tuple) attrs

update_tuple-taken :
    (key_attrs : Option (List ℕ)) (tuple : Tuple)
    → HasTaken key_attrs tuple
    → update_tuple key_attrs tuple ≡ ok (taken key_attrs tuple)
unfolding update_tuple taken
update_tuple-taken none tuple h = refl
update_tuple-taken (some attrs) tuple h = keys_from_tuple-project tuple attrs h

-- What an entry makes of the row with its id.
abbrev pub takes : Option (List ℕ) → Entry → Row → Row
takes key_attrs e row = record row { tuple = taken key_attrs e.0 }

-- An entry has the columns to take, and the id of a live row.
abbrev pub Fits : Option (List ℕ) → List Row → Entry → Type 0
Fits key_attrs rows e = HasTaken key_attrs e.0 × IsLive rows e.1

module _ (key_attrs : Option (List ℕ)) where
  row_after-deleted :
      (entries : List Entry) (i : ℕ) (row : Row)
      → (row_after (takes key_attrs) entries i row).tuple_meta.is_deleted
        ≡ row.tuple_meta.is_deleted
  unfolding row_after
  row_after-deleted [] i row = refl
  row_after-deleted (e ∷ entries) i row = elim (Bool-cases (e.1 == i)) [
    | inl same ↦
        rw (row_after, same)
          (row_after-deleted entries i (record row { tuple = taken key_attrs e.0 }))
    | inr other ↦ rw (row_after, other) (row_after-deleted entries i row)
  ]

  pub All-Fits :
      (entries input : List Entry) (rows : List Row)
      → All (Fits key_attrs rows) input
      → All (Fits key_attrs (rows_after (takes key_attrs) entries rows 0)) input
  All-Fits entries [] rows h = tt
  All-Fits entries (e ∷ input) rows ((columns, (row, there, live)), fits) = (
    (
      columns,
      (
        row_after (takes key_attrs) entries e.1 row,
        at-rows_after (takes key_attrs) entries rows e.1 0 e.1 row (omega arith) there,
        row_after-deleted entries e.1 row ∙ live,
      ),
    ),
    All-Fits entries input rows fits,
  )

  pub update_row-Fits :
      (e : Entry) (rows : List Row)
      → Fits key_attrs rows e
      → length rows ≤ invalid_id
      → update_row key_attrs none e.0 e.1 rows
        ≡ ok (taken key_attrs e.0, false, rows_after (takes key_attrs) (e ∷ []) rows 0)
  unfolding update_row update_tuple changes_key taken
  update_row-Fits e rows (columns, (row, there, live)) few =
      let found = get_elem?-lt rows e.1 row (get_elem?-at rows e.1 row there) in
      let valid : (e.1 == invalid_id) ≡ false = ground (arith, found, few) in
      let written = rows_after-set (takes key_attrs) e e.1 0 rows row (omega arith) there in
      rw (valid, update_tuple-taken key_attrs e.0 columns, there, live)
        (ap (λ r. ok (taken key_attrs e.0, false, r)) (rw live at written))

pub both-Fits :
    (key_attrs : Option (List ℕ)) (rows : List Row) (entries : List Entry)
    → All (λ (e : Entry). HasTaken key_attrs e.0) entries
    → All (λ (e : Entry). IsLive rows e.1) entries
    → All (Fits key_attrs rows) entries
both-Fits key_attrs rows [] columns live = tt
both-Fits key_attrs rows (e ∷ entries) columns live =
    ((columns.0, live.0), both-Fits key_attrs rows entries columns.1 live.1)
