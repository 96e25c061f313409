-- ===== src/Execution/RowOps/Indexed.antt =====
-- The index of a table and its rows.
use p2_hash_join_optimizatio.Common.{
  some_injective, get_elem?-lt, get_elem?-set, get_elem?-push, ℕ, ◌<◌, ◌≡◌, ◌≢◌, sym, ap, ◌∙◌, ◌⊎◌,
  inl, inr, true, false, List, [], ◌∷◌, ◌++◌, none, some, Option-cases, Bool-cases, ok, throw,
  insert_duplicated_key, arith, length, get_elem?, set, eqb_ℤ, eqb_ℤ_iff, eqb_ℤ_refl, if◌then◌else◌,
  ◌==◌, ==_iff,
}
use p2_hash_join_optimizatio.Types.{Data, Tuple, invalid_id}
use p2_hash_join_optimizatio.Types.Lookup.{column, at-get_elem?}
use p2_hash_join_optimizatio.Storage.Table.{Row, fresh_meta}
use p2_hash_join_optimizatio.Storage.StlmapIndex.{StlmapIndex, find, put, scan_key, insert_entry}
use p2_hash_join_optimizatio.Storage.StlmapIndex.OfTable.{IsIndexed}
use p2_hash_join_optimizatio.Storage.StlmapIndex.Laws.{find-put}
use p2_hash_join_optimizatio.Execution.RowOps.{
  delete_row, insert_row_wo_index, insert_row_with_index,
}

scan_key-some : (k : Data) (ix : StlmapIndex) (r : ℕ) → find k ix.index ≡ some r → scan_key k ix ≡ r
unfolding scan_key
scan_key-some k ix r h = rw (h, scan_key)

scan_key-none : (k : Data) (ix : StlmapIndex) → find k ix.index ≡ none → scan_key k ix ≡ invalid_id
unfolding scan_key
scan_key-none k ix h = rw (h, scan_key)

module _ (attr : ℕ) (rows : List Row) (index : StlmapIndex) (ind : IsIndexed attr rows index) where
  -- In a table whose index is right for it, DeleteRow of a row that is there marks it, changes no
  -- other row, and leaves the index right for the table.
  pub delete_row-IsIndexed :
      (row_id : ℕ) (row : Row)
      → get_elem? rows row_id ≡ some row
      → (rows' : List Row) × (delete_row row_id rows ≡ ok rows')
        × IsIndexed attr rows' index
        × ((j : ℕ)
            → get_elem? rows' j ≡ (
                if row_id == j
                then some (record row { tuple_meta = record { is_deleted = true } })
                else get_elem? rows j))
  unfolding delete_row
  delete_row-IsIndexed row_id row there =
      let gone : Row = record row { tuple_meta = record { is_deleted = true } } in
      let look = λ (j : ℕ). get_elem?-set rows row_id j gone (get_elem?-lt rows row_id row there) in
      (
        set rows row_id gone,
        rw (at-get_elem? rows row_id row there),
        record {
          sound = λ k r h.
              let (old, at_r, keyed) = ind.sound k r h in
              elim (Bool-cases (row_id == r)) [
                | inl same ↦
                    let e : old ≡ row =
                      some_injective
                        (sym at_r ∙ ap (get_elem? rows) (sym ((==_iff row_id r).0 same)) ∙ there) in
                    (
                      gone,
                      ground (arith, look r),
                      ap (λ (x : Row). column x.tuple attr) (sym e) ∙ keyed,
                    )
                | inr ne ↦ (old, ground (arith, look r), keyed)
              ];
          complete = λ r row' h live. ind.complete r row' (ground (arith, look r)) live;
        },
        look,
      )

  -- What an insertion under a key leaves: one row that is new, at `r`, and no row with the key before.
  pub record Inserts (tuple : Tuple) (rows' : List Row) (index' : StlmapIndex) (r : ℕ)
      : Type 0 where
    pub indexed : IsIndexed attr rows' index'
    pub rows_after :
        (j : ℕ)
        → get_elem? rows' j ≡ (
            if r == j
            then some (record { tuple = tuple; tuple_meta = fresh_meta })
            else get_elem? rows j)
    pub was_free :
        (j : ℕ) (row : Row)
        → get_elem? rows j ≡ some row
        → row.tuple_meta.is_deleted ≡ false
        → column row.tuple attr ≢ column tuple attr

  module _ (tuple : Tuple) where
    abbrev fresh : Row
    fresh = record { tuple = tuple; tuple_meta = fresh_meta }

    abbrev key : Data
    key = column tuple attr

    append-Inserts :
        find key index.index ≡ none
        → Inserts tuple
            (rows ++ fresh ∷ [])
            (record index { index = put key (length rows) index.index })
            (length rows)
    append-Inserts absent =
        let look = λ (j : ℕ). get_elem?-push rows j fresh in
        record {
          indexed = record {
            sound = λ k q h. elim (Bool-cases (eqb_ℤ key k)) [
              | inl same ↦ (
                fresh,
                ground (arith, look q, find-put key k (length rows) index.index),
                (eqb_ℤ_iff key k).0 same,
              )
              | inr ne ↦
                  let (old, at_q, keyed) =
                    ind.sound k q (ground (arith, find-put key k (length rows) index.index)) in
                  (old, ground (arith, look q, get_elem?-lt rows q old at_q), keyed)
            ];
            complete = λ q row h live. elim (Bool-cases (length rows == q)) [
              | inl same ↦
                  let e : fresh ≡ row = some_injective (ground (arith, look q)) in
                  rw (← e)
                    (ground (arith, find-put key key (length rows) index.index, eqb_ℤ_refl key))
              | inr ne ↦
                  let at_q : get_elem? rows q ≡ some row = ground (arith, look q) in
                  let found = ind.complete q row at_q live in
                  ground (
                    arith,
                    find-put key (column row.tuple attr) (length rows) index.index,
                    eqb_ℤ_iff key (column row.tuple attr),
                  )
            ];
          };
          rows_after = look;
          was_free = λ j row h live same.
              cc (ind.complete j row h live, ap (λ k. find k index.index) same);
        }

    reuse-Inserts :
        (r : ℕ) (old : Row)
        → find key index.index ≡ some r
        → get_elem? rows r ≡ some old
        → old.tuple_meta.is_deleted ≡ true
        → Inserts tuple (set rows r fresh) index r
    reuse-Inserts r old found there gone =
        let look = λ (j : ℕ). get_elem?-set rows r j fresh (get_elem?-lt rows r old there) in
        let old_key : column old.tuple attr ≡ key =
          (let (row, at_r, keyed) = ind.sound key r found in
            ap (λ (x : Row). column x.tuple attr) (some_injective (sym there ∙ at_r)) ∙ keyed) in
        record {
          indexed = record {
            sound = λ k q h. elim (Bool-cases (r == q)) [
              | inl same ↦
                  let (row, at_q, keyed) = ind.sound k q h in
                  let e : old ≡ row =
                    some_injective (sym there ∙ ap (get_elem? rows) ((==_iff r q).0 same) ∙ at_q) in
                  (
                    fresh,
                    ground (arith, look q),
                    sym old_key ∙ ap (λ (x : Row). column x.tuple attr) e ∙ keyed,
                  )
              | inr ne ↦
                  let (row, at_q, keyed) = ind.sound k q h in (row, ground (arith, look q), keyed)
            ];
            complete = λ q row h live. elim (Bool-cases (r == q)) [
              | inl same ↦
                  let e : fresh ≡ row = some_injective (ground (arith, look q)) in
                  ap (λ (x : Row). find (column x.tuple attr) index.index) (sym e)
                  ∙ found
                  ∙ ap some ((==_iff r q).0 same)
              | inr ne ↦ ind.complete q row (ground (arith, look q)) live
            ];
          };
          rows_after = look;
          was_free = λ j row h live same.
              let e : j ≡ r =
                some_injective
                  (sym (ind.complete j row h live) ∙ ap (λ k. find k index.index) same ∙ found) in
              let rows_agree : row ≡ old = some_injective (sym h ∙ ap (get_elem? rows) e ∙ there) in
              cc (ap (λ (x : Row). x.tuple_meta.is_deleted) rows_agree);
        }

    -- In a table whose index is right for it and that has fewer rows than the invalid id,
    -- InsertRowWithIndex under the key of the tuple either throws, and then a live row has that
    -- key, or leaves an index that is right for the table with the tuple as one live row, no other
    -- row changed and no live row that had the key before.
    pub insert_row_with_index-Inserts :
        length rows < invalid_id
        → ((q : ℕ) × (row : Row) × (get_elem? rows q ≡ some row)
            × (row.tuple_meta.is_deleted ≡ false)
            × (column row.tuple attr ≡ key)
            × (insert_row_with_index tuple key rows index ≡ throw insert_duplicated_key))
          ⊎ ((rows' : List Row) × (index' : StlmapIndex) × (r : ℕ) × (insert_row_with_index tuple
                  key rows index
                ≡ ok (rows', index'))
              × Inserts tuple rows' index' r)
    unfolding insert_row_with_index insert_row_wo_index insert_entry
    insert_row_with_index-Inserts few = elim (Option-cases (find key index.index)) [
      | inl absent ↦ inr (
        rows ++ fresh ∷ [],
        record index { index = put key (length rows) index.index },
        length rows,
        rw (scan_key-none key index absent, absent, insert_entry),
        append-Inserts absent,
      )
      | inr (r, found) ↦
          let (row, at_r, keyed) = ind.sound key r found in
          let used : (r == invalid_id) ≡ false = ground (arith, get_elem?-lt rows r row at_r) in
          elim (Bool-cases row.tuple_meta.is_deleted) [
            | inl gone ↦ inr (
              set rows r fresh,
              index,
              r,
              rw (
                scan_key-some key index r found,
                used,
                at-get_elem? rows r row at_r,
                gone,
                scan_key-some key index r found,
              ),
              reuse-Inserts r row found at_r gone,
            )
            | inr live ↦ inl (
              r,
              row,
              at_r,
              live,
              keyed,
              rw (scan_key-some key index r found, used, at-get_elem? rows r row at_r, live),
            )
          ]
    ]
