-- ===== src/Storage/StlmapIndex/OfTable.antt =====
-- src/storage/stlmap_index.cpp: the index of a table and its rows, and the constructor.
use p2_hash_join_optimizatio.Common.{
  ℕ, ◌+◌, ◌<◌, ◌≡◌, refl, sym, ap, ◌∙◌, ◌⊎◌, inl, inr, true, false, String, List, [], ◌∷◌, ◌++◌,
  append_assoc, append-nil, get_elem?-append_left, get_elem?-drop, drop-append_length, none, some,
  Option-cases, Bool-cases, ok, throw, duplicated_key, arith, length, length-append, get_elem?,
  get_elem?-lt, get_elem?-push, some_injective, eqb_ℤ, eqb_ℤ_iff, eqb_ℤ_refl, ==_refl, ◌==◌, ==_iff,
  All,
}
use p2_hash_join_optimizatio.Types.{Data, get_key_attr}
use p2_hash_join_optimizatio.Types.Lookup.{column, key_from_tuple-column}
use p2_hash_join_optimizatio.Storage.Table.{Table, Row}
use p2_hash_join_optimizatio.Storage.StlmapIndex.{
  StlmapIndex, find, put, insert_entry, index_rows, new_stlmap_index,
}
use p2_hash_join_optimizatio.Storage.StlmapIndex.Laws.{IsSorted, find-put, put-IsSorted}

-- Every entry leads to a row with its key, and every live row is the one that its key leads to.
pub record IsIndexed (attr : ℕ) (rows : List Row) (index : StlmapIndex) : Type 0 where
  pub sound :
      (k : Data) (r : ℕ)
      → find k index.index ≡ some r
      → (row : Row) × (get_elem? rows r ≡ some row) × (column row.tuple attr ≡ k)
  pub complete :
      (r : ℕ) (row : Row)
      → get_elem? rows r ≡ some row
      → row.tuple_meta.is_deleted ≡ false
      → find (column row.tuple attr) index.index ≡ some r

module _ (attr : ℕ) where
  -- An index of the live rows only, as the constructor makes it.
  record IsFresh (rows : List Row) (index : StlmapIndex) : Type 0 where
    sorted : IsSorted index.index
    leads :
        (k : Data) (r : ℕ)
        → find k index.index ≡ some r
        → (row : Row) × (get_elem? rows r ≡ some row)
          × (column row.tuple attr ≡ k)
          × (row.tuple_meta.is_deleted ≡ false)
    finds :
        (r : ℕ) (row : Row)
        → get_elem? rows r ≡ some row
        → row.tuple_meta.is_deleted ≡ false
        → find (column row.tuple attr) index.index ≡ some r

  -- A row at the end.
  push-old :
      (front : List Row) (new : Row) (r : ℕ) (row : Row)
      → get_elem? front r ≡ some row
      → get_elem? (front ++ new ∷ []) r ≡ some row
  push-old front new r row h =
      ground (arith, get_elem?-push front r new, get_elem?-lt front r row h)

  push-cases :
      (front : List Row) (new : Row) (r : ℕ) (row : Row)
      → get_elem? (front ++ new ∷ []) r ≡ some row
      → ((length front ≡ r) × (new ≡ row)) ⊎ (get_elem? front r ≡ some row)
  push-cases front new r row h =
      let look = sym (get_elem?-push front r new) ∙ h in
      elim (Bool-cases (length front == r)) [
        | inl here ↦ inl ((==_iff (length front) r).0 here, some_injective (rw here at look))
        | inr before ↦ inr (rw before at look)
      ]

  deleted-IsFresh :
      (front : List Row) (new : Row) (index : StlmapIndex)
      → IsFresh front index
      → new.tuple_meta.is_deleted ≡ true
      → IsFresh (front ++ new ∷ []) index
  deleted-IsFresh front new index h gone = record {
    sorted = h.sorted;
    leads = λ k r found.
        let (row, there, keyed, live) = h.leads k r found in
        (row, push-old front new r row there, keyed, live);
    finds = λ r row there live. elim (push-cases front new r row there) [
      | inl (e, same) ↦
          absurd (cc (sym gone ∙ ap (λ (x : Row). x.tuple_meta.is_deleted) same ∙ live))
      | inr old ↦ h.finds r row old live
    ];
  }

  live-IsFresh :
      (front : List Row) (new : Row) (index : StlmapIndex)
      → IsFresh front index
      → new.tuple_meta.is_deleted ≡ false
      → find (column new.tuple attr) index.index ≡ none
      → IsFresh
          (front ++ new ∷ [])
          (record index { index = put (column new.tuple attr) (length front) index.index })
  live-IsFresh front new index h live absent = record {
    sorted = put-IsSorted _ _ index.index h.sorted;
    leads = λ k r found.
        let found' = sym (find-put (column new.tuple attr) k (length front) index.index) ∙ found in
        elim (Bool-cases (eqb_ℤ (column new.tuple attr) k)) [
          | inl same ↦
              let at_end : length front ≡ r = some_injective (rw same at found') in
              (
                new,
                get_elem?-push front r new ∙ rw (← at_end, ==_refl (length front)),
                (eqb_ℤ_iff (column new.tuple attr) k).0 same,
                live,
              )
          | inr other ↦
              let (row, there, keyed, kept) = h.leads k r (rw other at found') in
              (row, push-old front new r row there, keyed, kept)
        ];
    finds = λ r row there kept.
        let look =
          find-put (column new.tuple attr) (column row.tuple attr) (length front) index.index in
        elim (push-cases front new r row there) [
          | inl (e, same) ↦ look ∙ rw (← same, eqb_ℤ_refl (column new.tuple attr), e)
          | inr old ↦
              let before = h.finds r row old kept in
              elim (Bool-cases (eqb_ℤ (column new.tuple attr) (column row.tuple attr))) [
                | inr other ↦ look ∙ rw other before
                | inl same ↦ absurd (
                    cc (
                      sym absent
                      ∙ ap (λ k. find k index.index)
                          ((eqb_ℤ_iff (column new.tuple attr) (column row.tuple attr)).0 same)
                      ∙ before))
              ]
        ];
  }

  -- Two live rows with one key.
  abbrev pub Duplicate : List Row → Type 0
  Duplicate rows =
      (i j : ℕ) × (first second : Row) × (i < j)
      × (get_elem? rows i ≡ some first)
      × (get_elem? rows j ≡ some second)
      × (first.tuple_meta.is_deleted ≡ false)
      × (second.tuple_meta.is_deleted ≡ false)
      × (column first.tuple attr ≡ column second.tuple attr)

  -- The rest of the loop, when the rows `front` are in the index.
  index_rows-IsFresh :
      (rest front : List Row) (row_id : ℕ) (index : StlmapIndex)
      → row_id ≡ length front
      → IsFresh front index
      → All (λ row. attr < length row.tuple) rest
      → ((index' : StlmapIndex) × (index_rows attr rest row_id index ≡ ok index')
          × IsFresh (front ++ rest) index')
        ⊎ ((index_rows attr rest row_id index ≡ throw duplicated_key) × Duplicate (front ++ rest))
  unfolding index_rows insert_entry
  index_rows-IsFresh [] front row_id index e h fits = inl (index, refl, rw append-nil h)
  index_rows-IsFresh (row ∷ rest) front row_id index e h (fit, fits) =
      let after = length-append front (row ∷ []) in
      let shift = append_assoc front (row ∷ []) rest in
      elim (Bool-cases row.tuple_meta.is_deleted) [
        | inl gone ↦
            elim (index_rows-IsFresh rest (front ++ row ∷ []) (row_id + 1) index
              (omega (arith, after)) (deleted-IsFresh front row index h gone) fits) [
                | inl (index', run, fresh) ↦ inl (index', rw gone run, rw shift at fresh)
                | inr (stop, twice) ↦ inr (rw gone stop, rw shift at twice)
              ]
        | inr live ↦
            let key = key_from_tuple-column row.tuple attr fit in
            elim (Option-cases (find (column row.tuple attr) index.index)) [
              | inr (r, there) ↦
                  let (old, at_r, keyed, kept) = h.leads (column row.tuple attr) r there in
                  inr (
                    rw (live, key, insert_entry, there),
                    (
                      r,
                      length front,
                      old,
                      row,
                      get_elem?-lt front r old at_r,
                      get_elem?-append_left front (row ∷ rest) r old at_r,
                      get_elem?-drop (length front) _ row rest
                          (drop-append_length front (row ∷ rest)),
                      kept,
                      live,
                      keyed,
                    ),
                  )
              | inl absent ↦
                  let index₁ : StlmapIndex = record index {
                    index = put (column row.tuple attr) (length front) index.index;
                  } in
                  elim (index_rows-IsFresh rest (front ++ row ∷ []) (row_id + 1) index₁
                    (omega (arith, after)) (live-IsFresh front row index h live absent) fits) [
                      | inl (index', run, fresh) ↦ inl (
                        index',
                        rw (live, key, insert_entry, absent, e) (rw e at run),
                        rw shift at fresh,
                      )
                      | inr (stop, twice) ↦ inr (
                        rw (live, key, insert_entry, absent, e) (rw e at stop),
                        rw shift at twice,
                      )
                    ]
            ]
      ]

-- Where the table has the key column and every row has it, the constructor of StlmapIndex either
-- makes an index in order that is right for the table, or throws, and then two live rows have the
-- same key.
pub new_stlmap_index-IsIndexed :
    (name : String) (table : Table) (key_name : String) (attr : ℕ)
    → get_key_attr table.schema key_name ≡ ok attr
    → All (λ row. attr < length row.tuple) table.rows
    → ((index : StlmapIndex) × (new_stlmap_index name table key_name ≡ ok index)
        × IsSorted index.index
        × IsIndexed attr table.rows index)
      ⊎ ((new_stlmap_index name table key_name ≡ throw duplicated_key) × Duplicate attr table.rows)
unfolding new_stlmap_index find
new_stlmap_index-IsIndexed name table key_name attr key fits =
    let index : StlmapIndex = record {
      name = name;
      table_name = table.name;
      key_name = key_name;
      index = [];
    } in
    let nothing : IsFresh attr [] index = record {
      sorted = tt;
      leads = λ k r found. absurd (cc);
      finds = λ r row there live. absurd (cc);
    } in
    elim (index_rows-IsFresh attr table.rows [] 0 index refl nothing fits) [
      | inr (stop, twice) ↦ inr (rw (key, stop), twice)
      | inl (index', run, fresh) ↦ inl (
        index',
        rw (key, run),
        fresh.sorted,
        record {
          sound = λ k r found.
              let (row, there, keyed, live) = fresh.leads k r found in (row, there, keyed);
          complete = fresh.finds;
        },
      )
    ]
