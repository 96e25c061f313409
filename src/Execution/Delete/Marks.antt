-- ===== src/Execution/Delete/Marks.antt =====
-- The rows of a table after their deletion.
use p2_hash_join_optimizatio.Common.{
  ℕ, ◌+◌, ◌≤◌, ◌<◌, ◌≡◌, refl, sym, ap, ap₂, ◌∙◌, inl, inr, true, false, List, [], ◌∷◌, ok, arith,
  length, map, All, Bool-cases, ◌==◌, if◌then◌else◌, get_elem?-lt,
}
use p2_hash_join_optimizatio.Types.{at, invalid_id}
use p2_hash_join_optimizatio.Types.Lookup.{project, get_elem?-at}
use p2_hash_join_optimizatio.Storage.Table.{Row}
use p2_hash_join_optimizatio.Execution.Operator.{Entry}
use p2_hash_join_optimizatio.Execution.RowOps.{delete_row}
use p2_hash_join_optimizatio.Execution.RowOps.Changes.{
  row_after, rows_after, rows_after-append, rows_after-past, rows_after-set, at-rows_after,
  row_after-other,
}
use p2_hash_join_optimizatio.Execution.SeqScan.Loop.{live_rows}
use p2_hash_join_optimizatio.Execution.Expression.Filters.{Filter}
use p2_hash_join_optimizatio.Execution.Filter.Rows.{accepts, keep}

-- The row, deleted.
abbrev pub deleted : Row → Row
deleted row = record row { tuple_meta = record { is_deleted = true } }

-- What an entry makes of the row with its id.
abbrev pub deletes : Entry → Row → Row
deletes e row = deleted row

-- A row with the id is there.
abbrev pub IsThere : List Row → Entry → Type 0
IsThere rows e = (row : Row) × (at rows e.1 ≡ ok row)

pub All-IsThere :
    (entries input : List Entry) (rows : List Row)
    → All (IsThere rows) input
    → All (IsThere (rows_after deletes entries rows 0)) input
All-IsThere entries [] rows h = tt
All-IsThere entries (e ∷ input) rows ((row, there), others) = (
  (
    row_after deletes entries e.1 row,
    at-rows_after deletes entries rows e.1 0 e.1 row (omega arith) there,
  ),
  All-IsThere entries input rows others,
)

pub delete_row-IsThere :
    (e : Entry) (rows : List Row)
    → IsThere rows e
    → delete_row e.1 rows ≡ ok (rows_after deletes (e ∷ []) rows 0)
unfolding delete_row
delete_row-IsThere e rows (row, there) =
    rw (there, rows_after-set deletes e e.1 0 rows row (omega arith) there) refl

pub valid_id :
    (e : Entry) (rows : List Row)
    → IsThere rows e
    → length rows ≤ invalid_id
    → (e.1 == invalid_id) ≡ false
valid_id e rows (row, there) few =
    let found = get_elem?-lt rows e.1 row (get_elem?-at rows e.1 row there) in
    ground (arith, found, few)

deleted_again : (row : Row) → row.tuple_meta.is_deleted ≡ true → deleted row ≡ row
deleted_again row gone = ground arith

module _ (fs : List Filter) (attrs : List ℕ) where
  -- The row, deleted if its scanned columns pass the filters.
  abbrev pub deleted_if_accepted : Row → Row
  deleted_if_accepted row = if accepts fs (project row.tuple attrs) then deleted row else row

  -- The rows that pass.
  abbrev pub passing : List Row → ℕ → List Entry
  passing rows row_id = keep fs (live_rows attrs rows row_id)

  passing-above :
      (rows : List Row) (i row_id : ℕ)
      → i < row_id
      → All (λ (e : Entry). i < e.1) (passing rows row_id)
  unfolding live_rows keep
  passing-above [] i row_id h = tt
  passing-above (row ∷ rows) i row_id h =
      let others = passing-above rows i (row_id + 1) (omega (arith, h)) in
      elim (Bool-cases row.tuple_meta.is_deleted) [
        | inl gone ↦ rw gone others
        | inr live ↦ elim (Bool-cases (accepts fs (project row.tuple attrs))) [
          | inl passed ↦ rw (live, passed) (h, others)
          | inr failed ↦ rw (live, failed) others
        ]
      ]

  -- The first row does not pass, and then passes.
  skip_row :
      (row : Row) (rows : List Row) (i : ℕ)
      → passing (row ∷ rows) i ≡ passing rows (i + 1)
      → deleted_if_accepted row ≡ row
      → rows_after deletes (passing rows (i + 1)) rows (i + 1) ≡ map deleted_if_accepted rows
      → rows_after deletes (passing (row ∷ rows) i) (row ∷ rows) i
        ≡ map deleted_if_accepted (row ∷ rows)
  unfolding rows_after
  skip_row row rows i skipped stays rest =
      let entries = passing rows (i + 1) in
      let same =
        row_after-other deletes entries i row (passing-above rows i (i + 1) (omega arith)) in
      ap (λ es. rows_after deletes es (row ∷ rows) i) skipped
      ∙ ap₂ (λ (r : Row) (rs : List Row). r ∷ rs) (same ∙ sym stays) rest

  delete_first :
      (row : Row) (rows : List Row) (i : ℕ)
      → passing (row ∷ rows) i ≡ (project row.tuple attrs, i) ∷ passing rows (i + 1)
      → deleted_if_accepted row ≡ deleted row
      → rows_after deletes (passing rows (i + 1)) rows (i + 1) ≡ map deleted_if_accepted rows
      → rows_after deletes (passing (row ∷ rows) i) (row ∷ rows) i
        ≡ map deleted_if_accepted (row ∷ rows)
  unfolding rows_after row_after
  delete_first row rows i taken goes rest =
      let entries = passing rows (i + 1) in
      let e : Entry = (project row.tuple attrs, i) in
      let this : (i == i) ≡ true = ground arith in
      let head : row_after deletes (e ∷ entries) i row ≡ deleted row =
        rw (row_after, this)
          (row_after-other deletes entries i (deleted row)
            (passing-above rows i (i + 1) (omega arith))) in
      let past : rows_after deletes (e ∷ []) rows (i + 1) ≡ rows =
        rows_after-past deletes e rows (i + 1) (omega arith) in
      let tail : rows_after deletes (e ∷ entries) rows (i + 1)
          ≡ rows_after deletes entries rows (i + 1) =
        rows_after-append deletes (e ∷ []) entries rows (i + 1)
        ∙ ap (λ rs. rows_after deletes entries rs (i + 1)) past in
      ap (λ es. rows_after deletes es (row ∷ rows) i) taken
      ∙ ap₂ (λ (r : Row) (rs : List Row). r ∷ rs) (head ∙ sym goes) (tail ∙ rest)

  -- The deletion of the rows that pass.
  pub rows_after-map :
      (rows : List Row) (i : ℕ)
      → rows_after deletes (passing rows i) rows i ≡ map deleted_if_accepted rows
  unfolding rows_after live_rows keep
  rows_after-map [] i = refl
  rows_after-map (row ∷ rows) i =
      let rest = rows_after-map rows (i + 1) in
      elim (Bool-cases row.tuple_meta.is_deleted) [
        | inl gone ↦ elim (Bool-cases (accepts fs (project row.tuple attrs))) [
          | inl passed ↦
              skip_row row rows i (rw gone refl) (rw passed (deleted_again row gone)) rest
          | inr failed ↦ skip_row row rows i (rw gone refl) (rw failed refl) rest
        ]
        | inr live ↦ elim (Bool-cases (accepts fs (project row.tuple attrs))) [
          | inl passed ↦ delete_first row rows i (rw (live, passed) refl) (rw passed refl) rest
          | inr failed ↦ skip_row row rows i (rw (live, failed) refl) (rw failed refl) rest
        ]
      ]
