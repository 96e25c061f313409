-- ===== src/Execution/RangeIndexScan/Fetched.antt =====
-- What the scan of an index is to return: the live rows at the ids that the index gives, and, in another
-- order, the live rows of the table whose key is in the range.
use p2_hash_join_optimizatio.Common.{
  ℕ, ◌+◌, ◌≡◌, refl, ap, ◌∙◌, Bool, true, false, List, [], ◌∷◌, ◌++◌, Option, none, some, get_elem?,
  if◌then◌else◌, Option-cases, inl, inr, Perm,
}
use mathlib.Core.List.{filter_map as list_filter_map}
use mathlib.Core.List.Perm
use p2_hash_join_optimizatio.Types.{Data}
use p2_hash_join_optimizatio.Types.Lookup.{column, project}
use p2_hash_join_optimizatio.Storage.Table.{Row}
use p2_hash_join_optimizatio.Execution.Operator.{Entry}

-- The row with its id, if it is live.
abbrev pub entry_of : List ℕ → Row → ℕ → Option Entry
entry_of attrs row row_id = elim row.tuple_meta.is_deleted [
  | true ↦ none
  | false ↦ some (project row.tuple attrs, row_id)
]

abbrev pub cons_entry : Option Entry → List Entry → List Entry
cons_entry none rest = rest
cons_entry (some e) rest = e ∷ rest

abbrev pub entry_or_none : List ℕ → Option Row → ℕ → Option Entry
entry_or_none attrs none row_id = none
entry_or_none attrs (some row) row_id = entry_of attrs row row_id

abbrev pub entry_at : List ℕ → List Row → ℕ → Option Entry
entry_at attrs rows row_id = entry_or_none attrs (get_elem? rows row_id) row_id

-- The live rows at the ids, in this order.
unfoldable pub fetched : List ℕ → List Row → List ℕ → List Entry
fetched attrs rows [] = []
fetched attrs rows (row_id ∷ row_ids) =
    cons_entry (entry_at attrs rows row_id) (fetched attrs rows row_ids)

-- The live rows of the table whose key is chosen, from row `row_id` on, in the order of their ids.
unfoldable pub chosen_rows : (Data → Bool) → ℕ → List ℕ → List Row → ℕ → List Entry
chosen_rows choose attr attrs [] row_id = []
chosen_rows choose attr attrs (row ∷ rows) row_id =
    let rest = chosen_rows choose attr attrs rows (row_id + 1) in
    if choose (column row.tuple attr) then cons_entry (entry_of attrs row row_id) rest else rest

cons_entry-append :
    (o : Option Entry) (xs ys : List Entry) → cons_entry o (xs ++ ys) ≡ cons_entry o xs ++ ys
cons_entry-append none xs ys = refl
cons_entry-append (some e) xs ys = refl

pub fetched-append :
    (attrs : List ℕ) (rows : List Row) (a b : List ℕ)
    → fetched attrs rows (a ++ b) ≡ fetched attrs rows a ++ fetched attrs rows b
unfolding fetched
fetched-append attrs rows [] b = refl
fetched-append attrs rows (r ∷ a) b =
    ap (cons_entry (entry_at attrs rows r)) (fetched-append attrs rows a b)
    ∙ cons_entry-append (entry_at attrs rows r) (fetched attrs rows a) (fetched attrs rows b)

pub fetched-perm :
    (attrs : List ℕ) (rows : List Row) {xs ys : List ℕ}
    → Perm xs ys
    → Perm (fetched attrs rows xs) (fetched attrs rows ys)
unfolding fetched list_filter_map
fetched-perm attrs rows {xs} {ys} h =
    rw (as_filter xs, as_filter ys) (Perm.filter_map (entry_at attrs rows) h)
  where
    as_filter : (ids : List ℕ) → fetched attrs rows ids ≡ list_filter_map (entry_at attrs rows) ids
    as_filter [] = refl
    as_filter (r ∷ ids) = elim (Option-cases (entry_at attrs rows r)) [
      | inl absent ↦ rw absent (as_filter ids)
      | inr (e, there) ↦ rw there (ap (λ x. e ∷ x) (as_filter ids))
    ]
