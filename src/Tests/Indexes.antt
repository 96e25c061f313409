-- ===== src/Tests/Indexes.antt =====
-- An index of three entries and a table with one deleted row.
use p2_hash_join_optimizatio.Common.{
  set, some_injective, ℕ, zero, suc, ◌≡◌, refl, ◌⊎◌, inl, true, false, pos, List, [], ◌∷◌, none, ok,
  throw, fault, past_the_end, duplicated_key, insert_duplicated_key, if◌then◌else◌, eqb_ℤ_iff, ap,
  sym, arith, get_elem?, some, ◌==◌,
}
use p2_hash_join_optimizatio.Types.{key_from_tuple, Data, RangeInfo, invalid_id}
use p2_hash_join_optimizatio.Types.Lookup.{column}
use p2_hash_join_optimizatio.Types.Ranges.{in_range}
use p2_hash_join_optimizatio.Storage.Table.{Row, fresh_meta}
use p2_hash_join_optimizatio.Storage.StlmapIndex.{
  StlmapIndex, find, put, erase, scan_key, insert_entry, erase_entry, scan_range,
}
use p2_hash_join_optimizatio.Storage.Index.{
  IndexCall, inserts, erases, scans, stlmap_index, serve_all,
}
use p2_hash_join_optimizatio.Storage.Index.FiniteMaps.{finite_map, view, stlmap_index-Refines}
use p2_hash_join_optimizatio.Storage.StlmapIndex.Laws.{IsSorted}
use p2_hash_join_optimizatio.Storage.StlmapIndex.Ranges.{
  ids, scan_range-ids, scan_range-past_the_end,
}
use p2_hash_join_optimizatio.Execution.Update.Row.{update_row, update_tuple, changes_key}
use p2_hash_join_optimizatio.Execution.Update.Row.Indexed.{update_row-IsIndexed}
use p2_hash_join_optimizatio.Execution.RowOps.{delete_row, insert_row_with_index}
use p2_hash_join_optimizatio.Storage.StlmapIndex.OfTable.{IsIndexed}
use p2_hash_join_optimizatio.Execution.RowOps.Indexed.{
  Inserts, delete_row-IsIndexed, insert_row_with_index-Inserts,
}

abbrev three : StlmapIndex
three = record {
  name = "by_id";
  table_name = "t";
  key_name = "id";
  index = (pos 3, 2) ∷ (pos 5, 0) ∷ (pos 8, 1) ∷ [];
}

three-IsSorted : IsSorted three.index
three-IsSorted = ((refl, (refl, tt)), ((refl, tt), (tt, tt)))

-- A key that is there, one that is not, and reads of both after an erasure.
abbrev some_calls : List IndexCall
some_calls =
    inserts (pos 5) 9 ∷ inserts (pos 6) 3 ∷ erases (pos 5) 0 ∷ scans (pos 5) ∷ scans (pos 6) ∷ []

stlmap_index-Refines_example :
    ((serve_all stlmap_index.index some_calls three).1
      ≡ (serve_all finite_map some_calls (view three)).1)
    × (view (serve_all stlmap_index.index some_calls three).0
        ≡ (serve_all finite_map some_calls (view three)).0)
    × IsSorted (serve_all stlmap_index.index some_calls three).0.index
stlmap_index-Refines_example = stlmap_index-Refines some_calls three three-IsSorted

some_replies :
    (serve_all stlmap_index.index some_calls three).1
    ≡ throw duplicated_key ∷ ok none ∷ ok none ∷ ok (some invalid_id) ∷ ok (some 3) ∷ []
unfolding serve_all stlmap_index insert_entry erase_entry scan_key find put erase
some_replies = refl

abbrev from_three_to_eight : RangeInfo
from_three_to_eight = record {
  start = pos 3;
  end = pos 8;
  contain_start = true;
  contain_end = false;
}

scan_range-ids_example :
    scan_range from_three_to_eight three ≡ ok (ids (in_range from_three_to_eight) three.index)
scan_range-ids_example = scan_range-ids from_three_to_eight three three-IsSorted (inl refl)

abbrev open_at_five : RangeInfo
open_at_five = record { start = pos 5; end = pos 5; contain_start = false; contain_end = false }

scan_range-past_the_end_example : scan_range open_at_five three ≡ fault past_the_end
unfolding find
scan_range-past_the_end_example =
    scan_range-past_the_end open_at_five three (pos 5) 0 three-IsSorted refl refl refl

abbrev live : Row
live = record { tuple = pos 5 ∷ pos 50 ∷ []; tuple_meta = fresh_meta }

abbrev dead : Row
dead = record { tuple = pos 8 ∷ pos 80 ∷ []; tuple_meta = record { is_deleted = true } }

abbrev pub rows : List Row
rows = live ∷ dead ∷ []

abbrev pub by_id : StlmapIndex
by_id = record {
  name = "by_id";
  table_name = "t";
  key_name = "id";
  index = (pos 5, 0) ∷ (pos 8, 1) ∷ [];
}

entries_lead_to_rows :
    (k : Data) (r : ℕ)
    → find k by_id.index ≡ some r
    → (row : Row) × (get_elem? rows r ≡ some row) × (column row.tuple 0 ≡ k)
unfolding find
entries_lead_to_rows k zero h = (live, refl, (eqb_ℤ_iff (pos 5) k).0 (ground arith))
entries_lead_to_rows k (suc zero) h = (dead, refl, (eqb_ℤ_iff (pos 8) k).0 (ground arith))
entries_lead_to_rows k (suc (suc r)) h = absurd (ground arith)

live_rows_are_found :
    (r : ℕ) (row : Row)
    → get_elem? rows r ≡ some row
    → row.tuple_meta.is_deleted ≡ false
    → find (column row.tuple 0) by_id.index ≡ some r
unfolding find
live_rows_are_found zero row h a =
    ap (λ (x : Row). find (column x.tuple 0) by_id.index) (sym (some_injective h))
live_rows_are_found (suc zero) row h a =
    absurd (cc (ap (λ (x : Row). x.tuple_meta.is_deleted) (some_injective h)))
live_rows_are_found (suc (suc r)) row h a = absurd (cc)

pub by_id-IsIndexed : IsIndexed 0 rows by_id
by_id-IsIndexed = record { sound = entries_lead_to_rows; complete = live_rows_are_found }

delete_row-IsIndexed_example :
    (rows' : List Row) × (delete_row 0 rows ≡ ok rows')
    × IsIndexed 0 rows' by_id
    × ((j : ℕ)
        → get_elem? rows' j ≡ (
            if 0 == j
            then some (record live { tuple_meta = record { is_deleted = true } })
            else get_elem? rows j))
delete_row-IsIndexed_example = delete_row-IsIndexed 0 rows by_id by_id-IsIndexed 0 live refl

insert_row_with_index-Inserts_example :
    ((q : ℕ) × (row : Row) × (get_elem? rows q ≡ some row)
      × (row.tuple_meta.is_deleted ≡ false)
      × (column row.tuple 0 ≡ pos 8)
      × (insert_row_with_index (pos 8 ∷ pos 81 ∷ []) (pos 8) rows by_id
          ≡ throw insert_duplicated_key))
    ⊎ ((rows' : List Row) × (index' : StlmapIndex) × (r : ℕ) × (insert_row_with_index
            (pos 8 ∷ pos 81 ∷ [])
            (pos 8)
            rows
            by_id
          ≡ ok (rows', index'))
        × Inserts 0 rows by_id by_id-IsIndexed (pos 8 ∷ pos 81 ∷ []) rows' index' r)
insert_row_with_index-Inserts_example =
    insert_row_with_index-Inserts 0 rows by_id by_id-IsIndexed (pos 8 ∷ pos 81 ∷ []) (omega arith)

abbrev repriced : List Row
repriced = record live { tuple = pos 5 ∷ pos 51 ∷ [] } ∷ dead ∷ []

update_row-IsIndexed_example :
    IsIndexed 0 repriced by_id
    × (((false ≡ true) × (repriced ≡ rows))
        ⊎ ((row : Row) × (false ≡ false)
            × (get_elem? rows 0 ≡ some row)
            × (column row.tuple 0 ≡ pos 5)
            × (repriced ≡ set rows 0 (record row { tuple = pos 5 ∷ pos 51 ∷ [] }))))
unfolding update_row update_tuple changes_key key_from_tuple
update_row-IsIndexed_example =
    update_row-IsIndexed 0 rows by_id by_id-IsIndexed "by_id" none (pos 5 ∷ pos 51 ∷ [])
      (pos 5 ∷ pos 51 ∷ []) 0 false repriced refl
