-- ===== src/Storage/StlmapIndex.antt =====
-- src/include/storage/index.hpp, src/storage/stlmap_index.cpp: an ordered index over one column.
-- `std::map<data_t, idx_t>` is the list of its entries in the order of their keys.
pub mod Laws
pub mod Ranges
pub mod OfTable
use p2_hash_join_optimizatio.Common.{
  ℕ, zero, suc, ◌+◌, String, Bool, true, false, List, [], ◌∷◌, Option, none, some, Result, ok,
  ◌>>=◌, throw, fault, duplicated_key, past_the_end, if◌then◌else◌, ltb_ℤ, eqb_ℤ, ◌==◌, drop,
}
use p2_hash_join_optimizatio.Types.{
  Data, Schema, RangeInfo, invalid_id, get_key_attr, key_from_tuple,
}
use p2_hash_join_optimizatio.Storage.Table.{Table, Row}

abbrev pub Entries : Type 0
Entries = List (Data × ℕ)

pub record StlmapIndex : Type 0 where
  pub name : String
  pub table_name : String
  pub key_name : String
  pub index : Entries

-- `index_.find(key)`
unfoldable pub find : Data → Entries → Option ℕ
find k [] = none
find k ((j, r) ∷ m) = if eqb_ℤ j k then some r else find k m

-- `index_[key] = row_id`
unfoldable pub put : Data → ℕ → Entries → Entries
put k r [] = (k, r) ∷ []
put k r ((j, q) ∷ m) =
    let rest = put k r m in
    if eqb_ℤ j k then (k, r) ∷ m else if ltb_ℤ k j then (k, r) ∷ (j, q) ∷ m else (j, q) ∷ rest

-- `index_.erase(key)`
unfoldable pub erase : Data → Entries → Entries
erase k [] = []
erase k ((j, r) ∷ m) = let rest = erase k m in if eqb_ℤ j k then m else (j, r) ∷ rest

-- The position of the first entry whose key is not less than `k`.
unfoldable pub lower_bound : Data → Entries → ℕ
lower_bound k [] = 0
lower_bound k ((j, r) ∷ m) = let rest = lower_bound k m in if ltb_ℤ j k then suc rest else 0

-- The position of the first entry whose key is greater than `k`.
unfoldable pub upper_bound : Data → Entries → ℕ
upper_bound k [] = 0
upper_bound k ((j, r) ∷ m) = let rest = upper_bound k m in if ltb_ℤ k j then 0 else suc rest

unfoldable pub insert_entry : Data → ℕ → StlmapIndex → Result StlmapIndex
insert_entry key row_id ix = elim (find key ix.index) [
  | some _ ↦ throw duplicated_key
  | none ↦ ok (record ix { index = put key row_id ix.index })
]

unfoldable pub erase_entry : Data → ℕ → StlmapIndex → StlmapIndex
erase_entry key row_id ix = record ix { index = erase key ix.index }

unfoldable pub scan_key : Data → StlmapIndex → ℕ
scan_key key ix = elim (find key ix.index) [ none ↦ invalid_id | some r ↦ r ]

-- The loop of `ScanRange` from an iterator at `position`, where the given entries are left: it stops
-- only when it meets the iterator at `stop`, and an increment past `end()` is undefined.
unfoldable pub collect : Entries → ℕ → ℕ → Result (List ℕ)
collect [] position stop = if position == stop then ok [] else fault past_the_end
collect (e ∷ m) position stop =
    let rest = collect m (position + 1) stop in
    if position == stop then ok [] else (do row_ids ← rest; ok (e.1 ∷ row_ids))

unfoldable pub start_ite : RangeInfo → Entries → ℕ
start_ite range m =
    if range.contain_start then lower_bound range.start m else upper_bound range.start m

unfoldable pub end_ite : RangeInfo → Entries → ℕ
end_ite range m = if range.contain_end then upper_bound range.end m else lower_bound range.end m

unfoldable pub scan_range : RangeInfo → StlmapIndex → Result (List ℕ)
unfolding start_ite end_ite
scan_range range ix =
    let start = start_ite range ix.index in
    collect (drop start ix.index) start (end_ite range ix.index)

-- The loop of the constructor over the rows from `row_id` on.
unfoldable pub index_rows : ℕ → List Row → ℕ → StlmapIndex → Result StlmapIndex
index_rows key_attr [] row_id ix = ok ix
index_rows key_attr (row ∷ rows) row_id ix = elim row.tuple_meta.is_deleted [
  | true ↦ index_rows key_attr rows (row_id + 1) ix
  | false ↦ do
    key ← key_from_tuple row.tuple key_attr
    ix' ← insert_entry key row_id ix
    index_rows key_attr rows (row_id + 1) ix'
]

unfoldable pub new_stlmap_index : String → Table → String → Result StlmapIndex
new_stlmap_index name table key_name = do
  key_attr ← get_key_attr table.schema key_name
  index_rows key_attr table.rows 0
      (record { name = name; table_name = table.name; key_name = key_name; index = [] })
