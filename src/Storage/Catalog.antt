-- ===== src/Storage/Catalog.antt =====
-- src/storage/catalog.cpp: the tables and the indexes by name.
pub mod Consistent
pub mod EmptyName
use p2_hash_join_optimizatio.Common.{
  String, Bool, true, false, [], none, some, Result, ok, throw, fault, past_the_end,
  table_already_exists, drop_table_missing, index_already_exists, create_index_table_missing,
  table_already_has_index, drop_index_missing, fetch_table_missing, fetch_index_missing,
  if◌then◌else◌, str_eq,
}
use p2_hash_join_optimizatio.Common.Assoc.{Assoc, lookup, insert, assign, erase}
use p2_hash_join_optimizatio.Types.{invalid_name}
use p2_hash_join_optimizatio.Storage.Table.{Table}
use p2_hash_join_optimizatio.Storage.StlmapIndex.{StlmapIndex}

pub record Catalog : Type 0 where
  pub tables : Assoc Table
  pub indexes : Assoc StlmapIndex

abbrev pub empty_catalog : Catalog
empty_catalog = record { tables = []; indexes = [] }

unfoldable pub create_table : Table → Catalog → Result Catalog
create_table table c = elim (lookup table.name c.tables) [
  | some _ ↦ throw table_already_exists
  | none ↦ ok (record c { tables = insert table.name table c.tables })
]

unfoldable pub drop_table : String → Catalog → Result Catalog
drop_table table_name c = elim (lookup table_name c.tables) [
  | none ↦ throw drop_table_missing
  | some table ↦ ok (record {
    tables = erase table_name c.tables;
    indexes =
        if str_eq table.index_name invalid_name
        then c.indexes
        else erase table.index_name c.indexes;
  })
]

unfoldable pub create_index : StlmapIndex → Catalog → Result Catalog
create_index index c = elim (lookup index.name c.indexes) [
  | some _ ↦ throw index_already_exists
  | none ↦ elim (lookup index.table_name c.tables) [
    | none ↦ throw create_index_table_missing
    | some table ↦
        if str_eq table.index_name invalid_name
        then ok (record {
          tables = assign index.table_name (record table { index_name = index.name }) c.tables;
          indexes = insert index.name index c.indexes;
        })
        else throw table_already_has_index
  ]
]

-- The write through `table_position` is undefined where the table is not found.
unfoldable pub drop_index : String → Catalog → Result Catalog
drop_index index_name c = elim (lookup index_name c.indexes) [
  | none ↦ throw drop_index_missing
  | some index ↦ elim (lookup index.table_name c.tables) [
    | none ↦ fault past_the_end
    | some table ↦ ok (record {
      tables = assign index.table_name (record table { index_name = invalid_name }) c.tables;
      indexes = erase index_name c.indexes;
    })
  ]
]

unfoldable pub fetch_table : Catalog → String → Result Table
fetch_table c table_name = elim (lookup table_name c.tables) [
  | none ↦ throw fetch_table_missing
  | some table ↦ ok table
]

unfoldable pub fetch_index : Catalog → String → Result StlmapIndex
fetch_index c index_name = elim (lookup index_name c.indexes) [
  | none ↦ throw fetch_index_missing
  | some index ↦ ok index
]
