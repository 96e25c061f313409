-- ===== src/Storage/Table.antt =====
-- src/include/storage/table.hpp: the rows of a table.
pub mod Guards
pub mod Held
pub mod Latching
pub mod Holders
use p2_hash_join_optimizatio.Common.{String, Bool, false, List, []}
use p2_hash_join_optimizatio.Types.{Tuple, Schema, invalid_name}

pub record TupleMeta : Type 0 where
  pub is_deleted : Bool

abbrev pub fresh_meta : TupleMeta
fresh_meta = record { is_deleted = false }

pub record Row : Type 0 where
  pub tuple : Tuple
  pub tuple_meta : TupleMeta

pub record Table : Type 0 where
  pub name : String
  pub schema : Schema
  pub rows : List Row
  pub index_name : String

unfoldable pub new_table : String → Schema → Table
new_table name schema = record {
  name = name;
  schema = schema;
  rows = [];
  index_name = invalid_name;
}
