-- ===== src/Storage/Catalog/Consistent.antt =====
-- Tables and indexes point at each other.
pub mod Tables
pub mod Indexes
use p2_hash_join_optimizatio.Common.{
  String, ◌≡◌, ◌≢◌, refl, sym, ap, ◌∙◌, ◌⊎◌, inl, inr, true, false, [], Option, none, some,
  Option-cases, Result, ok, LogicError, throw, table_already_exists, drop_table_missing,
  index_already_exists, create_index_table_missing, table_already_has_index, drop_index_missing,
  arith, str_eq, eq_iff, Bool-cases, if◌then◌else◌,
}
use p2_hash_join_optimizatio.Common.Assoc.{
  Assoc, lookup, insert, assign, erase, lookup-insert, lookup-assign, lookup-erase,
}
use p2_hash_join_optimizatio.Types.{invalid_name}
use p2_hash_join_optimizatio.Storage.Table.{Table}
use p2_hash_join_optimizatio.Storage.StlmapIndex.{StlmapIndex}
use p2_hash_join_optimizatio.Storage.Catalog.{
  Catalog, empty_catalog, create_table, drop_table, create_index, drop_index,
}

-- Tables and indexes stand under their names, no index has the empty name, the index that a table
-- names is there and is on that table, and the table of an index is there and names it.
pub record IsConsistent (c : Catalog) : Type 0 where
  pub table_named : (n : String) (t : Table) → lookup n c.tables ≡ some t → t.name ≡ n
  pub index_named :
      (n : String) (i : StlmapIndex)
      → lookup n c.indexes ≡ some i
      → (i.name ≡ n) × (str_eq n invalid_name ≡ false)
  pub table_index :
      (n : String) (t : Table)
      → lookup n c.tables ≡ some t
      → str_eq t.index_name invalid_name ≡ false
      → (i : StlmapIndex) × (lookup t.index_name c.indexes ≡ some i) × (i.table_name ≡ n)
  pub index_table :
      (n : String) (i : StlmapIndex)
      → lookup n c.indexes ≡ some i
      → (t : Table) × (lookup i.table_name c.tables ≡ some t) × (t.index_name ≡ n)

pub IsConsistent-empty : IsConsistent empty_catalog
unfolding lookup
IsConsistent-empty = record {
  table_named = λ n t h. absurd (cc);
  index_named = λ n i h. absurd (cc);
  table_index = λ n t h. absurd (cc);
  index_table = λ n i h. absurd (cc);
}

-- The operation throws, or leaves a consistent catalog; it is never undefined.
abbrev pub Keeps : Result Catalog → Type 0
Keeps r = ((e : LogicError) × (r ≡ throw e)) ⊎ ((c' : Catalog) × (r ≡ ok c') × IsConsistent c')
