-- ===== src/Tests/Catalogs.antt =====
-- A catalog with a table, then with an index on it.
use p2_hash_join_optimizatio.Common.{
  ◌≡◌, ◌⊎◌, none, some, ok, throw, table_already_exists, refl, fault, past_the_end, ◌>>=◌, [], ◌∷◌,
}
use p2_hash_join_optimizatio.Common.Assoc.{lookup, insert, assign}
use p2_hash_join_optimizatio.Types.{invalid_name}
use p2_hash_join_optimizatio.Storage.Table.{Table}
use p2_hash_join_optimizatio.Storage.StlmapIndex.{StlmapIndex}
use p2_hash_join_optimizatio.Storage.Catalog.{
  Catalog, empty_catalog, create_table, drop_table, create_index, drop_index,
}
use p2_hash_join_optimizatio.Storage.Catalog.Consistent.{IsConsistent, Keeps, IsConsistent-empty}
use p2_hash_join_optimizatio.Storage.Catalog.Consistent.Tables.{
  Adds, create_table-Adds, drop_table-Keeps, insert-IsConsistent,
}
use p2_hash_join_optimizatio.Storage.Catalog.Consistent.Indexes.{
  create_index-Keeps, drop_index-Keeps, with_index-IsConsistent,
}
use p2_hash_join_optimizatio.Storage.Catalog.EmptyName.{empty_index_name-past_the_end}

abbrev orders : Table
orders = record {
  name = "orders";
  schema = "id" ∷ "total" ∷ [];
  rows = [];
  index_name = invalid_name;
}

abbrev by_id : StlmapIndex
by_id = record { name = "by_id"; table_name = "orders"; key_name = "id"; index = [] }

abbrev no_name : StlmapIndex
no_name = record { name = ""; table_name = "orders"; key_name = "id"; index = [] }

abbrev one_table : Catalog
unfolding insert
one_table = record { tables = insert "orders" orders []; indexes = [] }

one_table-IsConsistent : IsConsistent one_table
unfolding insert lookup
one_table-IsConsistent = insert-IsConsistent empty_catalog IsConsistent-empty orders refl refl

abbrev with_its_index : Catalog
unfolding insert assign
with_its_index = record {
  tables = assign "orders" (record orders { index_name = "by_id" }) one_table.tables;
  indexes = insert "by_id" by_id [];
}

with_its_index-IsConsistent : IsConsistent with_its_index
unfolding insert assign lookup
with_its_index-IsConsistent =
    with_index-IsConsistent one_table one_table-IsConsistent by_id orders refl refl refl refl

abbrev customers : Table
customers = record { name = "customers"; schema = "id" ∷ []; rows = []; index_name = invalid_name }

-- The new table stands beside one that has an index.
create_table-Adds_example :
    ((old : Table) × (lookup "customers" with_its_index.tables ≡ some old)
      × (create_table customers with_its_index ≡ throw table_already_exists))
    ⊎ ((c' : Catalog) × (lookup "customers" with_its_index.tables ≡ none)
        × (create_table customers with_its_index ≡ ok c')
        × Adds with_its_index customers c')
create_table-Adds_example =
    create_table-Adds with_its_index with_its_index-IsConsistent customers refl

drop_table-Keeps_example : Keeps (drop_table "orders" with_its_index)
drop_table-Keeps_example = drop_table-Keeps with_its_index with_its_index-IsConsistent "orders"

create_index-Keeps_example : Keeps (create_index by_id one_table)
create_index-Keeps_example = create_index-Keeps one_table one_table-IsConsistent by_id refl

drop_index-Keeps_example : Keeps (drop_index "by_id" with_its_index)
drop_index-Keeps_example = drop_index-Keeps with_its_index with_its_index-IsConsistent "by_id"

empty_index_name-past_the_end_example :
    (create_index no_name one_table >>= drop_table "orders" >>= drop_index invalid_name)
    ≡ fault past_the_end
unfolding insert lookup
empty_index_name-past_the_end_example =
    empty_index_name-past_the_end one_table no_name orders one_table-IsConsistent refl refl refl
