-- ===== src/Storage/Catalog/EmptyName.antt =====
-- An index with the empty name, which a table's `index_name_` uses for "no index".
use p2_hash_join_optimizatio.Common.{
  ◌≡◌, inl, inr, true, none, some, Option-cases, ok, fault, past_the_end, ◌>>=◌, arith, str_eq,
  eq_iff,
}
use p2_hash_join_optimizatio.Common.Assoc.{
  lookup, insert, assign, erase, lookup-insert, lookup-assign, lookup-erase,
}
use p2_hash_join_optimizatio.Types.{invalid_name}
use p2_hash_join_optimizatio.Storage.Table.{Table}
use p2_hash_join_optimizatio.Storage.StlmapIndex.{StlmapIndex}
use p2_hash_join_optimizatio.Storage.Catalog.{Catalog, create_index, drop_table, drop_index}
use p2_hash_join_optimizatio.Storage.Catalog.Consistent.{IsConsistent}

-- In a consistent catalog, creating an index with the empty name on a table without an index
-- succeeds, dropping the table then leaves the index behind, and dropping that index is undefined.
pub empty_index_name-past_the_end :
    (c : Catalog) (index : StlmapIndex) (t : Table)
    → IsConsistent c
    → index.name ≡ invalid_name
    → lookup index.table_name c.tables ≡ some t
    → str_eq t.index_name invalid_name ≡ true
    → (create_index index c >>= drop_table index.table_name >>= drop_index invalid_name)
      ≡ fault past_the_end
unfolding create_index drop_table drop_index
empty_index_name-past_the_end c index t consistent empty there bare =
    let free : lookup index.name c.indexes ≡ none =
      elim (Option-cases (lookup index.name c.indexes)) [
        | inl none_there ↦ none_there
        | inr (i, found) ↦
            absurd
              (ground (arith, consistent.index_named index.name i, eq_iff index.name invalid_name))
      ] in
    let tables = assign index.table_name (record t { index_name = index.name }) c.tables in
    let indexes = insert index.name index c.indexes in
    let table : lookup index.table_name tables ≡ some (record t { index_name = index.name }) =
      ground (
        arith,
        lookup-assign index.table_name index.table_name (record t { index_name = index.name })
            c.tables,
        eq_iff index.table_name index.table_name,
      ) in
    let still : lookup invalid_name indexes ≡ some index = ground (
      arith,
      lookup-insert index.name invalid_name index c.indexes,
      eq_iff index.name invalid_name,
    ) in
    let gone : lookup index.table_name (erase index.table_name tables) ≡ none = ground (
      arith,
      lookup-erase index.table_name index.table_name tables,
      eq_iff index.table_name index.table_name,
    ) in
    let unnamed : str_eq index.name invalid_name ≡ true =
      (eq_iff index.name invalid_name).1 empty in
    let c₁ : Catalog = record { tables = tables; indexes = indexes } in
    let c₂ : Catalog = record { tables = erase index.table_name tables; indexes = indexes } in
    let created : create_index index c ≡ ok c₁ = rw (free, create_index, there, bare) in
    let dropped : drop_table index.table_name c₁ ≡ ok c₂ = rw (table, drop_table, unnamed) in
    let undefined : drop_index invalid_name c₂ ≡ fault past_the_end =
      rw (still, drop_index, gone) in
    rw (created, dropped) undefined
