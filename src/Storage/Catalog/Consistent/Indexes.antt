-- ===== src/Storage/Catalog/Consistent/Indexes.antt =====
-- Creating and dropping an index.
use p2_hash_join_optimizatio.Common.{
  String, ◌≡◌, inl, inr, true, false, none, some, Option-cases, index_already_exists,
  create_index_table_missing, table_already_has_index, drop_index_missing, arith, str_eq, eq_iff,
  Bool-cases, if◌then◌else◌,
}
use p2_hash_join_optimizatio.Common.Assoc.{
  lookup, insert, assign, erase, lookup-insert, lookup-assign, lookup-erase,
}
use p2_hash_join_optimizatio.Types.{invalid_name}
use p2_hash_join_optimizatio.Storage.Table.{Table}
use p2_hash_join_optimizatio.Storage.StlmapIndex.{StlmapIndex}
use p2_hash_join_optimizatio.Storage.Catalog.{Catalog, create_index, drop_index}
use p2_hash_join_optimizatio.Storage.Catalog.Consistent.{IsConsistent, Keeps}

module _ (c : Catalog) (ok_c : IsConsistent c) where
  module _ (index : StlmapIndex) (t : Table) (free : lookup index.name c.indexes ≡ none)
      (there : lookup index.table_name c.tables ≡ some t)
      (bare : str_eq t.index_name invalid_name ≡ true)
      (proper : str_eq index.name invalid_name ≡ false) where
    abbrev with_index : Catalog
    with_index = record {
      tables = assign index.table_name (record t { index_name = index.name }) c.tables;
      indexes = insert index.name index c.indexes;
    }

    look_assigned :
        (j : String)
        → lookup j with_index.tables ≡ (
            if str_eq index.table_name j
            then some (record t { index_name = index.name })
            else lookup j c.tables)
    look_assigned j = rw (lookup-assign, there)

    pub with_index-IsConsistent : IsConsistent with_index
    with_index-IsConsistent = record {
      table_named = λ n t' h. ground (
        arith,
        look_assigned n,
        eq_iff index.table_name n,
        ok_c.table_named n t',
        ok_c.table_named index.table_name t,
      );
      index_named = λ n i h. ground (
        arith,
        lookup-insert index.name n index c.indexes,
        eq_iff index.name n,
        ok_c.index_named n i,
      );
      table_index = λ n t' h named. elim (Bool-cases (str_eq index.table_name n)) [
        | inl same ↦ (
          index,
          ground (
            arith,
            look_assigned n,
            lookup-insert index.name t'.index_name index c.indexes,
            eq_iff index.name t'.index_name,
          ),
          (eq_iff index.table_name n).0 same,
        )
        | inr ne ↦
            let (i, found, on) = ok_c.table_index n t' (ground (arith, look_assigned n)) named in
            (
              i,
              ground (
                arith,
                lookup-insert index.name t'.index_name index c.indexes,
                eq_iff index.name t'.index_name,
              ),
              on,
            )
      ];
      index_table = λ n i h. elim (Bool-cases (str_eq index.name n)) [
        | inl same ↦ (
          record t { index_name = index.name },
          ground (
            arith,
            lookup-insert index.name n index c.indexes,
            look_assigned i.table_name,
            eq_iff index.table_name i.table_name,
          ),
          (eq_iff index.name n).0 same,
        )
        | inr ne ↦
            let old : lookup n c.indexes ≡ some i =
              ground (arith, lookup-insert index.name n index c.indexes) in
            let (t', found, back) = ok_c.index_table n i old in
            (
              t',
              ground (
                arith,
                look_assigned i.table_name,
                eq_iff index.table_name i.table_name,
                ok_c.index_named n i,
              ),
              back,
            )
      ];
    }

  -- CreateIndex of an index with a name that is not empty on a consistent catalog throws or leaves
  -- a consistent catalog.
  pub create_index-Keeps :
      (index : StlmapIndex) → str_eq index.name invalid_name ≡ false → Keeps (create_index index c)
  unfolding create_index
  create_index-Keeps index proper = elim (Option-cases (lookup index.name c.indexes)) [
    | inr (_, taken) ↦ inl (index_already_exists, rw (taken, create_index))
    | inl free ↦ elim (Option-cases (lookup index.table_name c.tables)) [
      | inl absent ↦ inl (create_index_table_missing, rw (free, create_index, absent))
      | inr (t, there) ↦ elim (Bool-cases (str_eq t.index_name invalid_name)) [
        | inr named ↦ inl (table_already_has_index, rw (free, create_index, there, named))
        | inl bare ↦ inr (
          with_index index t free there bare proper,
          rw (free, create_index, there, bare),
          with_index-IsConsistent index t free there bare proper,
        )
      ]
    ]
  ]

  module _ (name : String) (index : StlmapIndex) (t : Table)
      (there : lookup name c.indexes ≡ some index) (on : lookup index.table_name c.tables ≡ some t)
      (back : t.index_name ≡ name) where
    abbrev without_index : Catalog
    without_index = record {
      tables = assign index.table_name (record t { index_name = invalid_name }) c.tables;
      indexes = erase name c.indexes;
    }

    look_bare :
        (j : String)
        → lookup j without_index.tables ≡ (
            if str_eq index.table_name j
            then some (record t { index_name = invalid_name })
            else lookup j c.tables)
    look_bare j = rw (lookup-assign, on)

    without_index-IsConsistent : IsConsistent without_index
    without_index-IsConsistent = record {
      table_named = λ n t' h. ground (
        arith,
        look_bare n,
        eq_iff index.table_name n,
        ok_c.table_named n t',
        ok_c.table_named index.table_name t,
      );
      index_named = λ n i h. ok_c.index_named n i (ground (arith, lookup-erase name n c.indexes));
      table_index = λ n t' h named.
          let old : lookup n c.tables ≡ some t' =
            ground (arith, look_bare n, eq_iff t'.index_name invalid_name) in
          let (i, found, on_n) = ok_c.table_index n t' old named in
          (
            i,
            ground (
              arith,
              look_bare n,
              eq_iff index.table_name n,
              eq_iff name t'.index_name,
              eq_iff t'.index_name invalid_name,
              lookup-erase name t'.index_name c.indexes,
            ),
            on_n,
          );
      index_table = λ n i h.
          let (t', found, back_n) =
            ok_c.index_table n i (ground (arith, lookup-erase name n c.indexes)) in
          (
            t',
            ground (
              arith,
              look_bare i.table_name,
              eq_iff index.table_name i.table_name,
              lookup-erase name n c.indexes,
              eq_iff name n,
            ),
            back_n,
          );
    }

  -- DropIndex on a consistent catalog throws or leaves a consistent catalog; it is never undefined.
  pub drop_index-Keeps : (name : String) → Keeps (drop_index name c)
  unfolding drop_index
  drop_index-Keeps name = elim (Option-cases (lookup name c.indexes)) [
    | inl absent ↦ inl (drop_index_missing, rw (absent, drop_index))
    | inr (index, there) ↦
        let (t, on, back) = ok_c.index_table name index there in
        inr (
          without_index name index t there on back,
          rw (there, drop_index, on),
          without_index-IsConsistent name index t there on back,
        )
  ]
