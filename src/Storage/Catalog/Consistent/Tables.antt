-- ===== src/Storage/Catalog/Consistent/Tables.antt =====
-- Creating and dropping a table.
use p2_hash_join_optimizatio.Common.{
  String, ◌≡◌, refl, ◌⊎◌, ok, throw, if◌then◌else◌, inl, inr, true, false, none, some, Option-cases,
  table_already_exists, drop_table_missing, arith, str_eq, eq_iff, Bool-cases,
}
use p2_hash_join_optimizatio.Common.Assoc.{lookup, insert, erase, lookup-insert, lookup-erase}
use p2_hash_join_optimizatio.Types.{invalid_name}
use p2_hash_join_optimizatio.Storage.Table.{Table}
use p2_hash_join_optimizatio.Storage.Catalog.{Catalog, create_table, drop_table}
use p2_hash_join_optimizatio.Storage.Catalog.Consistent.{IsConsistent, Keeps}

-- The second catalog is the first with the table as the only change, and a drop takes it back.
abbrev pub Adds : Catalog → Table → Catalog → Type 0
Adds c t c' =
    IsConsistent c'
    × ((n : String) → lookup n c'.tables ≡ (if str_eq t.name n then some t else lookup n c.tables))
    × (c'.indexes ≡ c.indexes)
    × ((dropped : Catalog) × (drop_table t.name c' ≡ ok dropped)
        × ((n : String) → lookup n dropped.tables ≡ lookup n c.tables)
        × (dropped.indexes ≡ c.indexes))

module _ (c : Catalog) (ok_c : IsConsistent c) where
  module _ (t : Table) (absent : lookup t.name c.tables ≡ none)
      (no_index : t.index_name ≡ invalid_name) where
    abbrev with_table : Catalog
    with_table = record c { tables = insert t.name t c.tables }

    pub insert-IsConsistent : IsConsistent with_table
    insert-IsConsistent = record {
      table_named = λ n t' h.
          ground (arith, lookup-insert t.name n t c.tables, eq_iff t.name n, ok_c.table_named n t');
      index_named = ok_c.index_named;
      table_index = λ n t' h named. elim (Bool-cases (str_eq t.name n)) [
        | inl same ↦ absurd (
            ground (
              arith,
              lookup-insert t.name n t c.tables,
              eq_iff t.name n,
              eq_iff t.index_name invalid_name,
            ))
        | inr ne ↦ ok_c.table_index n t' (ground (arith, lookup-insert t.name n t c.tables)) named
      ];
      index_table = λ n i h.
          let (t', there, back) = ok_c.index_table n i h in
          (
            t',
            ground
                (arith, lookup-insert t.name i.table_name t c.tables, eq_iff t.name i.table_name),
            back,
          );
    }

  pub create_table-Keeps : (t : Table) → t.index_name ≡ invalid_name → Keeps (create_table t c)
  unfolding create_table
  create_table-Keeps t no_index = elim (Option-cases (lookup t.name c.tables)) [
    | inl absent ↦ inr (
      with_table t absent no_index,
      rw (absent, create_table),
      insert-IsConsistent t absent no_index,
    )
    | inr (_, there) ↦ inl (table_already_exists, rw (there, create_table))
  ]

  drop_added :
      (t : Table)
      → t.index_name ≡ invalid_name
      → lookup t.name c.tables ≡ none
      → (dropped : Catalog) × (drop_table t.name (record c { tables = insert t.name t c.tables })
          ≡ ok dropped)
        × ((n : String) → lookup n dropped.tables ≡ lookup n c.tables)
        × (dropped.indexes ≡ c.indexes)
  unfolding drop_table
  drop_added t no_index absent =
      let added : lookup t.name (insert t.name t c.tables) ≡ some t =
        ground (arith, lookup-insert t.name t.name t c.tables, eq_iff t.name t.name, absent) in
      let bare : str_eq t.index_name invalid_name ≡ true =
        (eq_iff t.index_name invalid_name).1 no_index in
      (
        record c { tables = erase t.name (insert t.name t c.tables) },
        rw (added, drop_table, bare) refl,
        λ n. ground (
          arith,
          lookup-erase t.name n (insert t.name t c.tables),
          lookup-insert t.name n t c.tables,
          eq_iff t.name n,
          absent,
        ),
        refl,
      )

  -- CreateTable of a table without an index on a consistent catalog throws that the table already
  -- exists, exactly where one of its name is there, and else leaves a consistent catalog in which
  -- the table stands under its name and every other name and the indexes are as before; DropTable
  -- of the name then succeeds, and after it every name has the table that it had before the two
  -- calls, and the indexes are as before.
  pub create_table-Adds :
      (t : Table)
      → t.index_name ≡ invalid_name
      → ((old : Table) × (lookup t.name c.tables ≡ some old)
          × (create_table t c ≡ throw table_already_exists))
        ⊎ ((c' : Catalog) × (lookup t.name c.tables ≡ none)
            × (create_table t c ≡ ok c')
            × Adds c t c')
  unfolding create_table
  create_table-Adds t no_index = elim (Option-cases (lookup t.name c.tables)) [
    | inr (old, there) ↦ inl (old, there, rw (there, create_table) refl)
    | inl absent ↦ inr (
      with_table t absent no_index,
      absent,
      rw (absent, create_table) refl,
      (
        insert-IsConsistent t absent no_index,
        λ n. lookup-insert t.name n t c.tables absent,
        refl,
        drop_added t no_index absent,
      ),
    )
  ]

  module _ (name : String) (t : Table) (there : lookup name c.tables ≡ some t) where
    -- A table without an index goes alone.
    erase_table-IsConsistent :
        str_eq t.index_name invalid_name ≡ true
        → IsConsistent (record c { tables = erase name c.tables })
    erase_table-IsConsistent bare = record {
      table_named = λ n t' h. ground (arith, lookup-erase name n c.tables, ok_c.table_named n t');
      index_named = ok_c.index_named;
      table_index = λ n t' h named.
          ok_c.table_index n t' (ground (arith, lookup-erase name n c.tables)) named;
      index_table = λ n i h.
          let (t', found, back) = ok_c.index_table n i h in
          (
            t',
            ground (
              arith,
              lookup-erase name i.table_name c.tables,
              eq_iff name i.table_name,
              ok_c.index_named n i,
            ),
            back,
          );
    }

    -- The index of a table goes with it.
    erase_both-IsConsistent :
        str_eq t.index_name invalid_name ≡ false
        → IsConsistent
            (record { tables = erase name c.tables; indexes = erase t.index_name c.indexes })
    erase_both-IsConsistent named_t = record {
      table_named = λ n t' h. ground (arith, lookup-erase name n c.tables, ok_c.table_named n t');
      index_named =
          λ n i h. ok_c.index_named n i (ground (arith, lookup-erase t.index_name n c.indexes));
      table_index = λ n t' h named.
          let (i, found, on) =
            ok_c.table_index n t' (ground (arith, lookup-erase name n c.tables)) named in
          let (i_t, found_t, on_t) = ok_c.table_index name t there named_t in
          (
            i,
            ground (
              arith,
              lookup-erase t.index_name t'.index_name c.indexes,
              eq_iff t.index_name t'.index_name,
              lookup-erase name n c.tables,
              eq_iff name n,
            ),
            on,
          );
      index_table = λ n i h.
          let (t', found, back) =
            ok_c.index_table n i (ground (arith, lookup-erase t.index_name n c.indexes)) in
          (
            t',
            ground (
              arith,
              lookup-erase name i.table_name c.tables,
              eq_iff name i.table_name,
              lookup-erase t.index_name n c.indexes,
              eq_iff t.index_name n,
            ),
            back,
          );
    }

  -- DropTable on a consistent catalog throws or leaves a consistent catalog, the index of the table
  -- included.
  pub drop_table-Keeps : (name : String) → Keeps (drop_table name c)
  unfolding drop_table
  drop_table-Keeps name = elim (Option-cases (lookup name c.tables)) [
    | inl absent ↦ inl (drop_table_missing, rw (absent, drop_table))
    | inr (t, there) ↦ elim (Bool-cases (str_eq t.index_name invalid_name)) [
      | inl bare ↦
          inr (_, rw (there, drop_table, bare) refl, erase_table-IsConsistent name t there bare)
      | inr named ↦
          inr (_, rw (there, drop_table, named) refl, erase_both-IsConsistent name t there named)
    ]
  ]
