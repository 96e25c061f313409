-- ===== src/Execution/Effects/Writes.antt =====
-- A write of the rows of a table that is there.
use p2_hash_join_optimizatio.Common.{◌≡◌, String, List, some, ok, arith, eq_iff}
use p2_hash_join_optimizatio.Common.Assoc.{lookup, assign, lookup-assign}
use p2_hash_join_optimizatio.Storage.Table.{Table, Row}
use p2_hash_join_optimizatio.Storage.Catalog.{Catalog}
use p2_hash_join_optimizatio.Execution.Operator.{ExecutionContext}
use p2_hash_join_optimizatio.Execution.Effects.{put_rows, over}

-- The table then has the rows, and is else as it was.
pub put_rows-puts :
    (table_name : String) (table : Table) (ctx : ExecutionContext) (rows : List Row)
    → lookup table_name ctx.catalog.tables ≡ some table
    → (catalog : Catalog) × (put_rows table_name rows ctx ≡ (over ctx catalog, ok tt))
      × (lookup table_name catalog.tables ≡ some (record table { rows = rows }))
unfolding put_rows
put_rows-puts table_name table ctx rows found =
    let after : Table = record table { rows = rows } in
    (
      record ctx.catalog { tables = assign table_name after ctx.catalog.tables },
      rw (put_rows, found),
      ground (
        arith,
        lookup-assign table_name table_name after ctx.catalog.tables,
        found,
        eq_iff table_name table_name,
      ),
    )
