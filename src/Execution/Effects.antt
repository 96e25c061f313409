-- ===== src/Execution/Effects.antt =====
-- Code that writes to the catalog: what is written before an exception stays.
pub mod Writes
use p2_hash_join_optimizatio.Common.{String, List, none, some, Result, ok, err}
use p2_hash_join_optimizatio.Common.Assoc.{lookup, assign}
use p2_hash_join_optimizatio.Storage.Table.{Table, Row}
use p2_hash_join_optimizatio.Storage.StlmapIndex.{StlmapIndex}
use p2_hash_join_optimizatio.Storage.Catalog.{Catalog, fetch_table, fetch_index}
use p2_hash_join_optimizatio.Execution.Operator.{ExecutionContext}

abbrev pub Effect {ℓ} : Type ℓ → Type ℓ
Effect A = ExecutionContext → ExecutionContext × Result A

infixl 5 ◌>>=◌
abbrev pub ◌>>=◌ {ℓ κ} : {A : Type ℓ} {B : Type κ} → Effect A → (A → Effect B) → Effect B
(m >>= f) ctx = let r = m ctx in elim r.1 [ err e ↦ (r.0, err e) | ok a ↦ f a r.0 ]

abbrev pub lift {ℓ} : {A : Type ℓ} → Result A → Effect A
lift r ctx = (ctx, r)

abbrev pub context : Effect ExecutionContext
context ctx = (ctx, ok ctx)

abbrev pub table_of : String → Effect Table
table_of table_name ctx = (ctx, fetch_table ctx.catalog table_name)

abbrev pub index_of : String → Effect StlmapIndex
index_of index_name ctx = (ctx, fetch_index ctx.catalog index_name)

-- A write to the rows of the table under a name, which is there.
unfoldable pub put_rows : String → List Row → Effect (Unit {0})
put_rows table_name rows ctx = elim (lookup table_name ctx.catalog.tables) [
  | none ↦ (ctx, ok tt)
  | some table ↦ (
    record ctx {
      catalog = record ctx.catalog {
        tables = assign table_name (record table { rows = rows }) ctx.catalog.tables;
      };
    },
    ok tt,
  )
]

unfoldable pub put_index : String → StlmapIndex → Effect (Unit {0})
put_index index_name index ctx = (
  record ctx {
    catalog = record ctx.catalog { indexes = assign index_name index ctx.catalog.indexes };
  },
  ok tt,
)

-- The context with another catalog.
abbrev pub over : ExecutionContext → Catalog → ExecutionContext
over ctx catalog = record ctx { catalog = catalog }
