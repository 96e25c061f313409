-- ===== src/Execution/Kept.antt =====
-- A table and its index in the catalog, and code that writes to them: what holds before each call holds
-- after it, however the call ends.
pub mod Deletes
pub mod Inserts
pub mod Updates
use p2_hash_join_optimizatio.Common.{
  ℕ, ◌≤◌, ◌<◌, ◌≡◌, refl, sym, ap, ◌∙◌, inl, inr, false, true, String, List, [], ◌∷◌, Option, none,
  some, Result, ok, err, Error, Result-cases, arith, length, str_eq, eq_iff, ok_injective,
  if◌then◌else◌, Option-cases,
}
use p2_hash_join_optimizatio.Common.Assoc.{lookup, assign, lookup-assign}
use p2_hash_join_optimizatio.Types.{invalid_id, invalid_name, get_key_attr}
use p2_hash_join_optimizatio.Storage.Table.{Table, Row}
use p2_hash_join_optimizatio.Storage.Catalog.{fetch_table, fetch_index}
use p2_hash_join_optimizatio.Storage.StlmapIndex.{StlmapIndex}
use p2_hash_join_optimizatio.Storage.StlmapIndex.Laws.{IsSorted}
use p2_hash_join_optimizatio.Storage.StlmapIndex.OfTable.{IsIndexed}
use p2_hash_join_optimizatio.Execution.Operator.{
  ExecutionContext, OperatorState, have_more_output, exhausted,
}
use p2_hash_join_optimizatio.Execution.Effects.{
  Effect, ◌>>=◌, lift, table_of, index_of, put_rows, put_index,
}

-- A block keeps `P` when its first call keeps it where it fails, and the rest where it returns.
pub call_keeps {ℓ κ} :
    {A : Type ℓ} {B : Type κ} (P : ExecutionContext → Type 0) (x : ExecutionContext × Result A)
    (rest : A → ExecutionContext × Result B)
    → P x.0
    → ((a : A) → x.1 ≡ ok a → P (rest a).0)
    → P (elim x.1 as (λ _. ExecutionContext × Result B) [ err e ↦ (x.0, err e) | ok a ↦ rest a ]).0
call_keeps P (ctx, err e) rest p returns = p
call_keeps P (ctx, ok a) rest p returns = returns a refl

-- The end of a loop over the chunks of a child.
pub state_keeps {ℓ} :
    {B : Type ℓ} (P : ExecutionContext → Type 0) (state : OperatorState) (again stop : Effect B)
    (ctx : ExecutionContext)
    → P (again ctx).0
    → P (stop ctx).0
    → P ((elim state as (λ _. Effect B) [ have_more_output ↦ again | exhausted ↦ stop ]) ctx).0
state_keeps P have_more_output again stop ctx p q = p
state_keeps P exhausted again stop ctx p q = q

-- The table has an index that is in order and, as long as it has fewer rows than the invalid id, right for it.
pub record IsKept (table_name index_name : String) (attr : ℕ) (ctx : ExecutionContext)
    : Type 0 where
  pub table : Table
  pub index : StlmapIndex
  pub found_table : lookup table_name ctx.catalog.tables ≡ some table
  pub found_index : lookup index_name ctx.catalog.indexes ≡ some index
  pub named : table.index_name ≡ index_name
  pub not_empty : str_eq index_name invalid_name ≡ false
  pub keyed : get_key_attr table.schema index.key_name ≡ ok attr
  pub sorted : IsSorted index.index
  pub right : length table.rows < invalid_id → IsIndexed attr table.rows index

module _ (table_name index_name : String) (attr : ℕ) (ctx : ExecutionContext)
    (kept : IsKept table_name index_name attr ctx) where
  pub fetched_table : fetch_table ctx.catalog table_name ≡ ok kept.table
  unfolding fetch_table
  fetched_table = rw (fetch_table, kept.found_table)

  pub fetched_index : fetch_index ctx.catalog index_name ≡ ok kept.index
  unfolding fetch_index
  fetched_index = rw (fetch_index, kept.found_index)

  abbrev pub with_rows : List Row → ExecutionContext
  with_rows rows = record ctx {
    catalog = record ctx.catalog {
      tables = assign table_name (record kept.table { rows = rows }) ctx.catalog.tables;
    };
  }

  pub put_rows_lem : (rows : List Row) → put_rows table_name rows ctx ≡ (with_rows rows, ok tt)
  unfolding put_rows
  put_rows_lem rows = rw (put_rows, kept.found_table)

  -- A write of rows for which the index is right.
  pub put_rows-IsKept :
      (rows : List Row)
      → (length rows < invalid_id → IsIndexed attr rows kept.index)
      → IsKept table_name index_name attr (put_rows table_name rows ctx).0
  put_rows-IsKept rows right = rw (put_rows_lem rows) (record {
    table = record kept.table { rows = rows };
    index = kept.index;
    found_table = ground (
      arith,
      lookup-assign table_name table_name (record kept.table { rows = rows }) ctx.catalog.tables,
      kept.found_table,
      eq_iff table_name table_name,
    );
    found_index = kept.found_index;
    named = kept.named;
    not_empty = kept.not_empty;
    keyed = kept.keyed;
    sorted = kept.sorted;
    right = right;
  })

  put_both_lem :
      (rows : List Row) (index : StlmapIndex)
      → (put_rows table_name rows >>= λ _. put_index index_name index) ctx
        ≡ put_index index_name index (with_rows rows)
  put_both_lem rows index = rw (◌>>=◌, put_rows_lem rows, put_rows_lem rows)

  -- A write of the rows and then of the index.
  pub put_both-IsKept :
      (rows : List Row) (index : StlmapIndex)
      → index.key_name ≡ kept.index.key_name
      → IsSorted index.index
      → (length rows < invalid_id → IsIndexed attr rows index)
      → IsKept table_name index_name attr
          ((put_rows table_name rows >>= λ _. put_index index_name index) ctx).0
  unfolding put_rows put_index
  put_both-IsKept rows index same sorted right =
      rw (put_both_lem rows index, put_index)
        (record {
          table = record kept.table { rows = rows };
          index = index;
          found_table = ground (
            arith,
            lookup-assign table_name table_name (record kept.table { rows = rows })
                ctx.catalog.tables,
            kept.found_table,
            eq_iff table_name table_name,
          );
          found_index = ground (
            arith,
            lookup-assign index_name index_name index ctx.catalog.indexes,
            kept.found_index,
            eq_iff index_name index_name,
          );
          named = kept.named;
          not_empty = kept.not_empty;
          keyed = rw same kept.keyed;
          sorted = sorted;
          right = right;
        })
