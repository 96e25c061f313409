-- ===== src/Execution/Plan/Answers.antt =====
-- What a tree of operators is to return: the relational algebra of its nodes.
use p2_hash_join_optimizatio.Common.{ℕ, ◌≡◌, String, List, ok, length}
use p2_hash_join_optimizatio.Types.{get_key_attr, get_key_attrs}
use p2_hash_join_optimizatio.Storage.Table.{Table}
use p2_hash_join_optimizatio.Storage.Catalog.{Catalog, fetch_table}
use p2_hash_join_optimizatio.Execution.Operator.{Entry}
use p2_hash_join_optimizatio.Execution.Value.{ValueOperator}
use p2_hash_join_optimizatio.Execution.Value.Rows.{as_rows}
use p2_hash_join_optimizatio.Execution.SeqScan.{SeqScanOperator}
use p2_hash_join_optimizatio.Execution.SeqScan.Rows.{live_rows, Fits}
use p2_hash_join_optimizatio.Execution.Expression.Filters.{Filter}
use p2_hash_join_optimizatio.Execution.Filter.{init_filters}
use p2_hash_join_optimizatio.Execution.Filter.Rows.{keep, AllApply}
use p2_hash_join_optimizatio.Execution.HashJoin.Spec.{nested_loop_join, Wide}
use p2_hash_join_optimizatio.Execution.Plan.{Plan, values, scan, filter, join, output_schema}

-- The answer of a tree over the tables of a catalog: the tuples, the live rows of a table, those of
-- its child that pass the filters, the nested loop join of its children.
pub data Answers (catalog : Catalog) : Plan → List Entry → Type 0 where
  of_values :
      (v : ValueOperator)
      → Wide (length v.output_schema) (as_rows v.tuples)
      → Answers catalog (values v) (as_rows v.tuples)
  of_scan :
      (s : SeqScanOperator) (table : Table) (attrs : List ℕ)
      → fetch_table catalog s.table_name ≡ ok table
      → get_key_attrs table.schema s.fetch_columns ≡ ok attrs
      → length attrs ≡ length s.output_schema
      → Fits attrs table.rows
      → Answers catalog (scan s) (live_rows attrs table.rows 0)
  of_filter :
      {child : Plan} {rows : List Entry} (filters ready : List Filter)
      → Answers catalog child rows
      → init_filters (output_schema child) filters ≡ ok ready
      → AllApply ready rows
      → Answers catalog (filter filters child) (keep ready rows)
  of_join :
      {probe build : Plan} {probe_rows build_rows : List Entry} (probe_column build_column : String)
      (probe_attr build_attr : ℕ)
      → Answers catalog probe probe_rows
      → Answers catalog build build_rows
      → get_key_attr (output_schema probe) probe_column ≡ ok probe_attr
      → get_key_attr (output_schema build) build_column ≡ ok build_attr
      → Answers catalog
          (join probe build probe_column build_column)
          (nested_loop_join probe_attr build_attr probe_rows build_rows)

-- No filter stands at the top: it may return an empty chunk in the midst of its rows.
abbrev pub Unfiltered : Plan → Type 0
Unfiltered (values v) = Unit
Unfiltered (scan s) = Unit
Unfiltered (filter filters child) = ⊥
Unfiltered (join probe build probe_column build_column) = Unit

-- No join probes a filter.
abbrev pub ProbesUnfiltered : Plan → Type 0
ProbesUnfiltered (values v) = Unit
ProbesUnfiltered (scan s) = Unit
ProbesUnfiltered (filter filters child) = ProbesUnfiltered child
ProbesUnfiltered (join probe build probe_column build_column) =
    Unfiltered probe × ProbesUnfiltered probe × ProbesUnfiltered build
