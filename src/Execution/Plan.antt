-- ===== src/Execution/Plan.antt =====
-- src/execution: trees of operators, as a client builds them from the constructors and pulls from.
pub mod Answers
pub mod Perms
pub mod Objects
pub mod Widths
pub mod Columns
pub mod Rows
pub mod Checks
use p2_hash_join_optimizatio.Common.{ℕ, String, List, ◌++◌}
use p2_hash_join_optimizatio.Types.{Schema}
use p2_hash_join_optimizatio.Execution.Operator.{Operator}
use p2_hash_join_optimizatio.Execution.UnorderedMultimap.{UnorderedMultimap}
use p2_hash_join_optimizatio.Execution.Value.{ValueOperator, value_operator}
use p2_hash_join_optimizatio.Execution.SeqScan.{SeqScanOperator, seq_scan_operator}
use p2_hash_join_optimizatio.Execution.Expression.Filters.{Filter}
use p2_hash_join_optimizatio.Execution.Filter.{FilterOperator, filter_operator}
use p2_hash_join_optimizatio.Execution.HashJoin.{HashJoinOperator, hash_join_operator}

-- A tree: the objects at its leaves as they are built, the filters, and the columns of the joins, the
-- one of the probe side first.
pub data Plan : Type 0 where
  values : ValueOperator → Plan
  scan : SeqScanOperator → Plan
  filter : List Filter → Plan → Plan
  join : Plan → Plan → String → String → Plan

abbrev pub output_schema : Plan → Schema
output_schema (values v) = v.output_schema
output_schema (scan s) = s.output_schema
output_schema (filter filters child) = output_schema child
output_schema (join probe build probe_column build_column) =
    output_schema probe ++ output_schema build

module _ (multimap : UnorderedMultimap ℕ) where
  -- The objects of the tree.
  abbrev pub State : Plan → Type 0
  State (values v) = ValueOperator
  State (scan s) = SeqScanOperator
  State (filter filters child) = FilterOperator (State child)
  State (join probe build probe_column build_column) =
      HashJoinOperator multimap (State probe) (State build)

  abbrev pub operator : (plan : Plan) → Operator (State plan)
  operator (values v) = value_operator v
  operator (scan s) = seq_scan_operator s
  operator (filter filters child) = filter_operator (operator child)
  operator (join probe build probe_column build_column) =
      hash_join_operator multimap (operator probe) (operator build) probe_column build_column
