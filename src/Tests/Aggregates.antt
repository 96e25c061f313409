-- ===== src/Tests/Aggregates.antt =====
-- The aggregation over the operator over values.
use p2_hash_join_optimizatio.Common.{
  ℕ, zero, suc, ◌^◌, ◌-◌, ◌≤◌, ◌<◌, ◌+ℤ◌, ◌≡◌, refl, true, false, pos, List, [], ◌∷◌, ok, err,
  fault, signed_overflow, arith,
}
use p2_hash_join_optimizatio.Types.{Data, invalid_id, get_key_attr, key_from_tuple}
use p2_hash_join_optimizatio.Storage.Catalog.{empty_catalog}
use p2_hash_join_optimizatio.Execution.Operator.{
  ExecutionContext, Chunk, Operator, have_more_output, exhausted,
}
use p2_hash_join_optimizatio.Execution.Operator.Contract.{Produces, delivered}
use p2_hash_join_optimizatio.Execution.Value
use p2_hash_join_optimizatio.Execution.Value.{ValueOperator, value_operator, next_loop}
use p2_hash_join_optimizatio.Execution.Value.Rows.{value_operator-Produces, as_rows}
use p2_hash_join_optimizatio.Execution.Aggregate
use p2_hash_join_optimizatio.Execution.Aggregate.{
  AggregateOperator, aggregate_operator, self_init, build_hash_table, build_loop, add_rows,
  add_data, emit_loop, group_rows,
}
use p2_hash_join_optimizatio.Execution.Aggregate.Table.{list_group_table, first, write_first}
use p2_hash_join_optimizatio.Execution.Aggregate.Sums.{values_of, sum, group_sum, sums_fit, pairs}
use p2_hash_join_optimizatio.Execution.Aggregate.Rows.{
  aggregate_operator-Produces, aggregate_operator-overflow,
}

abbrev ctx : ExecutionContext
ctx = record { catalog = empty_catalog; config = record { chunk_suggest_size = 2 } }

abbrev sales : ValueOperator
sales = record {
  output_schema = "shop" ∷ "amount" ∷ [];
  tuples =
      (pos 1 ∷ pos 10 ∷ [])
      ∷ (pos 2 ∷ pos 20 ∷ [])
      ∷ (pos 1 ∷ pos 30 ∷ [])
      ∷ (pos 3 ∷ pos 5 ∷ [])
      ∷ [];
  next_tuple_id = 0;
}

-- The largest number, and one more of it.
abbrev large : ValueOperator
large = record {
  output_schema = "shop" ∷ "amount" ∷ [];
  tuples = (pos 1 ∷ pos (2 ^ 63 - 1) ∷ []) ∷ (pos 1 ∷ pos 1 ∷ []) ∷ [];
  next_tuple_id = 0;
}

abbrev Totals : Type 0
Totals = AggregateOperator list_group_table ValueOperator

abbrev over : ValueOperator → Totals
over v = record {
  child = v;
  table = list_group_table.empty;
  output_ptr = 0;
  hash_table_build = false;
}

abbrev totals : ValueOperator → Operator Totals
totals v = aggregate_operator list_group_table (value_operator v) "shop" "amount"

row_fits : (0 < 2) × (1 < 2) × (true ≡ true)
row_fits = (omega arith, omega arith, refl)

aggregate_operator-Produces_example :
    (groups : List (Data × Data)) × Produces
      (totals sales)
      ctx
      (self_init list_group_table (value_operator sales) "shop" "amount" (over sales))
      (group_rows groups)
    × ((key : Data)
        → values_of key groups ≡ group_sum (values_of key (pairs 0 1 (as_rows sales.tuples))))
unfolding value_operator get_key_attr sums_fit values_of sum pairs ◌+ℤ◌
aggregate_operator-Produces_example =
    aggregate_operator-Produces list_group_table (value_operator sales) "shop" "amount" ctx 0 1 refl
      refl (over sales) (as_rows sales.tuples)
      (delivered (value_operator sales) ctx (value_operator-Produces ctx sales (omega arith)))
      (row_fits, (row_fits, (row_fits, (row_fits, tt)))) (omega arith) refl

aggregate_operator-overflow_example :
    (enough : ℕ) × ((fuel : ℕ) (chunk : Chunk)
      → enough ≤ fuel
      → (totals large).next fuel ctx
          (self_init list_group_table (value_operator large) "shop" "amount" (over large))
          chunk
        ≡ fault signed_overflow)
unfolding value_operator get_key_attr sums_fit values_of sum pairs ◌+ℤ◌
aggregate_operator-overflow_example =
    aggregate_operator-overflow list_group_table (value_operator large) "shop" "amount" ctx 0 1 refl
      refl (over large) (as_rows large.tuples)
      (delivered (value_operator large) ctx (value_operator-Produces ctx large (omega arith)))
      (row_fits, (row_fits, tt)) refl

-- What a list of calls of `Next` returns.
drain : ℕ → Totals → List Chunk
drain zero o = []
drain (suc calls) o = elim ((totals sales).next 20 ctx o []) [
  | err e ↦ []
  | ok r ↦ elim r.0 [ exhausted ↦ r.1 ∷ [] | have_more_output ↦ r.1 ∷ drain calls r.2 ]
]

program : Unit {0}
unfolding drain aggregate_operator Aggregate.next self_init build_hash_table build_loop add_rows
    add_data emit_loop value_operator Value.next next_loop list_group_table first write_first
    get_key_attr key_from_tuple ◌+ℤ◌
program = tt

totals_return :
    drain 10 (over sales)
    ≡ (((pos 3 ∷ pos 5 ∷ []), invalid_id) ∷ ((pos 2 ∷ pos 20 ∷ []), invalid_id) ∷ [])
      ∷ (((pos 1 ∷ pos 40 ∷ []), invalid_id) ∷ [])
      ∷ []
unfolding program
totals_return = refl
