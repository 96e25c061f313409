-- ===== src/Execution/Aggregate.antt =====
-- src/execution/aggregate_operator.cpp: the sum of one column for each value of another.
pub mod Table
pub mod Sums
pub mod Groups
pub mod Build
pub mod Emit
pub mod Rows
use Prim.Native.Nat.{◌^◌}
use Prim.Native.String.{◌++◌ as str_append}
use p2_hash_join_optimizatio.Common.{
  ℕ, zero, suc, ◌+◌, String, Bool, true, false, List, [], ◌∷◌, ◌++◌, none, some, ℤ, pos, negsuc,
  ◌+ℤ◌, Result, ok, err, out_of_fuel, ◌>>=◌, fault, signed_overflow, length, drop, ltb,
  if◌then◌else◌,
}
use p2_hash_join_optimizatio.Types.{
  Data, Tuple, Schema, invalid_id, invalid_name, get_key_attr, key_from_tuple,
}
use p2_hash_join_optimizatio.Execution.Operator.{
  ExecutionContext, Chunk, OperatorState, have_more_output, exhausted, Operator, check_schema,
}
use p2_hash_join_optimizatio.Execution.Aggregate.Table.{GroupTable}

-- `GetAggregateOutputSchema`
unfoldable pub get_aggregate_output_schema : String → String → Schema
get_aggregate_output_schema group_by aggregate_column =
    group_by ∷ str_append "SUM(" (str_append aggregate_column ")") ∷ []

abbrev pub in_int64 : Data → Bool
in_int64 (pos n) = ltb n (2 ^ 63)
in_int64 (negsuc n) = ltb n (2 ^ 63)

-- `+=` on `int64_t`, which is undefined where the sum is none
unfoldable pub add_data : Data → Data → Result Data
add_data a b = let sum = a +ℤ b in if in_int64 sum then ok sum else fault signed_overflow

-- A row of the output: the key, the sum, and no row id.
abbrev pub group_rows : List (Data × Data) → Chunk
group_rows [] = []
group_rows (e ∷ entries) = (e.0 ∷ e.1 ∷ [], invalid_id) ∷ group_rows entries

-- The loop of `Next`, with the entries that are left at the iterator, which is at `output_ptr`.
unfoldable pub emit_loop : ℕ → List (Data × Data) → ℕ → Chunk → OperatorState × Chunk × ℕ
emit_loop chunk_size [] output_ptr out =
    if ltb (length out) chunk_size
    then (exhausted, out, output_ptr)
    else (have_more_output, out, output_ptr)
emit_loop chunk_size (e ∷ entries) output_ptr out =
    let rest =
      emit_loop chunk_size entries (output_ptr + 1) (out ++ ((e.0 ∷ e.1 ∷ [], invalid_id) ∷ [])) in
    if ltb (length out) chunk_size then rest else (have_more_output, out, output_ptr)

module _ (hash_table : GroupTable) where
  open hash_table use {Map, empty, find, insert, write_found, entries}

  pub record AggregateOperator (C : Type 0) : Type 0 where
    pub child : C
    pub table : Map
    pub output_ptr : ℕ
    pub hash_table_build : Bool

  -- The inner loop of `BuildHashTable`.
  unfoldable pub add_rows : ℕ → ℕ → Chunk → Map → Result Map
  unfolding add_data
  add_rows group_by_attr aggregate_column_attr [] m = ok m
  add_rows group_by_attr aggregate_column_attr (row ∷ rows) m = do
    group_by_key ← key_from_tuple row.0 group_by_attr
    aggregate_value ← key_from_tuple row.0 aggregate_column_attr
    elim (find group_by_key m) [
      | none ↦
          add_rows group_by_attr aggregate_column_attr rows (insert group_by_key aggregate_value m)
      | some sum ↦ do
        sum' ← add_data sum aggregate_value
        add_rows group_by_attr aggregate_column_attr rows (write_found group_by_key sum' m)
    ]

  module _ {C : Type 0} (child_operator : Operator C) (group_by aggregate_column : String) where
    -- The outer loop of `BuildHashTable`.
    unfoldable pub build_loop : ℕ → ExecutionContext → ℕ → ℕ → C → Chunk → Map → Result (C × Map)
    build_loop zero ctx group_by_attr aggregate_column_attr s input_chunk m = err out_of_fuel
    build_loop (suc fuel) ctx group_by_attr aggregate_column_attr s input_chunk m = do
      r ← child_operator.next fuel ctx s input_chunk
      m' ← add_rows group_by_attr aggregate_column_attr r.1 m
      elim r.0 [
        | exhausted ↦ ok (r.2, m')
        | have_more_output ↦ build_loop fuel ctx group_by_attr aggregate_column_attr r.2 r.1 m'
      ]

    unfoldable pub build_hash_table :
        ℕ → ExecutionContext → AggregateOperator C → Result (AggregateOperator C)
    build_hash_table fuel ctx o = do
      group_by_attr ← get_key_attr child_operator.output_schema group_by
      aggregate_column_attr ← get_key_attr child_operator.output_schema aggregate_column
      r ← build_loop fuel ctx group_by_attr aggregate_column_attr o.child [] o.table
      ok (record o { child = r.0; table = r.1 })

    unfoldable pub next :
        ℕ
        → ExecutionContext
        → AggregateOperator C
        → Chunk
        → Result (OperatorState × Chunk × AggregateOperator C)
    next fuel ctx o output_chunk = do
      o' ← elim o.hash_table_build [
        | true ↦ ok o
        | false ↦ do
          b ← build_hash_table fuel ctx (record o { hash_table_build = true })
          ok (record b { output_ptr = 0 })
      ]
      let r =
          emit_loop ctx.config.chunk_suggest_size (drop o'.output_ptr (entries o'.table))
            o'.output_ptr []
      ok (r.0, r.1, record o' { output_ptr = r.2 })

    -- `SelfInit`; `end()` of the empty table
    unfoldable pub self_init : AggregateOperator C → AggregateOperator C
    self_init o = record {
      child = o.child;
      table = empty;
      output_ptr = 0;
      hash_table_build = false;
    }

    unfoldable pub init : AggregateOperator C → Result (AggregateOperator C)
    unfolding self_init
    init o = do c ← child_operator.init o.child; ok (self_init (record o { child = c }))

    -- `Check` of the child, `CheckSchema`, then `SelfCheck`
    unfoldable pub check : ExecutionContext → AggregateOperator C → Result (AggregateOperator C)
    unfolding get_aggregate_output_schema
    check ctx o = do
      c ← child_operator.check ctx o.child
      _ ← check_schema (get_aggregate_output_schema group_by aggregate_column)
      _ ← get_key_attr child_operator.output_schema group_by
      _ ← get_key_attr child_operator.output_schema aggregate_column
      ok (record o { child = c })

    unfoldable pub aggregate_operator : Operator (AggregateOperator C)
    unfolding get_aggregate_output_schema
    aggregate_operator = record {
      next = next;
      init = init;
      check = check;
      output_schema = get_aggregate_output_schema group_by aggregate_column;
      bind_table_name = invalid_name;
    }
