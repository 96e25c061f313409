-- ===== src/Execution/Value.antt =====
-- src/execution/value_operator.cpp: an operator that returns the rows that it is given.
pub mod Rows
use p2_hash_join_optimizatio.Common.{
  ℕ, zero, suc, ◌+◌, List, [], ◌∷◌, ◌++◌, Result, ok, err, out_of_fuel, ◌>>=◌, throw,
  invalid_value_tuple, length, ltb, ◌==◌, if◌then◌else◌,
}
use p2_hash_join_optimizatio.Types.{Tuple, Schema, at, invalid_id, invalid_name}
use p2_hash_join_optimizatio.Execution.Operator.{
  ExecutionContext, Chunk, OperatorState, have_more_output, exhausted, Operator, check_schema,
}

pub record ValueOperator : Type 0 where
  pub output_schema : Schema
  pub tuples : List Tuple
  pub next_tuple_id : ℕ

-- The loop of `Next`.
unfoldable pub next_loop :
    ℕ → ExecutionContext → ValueOperator → Chunk → Result (OperatorState × Chunk × ValueOperator)
next_loop zero ctx v out = err out_of_fuel
next_loop (suc fuel) ctx v out =
    let step = do
      tuple ← at v.tuples v.next_tuple_id
      next_loop fuel ctx (record v { next_tuple_id = v.next_tuple_id + 1 })
          (out ++ (tuple, invalid_id) ∷ [])
    in if ltb (length out) ctx.config.chunk_suggest_size
      then if v.next_tuple_id == length v.tuples then ok (exhausted, out, v) else step
      else ok (have_more_output, out, v)

unfoldable pub next :
    ℕ → ExecutionContext → ValueOperator → Chunk → Result (OperatorState × Chunk × ValueOperator)
next fuel ctx v output_chunk = next_loop fuel ctx v []

unfoldable pub self_init : ValueOperator → Result ValueOperator
self_init v = ok (record v { next_tuple_id = 0 })

unfoldable pub check_tuples : Schema → List Tuple → Result (Unit {0})
check_tuples schema [] = ok tt
check_tuples schema (tuple ∷ rest) =
    if length schema == length tuple then check_tuples schema rest else throw invalid_value_tuple

unfoldable pub self_check : ExecutionContext → ValueOperator → Result ValueOperator
unfolding check_tuples
self_check ctx v = do _ ← check_tuples v.output_schema v.tuples; ok v

unfoldable pub check : ExecutionContext → ValueOperator → Result ValueOperator
check ctx v = do _ ← check_schema v.output_schema; self_check ctx v

-- The operator over the object that the constructor leaves.
unfoldable pub value_operator : ValueOperator → Operator ValueOperator
value_operator built = record {
  next = next;
  init = self_init;
  check = check;
  output_schema = built.output_schema;
  bind_table_name = invalid_name;
}
