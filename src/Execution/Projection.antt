-- ===== src/Execution/Projection.antt =====
-- src/execution/projection_operator.cpp: each row of the child becomes the values of the projections.
pub mod Width
pub mod Chunks
use p2_hash_join_optimizatio.Common.{
  ℕ, String, Bool, true, false, List, [], ◌∷◌, ◌++◌, Option, none, some, Result, ok, ◌>>=◌, throw,
  fault, null_dereference, null_projection, duplicated_projection, length, replicate, set, map,
}
use p2_hash_join_optimizatio.Types.{Tuple, Schema, at, get_key_attr}
use p2_hash_join_optimizatio.Execution.Operator.{
  ExecutionContext, Chunk, OperatorState, Operator, check_schema,
}
use p2_hash_join_optimizatio.Execution.Expression.Projections
use p2_hash_join_optimizatio.Execution.Expression.Projections.{Projection, new_unit_projection}

pub record ProjectionOperator (C : Type 0) : Type 0 where
  pub child : C
  pub projections : List Projection

-- The loop that looks for a null pointer. The constructor runs it over the member, which is still
-- empty, so that a null pointer among the given projections is found where it is read.
abbrev pub check_functions : List (Option Projection) → Result (Unit {0})
check_functions [] = ok tt
check_functions (none ∷ rest) = throw null_projection
check_functions (some p ∷ rest) = check_functions rest

-- The loop that moves each projection to the column that it replaces.
unfoldable pub place :
    Schema → List (Option Projection) → List (Option Projection) → Result (List (Option Projection))
place schema [] slots = ok slots
place schema (none ∷ rest) slots = fault null_dereference
place schema (some p ∷ rest) slots = do
  key_attr ← get_key_attr schema p.output_name
  slot ← at slots key_attr
  elim slot [
    | some _ ↦ throw duplicated_projection
    | none ↦ place schema rest (set slots key_attr (some p))
  ]

-- The loop that fills the columns that no projection replaces.
unfoldable pub fill_units : Schema → List (Option Projection) → List Projection
fill_units [] slots = []
fill_units (c ∷ schema) [] = []
fill_units (c ∷ schema) (some p ∷ slots) = p ∷ fill_units schema slots
fill_units (c ∷ schema) (none ∷ slots) = new_unit_projection c c ∷ fill_units schema slots

-- The loop that pushes the names of the projections behind the schema.
unfoldable pub push_names : Schema → List (Option Projection) → Result (Schema × List Projection)
push_names schema [] = ok (schema, [])
push_names schema (none ∷ rest) = fault null_dereference
push_names schema (some p ∷ rest) = do
  r ← push_names (schema ++ p.output_name ∷ []) rest
  ok (r.0, p ∷ r.1)

-- The constructor: `Operator` has set the output schema to that of the child.
unfoldable pub new_projection :
    Schema → List (Option Projection) → Bool → Result (Schema × List Projection)
unfolding place fill_units push_names
new_projection child_schema projections update_in_place = do
  _ ← check_functions []
  elim update_in_place [
    | true ↦ do
      slots ← place child_schema projections (replicate (length child_schema) none)
      ok (child_schema, fill_units child_schema slots)
    | false ↦ push_names child_schema projections
  ]

-- `TransToVec`
unfoldable pub trans_to_vec : Option Projection → List (Option Projection)
trans_to_vec projection = projection ∷ []

-- The constructor for one projection.
unfoldable pub new_one_projection :
    Schema → Option Projection → Bool → Result (Schema × List Projection)
unfolding trans_to_vec new_projection
new_one_projection child_schema projection update_in_place =
    new_projection child_schema (trans_to_vec projection) update_in_place

-- The loop of `Next` over the projections.
unfoldable pub project_tuple : List Projection → Tuple → Result Tuple
project_tuple [] tuple = ok []
project_tuple (p ∷ ps) tuple = do
  x ← Projections.calc p tuple
  rest ← project_tuple ps tuple
  ok (x ∷ rest)

unfoldable pub project_rows : List Projection → Chunk → Result Chunk
unfolding project_tuple
project_rows ps [] = ok []
project_rows ps (row ∷ rows) = do
  tuple ← project_tuple ps row.0
  rest ← project_rows ps rows
  ok ((tuple, row.1) ∷ rest)

unfoldable pub init_projections : Schema → List Projection → Result (List Projection)
init_projections schema [] = ok []
init_projections schema (p ∷ ps) = do
  p' ← Projections.init p schema
  ps' ← init_projections schema ps
  ok (p' ∷ ps')

module _ {C : Type 0} (child_operator : Operator C) where
  unfoldable pub next :
      ℕ
      → ExecutionContext
      → ProjectionOperator C
      → Chunk
      → Result (OperatorState × Chunk × ProjectionOperator C)
  next fuel ctx o output_chunk = do
    r ← child_operator.next fuel ctx o.child output_chunk
    out ← project_rows o.projections r.1
    ok (r.0, out, record o { child = r.2 })

  unfoldable pub self_init : ProjectionOperator C → Result (ProjectionOperator C)
  unfolding init_projections
  self_init o = do
    ps ← init_projections child_operator.output_schema o.projections
    ok (record o { projections = ps })

  unfoldable pub init : ProjectionOperator C → Result (ProjectionOperator C)
  unfolding self_init
  init o = do c ← child_operator.init o.child; self_init (record o { child = c })

  unfoldable pub check :
      Schema → ExecutionContext → ProjectionOperator C → Result (ProjectionOperator C)
  unfolding self_init
  check output_schema ctx o = do
    c ← child_operator.check ctx o.child
    _ ← check_schema output_schema
    self_init (record o { child = c })

  -- The operator over the schema that the constructor leaves.
  unfoldable pub projection_operator : Schema → Operator (ProjectionOperator C)
  projection_operator output_schema = record {
    next = next;
    init = init;
    check = check output_schema;
    output_schema = output_schema;
    bind_table_name = child_operator.bind_table_name;
  }
