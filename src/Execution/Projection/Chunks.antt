-- ===== src/Execution/Projection/Chunks.antt =====
-- A projection makes its answer of one chunk of its child.
use p2_hash_join_optimizatio.Common.{
  ℕ, String, ◌≡◌, refl, sym, ap, ◌∙◌, List, [], ◌∷◌, ◌++◌, ok, ok_injective, >>=-eq-ok, subst, All,
}
use p2_hash_join_optimizatio.Types.{Schema}
use p2_hash_join_optimizatio.Execution.Operator.{ExecutionContext, Operator, Chunk, Entry}
use p2_hash_join_optimizatio.Execution.Operator.Walks.{Walks}
use p2_hash_join_optimizatio.Execution.Operator.Walks.Chunkwise.{Chunkwise, Walks-Chunkwise}
use p2_hash_join_optimizatio.Storage.Table.{Table}
use p2_hash_join_optimizatio.Execution.Expression.Projections.{Projection}
use p2_hash_join_optimizatio.Execution.Projection.{
  project_tuple, project_rows, next, projection_operator,
}

project_rows-append :
    (ps : List Projection) (a b out : Chunk)
    → project_rows ps (a ++ b) ≡ ok out
    → (x y : Chunk) × (project_rows ps a ≡ ok x) × (project_rows ps b ≡ ok y) × (out ≡ x ++ y)
unfolding project_rows
project_rows-append ps [] b out h = ([], out, refl, h, refl)
project_rows-append ps (row ∷ a) b out h =
    let (tuple, calculated, rest) = >>=-eq-ok (project_tuple ps row.0) _ h in
    let (others, after, done) = >>=-eq-ok (project_rows ps (a ++ b)) _ rest in
    let (x, y, first, second, joined) = project_rows-append ps a b others after in
    (
      (tuple, row.1) ∷ x,
      y,
      rw (calculated, first) refl,
      second,
      sym (ok_injective done) ∙ ap (λ r. (tuple, row.1) ∷ r) joined,
    )

pub project_rows-ids :
    (ps : List Projection) (Q : ℕ → Type 0) (a out : Chunk)
    → project_rows ps a ≡ ok out
    → All (λ (e : Entry). Q e.1) a
    → All (λ (e : Entry). Q e.1) out
unfolding project_rows
project_rows-ids ps Q [] out h below = rw (← ok_injective h) tt
project_rows-ids ps Q (row ∷ a) out h (here, below) =
    let (tuple, calculated, rest) = >>=-eq-ok (project_tuple ps row.0) _ h in
    let (others, after, done) = >>=-eq-ok (project_rows ps a) _ rest in
    subst (All (λ (e : Entry). Q e.1)) (ok_injective done)
      (here, project_rows-ids ps Q a others after below)

abbrev projection_chunks :
    {C : Type 0} (child : Operator C) (schema : Schema) (ps : List Projection)
    → Chunkwise child (projection_operator child schema)
unfolding projection_operator next
projection_chunks child schema ps = record {
  make = project_rows ps;
  wrap = λ s. record { child = s; projections = ps };
  answers = λ fuel ctx s s' state out made chunk y made_of. rw (y chunk, made_of) refl;
  parts = project_rows-append ps;
  ids = project_rows-ids ps;
}

-- A projection of an operator that walks a table walks it.
pub projection-Walks :
    {C : Type 0} (child : Operator C) (schema : Schema) (ps : List Projection)
    (ctx : ExecutionContext) (table_name : String) (table : Table) (s : C) (input made : List Entry)
    → Walks child ctx table_name table s input
    → project_rows ps input ≡ ok made
    → Walks
        (projection_operator child schema)
        ctx
        table_name
        table
        (record { child = s; projections = ps })
        made
unfolding projection_chunks
projection-Walks child schema ps ctx table_name table s input made w whole =
    Walks-Chunkwise child (projection_operator child schema) (projection_chunks child schema ps) ctx
      table_name table s input made w whole
