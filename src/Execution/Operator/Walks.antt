-- ===== src/Execution/Operator/Walks.antt =====
-- Operators that read a table from its first row to its last, while it is written behind them.
pub mod Chunkwise
use p2_hash_join_optimizatio.Common.{
  ℕ, ◌+◌, ◌<◌, ◌≡◌, String, List, [], ◌∷◌, flatten, length, ◌≤◌, some, ok, drop, All,
}
use p2_hash_join_optimizatio.Common.Assoc.{lookup}
use p2_hash_join_optimizatio.Storage.Table.{Table, Row}
use p2_hash_join_optimizatio.Storage.Catalog.{Catalog}
use p2_hash_join_optimizatio.Execution.Operator.{
  ExecutionContext, Entry, Chunk, OperatorState, have_more_output, exhausted, Operator,
}
use p2_hash_join_optimizatio.Execution.Effects.{over}

module _ {C : Type 0} (child : Operator C) (ctx : ExecutionContext) (table_name : String)
    (table : Table) where
  -- With fuel above `n`, a call returns the chunk, whatever the catalog is, as long as the rows of
  -- the table from `row_id` on are `rest`.
  abbrev pub Serves : ℕ → C → ℕ → List Row → OperatorState → Chunk → C → Type 0
  Serves n s row_id rest state out s' =
      (catalog : Catalog) (rows : List Row)
      → lookup table_name catalog.tables ≡ some (record table { rows = rows })
      → drop row_id rows ≡ rest
      → (fuel : ℕ) (chunk : Chunk) → n < fuel
      → child.next fuel (over ctx catalog) s chunk ≡ ok (state, out, s')

  -- The chunks that the calls return: a chunk has the ids of rows that the next calls do not read.
  pub data Reads (n : ℕ) : C → ℕ → List Row → List Chunk → Type 0 where
    ended :
        {s s' : C} {row_id : ℕ} {rest : List Row} {out : Chunk}
        → Serves n s row_id rest exhausted out s'
        → Reads n s row_id rest (out ∷ [])
    again :
        {s s' : C} {row_id : ℕ} {rest : List Row} {out : Chunk} {chunks : List Chunk} (seen : ℕ)
        → Serves n s row_id rest have_more_output out s'
        → All (λ (e : Entry). e.1 < row_id + seen) out
        → Reads n s' (row_id + seen) (drop seen rest) chunks
        → Reads n s row_id rest (out ∷ chunks)

  -- The operator returns the entries, in at most one call more than the table has rows.
  pub record Walks (s : C) (entries : List Entry) : Type 0 where
    pub chunks : List Chunk
    pub reads : Reads (length table.rows) s 0 table.rows chunks
    pub few : length chunks ≤ length table.rows + 1
    pub total : flatten chunks ≡ entries
