-- ===== src/Execution/Operator/Walks/Chunkwise.antt =====
-- An operator that answers each call with what it makes of the chunk of its child walks as its child does.
use p2_hash_join_optimizatio.Common.{
  ℕ, suc, ◌<◌, ◌≡◌, refl, sym, ap, length, arith, String, List, [], ◌∷◌, ◌++◌, flatten, append-nil,
  Result, ok, All,
}
use p2_hash_join_optimizatio.Storage.Table.{Table, Row}
use p2_hash_join_optimizatio.Execution.Operator.{
  ExecutionContext, Entry, Chunk, OperatorState, Operator,
}
use p2_hash_join_optimizatio.Execution.Operator.Walks.{Reads, ended, again, Walks}

-- What the operator makes of chunks: it is the same for a chunk and for the parts of it, and the rows
-- that it returns have ids of rows of the chunk.
pub record Chunkwise {C P : Type 0} (child : Operator C) (parent : Operator P) : Type 1 where
  pub make : Chunk → Result Chunk
  pub wrap : C → P
  pub answers :
      (fuel : ℕ) (ctx : ExecutionContext) (s s' : C) (state : OperatorState)
      (out made chunk : Chunk)
      → ((given : Chunk) → child.next fuel ctx s given ≡ ok (state, out, s'))
      → make out ≡ ok made
      → parent.next fuel ctx (wrap s) chunk ≡ ok (state, made, wrap s')
  pub parts :
      (a b out : Chunk)
      → make (a ++ b) ≡ ok out
      → (x y : Chunk) × (make a ≡ ok x) × (make b ≡ ok y) × (out ≡ x ++ y)
  pub ids :
      (Q : ℕ → Type 0) (a out : Chunk)
      → make a ≡ ok out
      → All (λ (e : Entry). Q e.1) a
      → All (λ (e : Entry). Q e.1) out

module _ {C P : Type 0} (child : Operator C) (parent : Operator P) (c : Chunkwise child parent)
    (ctx : ExecutionContext) (table_name : String) (table : Table) where
  Reads-Chunkwise :
      (n : ℕ) {s : C} {row_id : ℕ} {rest : List Row} {chunks : List Chunk} (made : Chunk)
      → Reads child ctx table_name table n s row_id rest chunks
      → c.make (flatten chunks) ≡ ok made
      → (chunks' : List Chunk) × Reads parent ctx table_name table n (c.wrap s) row_id rest chunks'
        × (length chunks' ≡ length chunks)
        × (flatten chunks' ≡ made)
  unfolding flatten
  Reads-Chunkwise n made (ended {out = out} y) whole = (
    made ∷ [],
    ended (λ catalog rows found left fuel chunk enough.
        c.answers fuel _ _ _ _ out made chunk (λ given. y catalog rows found left fuel given enough)
          (rw append-nil at whole)),
    refl,
    append-nil made,
  )
  Reads-Chunkwise n made (again {out = out} {chunks = chunks} seen y below st) whole =
      let (x, z, first, others, joined) = c.parts out (flatten chunks) made whole in
      let (chunks', reads, count, total) = Reads-Chunkwise n z st others in
      (
        x ∷ chunks',
        again seen
            (λ catalog rows found left fuel chunk enough.
              c.answers fuel _ _ _ _ out x chunk
                (λ given. y catalog rows found left fuel given enough) first)
            (c.ids (λ i. i < _) out x first below) reads,
        ap suc count,
        rw total (sym joined),
      )

  pub Walks-Chunkwise :
      (s : C) (input made : List Entry)
      → Walks child ctx table_name table s input
      → c.make input ≡ ok made
      → Walks parent ctx table_name table (c.wrap s) made
  Walks-Chunkwise s input made w whole =
      let (chunks, reads, count, total) =
        Reads-Chunkwise (length table.rows) made w.reads (rw w.total whole) in
      record { chunks = chunks; reads = reads; few = omega (arith, count, w.few); total = total }
