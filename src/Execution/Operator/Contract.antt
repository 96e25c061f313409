-- ===== src/Execution/Operator/Contract.antt =====
-- What an operator promises to the one that pulls from it: the chunks that a series of calls of
-- `Next` returns, up to the call that returns `EXHAUSETED`.
use p2_hash_join_optimizatio.Common.{ℕ, ◌≤◌, ◌<◌, ◌≡◌, List, [], ◌∷◌, ok, length, flatten}
use p2_hash_join_optimizatio.Execution.Operator.{
  ExecutionContext, Entry, Chunk, OperatorState, have_more_output, exhausted, Operator,
}

-- From fuel `n` on, and whatever the given chunk holds, a call in state `s` returns `out`.
abbrev pub Yields :
    {S : Type 0} (op : Operator S) (ctx : ExecutionContext) (n : ℕ)
    → S
    → OperatorState
    → Chunk
    → S
    → Type 0
Yields op ctx n s state out s' =
    (fuel : ℕ) (chunk : Chunk) → n ≤ fuel → op.next fuel ctx s chunk ≡ ok (state, out, s')

pub data Streams {S : Type 0} (op : Operator S) (ctx : ExecutionContext) (n : ℕ)
    : S → List Chunk → Type 0 where
  last :
      {s s' : S} {out : Chunk} → Yields op ctx n s exhausted out s' → Streams op ctx n s (out ∷ [])
  more :
      {s s' : S} {out : Chunk} {rest : List Chunk}
      → Yields op ctx n s have_more_output out s'
      → Streams op ctx n s' rest
      → Streams op ctx n s (out ∷ rest)

-- The calls from `s` on return the rows in all, in this order.
pub record Delivers {S : Type 0} (op : Operator S) (ctx : ExecutionContext) (s : S)
    (rows : List Entry) : Type 0 where
  pub bound : ℕ
  pub chunks : List Chunk
  pub streams : Streams op ctx bound s chunks
  pub total : flatten chunks ≡ rows

-- No chunk but the last is empty.
abbrev pub Busy : List Chunk → Type 0
Busy [] = Unit
Busy (c ∷ []) = Unit
Busy (c ∷ d ∷ rest) = (0 < length c) × Busy (d ∷ rest)

-- The calls from `s` on return the rows in all, in this order, and no empty chunk before the last.
pub record Produces {S : Type 0} (op : Operator S) (ctx : ExecutionContext) (s : S)
    (rows : List Entry) : Type 0 where
  pub bound : ℕ
  pub chunks : List Chunk
  pub streams : Streams op ctx bound s chunks
  pub busy : Busy chunks
  pub total : flatten chunks ≡ rows

abbrev pub delivered :
    {S : Type 0} (op : Operator S) (ctx : ExecutionContext) {s : S} {rows : List Entry}
    → Produces op ctx s rows
    → Delivers op ctx s rows
delivered op ctx p = record {
  bound = p.bound;
  chunks = p.chunks;
  streams = p.streams;
  total = p.total;
}
