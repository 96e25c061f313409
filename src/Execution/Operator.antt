-- ===== src/Execution/Operator.antt =====
-- src/include/execution/operator.hpp and execution_context.hpp: the interface of the operators.
pub mod Contract
pub mod Pages
pub mod Buffer
pub mod Walks
use Prim.Native.Nat.{Ordering}
use Prim.Native.String.{compare}
use p2_hash_join_optimizatio.Common.{
  Bool, true, false, ok, throw, duplicated_column_name, str_eq, ℕ, zero, suc, ◌+◌, String, List, [],
  ◌∷◌, ◌++◌, Result, length, set, take, replicate, ltb, if◌then◌else◌, ◌==◌,
}
use p2_hash_join_optimizatio.Types.{Tuple, Schema, ConfigGroup}
use p2_hash_join_optimizatio.Storage.Catalog.{Catalog}

-- The transaction of the context is not read by any operator.
pub record ExecutionContext : Type 0 where
  pub catalog : Catalog
  pub config : ConfigGroup

-- `std::pair<Tuple, idx_t>`
abbrev pub Entry : Type 0
Entry = Tuple × ℕ

abbrev pub Chunk : Type 0
Chunk = List Entry

pub data OperatorState : Type 0 where
  have_more_output : OperatorState
  exhausted : OperatorState

-- The virtual methods over an operator's state `S`. `Next` takes fuel for the loops that it and its
-- children run, and the chunk that it is to fill. The schema and the table name are fixed when an
-- operator is built.
pub record Operator (S : Type 0) : Type 0 where
  pub next : ℕ → ExecutionContext → S → Chunk → Result (OperatorState × Chunk × S)
  pub init : S → Result S
  pub check : ExecutionContext → S → Result S
  pub output_schema : Schema
  pub bind_table_name : String

-- `output_chunk[output_size] = …`, by `push_back` at the end of the vector
unfoldable pub write : Chunk → ℕ → Entry → Chunk
write chunk output_size entry =
    if output_size == length chunk then chunk ++ entry ∷ [] else set chunk output_size entry

-- `resize`: cut, or filled up with empty entries
unfoldable pub resize : Chunk → ℕ → Chunk
resize [] n = replicate n ([], 0)
resize (e ∷ chunk) zero = []
resize (e ∷ chunk) (suc n) = e ∷ resize chunk n

-- `<=` of `std::string`, by the bytes of the UTF-8
abbrev not_after : Ordering → Bool
not_after Ordering.lt = true
not_after Ordering.eq = true
not_after Ordering.gt = false

insert_sorted : String → Schema → Schema
insert_sorted c [] = c ∷ []
insert_sorted c (d ∷ rest) =
    let below = insert_sorted c rest in if not_after (compare c d) then c ∷ d ∷ rest else d ∷ below

-- `std::sort`
unfoldable pub sort : Schema → Schema
unfolding insert_sorted
sort [] = []
sort (c ∷ rest) = insert_sorted c (sort rest)

-- The loop of `CheckSchema` over neighbours.
unfoldable pub check_neighbours : Schema → Result (Unit {0})
check_neighbours [] = ok tt
check_neighbours (c ∷ []) = ok tt
check_neighbours (c ∷ d ∷ rest) =
    let below = check_neighbours (d ∷ rest) in
    if str_eq d c then throw duplicated_column_name else below

unfoldable pub check_schema : Schema → Result (Unit {0})
unfolding sort check_neighbours
check_schema output_schema = check_neighbours (sort output_schema)
