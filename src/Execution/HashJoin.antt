-- ===== src/Execution/HashJoin.antt =====
-- src/execution/hash_join_operator.cpp: the equi-join of two children on one column of each.
pub mod Spec
pub mod Build
pub mod Cursors
pub mod Probe
pub mod Rows
pub mod Stops
use p2_hash_join_optimizatio.Common.{
  ℕ, zero, suc, ◌+◌, ◌*◌, String, Bool, true, false, not, ◌&&◌, List, [], ◌∷◌, ◌++◌, Result, ok,
  err, out_of_fuel, ◌>>=◌, fault, out_of_bounds, length, take, drop, ltb, leb, ◌==◌, if◌then◌else◌,
}
use p2_hash_join_optimizatio.Types.{
  Data, Tuple, Schema, at, invalid_id, invalid_name, get_key_attrs, key_from_tuple,
}
use p2_hash_join_optimizatio.Execution.Operator.{
  ExecutionContext, Chunk, OperatorState, have_more_output, exhausted, Operator, write, resize,
  check_schema,
}
use p2_hash_join_optimizatio.Execution.UnorderedMultimap.{UnorderedMultimap}

-- `UnionTuple`: the width values at `start` are appended; a range that passes the end is undefined.
unfoldable pub union_tuple : Tuple → List Data → ℕ → ℕ → Result Tuple
union_tuple a tuples start width =
    if leb (start + width) (length tuples)
    then ok (a ++ take width (drop start tuples))
    else fault out_of_bounds

-- The probe side: the child and the chunk of its rows that is being joined.
pub record Cursor (P : Type 0) : Type 0 where
  pub probe_child : P
  pub buffer : Chunk
  pub buffer_ptr : ℕ
  pub probe_child_exhausted : Bool

abbrev is_exhausted : OperatorState → Bool
is_exhausted exhausted = true
is_exhausted have_more_output = false

-- The test at the head of the loop of `Next`: a used up buffer is filled again, once.
unfoldable pub refill :
    {P : Type 0} → ℕ → ExecutionContext → Operator P → Cursor P → Result (Cursor P)
refill fuel ctx op c =
    if (c.buffer_ptr == length c.buffer) && not c.probe_child_exhausted
    then (do
      r ← op.next fuel ctx c.probe_child c.buffer
      ok (record {
        probe_child = r.2;
        buffer = r.1;
        buffer_ptr = 0;
        probe_child_exhausted = is_exhausted r.0;
      }))
    else ok c

module _ (multimap : UnorderedMultimap ℕ) where
  open multimap use {Map, empty, reserve, insert, equal_range}

  -- The build side: the values of all rows in one vector, and the offsets of the rows by key.
  pub record BuildTable : Type 0 where
    pub tuples : List Data
    pub tuple_count : ℕ
    pub width : ℕ
    pub pointer_table : Map

  pub record HashJoinOperator (P B : Type 0) : Type 0 where
    pub cursor : Cursor P
    pub build_child : B
    pub table : BuildTable
    pub hash_table_build : Bool

  -- The inner loop of `Next`: one output row for each match.
  unfoldable pub emit_matches : BuildTable → Tuple → List ℕ → Chunk → ℕ → Result (Chunk × ℕ)
  emit_matches t probe_tuple [] out output_size = ok (out, output_size)
  emit_matches t probe_tuple (start ∷ matches) out output_size = do
    tuple ← union_tuple probe_tuple t.tuples start t.width
    emit_matches t probe_tuple matches (write out output_size (tuple, invalid_id)) (output_size + 1)

  module _ {P : Type 0} (probe : Operator P) where
    -- The loop of `Next`.
    unfoldable pub probe_loop :
        ℕ
        → ExecutionContext
        → ℕ
        → BuildTable
        → Cursor P
        → Chunk
        → ℕ
        → Result (OperatorState × Chunk × Cursor P)
    probe_loop zero ctx key_attr t c out output_size = err out_of_fuel
    probe_loop (suc fuel) ctx key_attr t c out output_size =
        let step = do
          c' ← refill fuel ctx probe c
          if c'.buffer_ptr == length c'.buffer
              then ok (exhausted, resize out output_size, c')
              else (do
                row ← at c'.buffer c'.buffer_ptr
                key ← key_from_tuple row.0 key_attr
                r ← emit_matches t row.0 (equal_range key t.pointer_table) out output_size
                probe_loop fuel ctx key_attr t (record c' { buffer_ptr = c'.buffer_ptr + 1 }) r.0
                    r.1)
        in if ltb output_size ctx.config.chunk_suggest_size
          then step
          else ok (have_more_output, resize out output_size, c)

  unfoldable pub append_rows : Chunk → BuildTable → BuildTable
  append_rows [] t = t
  append_rows (row ∷ rows) t =
      append_rows rows (record t { tuples = t.tuples ++ row.0; tuple_count = t.tuple_count + 1 })

  module _ {B : Type 0} (build : Operator B) where
    -- The first loop of `BuildHashTable`.
    unfoldable pub build_loop :
        ℕ → ExecutionContext → B → Chunk → BuildTable → Result (B × BuildTable)
    build_loop zero ctx s chunk t = err out_of_fuel
    build_loop (suc fuel) ctx s chunk t = do
      r ← build.next fuel ctx s chunk
      let t' = append_rows r.1 t
      elim r.0 [ exhausted ↦ ok (r.2, t') | have_more_output ↦ build_loop fuel ctx r.2 r.1 t' ]

  -- The second loop of `BuildHashTable`, from row `i` on.
  unfoldable pub index_loop : ℕ → ℕ → ℕ → BuildTable → Result BuildTable
  index_loop zero i key_attr t = ok t
  index_loop (suc rounds) i key_attr t = do
    key ← at t.tuples (i * t.width + key_attr)
    index_loop rounds (i + 1) key_attr
        (record t { pointer_table = insert key (i * t.width) t.pointer_table })

  module _ {P B : Type 0} (probe : Operator P) (build : Operator B)
      (build_column_name : String) where
    unfoldable pub build_hash_table :
        ℕ → ExecutionContext → HashJoinOperator P B → Result (HashJoinOperator P B)
    build_hash_table fuel ctx j = do
      key_attrs ← get_key_attrs build.output_schema (build_column_name ∷ [])
      build_key_attr ← at key_attrs 0
      r ← build_loop build fuel ctx j.build_child [] j.table
      let t = record r.1 { pointer_table = reserve (r.1.tuple_count * 4) r.1.pointer_table }
      t' ← index_loop t.tuple_count 0 build_key_attr t
      ok (record j { build_child = r.0; table = t' })

    module _ (probe_column_name : String) where
      unfoldable pub next :
          ℕ
          → ExecutionContext
          → HashJoinOperator P B
          → Chunk
          → Result (OperatorState × Chunk × HashJoinOperator P B)
      next fuel ctx j output_chunk = do
        j' ← elim j.hash_table_build [
          | true ↦ ok j
          | false ↦ build_hash_table fuel ctx (record j { hash_table_build = true })
        ]
        key_attrs ← get_key_attrs probe.output_schema (probe_column_name ∷ [])
        probe_key_attr ← at key_attrs 0
        r ← probe_loop probe fuel ctx probe_key_attr j'.table j'.cursor output_chunk 0
        ok (r.0, r.1, record j' { cursor = r.2 })

      -- `SelfInit`
      unfoldable pub self_init : HashJoinOperator P B → HashJoinOperator P B
      self_init j = record {
        cursor = record {
          probe_child = j.cursor.probe_child;
          buffer = [];
          buffer_ptr = 0;
          probe_child_exhausted = false;
        };
        build_child = j.build_child;
        table = record {
          tuples = [];
          tuple_count = 0;
          width = length build.output_schema;
          pointer_table = empty;
        };
        hash_table_build = false;
      }

      -- `Init`: the children first
      unfoldable pub init : HashJoinOperator P B → Result (HashJoinOperator P B)
      unfolding self_init
      init j = do
        p ← probe.init j.cursor.probe_child
        b ← build.init j.build_child
        ok (self_init (record j { cursor = record j.cursor { probe_child = p }; build_child = b }))

      -- `Check` of the children, `CheckSchema`, then `SelfCheck`
      unfoldable pub check : ExecutionContext → HashJoinOperator P B → Result (HashJoinOperator P B)
      check ctx j = do
        p ← probe.check ctx j.cursor.probe_child
        b ← build.check ctx j.build_child
        _ ← check_schema (probe.output_schema ++ build.output_schema)
        _ ← get_key_attrs probe.output_schema (probe_column_name ∷ [])
        _ ← get_key_attrs build.output_schema (build_column_name ∷ [])
        ok (record j { cursor = record j.cursor { probe_child = p }; build_child = b })

  unfoldable pub hash_join_operator :
      {P B : Type 0} → Operator P → Operator B → String → String → Operator (HashJoinOperator P B)
  hash_join_operator probe build probe_column_name build_column_name = record {
    next = next probe build build_column_name probe_column_name;
    init = init probe build build_column_name probe_column_name;
    check = check probe build build_column_name probe_column_name;
    output_schema = probe.output_schema ++ build.output_schema;
    bind_table_name = invalid_name;
  }
