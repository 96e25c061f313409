-- ===== src/Execution/Aggregate/Rows.antt =====
-- src/execution/aggregate_operator.cpp: the rows that the calls of `Next` return.
use p2_hash_join_optimizatio.Common.{
  ℕ, suc, ◌+◌, ◌≤◌, ◌<◌, ◌≡◌, refl, sym, ap, ◌∙◌, inl, inr, Bool, true, false, List, [], ◌++◌,
  append_assoc, ok, fault, signed_overflow, arith, length, All, drop-append_length, length-append,
  Bool-cases, if◌then◌else◌, String,
}
use p2_hash_join_optimizatio.Types.{Data, get_key_attr}
use p2_hash_join_optimizatio.Execution.Operator.{ExecutionContext, Entry, Chunk, Operator}
use p2_hash_join_optimizatio.Execution.Operator.Contract.{Delivers, Produces}
use p2_hash_join_optimizatio.Execution.Operator.Pages.{Page, Page-Produces}
use p2_hash_join_optimizatio.Execution.Aggregate.Table.{GroupTable}
use p2_hash_join_optimizatio.Execution.Aggregate.Sums.{values_of, group_sum, sums_fit, pairs, Fits}
use p2_hash_join_optimizatio.Execution.Aggregate.Groups.{Holds, empty-Holds}
use p2_hash_join_optimizatio.Execution.Aggregate.Build.{add_rows-Holds, build_loop-add_rows}
use p2_hash_join_optimizatio.Execution.Aggregate.{
  AggregateOperator, group_rows, emit_loop, build_hash_table, next, self_init, aggregate_operator,
}
use p2_hash_join_optimizatio.Execution.Aggregate.Emit.{
  group_rows-append, length-group_rows, emit_loop-Outcome,
}

module _ (hash_table : GroupTable) {C : Type 0} (child : Operator C)
    (group_by aggregate_column : String) (ctx : ExecutionContext)
    (group_by_attr aggregate_column_attr : ℕ)
    (group_key : get_key_attr child.output_schema group_by ≡ ok group_by_attr)
    (aggregate_key : get_key_attr child.output_schema aggregate_column
      ≡ ok aggregate_column_attr) where
  open hash_table use {Map, entries}

  abbrev State : Type 0
  State = AggregateOperator hash_table C

  abbrev aggregate : Operator State
  aggregate = aggregate_operator hash_table child group_by aggregate_column

  -- The first call, up to the loop of `Next`.
  build_hash_table-Holds :
      (o : State) (rows : List Entry) (p : Delivers child ctx o.child rows)
      → All (Fits group_by_attr aggregate_column_attr) rows
      → (c : C) × (m : Map) × ((sums_fit [] (pairs group_by_attr aggregate_column_attr rows) ≡ true)
          → Holds hash_table (pairs group_by_attr aggregate_column_attr rows) m)
        × ((fuel : ℕ) (built : Bool)
            → p.bound + length p.chunks < fuel
            → build_hash_table hash_table child group_by aggregate_column fuel ctx
                (record (self_init hash_table child group_by aggregate_column o) {
                  hash_table_build = built;
                })
              ≡ (if sums_fit [] (pairs group_by_attr aggregate_column_attr rows)
                  then ok
                      (record { child = c; table = m; output_ptr = 0; hash_table_build = built })
                  else fault signed_overflow))
  unfolding build_hash_table self_init
  build_hash_table-Holds o rows p fits =
      let (c, loop) =
        build_loop-add_rows hash_table child group_by aggregate_column ctx p.bound group_by_attr
          aggregate_column_attr p.streams (rw p.total fits) in
      let (m, held, run) =
        add_rows-Holds hash_table group_by_attr aggregate_column_attr rows [] _
          (empty-Holds hash_table) fits in
      (
        c,
        m,
        held,
        λ fuel built enough.
            rw (group_key, aggregate_key, loop _ [] fuel enough, p.total, run)
              (elim (Bool-cases (sums_fit [] (pairs group_by_attr aggregate_column_attr rows))) [
                | inl all ↦ rw all
                | inr some_not ↦ rw some_not
              ]),
      )

  -- A state after the build.
  abbrev built : C → Map → ℕ → State
  built c m ptr = record { child = c; table = m; output_ptr = ptr; hash_table_build = true }

  module _ (positive : 0 < ctx.config.chunk_suggest_size) (enough : ℕ) where
    -- `left` are the entries from the iterator on.
    abbrev Ready : ℕ → State → List Entry → Type 0
    Ready k o rows =
        (c : C) × (m : Map) × (front left : List (Data × Data)) × (entries m ≡ front ++ left)
        × (rows ≡ group_rows left)
        × (length left ≤ k)
        × ((fuel : ℕ) (chunk : Chunk)
            → enough ≤ fuel
            → aggregate.next fuel ctx o chunk ≡ (
                let r = emit_loop ctx.config.chunk_suggest_size left (length front) [] in
                ok (r.0, r.1, built c m r.2)))

    next-built :
        (c : C) (m : Map) (front left : List (Data × Data)) (ptr fuel : ℕ) (chunk : Chunk)
        → entries m ≡ front ++ left
        → ptr ≡ length front
        → aggregate.next fuel ctx (built c m ptr) chunk ≡ (
            let r = emit_loop ctx.config.chunk_suggest_size left (length front) [] in
            ok (r.0, r.1, built c m r.2))
    unfolding aggregate_operator next
    next-built c m front left ptr fuel chunk e at_front =
        rw (e, at_front, drop-append_length front left)

    next-Page :
        (k : ℕ) (o : State) (rows : List Entry)
        → Ready k o rows
        → Page aggregate ctx enough Ready k o rows
    next-Page k o rows (c, m, front, left, e, whole, measure, step) =
        elim (emit_loop-Outcome ctx.config.chunk_suggest_size left (length front) []) [
          | inl run ↦ inl (
            built c m (length front + length left),
            λ fuel chunk h. step fuel chunk h ∙ rw (run, whole),
          )
          | inr (a, b, same, large, run) ↦
              let count : length left ≡ length a + length b = rw same (length-append a b) in
              inr (
                length b,
                group_rows a,
                group_rows b,
                built c m (length front + length a),
                omega (arith, large),
                omega (arith, large, length-group_rows a),
                whole ∙ ap group_rows same ∙ group_rows-append a b,
                λ fuel chunk h. step fuel chunk h ∙ rw run,
                (
                  c,
                  m,
                  front ++ a,
                  b,
                  e ∙ ap (λ r. front ++ r) same ∙ sym (append_assoc front a b),
                  refl,
                  omega arith,
                  λ fuel chunk h.
                      next-built c m (front ++ a) b _ fuel chunk
                        (e ∙ ap (λ r. front ++ r) same ∙ sym (append_assoc front a b))
                        (sym (length-append front a)),
                ),
              )
        ]

  -- After Init, where the suggested size of a chunk is positive, over a child whose schema has both
  -- columns and that returns, in finitely many calls and with enough fuel, rows which have them and
  -- 64-bit values, and where each sum fits after each row, the calls of AggregateOperator::Next
  -- return, in finitely many calls and with enough fuel, one row of a key and the sum of its rows
  -- for each key that the rows of the child have, and no row for any other key.
  pub aggregate_operator-Produces :
      (o : State) (input : List Entry)
      → Delivers child ctx o.child input
      → All (Fits group_by_attr aggregate_column_attr) input
      → 0 < ctx.config.chunk_suggest_size
      → sums_fit [] (pairs group_by_attr aggregate_column_attr input) ≡ true
      → (groups : List (Data × Data)) × Produces aggregate ctx
          (self_init hash_table child group_by aggregate_column o)
          (group_rows groups)
        × ((key : Data)
            → values_of key groups
              ≡ group_sum (values_of key (pairs group_by_attr aggregate_column_attr input)))
  unfolding aggregate_operator next self_init
  aggregate_operator-Produces o input p fits positive all =
      let (c, m, held, run) = build_hash_table-Holds o input p fits in
      let enough : ℕ = suc (p.bound + length p.chunks) in
      let o₀ = self_init hash_table child group_by aggregate_column o in
      let start : Ready positive enough (length (entries m)) o₀ (group_rows (entries m)) = (
        c,
        m,
        [],
        entries m,
        refl,
        refl,
        omega arith,
        λ fuel chunk h. rw (run fuel true (omega arith), all),
      ) in
      (
        entries m,
        (Page-Produces aggregate ctx enough (Ready positive enough) (next-Page positive enough)
            (suc (length (entries m))) (length (entries m)) o₀ _ (omega arith) start).0,
        held all,
      )

  -- After Init, over a child whose schema has both columns and that returns, in finitely many calls
  -- and with enough fuel, rows which have them and 64-bit values, where the sum of a group passes
  -- the signed 64-bit numbers after some row, the first call of AggregateOperator::Next with enough
  -- fuel adds two numbers whose sum overflows, which is undefined.
  pub aggregate_operator-overflow :
      (o : State) (input : List Entry)
      → Delivers child ctx o.child input
      → All (Fits group_by_attr aggregate_column_attr) input
      → sums_fit [] (pairs group_by_attr aggregate_column_attr input) ≡ false
      → (enough : ℕ) × ((fuel : ℕ) (chunk : Chunk)
          → enough ≤ fuel
          → aggregate.next fuel ctx (self_init hash_table child group_by aggregate_column o) chunk
            ≡ fault signed_overflow)
  unfolding aggregate_operator next self_init
  aggregate_operator-overflow o input p fits some_not =
      let (c, m, held, run) = build_hash_table-Holds o input p fits in
      (suc (p.bound + length p.chunks), λ fuel chunk h. rw (run fuel true (omega arith), some_not))
