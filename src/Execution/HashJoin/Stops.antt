-- ===== src/Execution/HashJoin/Stops.antt =====
-- A probe child that returns an empty chunk and has more to come, as a filter may.
use p2_hash_join_optimizatio.Common.{
  ℕ, suc, ◌+◌, ◌<◌, ◌≡◌, refl, true, false, String, List, [], ok, arith, length, by_fuel, lt→ltb,
}
use p2_hash_join_optimizatio.Types.{get_key_attr}
use p2_hash_join_optimizatio.Types.Schemas.{get_key_attr-lt, get_key_attrs_one}
use p2_hash_join_optimizatio.Execution.Operator.{
  ExecutionContext, Entry, Operator, have_more_output, exhausted,
}
use p2_hash_join_optimizatio.Execution.Operator.Contract.{Yields, Delivers}
use p2_hash_join_optimizatio.Execution.Operator.Buffer.{resize-take}
use p2_hash_join_optimizatio.Execution.UnorderedMultimap.{UnorderedMultimap}
use p2_hash_join_optimizatio.Execution.HashJoin.Spec.{Wide}
use p2_hash_join_optimizatio.Execution.HashJoin.Build.{build_hash_table-Holds}
use p2_hash_join_optimizatio.Execution.HashJoin.{
  BuildTable, HashJoinOperator, probe_loop, refill, next, self_init, hash_join_operator,
}

module _ (multimap : UnorderedMultimap ℕ) {P B : Type 0} (probe : Operator P) (build : Operator B)
    (probe_column_name build_column_name : String) (ctx : ExecutionContext)
    (probe_attr build_attr : ℕ) where
  -- Where the suggested size of a chunk is positive and the join columns are there: if the first
  -- call to the probe child returns an empty chunk with HAVE_MORE_OUTPUT, and the build child
  -- produces rows of the width of its schema, the first call of the join after Init returns
  -- EXHAUSETED and no row, whatever rows the probe child still has.
  pub empty_chunk_stops :
      get_key_attr probe.output_schema probe_column_name ≡ ok probe_attr
      → get_key_attr build.output_schema build_column_name ≡ ok build_attr
      → 0 < ctx.config.chunk_suggest_size
      → (j : HashJoinOperator multimap P B) (n : ℕ) (p' : P) (build_input : List Entry)
      → Yields probe ctx n j.cursor.probe_child have_more_output [] p'
      → Delivers build ctx j.build_child build_input
      → Wide (length build.output_schema) build_input
      → (enough : ℕ) × (j' : HashJoinOperator multimap P B) × Yields
          (hash_join_operator multimap probe build probe_column_name build_column_name)
          ctx
          enough
          (self_init multimap probe build build_column_name probe_column_name j)
          exhausted
          []
          j'
  unfolding self_init hash_join_operator next probe_loop refill
  empty_chunk_stops probe_key build_key positive j n p' bs y q bw =
      let j₀ = self_init multimap probe build build_column_name probe_column_name j in
      let j₁ : HashJoinOperator multimap P B = record j₀ { hash_table_build = true } in
      let (b, t, build_run, holds) =
        build_hash_table-Holds multimap probe build build_column_name ctx build_attr j₁ bs
          (get_key_attrs_one build.output_schema build_column_name build_attr build_key)
          (get_key_attr-lt build.output_schema build_column_name build_attr build_key) refl bw q in
      let stopped = λ (b : B) (t : BuildTable multimap).
        let result : HashJoinOperator multimap P B = record {
          cursor = record {
            probe_child = p';
            buffer = [];
            buffer_ptr = 0;
            probe_child_exhausted = false;
          };
          build_child = b;
          table = t;
          hash_table_build = true;
        } in
        result in
      let key = get_key_attrs_one probe.output_schema probe_column_name probe_attr probe_key in
      let room = lt→ltb 0 ctx.config.chunk_suggest_size positive in
      (
        suc (n + (q.bound + length q.chunks)),
        stopped b t,
        λ fuel chunk.
            by_fuel
              (λ f.
                (hash_join_operator multimap probe build probe_column_name build_column_name).next f
                  ctx j₀ chunk
                ≡ ok (exhausted, [], stopped b t))
              (n + (q.bound + length q.chunks))
              (λ g h. rw (
                build_run (suc g) (omega arith),
                key,
                room,
                y g [] (omega arith),
                resize-take chunk 0 (omega arith),
              ))
              fuel,
      )
