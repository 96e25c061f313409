-- ===== src/Execution/HashJoin/Rows.antt =====
-- The join produces the rows of the nested loop join of what its children produce, in an order that
-- the hash table chooses among the matches of a probe row.
use mathlib.Core.List.Perm
use native.Mathlib.Nat.{ℕ_set}
use p2_hash_join_optimizatio.Common.{
  ℕ, suc, ◌+◌, ◌≤◌, ◌<◌, ◌≡◌, refl, sym, ap, ◌∙◌, inl, inr, true, String, List, [], ◌∷◌, ◌++◌, map,
  Perm, ok, ◌>>=◌, arith, length, All, All-append, All-append_right, All-perm, length-append, eqb_ℤ,
  Bool-cases,
}
use p2_hash_join_optimizatio.Types.{Data, Tuple, invalid_id, get_key_attr}
use p2_hash_join_optimizatio.Types.Schemas.{get_key_attr-lt, get_key_attrs_one}
use p2_hash_join_optimizatio.Types.Lookup.{column}
use p2_hash_join_optimizatio.Execution.Operator.{ExecutionContext, Entry, Chunk, Operator}
use p2_hash_join_optimizatio.Execution.Operator.Contract.{Delivers, Produces}
use p2_hash_join_optimizatio.Execution.Operator.Pages.{Page, Page-Produces}
use p2_hash_join_optimizatio.Execution.UnorderedMultimap.{UnorderedMultimap}
use p2_hash_join_optimizatio.Execution.HashJoin.Spec.{pair_with, matching, nested_loop_join, Wide}
use p2_hash_join_optimizatio.Execution.HashJoin.Build.{Holds, build_hash_table-Holds}
use p2_hash_join_optimizatio.Execution.HashJoin.Cursors.{IsReady}
use p2_hash_join_optimizatio.Execution.HashJoin.Probe.{
  probe_rows, probe_rows-append, Valid, probe_loop-Outcome,
}
use p2_hash_join_optimizatio.Execution.HashJoin.{
  Cursor, BuildTable, HashJoinOperator, probe_loop, next, self_init, hash_join_operator,
}

pub pair_with-perm :
    (p : Tuple) {xs ys : List Tuple} → Perm xs ys → Perm (pair_with p xs) (pair_with p ys)
unfolding pair_with
pair_with-perm p {xs} {ys} h = rw (as_map xs, as_map ys) (Perm.map f h)
  where
    f : Tuple → Entry
    f t = (p ++ t, invalid_id)

    as_map : (ts : List Tuple) → pair_with p ts ≡ map f ts
    as_map [] = refl
    as_map (t ∷ ts) = ap (λ r. f t ∷ r) (as_map ts)

Wide-fits :
    (width attr : ℕ) (rows : List Entry)
    → attr < width
    → Wide width rows
    → All (λ row. attr < length row.0) rows
Wide-fits width attr [] h wide = tt
Wide-fits width attr (row ∷ rows) h wide =
    (omega (arith, wide.0), Wide-fits width attr rows h wide.1)

module _ (probe_width build_width probe_attr build_attr : ℕ) where
  matching-Wide :
      (k : Data) (rows : List Entry)
      → Wide build_width rows
      → All (λ t. length t ≡ build_width) (matching build_attr k rows)
  unfolding matching
  matching-Wide k [] h = tt
  matching-Wide k (row ∷ rows) h = elim (Bool-cases (eqb_ℤ (column row.0 build_attr) k)) [
    | inl same ↦ rw same (h.0, matching-Wide k rows h.1)
    | inr other ↦ rw other (matching-Wide k rows h.1)
  ]

  pair_with-Wide :
      (p : Tuple) (ts : List Tuple)
      → length p ≡ probe_width
      → All (λ t. length t ≡ build_width) ts
      → Wide (probe_width + build_width) (pair_with p ts)
  unfolding pair_with
  pair_with-Wide p [] h hs = tt
  pair_with-Wide p (t ∷ ts) h hs =
      (omega (arith, length-append p t, h, hs.0), pair_with-Wide p ts h hs.1)

  pub nested_loop_join-Wide :
      (ps bs : List Entry)
      → Wide probe_width ps
      → Wide build_width bs
      → Wide (probe_width + build_width) (nested_loop_join probe_attr build_attr ps bs)
  unfolding nested_loop_join
  nested_loop_join-Wide [] bs hp hb = tt
  nested_loop_join-Wide (p ∷ ps) bs hp hb =
      All-append _ _ _ (pair_with-Wide p.0 _ hp.0 (matching-Wide _ bs hb))
        (nested_loop_join-Wide ps bs hp.1 hb)

module _ (multimap : UnorderedMultimap ℕ) where
  -- What a table that holds the build rows gives is the nested loop join, up to order.
  probe_rows-perm :
      (t : BuildTable multimap) (width probe_attr build_attr : ℕ) (ps bs : List Entry)
      → Holds multimap width build_attr bs t
      → Perm (probe_rows multimap t probe_attr ps) (nested_loop_join probe_attr build_attr ps bs)
  unfolding probe_rows nested_loop_join
  probe_rows-perm t width probe_attr build_attr [] bs h = Perm.refl []
  probe_rows-perm t width probe_attr build_attr (p ∷ ps) bs h =
      Perm.append (pair_with-perm p.0 (rw h.width_eq (h.matches (column p.0 probe_attr))))
        (probe_rows-perm t width probe_attr build_attr ps bs h)

  module _ {P B : Type 0} (probe : Operator P) (build : Operator B)
      (probe_column_name build_column_name : String) (ctx : ExecutionContext)
      (probe_attr build_attr : ℕ)
      (probe_key : get_key_attr probe.output_schema probe_column_name ≡ ok probe_attr)
      (build_key : get_key_attr build.output_schema build_column_name ≡ ok build_attr)
      (positive : 0 < ctx.config.chunk_suggest_size) where
    abbrev Join : Type 0
    Join = HashJoinOperator multimap P B

    abbrev join : Operator Join
    join = hash_join_operator multimap probe build probe_column_name build_column_name

    module _ (t : BuildTable multimap) (valid : Valid multimap t) (b : B) (n enough : ℕ) where
      -- The state when the table is built.
      abbrev built : Cursor P → Join
      built c = record { cursor = c; build_child = b; table = t; hash_table_build = true }

      abbrev Ready : ℕ → Join → List Entry → Type 0
      Ready k j rows =
          (left : List Entry) × IsReady probe ctx n j.cursor left
          × All (λ row. probe_attr < length row.0) left
          × (rows ≡ probe_rows multimap t probe_attr left)
          × (length left ≤ k)
          × (n + length left < enough)
          × ((fuel : ℕ) (chunk : Chunk)
              → enough ≤ fuel
              → join.next fuel ctx j chunk ≡ (
                  probe_loop multimap probe fuel ctx probe_attr t j.cursor chunk 0 >>= λ r.
                  ok (r.0, r.1, built r.2)))

      next-built :
          (c : Cursor P) (fuel : ℕ) (chunk : Chunk)
          → join.next fuel ctx (built c) chunk ≡ (
              probe_loop multimap probe fuel ctx probe_attr t c chunk 0 >>= λ r.
              ok (r.0, r.1, built r.2))
      unfolding hash_join_operator next
      next-built c fuel chunk =
          rw (get_key_attrs_one probe.output_schema probe_column_name probe_attr probe_key)

      some_probe_rows :
          (a : List Entry) → 0 < length (probe_rows multimap t probe_attr a) → 0 < length a
      unfolding probe_rows
      some_probe_rows [] h = absurd (omega arith)
      some_probe_rows (row ∷ a) h = omega arith

      next-Page :
          (k : ℕ) (j : Join) (rows : List Entry)
          → Ready k j rows
          → Page join ctx enough Ready k j rows
      next-Page k j rows (left, ready, fits, e, measure, room, step) =
          elim (probe_loop-Outcome multimap t probe ctx n probe_attr valid left j.cursor 0 ready
            fits) [
              | inl (c', run) ↦ inl (
                built c',
                λ fuel chunk h.
                    step fuel chunk h ∙ rw (run chunk (omega arith) fuel (omega arith), e),
              )
              | inr (a, rest, c', same, large, ready', run) ↦
                  let some_rows : 0 < length a = some_probe_rows a (omega (arith, large)) in
                  let fewer : length rest + length a ≡ length left =
                    omega (arith, ap length same, length-append a rest) in
                  inr (
                    length rest,
                    probe_rows multimap t probe_attr a,
                    probe_rows multimap t probe_attr rest,
                    built c',
                    omega arith,
                    omega (arith, large),
                    e
                        ∙ ap (probe_rows multimap t probe_attr) same
                        ∙ probe_rows-append multimap t probe_attr a rest,
                    λ fuel chunk h.
                        step fuel chunk h ∙ rw (run chunk (omega arith) fuel (omega arith)),
                    (
                      rest,
                      ready',
                      All-append_right _ a rest (rw same at fits),
                      refl,
                      omega arith,
                      omega arith,
                      λ fuel chunk h. next-built c' fuel chunk,
                    ),
                  )
            ]

    -- After Init, where the suggested size of a chunk is positive, over children whose schemas have
    -- the join columns and that return, in finitely many calls and with enough fuel, rows of the
    -- width of their schemas, the probe child no empty chunk before its last one: the calls of
    -- HashJoinOperator::Next return, in finitely many calls and with enough fuel and with no empty
    -- chunk before the last, a permutation of the rows of the nested loop join of what the children
    -- return, each of the width of the joined schema.
    pub hash_join_operator-Produces :
        (j : Join) (probe_input build_input : List Entry)
        → Produces probe ctx j.cursor.probe_child probe_input
        → Delivers build ctx j.build_child build_input
        → Wide (length probe.output_schema) probe_input
        → Wide (length build.output_schema) build_input
        → (rows : List Entry) × Produces join ctx
            (self_init multimap probe build build_column_name probe_column_name j)
            rows
          × Perm rows (nested_loop_join probe_attr build_attr probe_input build_input)
          × Wide (length join.output_schema) rows
    unfolding self_init hash_join_operator next
    hash_join_operator-Produces j ps bs p q pw bw =
        let j₀ = self_init multimap probe build build_column_name probe_column_name j in
        let j₁ : Join = record j₀ { hash_table_build = true } in
        let (b, t, build_run, holds) =
          build_hash_table-Holds multimap probe build build_column_name ctx build_attr j₁ bs
            (get_key_attrs_one build.output_schema build_column_name build_attr build_key)
            (get_key_attr-lt build.output_schema build_column_name build_attr build_key) refl bw
            q in
        let valid : Valid multimap t = rw (← holds.width_eq) at holds.valid in
        let enough : ℕ = suc (q.bound + length q.chunks + (p.bound + length ps)) in
        let perm =
          probe_rows-perm t (length build.output_schema) probe_attr build_attr ps bs holds in
        let key = get_key_attrs_one probe.output_schema probe_column_name probe_attr probe_key in
        let start : Ready t valid b p.bound enough (length ps) j₀
            (probe_rows multimap t probe_attr ps) =
          (
            ps,
            record {
              pending = [];
              buffered = refl;
              within = omega arith;
              left = inr (refl, p.chunks, p.streams, p.busy, sym p.total);
            },
            Wide-fits _ probe_attr ps
                (get_key_attr-lt probe.output_schema probe_column_name probe_attr probe_key) pw,
            refl,
            omega arith,
            omega arith,
            λ fuel chunk h. rw (build_run fuel (omega arith), key),
          ) in
        (
          probe_rows multimap t probe_attr ps,
          (Page-Produces join ctx enough (Ready t valid b p.bound enough)
              (next-Page t valid b p.bound enough) (suc (length ps)) (length ps) j₀ _ (omega arith)
              start).0,
          perm,
          rw (length-append probe.output_schema build.output_schema) (
              All-perm _ (λ _. ℕ_set _ _) _ _ perm
                (nested_loop_join-Wide _ _ probe_attr build_attr ps bs pw bw)),
        )
