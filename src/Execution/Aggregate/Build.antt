-- ===== src/Execution/Aggregate/Build.antt =====
-- The loops of `BuildHashTable` over the rows of a chunk and over the chunks of the child.
use p2_hash_join_optimizatio.Common.{
  ℕ, suc, ◌+◌, ◌<◌, ◌≡◌, refl, ◌∙◌, true, List, [], ◌∷◌, ◌++◌, ok, ◌>>=◌, fault, signed_overflow,
  All, arith, if◌then◌else◌, Bool-cases, Option-cases, inl, inr, append_assoc, append-nil, length,
  flatten, by_fuel, Result-cases, String, All-append_left, All-append_right,
}
use p2_hash_join_optimizatio.Types.{Data}
use p2_hash_join_optimizatio.Types.Lookup.{column, key_from_tuple-column}
use p2_hash_join_optimizatio.Execution.Operator.{ExecutionContext, Entry, Chunk, Operator}
use p2_hash_join_optimizatio.Execution.Operator.Contract.{Streams, last, more}
use p2_hash_join_optimizatio.Execution.Aggregate.Table.{GroupTable}
use p2_hash_join_optimizatio.Execution.Aggregate.Sums.{values_of, sum, pairs, Fits, sums_fit}
use p2_hash_join_optimizatio.Execution.Aggregate.{in_int64, add_data, add_rows, build_loop}
use p2_hash_join_optimizatio.Execution.Aggregate.Groups.{Holds, add_pair, add_pair-Holds}

module _ (hash_table : GroupTable) where
  open hash_table use {
    Map, empty, find, insert, write_found, entries, entries-empty, entries-insert, find-none,
    find-some,
  }

  module _ (group_by_attr aggregate_column_attr : ℕ) where
    add_rows-add_pair :
        (row : Entry) (rows : Chunk) (m : Map)
        → Fits group_by_attr aggregate_column_attr row
        → add_rows hash_table group_by_attr aggregate_column_attr (row ∷ rows) m ≡ (
            add_pair hash_table (column row.0 group_by_attr) (column row.0 aggregate_column_attr) m
            >>= λ m'. add_rows hash_table group_by_attr aggregate_column_attr rows m')
    unfolding add_rows add_pair
    add_rows-add_pair row rows m (g, a, small) =
        let key = key_from_tuple-column row.0 group_by_attr g in
        let value = key_from_tuple-column row.0 aggregate_column_attr a in
        elim (Option-cases (find (column row.0 group_by_attr) m)) [
          | inl absent ↦ rw (key, value, absent, add_pair)
          | inr (u, found) ↦ elim (Result-cases (add_data u (column row.0 aggregate_column_attr))) [
            | inl (e, stop) ↦ rw (key, value, found, stop, add_pair)
            | inr (u', done) ↦ rw (key, value, found, done, add_pair)
          ]
        ]

    -- The rows in all: either every sum fits and the table holds them, or one overflows.
    pub add_rows-Holds :
        (rows : List Entry) (front : List (Data × Data)) (m : Map)
        → Holds hash_table front m
        → All (Fits group_by_attr aggregate_column_attr) rows
        → (m' : Map) × ((sums_fit front (pairs group_by_attr aggregate_column_attr rows) ≡ true)
            → Holds hash_table (front ++ pairs group_by_attr aggregate_column_attr rows) m')
          × (add_rows hash_table group_by_attr aggregate_column_attr rows m ≡ (
              if sums_fit front (pairs group_by_attr aggregate_column_attr rows)
              then ok m'
              else fault signed_overflow))
    unfolding sums_fit pairs add_rows
    add_rows-Holds [] front m h fits = (m, λ all. rw append-nil h, refl)
    add_rows-Holds (row ∷ rows) front m h (here, fits) =
        let k = column row.0 group_by_attr in
        let v = column row.0 aggregate_column_attr in
        let (m₁, next, run) = add_pair-Holds hash_table front m k v h here.2 in
        let (m₂, final, rest) = add_rows-Holds rows (front ++ (k, v) ∷ []) m₁ next fits in
        elim (Bool-cases (in_int64 (sum (values_of k (front ++ (k, v) ∷ []))))) [
          | inl small ↦ (
            m₂,
            λ all.
                rw
                  (append_assoc front ((k, v) ∷ [])
                    (pairs group_by_attr aggregate_column_attr rows))
                  at (final (rw small at all)),
            add_rows-add_pair row rows m here ∙ rw (run, small) rest,
          )
          | inr large ↦ (
            m,
            λ all. absurd (cc (rw large at all)),
            add_rows-add_pair row rows m here ∙ rw (run, large),
          )
        ]

    add_rows-append :
        (xs ys : List Entry) (m : Map)
        → All (Fits group_by_attr aggregate_column_attr) xs
        → add_rows hash_table group_by_attr aggregate_column_attr (xs ++ ys) m ≡ (
            add_rows hash_table group_by_attr aggregate_column_attr xs m >>= λ m'.
            add_rows hash_table group_by_attr aggregate_column_attr ys m')
    unfolding add_rows
    add_rows-append [] ys m fits = refl
    add_rows-append (row ∷ xs) ys m (here, fits) =
        let k = column row.0 group_by_attr in
        let v = column row.0 aggregate_column_attr in
        rw (add_rows-add_pair row (xs ++ ys) m here, add_rows-add_pair row xs m here)
          (elim (Result-cases (add_pair hash_table k v m)) [
            | inl (e, stop) ↦ rw stop
            | inr (m₁, run) ↦ rw (run, add_rows-append xs ys m₁ fits)
          ])

  module _ {C : Type 0} (child : Operator C) (group_by aggregate_column : String)
      (ctx : ExecutionContext) (n group_by_attr aggregate_column_attr : ℕ) where
    -- The outer loop adds the rows of all the chunks.
    pub build_loop-add_rows :
        {s : C} {chunks : List Chunk}
        → Streams child ctx n s chunks
        → All (Fits group_by_attr aggregate_column_attr) (flatten chunks)
        → (s' : C) × ((m : Map) (chunk : Chunk) (fuel : ℕ)
            → n + length chunks < fuel
            → build_loop hash_table child group_by aggregate_column fuel ctx group_by_attr
                aggregate_column_attr s chunk m
              ≡ (add_rows hash_table group_by_attr aggregate_column_attr (flatten chunks) m
                  >>= λ m'. ok (s', m')))
    unfolding build_loop flatten
    build_loop-add_rows (last {s' = s'} {out} y) fits =
        (s', λ m chunk. by_fuel _ (n + 1) (λ g h. rw (y g chunk (omega arith), append-nil)))
    build_loop-add_rows (more {s'} {out} {rest} y st) fits =
        let (s'', run) = build_loop-add_rows st (All-append_right _ out (flatten rest) fits) in
        (
          s'',
          λ m chunk. by_fuel _ (n + suc (length rest)) (λ g h.
              rw
                (
                  y g chunk (omega arith),
                  add_rows-append group_by_attr aggregate_column_attr out (flatten rest) m
                      (All-append_left _ out (flatten rest) fits),
                )
                (elim (Result-cases
                  (add_rows hash_table group_by_attr aggregate_column_attr out m)) [
                    | inl (e, stop) ↦ rw stop
                    | inr (m₁, done) ↦ rw done (run m₁ out g (omega arith))
                  ])),
        )
