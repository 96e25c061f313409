-- ===== src/Execution/Value/Rows.antt =====
-- The value operator produces its tuples, in their order.
use p2_hash_join_optimizatio.Common.{
  ℕ, zero, Result-cases, suc, ◌+◌, ◌≤◌, ◌<◌, ◌≡◌, refl, ap, ◌∙◌, ◌⊎◌, inl, inr, true, false, List,
  [], ◌∷◌, ◌++◌, append-nil, append_assoc, ok, arith, length, drop, length-drop, length-append,
  drop-suc, ltb, Bool-cases, ltb_false→le, ◌==◌, by_fuel,
}
use p2_hash_join_optimizatio.Types.{Tuple, invalid_id, at}
use p2_hash_join_optimizatio.Storage.Catalog.{Catalog}
use p2_hash_join_optimizatio.Types.Lookup.{at-drop}
use p2_hash_join_optimizatio.Execution.Operator.{
  ExecutionContext, Entry, Chunk, have_more_output, exhausted,
}
use p2_hash_join_optimizatio.Execution.Operator.Contract.{Produces}
use p2_hash_join_optimizatio.Execution.Operator.Pages.{Page, Page-Produces}
use p2_hash_join_optimizatio.Execution.Value.{ValueOperator, next_loop, next, value_operator}

-- A tuple that is in no table has no row id.
abbrev pub as_rows : List Tuple → List Entry
as_rows [] = []
as_rows (t ∷ ts) = (t, invalid_id) ∷ as_rows ts

as_rows-append : (a b : List Tuple) → as_rows (a ++ b) ≡ as_rows a ++ as_rows b
as_rows-append [] b = refl
as_rows-append (t ∷ a) b = ap (λ r. (t, invalid_id) ∷ r) (as_rows-append a b)

length-as_rows : (a : List Tuple) → length (as_rows a) ≡ length a
length-as_rows [] = refl
length-as_rows (t ∷ a) = ap suc (length-as_rows a)

-- The tuples that the operator has yet to return.
record Left (v : ValueOperator) (rest : List Tuple) : Type 0 where
  within : v.next_tuple_id ≤ length v.tuples
  rows : drop v.next_tuple_id v.tuples ≡ rest

module _ (ctx : ExecutionContext) where
  open ctx.config use {chunk_suggest_size}

  abbrev Outcome : ValueOperator → Chunk → List Tuple → Type 0
  Outcome v out rest =
      ((v' : ValueOperator) × ((fuel : ℕ)
          → length rest < fuel
          → next_loop fuel ctx v out ≡ ok (exhausted, out ++ as_rows rest, v')))
      ⊎ ((a b : List Tuple) × (v' : ValueOperator) × (rest ≡ a ++ b)
          × (chunk_suggest_size ≤ length out + length a)
          × Left v' b
          × ((fuel : ℕ)
              → length rest < fuel
              → next_loop fuel ctx v out ≡ ok (have_more_output, out ++ as_rows a, v')))

  full-Outcome :
      (v : ValueOperator) (out : Chunk) (rest : List Tuple)
      → ltb (length out) chunk_suggest_size ≡ false
      → Left v rest
      → Outcome v out rest
  unfolding next_loop
  full-Outcome v out rest full left = inr (
    [],
    rest,
    v,
    refl,
    omega (arith, ltb_false→le (length out) chunk_suggest_size full),
    left,
    by_fuel _ (length rest) (λ g h. rw (full, append-nil)),
  )

  next_loop-Outcome :
      (rest : List Tuple) (v : ValueOperator) (out : Chunk) → Left v rest → Outcome v out rest
  unfolding next_loop
  next_loop-Outcome [] v out left = elim (Bool-cases (ltb (length out) chunk_suggest_size)) [
    | inr full ↦ full-Outcome v out [] full left
    | inl room ↦
        let done : (v.next_tuple_id == length v.tuples) ≡ true =
          ground (arith, length-drop v.next_tuple_id v.tuples, ap length left.rows) in
        inl (v, by_fuel _ 0 (λ g h. rw (room, done, append-nil)))
  ]
  next_loop-Outcome (t ∷ r) v out left = elim (Bool-cases (ltb (length out) chunk_suggest_size)) [
    | inr full ↦ full-Outcome v out (t ∷ r) full left
    | inl room ↦
        let more : (v.next_tuple_id == length v.tuples) ≡ false =
          ground (arith, length-drop v.next_tuple_id v.tuples, ap length left.rows) in
        let read = at-drop v.next_tuple_id v.tuples t r left.rows in
        let v₁ : ValueOperator = record v { next_tuple_id = v.next_tuple_id + 1 } in
        let left₁ : Left v₁ r = record {
          within = omega (arith, length-drop v.next_tuple_id v.tuples, ap length left.rows);
          rows = drop-suc v.next_tuple_id v.tuples t r left.rows;
        } in
        let entry : Entry = (t, invalid_id) in
        elim (next_loop-Outcome r v₁ (out ++ entry ∷ []) left₁) [
          | inl (v', run) ↦ inl (
            v',
            by_fuel _ (suc (length r)) (λ g h.
                rw (room, more, read)
                  (run g h
                    ∙ ap (λ x. ok (exhausted, x, v')) (append_assoc out (entry ∷ []) (as_rows r)))),
          )
          | inr (a, b, v', e, size, left', run) ↦ inr (
            t ∷ a,
            b,
            v',
            ap (λ x. t ∷ x) e,
            omega (arith, size, length-append out (entry ∷ [])),
            left',
            by_fuel _ (suc (length r)) (λ g h.
                rw (room, more, read)
                  (run g h
                    ∙ ap (λ x. ok (have_more_output, x, v'))
                        (append_assoc out (entry ∷ []) (as_rows a)))),
          )
        ]
  ]

  module _ (built : ValueOperator) (positive : 0 < chunk_suggest_size) (total : ℕ) where
    abbrev Ready : ℕ → ValueOperator → List Entry → Type 0
    Ready k v rows =
        (rest : List Tuple) × Left v rest × (rows ≡ as_rows rest) × (k ≡ length rest) × (k ≤ total)

    next-Page :
        (k : ℕ) (v : ValueOperator) (rows : List Entry)
        → Ready k v rows
        → Page (value_operator built) ctx (suc total) Ready k v rows
    unfolding value_operator next
    next-Page k v rows (rest, left, e, ek, bound) = elim (next_loop-Outcome rest v [] left) [
      | inl (v', run) ↦ inl (v', λ fuel chunk h. rw e (run fuel (omega arith)))
      | inr (a, b, v', e', size, left', run) ↦ inr (
        length b,
        as_rows a,
        as_rows b,
        v',
        omega (arith, ap length e', length-append a b),
        rw length-as_rows (omega arith),
        (e ∙ ap as_rows e' ∙ as_rows-append a b),
        λ fuel chunk h. run fuel (omega arith),
        (b, left', refl, refl, omega (arith, ap length e', length-append a b)),
      )
    ]

-- After Init, whatever the operator returned before, the calls of ValueOperator::Next return its
-- tuples, in their order and without row ids, if the suggested size of a chunk is positive.
pub value_operator-Produces :
    (ctx : ExecutionContext) (v : ValueOperator)
    → 0 < ctx.config.chunk_suggest_size
    → Produces (value_operator v) ctx (record v { next_tuple_id = 0 }) (as_rows v.tuples)
value_operator-Produces ctx v positive =
    (Page-Produces (value_operator v) ctx (suc (length v.tuples))
      (Ready ctx v positive (length v.tuples)) (next-Page ctx v positive (length v.tuples))
      (suc (length v.tuples)) (length v.tuples) _ _ (omega arith)
      (v.tuples, record { within = omega arith; rows = refl }, refl, refl, omega arith)).0

next_loop-over :
    (fuel : ℕ) (ctx : ExecutionContext) (catalog : Catalog) (v : ValueOperator) (out : Chunk)
    → next_loop fuel (record ctx { catalog = catalog }) v out ≡ next_loop fuel ctx v out
unfolding next_loop
next_loop-over zero ctx catalog v out = refl
next_loop-over (suc fuel) ctx catalog v out = elim (Result-cases (at v.tuples v.next_tuple_id)) [
  | inl (e, stop) ↦ rw stop
  | inr (tuple, read) ↦ rw (read, next_loop-over fuel ctx catalog)
]

-- The operator does not read the catalog.
pub value_operator-over :
    (built : ValueOperator) (fuel : ℕ) (ctx : ExecutionContext) (catalog : Catalog)
    (v : ValueOperator) (chunk : Chunk)
    → (value_operator built).next fuel (record ctx { catalog = catalog }) v chunk
      ≡ (value_operator built).next fuel ctx v chunk
unfolding value_operator next
value_operator-over built fuel ctx catalog v chunk = next_loop-over fuel ctx catalog v []
