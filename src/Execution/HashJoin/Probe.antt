-- ===== src/Execution/HashJoin/Probe.antt =====
-- The loop of `Next`: the output rows of the probe rows that it consumes.
use native.Mathlib.Nat.{add-zero}
use p2_hash_join_optimizatio.Common.{
  ℕ, suc, ◌+◌, ◌≤◌, ◌<◌, ◌≡◌, refl, ap, ◌∙◌, ◌⊎◌, inl, inr, false, List, [], ◌∷◌, ◌++◌, append-nil,
  append_assoc, map, ok, arith, length, take, All, length-append, length-map, ltb, le→leb,
  ltb_false→le, Bool-cases, by_fuel,
}
use p2_hash_join_optimizatio.Types.{Data, Tuple, invalid_id}
use p2_hash_join_optimizatio.Types.Lookup.{column, key_from_tuple-column}
use p2_hash_join_optimizatio.Execution.Operator.{
  ExecutionContext, Entry, Chunk, Operator, have_more_output, exhausted, write,
}
use p2_hash_join_optimizatio.Execution.Operator.Buffer.{take-write, length-write, resize-take}
use p2_hash_join_optimizatio.Execution.UnorderedMultimap.{UnorderedMultimap}
use p2_hash_join_optimizatio.Execution.HashJoin.Spec.{pair_with}
use p2_hash_join_optimizatio.Execution.HashJoin.Build.{slice}
use p2_hash_join_optimizatio.Execution.HashJoin.Cursors.{IsReady, refill-Refilled}
use p2_hash_join_optimizatio.Execution.HashJoin.{
  Cursor, BuildTable, union_tuple, emit_matches, probe_loop,
}

length-pair_with : (p : Tuple) (ts : List Tuple) → length (pair_with p ts) ≡ length ts
unfolding pair_with
length-pair_with p [] = refl
length-pair_with p (t ∷ ts) = ap suc (length-pair_with p ts)

module _ (multimap : UnorderedMultimap ℕ) (t : BuildTable multimap) where
  open multimap use {equal_range}

  -- The output rows of the probe rows, as the table gives them.
  unfoldable pub probe_rows : ℕ → List Entry → List Entry
  probe_rows attr [] = []
  probe_rows attr (row ∷ rows) =
      pair_with row.0
        (map (slice t.tuples t.width) (equal_range (column row.0 attr) t.pointer_table))
      ++ probe_rows attr rows

  pub probe_rows-append :
      (attr : ℕ) (a b : List Entry)
      → probe_rows attr (a ++ b) ≡ probe_rows attr a ++ probe_rows attr b
  unfolding probe_rows
  probe_rows-append attr [] b = refl
  probe_rows-append attr (row ∷ a) b = rw (probe_rows-append attr a b, append_assoc)

  -- No offset of a key passes the end of the vector.
  abbrev pub Valid : Type 0
  Valid =
      (k : Data) → All (λ start. start + t.width ≤ length t.tuples) (equal_range k t.pointer_table)

  -- The matches of a row are written behind what the chunk holds.
  emit_matches_lem :
      (p : Tuple) (starts : List ℕ) (out : Chunk) (size : ℕ)
      → All (λ start. start + t.width ≤ length t.tuples) starts
      → size ≤ length out
      → (out' : Chunk) × (emit_matches multimap t p starts out size
          ≡ ok (out', size + length starts))
        × (size + length starts ≤ length out')
        × (take (size + length starts) out'
            ≡ take size out ++ pair_with p (map (slice t.tuples t.width) starts))
  unfolding emit_matches union_tuple pair_with
  emit_matches_lem p [] out size fit h = (out, rw add-zero, omega arith, rw (add-zero, append-nil))
  emit_matches_lem p (start ∷ starts) out size fit h =
      let entry : Entry = (p ++ slice t.tuples t.width start, invalid_id) in
      let (out', run, long, written) =
        emit_matches_lem p starts (write out size entry) (size + 1) fit.1
          (length-write out size entry h) in
      let count : size + 1 + length starts ≡ size + suc (length starts) = omega arith in
      (
        out',
        rw (le→leb _ _ fit.0) (rw count at run),
        omega arith,
        (rw count at written)
            ∙ ap (λ x. x ++ pair_with p (map (slice t.tuples t.width) starts))
                (take-write out size entry h)
            ∙ append_assoc (take size out) (entry ∷ []) _,
      )

  module _ {P : Type 0} (probe : Operator P) (ctx : ExecutionContext) (n attr : ℕ)
      (valid : Valid) where
    open ctx.config use {chunk_suggest_size}

    -- The loop consumes all rows that are left, or enough of them to fill the chunk.
    abbrev pub Outcome : Cursor P → List Entry → ℕ → Type 0
    Outcome c rows size =
        ((c' : Cursor P) × ((out : Chunk)
            → size ≤ length out
            → (fuel : ℕ) → n + length rows < fuel
            → probe_loop multimap probe fuel ctx attr t c out size
              ≡ ok (exhausted, take size out ++ probe_rows attr rows, c')))
        ⊎ ((a b : List Entry) × (c' : Cursor P) × (rows ≡ a ++ b)
            × (chunk_suggest_size ≤ size + length (probe_rows attr a))
            × IsReady probe ctx n c' b
            × ((out : Chunk)
                → size ≤ length out
                → (fuel : ℕ) → n + length rows < fuel
                → probe_loop multimap probe fuel ctx attr t c out size
                  ≡ ok (have_more_output, take size out ++ probe_rows attr a, c')))

    full-Outcome :
        (rows : List Entry) (c : Cursor P) (size : ℕ)
        → IsReady probe ctx n c rows
        → ltb size chunk_suggest_size ≡ false
        → Outcome c rows size
    unfolding probe_loop probe_rows
    full-Outcome rows c size ready full = inr (
      [],
      rows,
      c,
      refl,
      omega (arith, ltb_false→le size chunk_suggest_size full),
      ready,
      λ out h. by_fuel _ (n + length rows) (λ g _. rw (full, append-nil, resize-take out size h)),
    )

    pub probe_loop-Outcome :
        (rows : List Entry) (c : Cursor P) (size : ℕ)
        → IsReady probe ctx n c rows
        → All (λ row. attr < length row.0) rows
        → Outcome c rows size
    unfolding probe_loop probe_rows
    probe_loop-Outcome [] c size ready fits = elim (Bool-cases (ltb size chunk_suggest_size)) [
      | inr full ↦ full-Outcome [] c size ready full
      | inl room ↦
          let (c₁, refilled, used) = refill-Refilled probe ctx n c [] ready in
          inl (
            c₁,
            λ out h. by_fuel _ (n + 0) (λ g b.
                rw (room, refilled g (omega arith), used, append-nil, resize-take out size h)),
          )
    ]
    probe_loop-Outcome (row ∷ rows) c size ready fits =
        elim (Bool-cases (ltb size chunk_suggest_size)) [
          | inr full ↦ full-Outcome (row ∷ rows) c size ready full
          | inl room ↦
              let (c₁, refilled, found) = refill-Refilled probe ctx n c (row ∷ rows) ready in
              let key = key_from_tuple-column row.0 attr fits.0 in
              let starts = equal_range (column row.0 attr) t.pointer_table in
              let pairs = pair_with row.0 (map (slice t.tuples t.width) starts) in
              let emit = λ (out : Chunk) (h : size ≤ length out).
                emit_matches_lem row.0 starts out size (valid (column row.0 attr)) h in
              let written = λ (out : Chunk) (h : size ≤ length out) (rest : List Entry).
                ap (λ x. x ++ rest) (emit out h).3 ∙ append_assoc (take size out) pairs rest in
              elim (probe_loop-Outcome rows _ (size + length starts) found.2 fits.1) [
                | inl (c', run) ↦ inl (
                  c',
                  λ out h. by_fuel _ (n + suc (length rows)) (λ g b.
                      rw (room, refilled g (omega arith), found.0, found.1, key, (emit out h).1)
                        (run (emit out h).0 (emit out h).2 g (omega arith)
                          ∙ ap (λ x. ok (exhausted, x, c'))
                              (written out h (probe_rows attr rows)))),
                )
                | inr (a, b, c', same, large, ready', run) ↦ inr (
                  row ∷ a,
                  b,
                  c',
                  ap (λ x. row ∷ x) same,
                  omega (
                    arith,
                    large,
                    length-append pairs (probe_rows attr a),
                    length-pair_with row.0 (map (slice t.tuples t.width) starts),
                    length-map (slice t.tuples t.width) starts,
                  ),
                  ready',
                  λ out h. by_fuel _ (n + suc (length rows)) (λ g b.
                      rw (room, refilled g (omega arith), found.0, found.1, key, (emit out h).1)
                        (run (emit out h).0 (emit out h).2 g (omega arith)
                          ∙ ap (λ x. ok (have_more_output, x, c'))
                              (written out h (probe_rows attr a)))),
                )
              ]
        ]
