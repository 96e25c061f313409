-- ===== src/Execution/Aggregate/Emit.antt =====
-- The loop of `Next` over the entries of the table.
use native.Mathlib.Nat.{add-zero}
use p2_hash_join_optimizatio.Common.{
  ℕ, suc, ◌+◌, ◌≤◌, ◌≡◌, refl, ap, ◌⊎◌, inl, inr, List, [], ◌∷◌, ◌++◌, append_assoc, append-nil,
  arith, length, length-append, Bool-cases, ltb, ltb_false→le,
}
use p2_hash_join_optimizatio.Types.{Data, invalid_id}
use p2_hash_join_optimizatio.Execution.Operator.{Chunk, have_more_output, exhausted}
use p2_hash_join_optimizatio.Execution.Aggregate.{group_rows, emit_loop}

pub group_rows-append :
    (a b : List (Data × Data)) → group_rows (a ++ b) ≡ group_rows a ++ group_rows b
group_rows-append [] b = refl
group_rows-append (e ∷ a) b = ap (λ r. (e.0 ∷ e.1 ∷ [], invalid_id) ∷ r) (group_rows-append a b)

pub length-group_rows : (a : List (Data × Data)) → length (group_rows a) ≡ length a
length-group_rows [] = refl
length-group_rows (e ∷ a) = ap suc (length-group_rows a)

-- One call either comes to the end or stops in front of the rest with a full chunk.
pub emit_loop-Outcome :
    (size : ℕ) (entries : List (Data × Data)) (output_ptr : ℕ) (out : Chunk)
    → (emit_loop size entries output_ptr out
        ≡ (exhausted, out ++ group_rows entries, output_ptr + length entries))
      ⊎ ((a b : List (Data × Data)) × (entries ≡ a ++ b)
          × (size ≤ length out + length a)
          × (emit_loop size entries output_ptr out
              ≡ (have_more_output, out ++ group_rows a, output_ptr + length a)))
unfolding emit_loop
emit_loop-Outcome size [] output_ptr out = elim (Bool-cases (ltb (length out) size)) [
  | inl room ↦ inl (rw (room, append-nil, add-zero))
  | inr full ↦ inr (
    [],
    [],
    refl,
    omega (arith, ltb_false→le (length out) size full),
    rw (full, append-nil, add-zero),
  )
]
emit_loop-Outcome size (e ∷ entries) output_ptr out =
    let row : Chunk = (e.0 ∷ e.1 ∷ [], invalid_id) ∷ [] in
    let count = length-append out row in
    let next_ptr : (n : ℕ) → output_ptr + 1 + n ≡ output_ptr + suc n = λ n. omega arith in
    elim (Bool-cases (ltb (length out) size)) [
      | inr full ↦ inr (
        [],
        e ∷ entries,
        refl,
        omega (arith, ltb_false→le (length out) size full),
        rw (full, append-nil, add-zero),
      )
      | inl room ↦ elim (emit_loop-Outcome size entries (output_ptr + 1) (out ++ row)) [
        | inl run ↦
            inl
              (rw (room, run, append_assoc out row (group_rows entries), next_ptr (length entries)))
        | inr (a, b, same, large, run) ↦ inr (
          e ∷ a,
          b,
          ap (λ r. e ∷ r) same,
          omega (arith, large, count),
          rw (room, run, append_assoc out row (group_rows a), next_ptr (length a)),
        )
      ]
    ]
