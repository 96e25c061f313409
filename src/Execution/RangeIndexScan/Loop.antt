-- ===== src/Execution/RangeIndexScan/Loop.antt =====
-- The loop of `Next` over the ids that the index has given.
use native.Mathlib.Nat.{add-zero}
use p2_hash_join_optimizatio.Common.{
  ℕ, suc, ◌+◌, ◌≤◌, ◌<◌, ◌≡◌, refl, ap, ◌⊎◌, inl, inr, List, [], ◌∷◌, ◌++◌, append_assoc,
  append-nil, some, ok, arith, length, get_elem?, All, length-append, Bool-cases, ltb, ltb_false→le,
  zero, some_injective,
}
use p2_hash_join_optimizatio.Types.Lookup.{project, keys_from_tuple-project, at-get_elem?}
use p2_hash_join_optimizatio.Storage.Table.{Row}
use p2_hash_join_optimizatio.Storage.StlmapIndex.Ranges.{ids}
use p2_hash_join_optimizatio.Execution.Operator.{Chunk, have_more_output, exhausted}
use p2_hash_join_optimizatio.Execution.SeqScan.Rows.{Fits}
use p2_hash_join_optimizatio.Execution.RangeIndexScan.Fetched.{fetched}
use p2_hash_join_optimizatio.Execution.RangeIndexScan.{scan_loop}

-- The row is there and has the columns that are fetched.
abbrev pub IsThere : List ℕ → List Row → ℕ → Type 0
IsThere attrs rows r =
    (row : Row) × (get_elem? rows r ≡ some row) × All (λ p. p < length row.tuple) attrs

pub Fits-get_elem? :
    (attrs : List ℕ) (rows : List Row) (r : ℕ) (row : Row)
    → Fits attrs rows
    → get_elem? rows r ≡ some row
    → All (λ p. p < length row.tuple) attrs
Fits-get_elem? attrs [] r row fits h = absurd (cc)
Fits-get_elem? attrs (x ∷ rows) zero row fits h = rw (some_injective h) at fits.0
Fits-get_elem? attrs (x ∷ rows) (suc r) row fits h = Fits-get_elem? attrs rows r row fits.1 h

-- The loop returns all that is left, or fills the chunk.
pub scan_loop-Outcome :
    (size : ℕ) (rows : List Row) (attrs ids : List ℕ) (next_ite : ℕ) (out : Chunk)
    → All (IsThere attrs rows) ids
    → (scan_loop size rows attrs ids next_ite out
        ≡ ok (exhausted, out ++ fetched attrs rows ids, next_ite + length ids))
      ⊎ ((a b : List ℕ) × (ids ≡ a ++ b)
          × (size ≤ length out + length (fetched attrs rows a))
          × (scan_loop size rows attrs ids next_ite out
              ≡ ok (have_more_output, out ++ fetched attrs rows a, next_ite + length a)))
unfolding scan_loop fetched
scan_loop-Outcome size rows attrs [] next_ite out there =
    elim (Bool-cases (ltb (length out) size)) [
      | inl room ↦ inl (rw (room, append-nil, add-zero))
      | inr full ↦ inr (
        [],
        [],
        refl,
        omega (arith, ltb_false→le (length out) size full),
        rw (full, append-nil, add-zero),
      )
    ]
scan_loop-Outcome size rows attrs (r ∷ ids) next_ite out ((row, found, cols), there) =
    let shift : (n : ℕ) → next_ite + 1 + n ≡ next_ite + suc n = λ n. omega arith in
    let read = at-get_elem? rows r row found in
    let keys = keys_from_tuple-project row.tuple attrs cols in
    elim (Bool-cases (ltb (length out) size)) [
      | inr full ↦ inr (
        [],
        r ∷ ids,
        refl,
        omega (arith, ltb_false→le (length out) size full),
        rw (full, append-nil, add-zero),
      )
      | inl room ↦ elim (Bool-cases row.tuple_meta.is_deleted) [
        | inl gone ↦ elim (scan_loop-Outcome size rows attrs ids (next_ite + 1) out there) [
          | inl run ↦ inl (rw (room, read, gone, run, found, gone, shift (length ids)))
          | inr (a, b, same, large, run) ↦ inr (
            r ∷ a,
            b,
            ap (λ x. r ∷ x) same,
            rw (found, gone) large,
            rw (room, read, gone, run, found, gone, shift (length a)),
          )
        ]
        | inr live ↦
            let e : Chunk = (project row.tuple attrs, r) ∷ [] in
            elim (scan_loop-Outcome size rows attrs ids (next_ite + 1) (out ++ e) there) [
              | inl run ↦ inl (
                  rw (
                    room,
                    read,
                    live,
                    keys,
                    run,
                    found,
                    live,
                    append_assoc out e (fetched attrs rows ids),
                    shift (length ids),
                  ))
              | inr (a, b, same, large, run) ↦ inr (
                r ∷ a,
                b,
                ap (λ x. r ∷ x) same,
                rw (found, live) (omega (arith, large, length-append out e)),
                rw (
                  room,
                  read,
                  live,
                  keys,
                  run,
                  found,
                  live,
                  append_assoc out e (fetched attrs rows a),
                  shift (length a),
                ),
              )
            ]
      ]
    ]
