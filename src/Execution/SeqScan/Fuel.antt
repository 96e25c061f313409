-- ===== src/Execution/SeqScan/Fuel.antt =====
-- With little fuel the scan runs out of it, and returns nothing else.
use p2_hash_join_optimizatio.Common.{
  ℕ, zero, suc, ◌+◌, ◌-◌, ◌≤◌, ◌≡◌, refl, ◌⊎◌, inl, inr, List, err, out_of_fuel, arith, length, ltb,
  leb, Bool-cases, Result-cases,
}
use p2_hash_join_optimizatio.Types.{at, keys_from_tuple}
use p2_hash_join_optimizatio.Storage.Table.{Row}
use p2_hash_join_optimizatio.Execution.Operator.{Chunk, write}
use p2_hash_join_optimizatio.Execution.SeqScan.{next_loop}

-- What a call does with some fuel, it does with more, unless the fuel ran out.
pub next_loop-fuel :
    (chunk_size : ℕ) (rows : List Row) (attrs : List ℕ) (fuel more row_id : ℕ) (out : Chunk)
    (size : ℕ)
    → fuel ≤ more
    → (next_loop fuel chunk_size rows attrs row_id out size ≡ err out_of_fuel)
      ⊎ (next_loop fuel chunk_size rows attrs row_id out size
          ≡ next_loop more chunk_size rows attrs row_id out size)
unfolding next_loop
next_loop-fuel chunk_size rows attrs zero more row_id out size h = inl refl
next_loop-fuel chunk_size rows attrs (suc fuel) zero row_id out size h = absurd (omega arith)
next_loop-fuel chunk_size rows attrs (suc fuel) (suc more) row_id out size h =
    let again = λ (out : Chunk) (size : ℕ).
      next_loop-fuel chunk_size rows attrs fuel more (row_id + 1) out size (omega arith) in
    elim (Bool-cases (ltb size chunk_size)) [
      | inr full ↦ inr (rw full)
      | inl room ↦ elim (Bool-cases (leb (length rows) row_id)) [
        | inl past ↦ inr (rw (room, past))
        | inr inside ↦ elim (Result-cases (at rows row_id)) [
          | inl (e, failed) ↦ inr (rw (room, inside, failed))
          | inr (row, read) ↦ elim (Bool-cases row.tuple_meta.is_deleted) [
            | inl gone ↦ rw (room, inside, read, gone) (again out size)
            | inr live ↦ elim (Result-cases (keys_from_tuple row.tuple attrs)) [
              | inl (e, failed) ↦ inr (rw (room, inside, read, live, failed))
              | inr (tuple, keys) ↦
                  rw (room, inside, read, live, keys)
                    (again (write out size (tuple, row_id + 1 - 1)) (size + 1))
            ]
          ]
        ]
      ]
    ]
