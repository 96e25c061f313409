-- ===== src/Execution/Operator/Buffer.antt =====
-- The chunk that a caller passes in is written over from its start and then cut: what it held
-- before is not seen.
use native.Mathlib.Numerals.{add-one}
use p2_hash_join_optimizatio.Common.{
  ℕ, zero, suc, ◌+◌, ◌≤◌, ◌<◌, ◌≡◌, refl, ap, inl, inr, [], ◌∷◌, ◌++◌, arith, length, take, set,
  length-append, length-set, Bool-cases, ==_iff, ◌==◌,
}
use p2_hash_join_optimizatio.Execution.Operator.{Entry, Chunk, write, resize}

take-push :
    (chunk : Chunk) (e : Entry)
    → take (suc (length chunk)) (chunk ++ e ∷ []) ≡ take (length chunk) chunk ++ e ∷ []
take-push [] e = refl
take-push (x ∷ chunk) e = ap (λ t. x ∷ t) (take-push chunk e)

take-set :
    (chunk : Chunk) (n : ℕ) (e : Entry)
    → n < length chunk
    → take (suc n) (set chunk n e) ≡ take n chunk ++ e ∷ []
take-set [] n e h = absurd (omega arith)
take-set (x ∷ chunk) zero e h = refl
take-set (x ∷ chunk) (suc n) e h = ap (λ t. x ∷ t) (take-set chunk n e (omega arith))

-- A write extends what has been written by the entry.
pub take-write :
    (chunk : Chunk) (n : ℕ) (e : Entry)
    → n ≤ length chunk
    → take (n + 1) (write chunk n e) ≡ take n chunk ++ e ∷ []
unfolding write
take-write chunk n e h = rw add-one (elim (Bool-cases (n == length chunk)) [
  | inl same ↦
      let eq : n ≡ length chunk = (==_iff n (length chunk)).0 same in
      rw (same, eq) (take-push chunk e)
  | inr ne ↦ rw ne (take-set chunk n e (ground arith))
])

pub length-write :
    (chunk : Chunk) (n : ℕ) (e : Entry) → n ≤ length chunk → n + 1 ≤ length (write chunk n e)
unfolding write
length-write chunk n e h = ground (arith, length-append chunk (e ∷ []), length-set chunk n e)

pub resize-take : (chunk : Chunk) (n : ℕ) → n ≤ length chunk → resize chunk n ≡ take n chunk
unfolding resize
resize-take [] zero h = refl
resize-take [] (suc n) h = absurd (omega arith)
resize-take (x ∷ chunk) zero h = refl
resize-take (x ∷ chunk) (suc n) h = ap (λ t. x ∷ t) (resize-take chunk n (omega arith))
