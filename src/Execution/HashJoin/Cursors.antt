-- ===== src/Execution/HashJoin/Cursors.antt =====
-- The probe side of the join: the rows that it has yet to see, in the buffer and in the child.
use p2_hash_join_optimizatio.Common.{
  ℕ, ◌+◌, ◌≤◌, ◌≡◌, refl, ap, ◌⊎◌, inl, inr, true, false, List, [], ◌∷◌, ◌++◌, append-nil, flatten,
  ok, arith, length, drop, length-drop, drop-suc, ◌==◌,
}
use p2_hash_join_optimizatio.Types.{at}
use p2_hash_join_optimizatio.Types.Lookup.{at-drop}
use p2_hash_join_optimizatio.Execution.Operator.{ExecutionContext, Entry, Chunk, Operator}
use p2_hash_join_optimizatio.Execution.Operator.Contract.{Streams, last, more, Busy}
use p2_hash_join_optimizatio.Execution.HashJoin.{Cursor, refill}

Busy-rest : (c : Chunk) (rest : List Chunk) → Busy (c ∷ rest) → Busy rest
Busy-rest c [] b = tt
Busy-rest c (d ∷ rest) b = b.1

module _ {P : Type 0} (probe : Operator P) (ctx : ExecutionContext) (n : ℕ) where
  -- `rows` are left: those of the buffer, then those that the child still returns.
  pub record IsReady (c : Cursor P) (rows : List Entry) : Type 0 where
    pub pending : List Entry
    pub buffered : drop c.buffer_ptr c.buffer ≡ pending
    pub within : c.buffer_ptr ≤ length c.buffer
    pub left :
        ((c.probe_child_exhausted ≡ true) × (rows ≡ pending))
        ⊎ ((c.probe_child_exhausted ≡ false)
            × (chunks : List Chunk) × Streams probe ctx n c.probe_child chunks
            × Busy chunks
            × (rows ≡ pending ++ flatten chunks))

  -- After the head of the loop the cursor stands on the next row, if there is one.
  abbrev pub Refilled : Cursor P → List Entry → Type 0
  Refilled c [] = (c.buffer_ptr == length c.buffer) ≡ true
  Refilled c (row ∷ rows) =
      ((c.buffer_ptr == length c.buffer) ≡ false)
      × (at c.buffer c.buffer_ptr ≡ ok row)
      × IsReady (record c { buffer_ptr = c.buffer_ptr + 1 }) rows

  abbrev pub Refills : Cursor P → List Entry → Type 0
  Refills c rows =
      (c' : Cursor P) × ((fuel : ℕ) → n ≤ fuel → refill fuel ctx probe c ≡ ok c') × Refilled c' rows

  refill_child :
      (c : Cursor P) {chunks : List Chunk}
      → (c.buffer_ptr == length c.buffer) ≡ true
      → c.probe_child_exhausted ≡ false
      → Streams probe ctx n c.probe_child chunks
      → Busy chunks
      → Refills c (flatten chunks)
  unfolding refill flatten
  refill_child c used open_child (last {s'} {out = []} y) busy = (
    record { probe_child = s'; buffer = []; buffer_ptr = 0; probe_child_exhausted = true },
    λ fuel h. rw (used, open_child, y fuel c.buffer h),
    refl,
  )
  refill_child c used open_child (last {s'} {out = row ∷ out} y) busy = (
    record { probe_child = s'; buffer = row ∷ out; buffer_ptr = 0; probe_child_exhausted = true },
    λ fuel h. rw (used, open_child, y fuel c.buffer h),
    (
      ground arith,
      refl,
      record {
        pending = out;
        buffered = refl;
        within = omega arith;
        left = inl (refl, append-nil out);
      },
    ),
  )
  refill_child c used open_child (more {out = []} y (last _)) busy = absurd (omega arith)
  refill_child c used open_child (more {out = []} y (more _ _)) busy = absurd (omega arith)
  refill_child c used open_child (more {s'} {out = row ∷ out} {rest} y st) busy = (
    record { probe_child = s'; buffer = row ∷ out; buffer_ptr = 0; probe_child_exhausted = false },
    λ fuel h. rw (used, open_child, y fuel c.buffer h),
    (
      ground arith,
      refl,
      record {
        pending = out;
        buffered = refl;
        within = omega arith;
        left = inr (refl, rest, st, Busy-rest (row ∷ out) rest busy, refl);
      },
    ),
  )

  refill_by :
      (c : Cursor P) (rows pending : List Entry)
      → drop c.buffer_ptr c.buffer ≡ pending
      → c.buffer_ptr ≤ length c.buffer
      → ((c.probe_child_exhausted ≡ true) × (rows ≡ pending))
        ⊎ ((c.probe_child_exhausted ≡ false)
            × (chunks : List Chunk) × Streams probe ctx n c.probe_child chunks
            × Busy chunks
            × (rows ≡ pending ++ flatten chunks))
      → Refills c rows
  unfolding refill
  refill_by c rows [] e within left =
      let used : (c.buffer_ptr == length c.buffer) ≡ true =
        ground (arith, length-drop c.buffer_ptr c.buffer, ap length e) in
      elim left [
        | inl (gone, none_left) ↦ (c, λ fuel h. rw (used, gone), rw none_left used)
        | inr (open_child, chunks, st, busy, same) ↦
            rw same (refill_child c used open_child st busy)
      ]
  refill_by c rows (row ∷ pending) e within left =
      let unused : (c.buffer_ptr == length c.buffer) ≡ false =
        ground (arith, length-drop c.buffer_ptr c.buffer, ap length e) in
      let read = at-drop c.buffer_ptr c.buffer row pending e in
      let next = drop-suc c.buffer_ptr c.buffer row pending e in
      let short : c.buffer_ptr + 1 ≤ length c.buffer =
        omega (arith, length-drop c.buffer_ptr c.buffer, ap length e) in
      elim left [
        | inl (gone, same) ↦ (
          c,
          λ fuel h. rw unused,
          rw same (
            unused,
            read,
            record { pending = pending; buffered = next; within = short; left = inl (gone, refl) },
          ),
        )
        | inr (open_child, chunks, st, busy, same) ↦ (
          c,
          λ fuel h. rw unused,
          rw same (
            unused,
            read,
            record {
              pending = pending;
              buffered = next;
              within = short;
              left = inr (open_child, chunks, st, busy, refl);
            },
          ),
        )
      ]

  -- With enough fuel for the child the head of the loop brings up the next row, if one is left.
  pub refill-Refilled : (c : Cursor P) (rows : List Entry) → IsReady c rows → Refills c rows
  refill-Refilled c rows ready =
      refill_by c rows ready.pending ready.buffered ready.within ready.left
