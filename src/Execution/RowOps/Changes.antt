-- ===== src/Execution/RowOps/Changes.antt =====
-- The rows of a table after entries that change the rows with their ids, one after the other.
use p2_hash_join_optimizatio.Common.{
  ℕ, zero, suc, ◌+◌, ◌<◌, ◌≡◌, refl, ap, ◌∙◌, true, false, ok_injective, List, [], ◌∷◌, ◌++◌, ok,
  arith, length, set, drop, All, ◌==◌, if◌then◌else◌,
}
use p2_hash_join_optimizatio.Types.{at}
use p2_hash_join_optimizatio.Storage.Table.{Row}
use p2_hash_join_optimizatio.Execution.Operator.{Entry}

-- The row with an id after the entries: those with its id change it, one after the other.
unfoldable pub row_after : (Entry → Row → Row) → List Entry → ℕ → Row → Row
row_after change [] row_id row = row
row_after change (e ∷ entries) row_id row =
    row_after change entries row_id (if e.1 == row_id then change e row else row)

-- The rows whose ids begin with the given one.
unfoldable pub rows_after : (Entry → Row → Row) → List Entry → List Row → ℕ → List Row
rows_after change entries [] row_id = []
rows_after change entries (row ∷ rows) row_id =
    row_after change entries row_id row ∷ rows_after change entries rows (row_id + 1)

module _ (change : Entry → Row → Row) where
  row_after-append :
      (a b : List Entry) (i : ℕ) (row : Row)
      → row_after change (a ++ b) i row ≡ row_after change b i (row_after change a i row)
  unfolding row_after
  row_after-append [] b i row = refl
  row_after-append (e ∷ a) b i row = row_after-append a b i (if e.1 == i then change e row else row)

  pub rows_after-append :
      (a b : List Entry) (rows : List Row) (i : ℕ)
      → rows_after change (a ++ b) rows i ≡ rows_after change b (rows_after change a rows i) i
  unfolding rows_after
  rows_after-append a b [] i = refl
  rows_after-append a b (row ∷ rows) i =
      rw (row_after-append a b i row, rows_after-append a b rows (i + 1)) refl

  pub rows_after-nil : (rows : List Row) (i : ℕ) → rows_after change [] rows i ≡ rows
  unfolding rows_after row_after
  rows_after-nil [] i = refl
  rows_after-nil (row ∷ rows) i = ap (λ r. row ∷ r) (rows_after-nil rows (i + 1))

  pub length-rows_after :
      (entries : List Entry) (rows : List Row) (i : ℕ)
      → length (rows_after change entries rows i) ≡ length rows
  unfolding rows_after
  length-rows_after entries [] i = refl
  length-rows_after entries (row ∷ rows) i = ap suc (length-rows_after entries rows (i + 1))

  pub rows_after-past :
      (e : Entry) (rows : List Row) (i : ℕ) → e.1 < i → rows_after change (e ∷ []) rows i ≡ rows
  unfolding rows_after row_after
  rows_after-past e [] i h = refl
  rows_after-past e (row ∷ rows) i h =
      let other : (e.1 == i) ≡ false = ground (arith, h) in
      rw (other, rows_after-past e rows (i + 1) (omega (arith, h))) refl

  rows_after-before :
      (entries : List Entry) (rows : List Row) (i : ℕ)
      → All (λ (e : Entry). e.1 < i) entries
      → rows_after change entries rows i ≡ rows
  rows_after-before [] rows i h = rows_after-nil rows i
  rows_after-before (e ∷ entries) rows i h =
      rows_after-append (e ∷ []) entries rows i
      ∙ rows_after-before entries (rows_after change (e ∷ []) rows i) i h.1
      ∙ rows_after-past e rows i h.0

  -- The rows behind the ids of the entries.
  pub drop-rows_after :
      (entries : List Entry) (n i : ℕ) (rows : List Row)
      → All (λ (e : Entry). e.1 < i + n) entries
      → drop n (rows_after change entries rows i) ≡ drop n rows
  unfolding rows_after
  drop-rows_after entries zero i rows h =
      let start : i + 0 ≡ i = omega arith in rows_after-before entries rows i (rw start at h)
  drop-rows_after entries (suc n) i [] h = refl
  drop-rows_after entries (suc n) i (row ∷ rows) h =
      let next : i + suc n ≡ i + 1 + n = omega arith in
      drop-rows_after entries n (i + 1) rows (rw next at h)

  -- What `set` writes in one round.
  pub rows_after-set :
      (e : Entry) (k i : ℕ) (rows : List Row) (row : Row)
      → e.1 ≡ i + k
      → at rows k ≡ ok row
      → set rows k (change e row) ≡ rows_after change (e ∷ []) rows i
  unfolding row_after rows_after
  rows_after-set e k i [] row same h = absurd (cc)
  rows_after-set e zero i (x ∷ rows) row same h =
      let this : (e.1 == i) ≡ true = ground (arith, same) in
      rw (this, rows_after-past e rows (i + 1) (omega (arith, same)), ok_injective h) refl
  rows_after-set e (suc k) i (x ∷ rows) row same h =
      let other : (e.1 == i) ≡ false = ground (arith, same) in
      rw (other, rows_after-set e k (i + 1) rows row (omega (arith, same)) h) refl

  pub at-rows_after :
      (entries : List Entry) (rows : List Row) (k i j : ℕ) (row : Row)
      → j ≡ i + k
      → at rows k ≡ ok row
      → at (rows_after change entries rows i) k ≡ ok (row_after change entries j row)
  unfolding rows_after
  at-rows_after entries [] k i j row same h = absurd (cc)
  at-rows_after entries (x ∷ rows) zero i j row same h =
      let this : j ≡ i = omega (arith, same) in rw (this, ok_injective h) refl
  at-rows_after entries (x ∷ rows) (suc k) i j row same h =
      at-rows_after entries rows k (i + 1) j row (omega (arith, same)) h

  -- A row whose id no entry has.
  pub row_after-other :
      (entries : List Entry) (i : ℕ) (row : Row)
      → All (λ (e : Entry). i < e.1) entries
      → row_after change entries i row ≡ row
  unfolding row_after
  row_after-other [] i row h = refl
  row_after-other (e ∷ entries) i row h =
      let other : (e.1 == i) ≡ false = ground (arith, h.0) in
      rw (row_after, other) (row_after-other entries i row h.1)
