-- ===== src/Execution/RangeIndexScan/Counts.antt =====
-- How often an id occurs among those that the index gives, and among those of a walk over the table.
use p2_hash_join_optimizatio.Common.{
  ℕ, zero, suc, ◌+◌, ◌<◌, ◌≡◌, refl, sym, ap, ◌∙◌, Bool, false, not, ◌&&◌, List, [], ◌∷◌, Option,
  none, some, arith, get_elem?, if◌then◌else◌, Bool-cases, inl, inr, All, occurs, ◌==◌, ==_refl,
  ==_iff, eqb_ℤ, eqb_ℤ_iff, eqb_ℤ_refl, pos,
}
use native.Mathlib.Nat.{add-zero}
use p2_hash_join_optimizatio.Types.{Data}
use p2_hash_join_optimizatio.Types.Lookup.{column}
use p2_hash_join_optimizatio.Storage.Table.{Row}
use p2_hash_join_optimizatio.Storage.StlmapIndex.{Entries, find}
use p2_hash_join_optimizatio.Storage.StlmapIndex.Laws.{IsSorted, find-Above}
use p2_hash_join_optimizatio.Storage.StlmapIndex.Ranges.{ids}

-- Whether the row is live, and its key.
abbrev pub live : Row → Bool
live row = not row.tuple_meta.is_deleted

abbrev pub live_some : Option Row → Bool
live_some none = false
live_some (some row) = live row

abbrev pub live_at : List Row → ℕ → Bool
live_at rows r = live_some (get_elem? rows r)

abbrev pub key_some : ℕ → Option Row → Data
key_some attr none = pos 0
key_some attr (some row) = column row.tuple attr

abbrev pub key_at : ℕ → List Row → ℕ → Data
key_at attr rows r = key_some attr (get_elem? rows r)

abbrev pub leads_to : ℕ → Option ℕ → Bool
leads_to r none = false
leads_to r (some q) = q == r

abbrev pub live_ids : List Row → List ℕ → List ℕ
live_ids rows [] = []
live_ids rows (r ∷ rs) = let rest = live_ids rows rs in if live_at rows r then r ∷ rest else rest

-- The ids of the live rows with a chosen key, from row `i` on.
abbrev pub walk_ids : (Data → Bool) → ℕ → List Row → ℕ → List ℕ
walk_ids choose attr [] i = []
walk_ids choose attr (row ∷ rows) i =
    let rest = walk_ids choose attr rows (i + 1) in
    if live row && choose (column row.tuple attr) then i ∷ rest else rest

pub occurs-live_ids :
    (rows : List Row) (r : ℕ) (xs : List ℕ)
    → occurs r (live_ids rows xs) ≡ (if live_at rows r then occurs r xs else 0)
occurs-live_ids rows r [] = ground arith
occurs-live_ids rows r (x ∷ xs) = elim (Bool-cases (x == r)) [
  | inl same ↦
      let e : x ≡ r = (==_iff x r).0 same in
      elim (Bool-cases (live_at rows r)) [
        | inl here ↦ rw (e, here, ==_refl r) (ap suc (rw here at (occurs-live_ids rows r xs)))
        | inr gone ↦ rw (e, gone) (rw gone at (occurs-live_ids rows r xs))
      ]
  | inr ne ↦ elim (Bool-cases (live_at rows x)) [
    | inl here ↦ rw (here, ne) (occurs-live_ids rows r xs)
    | inr gone ↦ rw (gone, ne) (occurs-live_ids rows r xs)
  ]
]

pub none_left :
    (choose : Data → Bool) (k : Data) (r : ℕ) (m : Entries)
    → occurs r (ids choose m) ≡ (if choose k && leads_to r (find k m) then 1 else 0)
    → find k m ≡ none
    → occurs r (ids choose m) ≡ 0
none_left choose k r m rest behind = elim (Bool-cases (choose k)) [
  | inl chosen ↦ rw (chosen, behind) at rest
  | inr not_chosen ↦ rw not_chosen at rest
]

module _ (choose : Data → Bool) where
  -- Each id occurs for its key only.
  pub occurs-ids :
      (k : Data) (r : ℕ) (m : Entries)
      → IsSorted m
      → All (λ e. e.1 ≡ r → e.0 ≡ k) m
      → occurs r (ids choose m) ≡ (if choose k && leads_to r (find k m) then 1 else 0)
  unfolding ids find
  occurs-ids k r [] s own = elim (Bool-cases (choose k)) [
    | inl chosen ↦ rw chosen
    | inr not_chosen ↦ rw not_chosen
  ]
  occurs-ids k r ((j, q) ∷ m) s own =
      let rest = occurs-ids k r m s.1 own.1 in
      elim (Bool-cases (eqb_ℤ j k)) [
        | inl same ↦
            let e : j ≡ k = (eqb_ℤ_iff j k).0 same in
            let behind : find k m ≡ none = find-Above k m (rw e at s.0) in
            let zero_rest : occurs r (ids choose m) ≡ 0 = none_left choose k r m rest behind in
            elim (Bool-cases (choose k)) [
              | inl chosen ↦ elim (Bool-cases (q == r)) [
                | inl here ↦ rw (e, eqb_ℤ_refl k, chosen, here, zero_rest)
                | inr there ↦ rw (e, eqb_ℤ_refl k, chosen, there, zero_rest)
              ]
              | inr not_chosen ↦ rw (e, eqb_ℤ_refl k, not_chosen, zero_rest)
            ]
        | inr ne ↦
            let other : (q == r) ≡ false = elim (Bool-cases (q == r)) [
              | inr differs ↦ differs
              | inl equal ↦
                  absurd (
                    cc (sym ne ∙ ap (λ x. eqb_ℤ x k) (own.0 ((==_iff q r).0 equal)) ∙ eqb_ℤ_refl k))
            ] in
            elim (Bool-cases (choose j)) [
              | inl chosen ↦ rw (chosen, ne, other) rest
              | inr not_chosen ↦ rw (not_chosen, ne) rest
            ]
      ]

  pub occurs-walk_ids_before :
      (attr : ℕ) (rows : List Row) (i q : ℕ) → q < i → occurs q (walk_ids choose attr rows i) ≡ 0
  occurs-walk_ids_before attr [] i q h = refl
  occurs-walk_ids_before attr (row ∷ rows) i q h =
      ground (arith, occurs-walk_ids_before attr rows (i + 1) q (omega arith))

  pub occurs-walk_ids :
      (attr : ℕ) (rows : List Row) (i r : ℕ)
      → occurs (i + r) (walk_ids choose attr rows i)
        ≡ (if live_at rows r && choose (key_at attr rows r) then 1 else 0)
  occurs-walk_ids attr [] i r = ground arith
  occurs-walk_ids attr (row ∷ rows) i zero =
      let later = occurs-walk_ids_before attr rows (i + 1) i (omega arith) in
      elim (Bool-cases (live row && choose (column row.tuple attr))) [
        | inl taken ↦ rw (add-zero, taken, ==_refl i) (ap suc later)
        | inr left ↦ rw (add-zero, left) later
      ]
  occurs-walk_ids attr (row ∷ rows) i (suc r) =
      let next : i + suc r ≡ i + 1 + r = omega arith in
      let other : (i == i + 1 + r) ≡ false = ground arith in
      elim (Bool-cases (live row && choose (column row.tuple attr))) [
        | inl taken ↦ rw (next, taken, other) (occurs-walk_ids attr rows (i + 1) r)
        | inr left ↦ rw (next, left) (occurs-walk_ids attr rows (i + 1) r)
      ]
