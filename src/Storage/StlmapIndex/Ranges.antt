-- ===== src/Storage/StlmapIndex/Ranges.antt =====
-- `ScanRange`: the iterators enclose the entries of the range, unless the end comes before the start.
use p2_hash_join_optimizatio.Common.{
  ℕ, suc, ◌+◌, ◌<◌, ◌≡◌, refl, ap, ◌⊎◌, inl, inr, Bool, true, false, not, ◌&&◌, ◌||◌, List, [], ◌∷◌,
  some, ok, fault, past_the_end, arith, drop, Bool-cases, ltb_ℤ, eqb_ℤ, eqb_ℤ_iff, if◌then◌else◌,
  ◌∙◌,
}
use p2_hash_join_optimizatio.Types.{Data, RangeInfo}
use p2_hash_join_optimizatio.Types.Ranges.{in_range}
use p2_hash_join_optimizatio.Storage.StlmapIndex.{
  Entries, StlmapIndex, find, lower_bound, upper_bound, collect, start_ite, end_ite, scan_range,
}
use p2_hash_join_optimizatio.Storage.StlmapIndex.Laws.{Above, IsSorted}

-- The row ids of the entries whose key is chosen, in the order of the keys.
unfoldable pub ids : (Data → Bool) → Entries → List ℕ
ids choose [] = []
ids choose (e ∷ m) = let rest = ids choose m in if choose e.0 then e.1 ∷ rest else rest

-- The number of entries at the front whose key is chosen.
count_while : (Data → Bool) → Entries → ℕ
count_while choose [] = 0
count_while choose (e ∷ m) = let rest = count_while choose m in if choose e.0 then suc rest else 0

-- The keys that the start, and the end, of a range leaves behind it.
abbrev pub before_start : RangeInfo → Data → Bool
before_start range x =
    if range.contain_start then ltb_ℤ x range.start else not (ltb_ℤ range.start x)

abbrev pub before_end : RangeInfo → Data → Bool
before_end range x = if range.contain_end then not (ltb_ℤ range.end x) else ltb_ℤ x range.end

start_ite-count_while :
    (range : RangeInfo) (m : Entries) → start_ite range m ≡ count_while (before_start range) m
unfolding start_ite lower_bound upper_bound count_while
start_ite-count_while range [] = ground arith
start_ite-count_while range (e ∷ m) = ground (arith, start_ite-count_while range m)

end_ite-count_while :
    (range : RangeInfo) (m : Entries) → end_ite range m ≡ count_while (before_end range) m
unfolding end_ite lower_bound upper_bound count_while
end_ite-count_while range [] = ground arith
end_ite-count_while range (e ∷ m) = ground (arith, end_ite-count_while range m)

collect-shift : (m : Entries) (p stop : ℕ) → collect m (suc p) (suc stop) ≡ collect m p stop
unfolding collect
collect-shift [] p stop = ground arith
collect-shift (e ∷ m) p stop = ground (arith, collect-shift m (p + 1) stop)

-- An end that lies before the start is never met.
collect_past : (m : Entries) (p stop : ℕ) → stop < p → collect m p stop ≡ fault past_the_end
unfolding collect
collect_past [] p stop h = ground arith
collect_past (e ∷ m) p stop h = ground (arith, collect_past m (p + 1) stop)

module _ (p q : Data → Bool) (p_down : (x y : Data) → ltb_ℤ x y ≡ true → p y ≡ true → p x ≡ true)
    (q_down : (x y : Data) → ltb_ℤ x y ≡ true → q y ≡ true → q x ≡ true)
    (p_q : (x : Data) → p x ≡ true → q x ≡ true) where
  abbrev between : Data → Bool
  between x = not (p x) && q x

  -- Behind a key that the end does not leave behind, no key is between.
  ids-Above : (k : Data) (m : Entries) → q k ≡ false → Above k m → ids between m ≡ []
  unfolding ids
  ids-Above k [] h a = refl
  ids-Above k (e ∷ m) h a = ground (arith, ids-Above k m, q_down k e.0, a.0, a.1)

  -- Behind a key that the start does not leave behind, it leaves none behind.
  count_while-Above : (k : Data) (m : Entries) → p k ≡ false → Above k m → count_while p m ≡ 0
  unfolding count_while
  count_while-Above k [] h a = refl
  count_while-Above k (e ∷ m) h a = ground (arith, p_down k e.0, a.0)

  collect-ids :
      (m : Entries)
      → IsSorted m
      → collect (drop (count_while p m) m) (count_while p m) (count_while q m) ≡ ok (ids between m)
  unfolding collect count_while ids
  collect-ids [] s = refl
  collect-ids (e ∷ m) s = elim (Bool-cases (p e.0)) [
    | inl before ↦
        rw (before, p_q e.0 before)
          (collect-shift (drop (count_while p m) m) (count_while p m) (count_while q m)
            ∙ collect-ids m s.1)
    | inr from ↦ elim (Bool-cases (q e.0)) [
      | inr past ↦ rw (from, past, ids-Above e.0 m past s.0)
      | inl inside ↦
          let rest = rw (count_while-Above e.0 m from s.0) at (collect-ids m s.1) in
          rw (from, inside) (ground (arith, collect-shift m 0 (count_while q m), rest))
    ]
  ]

ids_congr : (p q : Data → Bool) → ((x : Data) → p x ≡ q x) → (m : Entries) → ids p m ≡ ids q m
unfolding ids
ids_congr p q h [] = refl
ids_congr p q h (e ∷ m) = rw (h e.0, ids_congr p q h m)

-- The start lies before the end, or is the end and one of the two is included.
abbrev pub IsProper : RangeInfo → Type 0
IsProper range =
    (ltb_ℤ range.start range.end ≡ true)
    ⊎ ((range.start ≡ range.end) × ((range.contain_start || range.contain_end) ≡ true))

-- On an index in order, ScanRange of a range whose start lies before its end, or is its end with
-- one of the two included, returns the row ids of exactly the entries with a key in the range, in
-- the order of the keys.
pub scan_range-ids :
    (range : RangeInfo) (ix : StlmapIndex)
    → IsSorted ix.index
    → IsProper range
    → scan_range range ix ≡ ok (ids (in_range range) ix.index)
unfolding scan_range
scan_range-ids range ix s proper =
    rw (start_ite-count_while, end_ite-count_while)
      (collect-ids (before_start range) (before_end range) (λ x y h b. ground arith)
          (λ x y h b. ground arith) (λ x b. ground arith) ix.index s
        ∙ ap ok (
            ids_congr (λ x. not (before_start range x) && before_end range x) (in_range range)
              (λ x. unfold in_range in ground arith) ix.index))

find-Above_lt :
    (j k : Data) (r : ℕ) (m : Entries) → Above j m → find k m ≡ some r → ltb_ℤ j k ≡ true
unfolding find
find-Above_lt j k r [] a h = absurd (cc)
find-Above_lt j k r (e ∷ m) a h = ground (arith, find-Above_lt j k r m, a.0, a.1)

module _ (p q : Data → Bool) (p_down : (x y : Data) → ltb_ℤ x y ≡ true → p y ≡ true → p x ≡ true)
    (q_down : (x y : Data) → ltb_ℤ x y ≡ true → q y ≡ true → q x ≡ true) (k : Data)
    (pk : p k ≡ true) (qk : q k ≡ false) where
  -- What the end leaves behind comes before `k`, so the start leaves it behind too.
  end_sub_start : (x : Data) → q x ≡ true → (eqb_ℤ x k ≡ false) × (p x ≡ true)
  end_sub_start x h =
      let ne : eqb_ℤ x k ≡ false = elim (Bool-cases (eqb_ℤ x k)) [
        | inr ne ↦ ne
        | inl same ↦ absurd (cc (ap q ((eqb_ℤ_iff x k).0 same)))
      ] in
      (ne, ground (arith, q_down k x, p_down x k))

  count_while_lt :
      (m : Entries) (r : ℕ) → IsSorted m → find k m ≡ some r → count_while q m < count_while p m
  unfolding count_while find
  count_while_lt [] r s h = absurd (cc)
  count_while_lt (e ∷ m) r s h = elim (Bool-cases (q e.0)) [
    | inl behind ↦
        let (ne, also) = end_sub_start e.0 behind in ground (arith, count_while_lt m r s.1)
    | inr met ↦
        let here : p e.0 ≡ true = elim (Bool-cases (eqb_ℤ e.0 k)) [
          | inl same ↦ ap p ((eqb_ℤ_iff e.0 k).0 same) ∙ pk
          | inr ne ↦ p_down e.0 k (find-Above_lt e.0 k r m s.0 (ground arith)) pk
        ] in
        rw (met, here) (omega arith)
  ]

-- On an index in order, if some entry has a key that the start of the range leaves behind it and
-- its end does not, the loop of ScanRange runs past the end of the map.
pub scan_range-past_the_end :
    (range : RangeInfo) (ix : StlmapIndex) (k : Data) (row_id : ℕ)
    → IsSorted ix.index
    → find k ix.index ≡ some row_id
    → before_start range k ≡ true
    → before_end range k ≡ false
    → scan_range range ix ≡ fault past_the_end
unfolding scan_range
scan_range-past_the_end range ix k row_id s there start end =
    rw (start_ite-count_while, end_ite-count_while)
      (collect_past (drop (count_while (before_start range) ix.index) ix.index) _ _ (
        count_while_lt (before_start range) (before_end range) (λ x y h b. ground arith)
          (λ x y h b. ground arith) k start end ix.index row_id s there))
