-- ===== src/Execution/SeqScan/Loop.antt =====
-- The loop of `SeqScanOperator::Next` over the rows that are left.
use p2_hash_join_optimizatio.Common.{
  ℕ, suc, ◌+◌, ◌-◌, ◌≤◌, ◌<◌, ◌≡◌, refl, ap, ◌∙◌, ◌⊎◌, inl, inr, true, false, List, [], ◌∷◌, ◌++◌,
  append-nil, append_assoc, ok, arith, length, drop, take, length-drop, drop-suc, ltb, leb, le→leb,
  lt→leb_false, ltb→lt, Bool-cases, ltb_false→le, by_fuel, All,
}
use p2_hash_join_optimizatio.Types.Lookup.{
  at-drop, project, keys_from_tuple-project, length-project,
}
use p2_hash_join_optimizatio.Storage.Table.{Row}
use p2_hash_join_optimizatio.Execution.Operator.{Entry, Chunk, have_more_output, exhausted, write}
use p2_hash_join_optimizatio.Execution.Operator.Buffer.{take-write, length-write, resize-take}
use p2_hash_join_optimizatio.Execution.SeqScan.{next_loop}

-- What the scan is to return of the rows from `row_id` on: the columns of each row that is not
-- deleted, with its id.
unfoldable pub live_rows : List ℕ → List Row → ℕ → List Entry
live_rows attrs [] row_id = []
live_rows attrs (row ∷ rows) row_id =
    let rest = live_rows attrs rows (row_id + 1) in
    elim row.tuple_meta.is_deleted [
      | true ↦ rest
      | false ↦ (project row.tuple attrs, row_id) ∷ rest
    ]

-- Every row has the columns that are fetched.
abbrev pub Fits : List ℕ → List Row → Type 0
Fits attrs rows = All (λ row. All (λ p. p < length row.tuple) attrs) rows

pub live_rows-Wide :
    (attrs : List ℕ) (rows : List Row) (row_id : ℕ)
    → All (λ entry. length entry.0 ≡ length attrs) (live_rows attrs rows row_id)
unfolding live_rows
live_rows-Wide attrs [] row_id = tt
live_rows-Wide attrs (row ∷ rows) row_id = elim (Bool-cases row.tuple_meta.is_deleted) [
  | inl gone ↦ rw gone (live_rows-Wide attrs rows (row_id + 1))
  | inr live ↦ rw live (length-project row.tuple attrs, live_rows-Wide attrs rows (row_id + 1))
]

push :
    (out : Chunk) (size : ℕ) (entry : Entry) (page : List Entry)
    → size ≤ length out
    → take (size + 1) (write out size entry) ++ page ≡ take size out ++ entry ∷ page
push out size entry page h =
    rw (take-write out size entry h) (append_assoc (take size out) (entry ∷ []) page)

module _ (chunk_size : ℕ) (rows : List Row) (attrs : List ℕ) where
  -- The loop has seen some of the rows, filled the chunk with the live ones among them, and left the
  -- others.
  pub record Filled (rest : List Row) (row_id size : ℕ) : Type 0 where
    pub seen : List Row
    pub left : List Row
    pub id' : ℕ
    pub parts : rest ≡ seen ++ left
    pub stands : id' ≡ row_id + length seen
    pub drops : drop id' rows ≡ left
    pub split :
        live_rows attrs rest row_id ≡ live_rows attrs seen row_id ++ live_rows attrs left id'
    pub large : chunk_size ≤ size + length (live_rows attrs seen row_id)
    pub less : length left + length (live_rows attrs seen row_id) ≤ length rest
    pub fits : Fits attrs left
    pub run :
        (out : Chunk)
        → size ≤ length out
        → (fuel : ℕ) → length rest < fuel
        → next_loop fuel chunk_size rows attrs row_id out size
          ≡ ok (have_more_output, take size out ++ live_rows attrs seen row_id, id')

  -- The loop returns all that is left, where it does not fill the chunk, or fills it; what the chunk
  -- held is not seen.
  abbrev pub Outcome : List Row → ℕ → ℕ → Type 0
  Outcome rest row_id size =
      ((id' : ℕ) × (size + length (live_rows attrs rest row_id) < chunk_size)
        × ((out : Chunk)
            → size ≤ length out
            → (fuel : ℕ) → length rest < fuel
            → next_loop fuel chunk_size rows attrs row_id out size
              ≡ ok (exhausted, take size out ++ live_rows attrs rest row_id, id')))
      ⊎ Filled rest row_id size

  full-Filled :
      (rest : List Row) (row_id size : ℕ)
      → drop row_id rows ≡ rest
      → Fits attrs rest
      → ltb size chunk_size ≡ false
      → Filled rest row_id size
  unfolding next_loop live_rows
  full-Filled rest row_id size e fits full = record {
    seen = [];
    left = rest;
    id' = row_id;
    parts = refl;
    stands = omega arith;
    drops = e;
    split = refl;
    large = omega (arith, ltb_false→le size chunk_size full);
    less = omega arith;
    fits = fits;
    run = λ out h. by_fuel _ (length rest) (λ g _. rw (full, append-nil, resize-take out size h));
  }

  pub next_loop-Outcome :
      (rest : List Row) (row_id size : ℕ)
      → drop row_id rows ≡ rest
      → Fits attrs rest
      → Outcome rest row_id size
  unfolding next_loop live_rows
  next_loop-Outcome [] row_id size e fits = elim (Bool-cases (ltb size chunk_size)) [
    | inr full ↦ inr (full-Filled [] row_id size e fits full)
    | inl room ↦
        let past : leb (length rows) row_id ≡ true =
          le→leb _ _ (omega (arith, length-drop row_id rows, ap length e)) in
        inl (
          row_id,
          omega (arith, ltb→lt size chunk_size room),
          λ out h. by_fuel _ 0 (λ g _. rw (room, past, append-nil, resize-take out size h)),
        )
  ]
  next_loop-Outcome (row ∷ rest) row_id size e fits = elim (Bool-cases (ltb size chunk_size)) [
    | inr full ↦ inr (full-Filled (row ∷ rest) row_id size e fits full)
    | inl room ↦
        let more : leb (length rows) row_id ≡ false =
          lt→leb_false _ _ (omega (arith, length-drop row_id rows, ap length e)) in
        let read = at-drop row_id rows row rest e in
        let e₁ = drop-suc row_id rows row rest e in
        elim (Bool-cases row.tuple_meta.is_deleted) [
          | inl gone ↦ elim (next_loop-Outcome rest (row_id + 1) size e₁ fits.1) [
            | inl (id', few, run) ↦ inl (
              id',
              rw gone few,
              λ out h.
                  by_fuel _ (suc (length rest))
                    (λ g b. rw (room, more, read, gone) (run out h g b)),
            )
            | inr f ↦ inr (record {
              seen = row ∷ f.seen;
              left = f.left;
              id' = f.id';
              parts = ap (λ r. row ∷ r) f.parts;
              stands = omega (arith, f.stands);
              drops = f.drops;
              split = rw gone f.split;
              large = rw gone f.large;
              less = rw gone (omega (arith, f.less));
              fits = f.fits;
              run = λ out h.
                  by_fuel _ (suc (length rest))
                    (λ g b. rw (room, more, read, gone) (f.run out h g b));
            })
          ]
          | inr live ↦
              let keys = keys_from_tuple-project row.tuple attrs fits.0 in
              let entry : Entry = (project row.tuple attrs, row_id) in
              let back : row_id + 1 - 1 ≡ row_id = omega arith in
              elim (next_loop-Outcome rest (row_id + 1) (size + 1) e₁ fits.1) [
                | inl (id', few, run) ↦ inl (
                  id',
                  rw live (omega (arith, few)),
                  λ out h. by_fuel _ (suc (length rest)) (λ g b.
                      rw (room, more, read, live, keys, back)
                        (run (write out size entry) (length-write out size entry h) g b
                          ∙ ap (λ x. ok (exhausted, x, id')) (push out size entry _ h))),
                )
                | inr f ↦ inr (record {
                  seen = row ∷ f.seen;
                  left = f.left;
                  id' = f.id';
                  parts = ap (λ r. row ∷ r) f.parts;
                  stands = omega (arith, f.stands);
                  drops = f.drops;
                  split = rw live (ap (λ x. entry ∷ x) f.split);
                  large = rw live (omega (arith, f.large));
                  less = rw live (omega (arith, f.less));
                  fits = f.fits;
                  run = λ out h. by_fuel _ (suc (length rest)) (λ g b.
                      rw (room, more, read, live, keys, back)
                        (f.run (write out size entry) (length-write out size entry h) g b
                          ∙ ap (λ x. ok (have_more_output, x, f.id')) (push out size entry _ h)));
                })
              ]
        ]
  ]
