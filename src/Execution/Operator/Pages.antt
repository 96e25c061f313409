-- ===== src/Execution/Operator/Pages.antt =====
-- An operator each of whose calls either returns all that is left, or a part that is not empty, is a
-- producer of the whole.
use p2_hash_join_optimizatio.Common.{
  ℕ, zero, suc, ◌<◌, ◌≡◌, refl, ap, ◌⊎◌, inl, inr, List, [], ◌∷◌, ◌++◌, append-nil, arith, length,
  flatten,
}
use p2_hash_join_optimizatio.Execution.Operator.{
  ExecutionContext, Entry, Chunk, have_more_output, exhausted, Operator,
}
use p2_hash_join_optimizatio.Execution.Operator.Contract.{Yields, last, more, Busy, Produces}

module _ {S : Type 0} (op : Operator S) (ctx : ExecutionContext) (n : ℕ)
    (Ready : ℕ → S → List Entry → Type 0) where
  -- What one call does in a state where `rows` are left and the measure is `k`.
  abbrev pub Page : ℕ → S → List Entry → Type 0
  Page k s rows =
      ((s' : S) × Yields op ctx n s exhausted rows s')
      ⊎ ((k' : ℕ) × (out : Chunk) × (rest : List Entry) × (s' : S) × (k' < k)
          × (0 < length out)
          × (rows ≡ out ++ rest)
          × Yields op ctx n s have_more_output out s'
          × Ready k' s' rest)

  Busy-cons : (c : Chunk) (cs : List Chunk) → 0 < length c → Busy cs → Busy (c ∷ cs)
  Busy-cons c [] h b = tt
  Busy-cons c (d ∷ cs) h b = (h, b)

  Produces-more :
      (s s' : S) (out : Chunk) (rest : List Entry)
      → 0 < length out
      → Yields op ctx n s have_more_output out s'
      → (p : Produces op ctx s' rest) → p.bound ≡ n
      → (q : Produces op ctx s (out ++ rest)) × (q.bound ≡ n)
  unfolding flatten
  Produces-more s s' out rest h y p e = (
    record {
      bound = n;
      chunks = out ∷ p.chunks;
      streams = more y (rw (← e) p.streams);
      busy = Busy-cons out p.chunks h p.busy;
      total = ap (λ t. out ++ t) p.total;
    },
    refl,
  )

  pub Page-Produces :
      ((k : ℕ) (s : S) (rows : List Entry) → Ready k s rows → Page k s rows)
      → (d k : ℕ) (s : S) (rows : List Entry) → k < d
      → Ready k s rows
      → (p : Produces op ctx s rows) × (p.bound ≡ n)
  unfolding flatten
  Page-Produces page zero k s rows h ready = absurd (omega arith)
  Page-Produces page (suc d) k s rows h ready = elim (page k s rows ready) [
    | inl (s', y) ↦ (
      record {
        bound = n;
        chunks = rows ∷ [];
        streams = last y;
        busy = tt;
        total = append-nil rows;
      },
      refl,
    )
    | inr (k', out, rest, s', lt, some_out, e, y, ready') ↦
        let (p, b) = Page-Produces page d k' s' rest (omega arith) ready' in
        rw e (Produces-more s s' out rest some_out y p b)
  ]
