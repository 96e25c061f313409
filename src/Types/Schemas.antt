-- ===== src/Types/Schemas.antt =====
-- The position that `GetKeyAttr` returns.
use Prim.Native.Nat.{ℕ}
use p2_hash_join_optimizatio.Common.{
  false, get_elem?, take, eq_iff, some, throw, invalid_key_schema, ◌==◌, suc, ◌+◌, ◌<◌, ◌≡◌, refl,
  ap, ◌⊎◌, inl, inr, String, List, [], ◌∷◌, ok, arith, length, str_eq, Bool-cases, All, >>=-eq-ok,
}
use p2_hash_join_optimizatio.Types.{
  Schema, invalid_id, find_from, find, get_key_attr, get_key_attrs,
}

find_from_bounds :
    (i : ℕ) (schema : Schema) (cname : String)
    → (find_from i schema cname ≡ invalid_id) ⊎ (find_from i schema cname < i + length schema)
unfolding find_from
find_from_bounds i [] cname = inl refl
find_from_bounds i (c ∷ cs) cname = elim (Bool-cases (str_eq c cname)) [
  | inl here ↦ inr (rw here (omega arith))
  | inr later ↦ rw later (elim (find_from_bounds (i + 1) cs cname) [
    | inl gone ↦ inl gone
    | inr found ↦ inr (omega arith)
  ])
]

-- A position that is returned is one of the schema.
pub get_key_attr-lt :
    (schema : Schema) (cname : String) (attr : ℕ)
    → get_key_attr schema cname ≡ ok attr
    → attr < length schema
unfolding get_key_attr find
get_key_attr-lt schema cname attr h = ground (arith, find_from_bounds 0 schema cname)

pub get_key_attrs-lt :
    (schema columns : Schema) (attrs : List ℕ)
    → get_key_attrs schema columns ≡ ok attrs
    → All (λ p. p < length schema) attrs × (length attrs ≡ length columns)
unfolding get_key_attrs
get_key_attrs-lt schema [] [] h = (tt, refl)
get_key_attrs-lt schema [] (a ∷ attrs) h = absurd (cc)
get_key_attrs-lt schema (c ∷ cs) attrs h =
    let (a, one, rest) = >>=-eq-ok (get_key_attr schema c) _ h in
    let (as', others, done) = >>=-eq-ok (get_key_attrs schema cs) _ rest in
    let whole : attrs ≡ a ∷ as' = cc done in
    let (bounds, count) = get_key_attrs-lt schema cs as' others in
    rw whole ((get_key_attr-lt schema c a one, bounds), ap suc count)

-- A key schema of one column.
pub get_key_attrs_one :
    (schema : Schema) (cname : String) (attr : ℕ)
    → get_key_attr schema cname ≡ ok attr
    → get_key_attrs schema (cname ∷ []) ≡ ok (attr ∷ [])
unfolding get_key_attrs
get_key_attrs_one schema cname attr h = rw h

-- No column of these has the name.
abbrev pub Lacks : String → Schema → Type 0
Lacks cname schema = All (λ c. str_eq c cname ≡ false) schema

find_from-first :
    (i : ℕ) (schema : Schema) (cname : String)
    → ((find_from i schema cname ≡ invalid_id) × Lacks cname schema)
      ⊎ ((k : ℕ) × (find_from i schema cname ≡ i + k)
          × (k < length schema)
          × (get_elem? schema k ≡ some cname)
          × Lacks cname (take k schema))
unfolding find_from
find_from-first i [] cname = inl (refl, tt)
find_from-first i (c ∷ cs) cname = elim (Bool-cases (str_eq c cname)) [
  | inl here ↦ inr (0, rw here (omega arith), omega arith, ap some ((eq_iff c cname).0 here), tt)
  | inr other ↦ elim (find_from-first (i + 1) cs cname) [
    | inl (none_found, lacks) ↦ inl (rw other none_found, (other, lacks))
    | inr (k, found, inside, reads, before) ↦
        inr (suc k, rw other (omega (arith, found)), omega arith, reads, (other, before))
  ]
]

-- In a schema with fewer columns than the invalid id, the lookup of a column throws, and then no
-- column has the name, or returns the position of the first column that has it.
pub get_key_attr-first :
    (schema : Schema) (cname : String)
    → length schema < invalid_id
    → ((get_key_attr schema cname ≡ throw invalid_key_schema) × Lacks cname schema)
      ⊎ ((attr : ℕ) × (get_key_attr schema cname ≡ ok attr)
          × (get_elem? schema attr ≡ some cname)
          × Lacks cname (take attr schema))
unfolding get_key_attr find
get_key_attr-first schema cname few = elim (find_from-first 0 schema cname) [
  | inl (none_found, lacks) ↦ inl (rw (none_found), lacks)
  | inr (k, found, inside, reads, before) ↦
      let there : find_from 0 schema cname ≡ k = omega (arith, found) in
      let valid : (k == invalid_id) ≡ false = ground arith in
      inr (k, rw (there, valid), reads, before)
]
