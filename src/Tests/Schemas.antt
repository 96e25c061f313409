-- ===== src/Tests/Schemas.antt =====
-- The lookup of a column that two columns could answer.
use p2_hash_join_optimizatio.Common.{
  ℕ, ◌≡◌, ◌⊎◌, [], ◌∷◌, some, ok, throw, invalid_key_schema, arith, get_elem?, take,
}
use p2_hash_join_optimizatio.Types.{Schema, get_key_attr}
use p2_hash_join_optimizatio.Types.Schemas.{Lacks, get_key_attr-first}

abbrev twice : Schema
twice = "a" ∷ "b" ∷ "b" ∷ []

get_key_attr-first_example :
    ((get_key_attr twice "b" ≡ throw invalid_key_schema) × Lacks "b" twice)
    ⊎ ((attr : ℕ) × (get_key_attr twice "b" ≡ ok attr)
        × (get_elem? twice attr ≡ some "b")
        × Lacks "b" (take attr twice))
get_key_attr-first_example = get_key_attr-first twice "b" (omega arith)
