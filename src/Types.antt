-- ===== src/Types.antt =====
-- src/include/common/typedefs.hpp and config.hpp: the values, tuples, schemas and ranges.
pub mod Lookup
pub mod Schemas
pub mod Ranges
use p2_hash_join_optimizatio.Common.{
  ℕ, zero, suc, ◌+◌, ◌-◌, ◌^◌, String, ℤ, Bool, List, [], ◌∷◌, Result, ok, ◌>>=◌, throw, fault,
  invalid_key_schema, out_of_bounds, str_eq, if◌then◌else◌, ◌==◌,
}

-- `int64_t`
abbrev pub Data : Type 0
Data = ℤ

-- `static_cast<idx_t>(-1)`
abbrev pub invalid_id : ℕ
invalid_id = 2 ^ 64 - 1

abbrev pub invalid_name : String
invalid_name = ""

pub record ConfigGroup : Type 0 where
  pub chunk_suggest_size : ℕ

abbrev pub default_config : ConfigGroup
default_config = record { chunk_suggest_size = 1024 }

pub record RangeInfo : Type 0 where
  pub start : Data
  pub end : Data
  pub contain_start : Bool
  pub contain_end : Bool

abbrev pub Tuple : Type 0
Tuple = List Data

abbrev pub Schema : Type 0
Schema = List String

-- `operator[]`, undefined past the end
abbrev pub at {ℓ} : {A : Type ℓ} → List A → ℕ → Result A
at [] i = fault out_of_bounds
at (x ∷ xs) zero = ok x
at (x ∷ xs) (suc i) = at xs i

unfoldable pub key_from_tuple : Tuple → ℕ → Result Data
key_from_tuple tuple key_attr = at tuple key_attr

unfoldable pub keys_from_tuple : Tuple → List ℕ → Result Tuple
keys_from_tuple tuple [] = ok []
keys_from_tuple tuple (position ∷ rest) = do
  x ← at tuple position
  xs ← keys_from_tuple tuple rest
  ok (x ∷ xs)

-- The loop of `Schema::Find`, at position `i`.
find_from : ℕ → Schema → String → ℕ
find_from i [] cname = invalid_id
find_from i (c ∷ cs) cname =
    let rest = find_from (i + 1) cs cname in if str_eq c cname then i else rest

unfoldable pub find : Schema → String → ℕ
unfolding find_from
find schema cname = find_from 0 schema cname

unfoldable pub get_key_attr : Schema → String → Result ℕ
unfolding find
get_key_attr schema column_name =
    let position = find schema column_name in
    if position == invalid_id then throw invalid_key_schema else ok position

unfoldable pub get_key_attrs : Schema → Schema → Result (List ℕ)
get_key_attrs schema [] = ok []
get_key_attrs schema (cname ∷ rest) = do
  x ← get_key_attr schema cname
  xs ← get_key_attrs schema rest
  ok (x ∷ xs)
