-- ===== src/Common/Results.antt =====
-- What a call ends with: a value, a thrown `std::logic_error`, undefined behaviour, or a loop that
-- has used up its fuel.
use mathlib.Core.Path.{◌≡◌, refl}
use mathlib.Core.Logic.{◌⊎◌, inl, inr}

-- One name for each message that the source throws.
pub data LogicError : Type 0 where
  invalid_key_schema : LogicError
  duplicated_key : LogicError
  insert_duplicated_key : LogicError
  table_already_exists : LogicError
  drop_table_missing : LogicError
  index_already_exists : LogicError
  create_index_table_missing : LogicError
  table_already_has_index : LogicError
  drop_index_missing : LogicError
  fetch_table_missing : LogicError
  fetch_index_missing : LogicError
  duplicated_column_name : LogicError
  invalid_value_tuple : LogicError
  schema_mismatch : LogicError
  table_index_mismatch : LogicError
  null_projection : LogicError
  duplicated_projection : LogicError
  commit_not_running : LogicError
  abort_not_implemented : LogicError

-- What the C++ standard leaves undefined.
pub data Fault : Type 0 where
  out_of_bounds : Fault
  past_the_end : Fault
  null_dereference : Fault
  signed_overflow : Fault
  assertion_failed : Fault
  latch_not_held : Fault

pub data Error : Type 0 where
  logic_error : LogicError → Error
  undefined : Fault → Error
  out_of_fuel : Error

pub data Result {ℓ} (A : Type ℓ) : Type ℓ where
  ok : A → Result A
  err : Error → Result A

-- The rest of a block runs only after a value.
infixl 5 ◌>>=◌
abbrev pub ◌>>=◌ {α β} : {V : Type α} {W : Type β} → Result V → (V → Result W) → Result W
err stop >>= rest = err stop
ok v >>= rest = rest v

abbrev pub throw {ℓ} : {A : Type ℓ} → LogicError → Result A
throw e = err (logic_error e)

abbrev pub fault {ℓ} : {A : Type ℓ} → Fault → Result A
fault f = err (undefined f)

-- A block that returns has had a value from its first call.
pub >>=-eq-ok {α β} :
    {V : Type α} {W : Type β} (first : Result V) (rest : V → Result W) {w : W}
    → (first >>= rest) ≡ ok w
    → (v : V) × (first ≡ ok v) × (rest v ≡ ok w)
>>=-eq-ok (err stop) rest returned = absurd (cc)
>>=-eq-ok (ok v) rest returned = (v, refl, returned)

pub Result-cases {ℓ} :
    {A : Type ℓ} (r : Result A) → ((e : Error) × (r ≡ err e)) ⊎ ((a : A) × (r ≡ ok a))
Result-cases (ok a) = inr (a, refl)
Result-cases (err e) = inl (e, refl)

pub ok_injective {ℓ} : {A : Type ℓ} {a b : A} → ◌≡◌ {A = Result A} (ok a) (ok b) → a ≡ b
ok_injective h = cc h
