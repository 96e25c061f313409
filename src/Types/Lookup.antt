-- ===== src/Types/Lookup.antt =====
-- Reads by position and by column name.
use Prim.Native.Nat.add
use p2_hash_join_optimizatio.Common.{
  ℕ, zero, suc, ◌+◌, ◌<◌, ◌≡◌, refl, ap, pos, List, [], ◌∷◌, ◌++◌, ok, arith, length, get_or, drop,
  All, get_elem?, some, some_injective, ok_injective,
}
use p2_hash_join_optimizatio.Types.{Data, Tuple, at, key_from_tuple, keys_from_tuple}

module _ {ℓ} {A : Type ℓ} where
  pub at-append_right : (xs ys : List A) (i n : ℕ) → length xs ≡ n → at (xs ++ ys) (n + i) ≡ at ys i
  at-append_right [] ys i n h = ground arith
  at-append_right (x ∷ xs) ys i zero h = absurd (omega arith)
  at-append_right (x ∷ xs) ys i (suc n) h = rw add.suc (at-append_right xs ys i n (omega arith))

  pub at-append_left : (xs ys : List A) (i : ℕ) → i < length xs → at (xs ++ ys) i ≡ at xs i
  at-append_left [] ys i h = absurd (omega arith)
  at-append_left (x ∷ xs) ys zero h = refl
  at-append_left (x ∷ xs) ys (suc i) h = at-append_left xs ys i (omega arith)

  pub at-drop : (n : ℕ) (xs : List A) (y : A) (ys : List A) → drop n xs ≡ y ∷ ys → at xs n ≡ ok y
  at-drop zero [] y ys h = ground arith
  at-drop zero (x ∷ xs) y ys h = ground arith
  at-drop (suc n) [] y ys h = ground arith
  at-drop (suc n) (x ∷ xs) y ys h = at-drop n xs y ys h

  pub at-get_or : (xs : List A) (i : ℕ) (d : A) → i < length xs → at xs i ≡ ok (get_or xs i d)
  at-get_or [] i d h = absurd (omega arith)
  at-get_or (x ∷ xs) zero d h = refl
  at-get_or (x ∷ xs) (suc i) d h = at-get_or xs i d (omega arith)

  pub at-get_elem? : (xs : List A) (i : ℕ) (x : A) → get_elem? xs i ≡ some x → at xs i ≡ ok x
  at-get_elem? [] i x h = absurd (cc)
  at-get_elem? (y ∷ xs) zero x h = ap ok (some_injective h)
  at-get_elem? (y ∷ xs) (suc i) x h = at-get_elem? xs i x h

  pub get_elem?-at : (xs : List A) (i : ℕ) (x : A) → at xs i ≡ ok x → get_elem? xs i ≡ some x
  get_elem?-at [] i x h = absurd (cc)
  get_elem?-at (y ∷ xs) zero x h = ap some (ok_injective h)
  get_elem?-at (y ∷ xs) (suc i) x h = get_elem?-at xs i x h

-- The value in a column, where the tuple has it.
abbrev pub column : Tuple → ℕ → Data
column tuple attr = get_or tuple attr (pos 0)

pub column-at : (tuple : Tuple) (i : ℕ) (k : Data) → at tuple i ≡ ok k → column tuple i ≡ k
column-at [] i k h = absurd (cc)
column-at (y ∷ xs) zero k h = ok_injective h
column-at (y ∷ xs) (suc i) k h = column-at xs i k h

unfoldable pub project : Tuple → List ℕ → Tuple
project tuple [] = []
project tuple (position ∷ rest) = column tuple position ∷ project tuple rest

pub key_from_tuple-column :
    (tuple : Tuple) (attr : ℕ)
    → attr < length tuple
    → key_from_tuple tuple attr ≡ ok (column tuple attr)
unfolding key_from_tuple
key_from_tuple-column tuple attr h = at-get_or tuple attr (pos 0) h

pub keys_from_tuple-project :
    (tuple : Tuple) (attrs : List ℕ)
    → All (λ p. p < length tuple) attrs
    → keys_from_tuple tuple attrs ≡ ok (project tuple attrs)
unfolding keys_from_tuple project
keys_from_tuple-project tuple [] h = refl
keys_from_tuple-project tuple (p ∷ attrs) h =
    rw (at-get_or tuple p (pos 0) h.0, keys_from_tuple-project tuple attrs h.1)

pub length-project : (tuple : Tuple) (attrs : List ℕ) → length (project tuple attrs) ≡ length attrs
unfolding project
length-project tuple [] = refl
length-project tuple (p ∷ attrs) = ap suc (length-project tuple attrs)
