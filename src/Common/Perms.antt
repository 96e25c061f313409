-- ===== src/Common/Perms.antt =====
-- Lists up to their order.
use Prim.Native.Nat.{ℕ, zero, suc}
use mathlib.Core.Nat as Unary
use mathlib.Core.Path.{◌≡◌, refl, sym, ap, ◌∙◌}
use native.Mathlib.Decide.{ℕ_discrete}
use p2_hash_join_optimizatio.Common.Tests.{◌==◌, ==_refl}
use native.Mathlib.Omega.{arith}
use mathlib.Core.Logic.Or
use mathlib.Core.Logic.{∥∥₁_elim, ∥∥₁_prop}
use mathlib.Core.Bool.{Bool, true, false}
use mathlib.Core.List.{
  List, [], ◌∷◌, ◌++◌, Mem, Perm, mem-cons, not-mem-nil, mem-cons_self, mem-cons_of_mem,
  perm_middle, perm_append_comm, append_assoc, Permᴰ, count, perm_iff_count, count-cons_of_ne,
  count-cons_self,
}
use mathlib.Core.List.Perm
use p2_hash_join_optimizatio.Common.Lists.{All}
use p2_hash_join_optimizatio.Common.Tests.{if◌then◌else◌}

module _ {ℓ} {A : Type ℓ} where
  All-mem {κ} :
      (P : A → Type κ) (prop : (x : A) → IsProp (P x)) (xs : List A) {a : A}
      → All P xs
      → Mem a xs
      → P a
  All-mem P prop [] h m = absurd (not-mem-nil m)
  All-mem P prop (x ∷ xs) {a} h m =
      Or.elim (prop a) (mem-cons.0 m) (λ e. rw e h.0) (All-mem P prop xs h.1)

  All-mem_of {κ} : (P : A → Type κ) (xs : List A) → ((a : A) → Mem a xs → P a) → All P xs
  All-mem_of P [] h = tt
  All-mem_of P (x ∷ xs) h =
      (h x (mem-cons_self), All-mem_of P xs (λ a m. h a (mem-cons_of_mem x m)))

  -- What holds of all elements holds of all in another order.
  pub All-perm {κ} :
      (P : A → Type κ) (prop : (x : A) → IsProp (P x)) (xs ys : List A)
      → Perm xs ys
      → All P ys
      → All P xs
  All-perm P prop xs ys p h = All-mem_of P xs (λ a m. All-mem P prop ys h ((Perm.mem_iff p).0 m))

  -- An element that may be there stands in front of either part.
  pub perm-if_middle :
      (b : Bool) (x : A) (xs ys : List A)
      → Perm (xs ++ (if b then x ∷ ys else ys)) ((if b then x ∷ xs else xs) ++ ys)
  perm-if_middle true x xs ys = perm_middle xs ys
  perm-if_middle false x xs ys = Perm.refl _

-- How often a number stands in a list.
abbrev pub occurs : ℕ → List ℕ → ℕ
occurs n [] = 0
occurs n (x ∷ xs) = let rest = occurs n xs in if x == n then suc rest else rest

unary : ℕ → Unary.ℕ
unary zero = Unary.zero
unary (suc n) = Unary.suc (unary n)

count-occurs : (n : ℕ) (xs : List ℕ) → count ℕ_discrete n xs ≡ unary (occurs n xs)
unfolding unary
count-occurs n [] = refl
count-occurs n (x ∷ xs) =
    elim (ℕ_discrete x n) as (λ d. count ℕ_discrete n (x ∷ xs) ≡ unary (occurs n (x ∷ xs))) [
      | yes e ↦
          rw (e, ==_refl n) (count-cons_self ℕ_discrete n xs ∙ ap Unary.suc (count-occurs n xs))
      | no ne ↦ count-cons_of_ne ℕ_discrete ne xs ∙ count-occurs n xs ∙ ap unary (ground arith)
    ]

-- Lists in which every number stands equally often are the same up to order.
pub perm_of_occurs : (xs ys : List ℕ) → ((n : ℕ) → occurs n xs ≡ occurs n ys) → Perm xs ys
perm_of_occurs xs ys h =
    (perm_iff_count ℕ_discrete {l₁ = xs} {l₂ = ys}).1
      (λ n. count-occurs n xs ∙ ap unary (h n) ∙ sym (count-occurs n ys))

-- What a function makes of each element, in their order.
abbrev pub collect {ℓ κ} : {A : Type ℓ} {B : Type κ} → (A → List B) → List A → List B
collect g [] = []
collect g (x ∷ xs) = g x ++ collect g xs

module _ {ℓ κ} {A : Type ℓ} {B : Type κ} (g : A → List B) where
  Permᴰ-collect : {xs ys : List A} → Permᴰ xs ys → Perm (collect g xs) (collect g ys)
  Permᴰ-collect Permᴰ.nil = Perm.refl []
  Permᴰ-collect (Permᴰ.cons {a} {b} e d) = rw e (Perm.append_left (g b) (Permᴰ-collect d))
  Permᴰ-collect (Permᴰ.swap {a} {b} {a'} {b'} {l} e f) =
      rw
        (
          e,
          f,
          ← append_assoc (g a') (g b') (collect g l),
          ← append_assoc (g b') (g a') (collect g l),
        )
        (Perm.append_right (collect g l) (perm_append_comm (g b') (g a')))
  Permᴰ-collect (Permᴰ.trans d e) = Perm.trans (Permᴰ-collect d) (Permᴰ-collect e)

  pub perm-collect : {xs ys : List A} → Perm xs ys → Perm (collect g xs) (collect g ys)
  perm-collect p = ∥∥₁_elim p ∥∥₁_prop (λ d. Permᴰ-collect d)

  -- Where the parts are the same up to order, so is the whole.
  pub perm-collect_parts :
      (h : A → List B)
      → ((x : A) → Perm (g x) (h x))
      → (xs : List A) → Perm (collect g xs) (collect h xs)
  perm-collect_parts h same [] = Perm.refl []
  perm-collect_parts h same (x ∷ xs) = Perm.append (same x) (perm-collect_parts h same xs)
