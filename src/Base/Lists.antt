-- ===== src/Base/Lists.antt =====
-- Lists measured by native numbers, and searches by a Boolean test.
use Prim.Native.Nat.{ℕ, suc, ◌+◌}
use mathlib.Core.Path.{◌≡◌, refl, sym, subst}
use mathlib.Core.Logic.{◌↔◌, ◌⊎◌, inl, inr}
use mathlib.Core.Bool.{Bool, true, false, ◌||◌}
use mathlib.Core.List.{List, [], ◌∷◌, ◌++◌}
use native.Mathlib.Omega.{arith}
use karpenter_provider_cleve.Base.Tests.{Bool-cases}

module _ {ℓ} {A : Type ℓ} where
  abbrev pub length : List A → ℕ
  length [] = 0
  length (x ∷ xs) = suc (length xs)

  pub length-append : (xs ys : List A) → length (xs ++ ys) ≡ length xs + length ys
  length-append [] ys = omega arith
  length-append (x ∷ xs) ys = omega (arith, length-append xs ys)

  abbrev pub is_empty : List A → Bool
  is_empty [] = true
  is_empty (x ∷ xs) = false

  abbrev pub All {κ} : (A → Type κ) → List A → Type κ
  All P [] = Unit
  All P (x ∷ xs) = P x × All P xs

  -- A `for` loop that returns at the first element that passes.
  unfoldable pub any : (A → Bool) → List A → Bool
  any p [] = false
  any p (x ∷ xs) = p x || any p xs

module _ {A : Type 0} where
  -- Membership by recursion, which the tactics read.
  abbrev pub IsIn : A → List A → Type 0
  IsIn x [] = ⊥
  IsIn x (y ∷ ys) = (y ≡ x) ⊎ IsIn x ys

  pub All-at : (P : A → Type 0) (x : A) (xs : List A) → All P xs → IsIn x xs → P x
  All-at P x [] h m = elim m [ ]
  All-at P x (y ∷ ys) h (inl e) = subst P e h.0
  All-at P x (y ∷ ys) h (inr m) = All-at P x ys h.1 m

  pub IsIn-append : (x : A) (xs ys : List A) → IsIn x (xs ++ ys) ↔ (IsIn x xs ⊎ IsIn x ys)
  IsIn-append x [] ys = ground arith
  IsIn-append x (y ∷ xs) ys = ground (arith, IsIn-append x xs ys)

  -- A search succeeds exactly when some element passes.
  pub any_iff :
      (p : A → Bool) (xs : List A) → (any p xs ≡ true) ↔ ((x : A) × IsIn x xs × (p x ≡ true))
  unfolding any
  any_iff p [] = ground arith
  any_iff p (x ∷ xs) = (
    λ h. elim (Bool-cases (p x)) [
      | inl passes ↦ (x, inl refl, passes)
      | inr other ↦ let (y, i, q) = (any_iff p xs).0 (rw (other, any) at h) in (y, inr i, q)
    ],
    λ (y, i, q). elim i [
      | inl e ↦ let r : p x ≡ true = subst (λ z. p z ≡ true) (sym e) q in rw (r, any) refl
      | inr j ↦ let r = (any_iff p xs).1 (y, j, q) in ground (arith, r)
    ],
  )

  pub All-of : (P : A → Type 0) (xs : List A) → ((x : A) → IsIn x xs → P x) → All P xs
  All-of P [] h = tt
  All-of P (x ∷ xs) h = (h x (inl refl), All-of P xs (λ y i. h y (inr i)))
