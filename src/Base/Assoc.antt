-- ===== src/Base/Assoc.antt =====
-- Go maps with string keys, as association lists with at most one entry for a key.
use mathlib.Core.Path.{◌≡◌, refl}
use mathlib.Core.Option.{Option, none, some}
use mathlib.Core.List.{List, [], ◌∷◌}
use mathlib.Core.Bool.{false}
use mathlib.Core.Logic.{◌⊎◌, inl, inr}
use native.Mathlib.Omega.{arith}
use karpenter_provider_cleve.Base.Tests.{if◌then◌else◌}
use karpenter_provider_cleve.Base.Lists.{IsIn}
use karpenter_provider_cleve.Base.Bytes.{Text, text_eq, text_eq_iff}

abbrev pub Map {ℓ} : Type ℓ → Type ℓ
Map V = List (Text × V)

module _ {ℓ} {V : Type ℓ} where
  -- `v, ok := m[k]`
  unfoldable pub lookup : Text → Map V → Option V
  lookup k [] = none
  lookup k (e ∷ m) = if text_eq e.0 k then some e.1 else lookup k m

  -- `delete(m, k)`
  unfoldable pub erase : Text → Map V → Map V
  erase k [] = []
  erase k (e ∷ m) = if text_eq e.0 k then erase k m else e ∷ erase k m

  -- `m[k] = v`
  unfoldable pub insert : Text → V → Map V → Map V
  unfolding erase
  insert k v m = (k, v) ∷ erase k m

  pub lookup-erase :
      (k j : Text) (m : Map V) → lookup j (erase k m) ≡ (if text_eq k j then none else lookup j m)
  unfolding lookup erase
  lookup-erase k j [] = ground arith
  lookup-erase k j (e ∷ m) =
      ground (arith, text_eq_iff k j, text_eq_iff e.0 k, text_eq_iff e.0 j, lookup-erase k j m)

  pub lookup-insert :
      (k j : Text) (v : V) (m : Map V)
      → lookup j (insert k v m) ≡ (if text_eq k j then some v else lookup j m)
  unfolding lookup insert
  lookup-insert k j v m = ground (arith, lookup-erase k j m)

module _ {V : Type 0} where
  pub IsIn-erase :
      (k : Text) (e : Text × V) (m : Map V)
      → IsIn e (erase k m)
      → IsIn e m × (text_eq e.0 k ≡ false)
  unfolding erase
  IsIn-erase k e [] i = elim i [ ]
  IsIn-erase k e (x ∷ m) i = ground (arith, IsIn-erase k e m)

  pub IsIn-erase_of :
      (k : Text) (e : Text × V) (m : Map V) → IsIn e m → text_eq e.0 k ≡ false → IsIn e (erase k m)
  unfolding erase
  IsIn-erase_of k e [] i h = elim i [ ]
  IsIn-erase_of k e (x ∷ m) i h = ground (arith, IsIn-erase_of k e m)

  -- A new entry joins the entries under the other keys.
  pub IsIn-insert :
      (k : Text) (v : V) (e : Text × V) (m : Map V)
      → IsIn e (insert k v m)
      → ((k, v) ≡ e) ⊎ (IsIn e m × (text_eq e.0 k ≡ false))
  unfolding insert
  IsIn-insert k v e m (inl p) = inl p
  IsIn-insert k v e m (inr i) = inr (IsIn-erase k e m i)

  pub IsIn-insert_self : (k : Text) (v : V) (m : Map V) → IsIn (k, v) (insert k v m)
  unfolding insert
  IsIn-insert_self k v m = inl refl

  pub IsIn-insert_of :
      (k : Text) (v : V) (e : Text × V) (m : Map V)
      → IsIn e m
      → text_eq e.0 k ≡ false
      → IsIn e (insert k v m)
  unfolding insert
  IsIn-insert_of k v e m i h = inr (IsIn-erase_of k e m i h)

  -- What a lookup finds is an entry.
  pub IsIn-lookup : (k : Text) (v : V) (m : Map V) → lookup k m ≡ some v → IsIn (k, v) m
  unfolding lookup
  IsIn-lookup k v [] h = ground arith
  IsIn-lookup k v (e ∷ m) h = ground (arith, IsIn-lookup k v m, text_eq_iff e.0 k)
