-- ===== src/Flavor/Reports/Least.antt =====
-- The least of a list of figures.
use karpenter_provider_cleve.Base.{
  ◌≡◌, refl, sym, ◌∙◌, ◌⊎◌, inl, inr, false, Option, none, some, List, [], ◌∷◌, arith, All, IsIn,
}
use karpenter_provider_cleve.Flavor.Numbers.{Quantities, IsOrdered}
use karpenter_provider_cleve.Flavor.Reports.{smaller}
use karpenter_provider_cleve.Flavor.Reports.Minimum.{
  lesser, smaller-some, lesser-left, lesser-right,
}

module _ {Q W : Type 0} (q : Quantities Q W) where
  -- There is no figure, or this one is among them and none is below it.
  abbrev pub IsLeast : Option Q → List Q → Type 0
  IsLeast none xs = xs ≡ []
  IsLeast (some x) xs = IsIn x xs × All (λ y. q.below y x ≡ false) xs

  unfoldable pub smaller_all : Option Q → List Q → Option Q
  unfolding smaller
  smaller_all m [] = m
  smaller_all m (x ∷ xs) = smaller_all (smaller q m (some x)) xs

  -- `lesser` keeps one of the two.
  lesser-cases : (x y : Q) → (lesser q x y ≡ x) ⊎ (lesser q x y ≡ y)
  lesser-cases x y = ground arith

  smaller_all-some :
      (z : Q) (xs : List Q) → IsOrdered q → IsLeast (smaller_all (some z) xs) (z ∷ xs)
  unfolding smaller_all
  smaller_all-some z [] o = (inl refl, (ground (arith, o.below_asym z z), tt))
  smaller_all-some z (x ∷ xs) o =
      rw (smaller-some q z x)
        (extended (smaller_all (some (lesser q z x)) xs) (smaller_all-some (lesser q z x) xs o))
    where
      extended : (w : Option Q) → IsLeast w (lesser q z x ∷ xs) → IsLeast w (z ∷ x ∷ xs)
      extended none h = cc
      extended (some w) (i, (first, rest)) = (
        elim i [
          | inr j ↦ inr (inr j)
          | inl e ↦ elim (lesser-cases z x) [
            | inl p ↦ inl (sym p ∙ e)
            | inr p ↦ inr (inl (sym p ∙ e))
          ]
        ],
        (
          o.below_trans w (lesser q z x) z first (lesser-left q z x o),
          (o.below_trans w (lesser q z x) x first (lesser-right q z x o), rest),
        ),
      )

  pub smaller_all-none : (xs : List Q) → IsOrdered q → IsLeast (smaller_all none xs) xs
  unfolding smaller_all smaller
  smaller_all-none [] o = refl
  smaller_all-none (x ∷ xs) o = smaller_all-some x xs o
