-- ===== src/Flavor/TypeProvider/Recording.antt =====
-- A sequence of reports of one flavor, as their set: what the catalogue holds is the least of each
-- figure, whatever the order.
use karpenter_provider_cleve.Base.{
  ◌≡◌, refl, ap, ◌∙◌, inl, inr, Option, none, some, List, [], ◌∷◌, Text, text_eq_refl, Option-cases,
}
use karpenter_provider_cleve.Flavor.Numbers.{Doubles, Resource, ResourceList, Quantities, IsOrdered}
use karpenter_provider_cleve.Flavor.Reports.{ObservedCapacity, smaller, min_merge}
use karpenter_provider_cleve.Flavor.Reports.Least.{IsLeast, smaller_all, smaller_all-none}
use karpenter_provider_cleve.Flavor.TypeProvider.{TypeProvider}
use karpenter_provider_cleve.Flavor.TypeProvider.Reporting.{
  previous, merge_observed, record_observed_capacity,
}
use karpenter_provider_cleve.Flavor.TypeProvider.Kept.{
  kept, merge_kept, record_observed_capacity-kept, kept-merge_kept,
}

-- A list, with one more element if there is one.
unfoldable joined : {A : Type 0} → Option A → List A → List A
joined none xs = xs
joined (some x) xs = x ∷ xs

module _ {Q W : Type 0} (q : Quantities Q W) (d : Doubles W) where
  abbrev pub Report : Type 0
  Report = ResourceList Q × ResourceList Q

  -- The reports of one flavor, in the order in which its nodes post them.
  unfoldable pub record_all : TypeProvider Q W → Text → List Report → TypeProvider Q W
  unfolding record_observed_capacity
  record_all p flavor [] = p
  record_all p flavor ((capacity, allocatable) ∷ reports) =
      record_all (record_observed_capacity q d p flavor capacity allocatable).0 flavor reports

  unfoldable pub kept_all : TypeProvider Q W → Text → List Report → List (ObservedCapacity Q)
  unfolding kept joined
  kept_all p flavor [] = []
  kept_all p flavor ((capacity, allocatable) ∷ reports) =
      joined (kept q d p flavor capacity allocatable) (kept_all p flavor reports)

  kept_all-merge_kept :
      (p : TypeProvider Q W) (flavor : Text) (k : Option (ObservedCapacity Q))
      (reports : List Report)
      → kept_all (merge_kept q d p flavor k) flavor reports ≡ kept_all p flavor reports
  unfolding kept_all
  kept_all-merge_kept p flavor k [] = refl
  kept_all-merge_kept p flavor k ((capacity, allocatable) ∷ reports) =
      rw
        (
          kept-merge_kept q d p flavor k capacity allocatable,
          kept_all-merge_kept p flavor k reports,
        )
        refl

  -- One of the two lists of an observation.
  pub data Side : Type 0 where
    capacities allocatables : Side

  unfoldable at : Side → Resource → ObservedCapacity Q → Option Q
  at capacities r o = o.capacity r
  at allocatables r o = o.allocatable r

  unfoldable pub figures : Side → Resource → List (ObservedCapacity Q) → List Q
  unfolding at joined
  figures side r [] = []
  figures side r (o ∷ os) = joined (at side r o) (figures side r os)

  previous-merge_observed :
      (p : TypeProvider Q W) (flavor : Text) (o : ObservedCapacity Q)
      → previous q d (merge_observed q d p flavor o) flavor ≡ record {
        capacity = min_merge q (previous q d p flavor).capacity o.capacity;
        allocatable = min_merge q (previous q d p flavor).allocatable o.allocatable;
      }
  unfolding merge_observed previous
  previous-merge_observed p flavor o = rw (previous, text_eq_refl flavor) refl

  at-merge_observed :
      (p : TypeProvider Q W) (flavor : Text) (o : ObservedCapacity Q) (side : Side) (r : Resource)
      → at side r (previous q d (merge_observed q d p flavor o) flavor)
        ≡ smaller q (at side r (previous q d p flavor)) (at side r o)
  unfolding at min_merge
  at-merge_observed p flavor o capacities r =
      ap (λ z. z.capacity r) (previous-merge_observed p flavor o)
  at-merge_observed p flavor o allocatables r =
      ap (λ z. z.allocatable r) (previous-merge_observed p flavor o)

  at-nothing :
      (p : TypeProvider Q W) (flavor : Text) (side : Side) (r : Resource)
      → p.observed flavor ≡ none
      → at side r (previous q d p flavor) ≡ none
  unfolding previous at
  at-nothing p flavor capacities r h = simp (previous, h) refl
  at-nothing p flavor allocatables r h = simp (previous, h) refl

  smaller-none : (m : Option Q) → smaller q m none ≡ m
  unfolding smaller
  smaller-none none = refl
  smaller-none (some x) = refl

  figures-merge :
      (m : Option Q) (side : Side) (r : Resource) (o : ObservedCapacity Q)
      (os : List (ObservedCapacity Q))
      → smaller_all q (smaller q m (at side r o)) (figures side r os)
        ≡ smaller_all q m (figures side r (o ∷ os))
  unfolding figures smaller_all joined
  figures-merge m side r o os = elim (Option-cases (at side r o)) [
    | inl h ↦ rw (figures, h, smaller-none m) refl
    | inr (x, h) ↦ rw (figures, h, smaller_all) refl
  ]

  kept_step :
      (p : TypeProvider Q W) (flavor : Text) (capacity allocatable : ResourceList Q)
      (reports : List Report) (side : Side) (r : Resource)
      → smaller_all q
          (at side r (
            previous q d (merge_kept q d p flavor (kept q d p flavor capacity allocatable)) flavor))
          (figures side r (kept_all p flavor reports))
        ≡ smaller_all q
            (at side r (previous q d p flavor))
            (figures side r (kept_all p flavor ((capacity, allocatable) ∷ reports)))
  unfolding kept_all merge_kept joined
  kept_step p flavor capacity allocatable reports side r =
      let m = at side r (previous q d p flavor) in
      elim (Option-cases (kept q d p flavor capacity allocatable)) [
        | inl h ↦ rw (kept_all, h, merge_kept) refl
        | inr (o, h) ↦
            rw (kept_all, h, merge_kept, at-merge_observed p flavor o side r)
              (figures-merge m side r o (kept_all p flavor reports))
      ]

  record_all-smaller_all :
      (p : TypeProvider Q W) (flavor : Text) (reports : List Report) (side : Side) (r : Resource)
      → at side r (previous q d (record_all p flavor reports) flavor)
        ≡ smaller_all q
            (at side r (previous q d p flavor))
            (figures side r (kept_all p flavor reports))
  unfolding record_all kept_all figures smaller_all
  record_all-smaller_all p flavor [] side r = refl
  record_all-smaller_all p flavor ((capacity, allocatable) ∷ reports) side r =
      let k = kept q d p flavor capacity allocatable in
      let ih = record_all-smaller_all (merge_kept q d p flavor k) flavor reports side r in
      let same = kept_all-merge_kept p flavor k reports in
      rw (record_all, record_observed_capacity-kept q d p flavor capacity allocatable)
        (ih ∙ rw same (kept_step p flavor capacity allocatable reports side r))

  -- With quantities in order: a flavor that nothing was recorded of holds, after any reports of its
  -- nodes in any order, the least of the capacities, and the least of the allocatables, that the
  -- reports add; whether and what a report adds is decided by that report and the catalogue alone.
  pub record_all-IsLeast :
      (p : TypeProvider Q W) (flavor : Text) (reports : List Report) (r : Resource)
      → IsOrdered q
      → p.observed flavor ≡ none
      → IsLeast q
          ((previous q d (record_all p flavor reports) flavor).capacity r)
          (figures capacities r (kept_all p flavor reports))
        × IsLeast q
            ((previous q d (record_all p flavor reports) flavor).allocatable r)
            (figures allocatables r (kept_all p flavor reports))
  unfolding at
  record_all-IsLeast p flavor reports r o h = (least_of capacities, least_of allocatables)
    where
      least_of :
          (side : Side)
          → IsLeast q
              (at side r (previous q d (record_all p flavor reports) flavor))
              (figures side r (kept_all p flavor reports))
      least_of side =
          rw (record_all-smaller_all p flavor reports side r, at-nothing p flavor side r h)
            (smaller_all-none q (figures side r (kept_all p flavor reports)) o)
