-- ===== src/Flavor/TypeProvider/Kept.antt =====
-- What one report adds to the observations, told apart from the observations before it.
use karpenter_provider_cleve.Base.{
  ◌≡◌, refl, inl, inr, ◌||◌, Option, none, some, Text, Bool-cases, Option-cases, if◌then◌else◌,
}
use karpenter_provider_cleve.Flavor.Numbers.{Doubles, cpu, memory, ResourceList, Quantities}
use karpenter_provider_cleve.Flavor.Reports.{
  ObservedCapacity, filter_generalizable, figure, without_disk, check_consistent, check_observation,
}
use karpenter_provider_cleve.Flavor.TypeProvider.{TypeProvider, sizing}
use karpenter_provider_cleve.Flavor.TypeProvider.Reporting.{
  reference, has_legacy_disk, with_legacy_disk, merge_observed, record_bounded,
  record_observed_capacity,
}

module _ {Q W : Type 0} (q : Quantities Q W) (d : Doubles W) where
  -- What one report adds to the observations of its flavor, if anything, by the tests alone.
  unfoldable kept_bounded :
      TypeProvider Q W → Text → ObservedCapacity Q → Option (ObservedCapacity Q)
  unfolding reference has_legacy_disk with_legacy_disk check_observation check_consistent
      without_disk
  kept_bounded p flavor o = elim (reference q d p flavor) [
    | none ↦ elim (check_consistent q o) [ none ↦ some o | some e ↦ none ]
    | some ref ↦
        elim (check_observation q d
          (if has_legacy_disk q d o then with_legacy_disk q d ref else ref) o) [
            | none ↦ some (if has_legacy_disk q d o then without_disk o else o)
            | some e ↦ none
          ]
  ]

  unfoldable pub kept :
      TypeProvider Q W → Text → ResourceList Q → ResourceList Q → Option (ObservedCapacity Q)
  unfolding figure filter_generalizable check_consistent without_disk kept_bounded
  kept p flavor capacity allocatable =
      let o : ObservedCapacity Q = record {
        capacity = filter_generalizable capacity;
        allocatable = filter_generalizable allocatable;
      } in
      if q.is_zero (figure q (capacity cpu)) || q.is_zero (figure q (capacity memory))
      then none
      else if p.ephemeral_storage_required
      then elim (check_consistent q o) [
        | some e ↦ none
        | none ↦ kept_bounded p flavor (without_disk o)
      ]
      else kept_bounded p flavor o

  unfoldable pub merge_kept :
      TypeProvider Q W → Text → Option (ObservedCapacity Q) → TypeProvider Q W
  unfolding merge_observed
  merge_kept p flavor none = p
  merge_kept p flavor (some o) = merge_observed q d p flavor o

  record_bounded-kept :
      (p : TypeProvider Q W) (flavor : Text) (o : ObservedCapacity Q)
      → (record_bounded q d p flavor o).0 ≡ merge_kept p flavor (kept_bounded p flavor o)
  unfolding record_bounded kept_bounded merge_kept
  record_bounded-kept p flavor o = elim (Option-cases (reference q d p flavor)) [
    | inl h ↦ elim (Option-cases (check_consistent q o)) [
      | inl c ↦ simp (h, c, record_bounded, kept_bounded) refl
      | inr (e, c) ↦ simp (h, c, record_bounded, kept_bounded) refl
    ]
    | inr (ref, h) ↦
        elim (Option-cases (
          check_observation q d (if has_legacy_disk q d o then with_legacy_disk q d ref else ref)
            o)) [
              | inl c ↦ simp (h, c, record_bounded, kept_bounded) refl
              | inr (e, c) ↦ simp (h, c, record_bounded, kept_bounded) refl
            ]
  ]

  -- A report is recorded by merging what it adds.
  pub record_observed_capacity-kept :
      (p : TypeProvider Q W) (flavor : Text) (capacity allocatable : ResourceList Q)
      → (record_observed_capacity q d p flavor capacity allocatable).0
        ≡ merge_kept p flavor (kept p flavor capacity allocatable)
  unfolding record_observed_capacity kept merge_kept
  record_observed_capacity-kept p flavor capacity allocatable =
      let o : ObservedCapacity Q = record {
        capacity = filter_generalizable capacity;
        allocatable = filter_generalizable allocatable;
      } in
      elim (Bool-cases
        (q.is_zero (figure q (capacity cpu)) || q.is_zero (figure q (capacity memory)))) [
          | inl z ↦ simp (z, record_observed_capacity, kept) refl
          | inr z ↦ elim (Bool-cases p.ephemeral_storage_required) [
            | inr r ↦ simp (z, r, record_observed_capacity, kept) (record_bounded-kept p flavor o)
            | inl r ↦ elim (Option-cases (check_consistent q o)) [
              | inl c ↦
                  simp (z, r, c, record_observed_capacity, kept)
                    (record_bounded-kept p flavor (without_disk o))
              | inr (e, c) ↦ simp (z, r, c, record_observed_capacity, kept) refl
            ]
          ]
        ]

  -- What a report adds does not depend on the reports before it.
  pub kept-merge_kept :
      (p : TypeProvider Q W) (flavor : Text) (k : Option (ObservedCapacity Q))
      (capacity allocatable : ResourceList Q)
      → kept (merge_kept p flavor k) flavor capacity allocatable
        ≡ kept p flavor capacity allocatable
  unfolding merge_kept merge_observed kept kept_bounded reference sizing
  kept-merge_kept p flavor none capacity allocatable = refl
  kept-merge_kept p flavor (some o) capacity allocatable = refl
