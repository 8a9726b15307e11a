-- ===== src/Flavor/TypeProvider/Reporting.antt =====
-- pkg/providers/instancetype/instancetype.go: `RecordObservedCapacity`.
use karpenter_provider_cleve.Base.{Bool, ◌||◌, Option, none, some, Text, text_eq, if◌then◌else◌}
use karpenter_provider_cleve.Flavor.Numbers.{
  Doubles, cpu, memory, ephemeral_storage, ResourceList, Quantities,
}
use karpenter_provider_cleve.Flavor.Overrides.{Flavor}
use karpenter_provider_cleve.Flavor.Reports.{
  ObservedCapacity, ReportError, filter_generalizable, set_disk, without_disk,
  legacy_ephemeral_storage, legacy_ephemeral_allocatable, figure, static_capacity, min_merge,
  check_consistent, deviation, check_observation,
}
use karpenter_provider_cleve.Flavor.TypeProvider.{TypeProvider, sizing, static_allocatable}

-- What `RecordObservedCapacity` returns: the memory's deviation, or ErrImplausibleCapacity.
pub data RecordResult (W : Type 0) : Type 0 where
  accepted : W → RecordResult W
  implausible : ReportError → RecordResult W

module _ {Q W : Type 0} (q : Quantities Q W) (d : Doubles W) where
  -- `reference`; the price of its flavor is Go's zero, which `staticCapacity` does not read.
  unfoldable pub reference : TypeProvider Q W → Text → Option (ObservedCapacity Q)
  unfolding sizing static_allocatable
  reference p flavor = elim (sizing q d p flavor) [
    | none ↦ none
    | some s ↦
        let f : Flavor W = record {
          name = flavor;
          cpu = s.cpu;
          memory_ki = s.memory_ki;
          price = d.of_count 0;
        } in
        some (record { capacity = static_capacity q f; allocatable = static_allocatable q d f })
  ]

  -- `math.Abs(deviation(disk, legacyEphemeralStorage)) <= observedTolerance`
  unfoldable pub has_legacy_disk : ObservedCapacity Q → Bool
  unfolding deviation figure
  has_legacy_disk o =
      d.le
        (d.magnitude
          (deviation q d (figure q (o.capacity ephemeral_storage)) (legacy_ephemeral_storage q)))
        d.tenth

  -- The reference that a legacy disk is checked against.
  unfoldable pub with_legacy_disk : ObservedCapacity Q → ObservedCapacity Q
  unfolding set_disk
  with_legacy_disk ref = record {
    capacity = set_disk (legacy_ephemeral_storage q) ref.capacity;
    allocatable = set_disk (legacy_ephemeral_allocatable q) ref.allocatable;
  }

  -- `prev := p.observed[flavor]`, whose lists are nil where there is none
  unfoldable pub previous : TypeProvider Q W → Text → ObservedCapacity Q
  previous p flavor = elim (p.observed flavor) [
    | some o ↦ o
    | none ↦ record { capacity = λ r. none; allocatable = λ r. none }
  ]

  -- `p.observed[flavor] = ...`
  unfoldable pub merge_observed : TypeProvider Q W → Text → ObservedCapacity Q → TypeProvider Q W
  unfolding previous min_merge
  merge_observed p flavor o =
      let merged : ObservedCapacity Q = record {
        capacity = min_merge q (previous p flavor).capacity o.capacity;
        allocatable = min_merge q (previous p flavor).allocatable o.allocatable;
      } in
      record p { observed = λ name. if text_eq flavor name then some merged else p.observed name }

  -- `RecordObservedCapacity`, from the reference on
  unfoldable pub record_bounded :
      TypeProvider Q W → Text → ObservedCapacity Q → TypeProvider Q W × RecordResult W
  unfolding reference has_legacy_disk with_legacy_disk check_observation check_consistent
      merge_observed without_disk deviation figure
  record_bounded p flavor o = elim (reference p flavor) [
    | none ↦ elim (check_consistent q o) [
      | some e ↦ (p, implausible e)
      | none ↦ (merge_observed p flavor o, accepted (d.of_count 0))
    ]
    | some ref ↦
        let ref' = if has_legacy_disk o then with_legacy_disk ref else ref in
        let kept = if has_legacy_disk o then without_disk o else o in
        elim (check_observation q d ref' o) [
          | some e ↦ (p, implausible e)
          | none ↦ (
            merge_observed p flavor kept,
            accepted
                (deviation q d (figure q (kept.capacity memory)) (figure q (ref'.capacity memory))),
          )
        ]
  ]

  -- `RecordObservedCapacity`
  unfoldable pub record_observed_capacity :
      TypeProvider Q W → Text → ResourceList Q → ResourceList Q → TypeProvider Q W × RecordResult W
  unfolding figure filter_generalizable check_consistent without_disk record_bounded
  record_observed_capacity p flavor capacity allocatable =
      let o : ObservedCapacity Q = record {
        capacity = filter_generalizable capacity;
        allocatable = filter_generalizable allocatable;
      } in
      if q.is_zero (figure q (capacity cpu)) || q.is_zero (figure q (capacity memory))
      then (p, accepted (d.of_count 0))
      else if p.ephemeral_storage_required
      then elim (check_consistent q o) [
        | some e ↦ (p, implausible e)
        | none ↦ record_bounded p flavor (without_disk o)
      ]
      else record_bounded p flavor o
