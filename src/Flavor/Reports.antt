-- ===== src/Flavor/Reports.antt =====
-- pkg/providers/instancetype/instancetype.go: what nodes report of their resources, the tests of a
-- report, and the minimum of two.
pub mod Minimum
pub mod Least
use karpenter_provider_cleve.Base.{
  ℕ, ◌+◌, ◌-◌, ◌*◌, ◌%◌, ◌^◌, ◌≡◌, Bool, true, false, not, ◌&&◌, ◌||◌, Option, none, some, List, [],
  ◌∷◌, Text, codes, any, is_some, if◌then◌else◌, ltb,
}
use karpenter_provider_cleve.Flavor.Numbers.{
  Signed, nonneg, negative, Doubles, Resource, cpu, memory, ephemeral_storage, pods, other,
  ResourceList, Overhead, Quantities,
}
use karpenter_provider_cleve.Flavor.Overrides.{Flavor}

-- `observedCapacity`
pub record ObservedCapacity (Q : Type 0) : Type 0 where
  pub capacity : ResourceList Q
  pub allocatable : ResourceList Q

-- What refuses a report, with the resource that the message names.
pub data ReportError : Type 0 where
  one_sided exceeds off_capacity off_allocatable off_ratio : Resource → ReportError

-- `generalizableResources`
abbrev pub generalizable_resources : List Resource
generalizable_resources = cpu ∷ memory ∷ ephemeral_storage ∷ pods ∷ []

unfoldable pub is_disk : Resource → Bool
is_disk ephemeral_storage = true
is_disk cpu = false
is_disk memory = false
is_disk pods = false
is_disk (other name) = false

-- the resources of the list above
unfoldable pub is_generalizable : Resource → Bool
is_generalizable cpu = true
is_generalizable memory = true
is_generalizable ephemeral_storage = true
is_generalizable pods = true
is_generalizable (other name) = false

module _ {Q : Type 0} where
  -- `filterGeneralizable`
  unfoldable pub filter_generalizable : ResourceList Q → ResourceList Q
  unfolding is_generalizable
  filter_generalizable list r = if is_generalizable r then list r else none

  -- `delete(list, corev1.ResourceEphemeralStorage)`
  unfoldable pub delete_disk : ResourceList Q → ResourceList Q
  unfolding is_disk
  delete_disk list r = if is_disk r then none else list r

  -- `list[corev1.ResourceEphemeralStorage] = x`
  unfoldable pub set_disk : Q → ResourceList Q → ResourceList Q
  unfolding is_disk
  set_disk x list r = if is_disk r then some x else list r

  unfoldable pub without_disk : ObservedCapacity Q → ObservedCapacity Q
  unfolding delete_disk
  without_disk o = record {
    capacity = delete_disk o.capacity;
    allocatable = delete_disk o.allocatable;
  }

-- A product of two integers that are not negative, as an int64.
unfoldable pub wrapped : ℕ → Signed
wrapped n = let w = n % 2 ^ 64 in if ltb w (2 ^ 63) then nonneg w else negative (2 ^ 64 - 1 - w)

module _ {Q W : Type 0} (q : Quantities Q W) where
  -- `ephemeralStorage`, `maxPods` and the other figures that are parsed once
  abbrev pub ephemeral_storage_figure : Q
  ephemeral_storage_figure = q.parse (codes "102624184Ki")

  abbrev pub max_pods : Q
  max_pods = q.parse (codes "110")

  abbrev pub legacy_ephemeral_storage : Q
  legacy_ephemeral_storage = q.parse (codes "40971488Ki")

  abbrev pub legacy_ephemeral_allocatable : Q
  legacy_ephemeral_allocatable = q.parse (codes "37759323279")

  abbrev pub kube_reserved_memory : Q
  kube_reserved_memory = q.parse (codes "100Mi")

  abbrev pub eviction_ephemeral_threshold : Q
  eviction_ephemeral_threshold = q.parse (codes "10262419Ki")

  -- `list[name]`, which is the zero quantity where the list has none
  unfoldable pub figure : Option Q → Q
  figure none = q.nought
  figure (some x) = x

  -- The four figures of a flavor, and its overhead: `staticCapacity`.
  unfoldable pub static_capacity : Flavor W → ResourceList Q
  unfolding wrapped
  static_capacity f cpu = some (q.of_int (nonneg f.cpu))
  static_capacity f memory = some (q.of_int (wrapped (f.memory_ki * 1_024)))
  static_capacity f ephemeral_storage = some ephemeral_storage_figure
  static_capacity f pods = some max_pods
  static_capacity f (other name) = none

  unfoldable pub only_memory : Q → ResourceList Q
  only_memory x memory = some x
  only_memory x cpu = none
  only_memory x ephemeral_storage = none
  only_memory x pods = none
  only_memory x (other name) = none

  unfoldable pub static_overhead : Overhead Q
  unfolding only_memory set_disk
  static_overhead = record {
    kube_reserved = only_memory kube_reserved_memory;
    system_reserved = λ r. none;
    eviction_threshold = set_disk eviction_ephemeral_threshold (λ r. none);
  }

  -- The smaller of two figures, or the one that there is.
  unfoldable pub smaller : Option Q → Option Q → Option Q
  smaller none y = y
  smaller (some x) none = some x
  smaller (some x) (some y) = if q.below y x then some y else some x

  -- `minMerge`, whose loops treat each resource alone
  unfoldable pub min_merge : ResourceList Q → ResourceList Q → ResourceList Q
  unfolding smaller
  min_merge prev next r = smaller (prev r) (next r)

  -- The body of the loop of `checkConsistent`, on the figures of one resource.
  unfoldable pub check_pair : Resource → Option Q → Option Q → Option ReportError
  check_pair r none none = none
  check_pair r none (some a) = some (one_sided r)
  check_pair r (some c) none = some (one_sided r)
  check_pair r (some c) (some a) = if q.below c a then some (exceeds r) else none

  -- `checkConsistent`
  unfoldable pub check_consistent_on : ObservedCapacity Q → List Resource → Option ReportError
  unfolding check_pair
  check_consistent_on o [] = none
  check_consistent_on o (r ∷ resources) =
      let rest = check_consistent_on o resources in
      elim (check_pair r (o.capacity r) (o.allocatable r)) [ none ↦ rest | some e ↦ some e ]

  unfoldable pub check_consistent : ObservedCapacity Q → Option ReportError
  unfolding check_consistent_on
  check_consistent o = check_consistent_on o generalizable_resources

  module _ (d : Doubles W) where
    -- `deviation`
    unfoldable pub deviation : Q → Q → W
    deviation got want =
        let w = q.approximate want in
        if d.is_zero w then d.infinity else d.minus (d.over (q.approximate got) w) (d.of_count 1)

    -- `math.Abs(x) > observedTolerance`
    unfoldable pub is_off : W → Bool
    is_off x = d.gt (d.magnitude x) d.tenth

    -- The test of a capacity against the entry's: equal for cpu, near for the others.
    unfoldable pub is_capacity_off : Resource → Q → Q → Bool
    unfolding is_off deviation
    is_capacity_off cpu got want = q.below got want || q.below want got
    is_capacity_off memory got want = is_off (deviation got want)
    is_capacity_off ephemeral_storage got want = is_off (deviation got want)
    is_capacity_off pods got want = is_off (deviation got want)
    is_capacity_off (other name) got want = is_off (deviation got want)

    -- `math.Abs(ratio/referenceRatio-1) > observedTolerance`
    unfoldable pub is_ratio_off : Q → Q → Q → Q → Bool
    unfolding is_off
    is_ratio_off capacity allocatable ref_capacity ref_allocatable =
        let ratio = d.over (q.approximate allocatable) (q.approximate capacity) in
        let reference_ratio = d.over (q.approximate ref_allocatable) (q.approximate ref_capacity) in
        is_off (d.minus (d.over ratio reference_ratio) (d.of_count 1))

    -- The body of the loop of `checkObservation`, on one resource.
    unfoldable pub check_figures :
        ObservedCapacity Q → ObservedCapacity Q → Resource → Option ReportError
    unfolding figure is_capacity_off is_off deviation is_disk is_ratio_off
    check_figures ref o r = elim (o.capacity r) [
      | none ↦ none
      | some c ↦
          let want = figure (ref.capacity r) in
          let a = figure (o.allocatable r) in
          let want_a = figure (ref.allocatable r) in
          if is_capacity_off r c want
          then some (off_capacity r)
          else if is_off (deviation a want_a)
          then some (off_allocatable r)
          else if is_disk r && is_ratio_off c a want want_a
          then some (off_ratio r)
          else none
    ]

    unfoldable pub check_figures_on :
        ObservedCapacity Q → ObservedCapacity Q → List Resource → Option ReportError
    unfolding check_figures
    check_figures_on ref o [] = none
    check_figures_on ref o (r ∷ resources) =
        let rest = check_figures_on ref o resources in
        elim (check_figures ref o r) [ none ↦ rest | some e ↦ some e ]

    -- `checkObservation`
    unfoldable pub check_observation : ObservedCapacity Q → ObservedCapacity Q → Option ReportError
    unfolding check_consistent check_figures_on
    check_observation ref o = elim (check_consistent o) [
      | some e ↦ some e
      | none ↦ check_figures_on ref o generalizable_resources
    ]
