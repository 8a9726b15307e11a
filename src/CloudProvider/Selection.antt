-- ===== src/CloudProvider/Selection.antt =====
-- pkg/cloudprovider/cloudprovider.go: the catalogue that the scheduler sees, and the flavor of a launch.
-- Requirements are karpenter-core's: whether they intersect, whether an offering is compatible and
-- whether requests fit are arguments.
pub mod Loop
pub mod Cheapest
use karpenter_provider_cleve.Base.{
  ℕ, ◌+◌, ◌<◌, Bool, true, false, not, ◌&&◌, ◌||◌, Option, none, some, List, [], ◌∷◌, Text,
  is_empty, is_some, map, if◌then◌else◌, ltb,
}
use karpenter_provider_cleve.Flavor.Numbers.{
  Signed, nonneg, negative, Doubles, ephemeral_storage, ResourceList, Quantities,
}
use karpenter_provider_cleve.Flavor.Reports.{figure}
use karpenter_provider_cleve.Flavor.TypeProvider.{TypeProvider, sizing}
use karpenter_provider_cleve.Flavor.TypeProvider.Types.{
  InstanceType, Requirement, list_for_provisioning,
}
use karpenter_provider_cleve.Provider.Backoff.{Backoff, unavailable}
use karpenter_provider_cleve.Controllers.Reads.{Answer, got, nothing, broken}
use karpenter_provider_cleve.CloudProvider.Outcome.{
  Reason, CloudError, insufficient_capacity, create_error, plain, disk_unready, disk_limited,
  node_pool_unread, no_flavor, Result, done, fails,
}
use karpenter_provider_cleve.CloudProvider.Snapshot.{allocatable}

-- karpenter-core's functions on the requirements R of a claim: `Intersects` returns nil, `Compatible`
-- keeps the offering, `Fits`.
pub record Scheduling (R Q : Type 0) : Type 0 where
  pub intersects : List Requirement → R → Bool
  pub is_compatible : List Requirement → R → Bool
  pub fits : ResourceList Q → ResourceList Q → Bool

-- The requirements, the requests and the NodePool's name of a claim that is to be launched; a claim
-- without that label has the empty name.
pub record Demand (R Q : Type 0) : Type 0 where
  pub requirements : R
  pub requests : ResourceList Q
  pub node_pool : Text

-- What the calls of `Unavailable` find, which read the clock and lock the state one by one, by flavor.
pub record View : Type 0 where
  pub now : Text → ℕ
  pub backoff : Text → Backoff

-- The type found so far, and how many would serve the claim were they available.
pub record Best (Q W : Type 0) : Type 0 where
  pub best : Option (InstanceType Q W)
  pub unavailable : ℕ

module _ {Q W : Type 0} (q : Quantities Q W) (d : Doubles W) where
  -- `nodeGroupProvider.Unavailable`, whose catalogue is the instance type provider
  unfoldable pub is_unavailable : TypeProvider Q W → View → Text → Bool
  unfolding sizing
  is_unavailable p v name = unavailable (sizing q d p) (v.now name) name (v.backoff name)

  -- The body of the loop of `instanceTypes`.
  unfoldable pub hold_out : TypeProvider Q W → View → InstanceType Q W → InstanceType Q W
  unfolding is_unavailable
  hold_out p v it = if is_unavailable p v it.name then record it { is_available = false } else it

  -- `instanceTypes`
  unfoldable pub instance_types : TypeProvider Q W → View → List (InstanceType Q W) × Bool
  unfolding list_for_provisioning hold_out
  instance_types p v =
      let listed = list_for_provisioning q d p in (map (hold_out p v) listed.0, listed.1)

  -- `hasDiskLimit`, of the pool's limits; no pool is none
  unfoldable pub has_disk_limit : Option (ResourceList Q) → Bool
  has_disk_limit none = false
  has_disk_limit (some limits) = is_some (limits ephemeral_storage)

  unfoldable pub withhold : InstanceType Q W → InstanceType Q W
  withhold it = record it { is_available = false }

  -- `GetInstanceTypes`
  unfoldable pub get_instance_types :
      TypeProvider Q W → View → Option (ResourceList Q) → List (InstanceType Q W)
  unfolding instance_types has_disk_limit withhold
  get_instance_types p v limits =
      let listed = instance_types p v in
      if not listed.1 && has_disk_limit limits then map withhold listed.0 else listed.0

  module _ {R : Type 0} (k : Scheduling R Q) where
    -- The requirements intersect, the requests fit and the offering is compatible.
    unfoldable pub serves : Demand R Q → InstanceType Q W → Bool
    unfolding allocatable
    serves demand it =
        k.intersects it.requirements demand.requirements
        && k.fits demand.requests (allocatable q d it)
        && k.is_compatible it.offering_requirements demand.requirements

    -- `best == nil || price < bestPrice`
    unfoldable pub is_better : InstanceType Q W → Option (InstanceType Q W) → Bool
    is_better it none = true
    is_better it (some best) = d.gt best.price it.price

    -- One turn of the loop of `resolveInstanceType`.
    unfoldable pub consider : Demand R Q → InstanceType Q W → Best Q W → Best Q W
    unfolding serves is_better
    consider demand it b =
        if not (serves demand it)
        then b
        else if not it.is_available
        then record b { unavailable = b.unavailable + 1 }
        else if is_better it b.best
        then record b { best = some it }
        else b

    unfoldable pub choose : Demand R Q → List (InstanceType Q W) → Best Q W → Best Q W
    unfolding consider
    choose demand [] b = b
    choose demand (it ∷ types) b = choose demand types (consider demand it b)

    -- `requested.Sign() > 0`, of a quantity that the claim may not have
    unfoldable pub requests_disk : Demand R Q → Bool
    unfolding figure
    requests_disk demand = q.below q.nought (figure q (demand.requests ephemeral_storage))

    -- The tests that precede the loop where the disk is not ready; the pool's answer is its limits.
    unfoldable pub check_disk_unready :
        Demand R Q → (Text → Answer (ResourceList Q)) → Option CloudError
    unfolding requests_disk has_disk_limit
    check_disk_unready demand pool =
        if requests_disk demand
        then some (plain disk_unready)
        else if is_empty demand.node_pool
        then none
        else elim (pool demand.node_pool) [
          | got limits ↦ if has_disk_limit (some limits) then some (plain disk_limited) else none
          | nothing ↦ some (create_error node_pool_unread)
          | broken ↦ some (create_error node_pool_unread)
        ]

    -- The end of `resolveInstanceType`.
    unfoldable pub chosen : Best Q W → Result (InstanceType Q W)
    chosen b = elim b.best [ some it ↦ done it | none ↦ fails (plain (no_flavor b.unavailable)) ]

    -- `resolveInstanceType`
    unfoldable pub resolve_instance_type :
        TypeProvider Q W
        → View
        → (Text → Answer (ResourceList Q))
        → Demand R Q
        → Result (InstanceType Q W)
    unfolding instance_types check_disk_unready choose chosen
    resolve_instance_type p v pool demand =
        let listed = instance_types p v in
        let found = chosen (choose demand listed.0 (record { best = none; unavailable = 0 })) in
        if listed.1
        then found
        else elim (check_disk_unready demand pool) [ some error ↦ fails error | none ↦ found ]
