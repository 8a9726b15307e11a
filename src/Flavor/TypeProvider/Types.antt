-- ===== src/Flavor/TypeProvider/Types.antt =====
-- pkg/providers/instancetype/instancetype.go: the instance types that the provider builds.
use karpenter_provider_cleve.Base.{
  ℕ, zero, suc, ◌+◌, ◌/◌, ◌%◌, Bool, true, false, Option, none, some, List, [], ◌∷◌, ◌++◌, Text,
  codes, if◌then◌else◌, ltb, map,
}
use karpenter_provider_cleve.Flavor.Numbers.{Doubles, memory, ResourceList, Overhead, Quantities}
use karpenter_provider_cleve.Flavor.Price.{sizing_by_name, relative_price}
use karpenter_provider_cleve.Flavor.Overrides.{Flavor}
use karpenter_provider_cleve.Flavor.Reports.{
  delete_disk, set_disk, figure, static_capacity, static_overhead,
}
use karpenter_provider_cleve.Flavor.TypeProvider.{
  TypeProvider, is_ready, served_in, static_allocatable,
}

-- A requirement whose operator is In, of one value: its label and the value.
abbrev pub Requirement : Type 0
Requirement = Text × Text

-- cloudprovider.InstanceType, with its one offering
pub record InstanceType (Q W : Type 0) : Type 0 where
  pub name : Text
  pub requirements : List Requirement
  pub offering_requirements : List Requirement
  pub price : W
  pub is_available : Bool
  pub capacity : ResourceList Q
  pub overhead : Overhead Q

-- The digits of `fmt.Sprint`, of an int64 that is not negative, which has at most 19.
unfoldable pub sprint_on : ℕ → ℕ → Text
sprint_on zero n = []
sprint_on (suc fuel) n =
    let rest = sprint_on fuel (n / 10) in
    if ltb n 10 then (48 + n) ∷ [] else rest ++ ((48 + n % 10) ∷ [])

abbrev pub sprint : ℕ → Text
sprint = sprint_on 20

module _ {Q W : Type 0} (q : Quantities Q W) (d : Doubles W) where
  -- The requirements of `newInstanceTypeLocked`.
  unfoldable pub type_requirements : Text → Flavor W → List Requirement
  unfolding sprint_on
  type_requirements region f =
      (codes "node.kubernetes.io/instance-type", f.name)
      ∷ (codes "kubernetes.io/arch", codes "amd64")
      ∷ (codes "kubernetes.io/os", codes "linux")
      ∷ (codes "topology.kubernetes.io/region", region)
      ∷ (codes "topology.kubernetes.io/zone", region)
      ∷ (codes "karpenter.sh/capacity-type", codes "on-demand")
      ∷ (codes "clever-cloud.com/flavor", f.name)
      ∷ (codes "clever-cloud.com/cluster-node-role", codes "worker")
      ∷ (codes "karpenter.clever-cloud.com/instance-cpu", sprint f.cpu)
      ∷ (codes "karpenter.clever-cloud.com/instance-memory", sprint f.memory_ki)
      ∷ []

  unfoldable pub offering_requirements_in : Text → List Requirement
  offering_requirements_in region =
      (codes "karpenter.sh/capacity-type", codes "on-demand")
      ∷ (codes "topology.kubernetes.io/region", region)
      ∷ (codes "topology.kubernetes.io/zone", region)
      ∷ []

  -- An overhead that has a reserve of the kubelet's alone.
  unfoldable pub kube_overhead : ResourceList Q → Overhead Q
  kube_overhead l = record {
    kube_reserved = l;
    system_reserved = λ r. none;
    eviction_threshold = λ r. none;
  }

  -- A capacity and its overhead, under the observations of the flavor.
  unfoldable pub observed_profile : TypeProvider Q W → Flavor W → ResourceList Q × Overhead Q
  unfolding static_capacity static_overhead static_allocatable kube_overhead
  observed_profile p f = elim (p.observed f.name) [
    | none ↦ (static_capacity q f, static_overhead q)
    | some o ↦
        let allocatable = q.assign (static_allocatable q d f) o.allocatable in
        let capacity = q.assign (static_capacity q f) o.capacity in
        (capacity, kube_overhead (q.subtract capacity allocatable))
  ]

  -- The same, under the disk reference.
  unfoldable pub disk_profile :
      TypeProvider Q W → ResourceList Q × Overhead Q → ResourceList Q × Overhead Q
  unfolding set_disk kube_overhead
  disk_profile p (capacity, overhead) = elim p.ephemeral_storage_reference [
    | none ↦ (capacity, overhead)
    | some disk ↦
        let allocatable = set_disk disk.allocatable (q.subtract capacity (q.total overhead)) in
        let capacity' = set_disk disk.capacity capacity in
        (capacity', kube_overhead (q.subtract capacity' allocatable))
  ]

  -- `newInstanceTypeLocked`
  unfoldable pub new_instance_type : TypeProvider Q W → Flavor W → InstanceType Q W
  unfolding type_requirements offering_requirements_in observed_profile disk_profile
  new_instance_type p f =
      let profile = disk_profile p (observed_profile p f) in
      record {
        name = f.name;
        requirements = type_requirements p.region f;
        offering_requirements = offering_requirements_in p.region;
        price = f.price;
        is_available = true;
        capacity = profile.0;
        overhead = profile.1;
      }

  -- `List`
  unfoldable pub list_types : TypeProvider Q W → List (InstanceType Q W)
  unfolding new_instance_type
  list_types p = map (new_instance_type p) p.flavors

  -- The body of the loop of `ListForProvisioning`, where the disk is not ready.
  unfoldable pub without_disk_guarantee : InstanceType Q W → InstanceType Q W
  unfolding set_disk delete_disk
  without_disk_guarantee it = record it {
    capacity = set_disk q.nought it.capacity;
    overhead = record {
      kube_reserved = delete_disk it.overhead.kube_reserved;
      system_reserved = delete_disk it.overhead.system_reserved;
      eviction_threshold = delete_disk it.overhead.eviction_threshold;
    };
  }

  -- `ListForProvisioning`
  unfoldable pub list_for_provisioning : TypeProvider Q W → List (InstanceType Q W) × Bool
  unfolding is_ready list_types without_disk_guarantee
  list_for_provisioning p =
      if is_ready q d p
      then (list_types p, true)
      else (map without_disk_guarantee (list_types p), false)

  -- `Get`; `none` is ErrUnknownFlavor.
  unfoldable pub get : TypeProvider Q W → Text → Option (InstanceType Q W)
  unfolding served_in new_instance_type
  get p flavor = elim (served_in q d p.flavors flavor) [
    | none ↦ none
    | some f ↦ some (new_instance_type p f)
  ]

  -- The flavor that `Synthesize` describes.
  unfoldable pub synthesized_flavor : Text → Flavor W
  unfolding sizing_by_name relative_price
  synthesized_flavor flavor = elim (sizing_by_name flavor) [
    | none ↦ record { name = flavor; cpu = 0; memory_ki = 0; price = d.of_count 0 }
    | some s ↦ record {
      name = flavor;
      cpu = s.cpu;
      memory_ki = s.memory_ki;
      price = relative_price d s.cpu s.memory_ki;
    }
  ]

  -- `Synthesize`
  unfoldable pub synthesize : TypeProvider Q W → Text → InstanceType Q W
  unfolding synthesized_flavor new_instance_type figure kube_overhead
  synthesize p flavor =
      let it = new_instance_type p (synthesized_flavor flavor) in
      if q.is_zero (figure q (it.capacity memory))
      then record it { overhead = kube_overhead (λ r. none) }
      else it
