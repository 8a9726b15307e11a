-- ===== src/Tests/Machines.antt =====
-- The theorems on the capacity controllers and on the cloud provider, on concrete inputs.
use karpenter_provider_cleve.Base.{ℕ, ◌≡◌, refl, ◌⊎◌, inr, true, false, none, some, [], ◌∷◌, codes}
use karpenter_provider_cleve.Flavor.Numbers.{
  cpu, memory, ephemeral_storage, pods, other, ResourceList, Overhead,
}
use karpenter_provider_cleve.Flavor.Reports.{figure}
use karpenter_provider_cleve.Flavor.TypeProvider.{
  TypeProvider, new_provider, require_reference, normalized,
}
use karpenter_provider_cleve.Flavor.TypeProvider.Types.{InstanceType}
use karpenter_provider_cleve.Api.NodeGroup.{NodeGroup}
use karpenter_provider_cleve.Provider.Identity.{value_of}
use karpenter_provider_cleve.Controllers.Reads.{got, nothing, broken}
use karpenter_provider_cleve.Controllers.ProviderId.{node_group_node_label}
use karpenter_provider_cleve.Controllers.InstanceTypeCapacity as Capacity
use karpenter_provider_cleve.Controllers.InstanceTypeCapacity.Trust.{IsTrusted, reconcile-IsTrusted}
use karpenter_provider_cleve.Controllers.EphemeralStorage as Storage
use karpenter_provider_cleve.Controllers.EphemeralStorage.Offers.{
  is_reference, Withdrawn, Offered, reconcile-offers,
}
use karpenter_provider_cleve.CloudProvider.Snapshot.{
  is_negative, snapshot, allocatable, disk_snapshot_annotations, read_disk_snapshot,
}
use karpenter_provider_cleve.CloudProvider.Snapshot.RoundTrip.{
  read_disk_snapshot-disk_snapshot_annotations,
}
use karpenter_provider_cleve.Tests.Fixtures.{group_with, ready_condition}
use karpenter_provider_cleve.Tests.Arithmetic.{counts}
use karpenter_provider_cleve.Tests.Quantities.{
  Difference, differences, differences-IsOrdered, differences-IsPointwise, differences-IsPrinted,
}

abbrev started : TypeProvider Difference ℕ
started = new_provider differences counts (codes "par") [] []

abbrev required : TypeProvider Difference ℕ
required = require_reference differences counts started

-- A disk of some size, and nothing else.
abbrev disk : ℕ → ResourceList Difference
disk n cpu = none
disk n memory = none
disk n ephemeral_storage = some (n, 0)
disk n pods = none
disk n (other name) = none

abbrev host : Storage.HostNode Difference
host = record { deleted = none; capacity = disk 100; allocatable = disk 90 }

abbrev watching : Storage.State Difference ℕ
watching = record {
  provider = required;
  ready_gauge = 0;
  capacity_gauge = 0;
  allocatable_gauge = 0;
}

reconcile-offers_example :
    (got host ≡ broken
      → Storage.reconcile differences counts (codes "n") (codes "n") (got host) watching
        ≡ (false, watching))
    × (got host ≡ nothing
        → Withdrawn differences counts
            (Storage.reconcile differences counts (codes "n") (codes "n") (got host) watching))
    × ((node : Storage.HostNode Difference)
        → got host ≡ got node
        → (is_reference differences counts node ≡ false
            → Withdrawn differences counts
                (Storage.reconcile differences counts (codes "n") (codes "n") (got host) watching))
          × (is_reference differences counts node ≡ true
              → Offered differences counts
                  (figure differences (node.capacity ephemeral_storage))
                  (figure differences (node.allocatable ephemeral_storage))
                  (Storage.reconcile differences counts
                    (codes "n")
                    (codes "n")
                    (got host)
                    watching)))
unfolding require_reference new_provider
reconcile-offers_example =
    reconcile-offers differences counts (codes "n") (codes "n") (got host) watching
      differences-IsPointwise (inr refl) refl

-- A worker of the group c1, of the flavor S, and its figures.
abbrev figures : ℕ → ResourceList Difference
figures m cpu = some (8, 0)
figures m memory = some (m, 0)
figures m ephemeral_storage = none
figures m pods = none
figures m (other name) = none

abbrev worker : Capacity.ReportingNode Difference
worker = record {
  name = codes "c1-node0";
  labels =
      (codes "clever-cloud.com/flavor", codes "S")
      ∷ (node_group_node_label, codes "c1")
      ∷ (codes "clever-cloud.com/cluster-node-role", codes "worker")
      ∷ [];
  capacity = figures 11_000_000_000;
  allocatable = figures 10_000_000_000;
}

abbrev up : NodeGroup
up = group_with (ready_condition ∷ [])

abbrev cluster : Capacity.World Difference
cluster = record { node = got worker; group = λ name. got up; now = 7 }

abbrev recording : Capacity.State Difference ℕ
recording = record { provider = started; rejections = 0; rejection_logged = []; drift_logged = [] }

reconcile-IsTrusted_example :
    ((Capacity.reconcile differences counts cluster recording).1.provider ≡ recording.provider)
    ⊎ ((node : Capacity.ReportingNode Difference) × (ng : NodeGroup) × (cluster.node ≡ got node)
        × (Capacity.is_worker_with_capacity differences counts node ≡ true)
        × (cluster.group (value_of node.labels node_group_node_label) ≡ got ng)
        × IsTrusted differences counts recording
            (Capacity.reconcile differences counts cluster recording).1
            node
            ng)
reconcile-IsTrusted_example = reconcile-IsTrusted differences counts cluster recording

-- A type with a disk of 100 bytes, 90 of them for pods.
abbrev nothing_reserved : ResourceList Difference
nothing_reserved r = none

abbrev ten_reserved : Overhead Difference
ten_reserved = record {
  kube_reserved = disk 10;
  system_reserved = nothing_reserved;
  eviction_threshold = nothing_reserved;
}

abbrev with_disk : InstanceType Difference ℕ
with_disk = record {
  name = codes "S";
  requirements = [];
  offering_requirements = [];
  price = 1;
  is_available = true;
  capacity = disk 100;
  overhead = ten_reserved;
}

read_disk_snapshot-disk_snapshot_annotations_example :
    read_disk_snapshot differences counts (disk_snapshot_annotations differences counts with_disk)
    ≡ snapshot (normalized differences counts (100, 0) (100, 10))
unfolding is_negative figure allocatable
read_disk_snapshot-disk_snapshot_annotations_example =
    read_disk_snapshot-disk_snapshot_annotations differences counts with_disk differences-IsOrdered
      differences-IsPrinted (record { not_negative = refl; at_least = refl; at_most = refl })
      (record { not_negative = refl; at_least = refl; at_most = refl }) refl refl
