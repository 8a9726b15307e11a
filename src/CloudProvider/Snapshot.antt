-- ===== src/CloudProvider/Snapshot.antt =====
-- pkg/cloudprovider/storage_snapshot.go: the disk that a NodeGroup was launched with, in its annotations.
pub mod RoundTrip
use karpenter_provider_cleve.Base.{
  ℕ, Bool, true, false, not, ◌&&◌, ◌||◌, Option, none, some, List, [], ◌∷◌, Text, codes, Map,
  lookup, is_some, if◌then◌else◌,
}
use karpenter_provider_cleve.Flavor.Numbers.{
  Signed, nonneg, negative, Doubles, ephemeral_storage, ResourceList, Quantities,
}
use karpenter_provider_cleve.Flavor.Reports.{figure}
use karpenter_provider_cleve.Flavor.TypeProvider.{DiskProfile, differs, normalized}
use karpenter_provider_cleve.Flavor.TypeProvider.Types.{InstanceType}
use karpenter_provider_cleve.Api.NodeGroup.{NodeGroup}
use karpenter_provider_cleve.Provider.Identity.{value_of}

abbrev pub disk_capacity_annotation : Text
disk_capacity_annotation = codes "karpenter.clever-cloud.com/ephemeral-storage-capacity"

abbrev pub disk_allocatable_annotation : Text
disk_allocatable_annotation = codes "karpenter.clever-cloud.com/ephemeral-storage-allocatable"

-- What a read of the snapshot returns: none, an error, or the disk (`diskSnapshot`).
pub data Snapshot (Q : Type 0) : Type 0 where
  no_snapshot invalid : Snapshot Q
  snapshot : DiskProfile Q → Snapshot Q

module _ {Q W : Type 0} (q : Quantities Q W) (d : Doubles W) where
  -- `it.Allocatable()`, as karpenter-core computes it
  unfoldable pub allocatable : InstanceType Q W → ResourceList Q
  allocatable it = q.subtract it.capacity (q.total it.overhead)

  -- `diskSnapshotAnnotations`
  unfoldable pub disk_snapshot_annotations : InstanceType Q W → Map Text
  unfolding allocatable figure
  disk_snapshot_annotations it =
      (disk_capacity_annotation, q.print (figure q (it.capacity ephemeral_storage)))
      ∷ (disk_allocatable_annotation, q.print (figure q (allocatable it ephemeral_storage)))
      ∷ []

  unfoldable pub is_negative : Signed → Bool
  is_negative (nonneg n) = false
  is_negative (negative n) = true

  -- The body of the loop over the two annotations; `none` is its error.
  unfoldable pub read_quantity : Text → Option Q
  unfolding is_negative differs
  read_quantity value = elim (q.try_parse value) [
    | none ↦ none
    | some x ↦
        if is_negative (q.value x) || differs q d x (q.of_int (q.value x))
        then none
        else some (q.of_int (q.value x))
  ]

  -- Both are zero or neither, and the allocatable is at most the capacity.
  unfoldable pub check_disk : Q → Q → Snapshot Q
  check_disk capacity allocatable =
      if (q.is_zero capacity && not (q.is_zero allocatable))
        || (not (q.is_zero capacity) && q.is_zero allocatable)
      then invalid
      else if q.below capacity allocatable
      then invalid
      else snapshot (record { capacity = capacity; allocatable = allocatable })

  unfoldable pub read_both : Option Q → Option Q → Snapshot Q
  unfolding check_disk
  read_both none y = invalid
  read_both (some x) none = invalid
  read_both (some x) (some y) = check_disk x y

  -- `readDiskSnapshot`, of the annotations; one that is missing is read as the empty string
  unfoldable pub read_disk_snapshot : Map Text → Snapshot Q
  unfolding value_of read_quantity read_both
  read_disk_snapshot annotations =
      if not (is_some (lookup disk_capacity_annotation annotations))
        && not (is_some (lookup disk_allocatable_annotation annotations))
      then no_snapshot
      else read_both (read_quantity (value_of annotations disk_capacity_annotation))
          (read_quantity (value_of annotations disk_allocatable_annotation))
