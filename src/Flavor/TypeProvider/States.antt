-- ===== src/Flavor/TypeProvider/States.antt =====
-- The states that a provider of instance types reaches, and what is said of each.
use karpenter_provider_cleve.Base.{◌≡◌, true, false, none, some, List, Text, is_some}
use karpenter_provider_cleve.Flavor.Numbers.{Doubles, ephemeral_storage, ResourceList, Quantities}
use karpenter_provider_cleve.Flavor.Overrides.{Flavor, FlavorOverride}
use karpenter_provider_cleve.Flavor.Reports.{ObservedCapacity, check_consistent}
use karpenter_provider_cleve.Flavor.TypeProvider.{
  DiskProfile, TypeProvider, new_provider, require_reference, invalidate_reference, set_reference,
}
use karpenter_provider_cleve.Flavor.TypeProvider.Reporting.{record_observed_capacity}

module _ {Q W : Type 0} (q : Quantities Q W) (d : Doubles W) where
  -- One call of an operation that writes the state.
  pub data Step : TypeProvider Q W → TypeProvider Q W → Type 0 where
    requires : (p : TypeProvider Q W) → Step p (require_reference q d p)
    invalidates : (p : TypeProvider Q W) → Step p (invalidate_reference q d p)
    sets :
        (p : TypeProvider Q W) (capacity allocatable : Q)
        → Step p (set_reference q d p capacity allocatable).0
    records :
        (p : TypeProvider Q W) (flavor : Text) (capacity allocatable : ResourceList Q)
        → Step p (record_observed_capacity q d p flavor capacity allocatable).0

  pub data Reachable (region : Text) (base : List (Flavor W)) (overrides : List FlavorOverride)
      : TypeProvider Q W → Type 0 where
    starts : Reachable region base overrides (new_provider q d region base overrides)
    steps :
        (p p' : TypeProvider Q W)
        → Reachable region base overrides p
        → Step p p'
        → Reachable region base overrides p'

  abbrev pub HasNoDisk : ObservedCapacity Q → Type 0
  HasNoDisk o = (o.capacity ephemeral_storage ≡ none) × (o.allocatable ephemeral_storage ≡ none)

  -- What a provider keeps is consistent; where the disk is dynamic no observation carries one; a
  -- provider that is ready has a reference, whose allocatable is at most its capacity.
  pub record IsSound (p : TypeProvider Q W) : Type 0 where
    pub consistent :
        (flavor : Text) (o : ObservedCapacity Q)
        → p.observed flavor ≡ some o
        → check_consistent q o ≡ none
    pub no_disk :
        p.ephemeral_storage_required ≡ true
        → (flavor : Text) (o : ObservedCapacity Q) → p.observed flavor ≡ some o
        → HasNoDisk o
    pub enabled : is_some p.ephemeral_storage_reference ≡ true → p.ephemeral_storage_required ≡ true
    pub ready : p.ephemeral_storage_ready ≡ true → is_some p.ephemeral_storage_reference ≡ true
    pub within :
        (disk : DiskProfile Q)
        → p.ephemeral_storage_reference ≡ some disk
        → q.below disk.capacity disk.allocatable ≡ false
