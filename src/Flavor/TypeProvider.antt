-- ===== src/Flavor/TypeProvider.antt =====
-- pkg/providers/instancetype/instancetype.go: `Provider`, the catalogue as nodes and the disk reference
-- refine it. The clause of each operation is what it does under `mu`.
pub mod Reporting
pub mod Types
pub mod States
pub mod Merging
pub mod Soundness
pub mod Disk
pub mod Kept
pub mod Recording
use karpenter_provider_cleve.Base.{
  ℕ, zero, suc, ◌+◌, ◌/◌, ◌%◌, Bool, true, false, not, ◌&&◌, ◌||◌, Option, none, some, List, [],
  ◌∷◌, ◌++◌, Text, text_eq, codes, lookup, is_empty, is_some, if◌then◌else◌, ltb, map,
}
use karpenter_provider_cleve.Flavor.Sizing.{Sizing}
use karpenter_provider_cleve.Flavor.Numbers.{
  Signed, nonneg, negative, Doubles, cpu, memory, ephemeral_storage, ResourceList, Overhead,
  Quantities,
}
use karpenter_provider_cleve.Flavor.Price.{sizing_by_name, relative_price}
use karpenter_provider_cleve.Flavor.Overrides.{
  Flavor, FlavorOverride, apply_overrides, default_flavors, flavors_of,
}
use karpenter_provider_cleve.Flavor.Reports.{
  ObservedCapacity, ReportError, filter_generalizable, delete_disk, set_disk, without_disk,
  legacy_ephemeral_storage, legacy_ephemeral_allocatable, figure, static_capacity, static_overhead,
  min_merge, check_consistent, deviation, check_observation,
}

-- `ephemeralStorageProfile`
pub record DiskProfile (Q : Type 0) : Type 0 where
  pub capacity : Q
  pub allocatable : Q

-- `Provider`
pub record TypeProvider (Q W : Type 0) : Type 0 where
  pub region : Text
  pub flavors : List (Flavor W)
  pub observed : Text → Option (ObservedCapacity Q)
  pub ephemeral_storage_required : Bool
  pub ephemeral_storage_ready : Bool
  pub ephemeral_storage_reference : Option (DiskProfile Q)

-- What `SetEphemeralStorageReference` returns: whether it changed, or which test refused it.
pub data SetResult : Type 0 where
  set : Bool → SetResult
  bad_capacity bad_allocatable allocatable_exceeds not_enabled : SetResult

module _ {Q W : Type 0} (q : Quantities Q W) (d : Doubles W) where
  -- `NewProvider`
  unfoldable pub new_provider : Text → List (Flavor W) → List FlavorOverride → TypeProvider Q W
  unfolding apply_overrides default_flavors
  new_provider region base overrides =
      let from = if is_empty base then default_flavors d else base in
      record {
        region = region;
        flavors = (apply_overrides d from overrides).flavors;
        observed = λ flavor. none;
        ephemeral_storage_required = false;
        ephemeral_storage_ready = false;
        ephemeral_storage_reference = none;
      }

  -- `RequireEphemeralStorageReference`
  unfoldable pub require_reference : TypeProvider Q W → TypeProvider Q W
  unfolding without_disk
  require_reference p = if p.ephemeral_storage_required then p else record p {
    ephemeral_storage_required = true;
    observed = λ flavor. elim (p.observed flavor) [ none ↦ none | some o ↦ some (without_disk o) ];
  }

  -- `EphemeralStorageReady`
  unfoldable pub is_ready : TypeProvider Q W → Bool
  is_ready p = not p.ephemeral_storage_required || p.ephemeral_storage_ready

  -- `InvalidateEphemeralStorageReference`
  unfoldable pub invalidate_reference : TypeProvider Q W → TypeProvider Q W
  invalidate_reference p = record p { ephemeral_storage_ready = false }

  -- `bytes <= 0`
  unfoldable pub is_positive : Signed → Bool
  is_positive (nonneg n) = ltb 0 n
  is_positive (negative n) = false

  -- `Cmp` is not zero.
  unfoldable pub differs : Q → Q → Bool
  differs x y = q.below x y || q.below y x

  -- The quantity is a positive number of whole bytes.
  unfoldable pub is_whole : Q → Bool
  unfolding is_positive differs
  is_whole x = is_positive (q.value x) && not (differs x (q.of_int (q.value x)))

  -- `changed`
  unfoldable pub changes : TypeProvider Q W → DiskProfile Q → Bool
  unfolding differs
  changes p profile = not p.ephemeral_storage_ready || (elim p.ephemeral_storage_reference [
    | none ↦ true
    | some previous ↦
        differs previous.capacity profile.capacity
        || differs previous.allocatable profile.allocatable
  ])

  -- The quantities as whole bytes.
  unfoldable pub normalized : Q → Q → DiskProfile Q
  normalized capacity allocatable = record {
    capacity = q.of_int (q.value capacity);
    allocatable = q.of_int (q.value allocatable);
  }

  -- `SetEphemeralStorageReference`
  unfoldable pub set_reference : TypeProvider Q W → Q → Q → TypeProvider Q W × SetResult
  unfolding is_whole changes normalized
  set_reference p capacity allocatable =
      if not (is_whole capacity)
      then (p, bad_capacity)
      else if not (is_whole allocatable)
      then (p, bad_allocatable)
      else if q.below capacity allocatable
      then (p, allocatable_exceeds)
      else if not p.ephemeral_storage_required
      then (p, not_enabled)
      else (
        record p {
          ephemeral_storage_reference = some (normalized capacity allocatable);
          ephemeral_storage_ready = true;
        },
        set (changes p (normalized capacity allocatable)),
      )

  -- `served`
  unfoldable pub served_in : List (Flavor W) → Text → Option (Flavor W)
  served_in [] flavor = none
  served_in (f ∷ flavors) flavor =
      if text_eq f.name flavor then some f else served_in flavors flavor

  -- `Sizing`
  unfoldable pub sizing : TypeProvider Q W → Text → Option Sizing
  unfolding served_in sizing_by_name
  sizing p flavor = elim (served_in p.flavors flavor) [
    | some f ↦ some (record { cpu = f.cpu; memory_ki = f.memory_ki })
    | none ↦ sizing_by_name flavor
  ]

  -- What the static figures leave to pods: `resources.Subtract(capacity, overhead.Total())`.
  unfoldable pub static_allocatable : Flavor W → ResourceList Q
  unfolding static_capacity static_overhead
  static_allocatable f = q.subtract (static_capacity q f) (q.total (static_overhead q))
