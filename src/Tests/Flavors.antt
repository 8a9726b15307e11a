-- ===== src/Tests/Flavors.antt =====
-- The theorems on the catalogue of flavors, on concrete inputs.
use karpenter_provider_cleve.Base.{
  text_eq, lookup, ℕ, ◌≡◌, refl, false, none, some, List, [], ◌∷◌, ◌++◌, codes, map, arith, All,
  IsIn,
}
use karpenter_provider_cleve.Flavor.Numbers.{
  nonneg, cpu, memory, ephemeral_storage, pods, other, ResourceList,
}
use karpenter_provider_cleve.Flavor.Price.{relative_price, relative_price_mono}
use karpenter_provider_cleve.Flavor.Overrides.{
  Flavor, FlavorOverride, parse_flavor_overrides, apply_overrides, default_flavors,
}
use karpenter_provider_cleve.Flavor.Overrides.Served.{IsPriced}
use karpenter_provider_cleve.Flavor.Overrides.NewNames.{built_in_names, new_names, file_names}
use karpenter_provider_cleve.Flavor.Overrides.Validated.{parse_flavor_overrides-served}
use karpenter_provider_cleve.Flavor.TypeProvider.{
  TypeProvider, new_provider, require_reference, set_reference,
}
use karpenter_provider_cleve.Flavor.TypeProvider.Reporting.{previous}
use karpenter_provider_cleve.Flavor.TypeProvider.States.{IsSound, starts, steps, requires, sets}
use karpenter_provider_cleve.Flavor.TypeProvider.Soundness.{Reachable-IsSound}
use karpenter_provider_cleve.Flavor.TypeProvider.Recording.{
  Report, record_all, kept_all, capacities, allocatables, figures, record_all-IsLeast,
}
use karpenter_provider_cleve.Flavor.Reports.Least.{IsLeast}
use karpenter_provider_cleve.Tests.Arithmetic.{counts, counts-IsMonotone}
use karpenter_provider_cleve.Tests.Quantities.{Difference, differences, differences-IsOrdered}

relative_price_mono_example :
    counts.gt (relative_price counts 4 3_715_344) (relative_price counts 6 7_553_664) ≡ false
relative_price_mono_example =
    relative_price_mono counts 4 6 3_715_344 7_553_664 counts-IsMonotone (omega arith) (omega arith)

-- A larger S, and a flavor that the seed does not know.
abbrev overrides : List FlavorOverride
overrides =
    record { name = codes "S"; cpu = none; memory_ki = some (nonneg 12_000_000) }
    ∷ record { name = codes "2XL"; cpu = some (nonneg 20); memory_ki = some (nonneg 38_000_000) }
    ∷ []

parse_flavor_overrides-served_example :
    ((apply_overrides counts (default_flavors counts) overrides).skipped ≡ [])
    × (map
          (λ (f : Flavor ℕ). f.name)
          (apply_overrides counts (default_flavors counts) overrides).flavors
        ≡ built_in_names ++ new_names (file_names overrides))
    × All
        (λ name. IsIn name (
          map
            (λ (f : Flavor ℕ). f.name)
            (apply_overrides counts (default_flavors counts) overrides).flavors))
        (file_names overrides)
    × All (IsPriced counts) (apply_overrides counts (default_flavors counts) overrides).flavors
unfolding parse_flavor_overrides lookup text_eq
parse_flavor_overrides-served_example =
    parse_flavor_overrides-served counts (some overrides) overrides refl

abbrev started : TypeProvider Difference ℕ
started = new_provider differences counts (codes "par") [] []

abbrev required : TypeProvider Difference ℕ
required = require_reference differences counts started

abbrev referenced : TypeProvider Difference ℕ
referenced = (set_reference differences counts required (100, 0) (90, 0)).0

Reachable-IsSound_example : IsSound differences counts referenced
Reachable-IsSound_example =
    Reachable-IsSound differences counts (codes "par") [] [] referenced differences-IsOrdered (
      steps required referenced (steps started required starts (requires started))
        (sets required (100, 0) (90, 0)))

-- A report of these figures of the cpu and the memory.
abbrev listing : ℕ → ℕ → ResourceList Difference
listing c m cpu = some (c, 0)
listing c m memory = some (m, 0)
listing c m ephemeral_storage = none
listing c m pods = none
listing c m (other name) = none

abbrev reports : List (Report differences counts)
reports = (listing 4 90, listing 4 80) ∷ (listing 4 95, listing 4 70) ∷ []

record_all-IsLeast_example :
    IsLeast differences
      ((previous differences counts
          (record_all differences counts started (codes "X") reports)
          (codes "X")).capacity
        memory)
      (figures differences counts capacities memory
        (kept_all differences counts started (codes "X") reports))
    × IsLeast differences
        ((previous differences counts
            (record_all differences counts started (codes "X") reports)
            (codes "X")).allocatable
          memory)
        (figures differences counts allocatables memory
          (kept_all differences counts started (codes "X") reports))
unfolding new_provider
record_all-IsLeast_example =
    record_all-IsLeast differences counts started (codes "X") reports memory differences-IsOrdered
      refl
