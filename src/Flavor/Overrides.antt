-- ===== src/Flavor/Overrides.antt =====
-- pkg/providers/instancetype/instancetype.go: `ParseFlavorOverrides`, `ApplyOverrides` and
-- `LoadFlavorsOrDegrade`. The file and its YAML are read by libraries: what they return is an argument.
pub mod Served
pub mod NewNames
pub mod Validated
use karpenter_provider_cleve.Base.{
  ℕ, ◌+◌, ◌<◌, ◌≡◌, Bool, true, false, not, ◌&&◌, ◌||◌, Option, none, some, List, [], ◌∷◌, ◌++◌,
  Text, text_eq, Map, lookup, insert, is_empty, any, is_some, if◌then◌else◌, ltb, map,
}
use karpenter_provider_cleve.Flavor.Sizing.{Sizing}
use karpenter_provider_cleve.Flavor.Numbers.{Signed, nonneg, negative, Doubles}
use karpenter_provider_cleve.Flavor.Price.{flavor_sizing, sizing_by_name, relative_price}
use karpenter_provider_cleve.Flavor.Names.{is_flavor_name}

pub record Flavor (W : Type 0) : Type 0 where
  pub name : Text
  pub cpu : ℕ
  pub memory_ki : ℕ
  pub price : W

-- A field that is not set is `none`, the Go nil.
pub record FlavorOverride : Type 0 where
  pub name : Text
  pub cpu : Option Signed
  pub memory_ki : Option Signed

-- The errors of `ParseFlavorOverrides`, in the order of its tests.
pub data OverrideError : Type 0 where
  not_yaml empty_list : OverrideError
  empty_name : ℕ → OverrideError
  bad_name : Text → OverrideError
  duplicate_name : Text → OverrideError
  bad_cpu : Text → OverrideError
  bad_memory_ki : Text → OverrideError
  unsized : Text → OverrideError

-- the number, where it is above zero
unfoldable pub positive : Signed → Option ℕ
positive (negative n) = none
positive (nonneg n) = if ltb 0 n then some n else none

-- `o.CPU != nil && *o.CPU <= 0`
unfoldable pub is_set_badly : Option Signed → Bool
unfolding positive
is_set_badly none = false
is_set_badly (some n) = not (is_some (positive n))

-- The tests that the loop makes of one override; `seen` holds the names before it.
unfoldable pub check_override : ℕ → List Text → FlavorOverride → Option OverrideError
unfolding is_flavor_name is_set_badly sizing_by_name any
check_override i seen o =
    if is_empty o.name
    then some (empty_name i)
    else if not (is_flavor_name o.name)
    then some (bad_name o.name)
    else if any (text_eq o.name) seen
    then some (duplicate_name o.name)
    else if is_set_badly o.cpu
    then some (bad_cpu o.name)
    else if is_set_badly o.memory_ki
    then some (bad_memory_ki o.name)
    else if is_some (sizing_by_name o.name)
    then none
    else if is_some o.cpu && is_some o.memory_ki
    then none
    else some (unsized o.name)

-- The loop; `none` where it ends.
unfoldable pub check_overrides : ℕ → List Text → List FlavorOverride → Option OverrideError
unfolding check_override
check_overrides i seen [] = none
check_overrides i seen (o ∷ overrides) =
    let rest = check_overrides (i + 1) (o.name ∷ seen) overrides in
    elim (check_override i seen o) [ none ↦ rest | some error ↦ some error ]

-- What a parse returns: the overrides or an error.
pub data Parsed : Type 0 where
  parsed : List FlavorOverride → Parsed
  invalid : OverrideError → Parsed

-- `ParseFlavorOverrides` on what the strict YAML decoder returns; `none` is its error.
unfoldable pub parse_flavor_overrides : Option (List FlavorOverride) → Parsed
unfolding check_overrides
parse_flavor_overrides none = invalid not_yaml
parse_flavor_overrides (some []) = invalid empty_list
parse_flavor_overrides (some (o ∷ overrides)) = elim (check_overrides 0 [] (o ∷ overrides)) [
  | none ↦ parsed (o ∷ overrides)
  | some error ↦ invalid error
]

-- What `LoadFlavorsFromFile` reads: an error, or the decoder's result.
abbrev pub FlavorsFile : Type 0
FlavorsFile = Option (Option (List FlavorOverride))

-- `LoadFlavorsOrDegrade`: the overrides, and the value of the gauge `flavors_config_invalid`. A path of
-- `none` is the empty one.
unfoldable pub load_flavors_or_degrade : Option FlavorsFile → List FlavorOverride × ℕ
unfolding parse_flavor_overrides
load_flavors_or_degrade none = ([], 0)
load_flavors_or_degrade (some none) = ([], 1)
load_flavors_or_degrade (some (some decoded)) = elim (parse_flavor_overrides decoded) [
  | parsed overrides ↦ (overrides, 0)
  | invalid error ↦ ([], 1)
]

-- `overrideByName`: the last override of a name
unfoldable pub override_by_name : List FlavorOverride → Map FlavorOverride → Map FlavorOverride
override_by_name [] m = m
override_by_name (o ∷ overrides) m = override_by_name overrides (insert o.name o m)

-- `f.CPU = *o.CPU` where it is set
unfoldable pub overlay : Option Signed → ℕ → Signed
overlay none n = nonneg n
overlay (some m) n = m

module _ {W : Type 0} (d : Doubles W) where
  -- `byName`, the last flavor of a name, and the names in the order in which they first come
  unfoldable pub by_name : List (Flavor W) → Map (Flavor W) → Map (Flavor W)
  by_name [] m = m
  by_name (f ∷ flavors) m = by_name flavors (insert f.name f m)

  unfoldable pub base_order : List (Flavor W) → Map (Flavor W) → List Text
  base_order [] m = []
  base_order (f ∷ flavors) m =
      let rest = base_order flavors (insert f.name f m) in
      if is_some (lookup f.name m) then rest else f.name ∷ rest

  -- The names that the loop over the overrides appends to the order.
  unfoldable pub override_order : Map (Flavor W) → List FlavorOverride → List Text
  override_order m [] = []
  override_order m (o ∷ overrides) =
      if is_some (lookup o.name m)
      then override_order m overrides
      else o.name ∷ override_order m overrides

  -- The cpu and the memory of the base entry, or else the seed's, or else zero.
  unfoldable pub base_sizing : Map (Flavor W) → Text → Sizing
  unfolding sizing_by_name
  base_sizing m name = elim (lookup name m) [
    | some f ↦ record { cpu = f.cpu; memory_ki = f.memory_ki }
    | none ↦ elim (sizing_by_name name) [ some s ↦ s | none ↦ record { cpu = 0; memory_ki = 0 } ]
  ]

  -- `f.CPU <= 0 || f.MemoryKi <= 0`, and the entry that is served otherwise
  unfoldable pub serve : Text → Option ℕ → Option ℕ → Option (Flavor W)
  unfolding relative_price
  serve name (some cpu) (some memory_ki) = some (record {
    name = name;
    cpu = cpu;
    memory_ki = memory_ki;
    price = relative_price d cpu memory_ki;
  })
  serve name cpu memory_ki = none

  -- The body of the last loop of `ApplyOverrides`; `none` is a name that is skipped.
  unfoldable pub resolve : Map (Flavor W) → Map FlavorOverride → Text → Option (Flavor W)
  unfolding base_sizing serve overlay positive
  resolve m overrides name =
      let s = base_sizing m name in
      elim (lookup name overrides) [
        | none ↦ serve name (positive (nonneg s.cpu)) (positive (nonneg s.memory_ki))
        | some o ↦
            serve name (positive (overlay o.cpu s.cpu)) (positive (overlay o.memory_ki s.memory_ki))
      ]

  -- The catalogue and the names that are skipped.
  pub record Applied : Type 0 where
    pub flavors : List (Flavor W)
    pub skipped : List Text

  unfoldable pub resolve_all : Map (Flavor W) → Map FlavorOverride → List Text → Applied
  unfolding resolve
  resolve_all m overrides [] = record { flavors = []; skipped = [] }
  resolve_all m overrides (name ∷ names) =
      let rest = resolve_all m overrides names in
      elim (resolve m overrides name) [
        | some f ↦ record rest { flavors = f ∷ rest.flavors }
        | none ↦ record rest { skipped = name ∷ rest.skipped }
      ]

  -- `ApplyOverrides`
  unfoldable pub apply_overrides : List (Flavor W) → List FlavorOverride → Applied
  unfolding by_name base_order override_order override_by_name resolve_all
  apply_overrides base overrides =
      let m = by_name base [] in
      resolve_all m (override_by_name overrides [])
        (base_order base [] ++ override_order m overrides)

  -- The flavors of the sizing table, priced.
  unfoldable pub flavors_of : Map Sizing → List (Flavor W)
  unfolding relative_price
  flavors_of [] = []
  flavors_of ((name, s) ∷ m) =
      record {
        name = name;
        cpu = s.cpu;
        memory_ki = s.memory_ki;
        price = relative_price d s.cpu s.memory_ki;
      }
      ∷ flavors_of m

  -- `DefaultFlavors`
  unfoldable pub default_flavors : List (Flavor W)
  unfolding flavors_of
  default_flavors = flavors_of flavor_sizing
