-- ===== src/Flavor/Overrides/NewNames.antt =====
-- pkg/providers/instancetype/instancetype.go, `ApplyOverrides`: the names that a file of overrides adds
-- to the built-in catalogue.
use karpenter_provider_cleve.Base.{
  ◌≡◌, refl, ap, subst, ◌∙◌, inl, inr, Bool, true, false, not, ◌||◌, List, [], ◌∷◌, ◌++◌, Text,
  text_eq, text_eq_iff, Map, lookup, lookup-insert, insert, is_some, any, if◌then◌else◌, map, arith,
  any_iff, IsIn, IsIn-append, Bool-cases,
}
use karpenter_provider_cleve.Flavor.Sizing.{Sizing}
use karpenter_provider_cleve.Flavor.Numbers.{Doubles}
use karpenter_provider_cleve.Flavor.Price.{flavor_sizing}
use karpenter_provider_cleve.Flavor.Overrides.{
  Flavor, FlavorOverride, by_name, override_order, flavors_of, default_flavors,
}

-- The names of the built-in catalogue, in its order.
abbrev pub built_in_names : List Text
built_in_names = map (λ (e : Text × Sizing). e.0) flavor_sizing

-- No built-in flavor has the name.
abbrev pub is_new : Text → Bool
is_new name = not (any (λ n. text_eq n name) built_in_names)

-- The names that no built-in flavor has, in their order.
abbrev pub new_names : List Text → List Text
new_names [] = []
new_names (name ∷ names) = if is_new name then name ∷ new_names names else new_names names

-- The names of a file, in its order.
abbrev pub file_names : List FlavorOverride → List Text
file_names overrides = map (λ (o : FlavorOverride). o.name) overrides

built_in : (name : Text) → is_new name ≡ false → IsIn name built_in_names
built_in name h =
    let (n, i, e) = (any_iff (λ n. text_eq n name) built_in_names).0 (ground (arith, h)) in
    subst (λ x. IsIn x built_in_names) ((text_eq_iff n name).0 e) i

new_names-IsIn :
    (name : Text) (names : List Text)
    → is_new name ≡ true
    → IsIn name names
    → IsIn name (new_names names)
new_names-IsIn name [] new i = i
new_names-IsIn name (n ∷ names) new (inl e) = rw (ap is_new e ∙ new) (inl e)
new_names-IsIn name (n ∷ names) new (inr i) = ground (arith, new_names-IsIn name names new i)

-- A name of the file is a built-in one or a new one.
pub file_names-IsIn :
    (name : Text) (names : List Text)
    → IsIn name names
    → IsIn name (built_in_names ++ new_names names)
file_names-IsIn name names i = elim (Bool-cases (is_new name)) [
  | inl new ↦
      (IsIn-append name built_in_names (new_names names)).1 (inr (new_names-IsIn name names new i))
  | inr old ↦ (IsIn-append name built_in_names (new_names names)).1 (inl (built_in name old))
]

module _ {W : Type 0} (d : Doubles W) where
  -- A name is known to the map of flavors exactly when a flavor of it has that name.
  by_name-has :
      (flavors : List (Flavor W)) (m : Map (Flavor W)) (name : Text)
      → is_some (lookup name (by_name d flavors m)) ≡ (
          any (λ n. text_eq n name) (map (λ (f : Flavor W). f.name) flavors)
          || is_some (lookup name m))
  unfolding by_name any
  by_name-has [] m name = refl
  by_name-has (f ∷ flavors) m name =
      ground (arith, by_name-has flavors (insert f.name f m) name, lookup-insert f.name name f m)

  default_names : map (λ (f : Flavor W). f.name) (default_flavors d) ≡ built_in_names
  unfolding default_flavors flavors_of
  default_names = refl

  default_flavors-has :
      (name : Text) → is_some (lookup name (by_name d (default_flavors d) [])) ≡ not (is_new name)
  unfolding lookup
  default_flavors-has name =
      let h = rw default_names at (by_name-has (default_flavors d) [] name) in ground (arith, h)

  -- The loop over the overrides appends the new names of the file.
  pub override_order-default :
      (overrides : List FlavorOverride)
      → override_order d (by_name d (default_flavors d) []) overrides
        ≡ new_names (file_names overrides)
  unfolding override_order
  override_order-default [] = refl
  override_order-default (o ∷ overrides) =
      ground (arith, default_flavors-has o.name, override_order-default overrides)
