-- ===== src/Flavor/Overrides/Validated.antt =====
-- Overrides that the parser accepted, laid over the built-in flavors.
use karpenter_provider_cleve.Base.{
  ◌<◌, ◌≡◌, refl, sym, ap, subst, ◌∙◌, ◌⊎◌, inl, inr, true, Option, none, some, List, [], ◌∷◌, ◌++◌,
  Text, text_eq, text_eq_iff, Map, lookup, lookup-insert, insert, is_some, map, arith, All, All-of,
  IsIn, IsIn-append, Option-cases, Bool-cases,
}
use karpenter_provider_cleve.Flavor.Numbers.{Doubles}
use karpenter_provider_cleve.Flavor.Price.{flavor_sizing, sizing_by_name}
use karpenter_provider_cleve.Flavor.Overrides.{
  Flavor, FlavorOverride, parsed, check_overrides, parse_flavor_overrides, override_by_name,
  by_name, base_order, override_order, base_sizing, apply_overrides, flavors_of, default_flavors,
}
use karpenter_provider_cleve.Flavor.Overrides.NewNames.{
  built_in_names, new_names, file_names, file_names-IsIn, override_order-default,
}
use karpenter_provider_cleve.Flavor.Overrides.Served.{
  IsPriced, resolve_all-IsPriced, IsAccepted, check_overrides-IsAccepted, lookup-override_by_name,
  override_by_name-has, IsPositive, sizing_by_name-IsPositive, resolve-some, resolve_all-some,
}

-- A key of an association list is found in it.
lookup-key :
    {V : Type 0}
    → (k : Text) (m : Map V) → IsIn k (map (λ (e : Text × V). e.0) m)
    → is_some (lookup k m) ≡ true
unfolding lookup
lookup-key k [] i = elim i [ ]
lookup-key k (e ∷ m) i = ground (arith, lookup-key k m, text_eq_iff e.0 k)

built_in_names-seeded :
    (name : Text) → IsIn name built_in_names → is_some (sizing_by_name name) ≡ true
unfolding sizing_by_name
built_in_names-seeded name i = lookup-key name flavor_sizing i

parse_flavor_overrides-IsAccepted :
    (decoded : Option (List FlavorOverride)) (overrides : List FlavorOverride)
    → parse_flavor_overrides decoded ≡ parsed overrides
    → (o : FlavorOverride) → IsIn o overrides
    → IsAccepted o
unfolding parse_flavor_overrides
parse_flavor_overrides-IsAccepted none overrides h o i = cc
parse_flavor_overrides-IsAccepted (some []) overrides h o i = cc
parse_flavor_overrides-IsAccepted (some (x ∷ xs)) overrides h o i =
    elim (Option-cases (check_overrides 0 [] (x ∷ xs))) [
      | inr (e, p) ↦ cc (rw (p, parse_flavor_overrides) at h)
      | inl p ↦
          let q : parsed (x ∷ xs) ≡ parsed overrides = rw (p, parse_flavor_overrides) at h in
          let same : overrides ≡ x ∷ xs = cc in
          check_overrides-IsAccepted 0 [] (x ∷ xs) p o (subst (IsIn o) same i)
    ]

-- What the map of overrides holds under a name is one of them, of that name.
override_by_name-at :
    (overrides : List FlavorOverride) (name : Text) (o : FlavorOverride)
    → lookup name (override_by_name overrides []) ≡ some o
    → IsIn o overrides × (o.name ≡ name)
unfolding lookup
override_by_name-at overrides name o p = elim (lookup-override_by_name overrides [] name o p) [
  | inl q ↦ q
  | inr q ↦ cc q
]

module _ {W : Type 0} (d : Doubles W) where
  abbrev IsSized : Flavor W → Type 0
  IsSized f = (0 < f.cpu) × (0 < f.memory_ki)

  by_name-holds :
      (flavors : List (Flavor W)) (m : Map (Flavor W)) (name : Text) (f : Flavor W)
      → All IsSized flavors
      → ((g : Flavor W) → lookup name m ≡ some g → IsSized g)
      → lookup name (by_name d flavors m) ≡ some f
      → IsSized f
  unfolding by_name
  by_name-holds [] m name f sized held h = held f h
  by_name-holds (x ∷ flavors) m name f sized held h =
      by_name-holds flavors (insert x.name x m) name f sized.1
        (λ g e. elim (Bool-cases (text_eq x.name name)) [
          | inl same ↦
              let q : some x ≡ some g = rw same at (sym (lookup-insert x.name name x m) ∙ e) in
              let here : x ≡ g = cc in subst IsSized here sized.0
          | inr other ↦ held g (rw other at (sym (lookup-insert x.name name x m) ∙ e))
        ])
        h

  default_flavors-IsSized : All IsSized (default_flavors d)
  unfolding default_flavors flavors_of
  default_flavors-IsSized = ground arith

  base_sizing-IsPositive :
      (m : Map (Flavor W)) (name : Text)
      → ((f : Flavor W) → lookup name m ≡ some f → IsSized f)
      → is_some (sizing_by_name name) ≡ true
      → IsPositive (base_sizing d m name)
  unfolding base_sizing
  base_sizing-IsPositive m name held h = elim (Option-cases (lookup name m)) [
    | inr (f, p) ↦ simp (p, base_sizing) (held f p)
    | inl p ↦ elim (Option-cases (sizing_by_name name)) [
      | inl q ↦ cc (rw q at h)
      | inr (s, q) ↦ simp (p, q, base_sizing) (sizing_by_name-IsPositive name s q)
    ]
  ]

  -- A name with a built-in size has a positive base.
  seeded-IsPositive :
      (name : Text)
      → is_some (sizing_by_name name) ≡ true
      → IsPositive (base_sizing d (by_name d (default_flavors d) []) name)
  unfolding lookup
  seeded-IsPositive name h =
      base_sizing-IsPositive (by_name d (default_flavors d) []) name
        (λ f p. by_name-holds (default_flavors d) [] name f default_flavors-IsSized (λ g q. cc q) p)
        h

  IsIn-override_order :
      (m : Map (Flavor W)) (overrides : List FlavorOverride) (name : Text)
      → IsIn name (override_order d m overrides)
      → IsIn name (map (λ (o : FlavorOverride). o.name) overrides)
  unfolding override_order
  IsIn-override_order m [] name i = i
  IsIn-override_order m (o ∷ overrides) name i =
      ground (arith, IsIn-override_order m overrides name)

  base_order-default : base_order d (default_flavors d) [] ≡ built_in_names
  unfolding base_order default_flavors flavors_of lookup insert text_eq
  base_order-default = refl

  name-sized :
      (overrides : List FlavorOverride)
      → ((o : FlavorOverride) → IsIn o overrides → IsAccepted o)
      → (name : Text)
      → IsIn name (built_in_names ++ override_order d (by_name d (default_flavors d) []) overrides)
      → IsPositive (base_sizing d (by_name d (default_flavors d) []) name)
        ⊎ ((o : FlavorOverride) × (lookup name (override_by_name overrides []) ≡ some o)
            × (is_some o.cpu ≡ true)
            × (is_some o.memory_ki ≡ true))
  name-sized overrides ok name i =
      let m = by_name d (default_flavors d) [] in
      elim ((IsIn-append name built_in_names (override_order d m overrides)).0 i) [
        | inl j ↦ inl (seeded-IsPositive name (built_in_names-seeded name j))
        | inr j ↦
            let has =
              override_by_name-has overrides [] name
                (inl (IsIn-override_order m overrides name j)) in
            elim (Option-cases (lookup name (override_by_name overrides []))) [
              | inl p ↦ cc (rw p at has)
              | inr (o, p) ↦
                  let at_name = override_by_name-at overrides name o p in
                  elim (ok o at_name.0).sized [
                    | inl q ↦ inl (
                        seeded-IsPositive name
                          (subst (λ n. is_some (sizing_by_name n) ≡ true) at_name.1 q))
                    | inr (c, e) ↦ inr (o, p, c, e)
                  ]
            ]
      ]

  -- Where a file parses, the flavors served have the names of the built-in catalogue and then the names
  -- of the file that the catalogue has not, each in its order, and nothing is skipped; every name of the
  -- file is among them; each entry has a positive cpu and memory, and the price that these two make.
  pub parse_flavor_overrides-served :
      (decoded : Option (List FlavorOverride)) (overrides : List FlavorOverride)
      → parse_flavor_overrides decoded ≡ parsed overrides
      → ((apply_overrides d (default_flavors d) overrides).skipped ≡ [])
        × (map (λ (f : Flavor W). f.name) (apply_overrides d (default_flavors d) overrides).flavors
            ≡ built_in_names ++ new_names (file_names overrides))
        × All
            (λ name. IsIn name (
              map
                (λ (f : Flavor W). f.name)
                (apply_overrides d (default_flavors d) overrides).flavors))
            (file_names overrides)
        × All (IsPriced d) (apply_overrides d (default_flavors d) overrides).flavors
  unfolding apply_overrides
  parse_flavor_overrides-served decoded overrides h =
      let m = by_name d (default_flavors d) [] in
      let o = override_by_name overrides [] in
      let names = built_in_names ++ override_order d m overrides in
      let ok = parse_flavor_overrides-IsAccepted decoded overrides h in
      let served = resolve_all-some d m o names (λ name i.
        resolve-some d m o name (λ x p. ok x (override_by_name-at overrides name x p).0)
          (name-sized overrides ok name i)) in
      let listed =
        served.1 ∙ ap (λ ns. built_in_names ++ ns) (override_order-default d overrides) in
      rw base_order-default (
        served.0,
        listed,
        All-of _ (file_names overrides) (λ name i.
            subst (IsIn name) (sym listed) (file_names-IsIn name (file_names overrides) i)),
        resolve_all-IsPriced d m o names,
      )
