-- ===== src/Flavor/Overrides/Served.antt =====
-- What the catalogue serves under overrides that the parser accepted.
use karpenter_provider_cleve.Base.{
  ℕ, ◌+◌, ◌<◌, ◌≡◌, refl, sym, subst, ◌∙◌, ◌⊎◌, inl, inr, true, false, Option, none, some, List, [],
  ◌∷◌, Text, text_eq, text_eq_iff, Map, lookup, lookup-insert, insert, is_some, map, arith, All,
  IsIn, Option-cases, Bool-cases,
}
use karpenter_provider_cleve.Flavor.Sizing.{Sizing}
use karpenter_provider_cleve.Flavor.Numbers.{Signed, nonneg, negative, Doubles}
use karpenter_provider_cleve.Flavor.Price.{sizing_by_name, relative_price}
use karpenter_provider_cleve.Flavor.Overrides.{
  Flavor, FlavorOverride, positive, is_set_badly, check_override, check_overrides, override_by_name,
  overlay, base_sizing, serve, resolve, resolve_all,
}

positive-lt : (s : Signed) (n : ℕ) → positive s ≡ some n → 0 < n
unfolding positive
positive-lt (nonneg k) n h = ground arith
positive-lt (negative k) n h = cc

-- A field that is not set badly, over a base that is positive, is positive.
overlay-positive :
    (o : Option Signed) (n : ℕ)
    → is_set_badly o ≡ false
    → (0 < n) ⊎ (is_some o ≡ true)
    → (k : ℕ) × (positive (overlay o n) ≡ some k)
unfolding is_set_badly overlay positive
overlay-positive none n h (inl p) = (n, ground arith)
overlay-positive none n h (inr p) = cc
overlay-positive (some (nonneg k)) n h p = (k, ground arith)
overlay-positive (some (negative k)) n h p = cc

-- An override that the parser lets pass: what it sets is positive, and a name that is not built in sets
-- both.
pub record IsAccepted (o : FlavorOverride) : Type 0 where
  pub cpu_ok : is_set_badly o.cpu ≡ false
  pub memory_ok : is_set_badly o.memory_ki ≡ false
  pub sized :
      (is_some (sizing_by_name o.name) ≡ true)
      ⊎ ((is_some o.cpu ≡ true) × (is_some o.memory_ki ≡ true))

check_override-IsAccepted :
    (i : ℕ) (seen : List Text) (o : FlavorOverride) → check_override i seen o ≡ none → IsAccepted o
unfolding check_override
check_override-IsAccepted i seen o h = ground arith

pub check_overrides-IsAccepted :
    (i : ℕ) (seen : List Text) (overrides : List FlavorOverride)
    → check_overrides i seen overrides ≡ none
    → (o : FlavorOverride) → IsIn o overrides
    → IsAccepted o
unfolding check_overrides
check_overrides-IsAccepted i seen [] h o j = elim j [ ]
check_overrides-IsAccepted i seen (x ∷ overrides) h o j =
    elim (Option-cases (check_override i seen x)) [
      | inr (e, p) ↦ cc (rw (p, check_overrides) at h)
      | inl p ↦ elim j [
        | inl e ↦ subst IsAccepted e (check_override-IsAccepted i seen x p)
        | inr k ↦
            check_overrides-IsAccepted (i + 1) (x.name ∷ seen) overrides
              (rw (p, check_overrides) at h) o k
      ]
    ]

-- What the map of overrides holds is an override of that name, or was there before.
pub lookup-override_by_name :
    (overrides : List FlavorOverride) (m : Map FlavorOverride) (name : Text) (o : FlavorOverride)
    → lookup name (override_by_name overrides m) ≡ some o
    → (IsIn o overrides × (o.name ≡ name)) ⊎ (lookup name m ≡ some o)
unfolding override_by_name
lookup-override_by_name [] m name o h = inr h
lookup-override_by_name (x ∷ overrides) m name o h =
    elim (lookup-override_by_name overrides (insert x.name x m) name o h) [
      | inl (i, e) ↦ inl (inr i, e)
      | inr p ↦ elim (Bool-cases (text_eq x.name name)) [
        | inl same ↦
            let q : some x ≡ some o = rw same at (sym (lookup-insert x.name name x m) ∙ p) in
            let here : x ≡ o = cc in
            inl (
              inl here,
              subst (λ (z : FlavorOverride). z.name ≡ name) here ((text_eq_iff x.name name).0 same),
            )
        | inr other ↦ inr (rw other at (sym (lookup-insert x.name name x m) ∙ p))
      ]
    ]

-- An override's name is in the map.
pub override_by_name-has :
    (overrides : List FlavorOverride) (m : Map FlavorOverride) (name : Text)
    → IsIn name (map (λ (o : FlavorOverride). o.name) overrides) ⊎ (is_some (lookup name m) ≡ true)
    → is_some (lookup name (override_by_name overrides m)) ≡ true
unfolding override_by_name
override_by_name-has [] m name (inl i) = elim i [ ]
override_by_name-has [] m name (inr h) = h
override_by_name-has (x ∷ overrides) m name h =
    override_by_name-has overrides (insert x.name x m) name (elim h [
      | inl (inl e) ↦ inr (ground (arith, lookup-insert x.name name x m, text_eq_iff x.name name))
      | inl (inr i) ↦ inl i
      | inr p ↦ inr (ground (arith, lookup-insert x.name name x m))
    ])

abbrev pub IsPositive : Sizing → Type 0
IsPositive s = (0 < s.cpu) × (0 < s.memory_ki)

-- Every built-in size is positive.
pub sizing_by_name-IsPositive :
    (name : Text) (s : Sizing) → sizing_by_name name ≡ some s → IsPositive s
unfolding sizing_by_name lookup
sizing_by_name-IsPositive name s h = ground arith

module _ {W : Type 0} (d : Doubles W) where
  -- The price of an entry is the one of its own size, which is positive.
  abbrev pub IsPriced : Flavor W → Type 0
  IsPriced f = (0 < f.cpu) × (0 < f.memory_ki) × (f.price ≡ relative_price d f.cpu f.memory_ki)

  serve-IsPriced :
      (name : Text) (cpu memory_ki : Signed) (f : Flavor W)
      → serve d name (positive cpu) (positive memory_ki) ≡ some f
      → IsPriced f × (f.name ≡ name)
  unfolding serve
  serve-IsPriced name cpu memory_ki f h = elim (Option-cases (positive cpu)) [
    | inl p ↦ cc (rw (p, serve) at h)
    | inr (m, p) ↦ elim (Option-cases (positive memory_ki)) [
      | inl q ↦ cc (rw (p, q, serve) at h)
      | inr (n, q) ↦
          let served : Flavor W = record {
            name = name;
            cpu = m;
            memory_ki = n;
            price = relative_price d m n;
          } in
          let e : some served ≡ some f = rw (p, q, serve) at h in
          let same : served ≡ f = cc in
          subst (λ z. IsPriced z × (z.name ≡ name)) same
            ((positive-lt cpu m p, positive-lt memory_ki n q, refl), refl)
    ]
  ]

  resolve-IsPriced :
      (m : Map (Flavor W)) (overrides : Map FlavorOverride) (name : Text) (f : Flavor W)
      → resolve d m overrides name ≡ some f
      → IsPriced f × (f.name ≡ name)
  unfolding resolve
  resolve-IsPriced m overrides name f h = elim (Option-cases (lookup name overrides)) [
    | inl p ↦
        serve-IsPriced name (nonneg (base_sizing d m name).cpu)
          (nonneg (base_sizing d m name).memory_ki) f (rw (p, resolve) at h)
    | inr (o, p) ↦
        serve-IsPriced name (overlay o.cpu (base_sizing d m name).cpu)
          (overlay o.memory_ki (base_sizing d m name).memory_ki) f (rw (p, resolve) at h)
  ]

  pub resolve_all-IsPriced :
      (m : Map (Flavor W)) (overrides : Map FlavorOverride) (names : List Text)
      → All IsPriced (resolve_all d m overrides names).flavors
  unfolding resolve_all
  resolve_all-IsPriced m overrides [] = tt
  resolve_all-IsPriced m overrides (name ∷ names) =
      elim (Option-cases (resolve d m overrides name)) [
        | inl p ↦ rw (p, resolve_all) (resolve_all-IsPriced m overrides names)
        | inr (f, p) ↦
            rw (p, resolve_all)
              ((resolve-IsPriced m overrides name f p).0, resolve_all-IsPriced m overrides names)
      ]

  serve-some :
      (name : Text) (cpu memory_ki : Signed)
      → (k : ℕ) × (positive cpu ≡ some k)
      → (k : ℕ) × (positive memory_ki ≡ some k)
      → is_some (serve d name (positive cpu) (positive memory_ki)) ≡ true
  unfolding serve
  serve-some name cpu memory_ki (k, p) (n, q) = rw (p, q, serve) refl

  -- A name is served when its base size is positive, or an override sizes it.
  pub resolve-some :
      (m : Map (Flavor W)) (overrides : Map FlavorOverride) (name : Text)
      → ((o : FlavorOverride) → lookup name overrides ≡ some o → IsAccepted o)
      → IsPositive (base_sizing d m name)
        ⊎ ((o : FlavorOverride) × (lookup name overrides ≡ some o)
            × (is_some o.cpu ≡ true)
            × (is_some o.memory_ki ≡ true))
      → is_some (resolve d m overrides name) ≡ true
  unfolding resolve is_set_badly overlay
  resolve-some m overrides name ok sized = elim (Option-cases (lookup name overrides)) [
    | inl p ↦ elim sized [
      | inl (a, b) ↦
          rw (p, resolve)
            (serve-some name (nonneg (base_sizing d m name).cpu)
              (nonneg (base_sizing d m name).memory_ki)
              (overlay-positive none (base_sizing d m name).cpu refl (inl a))
              (overlay-positive none (base_sizing d m name).memory_ki refl (inl b)))
      | inr (o, q, _, _) ↦ cc
    ]
    | inr (o, p) ↦
        rw (p, resolve)
          (serve-some name (overlay o.cpu (base_sizing d m name).cpu)
            (overlay o.memory_ki (base_sizing d m name).memory_ki)
            (overlay-positive o.cpu (base_sizing d m name).cpu (ok o p).cpu_ok (elim sized [
              | inl (a, b) ↦ inl a
              | inr (x, q, c, e) ↦
                  let same : x ≡ o = cc in
                  inr (subst (λ (z : FlavorOverride). is_some z.cpu ≡ true) same c)
            ]))
            (overlay-positive o.memory_ki (base_sizing d m name).memory_ki (ok o p).memory_ok
              (elim sized [
                | inl (a, b) ↦ inl b
                | inr (x, q, c, e) ↦
                    let same : x ≡ o = cc in
                    inr (subst (λ (z : FlavorOverride). is_some z.memory_ki ≡ true) same e)
              ])))
  ]

  pub resolve_all-some :
      (m : Map (Flavor W)) (overrides : Map FlavorOverride) (names : List Text)
      → ((name : Text) → IsIn name names → is_some (resolve d m overrides name) ≡ true)
      → ((resolve_all d m overrides names).skipped ≡ [])
        × (map (λ (f : Flavor W). f.name) (resolve_all d m overrides names).flavors ≡ names)
  unfolding resolve_all
  resolve_all-some m overrides [] h = (refl, refl)
  resolve_all-some m overrides (name ∷ names) h =
      let rest = resolve_all-some m overrides names (λ n i. h n (inr i)) in
      elim (Option-cases (resolve d m overrides name)) [
        | inl p ↦ cc (h name (inl refl))
        | inr (f, p) ↦
            let same = (resolve-IsPriced m overrides name f p).1 in
            rw (p, resolve_all) (rest.0, rw (same, rest.1) refl)
      ]
