-- ===== src/CloudProvider/Selection/Loop.antt =====
-- The loop of `resolveInstanceType` finds the cheapest eligible type.
use karpenter_provider_cleve.Base.{
  ◌≡◌, ◌↔◌, refl, sym, subst, ◌⊎◌, inl, inr, true, false, Option, none, some, List, [], ◌∷◌, arith,
  IsIn, Bool-cases,
}
use karpenter_provider_cleve.Flavor.Numbers.{Doubles, Quantities, IsRanked}
use karpenter_provider_cleve.Flavor.TypeProvider.Types.{InstanceType}
use karpenter_provider_cleve.CloudProvider.Selection.{
  Scheduling, Demand, Best, serves, is_better, consider, choose,
}

module _ {Q W R : Type 0} (q : Quantities Q W) (d : Doubles W) (k : Scheduling R Q)
    (demand : Demand R Q) where
  abbrev pub IsEligible : InstanceType Q W → Type 0
  IsEligible it = (serves q d k demand it ≡ true) × (it.is_available ≡ true)

  -- None of the list is eligible, or this one is and none of the eligible is cheaper.
  abbrev pub IsCheapest : Option (InstanceType Q W) → List (InstanceType Q W) → Type 0
  IsCheapest none types = (x : InstanceType Q W) → IsIn x types → ¬ IsEligible x
  IsCheapest (some it) types =
      IsIn it types
      × IsEligible it
      × ((x : InstanceType Q W) → IsIn x types → IsEligible x → d.gt it.price x.price ≡ false)

  -- No price of the list is NaN.
  abbrev pub ArePriced : List (InstanceType Q W) → Type 0
  ArePriced types = (x : InstanceType Q W) → IsIn x types → d.is_nan x.price ≡ false

  IsCheapest-skip :
      (best : Option (InstanceType Q W)) (it : InstanceType Q W) (seen : List (InstanceType Q W))
      → ¬ IsEligible it
      → IsCheapest best seen
      → IsCheapest best (it ∷ seen)
  IsCheapest-skip none it seen h c =
      λ x i. elim i [ inl e ↦ subst (λ z. ¬ IsEligible z) e h | inr j ↦ c x j ]
  IsCheapest-skip (some best) it seen h (i, e, least) = (
    inr i,
    e,
    λ x j y. elim j [
      | inl same ↦ elim (h (subst IsEligible (sym same) y)) [ ]
      | inr j' ↦ least x j' y
    ],
  )

  IsCheapest-take :
      (best : Option (InstanceType Q W)) (it : InstanceType Q W) (seen : List (InstanceType Q W))
      → IsRanked d
      → ArePriced seen
      → IsEligible it
      → IsCheapest best seen
      → is_better q d k it best ≡ true
      → IsCheapest (some it) (it ∷ seen)
  unfolding is_better
  IsCheapest-take none it seen r n h c b = (
    inl refl,
    h,
    λ x j y. elim j [
      | inl same ↦
          subst (λ (z : InstanceType Q W). d.gt it.price z.price ≡ false) same
            (ground (arith, r.gt_asym it.price it.price))
      | inr j' ↦ elim (c x j' y) [ ]
    ],
  )
  IsCheapest-take (some best) it seen r n h (i, e, least) b = (
    inl refl,
    h,
    λ x j y. elim j [
      | inl same ↦
          subst (λ (z : InstanceType Q W). d.gt it.price z.price ≡ false) same
            (ground (arith, r.gt_asym it.price it.price))
      | inr j' ↦
          r.gt_trans it.price best.price x.price (n best i) (r.gt_asym best.price it.price b)
            (least x j' y)
    ],
  )

  IsCheapest-keep :
      (best : Option (InstanceType Q W)) (it : InstanceType Q W) (seen : List (InstanceType Q W))
      → IsCheapest best seen
      → is_better q d k it best ≡ false
      → IsCheapest best (it ∷ seen)
  unfolding is_better
  IsCheapest-keep none it seen c b = cc
  IsCheapest-keep (some best) it seen (i, e, least) b = (
    inr i,
    e,
    λ x j y. elim j [
      | inl same ↦ subst (λ (z : InstanceType Q W). d.gt best.price z.price ≡ false) same b
      | inr j' ↦ least x j' y
    ],
  )

  consider-IsCheapest :
      (it : InstanceType Q W) (b : Best Q W) (seen : List (InstanceType Q W))
      → IsRanked d
      → ArePriced seen
      → IsCheapest b.best seen
      → IsCheapest (consider q d k demand it b).best (it ∷ seen)
  unfolding consider
  consider-IsCheapest it b seen r n c = elim (Bool-cases (serves q d k demand it)) [
    | inr s ↦ simp (s, consider) (IsCheapest-skip b.best it seen (λ e. cc) c)
    | inl s ↦ elim (Bool-cases it.is_available) [
      | inr a ↦ simp (s, a, consider) (IsCheapest-skip b.best it seen (λ e. cc) c)
      | inl a ↦ elim (Bool-cases (is_better q d k it b.best)) [
        | inl t ↦
            let e : (consider q d k demand it b).best ≡ some it = simp (s, a, t, consider) refl in
            subst (λ z. IsCheapest z (it ∷ seen)) (sym e)
              (IsCheapest-take b.best it seen r n (s, a) c t)
        | inr t ↦ simp (s, a, t, consider) (IsCheapest-keep b.best it seen c t)
      ]
    ]
  ]

  -- The types seen after a loop over more of them.
  unfoldable after : List (InstanceType Q W) → List (InstanceType Q W) → List (InstanceType Q W)
  after [] seen = seen
  after (it ∷ types) seen = after types (it ∷ seen)

  after-IsIn :
      (x : InstanceType Q W) (types seen : List (InstanceType Q W))
      → IsIn x (after types seen) ↔ (IsIn x types ⊎ IsIn x seen)
  unfolding after
  after-IsIn x [] seen = ground arith
  after-IsIn x (it ∷ types) seen = ground (arith, after-IsIn x types (it ∷ seen))

  choose-IsCheapest :
      (types : List (InstanceType Q W)) (b : Best Q W) (seen : List (InstanceType Q W))
      → IsRanked d
      → ArePriced (after types seen)
      → IsCheapest b.best seen
      → IsCheapest (choose q d k demand types b).best (after types seen)
  unfolding choose after
  choose-IsCheapest [] b seen r n c = c
  choose-IsCheapest (it ∷ types) b seen r n c =
      choose-IsCheapest types (consider q d k demand it b) (it ∷ seen) r n (
        consider-IsCheapest it b seen r (λ x i. n x ((after-IsIn x (it ∷ types) seen).1 (inr i))) c)

  pub choose-all :
      (types : List (InstanceType Q W))
      → IsRanked d
      → ArePriced types
      → IsCheapest (choose q d k demand types (record { best = none; unavailable = 0 })).best types
  choose-all types r n =
      same_members (choose q d k demand types (record { best = none; unavailable = 0 })).best (
        choose-IsCheapest types (record { best = none; unavailable = 0 }) [] r
          (λ x i. n x (elim ((after-IsIn x types []).0 i) [ inl j ↦ j | inr j ↦ elim j [ ] ]))
          (λ x i e. elim i [ ]))
    where
      same_members :
          (best : Option (InstanceType Q W))
          → IsCheapest best (after types [])
          → IsCheapest best types
      same_members none c = λ x i. c x ((after-IsIn x types []).1 (inl i))
      same_members (some it) (i, e, least) = (
        elim ((after-IsIn it types []).0 i) [ inl j ↦ j | inr j ↦ elim j [ ] ],
        e,
        λ x j y. least x ((after-IsIn x types []).1 (inl j)) y,
      )
