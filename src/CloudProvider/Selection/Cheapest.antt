-- ===== src/CloudProvider/Selection/Cheapest.antt =====
-- The type that a launch is of: the cheapest of those that serve the claim and are available.
use karpenter_provider_cleve.Base.{
  ℕ, ◌≡◌, ◌≢◌, refl, sym, ap, subst, ◌∙◌, ◌⊎◌, inl, inr, true, false, none, some, List, [], ◌∷◌,
  Text, map, arith, IsIn, Bool-cases, Option-cases,
}
use karpenter_provider_cleve.Flavor.Numbers.{Doubles, ResourceList, Quantities, IsRanked}
use karpenter_provider_cleve.Flavor.TypeProvider.{TypeProvider}
use karpenter_provider_cleve.Flavor.TypeProvider.Types.{InstanceType, list_for_provisioning}
use karpenter_provider_cleve.Controllers.Reads.{Answer}
use karpenter_provider_cleve.CloudProvider.Outcome.{plain, no_flavor, Result, done, fails}
use karpenter_provider_cleve.CloudProvider.Selection.{
  Scheduling, Demand, View, Best, is_unavailable, hold_out, instance_types, choose,
  check_disk_unready, chosen, resolve_instance_type,
}
use karpenter_provider_cleve.CloudProvider.Selection.Loop.{ArePriced, IsCheapest, choose-all}

module _ {Q W R : Type 0} (q : Quantities Q W) (d : Doubles W) (k : Scheduling R Q)
    (demand : Demand R Q) where
  chosen-done : (b : Best Q W) (it : InstanceType Q W) → chosen q d k b ≡ done it → b.best ≡ some it
  unfolding chosen
  chosen-done b it h = elim (Option-cases b.best) [
    | inl e ↦ cc (simp (e, chosen) at h)
    | inr (x, e) ↦
        let same : done x ≡ done it = simp (e, chosen) at h in
        let same' : x ≡ it = cc in e ∙ ap some same'
  ]

  chosen-no_flavor :
      (b : Best Q W) (n : ℕ) → chosen q d k b ≡ fails (plain (no_flavor n)) → b.best ≡ none
  unfolding chosen
  chosen-no_flavor b n h = elim (Option-cases b.best) [
    | inl e ↦ e
    | inr (x, e) ↦ cc (simp (e, chosen) at h)
  ]

  check_disk_unready-no_flavor :
      (pool : Text → Answer (ResourceList Q)) (n : ℕ)
      → check_disk_unready q d k demand pool ≢ some (plain (no_flavor n))
  unfolding check_disk_unready
  check_disk_unready-no_flavor pool n h = ground arith

  -- What the tests before the loop let through is what the loop chose.
  resolve_instance_type-chosen :
      (p : TypeProvider Q W) (v : View) (pool : Text → Answer (ResourceList Q))
      (r : Result (InstanceType Q W))
      → resolve_instance_type q d k p v pool demand ≡ r
      → ((it : InstanceType Q W) → r ≢ done it) × ((n : ℕ) → r ≢ fails (plain (no_flavor n)))
        ⊎ (chosen q d k (
              choose q d k demand
                (instance_types q d p v).0
                (record { best = none; unavailable = 0 }))
            ≡ r)
  unfolding resolve_instance_type
  resolve_instance_type-chosen p v pool r h = elim (Bool-cases (instance_types q d p v).1) [
    | inl ready ↦ inr (simp (ready, resolve_instance_type) at h)
    | inr waits ↦ elim (Option-cases (check_disk_unready q d k demand pool)) [
      | inl e ↦ inr (simp (waits, e, resolve_instance_type) at h)
      | inr (error, e) ↦
          let refused : fails error ≡ r = simp (waits, e, resolve_instance_type) at h in
          inl (λ it x. cc, λ n x. check_disk_unready-no_flavor pool n (e ∙ ap some (cc)))
    ]
  ]

  hold_out-held :
      (p : TypeProvider Q W) (v : View) (x : InstanceType Q W)
      → is_unavailable q d p v x.name ≡ true
      → hold_out q d p v x ≡ record x { is_available = false }
  unfolding hold_out
  hold_out-held p v x u = rw (hold_out, u) refl

  hold_out-free :
      (p : TypeProvider Q W) (v : View) (x : InstanceType Q W)
      → is_unavailable q d p v x.name ≡ false
      → hold_out q d p v x ≡ x
  unfolding hold_out
  hold_out-free p v x u = rw (hold_out, u) refl

  -- A type that is held out is not available.
  held_out :
      (p : TypeProvider Q W) (v : View) (it : InstanceType Q W) (types : List (InstanceType Q W))
      → IsIn it (map (hold_out q d p v) types)
      → it.is_available ≡ true
      → is_unavailable q d p v it.name ≡ false
  held_out p v it [] i a = elim i [ ]
  held_out p v it (x ∷ types) (inr i) a = held_out p v it types i a
  held_out p v it (x ∷ types) (inl e) a = elim (Bool-cases (is_unavailable q d p v x.name)) [
    | inl u ↦
        let same : (record x { is_available = false }) ≡ it = sym (hold_out-held p v x u) ∙ e in
        cc (subst (λ (z : InstanceType Q W). z.is_available ≡ true) (sym same) a)
    | inr u ↦
        let same : x ≡ it = sym (hold_out-free p v x u) ∙ e in
        subst (λ (z : InstanceType Q W). is_unavailable q d p v z.name ≡ false) same u
  ]

  -- Where no price of the catalogue is NaN: a launch is resolved to a type of the catalogue that serves
  -- the claim and is available, its flavor held out by no refusal, and no such type is cheaper. It finds
  -- no flavor only where there is no such type.
  pub resolve_instance_type-IsCheapest :
      (p : TypeProvider Q W) (v : View) (pool : Text → Answer (ResourceList Q))
      → IsRanked d
      → ArePriced q d k demand (instance_types q d p v).0
      → ((it : InstanceType Q W)
          → resolve_instance_type q d k p v pool demand ≡ done it
          → IsCheapest q d k demand (some it) (instance_types q d p v).0
            × (is_unavailable q d p v it.name ≡ false))
        × ((n : ℕ)
            → resolve_instance_type q d k p v pool demand ≡ fails (plain (no_flavor n))
            → IsCheapest q d k demand none (instance_types q d p v).0)
  unfolding instance_types
  resolve_instance_type-IsCheapest p v pool r n =
      let types = (instance_types q d p v).0 in
      let b = choose q d k demand types (record { best = none; unavailable = 0 }) in
      let cheapest = choose-all q d k demand types r n in
      (
        λ it h. elim (resolve_instance_type-chosen p v pool (done it) h) [
          | inl (other, _) ↦ elim (other it refl) [ ]
          | inr c ↦
              let found =
                subst (λ best. IsCheapest q d k demand best types) (chosen-done b it c) cheapest in
              (found, held_out p v it (list_for_provisioning q d p).0 found.0 found.1.1)
        ],
        λ n h. elim (resolve_instance_type-chosen p v pool (fails (plain (no_flavor n))) h) [
          | inl (_, other) ↦ elim (other n refl) [ ]
          | inr c ↦
              subst (λ best. IsCheapest q d k demand best types) (chosen-no_flavor b n c) cheapest
        ],
      )
