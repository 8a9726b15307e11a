-- ===== src/Flavor/TypeProvider/Soundness.antt =====
-- What holds in all the states that a provider of instance types reaches.
use karpenter_provider_cleve.Base.{
  ◌≡◌, refl, subst, inl, inr, true, false, Option, none, some, List, Text, arith, Option-cases,
  Bool-cases,
}
use karpenter_provider_cleve.Flavor.Numbers.{Doubles, Quantities, IsOrdered}
use karpenter_provider_cleve.Flavor.Overrides.{Flavor, FlavorOverride}
use karpenter_provider_cleve.Flavor.Reports.{ObservedCapacity, without_disk, check_consistent}
use karpenter_provider_cleve.Flavor.Reports.Minimum.{check_consistent-without_disk}
use karpenter_provider_cleve.Flavor.TypeProvider.{
  DiskProfile, TypeProvider, new_provider, require_reference, invalidate_reference, is_whole,
  differs, normalized, set_reference,
}
use karpenter_provider_cleve.Flavor.TypeProvider.States.{
  Step, requires, invalidates, sets, records, Reachable, starts, steps, HasNoDisk, IsSound,
}
use karpenter_provider_cleve.Flavor.TypeProvider.Merging.{
  without_disk-HasNoDisk, record_observed_capacity-IsSound,
}

module _ {Q W : Type 0} (q : Quantities Q W) (d : Doubles W) where
  new_provider-IsSound :
      (region : Text) (base : List (Flavor W)) (overrides : List FlavorOverride)
      → IsSound q d (new_provider q d region base overrides)
  unfolding new_provider
  new_provider-IsSound region base overrides = record {
    consistent = λ flavor o h. cc;
    no_disk = λ r flavor o h. cc;
    enabled = λ h. h;
    ready = λ h. h;
    within = λ disk h. cc;
  }

  invalidate_reference-IsSound :
      (p : TypeProvider Q W) → IsSound q d p → IsSound q d (invalidate_reference q d p)
  unfolding invalidate_reference
  invalidate_reference-IsSound p s = record {
    consistent = s.consistent;
    no_disk = s.no_disk;
    enabled = s.enabled;
    ready = λ h. cc;
    within = s.within;
  }

  require_reference-IsSound :
      (p : TypeProvider Q W) → IsSound q d p → IsSound q d (require_reference q d p)
  unfolding require_reference
  require_reference-IsSound p s = elim (Bool-cases p.ephemeral_storage_required) [
    | inl h ↦ simp (h, require_reference) s
    | inr h ↦
        simp (h, require_reference)
          (record {
            consistent = λ flavor o e.
                let (x, (before, now)) = stripped flavor o e in
                subst (λ z. check_consistent q z ≡ none) now
                  (check_consistent-without_disk q x (s.consistent flavor x before));
            no_disk = λ r flavor o e.
                let (x, (before, now)) = stripped flavor o e in
                subst (HasNoDisk q d) now (without_disk-HasNoDisk q d x);
            enabled = λ k. refl;
            ready = s.ready;
            within = s.within;
          })
  ]
    where
      stripped :
          (flavor : Text) (o : ObservedCapacity Q)
          → (elim (p.observed flavor) as (λ _. Option (ObservedCapacity Q)) [
            | none ↦ none
            | some x ↦ some (without_disk x)
          ])
            ≡ some o
          → (x : ObservedCapacity Q) × ((p.observed flavor ≡ some x) × (without_disk x ≡ o))
      stripped flavor o e = elim (Option-cases (p.observed flavor)) [
        | inl a ↦ cc (simp a at e)
        | inr (x, a) ↦ (x, (a, cc (rw a at e)))
      ]

  -- A quantity that is whole compares equal to the count of its bytes.
  is_whole-normalized :
      (x : Q)
      → is_whole q d x ≡ true
      → (q.below x (q.of_int (q.value x)) ≡ false) × (q.below (q.of_int (q.value x)) x ≡ false)
  unfolding is_whole differs
  is_whole-normalized x h = ground arith

  set_reference-IsSound :
      (p : TypeProvider Q W) (capacity allocatable : Q)
      → IsOrdered q
      → IsSound q d p
      → IsSound q d (set_reference q d p capacity allocatable).0
  unfolding set_reference normalized
  set_reference-IsSound p c a o s = elim (Bool-cases (is_whole q d c)) [
    | inr h ↦ simp (h, set_reference) s
    | inl hc ↦ elim (Bool-cases (is_whole q d a)) [
      | inr h ↦ simp (hc, h, set_reference) s
      | inl ha ↦ elim (Bool-cases (q.below c a)) [
        | inl h ↦ simp (hc, ha, h, set_reference) s
        | inr hb ↦ elim (Bool-cases p.ephemeral_storage_required) [
          | inr h ↦ simp (hc, ha, hb, h, set_reference) s
          | inl hr ↦
              simp (hc, ha, hb, hr, set_reference)
                (record {
                  consistent = s.consistent;
                  no_disk = λ r. s.no_disk hr;
                  enabled = λ k. refl;
                  ready = λ k. refl;
                  within = λ disk e.
                      let same : normalized q d c a ≡ disk = cc in
                      subst (λ (z : DiskProfile Q). q.below z.capacity z.allocatable ≡ false) same
                        (o.below_trans (q.of_int (q.value a)) c (q.of_int (q.value c))
                          (o.below_trans (q.of_int (q.value a)) a c (is_whole-normalized a ha).0 hb)
                          (is_whole-normalized c hc).1);
                })
        ]
      ]
    ]
  ]

  Step-IsSound :
      (p p' : TypeProvider Q W) → IsOrdered q → Step q d p p' → IsSound q d p → IsSound q d p'
  Step-IsSound p p' o (requires _) s = require_reference-IsSound p s
  Step-IsSound p p' o (invalidates _) s = invalidate_reference-IsSound p s
  Step-IsSound p p' o (sets _ capacity allocatable) s =
      set_reference-IsSound p capacity allocatable o s
  Step-IsSound p p' o (records _ flavor capacity allocatable) s =
      record_observed_capacity-IsSound q d p flavor capacity allocatable o s

  -- With quantities in order, in every state that the provider reaches: the observations of each
  -- flavor are consistent, their allocatable never above their capacity; with dynamic disks none of
  -- them carries a disk; and a provider is ready only with a reference, which only dynamic mode sets
  -- and whose allocatable is at most its capacity.
  pub Reachable-IsSound :
      (region : Text) (base : List (Flavor W)) (overrides : List FlavorOverride)
      (p : TypeProvider Q W)
      → IsOrdered q
      → Reachable q d region base overrides p
      → IsSound q d p
  Reachable-IsSound region base overrides p o starts = new_provider-IsSound region base overrides
  Reachable-IsSound region base overrides p o (steps p' _ r step) =
      Step-IsSound p' p o step (Reachable-IsSound region base overrides p' o r)
