-- ===== src/CloudProvider/Launching/Resolving.antt =====
-- What each step of the resolver of a launch has read when it succeeds.
use karpenter_provider_cleve.Base.{
  ◌≡◌, refl, ap, subst, ◌∙◌, ◌⊎◌, inl, inr, true, Option, none, some, List, Text, text_eq,
  text_eq_iff, Bool-cases, Option-cases,
}
use karpenter_provider_cleve.Flavor.Numbers.{Doubles, Quantities}
use karpenter_provider_cleve.Flavor.TypeProvider.{TypeProvider}
use karpenter_provider_cleve.Flavor.TypeProvider.Types.{InstanceType}
use karpenter_provider_cleve.Api.NodeGroup.{NodeGroup}
use karpenter_provider_cleve.Api.NodeClaim.{NodeClaim}
use karpenter_provider_cleve.Api.NodeClass.{CleverNodeClass}
use karpenter_provider_cleve.Provider.Identity.{owned_by_node_claim}
use karpenter_provider_cleve.Controllers.Reads.{Answer, got, nothing, broken}
use karpenter_provider_cleve.CloudProvider.Outcome.{Result, done, fails}
use karpenter_provider_cleve.CloudProvider.Snapshot.{
  Snapshot, no_snapshot, invalid, snapshot, read_disk_snapshot,
}
use karpenter_provider_cleve.CloudProvider.Selection.{
  Scheduling, Demand, View, resolve_instance_type,
}
use karpenter_provider_cleve.CloudProvider.Launching.{
  Reads, check_node_claim_wanted, resolve_node_class, existing_disk_launch, launch_type,
  resolve_launch,
}

-- The claim as the API server has it: the same object, and not being deleted.
pub check_node_claim_wanted-live :
    (claim : NodeClaim) (answer : Answer NodeClaim)
    → check_node_claim_wanted claim answer ≡ none
    → (live : NodeClaim) × (answer ≡ got live) × (live.uid ≡ claim.uid) × (live.deleted ≡ none)
unfolding check_node_claim_wanted
check_node_claim_wanted-live claim nothing h = cc
check_node_claim_wanted-live claim broken h = cc
check_node_claim_wanted-live claim (got live) h = elim (Bool-cases (text_eq live.uid claim.uid)) [
  | inr u ↦ cc (simp (u, check_node_claim_wanted) at h)
  | inl u ↦ elim (Option-cases live.deleted) [
    | inr (t, e) ↦ cc (simp (u, e, check_node_claim_wanted) at h)
    | inl e ↦ (live, refl, (text_eq_iff live.uid claim.uid).0 u, e)
  ]
]

pub resolve_node_class-ready :
    (answer : Answer CleverNodeClass) (class : CleverNodeClass)
    → resolve_node_class answer ≡ done class
    → (answer ≡ got class) × (class.ready ≡ true) × (class.deleted ≡ none)
unfolding resolve_node_class
resolve_node_class-ready nothing class h = cc
resolve_node_class-ready broken class h = cc
resolve_node_class-ready (got x) class h = elim (Bool-cases x.ready) [
  | inr r ↦ cc (simp (r, resolve_node_class) at h)
  | inl r ↦ elim (Option-cases x.deleted) [
    | inr (t, e) ↦ cc (simp (r, e, resolve_node_class) at h)
    | inl e ↦
        let p : done x ≡ done class = simp (r, e, resolve_node_class) at h in
        let same : x ≡ class = cc in
        subst (λ (z : CleverNodeClass). (got x ≡ got z) × (z.ready ≡ true) × (z.deleted ≡ none))
          same (refl, r, e)
  ]
]

done-injective :
    {A B : Type 0}
    → (a c : A) (b e : B) → ◌≡◌ {A = Result (A × B)} (done (a, b)) (done (c, e))
    → (a ≡ c) × (b ≡ e)
done-injective a c b e h = (cc, cc)

module _ {Q W R : Type 0} (q : Quantities Q W) (d : Doubles W) (k : Scheduling R Q) where
  -- No group of the claim's name, or the claim's own.
  pub existing_disk_launch-owned :
      (claim : NodeClaim) (answer : Answer NodeGroup) (existing : Option NodeGroup)
      → existing_disk_launch q d k claim answer ≡ done existing
      → ((answer ≡ nothing) × (existing ≡ none))
        ⊎ ((ng : NodeGroup) × (answer ≡ got ng)
            × (existing ≡ some ng)
            × (owned_by_node_claim ng claim ≡ true))
  unfolding existing_disk_launch
  existing_disk_launch-owned claim nothing existing h =
      let p : done none ≡ done existing = h in let same : existing ≡ none = cc in inl (refl, same)
  existing_disk_launch-owned claim broken existing h = cc
  existing_disk_launch-owned claim (got ng) existing h =
      elim (Bool-cases (owned_by_node_claim ng claim)) [
        | inr o ↦ cc (simp (o, existing_disk_launch) at h)
        | inl o ↦ of_snapshot (read_disk_snapshot q d ng.annotations) refl o
      ]
    where
      of_snapshot :
          (s : Snapshot Q)
          → read_disk_snapshot q d ng.annotations ≡ s
          → owned_by_node_claim ng claim ≡ true
          → ((got ng ≡ nothing) × (existing ≡ none))
            ⊎ ((x : NodeGroup) × (got ng ≡ got x)
                × (existing ≡ some x)
                × (owned_by_node_claim x claim ≡ true))
      of_snapshot no_snapshot e o =
          let p : done (some ng) ≡ done existing = simp (o, e, existing_disk_launch) at h in
          let same : existing ≡ some ng = cc in inr (ng, refl, same, o)
      of_snapshot (snapshot disk) e o =
          let p : done (some ng) ≡ done existing = simp (o, e, existing_disk_launch) at h in
          let same : existing ≡ some ng = cc in inr (ng, refl, same, o)
      of_snapshot invalid e o = cc (simp (o, e, existing_disk_launch) at h)

  pub launch_type-chosen :
      (p : TypeProvider Q W) (v : View) (w : Reads Q) (demand : Demand R Q) (warned : List Text)
      (it : InstanceType Q W)
      → (launch_type q d k p v w demand none warned).0 ≡ done it
      → resolve_instance_type q d k p v w.node_pool demand ≡ done it
  unfolding launch_type
  launch_type-chosen p v w demand warned it h =
      of_result (resolve_instance_type q d k p v w.node_pool demand) refl
    where
      of_result :
          (r : Result (InstanceType Q W))
          → resolve_instance_type q d k p v w.node_pool demand ≡ r
          → resolve_instance_type q d k p v w.node_pool demand ≡ done it
      of_result (done x) e = let same : done x ≡ done it = simp (e, launch_type) at h in e ∙ same
      of_result (fails error) e = cc (simp (e, launch_type) at h)

  pub resolve_launch-done :
      (p : TypeProvider Q W) (v : View) (w : Reads Q) (claim : NodeClaim) (demand : Demand R Q)
      (existing : Option NodeGroup) (warned : List Text)
      (r : Result (CleverNodeClass × InstanceType Q W)) (class : CleverNodeClass)
      (it : InstanceType Q W)
      → (resolve_launch q d k p v w claim demand existing warned).0 ≡ r
      → r ≡ done (class, it)
      → (check_node_claim_wanted claim w.claim ≡ none)
        × (resolve_node_class w.class ≡ done class)
        × ((launch_type q d k p v w demand existing warned).0 ≡ done it)
  unfolding resolve_launch
  resolve_launch-done p v w claim demand existing warned r class it h e =
      elim (Option-cases (check_node_claim_wanted claim w.claim)) [
        | inr (error, c) ↦ cc (simp (c, resolve_launch) at h)
        | inl c ↦ of_class c (resolve_node_class w.class) refl
      ]
    where
      of_type :
          (c : check_node_claim_wanted claim w.claim ≡ none) (x : CleverNodeClass)
          → resolve_node_class w.class ≡ done x
          → (t : Result (InstanceType Q W)) → (launch_type q d k p v w demand existing warned).0 ≡ t
          → (check_node_claim_wanted claim w.claim ≡ none)
            × (resolve_node_class w.class ≡ done class)
            × ((launch_type q d k p v w demand existing warned).0 ≡ done it)
      of_type c x f (fails error) g = cc (simp (c, f, g, resolve_launch) at h)
      of_type c x f (done y) g =
          let same : done (x, y) ≡ done (class, it) = (simp (c, f, g, resolve_launch) at h) ∙ e in
          let (of_first, of_second) = done-injective x class y it same in
          (c, f ∙ ap done of_first, g ∙ ap done of_second)

      of_class :
          (c : check_node_claim_wanted claim w.claim ≡ none) (s : Result CleverNodeClass)
          → resolve_node_class w.class ≡ s
          → (check_node_claim_wanted claim w.claim ≡ none)
            × (resolve_node_class w.class ≡ done class)
            × ((launch_type q d k p v w demand existing warned).0 ≡ done it)
      of_class c (fails error) f = cc (simp (c, f, resolve_launch) at h)
      of_class c (done x) f = of_type c x f (launch_type q d k p v w demand existing warned).0 refl
