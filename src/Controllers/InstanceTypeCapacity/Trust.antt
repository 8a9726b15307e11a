-- ===== src/Controllers/InstanceTypeCapacity/Trust.antt =====
-- Whose reports reach the catalogue.
use karpenter_provider_cleve.Base.{
  ℕ, ◌≡◌, ◌≢◌, refl, ap, ◌∙◌, ◌⊎◌, inl, inr, true, Option, none, some, Text, text_eq, text_eq_iff,
  arith, Bool-cases, Option-cases,
}
use karpenter_provider_cleve.Flavor.Numbers.{Doubles, Quantities}
use karpenter_provider_cleve.Flavor.Reports.{ObservedCapacity}
use karpenter_provider_cleve.Flavor.TypeProvider.{TypeProvider}
use karpenter_provider_cleve.Flavor.TypeProvider.Reporting.{
  RecordResult, accepted, implausible, record_observed_capacity, merge_observed,
}
use karpenter_provider_cleve.Flavor.TypeProvider.Kept.{
  kept, merge_kept, record_observed_capacity-kept,
}
use karpenter_provider_cleve.Api.NodeGroup.{NodeGroup}
use karpenter_provider_cleve.Provider.Identity.{node_group_of_node, value_of, is_managed}
use karpenter_provider_cleve.Controllers.Reads.{Answer, got, nothing, broken}
use karpenter_provider_cleve.Controllers.ProviderId.{node_group_node_label}
use karpenter_provider_cleve.Controllers.InstanceTypeCapacity.{
  flavor_label, ReportingNode, World, State, is_worker_with_capacity, was_logged, reject,
  record_report, is_node_of, check_group, reconcile,
}

module _ {Q W : Type 0} (q : Quantities Q W) (d : Doubles W) where
  merge_kept-other :
      (p : TypeProvider Q W) (flavor name : Text) (k : Option (ObservedCapacity Q))
      → name ≢ flavor
      → (merge_kept q d p flavor k).observed name ≡ p.observed name
  unfolding merge_kept merge_observed
  merge_kept-other p flavor name none h = refl
  merge_kept-other p flavor name (some o) h = ground (arith, text_eq_iff flavor name)

  reject-provider :
      (now : ℕ) (name : Text) (s : State Q W) → (reject q d now name s).provider ≡ s.provider
  unfolding reject
  reject-provider now name s = elim (Bool-cases (was_logged q d now name s.rejection_logged)) [
    | inl h ↦ simp (h, reject) refl
    | inr h ↦ simp (h, reject) refl
  ]

  -- A report reaches the provider by `RecordObservedCapacity` alone.
  record_report-provider :
      (now : ℕ) (node : ReportingNode Q) (flavor : Text) (s : State Q W)
      → (record_report q d now node flavor s).provider
        ≡ (record_observed_capacity q d s.provider flavor node.capacity node.allocatable).0
  unfolding record_report
  record_report-provider now node flavor s =
      of_result (record_observed_capacity q d s.provider flavor node.capacity node.allocatable) refl
    where
      of_result :
          (r : TypeProvider Q W × RecordResult W)
          → record_observed_capacity q d s.provider flavor node.capacity node.allocatable ≡ r
          → (record_report q d now node flavor s).provider ≡ r.0
      of_result (p, accepted deviation) e = simp (record_report, e) refl
      of_result (p, implausible error) e =
          simp (record_report, e) (reject-provider now node.name (record s { provider = p }))

  is_node_of-node_group_of_node :
      (name group : Text) → is_node_of q d name group ≡ true → node_group_of_node name ≡ some group
  unfolding is_node_of
  is_node_of-node_group_of_node name group h = elim (Option-cases (node_group_of_node name)) [
    | inl e ↦ cc (rw (e, is_node_of) at h)
    | inr (owner, e) ↦ e ∙ ap some ((text_eq_iff owner group).0 (rw (e, is_node_of) at h))
  ]

  -- The node's name makes it one of the group's, the group is managed and of the flavor that the node
  -- claims, and no other flavor is touched.
  pub record IsTrusted (s s' : State Q W) (node : ReportingNode Q) (ng : NodeGroup) : Type 0 where
    pub managed : is_managed ng ≡ true
    pub named : node_group_of_node node.name ≡ some ng.name
    pub flavored : ng.spec.flavor ≡ value_of node.labels flavor_label
    pub recorded :
        s'.provider
        ≡ (record_observed_capacity q d s.provider ng.spec.flavor node.capacity node.allocatable).0
    pub others :
        (name : Text) → name ≢ ng.spec.flavor → s'.provider.observed name ≡ s.provider.observed name

  check_group-IsTrusted :
      (now : ℕ) (node : ReportingNode Q) (group : Answer NodeGroup) (s : State Q W)
      → ((check_group q d now node group s).1.provider ≡ s.provider)
        ⊎ ((ng : NodeGroup) × (group ≡ got ng)
            × IsTrusted s (check_group q d now node group s).1 node ng)
  unfolding check_group
  check_group-IsTrusted now node nothing s = inl refl
  check_group-IsTrusted now node broken s = inl refl
  check_group-IsTrusted now node (got ng) s = elim (Bool-cases (is_managed ng)) [
    | inr m ↦ inl (simp (m, check_group) refl)
    | inl m ↦ elim (Bool-cases (is_node_of q d node.name ng.name)) [
      | inr n ↦ inl (simp (m, n, check_group) (reject-provider now node.name s))
      | inl n ↦ elim (Bool-cases (text_eq ng.spec.flavor (value_of node.labels flavor_label))) [
        | inr f ↦ inl (simp (m, n, f, check_group) (reject-provider now node.name s))
        | inl f ↦
            let kept_by =
              record_report-provider now node ng.spec.flavor s
              ∙ record_observed_capacity-kept q d s.provider ng.spec.flavor node.capacity
                  node.allocatable in
            inr (
              ng,
              refl,
              simp (m, n, f, check_group)
                  (record {
                    managed = m;
                    named = is_node_of-node_group_of_node node.name ng.name n;
                    flavored = (text_eq_iff ng.spec.flavor (value_of node.labels flavor_label)).0 f;
                    recorded = record_report-provider now node ng.spec.flavor s;
                    others = λ name h.
                        ap (λ (p : TypeProvider Q W). p.observed name) kept_by
                        ∙ merge_kept-other s.provider ng.spec.flavor name
                            (kept q d s.provider ng.spec.flavor node.capacity node.allocatable) h;
                  }),
            )
      ]
    ]
  ]

  -- A reconcile changes the catalogue only by the report of a node that was read, with a posted
  -- capacity, whose name is one of the names that the platform gives to the nodes of a managed group,
  -- that group being the one that its label names and that has the flavor of its label; and then only the
  -- observations of that flavor change.
  pub reconcile-IsTrusted :
      (w : World Q) (s : State Q W)
      → ((reconcile q d w s).1.provider ≡ s.provider)
        ⊎ ((node : ReportingNode Q) × (ng : NodeGroup) × (w.node ≡ got node)
            × (is_worker_with_capacity q d node ≡ true)
            × (w.group (value_of node.labels node_group_node_label) ≡ got ng)
            × IsTrusted s (reconcile q d w s).1 node ng)
  unfolding reconcile
  reconcile-IsTrusted w s = of_node w.node refl
    where
      of_node :
          (answer : Answer (ReportingNode Q))
          → w.node ≡ answer
          → ((reconcile q d w s).1.provider ≡ s.provider)
            ⊎ ((node : ReportingNode Q) × (ng : NodeGroup) × (w.node ≡ got node)
                × (is_worker_with_capacity q d node ≡ true)
                × (w.group (value_of node.labels node_group_node_label) ≡ got ng)
                × IsTrusted s (reconcile q d w s).1 node ng)
      of_node nothing e = inl (simp (e, reconcile) refl)
      of_node broken e = inl (simp (e, reconcile) refl)
      of_node (got node) e = elim (Bool-cases (is_worker_with_capacity q d node)) [
        | inr h ↦ inl (simp (e, h, reconcile) refl)
        | inl h ↦
            elim (check_group-IsTrusted w.now node
              (w.group (value_of node.labels node_group_node_label)) s) [
                | inl p ↦ inl (simp (e, h, reconcile) p)
                | inr (ng, g, t) ↦ inr (node, ng, e, h, g, simp (e, h, reconcile) t)
              ]
      ]
