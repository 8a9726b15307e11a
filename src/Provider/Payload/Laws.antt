-- ===== src/Provider/Payload/Laws.antt =====
-- What every NodeGroup that is posted has.
use karpenter_provider_cleve.Base.{
  ℕ, ◌≡◌, refl, inl, inr, true, none, some, [], ◌∷◌, Text, text_eq, text_eq_iff, text_eq_refl, Map,
  lookup, insert, lookup-insert, IsIn, IsIn-insert, arith, Option-cases, any,
}
use karpenter_provider_cleve.Api.NodeClaim.{NodeClaim}
use karpenter_provider_cleve.Api.Labels.{LabelSyntax, validate_node_class_label}
use karpenter_provider_cleve.Api.NodeClass.{
  CleverNodeClass, Hashing, entries, hash, hash_matches, node_class_hash_version,
}
use karpenter_provider_cleve.Api.NodeClass.Drift.{own_stamp_matches}
use karpenter_provider_cleve.Provider.Identity.{
  owned_by_node_claim, is_managed, value_of, is_reference_to,
}
use karpenter_provider_cleve.Provider.Payload.{
  Launch, is_node_group_label_allowed, add_allowed, node_group_labels, add_unreserved,
  build_node_group, node_class_hash_key, node_class_hash_version_key,
}

module _ (syntax : LabelSyntax) where
  -- Every label is one that the shared rule accepts.
  abbrev pub AllAccepted : Map Text → Type 0
  AllAccepted m = (e : Text × Text) → IsIn e m → validate_node_class_label syntax e.0 e.1 ≡ none

  add_allowed-AllAccepted :
      (m labels : Map Text) → AllAccepted labels → AllAccepted (add_allowed syntax m labels)
  unfolding add_allowed is_node_group_label_allowed
  add_allowed-AllAccepted [] labels h = h
  add_allowed-AllAccepted (x ∷ m) labels h =
      elim (Option-cases (validate_node_class_label syntax x.0 x.1)) [
        | inl fine ↦
            rw (fine, add_allowed)
              (add_allowed-AllAccepted m (insert x.0 x.1 labels) (λ e i.
                elim (IsIn-insert x.0 x.1 e labels i) [
                  | inl p ↦ ground arith
                  | inr (j, _) ↦ h e j
                ]))
        | inr (error, bad) ↦ rw (bad, add_allowed) (add_allowed-AllAccepted m labels h)
      ]

  -- No label that the shared rule rejects reaches the payload, wherever it came from.
  pub node_group_labels-AllAccepted :
      (claim : NodeClaim) (class : CleverNodeClass)
      → AllAccepted (node_group_labels syntax claim class)
  unfolding node_group_labels
  node_group_labels-AllAccepted claim class =
      add_allowed-AllAccepted claim.labels _
        (add_allowed-AllAccepted (entries class.spec.labels) [] (λ e i. elim i [ ]))

add_unreserved-lookup :
    (m annotations : Map Text) (key value : Text)
    → lookup key annotations ≡ some value
    → lookup key (add_unreserved m annotations) ≡ some value
unfolding add_unreserved
add_unreserved-lookup [] annotations key value h = h
add_unreserved-lookup (e ∷ m) annotations key value h =
    add_unreserved-lookup m _ key value
      (ground (arith, h, lookup-insert e.0 key e.1 annotations, text_eq_iff e.0 key))

module _ (hash_of : Hashing) (syntax : LabelSyntax) (claim : NodeClaim) (launch : Launch) where
  -- Whatever annotations a launch brings, the posted group carries the stamp of its NodeClass, and
  -- that stamp matches the NodeClass: a new node is not drifted.
  pub build_node_group-stamp :
      let posted = build_node_group hash_of syntax claim launch in
      let stamp = hash hash_of syntax launch.node_class.spec in
      (lookup node_class_hash_key posted.annotations ≡ some stamp)
      × (lookup node_class_hash_version_key posted.annotations ≡ some node_class_hash_version)
      × (hash_matches hash_of syntax launch.node_class.spec node_class_hash_version stamp
          ≡ some true)
  unfolding build_node_group lookup text_eq
  build_node_group-stamp = (
    add_unreserved-lookup launch.annotations _ node_class_hash_key _ refl,
    add_unreserved-lookup launch.annotations _ node_class_hash_version_key _ refl,
    (own_stamp_matches syntax hash_of launch.node_class.spec).3,
  )

  -- The posted group is the claim's own, and not that of a claim with another uid.
  pub build_node_group-owned :
      (other : NodeClaim)
      → (owned_by_node_claim (build_node_group hash_of syntax claim launch) claim ≡ true)
        × (owned_by_node_claim (build_node_group hash_of syntax claim launch) other ≡ true
            → other.uid ≡ claim.uid)
  unfolding build_node_group owned_by_node_claim is_managed value_of any is_reference_to lookup
      text_eq
  build_node_group-owned other = (
    ground (arith, text_eq_refl claim.name, text_eq_refl claim.uid),
    ground (arith, text_eq_iff claim.uid other.uid),
  )

  -- What the API server fills in does not change that.
  pub posted_owned :
      (uid : Text) (created : ℕ)
      → owned_by_node_claim
          (record (build_node_group hash_of syntax claim launch) { uid = uid; created = created })
          claim
        ≡ true
  unfolding build_node_group owned_by_node_claim is_managed value_of any is_reference_to lookup
      text_eq
  posted_owned uid created = ground (arith, text_eq_refl claim.name, text_eq_refl claim.uid)
