-- ===== src/Tests/Provider.antt =====
-- The provider's and the API's theorems on concrete inputs.
use karpenter_provider_cleve.Base.{
  ◌<◌, ◌≡◌, ◌≢◌, refl, ◌↔◌, ◌⊎◌, inr, true, false, none, some, [], ◌∷◌, ◌++◌, codes, text_eq,
  is_some, IsIn, All, arith, lookup,
}
use mathlib.Core.Option
use karpenter_provider_cleve.Api.NodeGroup
use karpenter_provider_cleve.Api.NodeGroup.{is_refused, refusal}
use karpenter_provider_cleve.Api.Labels.{validate_node_class_label, cel_admits}
use karpenter_provider_cleve.Api.Labels.Domains.{validate_node_class_label_iff}
use karpenter_provider_cleve.Api.NodeClass.{
  hash, hash_matches, entries, nil_if_empty, node_class_hash_version,
}
use karpenter_provider_cleve.Api.NodeClass.Drift.{own_stamp_matches}
use karpenter_provider_cleve.Provider.Identity.{
  provider_id, parse_provider_id, node_name_infix, node_group_of_node, all_digits,
}
use karpenter_provider_cleve.Provider.Identity.RoundTrip.{
  parse_provider_id-provider_id, node_group_of_node-node,
}
use karpenter_provider_cleve.Provider.Backoff.{
  QuotaRejection, Backoff, new_backoff, unavailable, is_held, quota_rejection_covering,
  record_quota_rejection, clear_quota_rejections, clear_flavor_rejection, quota_rejection_mark,
  hold_out_mark, covers_size,
}
use karpenter_provider_cleve.Flavor.Sizing.{at_least}
use karpenter_provider_cleve.Provider.Backoff.Coverage.{
  unavailable_iff, record_quota_rejection-unavailable, IsCovered,
}
use karpenter_provider_cleve.Provider.Backoff.Order.{covering_any_order, answer}
use karpenter_provider_cleve.Provider.Backoff.Marks.{
  quota, hold, apply, run, InBounds, clear_keeps_later_rejection, release_keeps_later_hold_out,
}
use karpenter_provider_cleve.Provider.Admission.{
  flavor_field, admission_flavor_refusal, admission_flavor_refusal_iff, IsBlankOrFlavor,
  NamesFlavor,
}
use karpenter_provider_cleve.Provider.Payload.{
  node_group_labels, build_node_group, node_class_hash_key, node_class_hash_version_key,
}
use karpenter_provider_cleve.Provider.Payload.Laws.{
  AllAccepted, node_group_labels-AllAccepted, build_node_group-stamp,
}
use karpenter_provider_cleve.Provider.Delete.{accepted, delete, record_late_refusal}
use karpenter_provider_cleve.Provider.Delete.Forgetting.{
  delete_iff, freed_quota, late_refusal-unavailable,
}
use karpenter_provider_cleve.Tests.Fixtures.{
  small, large, catalogue, claim, group_with, ready_condition, refused_condition, syntax, hashing,
  class, launch_of,
}

-- One quota rejection, of the small flavor.
abbrev rejected_small : Backoff
rejected_small = record {
  quota_rejections =
      (
        small,
        record {
          at = 5;
          message = codes "quota";
          seq = 1;
          size = some (record { cpu = 1; memory_ki = 10 });
        },
      )
      ∷ [];
  quota_rejection_seq = 1;
  rejected_flavors = [];
  hold_out_seq = 0;
}

new_backoff-InBounds : InBounds new_backoff
new_backoff-InBounds = record { quotas = λ e i. elim i [ ]; holds = λ e i. elim i [ ] }

unavailable_iff_example :
    (unavailable catalogue 10 large rejected_small ≡ true)
    ↔ ((is_held 10 large rejected_small ≡ true) ⊎ IsCovered catalogue 10 large rejected_small)
unavailable_iff_example = unavailable_iff catalogue 10 large rejected_small

record_quota_rejection-unavailable_example :
    unavailable catalogue 90_000_000_000 large
      (record_quota_rejection catalogue 5 small (codes "quota") new_backoff)
    ≡ true
unfolding covers_size text_eq at_least
record_quota_rejection-unavailable_example =
    record_quota_rejection-unavailable catalogue 5 small (codes "quota") new_backoff 90_000_000_000
      large (inr (ground arith, refl, omega arith))

covering_any_order_example :
    Option.map answer
      (quota_rejection_covering 10 large (some (record { cpu = 4; memory_ki = 40 })) rejected_small)
    ≡ Option.map answer (
        quota_rejection_covering 10 large
          (some (record { cpu = 4; memory_ki = 40 }))
          rejected_small)
covering_any_order_example =
    covering_any_order 10 large (some (record { cpu = 4; memory_ki = 40 })) rejected_small
      rejected_small (λ e. (λ i. i, λ i. i))

clear_keeps_later_rejection_example :
    (r : QuotaRejection) × IsIn
      (small, r)
      (clear_quota_rejections (quota_rejection_mark new_backoff) (
        apply catalogue
          (quota 7 small (codes "quota"))
          (run catalogue (hold 6 large ∷ []) new_backoff))).quota_rejections
    × (r.at ≡ 7)
    × (r.message ≡ codes "quota")
    × (r.size ≡ catalogue small)
clear_keeps_later_rejection_example =
    clear_keeps_later_rejection catalogue new_backoff (hold 6 large ∷ []) new_backoff-InBounds 7
      small (codes "quota") (omega arith, omega arith)

release_keeps_later_hold_out_example :
    is_held 8 small (
      clear_flavor_rejection small
        (hold_out_mark new_backoff)
        (apply catalogue (hold 7 small) (run catalogue (hold 6 large ∷ []) new_backoff)))
    ≡ true
release_keeps_later_hold_out_example =
    release_keeps_later_hold_out catalogue new_backoff (hold 6 large ∷ []) new_backoff-InBounds 7 8
      small (omega arith, omega arith) (omega arith)

delete_iff_example :
    IsIn
      (small, record { at = 5; message = []; seq = 1; size = none })
      (delete catalogue
        (group_with (ready_condition ∷ []))
        []
        accepted
        rejected_small).quota_rejections
    ↔ (IsIn
          (small, record { at = 5; message = []; seq = 1; size = none })
          (run catalogue [] rejected_small).quota_rejections
        × ((accepted ≢ accepted)
            ⊎ ((freed_quota (group_with (ready_condition ∷ [])) ≡ false) ⊎ (1 < 1))))
delete_iff_example =
    delete_iff catalogue (group_with (ready_condition ∷ [])) [] accepted rejected_small
      (small, record { at = 5; message = []; seq = 1; size = none })

late_refusal-unavailable_example :
    unavailable catalogue 6 small
      (record_late_refusal catalogue 5
        (codes "c1")
        (group_with (refused_condition ∷ []))
        new_backoff).backoff
    ≡ true
unfolding is_refused NodeGroup.is_quota_exceeded text_eq NodeGroup.get_condition
    NodeGroup.find_condition refusal NodeGroup.reconcile_failed NodeGroup.is_transient
late_refusal-unavailable_example =
    late_refusal-unavailable catalogue 5 6 (codes "c1") (group_with (refused_condition ∷ []))
      new_backoff refl (omega arith)

admission_flavor_refusal_iff_example :
    (is_some
        (admission_flavor_refusal (some (record { field = flavor_field; message = [] } ∷ [])) small)
      ≡ true)
    ↔ (All IsBlankOrFlavor (record { field = flavor_field; message = [] } ∷ [])
        × NamesFlavor (record { field = flavor_field; message = [] } ∷ []))
admission_flavor_refusal_iff_example =
    admission_flavor_refusal_iff (record { field = flavor_field; message = [] } ∷ []) small

node_group_labels-AllAccepted_example : AllAccepted syntax (node_group_labels syntax claim class)
node_group_labels-AllAccepted_example = node_group_labels-AllAccepted syntax claim class

build_node_group-stamp_example :
    let posted = build_node_group hashing syntax claim (launch_of none) in
    let stamp = hash hashing syntax (launch_of none).node_class.spec in
    (lookup node_class_hash_key posted.annotations ≡ some stamp)
    × (lookup node_class_hash_version_key posted.annotations ≡ some node_class_hash_version)
    × (hash_matches hashing syntax (launch_of none).node_class.spec node_class_hash_version stamp
        ≡ some true)
build_node_group-stamp_example = build_node_group-stamp hashing syntax claim (launch_of none)

parse_provider_id-provider_id_example :
    parse_provider_id (provider_id (codes "c1")) ≡ some (codes "c1")
parse_provider_id-provider_id_example = parse_provider_id-provider_id (codes "c1") (ground arith)

node_group_of_node-node_example :
    node_group_of_node (codes "a-node" ++ (node_name_infix ++ codes "0")) ≡ some (codes "a-node")
unfolding all_digits
node_group_of_node-node_example =
    node_group_of_node-node (codes "a-node") (codes "0") (ground arith) (ground arith) refl

validate_node_class_label_iff_example :
    (validate_node_class_label syntax (codes "team") (codes "a") ≡ none)
    ↔ ((cel_admits (codes "team") ≡ true) × (true ≡ true) × (true ≡ true))
validate_node_class_label_iff_example =
    validate_node_class_label_iff syntax (codes "team") (codes "a")

own_stamp_matches_example :
    (hash_matches hashing syntax class.spec [] (hashing class.spec) ≡ some true)
    × (hash_matches hashing syntax class.spec (codes "v1") (hashing class.spec) ≡ some true)
    × (hash_matches hashing syntax class.spec
          (codes "v2")
          (hashing (record { labels = nil_if_empty (entries class.spec.labels) }))
        ≡ some true)
    × (hash_matches hashing syntax class.spec (codes "v3") (hash hashing syntax class.spec)
        ≡ some true)
own_stamp_matches_example = own_stamp_matches syntax hashing class.spec
