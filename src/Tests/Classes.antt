-- ===== src/Tests/Classes.antt =====
-- The theorem on the nodeclass controller, on a class with a legacy label.
use karpenter_provider_cleve.Provider.Identity.{value_of, is_managed}
use karpenter_provider_cleve.Controllers.HashMigration.{is_selected}
use karpenter_provider_cleve.Api.Labels.{
  validate_node_class_label, is_legacy_node_class_label, in_kubernetes_io_domain,
}
use karpenter_provider_cleve.Base.{
  text_eq, lookup, contains, any, refl, true, false, none, some, [], ◌∷◌, codes,
}
use karpenter_provider_cleve.Api.NodeClass.{CleverNodeClass}
use karpenter_provider_cleve.Controllers.Reads.{got}
use karpenter_provider_cleve.Controllers.ProviderId.{patched}
use karpenter_provider_cleve.Controllers.NodeClass.{World, ClassObject, stored, reconcile}
use karpenter_provider_cleve.Controllers.NodeClass.Advice.{IsSound, reconcile-IsSound}
use karpenter_provider_cleve.Tests.Fixtures.{
  class, claim, group_with, ready_condition, syntax, hashing,
}

abbrev legacy : CleverNodeClass
legacy = record class {
  spec = record { labels = some ((codes "x.kubernetes.io/y", codes "a") ∷ []) };
}

abbrev object : ClassObject
object = record {
  class = legacy;
  status = record { validation = none; api_served = none; labels_ignored = none };
}

abbrev world : World
world = record {
  object = got object;
  claims = some [];
  finalizer_patch = patched;
  serves_api = true;
  migration = record { lists = true; claim = λ name. got claim; patch = λ name. patched };
  status_patch = stored;
  equal = λ x y. false;
}

reconcile-IsSound_example :
    IsSound hashing syntax world legacy
      (group_with (ready_condition ∷ []) ∷ [])
      (reconcile hashing syntax world (group_with (ready_condition ∷ []) ∷ [])).groups
      (codes "x.kubernetes.io/y" ∷ [])
unfolding reconcile any validate_node_class_label in_kubernetes_io_domain contains
    is_legacy_node_class_label value_of lookup text_eq is_selected is_managed
reconcile-IsSound_example =
    reconcile-IsSound hashing syntax world object (group_with (ready_condition ∷ []) ∷ [])
      (codes "x.kubernetes.io/y" ∷ []) refl refl
