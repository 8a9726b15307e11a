-- ===== src/Api/Labels/Domains.antt =====
-- How the three rules on a label key, ValidateNodeClassLabel, the CEL rule and
-- IsLegacyNodeClassLabel, fit together.
use karpenter_provider_cleve.Base.{◌≡◌, ◌≢◌, ◌↔◌, true, false, none, Text, arith, length, ◌≤◌}
use karpenter_provider_cleve.Api.Labels.{
  LabelSyntax, validate_node_class_label, is_legacy_node_class_label, cel_admits,
  in_kubernetes_io_domain, in_karpenter_domain,
}

-- A label is delivered exactly if the CEL rule admits its key and apimachinery its key and its value:
-- the CEL rule is the whole of the rule but the syntax.
pub validate_node_class_label_iff :
    (syntax : LabelSyntax) (key value : Text)
    → (validate_node_class_label syntax key value ≡ none) ↔ (
        (cel_admits key ≡ true)
        × (syntax.is_qualified_name key ≡ true)
        × (syntax.is_valid_label_value value ≡ true))
unfolding validate_node_class_label cel_admits in_kubernetes_io_domain in_karpenter_domain
validate_node_class_label_iff syntax key value = ground arith

-- A label that is tolerated as a legacy one is never delivered, whatever the syntax, is refused by the
-- CEL rule, and its value is no longer than 63 bytes.
pub legacy_label_undelivered :
    (syntax : LabelSyntax) (key value : Text)
    → is_legacy_node_class_label key value ≡ true
    → (validate_node_class_label syntax key value ≢ none)
      × (cel_admits key ≡ false)
      × (length value ≤ 63)
unfolding validate_node_class_label is_legacy_node_class_label cel_admits in_kubernetes_io_domain
    in_karpenter_domain
legacy_label_undelivered syntax key value h = ground arith
