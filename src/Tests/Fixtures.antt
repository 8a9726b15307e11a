-- ===== src/Tests/Fixtures.antt =====
-- A NodeGroup, a NodeClaim, a NodeClass and a catalogue to apply the theorems to.
use karpenter_provider_cleve.Base.{
  true, false, Option, none, some, List, [], ◌∷◌, Text, codes, text_eq, if◌then◌else◌,
}
use karpenter_provider_cleve.Api.NodeGroup.{
  NodeGroup, Condition, OwnerReference, holds, condition_ready, condition_reconcile_failed,
}
use karpenter_provider_cleve.Api.NodeClaim.{NodeClaim, clever_group}
use karpenter_provider_cleve.Api.NodeClass.{CleverNodeClass, Hashing}
use karpenter_provider_cleve.Api.Labels.{LabelSyntax}
use karpenter_provider_cleve.Provider.Identity.{managed_label, node_claim_label}
use karpenter_provider_cleve.Provider.Backoff.{Catalogue}
use karpenter_provider_cleve.Provider.Payload.{Launch}

abbrev pub small : Text
small = codes "S"

abbrev pub large : Text
large = codes "L"

abbrev pub claim_name : Text
claim_name = codes "c1"

abbrev pub claim_uid : Text
claim_uid = codes "u1"

abbrev pub catalogue : Catalogue
catalogue flavor =
    if text_eq flavor (codes "S")
    then some (record { cpu = 1; memory_ki = 10 })
    else some (record { cpu = 4; memory_ki = 40 })

abbrev pub claim : NodeClaim
claim = record {
  name = codes "c1";
  uid = codes "u1";
  resource_version = [];
  labels = (codes "team", codes "a") ∷ [];
  created = 0;
  deleted = none;
  class_ref =
      some (record { group = clever_group; kind = codes "CleverNodeClass"; name = codes "k" });
  provider_id = codes "clevercloud://c1";
  launched = true;
  registered = false;
  drifted = false;
}

abbrev pub owner : OwnerReference
owner = record {
  api_version = codes "karpenter.sh/v1";
  kind = codes "NodeClaim";
  name = codes "c1";
  uid = codes "u1";
}

abbrev pub ready_condition : Condition
ready_condition = record { kind = condition_ready; status = holds; reason = []; message = [] }

abbrev pub refused_condition : Condition
refused_condition = record {
  kind = condition_reconcile_failed;
  status = holds;
  reason = codes "FlavorNotFound";
  message = codes "no such flavor";
}

-- The claim's group under some conditions.
abbrev pub group_with : List Condition → NodeGroup
group_with conditions = record {
  name = codes "c1";
  uid = codes "g1";
  labels = (managed_label, codes "true") ∷ (node_claim_label, codes "c1") ∷ [];
  annotations = [];
  owners = owner ∷ [];
  finalizers = [];
  created = 0;
  deleted = none;
  spec = record { flavor = codes "S"; node_count = 1; labels = []; taints = [] };
  status = record { conditions = conditions; phase = [] };
}

abbrev pub syntax : LabelSyntax
syntax = record { is_qualified_name = λ _. true; is_valid_label_value = λ _. true }

abbrev pub hashing : Hashing
hashing spec = codes "h"

abbrev pub class : CleverNodeClass
class = record {
  name = codes "k";
  spec = record { labels = some ((codes "team", codes "a") ∷ []) };
  deleted = none;
  finalizers = [];
  ready = true;
}

abbrev pub launch_of : Option NodeGroup → Launch
launch_of existing = record {
  node_class = class;
  flavor = codes "S";
  annotations = [];
  existing = existing;
}
