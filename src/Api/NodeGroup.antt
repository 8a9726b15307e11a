-- ===== src/Api/NodeGroup.antt =====
-- pkg/apis/nodegroup/v1/types.go: the NodeGroup object and the readings of its status.
-- Object metadata is flat; a deletion timestamp that is not zero is `some`.
pub mod Readings
use karpenter_provider_cleve.Base.{
  ℕ, Bool, true, false, ◌&&◌, Option, none, some, List, [], ◌∷◌, Text, codes, text_eq, Map,
  if◌then◌else◌, is_some,
}

-- corev1.ConditionStatus
pub data ConditionStatus : Type 0 where
  holds fails unknown : ConditionStatus

abbrev pub is_true : ConditionStatus → Bool
is_true holds = true
is_true _ = false

pub record Condition : Type 0 where
  pub kind : Text
  pub status : ConditionStatus
  pub reason : Text
  pub message : Text

pub record OwnerReference : Type 0 where
  pub api_version : Text
  pub kind : Text
  pub name : Text
  pub uid : Text

pub record Taint : Type 0 where
  pub key : Text
  pub value : Text
  pub effect : Text

pub record NodeGroupSpec : Type 0 where
  pub flavor : Text
  pub node_count : ℕ
  pub labels : Map Text
  pub taints : List Taint

pub record NodeGroupStatus : Type 0 where
  pub conditions : List Condition
  pub phase : Text

pub record NodeGroup : Type 0 where
  pub name : Text
  pub uid : Text
  pub labels : Map Text
  pub annotations : Map Text
  pub owners : List OwnerReference
  pub finalizers : List Text
  pub created : ℕ
  pub deleted : Option ℕ
  pub spec : NodeGroupSpec
  pub status : NodeGroupStatus

abbrev pub condition_ready : Text
condition_ready = codes "Ready"

abbrev pub condition_reconcile_in_progress : Text
condition_reconcile_in_progress = codes "ReconcileInProgress"

abbrev pub condition_reconcile_failed : Text
condition_reconcile_failed = codes "ReconcileFailed"

abbrev pub quota_exceeded : Text
quota_exceeded = codes "QuotaExceeded"

abbrev pub upstream_error : Text
upstream_error = codes "UpstreamError"

-- `transientFailureReasons[reason]`
unfoldable pub is_transient : Text → Bool
is_transient reason = text_eq reason upstream_error

unfoldable pub find_condition : Text → List Condition → Option Condition
find_condition k [] = none
find_condition k (c ∷ cs) = if text_eq c.kind k then some c else find_condition k cs

-- `GetCondition`
unfoldable pub get_condition : NodeGroup → Text → Option Condition
get_condition ng k = find_condition k ng.status.conditions

-- a condition that is present with status True
unfoldable pub condition_holds : Option Condition → Bool
condition_holds none = false
condition_holds (some c) = is_true c.status

-- `reconcileFailed`
unfoldable pub reconcile_failed : NodeGroup → Option Condition
reconcile_failed ng = elim (get_condition ng condition_reconcile_failed) [
  | none ↦ none
  | some c ↦ if is_true c.status then some c else none
]

-- `IsQuotaExceeded`
unfoldable pub is_quota_exceeded : NodeGroup → Bool
is_quota_exceeded ng =
    if text_eq ng.status.phase quota_exceeded
    then true
    else elim (get_condition ng condition_reconcile_failed) [
      | none ↦ false
      | some c ↦ is_true c.status && text_eq c.reason quota_exceeded
    ]

-- `Refusal`: the reason and the message
unfoldable pub refusal : NodeGroup → Option (Text × Text)
refusal ng = elim (reconcile_failed ng) [
  | none ↦ none
  | some c ↦ if is_transient c.reason then none else some (c.reason, c.message)
]

-- `IsRefused`
unfoldable pub is_refused : NodeGroup → Bool
is_refused ng = if is_quota_exceeded ng then true else is_some (refusal ng)

-- `TransientFailure`: the reason and the message
unfoldable pub transient_failure : NodeGroup → Option (Text × Text)
transient_failure ng = elim (reconcile_failed ng) [
  | none ↦ none
  | some c ↦ if is_transient c.reason then some (c.reason, c.message) else none
]

-- `IsSynced`
unfoldable pub is_synced : NodeGroup → Bool
is_synced ng = condition_holds (get_condition ng condition_ready)

-- `IsReconciling`
unfoldable pub is_reconciling : NodeGroup → Bool
is_reconciling ng = condition_holds (get_condition ng condition_reconcile_in_progress)
