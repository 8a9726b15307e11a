-- ===== src/Api/NodeGroup/Readings.antt =====
-- What the readings of a NodeGroup's status (pkg/apis/nodegroup/v1/types.go) have to do with one
-- another.
use karpenter_provider_cleve.Base.{
  ◌≡◌, ◌≢◌, ◌↔◌, ◌⊎◌, inl, inr, true, none, some, text_eq_iff, text_eq, is_some, Bool-cases, arith,
  Option-cases,
}
use karpenter_provider_cleve.Api.NodeGroup.{
  NodeGroup, Condition, quota_exceeded, upstream_error, is_transient, reconcile_failed,
  is_quota_exceeded, refusal, is_refused, transient_failure, get_condition,
  condition_reconcile_failed,
}

-- What `Refusal` and `TransientFailure` report of a ReconcileFailed condition that is True: the one
-- or the other, never both, and which of them is decided by the reason alone.
pub reconcile_failed_splits :
    (ng : NodeGroup) (c : Condition)
    → reconcile_failed ng ≡ some c
    → ((c.reason ≡ upstream_error)
        × (refusal ng ≡ none)
        × (transient_failure ng ≡ some (c.reason, c.message)))
      ⊎ ((c.reason ≢ upstream_error)
          × (refusal ng ≡ some (c.reason, c.message))
          × (transient_failure ng ≡ none))
unfolding refusal transient_failure is_transient
reconcile_failed_splits ng c h = ground (arith, text_eq_iff c.reason upstream_error)

-- With no such condition neither reports anything.
pub reconcile_failed-none :
    (ng : NodeGroup)
    → reconcile_failed ng ≡ none
    → (refusal ng ≡ none) × (transient_failure ng ≡ none)
unfolding refusal transient_failure
reconcile_failed-none ng h = ground arith

-- Unless the phase says so, a quota verdict is one of the refusals.
quota_condition-refusal :
    (ng : NodeGroup)
    → is_quota_exceeded ng ≡ true
    → ng.status.phase ≢ quota_exceeded
    → is_some (refusal ng) ≡ true
unfolding is_quota_exceeded refusal reconcile_failed is_transient
quota_condition-refusal ng h p = elim (Option-cases (get_condition ng condition_reconcile_failed)) [
  | inl e ↦ ground (arith, text_eq_iff ng.status.phase quota_exceeded)
  | inr (c, e) ↦ ground (
    arith,
    text_eq_iff ng.status.phase quota_exceeded,
    text_eq_iff c.reason quota_exceeded,
    text_eq_iff c.reason upstream_error,
  )
]

is_refused_forth :
    (ng : NodeGroup)
    → is_refused ng ≡ true
    → (ng.status.phase ≡ quota_exceeded) ⊎ (is_some (refusal ng) ≡ true)
unfolding is_refused
is_refused_forth ng h = elim (Bool-cases (text_eq ng.status.phase quota_exceeded)) [
  | inl e ↦ inl ((text_eq_iff ng.status.phase quota_exceeded).0 e)
  | inr e ↦
      inr (ground (arith, text_eq_iff ng.status.phase quota_exceeded, quota_condition-refusal ng))
]

is_refused_back :
    (ng : NodeGroup)
    → (ng.status.phase ≡ quota_exceeded) ⊎ (is_some (refusal ng) ≡ true)
    → is_refused ng ≡ true
unfolding is_refused is_quota_exceeded
is_refused_back ng (inl e) = ground (arith, text_eq_iff ng.status.phase quota_exceeded)
is_refused_back ng (inr e) = ground arith

-- `IsRefused` holds exactly of a group with phase QuotaExceeded or with a refusal: the quota reason
-- of the condition adds nothing to the refusals.
pub is_refused_iff :
    (ng : NodeGroup)
    → (is_refused ng ≡ true) ↔ ((ng.status.phase ≡ quota_exceeded) ⊎ (is_some (refusal ng) ≡ true))
is_refused_iff ng = (is_refused_forth ng, is_refused_back ng)
