-- ===== src/Provider/Delete/Forgetting.antt =====
-- What a DELETE makes the provider forget, and what a late refusal makes it remember.
use karpenter_provider_cleve.Base.{
  ℕ, ◌+◌, ◌<◌, ◌≡◌, refl, ◌↔◌, ◌≢◌, ◌⊎◌, inl, inr, Bool, true, false, not, ◌||◌, List, [], Text,
  arith, IsIn, Option-cases, Bool-cases,
}
use karpenter_provider_cleve.Api.NodeGroup.{
  NodeGroup, is_quota_exceeded, is_refused, is_synced, refusal,
}
use karpenter_provider_cleve.Provider.Backoff.{
  QuotaRejection, Catalogue, Backoff, quota_rejection_mark, unavailable, quota_backoff,
}
use karpenter_provider_cleve.Provider.Backoff.Coverage.{record_quota_rejection-unavailable}
use karpenter_provider_cleve.Provider.Backoff.Marks.{Call, run, clear_quota_rejections_iff}
use karpenter_provider_cleve.Provider.Create.Failure.{record_flavor_rejection-unavailable}
use karpenter_provider_cleve.Provider.Acceptance.{failure_message}
use karpenter_provider_cleve.Provider.Delete.{
  DeleteReply, accepted, absent, rejected, forget_quota, delete, record_late_refusal,
}

-- The group freed quota by going: it was synced, or never refused.
abbrev pub freed_quota : NodeGroup → Bool
freed_quota ng = is_synced ng || not (is_refused ng)

-- Deleting a group that was refused and never synced, or a DELETE that fails, forgets nothing; the
-- accepted DELETE of any other group keeps exactly the rejections recorded since the call began.
pub delete_iff :
    (sizing : Catalogue) (ng : NodeGroup) (calls : List Call) (reply : DeleteReply) (b : Backoff)
    (e : Text × QuotaRejection)
    → IsIn e (delete sizing ng calls reply b).quota_rejections ↔ (
        IsIn e (run sizing calls b).quota_rejections
        × ((reply ≢ accepted) ⊎ ((freed_quota ng ≡ false) ⊎ (b.quota_rejection_seq < e.1.seq))))
unfolding delete forget_quota quota_rejection_mark
delete_iff sizing ng calls absent b e = (λ i. (i, inl (λ h. cc)), λ h. h.0)
delete_iff sizing ng calls (rejected m) b e = (λ i. (i, inl (λ h. cc)), λ h. h.0)
delete_iff sizing ng calls accepted b e = elim (Bool-cases (freed_quota ng)) [
  | inr kept ↦ (
    λ i. (rw (kept, delete, forget_quota) at i, inr (inl kept)),
    λ h. rw (kept, delete, forget_quota) h.0,
  )
  | inl freed ↦ (
    λ i.
        let k =
          (clear_quota_rejections_iff b.quota_rejection_seq (run sizing calls b) e).0
            (rw (freed, delete, forget_quota) at i) in
        (k.0, inr (inr k.1)),
    λ h.
        rw (freed, delete, forget_quota)
          ((clear_quota_rejections_iff b.quota_rejection_seq (run sizing calls b) e).1
            (h.0, elim h.1 [ inl n ↦ absurd (n refl) | inr (inl n) ↦ cc | inr (inr n) ↦ n ])),
  )
]

-- A refusal that is noticed after the launch makes the group's flavor unavailable from then on, for the
-- quota backoff at least.
pub late_refusal-unavailable :
    (sizing : Catalogue) (at now : ℕ) (claim : Text) (ng : NodeGroup) (b : Backoff)
    → is_refused ng ≡ true
    → now < at + quota_backoff
    → unavailable sizing now ng.spec.flavor (record_late_refusal sizing at claim ng b).backoff
      ≡ true
unfolding record_late_refusal is_refused
late_refusal-unavailable sizing at now claim ng b h early =
    elim (Bool-cases (is_quota_exceeded ng)) [
      | inl quota ↦
          rw (quota, record_late_refusal)
            (record_quota_rejection-unavailable sizing at ng.spec.flavor (failure_message ng) b now
              ng.spec.flavor (inl (refl, early)))
      | inr other ↦ elim (Option-cases (refusal ng)) [
        | inl p ↦ cc (rw (other, p, is_refused) at h)
        | inr (r, p) ↦
            rw (other, p, record_late_refusal)
              (record_flavor_rejection-unavailable sizing at now ng.spec.flavor b (omega arith))
      ]
    ]

-- A group that is not refused is ignored: no state, no counter, no event.
pub late_refusal_ignored :
    (sizing : Catalogue) (at : ℕ) (claim : Text) (ng : NodeGroup) (b : Backoff)
    → is_refused ng ≡ false
    → record_late_refusal sizing at claim ng b ≡ record { backoff = b; effects = [] }
unfolding record_late_refusal is_refused
late_refusal_ignored sizing at claim ng b h = elim (Bool-cases (is_quota_exceeded ng)) [
  | inl quota ↦ cc (rw (quota, is_refused) at h)
  | inr other ↦ elim (Option-cases (refusal ng)) [
    | inl p ↦ rw (other, p, record_late_refusal) refl
    | inr (r, p) ↦ cc (rw (other, p, is_refused) at h)
  ]
]
