-- ===== src/Provider/Acceptance/Verdict.antt =====
-- What one turn of the acceptance poll decides, from a read that found the group.
use karpenter_provider_cleve.Base.{
  ℕ, ◌≡◌, refl, ◌⊎◌, inl, inr, true, false, none, some, [], ◌∷◌, ◌++◌, Text, is_some, is_some-none,
  Bool-cases, Option-cases,
}
use karpenter_provider_cleve.Api.NodeGroup.{
  NodeGroup, is_quota_exceeded, refusal, is_refused, is_synced, is_reconciling,
}
use karpenter_provider_cleve.Provider.Backoff.{Catalogue, record_quota_rejection}
use karpenter_provider_cleve.Provider.Effects.{
  deletes, counts, node_group_quota_rejections, node_group_rejections, CreateError, quota_exceeded,
  flavor_rejected, vanished,
}
use karpenter_provider_cleve.Provider.Acceptance.{
  Acceptance, acknowledged, ready, PollState, Turn, again, done, stop, expire, decide,
  refused_or_pending, failure_message,
}

-- A group that stays and that the operator refused before it was up.
abbrev pub IsLostCause : NodeGroup → Type 0
IsLostCause ng = (ng.deleted ≡ none) × (is_synced ng ≡ false) × (is_refused ng ≡ true)

-- A group that stays and that the operator took: its machine is up, or it is being built.
abbrev pub IsTaken : Acceptance → NodeGroup → Type 0
IsTaken accepted ng =
    (ng.deleted ≡ none)
    × (((accepted ≡ ready) × (is_synced ng ≡ true))
        ⊎ ((accepted ≡ acknowledged)
            × (is_synced ng ≡ false)
            × (is_refused ng ≡ false)
            × (is_reconciling ng ≡ true)))

-- A group on which there is no decision yet.
abbrev pub IsPending : NodeGroup → Type 0
IsPending ng =
    (ng.deleted ≡ none)
    × (is_synced ng ≡ false)
    × (is_refused ng ≡ false)
    × (is_reconciling ng ≡ false)

-- The state after a refusal: the quota's is recorded, each is counted, and the group is deleted.
abbrev pub Refused : Catalogue → ℕ → Text → NodeGroup → PollState → CreateError → PollState → Type 0
Refused sizing now name ng s error t =
    ((is_quota_exceeded ng ≡ true)
      × (error ≡ quota_exceeded ng.spec.flavor (failure_message ng))
      × (t.backoff
          ≡ record_quota_rejection sizing now ng.spec.flavor (failure_message ng) s.backoff)
      × (t.effects ≡ s.effects ++ (counts node_group_quota_rejections ∷ deletes name ∷ [])))
    ⊎ ((is_quota_exceeded ng ≡ false)
        × ((r : Text × Text) × (refusal ng ≡ some r)
            × (error ≡ flavor_rejected ng.spec.flavor r.0 r.1))
        × (t.backoff ≡ s.backoff)
        × (t.effects ≡ s.effects ++ (counts node_group_rejections ∷ deletes name ∷ [])))

-- What a turn says of the group that it read, and what it did.
abbrev pub Decides : Catalogue → ℕ → Text → NodeGroup → PollState → Turn → Type 0
Decides sizing now name ng s (again t) = IsPending ng × (t ≡ s)
Decides sizing now name ng s (done accepted t) = IsTaken accepted ng × (t ≡ s)
Decides sizing now name ng s (stop error t) =
    ((is_some ng.deleted ≡ true) × (error ≡ vanished name) × (t ≡ s))
    ⊎ (IsLostCause ng × Refused sizing now name ng s error t)
Decides sizing now name ng s (expire t) = ⊥

decide-pending :
    (sizing : Catalogue) (now : ℕ) (name : Text) (ng : NodeGroup) (s : PollState)
    → ng.deleted ≡ none
    → is_synced ng ≡ false
    → is_quota_exceeded ng ≡ false
    → Decides sizing now name ng s (refused_or_pending name ng s)
unfolding is_refused refused_or_pending
decide-pending sizing now name ng s stays unsynced fits = elim (Option-cases (refusal ng)) [
  | inr (r, p) ↦
      rw (p, refused_or_pending)
        (inr ((stays, unsynced, rw (fits, p) refl), inr (fits, (r, p, refl), refl, refl)))
  | inl p ↦
      rw (p, refused_or_pending)
        (elim (Bool-cases (is_reconciling ng)) [
          | inl e ↦ rw e ((stays, inr (refl, unsynced, rw (fits, p) refl, e)), refl)
          | inr e ↦ rw e ((stays, unsynced, rw (fits, p) refl, e), refl)
        ])
]

-- The order of the tests on a group that was found, in one statement: a group that is going away ends the poll as
-- vanished; of one that stays, being up wins over every refusal, a refusal over being in progress,
-- and a group that is neither is read again. Only a refusal records, counts and deletes anything.
pub decide-Decides :
    (sizing : Catalogue) (now : ℕ) (name : Text) (ng : NodeGroup) (s : PollState)
    → Decides sizing now name ng s (decide sizing now name ng s)
unfolding decide is_refused
decide-Decides sizing now name ng s = elim (Bool-cases (is_some ng.deleted)) [
  | inl p ↦ rw (p, decide) (inl (p, refl, refl))
  | inr p ↦
      rw (p, decide)
        (let stays = is_some-none ng.deleted p in
          elim (Bool-cases (is_synced ng)) [
            | inl up ↦ rw up ((stays, inl (refl, up)), refl)
            | inr down ↦ rw down (elim (Bool-cases (is_quota_exceeded ng)) [
              | inl over ↦ rw over (inr ((stays, down, rw over refl), inl (over, refl, refl, refl)))
              | inr fits ↦ rw fits (decide-pending sizing now name ng s stays down fits)
            ])
          ])
]
