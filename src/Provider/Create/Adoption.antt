-- ===== src/Provider/Create/Adoption.antt =====
-- `ResolveAndCreate` hands back the claim's own group only.
use karpenter_provider_cleve.Base.{
  ℕ, ◌≡◌, refl, subst, true, Option, none, some, List, Text, Bool-cases, Option-cases, inl, inr,
  ◌⊎◌,
}
use karpenter_provider_cleve.Api.NodeGroup.{NodeGroup}
use karpenter_provider_cleve.Api.NodeClaim.{NodeClaim}
use karpenter_provider_cleve.Api.Labels.{LabelSyntax}
use karpenter_provider_cleve.Api.NodeClass.{Hashing}
use karpenter_provider_cleve.Provider.Identity.{owned_by_node_claim}
use karpenter_provider_cleve.Provider.Backoff.{Backoff, Catalogue, FastFail, hold_out_mark}
use karpenter_provider_cleve.Provider.Effects.{Effect, CreateError, quota_exceeded}
use karpenter_provider_cleve.Provider.Acceptance.{Acceptance, unacknowledged, wait_for_acceptance}
use karpenter_provider_cleve.Provider.Admission.{admission_flavor_refusal}
use karpenter_provider_cleve.Provider.Backoff.Marks.{run}
use karpenter_provider_cleve.Provider.Payload.{Launch, build_node_group}
use karpenter_provider_cleve.Provider.Payload.Laws.{posted_owned}
use karpenter_provider_cleve.Provider.Create.{
  World, CreateReply, posted, invalid, already_exists, refused, GetReply, got, not_got, launched,
  fail_launch, succeed_launch, await_decision, adopt, refuse_at_admission, adopt_existing, post,
  launch_from, resolve_and_create,
}

reply-cases : (r : GetReply) → ((ng : NodeGroup) × (r ≡ got ng)) ⊎ ((m : Text) × (r ≡ not_got m))
reply-cases (got ng) = inl (ng, refl)
reply-cases (not_got m) = inr (m, refl)

module _ (sizing : Catalogue) (claim : NodeClaim) where
  fail_launch-fails :
      (now : ℕ) (ng x : NodeGroup) (error : CreateError) (b : Backoff) (es : List Effect)
      → (fail_launch sizing claim now ng error b es).result ≡ launched x
      → ⊥
  unfolding fail_launch
  fail_launch-fails now ng x (quota_exceeded flavor message) b es h = cc
  fail_launch-fails now ng x _ b es h = cc

  succeed_launch-launched :
      (mark : ℕ) (ng x : NodeGroup) (accepted : Acceptance) (b : Backoff) (es : List Effect)
      → (succeed_launch sizing claim mark ng accepted b es).result ≡ launched x
      → ng ≡ x
  unfolding succeed_launch
  succeed_launch-launched mark ng x unacknowledged b es h = cc
  succeed_launch-launched mark ng x _ b es h = cc

  await_decision-launched :
      (w : World) (mark : ℕ) (ng x : NodeGroup) (observed : Option NodeGroup) (b : Backoff)
      → (await_decision sizing claim w mark ng observed b).result ≡ launched x
      → ng ≡ x
  unfolding await_decision
  await_decision-launched w mark ng x observed b h =
      elim (Option-cases
        (wait_for_acceptance sizing w.cancelled_parent ng.name observed w.polls b).error) [
          | inl p ↦ succeed_launch-launched mark ng x _ _ _ (rw (p, await_decision) at h)
          | inr (error, p) ↦
              absurd (fail_launch-fails w.end_now ng x error _ _ (rw (p, await_decision) at h))
        ]

  adopt-launched :
      (w : World) (mark : ℕ) (ng x : NodeGroup) (b : Backoff)
      → (adopt sizing claim w mark ng b).result ≡ launched x
      → owned_by_node_claim x claim ≡ true
  unfolding adopt
  adopt-launched w mark ng x b h = elim (Bool-cases (owned_by_node_claim ng claim)) [
    | inl mine ↦
        subst (λ y. owned_by_node_claim y claim ≡ true)
          (await_decision-launched w mark ng x (some ng) b (rw (mine, adopt) at h)) mine
    | inr foreign ↦ cc (rw (foreign, adopt) at h)
  ]

  post-launched :
      (w : World) (mark : ℕ) (ng x : NodeGroup) (reply : CreateReply) (b : Backoff)
      → ((uid : Text) (at : ℕ)
          → owned_by_node_claim (record ng { uid = uid; created = at }) claim ≡ true)
      → (post sizing claim w mark ng reply b).result ≡ launched x
      → owned_by_node_claim x claim ≡ true
  unfolding post adopt_existing refuse_at_admission
  post-launched w mark ng x (posted uid at) b own h =
      subst (λ y. owned_by_node_claim y claim ≡ true)
        (await_decision-launched w mark (record ng { uid = uid; created = at }) x none b h)
        (own uid at)
  post-launched w mark ng x (invalid details) b own h =
      elim (Option-cases (admission_flavor_refusal details ng.spec.flavor)) [
        | inl p ↦ cc (rw (p, post) at h)
        | inr (r, p) ↦ cc (rw (p, post) at h)
      ]
  post-launched w mark ng x already_exists b own h = elim (reply-cases w.existing) [
    | inl (g, p) ↦ adopt-launched w mark g x b (rw (p, adopt_existing) at h)
    | inr (m, p) ↦ cc (rw (p, adopt_existing) at h)
  ]
  post-launched w mark ng x (refused m) b own h = cc

  launch_from-launched :
      (hash_of : Hashing) (syntax : LabelSyntax) (w : World) (launch : Launch)
      (existing : Option NodeGroup) (covered : Option FastFail) (b : Backoff) (x : NodeGroup)
      → (launch_from sizing claim hash_of syntax w launch existing covered b).result ≡ launched x
      → owned_by_node_claim x claim ≡ true
  unfolding launch_from
  launch_from-launched hash_of syntax w launch (some ng) covered b x h =
      adopt-launched w (hold_out_mark (run sizing w.mark_calls b)) ng x (run sizing w.mark_calls b)
        h
  launch_from-launched hash_of syntax w launch none (some f) b x h = cc
  launch_from-launched hash_of syntax w launch none none b x h =
      post-launched w (hold_out_mark (run sizing w.mark_calls b))
        (build_node_group hash_of syntax claim launch) x w.reply _
        (posted_owned hash_of syntax claim launch) h

  -- A group that a launch hands back, posted or adopted, is managed, named after the claim and owned by
  -- it under its uid: a group of another claim or of the user is never taken over.
  pub launched_owned :
      (hash_of : Hashing) (syntax : LabelSyntax) (w : World) (launch : Launch) (b : Backoff)
      (x : NodeGroup)
      → (resolve_and_create sizing claim hash_of syntax w launch b).result ≡ launched x
      → owned_by_node_claim x claim ≡ true
  unfolding resolve_and_create
  launched_owned hash_of syntax w launch b x h =
      launch_from-launched hash_of syntax w launch launch.existing _ _ x h
