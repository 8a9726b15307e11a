-- ===== src/Provider/Create/Failure.antt =====
-- A launch that failed for capacity leaves the flavor unavailable, so that the re-plan lands elsewhere.
use karpenter_provider_cleve.Base.{
  ℕ, ◌+◌, ◌<◌, ◌≡◌, refl, subst, true, Option, none, some, List, Text, text_eq_refl, arith,
  lookup-insert, Bool-cases, Option-cases, inl, inr,
}
use karpenter_provider_cleve.Api.NodeGroup.{NodeGroup}
use karpenter_provider_cleve.Api.NodeClaim.{NodeClaim}
use karpenter_provider_cleve.Api.Labels.{LabelSyntax}
use karpenter_provider_cleve.Api.NodeClass.{Hashing}
use karpenter_provider_cleve.Provider.Identity.{owned_by_node_claim}
use karpenter_provider_cleve.Provider.Backoff.{
  Backoff, Catalogue, FastFail, hold_out_mark, record_flavor_rejection, is_held, unavailable,
  flavor_backoff, quota_backoff, next_seq,
}
use karpenter_provider_cleve.Provider.Backoff.Coverage.{record_quota_rejection-unavailable}
use karpenter_provider_cleve.Provider.Backoff.Marks.{run}
use karpenter_provider_cleve.Provider.Effects.{Effect, CreateError, flavor_rejected, vanished}
use karpenter_provider_cleve.Provider.Acceptance.{Acceptance, unacknowledged, wait_for_acceptance}
use karpenter_provider_cleve.Provider.Admission.{admission_flavor_refusal}
use karpenter_provider_cleve.Provider.Payload.{Launch, build_node_group}
use karpenter_provider_cleve.Provider.Create.{
  World, CreateReply, posted, invalid, already_exists, refused, GetReply, got, not_got, fails,
  vanish_message, fail_launch, succeed_launch, await_decision, adopt, refuse_at_admission,
  adopt_existing, post, launch_from, resolve_and_create,
}

-- The instant at which the flavor of a launch is refused, if it is: the create call's reply where it
-- turns the new group down as invalid, the end of the poll otherwise.
abbrev pub refused_at : World → Option NodeGroup → CreateReply → ℕ
refused_at w (some ng) reply = w.end_now
refused_at w none (invalid details) = w.reply_now
refused_at w none (posted uid at) = w.end_now
refused_at w none already_exists = w.end_now
refused_at w none (refused message) = w.end_now

module _ (sizing : Catalogue) where
  -- A hold-out recorded at `at` keeps the flavor unavailable for the whole of its time.
  pub record_flavor_rejection-unavailable :
      (at now : ℕ) (flavor : Text) (b : Backoff)
      → now < at + flavor_backoff
      → unavailable sizing now flavor (record_flavor_rejection at flavor b) ≡ true
  unfolding unavailable is_held record_flavor_rejection
  record_flavor_rejection-unavailable at now flavor b early = ground (
    arith,
    lookup-insert flavor flavor (record { at = at; seq = next_seq b.hold_out_seq })
        b.rejected_flavors,
    text_eq_refl flavor,
  )

module _ (sizing : Catalogue) (claim : NodeClaim) (now : ℕ) where
  fail_launch-held :
      (at : ℕ) (ng : NodeGroup) (error : CreateError) (b : Backoff) (es : List Effect)
      (flavor reason message : Text)
      → now < at + flavor_backoff
      → (fail_launch sizing claim at ng error b es).result
        ≡ fails (flavor_rejected flavor reason message)
      → unavailable sizing now flavor (fail_launch sizing claim at ng error b es).backoff ≡ true
  unfolding fail_launch
  fail_launch-held at ng (flavor_rejected f r m) b es flavor reason message early h =
      let same : f ≡ flavor = cc in
      subst (λ x. unavailable sizing now x (record_flavor_rejection at f b) ≡ true) same
        (record_flavor_rejection-unavailable sizing at now f b early)
  fail_launch-held at ng _ b es flavor reason message early h = cc

  fail_launch-vanished :
      (at : ℕ) (ng : NodeGroup) (error : CreateError) (b : Backoff) (es : List Effect) (name : Text)
      → now < at + quota_backoff
      → (fail_launch sizing claim at ng error b es).result ≡ fails (vanished name)
      → unavailable sizing now ng.spec.flavor (fail_launch sizing claim at ng error b es).backoff
        ≡ true
  unfolding fail_launch
  fail_launch-vanished at ng (vanished n) b es name early h =
      record_quota_rejection-unavailable sizing at ng.spec.flavor vanish_message b now
        ng.spec.flavor (inl (refl, early))
  fail_launch-vanished at ng _ b es name early h = cc

  succeed_launch-fails :
      (mark : ℕ) (ng : NodeGroup) (accepted : Acceptance) (b : Backoff) (es : List Effect)
      (error : CreateError)
      → (succeed_launch sizing claim mark ng accepted b es).result ≡ fails error
      → ⊥
  unfolding succeed_launch
  succeed_launch-fails mark ng unacknowledged b es error h = cc
  succeed_launch-fails mark ng _ b es error h = cc

  await_decision-held :
      (w : World) (mark : ℕ) (ng : NodeGroup) (observed : Option NodeGroup) (b : Backoff)
      (flavor reason message : Text)
      → now < w.end_now + flavor_backoff
      → (await_decision sizing claim w mark ng observed b).result
        ≡ fails (flavor_rejected flavor reason message)
      → unavailable sizing now flavor (await_decision sizing claim w mark ng observed b).backoff
        ≡ true
  unfolding await_decision
  await_decision-held w mark ng observed b flavor reason message early h =
      elim (Option-cases
        (wait_for_acceptance sizing w.cancelled_parent ng.name observed w.polls b).error) [
          | inl p ↦ absurd (succeed_launch-fails mark ng _ _ _ _ (rw (p, await_decision) at h))
          | inr (error, p) ↦
              rw (p, await_decision)
                (fail_launch-held w.end_now ng error _ _ flavor reason message early
                  (rw (p, await_decision) at h))
        ]

  -- A launch that ends because its group vanished leaves the group's flavor unavailable for the quota
  -- backoff, whatever other goroutines did meanwhile.
  pub vanish-unavailable :
      (w : World) (mark : ℕ) (ng : NodeGroup) (observed : Option NodeGroup) (b : Backoff)
      (name : Text)
      → now < w.end_now + quota_backoff
      → (await_decision sizing claim w mark ng observed b).result ≡ fails (vanished name)
      → unavailable sizing now ng.spec.flavor
          (await_decision sizing claim w mark ng observed b).backoff
        ≡ true
  unfolding await_decision
  vanish-unavailable w mark ng observed b name early h =
      elim (Option-cases
        (wait_for_acceptance sizing w.cancelled_parent ng.name observed w.polls b).error) [
          | inl p ↦ absurd (succeed_launch-fails mark ng _ _ _ _ (rw (p, await_decision) at h))
          | inr (error, p) ↦
              rw (p, await_decision)
                (fail_launch-vanished w.end_now ng error _ _ name early
                  (rw (p, await_decision) at h))
        ]

  module _ (flavor reason message : Text) (w : World) where
    adopt-held :
        (mark : ℕ) (ng : NodeGroup) (b : Backoff)
        → now < w.end_now + flavor_backoff
        → (adopt sizing claim w mark ng b).result ≡ fails (flavor_rejected flavor reason message)
        → unavailable sizing now flavor (adopt sizing claim w mark ng b).backoff ≡ true
    unfolding adopt
    adopt-held mark ng b early h = elim (Bool-cases (owned_by_node_claim ng claim)) [
      | inl mine ↦
          rw (mine, adopt)
            (await_decision-held w mark ng (some ng) b flavor reason message early
              (rw (mine, adopt) at h))
      | inr foreign ↦ cc (rw (foreign, adopt) at h)
    ]

    adopt_existing-held :
        (mark : ℕ) (r : GetReply) (b : Backoff)
        → now < w.end_now + flavor_backoff
        → (adopt_existing sizing claim w mark r b).result
          ≡ fails (flavor_rejected flavor reason message)
        → unavailable sizing now flavor (adopt_existing sizing claim w mark r b).backoff ≡ true
    unfolding adopt_existing
    adopt_existing-held mark (got ng) b early h = adopt-held mark ng b early h
    adopt_existing-held mark (not_got m) b early h = cc

    post-held :
        (mark : ℕ) (ng : NodeGroup) (reply : CreateReply) (b : Backoff)
        → now < refused_at w none reply + flavor_backoff
        → (post sizing claim w mark ng reply b).result
          ≡ fails (flavor_rejected flavor reason message)
        → unavailable sizing now flavor (post sizing claim w mark ng reply b).backoff ≡ true
    unfolding post refuse_at_admission
    post-held mark ng (posted uid at) b early h =
        await_decision-held w mark (record ng { uid = uid; created = at }) none b flavor reason
          message early h
    post-held mark ng (invalid details) b early h =
        elim (Option-cases (admission_flavor_refusal details ng.spec.flavor)) [
          | inl p ↦ cc (rw (p, post) at h)
          | inr (r, p) ↦
              let q : fails (flavor_rejected r.flavor r.reason r.message)
                  ≡ fails (flavor_rejected flavor reason message) =
                rw (p, post) at h in
              let same : r.flavor ≡ flavor = cc in
              rw (p, post)
                (subst
                  (λ x.
                    unavailable sizing now x (record_flavor_rejection w.reply_now r.flavor b)
                    ≡ true)
                  same
                  (record_flavor_rejection-unavailable sizing w.reply_now now r.flavor b early))
        ]
    post-held mark ng already_exists b early h = adopt_existing-held mark w.existing b early h
    post-held mark ng (refused m) b early h = cc

    launch_from-held :
        (hash_of : Hashing) (syntax : LabelSyntax) (launch : Launch) (existing : Option NodeGroup)
        (covered : Option FastFail) (b : Backoff)
        → now < refused_at w existing w.reply + flavor_backoff
        → (launch_from sizing claim hash_of syntax w launch existing covered b).result
          ≡ fails (flavor_rejected flavor reason message)
        → unavailable sizing now flavor
            (launch_from sizing claim hash_of syntax w launch existing covered b).backoff
          ≡ true
    unfolding launch_from
    launch_from-held hash_of syntax launch (some ng) covered b early h =
        adopt-held (hold_out_mark (run sizing w.mark_calls b)) ng (run sizing w.mark_calls b) early
          h
    launch_from-held hash_of syntax launch none (some f) b early h = cc
    launch_from-held hash_of syntax launch none none b early h =
        post-held (hold_out_mark (run sizing w.mark_calls b))
          (build_node_group hash_of syntax claim launch) w.reply
          (run sizing w.create_calls (run sizing w.mark_calls b)) early h

    -- A launch that fails because its flavor was refused leaves that flavor unavailable at every instant
    -- before the flavor backoff has passed since the refusal: since the create call's reply where that
    -- reply refused the group, and since the end of the poll where the operator refused a group that was
    -- posted or adopted.
    pub rejection-unavailable :
        (hash_of : Hashing) (syntax : LabelSyntax) (launch : Launch) (b : Backoff)
        → now < refused_at w launch.existing w.reply + flavor_backoff
        → (resolve_and_create sizing claim hash_of syntax w launch b).result
          ≡ fails (flavor_rejected flavor reason message)
        → unavailable sizing now flavor
            (resolve_and_create sizing claim hash_of syntax w launch b).backoff
          ≡ true
    unfolding resolve_and_create
    rejection-unavailable hash_of syntax launch b early h =
        launch_from-held hash_of syntax launch launch.existing _ _ early h
