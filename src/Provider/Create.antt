-- ===== src/Provider/Create.antt =====
-- pkg/providers/nodegroup/nodegroup.go, `ResolveAndCreate`, run to its end under `createMu`. What the
-- API server answers, the instants at which the clock is read and what other goroutines do to the
-- state under `mu` meanwhile are an argument, `World`.
pub mod Failure
pub mod Adoption
use karpenter_provider_cleve.Base.{
  ℕ, Bool, true, false, not, Option, none, some, List, [], ◌∷◌, ◌++◌, Text, codes, if◌then◌else◌,
}
use karpenter_provider_cleve.Api.NodeGroup.{NodeGroup}
use karpenter_provider_cleve.Api.NodeClaim.{NodeClaim}
use karpenter_provider_cleve.Api.Labels.{LabelSyntax}
use karpenter_provider_cleve.Api.NodeClass.{Hashing}
use karpenter_provider_cleve.Provider.Identity.{owned_by_node_claim}
use karpenter_provider_cleve.Provider.Backoff.{
  Backoff, Catalogue, FastFail, quota_fast_fail, record_quota_rejection, record_flavor_rejection,
  hold_out_mark, clear_flavor_rejection,
}
use karpenter_provider_cleve.Provider.Backoff.Marks.{Call, run}
use karpenter_provider_cleve.Provider.Effects.{
  Effect, counts, publishes, node_group_rejections, node_group_vanished,
  node_group_acceptance_timeouts, quota_exceeded_event, rejected_event, vanished_event,
  transient_failure_event, acceptance_timeout_event, CreateError, quota_exceeded, backed_off,
  flavor_rejected, vanished, cancelled, not_owned, failed,
}
use karpenter_provider_cleve.Provider.Acceptance.{
  Acceptance, unacknowledged, acknowledged, ready, Poll, Outcome, wait_for_acceptance,
}
use karpenter_provider_cleve.Provider.Admission.{Cause, FlavorRejected, admission_flavor_refusal}
use karpenter_provider_cleve.Provider.Payload.{Launch, build_node_group}

-- What the create call returns: the new object's uid and creation time, or an error.
pub data CreateReply : Type 0 where
  posted : Text → ℕ → CreateReply
  invalid : Option (List Cause) → CreateReply
  already_exists : CreateReply
  refused : Text → CreateReply

pub data GetReply : Type 0 where
  got : NodeGroup → GetReply
  not_got : Text → GetReply

pub record World : Type 0 where
  pub fast_fail_now : ℕ
  pub fast_fail_later : ℕ
  pub mark_calls : List Call
  pub reply : CreateReply
  pub existing : GetReply
  pub create_calls : List Call
  pub reply_now : ℕ
  pub cancelled_parent : Bool
  pub polls : List Poll
  pub end_calls : List Call
  pub end_now : ℕ

pub data CreateResult : Type 0 where
  launched : NodeGroup → CreateResult
  fails : CreateError → CreateResult

pub record Created : Type 0 where
  pub result : CreateResult
  pub backoff : Backoff
  pub effects : List Effect

-- the message with which a vanish is recorded
abbrev pub vanish_message : Text
vanish_message =
    codes "an accepted nodegroup was reclaimed upstream (vanish); capacity is likely exhausted"

unfoldable pub publish_transient : Text → Option (Text × Text) → List Effect
publish_transient claim none = []
publish_transient claim (some failure) = publishes transient_failure_event claim ∷ []

module _ (sizing : Catalogue) (claim : NodeClaim) where
  -- `if err != nil { … }` behind the poll
  unfoldable pub fail_launch : ℕ → NodeGroup → CreateError → Backoff → List Effect → Created
  fail_launch now ng (quota_exceeded flavor message) b es = record {
    result = fails (quota_exceeded flavor message);
    backoff = b;
    effects = es ++ (publishes quota_exceeded_event claim.name ∷ []);
  }
  fail_launch now ng (flavor_rejected flavor reason message) b es = record {
    result = fails (flavor_rejected flavor reason message);
    backoff = record_flavor_rejection now flavor b;
    effects = es ++ (publishes rejected_event claim.name ∷ []);
  }
  fail_launch now ng (vanished name) b es = record {
    result = fails (vanished name);
    backoff = record_quota_rejection sizing now ng.spec.flavor vanish_message b;
    effects = es ++ (counts node_group_vanished ∷ publishes vanished_event claim.name ∷ []);
  }
  fail_launch now ng error b es = record { result = fails error; backoff = b; effects = es }

  -- what follows a poll that ended without an error
  unfoldable pub succeed_launch : ℕ → NodeGroup → Acceptance → Backoff → List Effect → Created
  succeed_launch mark ng unacknowledged b es = record {
    result = launched ng;
    backoff = b;
    effects =
        es
        ++ (counts node_group_acceptance_timeouts
            ∷ publishes acceptance_timeout_event claim.name
            ∷ []);
  }
  succeed_launch mark ng acknowledged b es = record {
    result = launched ng;
    backoff = clear_flavor_rejection ng.spec.flavor mark b;
    effects = es;
  }
  succeed_launch mark ng ready b es = record {
    result = launched ng;
    backoff = clear_flavor_rejection ng.spec.flavor mark b;
    effects = es;
  }

  -- From the call of `waitForAcceptance` on; `observed` is an adopted group.
  unfoldable pub await_decision : World → ℕ → NodeGroup → Option NodeGroup → Backoff → Created
  unfolding fail_launch succeed_launch
  await_decision w mark ng observed b =
      let o = wait_for_acceptance sizing w.cancelled_parent ng.name observed w.polls b in
      let after = run sizing w.end_calls o.state.backoff in
      let es = o.state.effects ++ publish_transient claim.name o.retried in
      elim o.error [
        | some error ↦ fail_launch w.end_now ng error after es
        | none ↦ succeed_launch mark ng o.accepted after es
      ]

  -- Adoption of a group that is there: only the claim's own.
  unfoldable pub adopt : World → ℕ → NodeGroup → Backoff → Created
  unfolding await_decision
  adopt w mark ng b =
      if not (owned_by_node_claim ng claim)
      then record { result = fails (not_owned ng.name); backoff = b; effects = [] }
      else await_decision w mark ng (some ng) b

  -- `refuseFlavorAtAdmission`, with its metric and its event
  unfoldable pub refuse_at_admission : ℕ → FlavorRejected → Backoff → Created
  refuse_at_admission now rejected b = record {
    result = fails (flavor_rejected rejected.flavor rejected.reason rejected.message);
    backoff = record_flavor_rejection now rejected.flavor b;
    effects = counts node_group_rejections ∷ publishes rejected_event claim.name ∷ [];
  }

  -- The `AlreadyExists` branch of the create call.
  unfoldable pub adopt_existing : World → ℕ → GetReply → Backoff → Created
  unfolding adopt
  adopt_existing w mark (got ng) b = adopt w mark ng b
  adopt_existing w mark (not_got message) b = record {
    result = fails (failed message);
    backoff = b;
    effects = [];
  }

  -- The create call and what its reply leads to; `b` is the state when it returns.
  unfoldable pub post : World → ℕ → NodeGroup → CreateReply → Backoff → Created
  unfolding await_decision adopt_existing refuse_at_admission
  post w mark ng (posted uid at) b =
      await_decision w mark (record ng { uid = uid; created = at }) none b
  post w mark ng (invalid details) b = elim (admission_flavor_refusal details ng.spec.flavor) [
    | some rejected ↦ refuse_at_admission w.reply_now rejected b
    | none ↦ record { result = fails (failed (codes "invalid")); backoff = b; effects = [] }
  ]
  post w mark ng already_exists b = adopt_existing w mark w.existing b
  post w mark ng (refused message) b = record {
    result = fails (failed message);
    backoff = b;
    effects = [];
  }

  -- `ResolveAndCreate` from the fast failure on; a launch that adopts does not fail fast.
  unfoldable pub launch_from :
      Hashing
      → LabelSyntax
      → World
      → Launch
      → Option NodeGroup
      → Option FastFail
      → Backoff
      → Created
  unfolding adopt post
  launch_from hash_of syntax w launch (some ng) covered b =
      let marked = run sizing w.mark_calls b in adopt w (hold_out_mark marked) ng marked
  launch_from hash_of syntax w launch none (some x) b = record {
    result = fails (backed_off x);
    backoff = b;
    effects = [];
  }
  launch_from hash_of syntax w launch none none b =
      let marked = run sizing w.mark_calls b in
      post w (hold_out_mark marked) (build_node_group hash_of syntax claim launch) w.reply
        (run sizing w.create_calls marked)

  -- `ResolveAndCreate`, on the launch that its resolver returned
  unfoldable pub resolve_and_create : Hashing → LabelSyntax → World → Launch → Backoff → Created
  unfolding launch_from
  resolve_and_create hash_of syntax w launch b =
      launch_from hash_of syntax w launch launch.existing
        (quota_fast_fail sizing w.fast_fail_now w.fast_fail_later launch.flavor b) b
