-- ===== src/Provider/Acceptance.antt =====
-- pkg/providers/nodegroup/nodegroup.go, `waitForAcceptance`: the poll for the operator's decision.
-- The poll's reads are a list, with their instants and what other goroutines did to the state before
-- each; where the list ends the window closes.
pub mod Verdict
pub mod Reads
pub mod Outcomes
pub mod Progress
use karpenter_provider_cleve.Base.{
  ℕ, ◌≡◌, Bool, true, false, not, ◌&&◌, Option, none, some, List, [], ◌∷◌, ◌++◌, Text, text_eq,
  if◌then◌else◌, is_some,
}
use karpenter_provider_cleve.Api.NodeGroup.{
  NodeGroup, Condition, condition_reconcile_failed, get_condition, is_quota_exceeded, refusal,
  transient_failure, is_synced, is_reconciling,
}
use karpenter_provider_cleve.Provider.Backoff.{Backoff, Catalogue, record_quota_rejection}
use karpenter_provider_cleve.Provider.Backoff.Marks.{Call, run}
use karpenter_provider_cleve.Provider.Effects.{
  Effect, deletes, counts, node_group_quota_rejections, node_group_rejections, CreateError,
  quota_exceeded, flavor_rejected, vanished, cancelled, failed,
}

-- `acceptance`
pub data Acceptance : Type 0 where
  unacknowledged acknowledged ready : Acceptance

-- What a read of the NodeGroup gives; `interrupted` is an error that `wait.Interrupted` matches, such
-- as the end of the window within the call.
pub data Read : Type 0 where
  found : NodeGroup → Read
  missing : Read
  interrupted : Read
  broken : Text → Read

pub record Poll : Type 0 where
  pub calls : List Call
  pub now : ℕ
  pub read : Read

pub record PollState : Type 0 where
  pub seen : Bool
  pub retried : Option (Text × Text)
  pub backoff : Backoff
  pub effects : List Effect

-- How one turn of the condition function ends.
pub data Turn : Type 0 where
  again : PollState → Turn
  done : Acceptance → PollState → Turn
  stop : CreateError → PollState → Turn
  expire : PollState → Turn

-- The message of the ReconcileFailed condition, if there is one.
unfoldable pub failure_message : NodeGroup → Text
failure_message ng = elim (get_condition ng condition_reconcile_failed) [
  | none ↦ []
  | some c ↦ c.message
]

-- `observed != nil && observed.UID != ng.UID`
unfoldable pub is_replaced : Option NodeGroup → NodeGroup → Bool
is_replaced none ng = false
is_replaced (some observed) ng = not (text_eq observed.uid ng.uid)

-- `IsQuotaExceeded`'s branch: recorded, counted, and the group deleted whatever that call returns.
unfoldable pub quota_refused : Catalogue → ℕ → Text → NodeGroup → PollState → Turn
unfolding failure_message
quota_refused sizing now name ng s =
    let message = failure_message ng in
    stop (quota_exceeded ng.spec.flavor message) (record s {
      backoff = record_quota_rejection sizing now ng.spec.flavor message s.backoff;
      effects = s.effects ++ (counts node_group_quota_rejections ∷ deletes name ∷ []);
    })

-- `Refusal`'s branch, and the rest of the turn.
unfoldable pub refused_or_pending : Text → NodeGroup → PollState → Turn
refused_or_pending name ng s = elim (refusal ng) [
  | some (reason, message) ↦
      stop (flavor_rejected ng.spec.flavor reason message)
        (record s { effects = s.effects ++ (counts node_group_rejections ∷ deletes name ∷ []) })
  | none ↦ if is_reconciling ng then done acknowledged s else again s
]

-- A turn that found the group, from the check of the deletion timestamp on.
unfoldable pub decide : Catalogue → ℕ → Text → NodeGroup → PollState → Turn
unfolding quota_refused refused_or_pending
decide sizing now name ng s =
    if is_some ng.deleted
    then stop (vanished name) s
    else if is_synced ng
    then done ready s
    else if is_quota_exceeded ng
    then quota_refused sizing now name ng s
    else refused_or_pending name ng s

-- `retried = &transientFailure{…}`
unfoldable pub note_transient : NodeGroup → PollState → PollState
note_transient ng s = elim (transient_failure ng) [
  | none ↦ s
  | some failure ↦ record s { retried = some failure }
]

-- The condition function, on one read.
unfoldable pub poll_turn : Catalogue → Text → Option NodeGroup → ℕ → Read → PollState → Turn
unfolding decide note_transient is_replaced
poll_turn sizing name observed now missing s = if s.seen then stop (vanished name) s else again s
poll_turn sizing name observed now interrupted s = expire s
poll_turn sizing name observed now (broken message) s = stop (failed message) s
poll_turn sizing name observed now (found ng) s =
    let seen = record s { seen = true } in
    if is_replaced observed ng
    then stop (vanished name) seen
    else decide sizing now name ng (note_transient ng seen)

-- What `waitForAcceptance` returns, with the state and the effects.
pub record Outcome : Type 0 where
  pub accepted : Acceptance
  pub retried : Option (Text × Text)
  pub error : Option CreateError
  pub state : PollState

-- The window is over: a shutdown of the controller is its own error, a timeout is none.
unfoldable pub close_window : Bool → PollState → Outcome
close_window parent_cancelled s =
    if parent_cancelled
    then record { accepted = unacknowledged; retried = none; error = some cancelled; state = s }
    else record { accepted = unacknowledged; retried = s.retried; error = none; state = s }

-- `wait.PollUntilContextCancel` and what follows it.
unfoldable pub poll_from :
    Catalogue → Bool → Text → Option NodeGroup → List Poll → PollState → Outcome
unfolding poll_turn close_window
poll_from sizing parent_cancelled name observed [] s = close_window parent_cancelled s
poll_from sizing parent_cancelled name observed (p ∷ ps) s =
    let before = record s { backoff = run sizing p.calls s.backoff } in
    elim (poll_turn sizing name observed p.now p.read before) [
      | again t ↦ poll_from sizing parent_cancelled name observed ps t
      | done accepted t ↦ record {
        accepted = accepted;
        retried = t.retried;
        error = none;
        state = t;
      }
      | stop error t ↦ record {
        accepted = unacknowledged;
        retried = t.retried;
        error = some error;
        state = t;
      }
      | expire t ↦ close_window parent_cancelled t
    ]

-- `waitForAcceptance`
unfoldable pub wait_for_acceptance :
    Catalogue → Bool → Text → Option NodeGroup → List Poll → Backoff → Outcome
unfolding poll_from
wait_for_acceptance sizing parent_cancelled name observed polls b =
    poll_from sizing parent_cancelled name observed polls
      (record { seen = is_some observed; retried = none; backoff = b; effects = [] })
