-- ===== src/Tests/Launches.antt =====
-- The launch's theorems on concrete inputs.
use karpenter_provider_cleve.Provider.Payload.{build_node_group}
use karpenter_provider_cleve.Base.{
  lookup, any, ◌≡◌, refl, inl, inr, true, false, ◌⊎◌, none, some, List, [], ◌∷◌, ◌++◌, codes,
  text_eq, arith,
}
use karpenter_provider_cleve.Api.NodeGroup
use karpenter_provider_cleve.Api.NodeGroup.{NodeGroup, Condition, holds}
use karpenter_provider_cleve.Provider.Identity.{
  value_of, is_reference_to, is_managed, owned_by_node_claim,
}
use karpenter_provider_cleve.Provider.Backoff.{
  quota_rejection_covering, quota_fast_fail, covering_from, new_backoff, unavailable,
}
use karpenter_provider_cleve.Provider.Effects.{vanished, cancelled}
use karpenter_provider_cleve.Provider.Acceptance.{
  unacknowledged, Read, found, missing, interrupted, Poll, PollState, wait_for_acceptance,
  poll_turn,
}
use karpenter_provider_cleve.Provider.Acceptance.Verdict.{IsPending}
use karpenter_provider_cleve.Provider.Acceptance.Reads.{Turns, poll_turn-Turns}
use karpenter_provider_cleve.Provider.Acceptance.Progress.{
  IsWaiting, vanish_after_seen, window_closes,
}
use karpenter_provider_cleve.Provider.Admission.{admission_flavor_refusal, flavor_field}
use karpenter_provider_cleve.Provider.Create.{
  World, CreateReply, invalid, already_exists, not_got, await_decision, resolve_and_create,
}
use karpenter_provider_cleve.Provider.Create.Adoption.{launched_owned}
use karpenter_provider_cleve.Provider.Create.Failure.{rejection-unavailable, vanish-unavailable}
use karpenter_provider_cleve.Tests.Fixtures.{
  small, catalogue, claim, group_with, ready_condition, refused_condition, syntax, hashing,
  launch_of,
}

-- The answers to a launch: the create call's and the polls'.
abbrev world : CreateReply → List Poll → World
world reply polls = record {
  fast_fail_now = 1;
  fast_fail_later = 1;
  mark_calls = [];
  reply = reply;
  existing = not_got [];
  create_calls = [];
  reply_now = 2;
  cancelled_parent = false;
  polls = polls;
  end_calls = [];
  end_now = 3;
}

abbrev reading : Read → Poll
reading read = record { calls = []; now = 2; read = read }

abbrev up : NodeGroup
up = group_with (ready_condition ∷ [])

abbrev fresh_state : PollState
fresh_state = record { seen = true; retried = none; backoff = new_backoff; effects = [] }

launched_owned_example : owned_by_node_claim up claim ≡ true
unfolding resolve_and_create owned_by_node_claim text_eq is_managed value_of lookup any
    is_reference_to wait_for_acceptance NodeGroup.is_synced NodeGroup.condition_holds
    NodeGroup.get_condition NodeGroup.find_condition
launched_owned_example =
    launched_owned catalogue claim hashing syntax (world already_exists (reading (found up) ∷ []))
      (launch_of (some up)) new_backoff up refl

rejection-unavailable_example :
    unavailable catalogue 4 small
      (resolve_and_create catalogue claim hashing syntax
        (world (invalid (some (record { field = flavor_field; message = [] } ∷ []))) [])
        (launch_of none)
        new_backoff).backoff
    ≡ true
unfolding resolve_and_create quota_fast_fail quota_rejection_covering covering_from
    admission_flavor_refusal text_eq build_node_group
rejection-unavailable_example =
    rejection-unavailable catalogue claim 4 small (codes "Invalid") []
      (world (invalid (some (record { field = flavor_field; message = [] } ∷ []))) []) hashing
      syntax (launch_of none) new_backoff (omega arith) refl

vanish-unavailable_example :
    unavailable catalogue 4 small
      (await_decision catalogue claim
        (world already_exists (reading missing ∷ []))
        0
        up
        (some up)
        new_backoff).backoff
    ≡ true
unfolding await_decision wait_for_acceptance
vanish-unavailable_example =
    vanish-unavailable catalogue claim 4 (world already_exists (reading missing ∷ [])) 0 up
      (some up) new_backoff (codes "c1") (omega arith) refl

-- A read that found nothing, then one that found the group while its reconciliation is being retried.
abbrev retried_condition : Condition
retried_condition = record {
  kind = NodeGroup.condition_reconcile_failed;
  status = holds;
  reason = codes "UpstreamError";
  message = codes "try again";
}

abbrev waiting : NodeGroup
waiting = group_with (retried_condition ∷ [])

abbrev lagging : List Poll
lagging = reading missing ∷ reading (found waiting) ∷ []

waiting-IsPending : IsPending waiting
unfolding NodeGroup.is_synced NodeGroup.is_refused NodeGroup.is_reconciling
    NodeGroup.condition_holds NodeGroup.get_condition NodeGroup.find_condition text_eq
    NodeGroup.is_quota_exceeded NodeGroup.refusal NodeGroup.reconcile_failed NodeGroup.is_transient
waiting-IsPending = (refl, refl, refl, refl)

waiting-IsWaiting : IsWaiting catalogue false (codes "c1") none (reading (found waiting))
waiting-IsWaiting = (waiting, refl, inl refl, waiting-IsPending)

poll_turn-Turns_example :
    Turns catalogue
      (codes "c1")
      (some up)
      1
      (found (group_with (refused_condition ∷ [])))
      fresh_state
      (poll_turn catalogue
        (codes "c1")
        (some up)
        1
        (found (group_with (refused_condition ∷ [])))
        fresh_state)
poll_turn-Turns_example =
    poll_turn-Turns catalogue (codes "c1") (some up) 1 (found (group_with (refused_condition ∷ [])))
      fresh_state

vanish_after_seen_example :
    let o =
      wait_for_acceptance catalogue false
        (codes "c1")
        none
        (lagging ++ (reading missing ∷ []))
        new_backoff in
    (o.error ≡ some (vanished (codes "c1")))
    × (o.accepted ≡ unacknowledged)
    × (o.state.effects ≡ [])
vanish_after_seen_example =
    vanish_after_seen catalogue false (codes "c1") none lagging [] (reading missing) new_backoff
      (inl (refl, refl, inr (waiting-IsWaiting, tt)))
      (inr (reading (found waiting), waiting, inr (inl refl), refl)) refl

window_closes_example :
    let o =
      wait_for_acceptance catalogue false
        (codes "c1")
        none
        (lagging ++ (reading interrupted ∷ []))
        new_backoff in
    (((false ≡ false)
        × (o.error ≡ none)
        × (o.retried ≡ some (codes "UpstreamError", codes "try again")))
      ⊎ ((false ≡ true) × (o.error ≡ some cancelled) × (o.retried ≡ none)))
    × (o.accepted ≡ unacknowledged)
    × (o.state.effects ≡ [])
unfolding NodeGroup.transient_failure NodeGroup.reconcile_failed NodeGroup.get_condition
    NodeGroup.find_condition text_eq NodeGroup.is_transient
window_closes_example =
    window_closes catalogue false (codes "c1") none lagging (reading interrupted ∷ []) new_backoff
      (inl (refl, refl, inr (waiting-IsWaiting, tt))) (inr (reading interrupted, [], refl, refl))
