-- ===== src/Controllers/GarbageCollection.antt =====
-- pkg/controllers/garbagecollection/controller.go. What the API server answers during one sweep, the
-- clock and the calls that other goroutines make on the provider's state are an argument, `World`;
-- instants are in nanoseconds. A log line is left out; that one was written is in the state.
pub mod Orphans
pub mod Reaping
pub mod Vanished
pub mod Overdue
use karpenter_provider_cleve.Base.{
  ℕ, ◌+◌, ◌-◌, ◌*◌, Bool, true, false, not, ◌&&◌, ◌||◌, Option, none, some, List, [], ◌∷◌, ◌++◌,
  Text, codes, text_eq, ltb, ◌==◌, Map, lookup, insert, length, is_empty, any, if◌then◌else◌,
  is_some,
}
use karpenter_provider_cleve.Api.NodeGroup.{NodeGroup}
use karpenter_provider_cleve.Api.NodeClaim.{NodeClaim, NodeClassReference, clever_group}
use karpenter_provider_cleve.Provider.Identity.{
  is_managed, node_claim_owners, node_claim_label, value_of, parse_provider_id,
}
use karpenter_provider_cleve.Provider.Backoff.{Backoff, Catalogue, second}
use karpenter_provider_cleve.Provider.Backoff.Marks.{Call}
use karpenter_provider_cleve.Provider.Delete.{DeleteReply, accepted, absent, rejected, delete}
use karpenter_provider_cleve.Provider.Effects.{
  Effect, deletes, deletes_claim, counts, publishes, node_group_vanished, vanished_event,
  gc_reaped_node_groups, garbage_collected_event, gc_refused_event, externally_resized_event,
  deletion_overdue_event,
}

-- `minAge`
abbrev pub min_age : ℕ
min_age = 120 * second

-- `deletionOverdueAfter`
abbrev pub deletion_overdue_after : ℕ
deletion_overdue_after = 300 * second

-- An uncached read of one object.
pub data Presence : Type 0 where
  present missing unknown : Presence

-- The replies of a sweep. A group is asked about at most once under each claim's name, and so a reply
-- is a function of the names; a list of `none` is an error.
pub record World : Type 0 where
  pub groups : Option (List NodeGroup)
  pub overdue_now : ℕ
  pub claims : Option (List NodeClaim)
  pub all_groups : Option (List NodeGroup)
  pub claim_now : Text → ℕ
  pub group_presence : Text → Presence
  pub claim_delete : Text → DeleteReply
  pub group_now : Text → ℕ
  pub claim_presence : Text → Text → Presence
  pub group_delete : Text → DeleteReply
  pub delete_calls : Text → List Call

pub data Failure : Type 0 where
  listing_groups listing_claims listing_all_groups : Failure
  confirming_claim : Text → Failure
  confirming_group : Text → Failure
  deleting_claim : Text → Failure
  deleting_group : Text → Failure

-- The controller's state, its gauges, the provider's state and what the sweep has done so far.
pub record Sweep : Type 0 where
  pub warned : List Text
  pub deletion_warned : Map Text
  pub refused_gauge : ℕ
  pub resized_gauge : ℕ
  pub overdue_gauge : ℕ
  pub backoff : Backoff
  pub effects : List Effect
  pub errors : List Failure

-- `if _, ok := c.warned[key]; !ok { c.warned[key] = … }`
unfoldable pub warn_once : Text → List Text → List Text
warn_once key warned = if any (text_eq key) warned then warned else key ∷ warned

-- The provider's `List`: the groups under the managed label.
unfoldable pub list_managed : List NodeGroup → List NodeGroup
list_managed [] = []
list_managed (ng ∷ groups) = if is_managed ng then ng ∷ list_managed groups else list_managed groups

-- `_, ok := claimNames[name]`
unfoldable pub has_claim : List NodeClaim → Text → Bool
has_claim claims name = any (λ (c : NodeClaim). text_eq c.name name) claims

unfoldable pub has_group : List NodeGroup → Text → Bool
has_group groups name = any (λ (g : NodeGroup). text_eq g.name name) groups

-- `ownerAlive`
unfoldable pub owner_alive : List NodeClaim → List Text → Bool
unfolding has_claim
owner_alive claims owners = any (has_claim claims) owners

pub data Confirmation : Type 0 where
  alive gone : Confirmation
  unconfirmed : Text → Confirmation

-- `anyClaimAliveUncached`, with the names checked so far
unfoldable pub any_claim_alive : (Text → Presence) → List Text → List Text → Confirmation
any_claim_alive presence checked [] = gone
any_claim_alive presence checked (name ∷ names) =
    let rest = any_claim_alive presence checked names in
    let further = any_claim_alive presence (name ∷ checked) names in
    if any (text_eq name) checked
    then rest
    else elim (presence name) [ present ↦ alive | unknown ↦ unconfirmed name | missing ↦ further ]

-- The claim that the group's label names, or else the group's name.
unfoldable pub claim_name_of : NodeGroup → Text
claim_name_of ng =
    let name = value_of ng.labels node_claim_label in if is_empty name then ng.name else name

pub data Verdict : Type 0 where
  keep refuse reap : Verdict
  stuck : Text → Verdict

-- `NodeClassRef` names a CleverNodeClass.
unfoldable pub is_clever_class : Option NodeClassReference → Bool
is_clever_class none = false
is_clever_class (some ref) =
    text_eq ref.group clever_group && text_eq ref.kind (codes "CleverNodeClass")

-- `ParseProviderID`, or the claim's name
unfoldable pub group_name_of : NodeClaim → Text
group_name_of claim = elim (parse_provider_id claim.provider_id) [
  | none ↦ claim.name
  | some name ↦ name
]

module _ (w : World) where
  -- What the body of the groups' loop decides, from the check of the age on.
  unfoldable pub verdict : List NodeClaim → NodeGroup → Verdict
  verdict claims ng =
      let owners = node_claim_owners ng in
      let name = claim_name_of ng in
      if ltb (w.group_now ng.name - ng.created) min_age
      then keep
      else if has_claim claims name
      then keep
      else if is_empty owners
      then refuse
      else if owner_alive claims owners
      then refuse
      else elim (any_claim_alive (w.claim_presence ng.name) [] (name ∷ owners)) [
        | alive ↦ keep
        | unconfirmed n ↦ stuck n
        | gone ↦ reap
      ]

  -- What the body of the claims' loop decides; `keep` is its `continue`.
  unfoldable pub claim_verdict : List NodeGroup → NodeClaim → Verdict
  claim_verdict groups claim =
      let name = group_name_of claim in
      if not (is_clever_class claim.class_ref)
      then keep
      else if is_some claim.deleted || ltb (w.claim_now claim.name - claim.created) min_age
      then keep
      else if not claim.launched || claim.registered
      then keep
      else if has_group groups name
      then keep
      else elim (w.group_presence name) [ present ↦ keep | unknown ↦ stuck name | missing ↦ reap ]

  -- The deletion of a vanished claim; one that is gone already counts as deleted.
  unfoldable pub reap_claim : NodeClaim → DeleteReply → Sweep → Sweep
  reap_claim claim (rejected message) s = record s {
    effects = s.effects ++ (deletes_claim claim.name ∷ []);
    errors = s.errors ++ (deleting_claim claim.name ∷ []);
  }
  reap_claim claim _ s = record s {
    effects =
        s.effects
        ++ (deletes_claim claim.name
            ∷ counts node_group_vanished
            ∷ publishes vanished_event claim.name
            ∷ []);
  }

  unfoldable pub sweep_claim : List NodeGroup → NodeClaim → Sweep → Sweep
  unfolding reap_claim
  sweep_claim groups claim s = elim (claim_verdict groups claim) [
    | stuck name ↦ record s { errors = s.errors ++ (confirming_group name ∷ []) }
    | reap ↦ reap_claim claim (w.claim_delete claim.name) s
    | _ ↦ s
  ]

  unfoldable pub sweep_claims : List NodeGroup → List NodeClaim → Sweep → Sweep
  unfolding sweep_claim
  sweep_claims groups [] s = s
  sweep_claims groups (claim ∷ claims) s = sweep_claims groups claims (sweep_claim groups claim s)

  -- `reapVanishedNodeClaims`
  unfoldable pub reap_vanished_node_claims :
      List NodeClaim → Option (List NodeGroup) → Sweep → Sweep
  unfolding sweep_claims
  reap_vanished_node_claims claims none s = record s {
    errors = s.errors ++ (listing_all_groups ∷ []);
  }
  reap_vanished_node_claims claims (some groups) s = sweep_claims groups claims s

  -- `warnResize`, and the count
  unfoldable pub warn_resize : NodeGroup → Sweep → Sweep
  warn_resize ng s = record s {
    warned = warn_once (codes "resized/" ++ ng.name) s.warned;
    resized_gauge = s.resized_gauge + 1;
    effects = s.effects ++ (publishes externally_resized_event ng.name ∷ []);
  }

  -- `if ng.Spec.NodeCount != 1 { … }`
  unfoldable pub note_resize : NodeGroup → Sweep → Sweep
  note_resize ng s = if ng.spec.node_count == 1 then s else warn_resize ng s

  -- `refuse`, and the count
  unfoldable pub refuse_group : NodeGroup → Sweep → Sweep
  refuse_group ng s = record s {
    warned = warn_once ng.name s.warned;
    refused_gauge = s.refused_gauge + 1;
    effects = s.effects ++ (publishes gc_refused_event ng.name ∷ []);
  }

  -- What the DELETE's reply leads to.
  unfoldable pub reaped : NodeGroup → DeleteReply → List Effect
  reaped ng accepted = counts gc_reaped_node_groups ∷ publishes garbage_collected_event ng.name ∷ []
  reaped ng _ = []

  unfoldable pub delete_failures : NodeGroup → DeleteReply → List Failure
  delete_failures ng (rejected message) = deleting_group ng.name ∷ []
  delete_failures ng _ = []

  module _ (sizing : Catalogue) where
    unfoldable pub reap_group : NodeGroup → Sweep → Sweep
    unfolding reaped delete_failures
    reap_group ng s =
        let reply = w.group_delete ng.name in
        record s {
          backoff = delete sizing ng (w.delete_calls ng.name) reply s.backoff;
          effects = s.effects ++ (deletes ng.name ∷ reaped ng reply);
          errors = s.errors ++ delete_failures ng reply;
        }

    unfoldable pub act : NodeGroup → Verdict → Sweep → Sweep
    unfolding refuse_group reap_group
    act ng keep s = s
    act ng refuse s = refuse_group ng s
    act ng (stuck name) s = record s { errors = s.errors ++ (confirming_claim name ∷ []) }
    act ng reap s = reap_group ng s

    -- The body of the groups' loop.
    unfoldable pub sweep_group : List NodeClaim → NodeGroup → Sweep → Sweep
    unfolding act note_resize
    sweep_group claims ng s =
        if is_some ng.deleted then s else act ng (verdict claims ng) (note_resize ng s)

    unfoldable pub sweep_groups : List NodeClaim → List NodeGroup → Sweep → Sweep
    unfolding sweep_group
    sweep_groups claims [] s = s
    sweep_groups claims (ng ∷ groups) s = sweep_groups claims groups (sweep_group claims ng s)

-- `ng.DeletionTimestamp.IsZero() || now.Sub(…) < deletionOverdueAfter`, negated
unfoldable pub is_overdue : ℕ → NodeGroup → Bool
is_overdue now ng = elim ng.deleted [
  | none ↦ false
  | some at ↦ not (ltb (now - at) deletion_overdue_after)
]

unfoldable pub overdue_groups : ℕ → List NodeGroup → Map Text → Map Text
overdue_groups now [] overdue = overdue
overdue_groups now (ng ∷ groups) overdue =
    overdue_groups now groups (if is_overdue now ng then insert ng.name ng.uid overdue else overdue)

unfoldable pub overdue_events : ℕ → List NodeGroup → List Effect
overdue_events now [] = []
overdue_events now (ng ∷ groups) =
    if is_overdue now ng
    then publishes deletion_overdue_event ng.name ∷ overdue_events now groups
    else overdue_events now groups

-- `reportOverdueDeletions`
unfoldable pub report_overdue_deletions : ℕ → List NodeGroup → Sweep → Sweep
unfolding overdue_groups overdue_events
report_overdue_deletions now groups s =
    let overdue = overdue_groups now groups [] in
    record s {
      deletion_warned = overdue;
      overdue_gauge = length overdue;
      effects = s.effects ++ overdue_events now groups;
    }

-- What follows the list of the claims.
unfoldable pub sweep : Catalogue → World → List NodeGroup → Option (List NodeClaim) → Sweep → Sweep
sweep sizing w groups none s = record s { errors = s.errors ++ (listing_claims ∷ []) }
sweep sizing w groups (some claims) s = sweep_groups w sizing claims groups (
    reap_vanished_node_claims w claims w.all_groups
      (record s { refused_gauge = 0; resized_gauge = 0 }))

-- What follows the list of the groups.
unfoldable pub reconcile_groups : Catalogue → World → Option (List NodeGroup) → Sweep → Sweep
unfolding sweep report_overdue_deletions
reconcile_groups sizing w none s = record s { errors = s.errors ++ (listing_groups ∷ []) }
reconcile_groups sizing w (some groups) s =
    let managed = list_managed groups in
    sweep sizing w managed w.claims (report_overdue_deletions w.overdue_now managed s)

-- `Reconcile`: with no error it asks for the next sweep, else it returns the errors joined.
unfoldable pub reconcile : Catalogue → World → Sweep → Sweep
unfolding reconcile_groups
reconcile sizing w s = reconcile_groups sizing w w.groups (record s { effects = []; errors = [] })
