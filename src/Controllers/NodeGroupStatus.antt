-- ===== src/Controllers/NodeGroupStatus.antt =====
-- pkg/controllers/nodegroupstatus/controller.go: a launched NodeGroup is followed until it syncs. The
-- API server's answers, the clock and the state under the provider's `mu` are arguments; log lines are
-- left out. The delete call's preconditions on the uid and the resource version are the API server's to
-- check: they show in its reply, `conflict`, and not in the effect.
pub mod Failing
use karpenter_provider_cleve.Base.{
  ℕ, ◌+◌, ◌-◌, ◌*◌, Bool, true, false, not, ◌&&◌, ◌||◌, Option, none, some, List, [], ◌∷◌, ◌++◌,
  Text, codes, text_eq, ltb, length, any, if◌then◌else◌, is_some,
}
use karpenter_provider_cleve.Api.NodeGroup.{NodeGroup, is_synced, is_refused, transient_failure}
use karpenter_provider_cleve.Api.NodeClaim.{NodeClaim}
use karpenter_provider_cleve.Provider.Identity.{is_managed, node_claim_owners, provider_id}
use karpenter_provider_cleve.Provider.Backoff.{Backoff, Catalogue, second}
use karpenter_provider_cleve.Provider.Delete.{Recorded, record_late_refusal}
use karpenter_provider_cleve.Provider.Effects.{
  Effect, deletes_claim, publishes, transient_failure_event, sync_overdue_event,
}
use karpenter_provider_cleve.Controllers.Reads.{Answer, got, nothing, broken}
use karpenter_provider_cleve.Controllers.GarbageCollection.{is_clever_class}

-- `syncOverdueAfter`
abbrev pub sync_overdue_after : ℕ
sync_overdue_after = 300 * second

-- `conflictRetry`
abbrev pub conflict_retry : ℕ
conflict_retry = second

-- The answer to the DELETE of a NodeClaim under preconditions.
pub data ClaimDelete : Type 0 where
  deleted gone conflict refused : ClaimDelete

-- What the API server answers during one reconcile, from the cache and not, and the clock.
pub record World : Type 0 where
  pub cached_group : Answer NodeGroup
  pub cached_claim : Answer NodeClaim
  pub group : Answer NodeGroup
  pub claim : Answer NodeClaim
  pub reply : ClaimDelete
  pub age_now : ℕ
  pub record_now : ℕ

-- The controller's `overdue` and `logged`, its gauge, the provider's state and what was done.
pub record Follow : Type 0 where
  pub overdue : List Text
  pub logged : List Text
  pub gauge : ℕ
  pub backoff : Backoff
  pub effects : List Effect

-- What a reconcile returns: nothing more to do, a time to come back, or an error.
pub data Result : Type 0 where
  settled : Result
  requeue : ℕ → Result
  failed : Result

-- `delete(m, k)` and `m[k] = struct{}{}` on a set of names
unfoldable pub without : Text → List Text → List Text
without name [] = []
without name (x ∷ xs) = if text_eq x name then without name xs else x ∷ without name xs

unfoldable pub with_name : Text → List Text → List Text
with_name name xs = if any (text_eq name) xs then xs else name ∷ xs

-- `forget`
unfoldable pub forget : Text → Follow → Follow
unfolding without
forget name s =
    let overdue = without name s.overdue in
    record s {
      overdue = overdue;
      logged = without (codes "overdue/" ++ name) (without (codes "transient/" ++ name) s.logged);
      gauge = length overdue;
    }

-- The state that `firstLog` leaves.
unfoldable pub first_log : Text → Follow → Follow
first_log key s = record s { logged = with_name key s.logged }

-- `surfaceTransientFailure`
unfoldable pub surface_transient_failure : NodeGroup → NodeClaim → Follow → Follow
unfolding first_log
surface_transient_failure ng claim s =
    let logged = first_log (codes "transient/" ++ ng.name) s in
    record logged { effects = s.effects ++ (publishes transient_failure_event claim.name ∷ []) }

-- `setOverdue`
unfoldable pub set_overdue : Text → Follow → Follow
unfolding with_name
set_overdue name s =
    let overdue = with_name name s.overdue in record s { overdue = overdue; gauge = length overdue }

-- `reportOverdue`
unfoldable pub report_overdue : NodeGroup → NodeClaim → Follow → Follow
unfolding set_overdue first_log
report_overdue ng claim s =
    let logged = first_log (codes "overdue/" ++ ng.name) (set_overdue ng.name s) in
    record logged { effects = s.effects ++ (publishes sync_overdue_event claim.name ∷ []) }

-- The claim's half of `launchedNodeClaim`
unfoldable pub is_launched_for : NodeGroup → NodeClaim → Bool
is_launched_for ng claim =
    is_clever_class claim.class_ref
    && not (is_some claim.deleted)
    && claim.launched
    && not claim.registered
    && text_eq claim.provider_id (provider_id ng.name)

-- The group's half of `launchedNodeClaim`
unfoldable pub is_followed : NodeGroup → Bool
is_followed ng =
    is_managed ng && not (is_some ng.deleted) && any (text_eq ng.name) (node_claim_owners ng)

-- What the read of the NodeClaim leads to.
unfoldable pub launched_claim : NodeGroup → Answer NodeClaim → Answer NodeClaim
launched_claim ng nothing = nothing
launched_claim ng broken = broken
launched_claim ng (got claim) = if is_launched_for ng claim then got claim else nothing

-- `launchedNodeClaim`; `nothing` is its nil.
unfoldable pub launched_node_claim : NodeGroup → Answer NodeClaim → Answer NodeClaim
unfolding launched_claim
launched_node_claim ng answer = if is_followed ng then launched_claim ng answer else nothing

-- What the DELETE's reply leads to.
unfoldable pub delete_claim :
    Catalogue → ℕ → NodeGroup → NodeClaim → ClaimDelete → Follow → Result × Follow
delete_claim sizing now ng claim reply s =
    let asked = record s { effects = s.effects ++ (deletes_claim claim.name ∷ []) } in
    let recorded = record_late_refusal sizing now claim.name ng s.backoff in
    elim reply [
      | deleted ↦ (
        settled,
        record asked { backoff = recorded.backoff; effects = asked.effects ++ recorded.effects },
      )
      | gone ↦ (settled, asked)
      | conflict ↦ (requeue conflict_retry, asked)
      | refused ↦ (failed, asked)
    ]

-- `failLaunch`, once the NodeClaim is read uncached
unfoldable pub fail_confirmed :
    Catalogue → World → NodeGroup → Answer NodeClaim → Follow → Result × Follow
unfolding delete_claim
fail_confirmed sizing w ng broken s = (failed, s)
fail_confirmed sizing w ng nothing s = (settled, s)
fail_confirmed sizing w ng (got claim) s =
    if is_synced ng || not (is_refused ng)
    then (settled, s)
    else delete_claim sizing w.record_now ng claim w.reply s

-- `failLaunch`, on the uncached read of the group
unfoldable pub fail_launch : Catalogue → World → Answer NodeGroup → Follow → Result × Follow
unfolding fail_confirmed launched_node_claim
fail_launch sizing w nothing s = (settled, s)
fail_launch sizing w broken s = (failed, s)
fail_launch sizing w (got ng) s = fail_confirmed sizing w ng (launched_node_claim ng w.claim) s

-- The follow-up of a launch that is neither synced nor refused.
unfoldable pub follow : ℕ → NodeGroup → NodeClaim → Follow → Result × Follow
unfolding surface_transient_failure report_overdue
follow now ng claim s =
    let noted =
      if is_some (transient_failure ng) then surface_transient_failure ng claim s else s in
    if ltb now (ng.created + sync_overdue_after)
    then (requeue (ng.created + sync_overdue_after - now), noted)
    else (settled, report_overdue ng claim noted)

-- `Reconcile`, once the cached NodeClaim is read
unfoldable pub judge : Catalogue → World → NodeGroup → Answer NodeClaim → Follow → Result × Follow
unfolding fail_launch follow forget
judge sizing w ng broken s = (failed, s)
judge sizing w ng nothing s = (settled, forget ng.name s)
judge sizing w ng (got claim) s =
    if is_synced ng
    then (settled, forget ng.name s)
    else if is_refused ng
    then fail_launch sizing w w.group (forget ng.name s)
    else follow w.age_now ng claim s

-- `Reconcile`, on the cached read of the group
unfoldable pub reconcile_group :
    Catalogue → World → Text → Answer NodeGroup → Follow → Result × Follow
unfolding judge
reconcile_group sizing w name nothing s = (settled, forget name s)
reconcile_group sizing w name broken s = (failed, s)
reconcile_group sizing w name (got ng) s =
    judge sizing w ng (launched_node_claim ng w.cached_claim) s

-- `Reconcile`, for the group of the request's name
unfoldable pub reconcile : Catalogue → World → Text → Follow → Result × Follow
unfolding reconcile_group
reconcile sizing w name s = reconcile_group sizing w name w.cached_group (record s { effects = [] })
