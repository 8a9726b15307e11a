-- ===== src/Controllers/InstanceTypeCapacity.antt =====
-- pkg/controllers/instancetypecapacity/controller.go: the reports of the nodes, taken from the nodes of
-- managed groups alone. The logs are not modelled; when one was written is.
pub mod Trust
use karpenter_provider_cleve.Base.{
  ℕ, ◌+◌, ◌*◌, Bool, true, false, not, ◌&&◌, ◌||◌, Option, none, some, List, [], ◌∷◌, Text, text_eq,
  codes, Map, lookup, insert, erase, any, is_empty, is_some, ltb, if◌then◌else◌,
}
use karpenter_provider_cleve.Flavor.Numbers.{Doubles, cpu, ResourceList, Quantities}
use karpenter_provider_cleve.Flavor.Reports.{figure}
use karpenter_provider_cleve.Flavor.TypeProvider.{TypeProvider}
use karpenter_provider_cleve.Flavor.TypeProvider.Reporting.{
  RecordResult, accepted, implausible, record_observed_capacity,
}
use karpenter_provider_cleve.Api.NodeGroup.{NodeGroup}
use karpenter_provider_cleve.Provider.Identity.{node_group_of_node, value_of, is_managed}
use karpenter_provider_cleve.Provider.Backoff.{second}
use karpenter_provider_cleve.Controllers.Reads.{Answer, got, nothing, broken}
use karpenter_provider_cleve.Controllers.ProviderId.{node_group_node_label}

-- `FlavorLabelKey`
abbrev pub flavor_label : Text
flavor_label = codes "clever-cloud.com/flavor"

-- `NodeRoleLabelKey`
abbrev pub node_role_label : Text
node_role_label = codes "clever-cloud.com/cluster-node-role"

-- `rejectionLogInterval`, in nanoseconds
abbrev pub rejection_log_interval : ℕ
rejection_log_interval = 3_600 * second

pub record ReportingNode (Q : Type 0) : Type 0 where
  pub name : Text
  pub labels : Map Text
  pub capacity : ResourceList Q
  pub allocatable : ResourceList Q

-- The answer to the read of the node, the answers to the reads of the groups, by name, and the time.
pub record World (Q : Type 0) : Type 0 where
  pub node : Answer (ReportingNode Q)
  pub group : Text → Answer NodeGroup
  pub now : ℕ

-- The provider, the counter of refused reports, `rejectionLogged` and `driftLogged`.
pub record State (Q W : Type 0) : Type 0 where
  pub provider : TypeProvider Q W
  pub rejections : ℕ
  pub rejection_logged : Map ℕ
  pub drift_logged : List Text

module _ {Q W : Type 0} (q : Quantities Q W) (d : Doubles W) where
  -- `isWorkerWithCapacity`, of a Node
  unfoldable pub is_worker_with_capacity : ReportingNode Q → Bool
  unfolding figure value_of
  is_worker_with_capacity node =
      is_some (lookup flavor_label node.labels)
      && not (is_empty (value_of node.labels node_group_node_label))
      && text_eq (value_of node.labels node_role_label) (codes "worker")
      && not (q.is_zero (figure q (node.capacity cpu)))

  -- A refusal of this node was logged within the interval.
  unfoldable pub was_logged : ℕ → Text → Map ℕ → Bool
  was_logged now name logged = elim (lookup name logged) [
    | none ↦ false
    | some last ↦ ltb now (last + rejection_log_interval)
  ]

  -- `reject`
  unfoldable pub reject : ℕ → Text → State Q W → State Q W
  unfolding was_logged
  reject now name s =
      let counted = record s { rejections = s.rejections + 1 } in
      if was_logged now name s.rejection_logged
      then counted
      else record counted { rejection_logged = insert name now s.rejection_logged }

  -- `driftLogged.LoadOrStore`, where the deviation is above the threshold
  unfoldable pub note_drift : W → Text → List Text → List Text
  note_drift deviation flavor logged =
      if d.gt (d.magnitude deviation) d.hundredth
      then if any (text_eq flavor) logged then logged else flavor ∷ logged
      else logged

  -- What the report of a node of the group leads to.
  unfoldable pub record_report : ℕ → ReportingNode Q → Text → State Q W → State Q W
  unfolding record_observed_capacity reject note_drift
  record_report now node flavor s =
      let (p, result) =
        record_observed_capacity q d s.provider flavor node.capacity node.allocatable in
      elim result [
        | implausible e ↦ reject now node.name (record s { provider = p })
        | accepted deviation ↦ record s {
          provider = p;
          rejection_logged = erase node.name s.rejection_logged;
          drift_logged = note_drift deviation flavor s.drift_logged;
        }
      ]

  -- `owner, ok := NodeGroupOfNode(node.Name); !ok || owner != ng.Name`
  unfoldable pub is_node_of : Text → Text → Bool
  unfolding node_group_of_node
  is_node_of name group = elim (node_group_of_node name) [
    | none ↦ false
    | some owner ↦ text_eq owner group
  ]

  -- What the read of the group leads to; `true` is no error.
  unfoldable pub check_group : ℕ → ReportingNode Q → Answer NodeGroup → State Q W → Bool × State Q W
  unfolding is_node_of is_managed value_of reject record_report
  check_group now node nothing s = (true, s)
  check_group now node broken s = (false, s)
  check_group now node (got ng) s =
      if not (is_managed ng)
      then (true, s)
      else if not (is_node_of node.name ng.name)
      then (true, reject now node.name s)
      else if not (text_eq ng.spec.flavor (value_of node.labels flavor_label))
      then (true, reject now node.name s)
      else (true, record_report now node ng.spec.flavor s)

  -- `Reconcile`
  unfoldable pub reconcile : World Q → State Q W → Bool × State Q W
  unfolding is_worker_with_capacity check_group value_of
  reconcile w s = elim w.node [
    | nothing ↦ (true, s)
    | broken ↦ (false, s)
    | got node ↦
        if not (is_worker_with_capacity node)
        then (true, s)
        else check_group w.now node (w.group (value_of node.labels node_group_node_label)) s
  ]
