-- ===== src/Sequence/DaemonSets.antt =====
-- internal/sequence/daemonset.go: where the DaemonSet controller is expected to create a pod.
use podsequencing.Base.{
  String, Bool, false, not, ◌&&◌, ◌||◌, none, some, List, [], ◌∷◌, ◌++◌, ok, err, ◌==◌, ◌!=◌,
  string_eq, if◌then◌else◌, keep,
}
use podsequencing.Kubernetes.{
  DaemonSet, Node, Toleration, Taint, exists_operator, no_schedule, no_execute,
}
use podsequencing.Kubernetes.Platform.{Platform}
use podsequencing.Types.{PodGroup}
use podsequencing.Sequence.Fields.{group_selector}

abbrev not_ready : String
not_ready = "node.kubernetes.io/not-ready"

abbrev unreachable : String
unreachable = "node.kubernetes.io/unreachable"

abbrev network_unavailable : String
network_unavailable = "node.kubernetes.io/network-unavailable"

abbrev tolerate : String → String → Toleration
tolerate key effect = record { key = key; operator = exists_operator; value = ""; effect = effect }

unfoldable pub daemon_set_default_tolerations : List Toleration
daemon_set_default_tolerations =
    tolerate not_ready no_execute
    ∷ tolerate unreachable no_execute
    ∷ tolerate "node.kubernetes.io/disk-pressure" no_schedule
    ∷ tolerate "node.kubernetes.io/memory-pressure" no_schedule
    ∷ tolerate "node.kubernetes.io/pid-pressure" no_schedule
    ∷ tolerate "node.kubernetes.io/unschedulable" no_schedule
    ∷ []

-- The tolerations that a daemon pod will have.
unfoldable pub daemon_tolerations : DaemonSet → List Toleration
daemon_tolerations ds =
    let tols = ds.template_spec.tolerations ++ daemon_set_default_tolerations in
    if ds.template_spec.host_network
    then tols ++ (tolerate network_unavailable no_schedule ∷ [])
    else tols

-- The taints that keep a pod off a node.
abbrev pub blocks : Taint → Bool
blocks t = t.effect == no_schedule || t.effect == no_execute

unfoldable pub is_transient_taint_key : String → Bool
is_transient_taint_key key =
    key == not_ready
    || (key == unreachable
        || (key == network_unavailable || key == "node.cloudprovider.kubernetes.io/uninitialized"))

-- The taints that `DaemonSetExpectedOnNode` looks at.
unfoldable pub lasting_taints : Node → String → List Taint
lasting_taints node own_key =
    keep (λ t. not (t.key == own_key || is_transient_taint_key t.key)) node.taints

module _ (p : Platform) where
  unfoldable pub daemon_set_should_run_on_node : DaemonSet → Node → Bool
  daemon_set_should_run_on_node ds node =
      if ds.template_spec.node_name != "" && ds.template_spec.node_name != node.name
      then false
      else elim (p.node_affinity_match ds.template_spec node) [
        | err e ↦ false
        | ok b ↦ b && not (p.has_untolerated_taint node.taints (daemon_tolerations ds) blocks)
      ]

  unfoldable pub daemon_set_expected_on_node : DaemonSet → Node → String → Bool
  daemon_set_expected_on_node ds node own_key =
      daemon_set_should_run_on_node ds (record node { taints = lasting_taints node own_key })

  unfoldable pub daemon_sets_for_group : List DaemonSet → PodGroup → List DaemonSet
  daemon_sets_for_group ds_list g = elim (group_selector p g) [
    | err e ↦ []
    | ok none ↦ []
    | ok (some sel) ↦
        keep (λ ds. elim ds.deletion_timestamp [ none ↦ sel ds.template_labels | some t ↦ false ])
          ds_list
  ]
