-- ===== src/Tests/Plans.antt =====
-- A node-scoped sequence of two groups on one node, and the theorems on plans applied to it.
use podsequencing.Base.{
  ℕ, String, ◌≡◌, refl, true, false, Option, none, some, List, [], ◌∷◌, ok, itoa,
}
use podsequencing.Kubernetes.{pos, LabelSelector, PodSpec, PodCondition, Pod, Node}
use podsequencing.Types.{PodGroup, PodSequenceStatus, PodSequence, scope_node}
use podsequencing.Sequence.Keys.{
  is_eligibility_key, sequence_label, default_scheduling_gate, eligibility_key,
}
use podsequencing.Sequence.Groups.{pod_matches_group, belongs, group_index_for_pod, first_group}
use podsequencing.Plan.Data.{requeue, NodePlanInput, NodePlan, PodAction, GroupInfo}
use podsequencing.Plan.Members.{
  group_infos, missing_tolerations, tolerates_probe, is_stray, collect, pods_of,
}
use podsequencing.Plan.Satisfied.{
  missing_daemon_set, ready_wait, pods_verdict, group_satisfied_on_node,
}
use podsequencing.Plan.Nodes.{
  insert_node, sort_nodes, advance, participates, node_state, node_states,
}
use podsequencing.Plan.Release.{
  unpinned_action, state_of, mark_failed, hold, release_pinned, release_member, release_members,
}
use podsequencing.Plan.Compute.{node_selector, initial_plan, plan_from, compute_node_plan}
use podsequencing.Sequence.Steering.{
  eligibility_requirement, exists_toleration, equal_toleration, tolerations_from,
  eligibility_tolerations,
}
use podsequencing.Sequence.DaemonSets.{
  daemon_tolerations, daemon_set_should_run_on_node, daemon_set_expected_on_node,
  daemon_sets_for_group,
}
use podsequencing.Sequence.Pods.{
  required_terms, pinned_node, term_node, terms_node, target_node, is_active, has_gate, is_bypassed,
  ready_condition, is_pod_ready, ready_remaining, owned_by,
}
use podsequencing.Sequence.Fields.{
  target_namespace, gate_name, scope, eligibility_method, group_policy, group_name, wait_duration,
  group_selector,
}
use podsequencing.Tests.Platform.{platform}

abbrev pub selecting : String → Option LabelSelector
selecting app = some (record { match_labels = ("app", app) ∷ []; match_expressions = [] })

abbrev pub group_of : String → String → PodGroup
group_of app wait = record {
  name = app;
  pods = [];
  pod_selector = selecting app;
  wait_duration = wait;
  policy = "";
}

abbrev pub fresh_status : PodSequenceStatus
fresh_status = record {
  current_index = 0;
  phase = "";
  node_status = [];
  summary = none;
  node_eligibility_key = "";
  conditions = [];
  processed_pods = [];
  current_group_pods = [];
  ready_pods_in_current_group = 0;
  message = "";
}

abbrev pub sequence : PodSequence
sequence = record {
  name = "boot";
  namespace = "infra";
  generation = 1;
  deletion_timestamp = none;
  finalizers = [];
  spec = record {
    pod_groups = group_of "net" "" ∷ group_of "csi" "30s" ∷ [];
    scope = scope_node;
    namespace = "";
    scheduling_gate_name = "";
    node_selector = none;
    node_eligibility = none;
    gate_timeout = none;
  };
  status = fresh_status;
}

abbrev pub spec_on : String → List String → PodSpec
spec_on node gates = record {
  node_name = node;
  host_network = false;
  affinity = none;
  tolerations = [];
  scheduling_gates = gates;
}

abbrev pub pod_of : String → String → PodSpec → List PodCondition → Pod
pod_of name app spec conditions = record {
  name = name;
  namespace = "infra";
  labels = ("app", app) ∷ (sequence_label, "boot") ∷ [];
  annotations = [];
  owner_references = [];
  creation_timestamp = 5;
  deletion_timestamp = none;
  spec = spec;
  phase = "Pending";
  conditions = conditions;
}

abbrev pub ready_at : ℕ → List PodCondition
ready_at t = record { type = "Ready"; status = "True"; last_transition_time = t } ∷ []

-- The first group's pod runs on node a; the second group's pod is gated there.
abbrev pub net_pod : Pod
net_pod = pod_of "net-1" "net" (spec_on "a" []) (ready_at 10)

abbrev pub csi_pod : Pod
csi_pod = pod_of "csi-1" "csi" (spec_on "a" (default_scheduling_gate ∷ [])) []

abbrev pub node_a : Node
node_a = record { name = "a"; labels = []; deletion_timestamp = none; taints = [] }

abbrev pub input : NodePlanInput
input = record {
  seq = sequence;
  nodes = node_a ∷ [];
  pods = net_pod ∷ csi_pod ∷ [];
  daemon_sets = [];
  now = 20;
}

abbrev pub released : PodAction
released = record {
  pod = csi_pod;
  group = some 1;
  reason = "satisfied";
  add_affinity = none;
  add_tolerations = [];
}

abbrev pub plan : NodePlan
plan = record {
  key = "podsequence.example.com/seq-0123456789";
  method = "NodeLabel";
  num_groups = 2;
  nodes =
      record {
        name = "a";
        participating = true;
        satisfied = 1;
        message = "waiting for csi: pod csi-1 not Ready";
        failed = false;
      }
      ∷ [];
  ungate = released ∷ [];
  gated_pods = 0;
  timed_out = [];
  missing_toleration = [];
  requeue_after = 0;
}

abbrev pub infos : List GroupInfo
infos =
    record { group = group_of "net" ""; wait = pos 0; daemon_sets = [] }
    ∷ record { group = group_of "csi" "30s"; wait = pos 30000000000; daemon_sets = [] }
    ∷ []

-- All that a run of the plan computes with.
unfoldable pub program : Unit {0}
unfolding compute_node_plan plan_from initial_plan node_selector group_infos missing_tolerations
    tolerates_probe is_stray collect pods_of insert_node sort_nodes advance participates node_state
    node_states unpinned_action state_of mark_failed hold release_pinned release_member
    release_members missing_daemon_set ready_wait pods_verdict group_satisfied_on_node requeue
    eligibility_key is_eligibility_key target_namespace gate_name scope eligibility_method
    group_policy group_name wait_duration group_selector pod_matches_group belongs first_group
    group_index_for_pod required_terms pinned_node term_node terms_node target_node is_active
    has_gate is_bypassed ready_condition is_pod_ready ready_remaining owned_by
    eligibility_requirement exists_toleration equal_toleration tolerations_from
    eligibility_tolerations daemon_tolerations daemon_set_should_run_on_node
    daemon_set_expected_on_node daemon_sets_for_group itoa
program = tt

pub compute_node_plan-input : compute_node_plan platform input ≡ ok plan
unfolding program
compute_node_plan-input = refl
