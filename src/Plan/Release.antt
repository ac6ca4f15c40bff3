-- ===== src/Plan/Release.antt =====
-- internal/controller/nodeplan.go, `ComputeNodePlan`: the loop over the members, and
-- `unpinnedAction`.
use podsequencing.Base.{
  ℕ, suc, ◌+◌, ◌-◌, String, true, not, Option, none, some, List, [], ◌∷◌, ◌++◌, ◌==◌, nat_eq,
  string_eq, leb, if◌then◌else◌, find_first, map,
}
use podsequencing.Kubernetes.{pos_part}
use podsequencing.Types.{PodSequence, method_taint}
use podsequencing.Sequence.Fields.{gate_name}
use podsequencing.Sequence.Pods.{has_gate, is_bypassed}
use podsequencing.Sequence.Steering.{eligibility_requirement, eligibility_tolerations}
use podsequencing.Plan.Data.{
  NodeState, PodAction, NodePlan, Member, requeue, reason_satisfied, reason_bypass, reason_unpinned,
  reason_not_participating, reason_node_missing,
}

abbrev plain_action : Member → String → PodAction
plain_action m reason = record {
  pod = m.pod;
  group = some m.group;
  reason = reason;
  add_affinity = none;
  add_tolerations = [];
}

unfoldable pub unpinned_action : NodePlan → Member → PodAction
unpinned_action plan m =
    if plan.method == method_taint
    then record (plain_action m reason_unpinned) {
      add_tolerations = eligibility_tolerations plan.key m.group plan.num_groups;
    }
    else if leb 1 m.group
    then record (plain_action m reason_unpinned) {
      add_affinity = some (eligibility_requirement plan.key m.group);
    }
    else plain_action m reason_unpinned

abbrev pub push : NodePlan → PodAction → NodePlan
push plan a = record plan { ungate = plan.ungate ++ (a ∷ []) }

-- `plan.Nodes[stateIdx[name]]`. Node names are unique in a cluster.
unfoldable pub state_of : List NodeState → String → Option NodeState
state_of states name = find_first (λ st. st.name == name) states

unfoldable pub mark_failed : String → List NodeState → List NodeState
mark_failed name = map (λ st. if st.name == name then record st { failed = true } else st)

-- The `default` branch: the pod stays gated.
unfoldable pub hold : PodSequence → ℕ → NodePlan → Member → NodePlan
hold seq now plan m =
    let held = record plan { gated_pods = suc plan.gated_pods } in
    elim seq.spec.gate_timeout [
      | none ↦ held
      | some t ↦
          if pos_part t == 0
          then held
          else let deadline = m.pod.creation_timestamp + pos_part t in
            if leb deadline now
            then record held {
              nodes = mark_failed m.node plan.nodes;
              timed_out =
                  plan.timed_out ++ (record { pod = m.pod; node = m.node; group = m.group } ∷ []);
            }
            else record held { requeue_after = requeue plan.requeue_after (deadline - now) }
    ]

-- The `switch`, on the state of the member's node.
unfoldable pub release_pinned : PodSequence → ℕ → NodePlan → Member → Option NodeState → NodePlan
release_pinned seq now plan m none = push plan (plain_action m reason_node_missing)
release_pinned seq now plan m (some st) =
    if not st.participating
    then push plan (plain_action m reason_not_participating)
    else if leb m.group st.satisfied
    then push plan (plain_action m reason_satisfied)
    else hold seq now plan m

unfoldable pub release_member : PodSequence → ℕ → NodePlan → Member → NodePlan
release_member seq now plan m =
    if not (has_gate m.pod (gate_name seq))
    then plan
    else if is_bypassed m.pod
    then push plan (plain_action m reason_bypass)
    else if m.node == ""
    then push plan (unpinned_action plan m)
    else release_pinned seq now plan m (state_of plan.nodes m.node)

unfoldable pub release_members : PodSequence → ℕ → NodePlan → List Member → NodePlan
release_members seq now plan [] = plan
release_members seq now plan (m ∷ ms) = release_members seq now (release_member seq now plan m) ms
