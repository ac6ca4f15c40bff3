-- ===== src/Plan/Compute.antt =====
-- internal/controller/nodeplan.go, `ComputeNodePlan`.
use podsequencing.Base.{
  String, none, some, List, [], Result, ok, ◌>>=◌, wrapping, ◌==◌, string_eq, length, if◌then◌else◌,
}
use podsequencing.Kubernetes.Platform.{Platform, Selector}
use podsequencing.Types.{PodSequence, method_taint}
use podsequencing.Sequence.Keys.{eligibility_key}
use podsequencing.Sequence.Fields.{eligibility_method}
use podsequencing.Plan.Data.{NodePlanInput, NodePlan, GroupInfo}
use podsequencing.Plan.Members.{group_infos, missing_tolerations, collect}
use podsequencing.Plan.Nodes.{sort_nodes, node_states}
use podsequencing.Plan.Release.{release_members}

module _ (p : Platform) where
  unfoldable pub node_selector : PodSequence → Result Selector
  node_selector seq = elim seq.spec.node_selector [
    | none ↦ ok p.everything
    | some s ↦ wrapping "invalid nodeSelector" (p.as_selector s)
  ]

  abbrev pub plan_key : PodSequence → String
  plan_key seq = eligibility_key p seq.namespace seq.name

  -- The plan before the loop over the members.
  unfoldable pub initial_plan : NodePlanInput → Selector → List GroupInfo → NodePlan
  initial_plan input sel infos =
      let seq = input.seq in
      let (strays, members) = collect p seq input.pods in
      let (states, after) =
        node_states p members input.now (plan_key seq) sel infos (sort_nodes input.nodes) 0 in
      record {
        key = plan_key seq;
        method = eligibility_method seq;
        num_groups = length seq.spec.pod_groups;
        nodes = states;
        ungate = strays;
        gated_pods = 0;
        timed_out = [];
        missing_toleration =
            if eligibility_method seq == method_taint
            then missing_tolerations p (plan_key seq) infos
            else [];
        requeue_after = after;
      }

  -- The plan once the settings are read.
  unfoldable pub plan_from : NodePlanInput → Selector → List GroupInfo → NodePlan
  plan_from input sel infos =
      release_members input.seq input.now (initial_plan input sel infos)
        (collect p input.seq input.pods).1

  unfoldable pub compute_node_plan : NodePlanInput → Result NodePlan
  compute_node_plan input = node_selector input.seq >>= λ sel.
      group_infos p input.daemon_sets input.seq.spec.pod_groups 0 >>= λ infos.
      ok (plan_from input sel infos)
