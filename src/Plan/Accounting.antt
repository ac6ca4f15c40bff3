-- ===== src/Plan/Accounting.antt =====
-- `ComputeNodePlan` (internal/controller/nodeplan.go): its releases and counts of pods.
use podsequencing.Base.{
  ℕ, ◌+◌, ◌≡◌, ◌≢◌, true, false, Bool, none, some, List, [], ◌∷◌, arith, length, count, ◌&&◌, ◌==◌,
  string_eq, str_eq_iff, if◌then◌else◌, value_of, ok, >>=-Passed,
}
use podsequencing.Kubernetes.{Pod}
use podsequencing.Kubernetes.Platform.{Platform, Selector}
use podsequencing.Types.{PodSequence}
use podsequencing.Sequence.Keys.{sequence_label}
use podsequencing.Sequence.Fields.{target_namespace, gate_name}
use podsequencing.Sequence.Groups.{group_index_for_pod}
use podsequencing.Sequence.Pods.{is_active, has_gate}
use podsequencing.Plan.Data.{NodePlanInput, NodePlan, GroupInfo}
use podsequencing.Plan.Members.{group_infos, is_stray, collect}
use podsequencing.Plan.Compute.{node_selector, initial_plan, plan_from, compute_node_plan}
use podsequencing.Plan.Runs.{release_members_counts}
use podsequencing.Plan.Membership.{
  collect_round, collect_nil, foreign, stray, free, member, finished,
}

module _ (p : Platform) where
  -- The settings that the plan is computed from.
  pub record Settings (input : NodePlanInput) (plan : NodePlan) : Type 0 where
    pub selector : Selector
    pub infos : List GroupInfo
    pub selector_read : node_selector p input.seq ≡ ok selector
    pub infos_read : group_infos p input.daemon_sets input.seq.spec.pod_groups 0 ≡ ok infos
    pub planned : plan ≡ plan_from p input selector infos

  pub compute_node_plan-Settings :
      (input : NodePlanInput) (plan : NodePlan)
      → compute_node_plan p input ≡ ok plan
      → Settings input plan
  unfolding compute_node_plan
  compute_node_plan-Settings input plan e =
      let first = >>=-Passed (node_selector p input.seq) _ e in
      let second =
        >>=-Passed (group_infos p input.daemon_sets input.seq.spec.pod_groups 0) _ first.ended in
      record {
        selector = first.value;
        infos = second.value;
        selector_read = first.read;
        infos_read = second.read;
        planned = cc second.ended;
      }

  -- A gated active pod of the target namespace that is in a group or has opted in by its label.
  unfoldable pub is_waiting : PodSequence → Pod → Bool
  is_waiting seq pod =
      pod.namespace == target_namespace seq
      && (has_gate pod (gate_name seq)
          && (is_active pod && elim (group_index_for_pod p seq pod) [
            | none ↦ value_of sequence_label pod.labels == seq.name
            | some i ↦ true
          ]))

  collect_counts :
      (seq : PodSequence) (pods : List Pod)
      → length (collect p seq pods).0
          + count (λ m. has_gate m.pod (gate_name seq)) (collect p seq pods).1
        ≡ count (is_waiting seq) pods
  unfolding is_waiting is_stray
  collect_counts seq [] = rw (collect_nil p seq)
  collect_counts seq (pod ∷ pods) =
      let ih = collect_counts seq pods in
      elim (collect_round p seq pod pods) [
        | foreign h e ↦ rw (e, foreign_value h, if◌then◌else◌) ih
        | stray h n s e ↦ rw (e, ungrouped_value h n true s, if◌then◌else◌) (omega (arith, ih))
        | free h n s e ↦ rw (e, ungrouped_value h n false s, if◌then◌else◌) ih
        | finished i h n a e ↦ rw (e, grouped_value i h n, a, if◌then◌else◌) (ground (arith, ih))
        | member i r e ↦
            rw (e, grouped_value i r.namespace r.group_index, r.active, if◌then◌else◌)
              (ground (arith, ih))
      ]
    where
      foreign_value : pod.namespace ≢ target_namespace seq → is_waiting seq pod ≡ false
      foreign_value h = ground (arith, str_eq_iff pod.namespace (target_namespace seq))

      ungrouped_value :
          pod.namespace ≡ target_namespace seq
          → group_index_for_pod p seq pod ≡ none
          → (b : Bool) → is_stray p seq pod ≡ b
          → is_waiting seq pod ≡ b
      ungrouped_value h n b s = ground (arith, str_eq_iff pod.namespace (target_namespace seq))

      grouped_value :
          (i : ℕ)
          → pod.namespace ≡ target_namespace seq
          → group_index_for_pod p seq pod ≡ some i
          → is_waiting seq pod ≡ (has_gate pod (gate_name seq) && is_active pod)
      grouped_value i h n = ground (arith, str_eq_iff pod.namespace (target_namespace seq))

  -- Where a plan is made, the number of its releases and its count of gated pods add up to the
  -- number of pods of the input that wait for the sequence (`is_waiting`).
  pub compute_node_plan-counts :
      (input : NodePlanInput) (plan : NodePlan)
      → compute_node_plan p input ≡ ok plan
      → length plan.ungate + plan.gated_pods ≡ count (is_waiting input.seq) input.pods
  unfolding plan_from initial_plan
  compute_node_plan-counts input plan e =
      let s = compute_node_plan-Settings input plan e in
      rw (s.planned) (
        omega (
          arith,
          release_members_counts input.seq input.now (collect p input.seq input.pods).1
              (initial_plan p input s.selector s.infos),
          collect_counts input.seq input.pods,
        ))
