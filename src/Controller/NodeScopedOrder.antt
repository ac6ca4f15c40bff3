-- ===== src/Controller/NodeScopedOrder.antt =====
-- `reconcileNodeScoped` (internal/controller/podsequence_controller.go): the patches of pods that it
-- sends, and the plan of its snapshot.
use mathlib.Core.List.{Memᴰ}
use podsequencing.Base.{
  ◌≡◌, ◌⊎◌, inl, inr, refl, Bool, true, some, List, [], ◌∷◌, ok, ◌!=◌, string_eq, Bool-cases,
  Option-cases, Result-cases, if◌then◌else◌, All, All-of_mem,
}
use podsequencing.Kubernetes.{Pod, Node}
use podsequencing.Kubernetes.Platform.{Platform}
use podsequencing.Types.{PodSequence}
use podsequencing.Sequence.Fields.{target_namespace, gate_name}
use podsequencing.Sequence.Pods.{has_gate}
use podsequencing.Plan.Data.{NodePlanInput, NodePlan, NodeState, PodAction}
use podsequencing.Plan.Compute.{compute_node_plan}
use podsequencing.Controller.Api.{
  Api, History, Call, ◌>>=◌, patch_pod, update_sequence, read, event, node_list, pod_list,
  daemon_set_list,
}
use podsequencing.Controller.Gates.{without_gate, apply_pod_action}
use podsequencing.Controller.Status.{
  set_node_scoped_status, is_news, degraded_report, tally_nodes, no_nodes,
}
use podsequencing.Types.{condition_degraded}
use podsequencing.Controller.NodeScoped.{
  node_named, sync_nodes, apply_actions, carry_out, with_plan, with_daemon_sets, with_pods,
  with_nodes, reconcile_node_scoped,
}
use podsequencing.Controller.Traces.{
  Emits, Emits-nothing, Emits-one, Emits-then, patch_status-Emits,
}
use podsequencing.Controller.KeyTraces.{
  AllowsNodePatches, IsOfAction, constrained, sync_node_eligibility-Emits, apply_pod_action-Emits,
}

module _ (p : Platform) (api : Api) (seq : PodSequence) where
  -- The input of a plan is the sequence with answers of the API server.
  pub record IsSnapshot (input : NodePlanInput) : Type 0 where
    pub sequence : input.seq ≡ seq
    pub nodes_at : History
    pub nodes : api.answer_nodes nodes_at ≡ ok input.nodes
    pub pods_at : History
    pub pods : api.answer_pods pods_at (some (target_namespace seq)) p.everything ≡ ok input.pods
    pub sets_at : History
    pub daemon_sets :
        api.answer_daemon_sets sets_at (some (target_namespace seq)) ≡ ok input.daemon_sets

  -- A patch of a pod carries out an action of the plan of a snapshot: it adds the constraints, or
  -- removes the gate.
  pub record IsPlanned (old new : Pod) : Type 0 where
    pub input : NodePlanInput
    pub snapshot : IsSnapshot input
    pub plan : NodePlan
    pub planned : compute_node_plan p input ≡ ok plan
    pub action : PodAction
    pub listed : Memᴰ action plan.ungate
    pub step :
        ((old ≡ action.pod) × (new ≡ constrained p api action))
        ⊎ (IsOfAction p api action old
            × (has_gate old (gate_name seq) ≡ true)
            × (new ≡ without_gate old (gate_name seq)))

  abbrev pub IsNodeScopedCall : Call → Type 0
  IsNodeScopedCall (patch_pod old new) = IsPlanned old new
  IsNodeScopedCall (update_sequence new) = ⊥
  IsNodeScopedCall _ = Unit

  patches : AllowsNodePatches IsNodeScopedCall
  patches = record { labels = λ node patch. tt; taints = λ node taints. tt }

  pub sync_nodes-Emits :
      (nodes : List Node) (plan : NodePlan) (label_in_use : Bool) (states : List NodeState)
      (h : History)
      → Emits IsNodeScopedCall h (sync_nodes p api nodes plan label_in_use states h).1
  unfolding sync_nodes
  sync_nodes-Emits nodes plan label_in_use [] h = Emits-nothing h
  sync_nodes-Emits nodes plan label_in_use (st ∷ states) h =
      Emits-then
        (sync_node_eligibility-Emits api patches (node_named nodes st.name) plan st label_in_use h)
        (sync_nodes-Emits nodes plan label_in_use states _)

  pub set_node_scoped_status-Emits :
      (orig : PodSequence) (plan : NodePlan) (h : History)
      → Emits IsNodeScopedCall h (set_node_scoped_status api orig seq plan h).1
  unfolding set_node_scoped_status
  set_node_scoped_status-Emits orig plan h =
      let degraded =
        degraded_report seq (tally_nodes plan.num_groups (no_nodes plan.num_groups) plan.nodes)
          plan in
      elim (Bool-cases
        (is_news degraded (api.find_condition orig.status.conditions condition_degraded))) [
          | inl e ↦
              rw (e, if◌then◌else◌)
                (Emits-one (event "Warning" degraded.reason degraded.message) h tt)
          | inr e ↦ rw (e, if◌then◌else◌) (Emits-nothing h)
        ]

  module _ (input : NodePlanInput) (snapshot : IsSnapshot input) (plan : NodePlan)
      (planned : compute_node_plan p input ≡ ok plan) where
    pub apply_actions-Emits :
        (actions : List PodAction) (h : History)
        → All (λ a. Memᴰ a plan.ungate) actions
        → Emits IsNodeScopedCall h (apply_actions p api seq actions h).1
    unfolding apply_actions
    apply_actions-Emits [] h listed = Emits-nothing h
    apply_actions-Emits (a ∷ actions) h (here, listed) =
        let r = apply_pod_action p api a (gate_name seq) h in
        let justify =
          λ (old new : Pod)
              (step : ((old ≡ a.pod) × (new ≡ constrained p api a))
                ⊎ (IsOfAction p api a old
                    × (has_gate old (gate_name seq) ≡ true)
                    × (new ≡ without_gate old (gate_name seq)))).
            let x : IsPlanned old new = record {
              input = input;
              snapshot = snapshot;
              plan = plan;
              planned = planned;
              action = a;
              listed = here;
              step = step;
            } in
            x in
        let applied : Emits IsNodeScopedCall h r.1 =
          apply_pod_action-Emits p api a (gate_name seq) h (λ c. justify _ _ (inl (refl, refl)))
            (λ pod o g. justify _ _ (inr (o, g, refl))) in
        elim (Option-cases r.0) [
          | inr (x, f) ↦ rw (f, ◌>>=◌) (Emits-then applied (apply_actions-Emits actions _ listed))
          | inl n ↦
              rw (n, ◌>>=◌)
                (Emits-then applied
                  (Emits-then (Emits-one _ r.1 tt) (apply_actions-Emits actions _ listed)))
        ]

    carry_out-Emits :
        (orig : PodSequence) (nodes : List Node) (pods : List Pod) (h : History)
        → Emits IsNodeScopedCall h (carry_out p api orig seq nodes pods plan h).1
    unfolding carry_out
    carry_out-Emits orig nodes pods h = Emits-then (sync_nodes-Emits nodes plan _ plan.nodes h) (
        Emits-then (apply_actions-Emits plan.ungate _ (All-of_mem plan.ungate (λ a m. m))) (
          Emits-then (set_node_scoped_status-Emits orig plan _)
            (patch_status-Emits api orig _ _ tt)))

  with_plan-Emits :
      (orig : PodSequence) (input : NodePlanInput) (h : History)
      → IsSnapshot input
      → Emits IsNodeScopedCall h
          (with_plan p api orig seq input.nodes input.pods (compute_node_plan p input) h).1
  unfolding with_plan
  with_plan-Emits orig input h snapshot = elim (Result-cases (compute_node_plan p input)) [
    | inl (plan, f) ↦ rw f (carry_out-Emits input snapshot plan f orig input.nodes input.pods h)
    | inr (x, f) ↦ elim (Bool-cases (orig.status.message != x.text)) [
      | inl e ↦
          rw (f, e, if◌then◌else◌)
            (Emits-then (Emits-one _ h tt) (patch_status-Emits api orig _ _ tt))
      | inr e ↦ rw (f, e, if◌then◌else◌) (patch_status-Emits api orig _ _ tt)
    ]
  ]

  with_daemon_sets-Emits :
      (orig : PodSequence) (nodes : List Node) (pods : List Pod) (h_nodes h_pods h_sets h : History)
      → api.answer_nodes h_nodes ≡ ok nodes
      → api.answer_pods h_pods (some (target_namespace seq)) p.everything ≡ ok pods
      → Emits IsNodeScopedCall h
          (with_daemon_sets p api orig seq nodes pods
            (api.answer_daemon_sets h_sets (some (target_namespace seq)))
            h).1
  unfolding with_daemon_sets
  with_daemon_sets-Emits orig nodes pods h_nodes h_pods h_sets h f_nodes f_pods =
      elim (Result-cases (api.answer_daemon_sets h_sets (some (target_namespace seq)))) [
        | inr (x, f) ↦ rw (f, with_daemon_sets) (Emits-nothing h)
        | inl (sets, f) ↦
            rw (f, with_daemon_sets)
              (with_plan-Emits orig
                (record {
                  seq = seq;
                  nodes = nodes;
                  pods = pods;
                  daemon_sets = sets;
                  now = api.time h;
                })
                h
                (record {
                  sequence = refl;
                  nodes_at = h_nodes;
                  nodes = f_nodes;
                  pods_at = h_pods;
                  pods = f_pods;
                  sets_at = h_sets;
                  daemon_sets = f;
                }))
      ]

  with_pods-Emits :
      (orig : PodSequence) (nodes : List Node) (h_nodes h_pods h : History)
      → api.answer_nodes h_nodes ≡ ok nodes
      → Emits IsNodeScopedCall h
          (with_pods p api orig seq nodes
            (api.answer_pods h_pods (some (target_namespace seq)) p.everything)
            h).1
  unfolding with_pods
  with_pods-Emits orig nodes h_nodes h_pods h f_nodes =
      elim (Result-cases (api.answer_pods h_pods (some (target_namespace seq)) p.everything)) [
        | inr (x, f) ↦ rw (f, with_pods) (Emits-nothing h)
        | inl (pods, f) ↦
            rw (f, with_pods)
              (Emits-then (Emits-one (read daemon_set_list) h tt)
                (with_daemon_sets-Emits orig nodes pods h_nodes h_pods h _ f_nodes f))
      ]

  -- Whatever the API server answers, every patch of a pod that `reconcileNodeScoped` sends carries
  -- out a listed release of the plan that `ComputeNodePlan` makes of a snapshot, which consists of
  -- the sequence and answers of the server: it adds the release's constraints to the release's pod,
  -- or takes the gate from that pod, that pod with the constraints, or the server's answer to it.
  -- The sequence's finalizers are not written.
  pub reconcile_node_scoped-IsNodeScopedCall :
      (orig : PodSequence) (h : History)
      → Emits IsNodeScopedCall h (reconcile_node_scoped p api orig seq h).1
  unfolding reconcile_node_scoped with_nodes
  reconcile_node_scoped-IsNodeScopedCall orig h = elim (Result-cases (api.answer_nodes h)) [
    | inr (x, f) ↦ rw f (Emits-one (read node_list) h tt)
    | inl (nodes, f) ↦ rw f (
        Emits-then (Emits-one (read node_list) h tt)
          (Emits-then (Emits-one (read pod_list) _ tt) (with_pods-Emits orig nodes h _ _ f)))
  ]
