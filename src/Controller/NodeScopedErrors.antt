-- ===== src/Controller/NodeScopedErrors.antt =====
-- `reconcileNodeScoped` (internal/controller/podsequence_controller.go): the outcome it returns, its
-- errors and the time of the next reconcile.
use podsequencing.Base.{
  ◌!=◌, Bool-cases, if◌then◌else◌, ◌≤◌, ◌<◌, String, ◌<>◌, ◌≡◌, ◌⊎◌, inl, inr, refl, Bool, Option,
  none, some, List, [], ◌∷◌, ◌++◌, ok, Error, arith, ◌==◌, string_eq, any, Option-cases,
  Result-cases, All, All-split,
}
use podsequencing.Kubernetes.{Pod, Node}
use podsequencing.Kubernetes.Platform.{Platform}
use podsequencing.Types.{PodSequence}
use podsequencing.Sequence.Fields.{target_namespace, gate_name}
use podsequencing.Sequence.Steering.{pending_required_keys}
use podsequencing.Plan.Data.{NodePlanInput, NodePlan, NodeState, PodAction}
use podsequencing.Plan.Compute.{compute_node_plan}
use podsequencing.Controller.Api.{Api, History, read, daemon_set_list}
use podsequencing.Controller.Gates.{apply_pod_action}
use podsequencing.Controller.NodeKeys.{sync_node_eligibility}
use podsequencing.Controller.Access.{patch_status}
use podsequencing.Controller.Status.{set_node_scoped_status}
use podsequencing.Controller.NodeScoped.{
  node_resync, noted, node_named, sync_nodes, apply_actions, plan_requeue, carry_out, with_plan,
  with_daemon_sets, with_pods, with_nodes, reconcile_node_scoped,
}
use podsequencing.Controller.NodeScopedOrder.{IsSnapshot}
use podsequencing.Controller.DeletionSafety.{IsAggregating}
use podsequencing.Controller.NodeScopedOutcomes.{
  WasSynced, WasApplied, nodes_unlisted, pods_unlisted, daemon_sets_unlisted, unplanned, incomplete,
  IsSettled,
}

plan_requeue-bounds :
    (plan : NodePlan)
    → (0 < plan_requeue plan)
      × (plan_requeue plan ≤ node_resync)
      × ((plan.requeue_after ≡ 0) ⊎ (plan_requeue plan ≤ plan.requeue_after))
unfolding plan_requeue
plan_requeue-bounds plan = grind arith

noted-none :
    (context : String) (e : Option Error) (errs : List (Option Error))
    → All (λ x. x ≡ none) (noted context e errs)
    → (e ≡ none) × All (λ x. x ≡ none) errs
noted-none context none errs h = (refl, h)
noted-none context (some x) errs (h, rest) = absurd (cc h)

module _ (p : Platform) (api : Api) (orig seq : PodSequence) where
  sync_nodes-synced :
      (nodes : List Node) (plan : NodePlan) (label_in_use : Bool) (states : List NodeState)
      (h : History)
      → All (λ x. x ≡ none) (sync_nodes p api nodes plan label_in_use states h).0
      → All (WasSynced p api orig seq nodes plan label_in_use) states
  unfolding sync_nodes
  sync_nodes-synced nodes plan label_in_use [] h clean = tt
  sync_nodes-synced nodes plan label_in_use (st ∷ states) h clean =
      let r = sync_node_eligibility api (node_named nodes st.name) plan st label_in_use h in
      let (here, rest) = noted-none ("node " <> st.name) r.0 _ clean in
      ((h, here), sync_nodes-synced nodes plan label_in_use states r.1 rest)

  apply_actions-applied :
      (actions : List PodAction) (h : History)
      → All (λ x. x ≡ none) (apply_actions p api seq actions h).0
      → All (WasApplied p api orig seq) actions
  unfolding apply_actions
  apply_actions-applied [] h clean = tt
  apply_actions-applied (a ∷ actions) h clean =
      let r = apply_pod_action p api a (gate_name seq) h in
      let (here, rest) = noted-none ("pod " <> a.pod.name) r.0 _ clean in
      ((h, here), apply_actions-applied actions _ rest)

  module _ (aggregating : IsAggregating api) where
    carry_out-IsSettled :
        (input : NodePlanInput) (plan : NodePlan) (h : History)
        → IsSnapshot p api seq input
        → compute_node_plan p input ≡ ok plan
        → IsSettled p api orig seq (carry_out p api orig seq input.nodes input.pods plan h).0
    unfolding carry_out
    carry_out-IsSettled input plan h snapshot planned =
        let in_use = any (λ k. k == plan.key) (pending_required_keys input.pods) in
        let s = sync_nodes p api input.nodes plan in_use plan.nodes h in
        let a = apply_actions p api seq plan.ungate s.1 in
        let n = set_node_scoped_status api orig seq plan a.1 in
        let e = patch_status api orig n.0 n.1 in
        let errs = s.0 ++ (a.0 ++ (e.0 ∷ [])) in
        elim (Option-cases (api.aggregate errs)) [
          | inr (x, f) ↦ inl (incomplete input plan x h s.1 a.1 n.1 snapshot planned f (rw f refl))
          | inl f ↦
              let clean = aggregating.aggregate_none errs f in
              let (synced, more) = All-split (λ x. x ≡ none) s.0 _ clean in
              let (applied, last) = All-split (λ x. x ≡ none) a.0 _ more in
              let (later, soon, in_time) = plan_requeue-bounds plan in
              inr (
                rw f (record {
                  input = input;
                  snapshot = snapshot;
                  plan = plan;
                  planned = planned;
                  synced = sync_nodes-synced input.nodes plan in_use plan.nodes h synced;
                  applied = apply_actions-applied plan.ungate s.1 applied;
                  reported = (n.1, a.1, last.0);
                  no_error = refl;
                  later = later;
                  soon = soon;
                  in_time = in_time;
                }))
        ]

    with_plan-IsSettled :
        (input : NodePlanInput) (h : History)
        → IsSnapshot p api seq input
        → IsSettled p api orig seq
            (with_plan p api orig seq input.nodes input.pods (compute_node_plan p input) h).0
    unfolding with_plan
    with_plan-IsSettled input h snapshot = elim (Result-cases (compute_node_plan p input)) [
      | inl (plan, f) ↦ rw f (carry_out-IsSettled input plan h snapshot f)
      | inr (x, f) ↦ elim (Bool-cases (orig.status.message != x.text)) [
        | inl e ↦ rw (f, e, if◌then◌else◌) (inl (unplanned input x _ _ snapshot f refl refl refl))
        | inr e ↦ rw (f, e, if◌then◌else◌) (inl (unplanned input x _ _ snapshot f refl refl refl))
      ]
    ]

    with_daemon_sets-IsSettled :
        (nodes : List Node) (pods : List Pod) (h_nodes h_pods h_sets h : History)
        → api.answer_nodes h_nodes ≡ ok nodes
        → api.answer_pods h_pods (some (target_namespace seq)) p.everything ≡ ok pods
        → IsSettled p api orig seq
            (with_daemon_sets p api orig seq nodes pods
              (api.answer_daemon_sets h_sets (some (target_namespace seq)))
              h).0
    unfolding with_daemon_sets
    with_daemon_sets-IsSettled nodes pods h_nodes h_pods h_sets h f_nodes f_pods =
        elim (Result-cases (api.answer_daemon_sets h_sets (some (target_namespace seq)))) [
          | inr (x, f) ↦ rw (f, with_daemon_sets) (inl (daemon_sets_unlisted h_sets x f refl))
          | inl (sets, f) ↦
              rw (f, with_daemon_sets)
                (with_plan-IsSettled
                  (record {
                    seq = seq;
                    nodes = nodes;
                    pods = pods;
                    daemon_sets = sets;
                    now = api.time h;
                  })
                  h
                  (record {
                    sequence = refl;
                    nodes_at = h_nodes;
                    nodes = f_nodes;
                    pods_at = h_pods;
                    pods = f_pods;
                    sets_at = h_sets;
                    daemon_sets = f;
                  }))
        ]

    with_pods-IsSettled :
        (nodes : List Node) (h_nodes h_pods h : History)
        → api.answer_nodes h_nodes ≡ ok nodes
        → IsSettled p api orig seq
            (with_pods p api orig seq nodes
              (api.answer_pods h_pods (some (target_namespace seq)) p.everything)
              h).0
    unfolding with_pods
    with_pods-IsSettled nodes h_nodes h_pods h f_nodes =
        elim (Result-cases (api.answer_pods h_pods (some (target_namespace seq)) p.everything)) [
          | inr (x, f) ↦ rw (f, with_pods) (inl (pods_unlisted h_pods x f refl))
          | inl (pods, f) ↦
              rw (f, with_pods)
                (with_daemon_sets-IsSettled nodes pods h_nodes h_pods h (read daemon_set_list ∷ h)
                  f_nodes f)
        ]

    -- Where an aggregate of errors is nil only if no error is in it: `reconcileNodeScoped` ends
    -- without error only after the plan of a snapshot was carried out, where `syncNodeEligibility`
    -- reported no error for each node of the plan, `applyPodAction` none for each release, and
    -- `patchStatus` none for the status of `setNodeScopedStatus`; or after it found no plan and
    -- `patchStatus` reported no error for a Failed status with the plan's error as its message. In
    -- the first case it asks to come back in more than no time, at most the resync time, and at
    -- most the plan's time where the plan has one. Otherwise it asks for no requeue and returns the
    -- error: of a list that failed, wrapped; of that `patchStatus`; or the aggregate of the errors
    -- of the nodes, the releases and the status.
    pub reconcile_node_scoped-IsSettled :
        (h : History) → IsSettled p api orig seq (reconcile_node_scoped p api orig seq h).0
    unfolding reconcile_node_scoped with_nodes
    reconcile_node_scoped-IsSettled h = elim (Result-cases (api.answer_nodes h)) [
      | inr (x, f) ↦ rw f (inl (nodes_unlisted h x f refl))
      | inl (nodes, f) ↦ rw f (with_pods-IsSettled nodes h _ _ f)
    ]
