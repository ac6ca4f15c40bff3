-- ===== src/Controller/NodeScoped.antt =====
-- internal/controller/podsequence_controller.go: `reconcileNodeScoped`.
use podsequencing.Base.{
  ℕ, String, ◌<>◌, Bool, ◌&&◌, Option, none, some, List, [], ◌∷◌, ◌++◌, Result, ok, err, Error,
  wrap, ◌==◌, ◌!=◌, nat_eq, string_eq, ltb, if◌then◌else◌, any, find_first,
}
use podsequencing.Kubernetes.{Pod, Node, DaemonSet}
use podsequencing.Kubernetes.Platform.{Platform}
use podsequencing.Types.{PodSequence, phase_failed}
use podsequencing.Sequence.Fields.{target_namespace, gate_name}
use podsequencing.Sequence.Steering.{pending_required_keys}
use podsequencing.Plan.Data.{NodePlan, NodeState, PodAction}
use podsequencing.Plan.Compute.{compute_node_plan}
use podsequencing.Controller.Api.{
  Api, Action, pure, ask, tell, ◌>>=◌, ◌>>◌, read, node_list, pod_list, daemon_set_list, event,
  count_ungated,
}
use podsequencing.Controller.Gates.{apply_pod_action}
use podsequencing.Controller.NodeKeys.{sync_node_eligibility}
use podsequencing.Controller.Status.{set_node_scoped_status}
use podsequencing.Controller.Access.{
  Outcome, no_requeue, requeue_after, clock, patch_status, patch_and_return,
}
use podsequencing.Controller.ClusterScoped.{with_message, with_phase}

-- `NodeResync`
abbrev pub node_resync : ℕ
node_resync = 60000000000

-- `append(errs, fmt.Errorf("…: %w", err))` if there is an error.
abbrev pub noted : String → Option Error → List (Option Error) → List (Option Error)
noted context none errs = errs
noted context (some x) errs = some (wrap context x) ∷ errs

-- `nodesByName[name]`: of several nodes of one name the last; names are unique in a cluster.
unfoldable pub node_named : List Node → String → Option Node
node_named nodes name = find_first (λ n. n.name == name) nodes

unfoldable pub plan_requeue : NodePlan → ℕ
plan_requeue plan =
    if ltb 0 plan.requeue_after && ltb plan.requeue_after node_resync
    then plan.requeue_after
    else node_resync

abbrev pub outcome_of : NodePlan → Option Error → Outcome
outcome_of plan (some x) = (no_requeue, some x)
outcome_of plan none = (requeue_after (plan_requeue plan), none)

module _ (p : Platform) (api : Api) where
  unfoldable pub sync_nodes :
      List Node → NodePlan → Bool → List NodeState → Action (List (Option Error))
  sync_nodes nodes plan label_in_use [] = pure []
  sync_nodes nodes plan label_in_use (st ∷ states) = do
    e ← sync_node_eligibility api (node_named nodes st.name) plan st label_in_use
    errs ← sync_nodes nodes plan label_in_use states
    pure (noted ("node " <> st.name) e errs)

  unfoldable pub apply_actions : PodSequence → List PodAction → Action (List (Option Error))
  apply_actions seq [] = pure []
  apply_actions seq (a ∷ actions) = do
    e ← apply_pod_action p api a (gate_name seq)
    (elim e [ some x ↦ pure tt | none ↦ tell (count_ungated seq.namespace seq.name a.reason) ])
    errs ← apply_actions seq actions
    pure (noted ("pod " <> a.pod.name) e errs)

  unfoldable pub carry_out :
      PodSequence → PodSequence → List Node → List Pod → NodePlan → Action Outcome
  carry_out orig seq nodes pods plan = do
    let label_in_use = any (λ k. k == plan.key) (pending_required_keys pods)
    errs ← sync_nodes nodes plan label_in_use plan.nodes
    errs' ← apply_actions seq plan.ungate
    new ← set_node_scoped_status api orig seq plan
    e ← patch_status api orig new
    pure (outcome_of plan (api.aggregate (errs ++ (errs' ++ (e ∷ [])))))

  unfoldable pub with_plan :
      PodSequence → PodSequence → List Node → List Pod → Result NodePlan → Action Outcome
  with_plan orig seq nodes pods (ok plan) = carry_out orig seq nodes pods plan
  with_plan orig seq nodes pods (err x) = do
    let failed = with_message (with_phase seq phase_failed) x.text
    (if orig.status.message != x.text then tell (event "Warning" "InvalidSpec" x.text) else pure tt)
    patch_and_return api orig failed no_requeue

  abbrev pub unlisted : String → Error → Action Outcome
  unlisted context x = pure (no_requeue, some (wrap context x))

  unfoldable pub with_daemon_sets :
      PodSequence → PodSequence → List Node → List Pod → Result (List DaemonSet) → Action Outcome
  with_daemon_sets orig seq nodes pods (err x) = unlisted "listing daemonsets" x
  with_daemon_sets orig seq nodes pods (ok daemon_sets) = do
    now ← clock api
    with_plan orig seq nodes pods (
        compute_node_plan p
          (record { seq = seq; nodes = nodes; pods = pods; daemon_sets = daemon_sets; now = now }))

  unfoldable pub with_pods :
      PodSequence → PodSequence → List Node → Result (List Pod) → Action Outcome
  with_pods orig seq nodes (err x) = unlisted "listing pods" x
  with_pods orig seq nodes (ok pods) = do
    r ← ask (read daemon_set_list) (λ h. api.answer_daemon_sets h (some (target_namespace seq)))
    with_daemon_sets orig seq nodes pods r

  unfoldable pub with_nodes : PodSequence → PodSequence → Result (List Node) → Action Outcome
  with_nodes orig seq (err x) = unlisted "listing nodes" x
  with_nodes orig seq (ok nodes) = do
    r ← ask (read pod_list) (λ h. api.answer_pods h (some (target_namespace seq)) p.everything)
    with_pods orig seq nodes r

  unfoldable pub reconcile_node_scoped : PodSequence → PodSequence → Action Outcome
  reconcile_node_scoped orig seq = do
    r ← ask (read node_list) api.answer_nodes
    with_nodes orig seq r
