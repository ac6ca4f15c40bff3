-- ===== src/Controller/NodeScopedOutcomes.antt =====
-- The outcomes of `reconcileNodeScoped` (internal/controller/podsequence_controller.go): what was done
-- where there is no error, and which error there is otherwise.
use podsequencing.Base.{
  err, wrap, ◌≤◌, ◌<◌, ◌≡◌, ◌⊎◌, Bool, none, some, List, [], ◌∷◌, ◌++◌, ok, Error, ◌==◌, string_eq,
  any, All,
}
use podsequencing.Kubernetes.{Node}
use podsequencing.Kubernetes.Platform.{Platform}
use podsequencing.Types.{PodSequence, phase_failed}
use podsequencing.Sequence.Fields.{target_namespace, gate_name}
use podsequencing.Sequence.Steering.{pending_required_keys}
use podsequencing.Plan.Data.{NodePlanInput, NodePlan, NodeState, PodAction}
use podsequencing.Plan.Compute.{compute_node_plan}
use podsequencing.Controller.Api.{Api, History}
use podsequencing.Controller.Gates.{apply_pod_action}
use podsequencing.Controller.NodeKeys.{sync_node_eligibility}
use podsequencing.Controller.Access.{Outcome, no_requeue, patch_status}
use podsequencing.Controller.Status.{set_node_scoped_status}
use podsequencing.Controller.NodeScoped.{node_resync, node_named, sync_nodes, apply_actions}
use podsequencing.Controller.NodeScopedOrder.{IsSnapshot}

module _ (p : Platform) (api : Api) (orig seq : PodSequence) where
  -- At some time `syncNodeEligibility` reported no error for the node.
  abbrev pub WasSynced : List Node → NodePlan → Bool → NodeState → Type 0
  WasSynced nodes plan label_in_use st =
      (h : History) × ((sync_node_eligibility api (node_named nodes st.name) plan st label_in_use
          h).0
        ≡ none)

  -- At some time `applyPodAction` reported no error for the action.
  abbrev pub WasApplied : PodAction → Type 0
  WasApplied a = (h : History) × ((apply_pod_action p api a (gate_name seq) h).0 ≡ none)

  -- The plan of a snapshot was carried out whole, and the next time is set.
  pub record IsCarriedOut (outcome : Outcome) : Type 0 where
    pub input : NodePlanInput
    pub snapshot : IsSnapshot p api seq input
    pub plan : NodePlan
    pub planned : compute_node_plan p input ≡ ok plan
    pub synced :
        All
          (WasSynced input.nodes plan (any (λ k. k == plan.key) (pending_required_keys input.pods)))
          plan.nodes
    pub applied : All WasApplied plan.ungate
    pub reported :
        (h : History) × (h' : History) × ((patch_status api orig
            (set_node_scoped_status api orig seq plan h').0
            h).0
          ≡ none)
    pub no_error : outcome.1 ≡ none
    pub later : 0 < outcome.0.after
    pub soon : outcome.0.after ≤ node_resync
    pub in_time : (plan.requeue_after ≡ 0) ⊎ (outcome.0.after ≤ plan.requeue_after)

  -- What keeps the plan of a snapshot from being carried out whole, and the outcome then: an error,
  -- or a status that reports the plan's.
  pub data IsFailure (outcome : Outcome) : Type 0 where
    nodes_unlisted :
        (h : History) (x : Error)
        → api.answer_nodes h ≡ err x
        → outcome ≡ (no_requeue, some (wrap "listing nodes" x))
        → IsFailure outcome
    pods_unlisted :
        (h : History) (x : Error)
        → api.answer_pods h (some (target_namespace seq)) p.everything ≡ err x
        → outcome ≡ (no_requeue, some (wrap "listing pods" x))
        → IsFailure outcome
    daemon_sets_unlisted :
        (h : History) (x : Error)
        → api.answer_daemon_sets h (some (target_namespace seq)) ≡ err x
        → outcome ≡ (no_requeue, some (wrap "listing daemonsets" x))
        → IsFailure outcome
    unplanned :
        (input : NodePlanInput) (x : Error) (new : PodSequence) (h : History)
        → IsSnapshot p api seq input
        → compute_node_plan p input ≡ err x
        → new.status.phase ≡ phase_failed
        → new.status.message ≡ x.text
        → outcome ≡ (no_requeue, (patch_status api orig new h).0)
        → IsFailure outcome
    incomplete :
        (input : NodePlanInput) (plan : NodePlan) (x : Error) (h h' h'' h''' : History)
        → IsSnapshot p api seq input
        → compute_node_plan p input ≡ ok plan
        → api.aggregate (
            (sync_nodes p api input.nodes plan
              (any (λ k. k == plan.key) (pending_required_keys input.pods))
              plan.nodes
              h).0
            ++ ((apply_actions p api seq plan.ungate h').0
                ++ ((patch_status api orig (set_node_scoped_status api orig seq plan h'').0 h''').0
                    ∷ [])))
          ≡ some x
        → outcome ≡ (no_requeue, some x)
        → IsFailure outcome

  -- Everything was done, or the outcome tells why not.
  abbrev pub IsSettled : Outcome → Type 0
  IsSettled outcome = IsFailure outcome ⊎ IsCarriedOut outcome
