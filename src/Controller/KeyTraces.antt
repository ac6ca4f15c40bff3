-- ===== src/Controller/KeyTraces.antt =====
-- What writing a node's keys and applying a pod action call
-- (internal/controller/podsequence_controller.go).
use podsequencing.Base.{
  String, ◌≡◌, refl, Bool, true, inl, inr, Option, none, some, List, nat_eq, ok, Result-cases,
  Bool-cases, if◌then◌else◌, Error,
}
use podsequencing.Kubernetes.{Node, Taint, Pod}
use podsequencing.Kubernetes.Platform.{Platform}
use podsequencing.Plan.Data.{NodeState, NodePlan, PodAction}
use podsequencing.Controller.Api.{
  Api, History, Call, LabelPatch, patch_pod, patch_labels, patch_taints,
}
use podsequencing.Controller.NodeKeys.{
  label_differs, next_taints, patch_node_labels, patch_node_taints, set_node_taint, after_label,
  set_node_key, sync_node_eligibility,
}
use podsequencing.Controller.Gates.{constrain, is_constrained, without_gate, apply_pod_action}
use podsequencing.Sequence.Pods.{has_gate}
use podsequencing.Controller.Traces.{Emits, Emits-nothing, Emits-one, Emits-then, remove_gate-Emits}

-- `P` allows a node's labels and taints to be patched.
pub record AllowsNodePatches (P : Call → Type 0) : Type 0 where
  pub labels : (node : Node) (patch : LabelPatch) → P (patch_labels node patch)
  pub taints : (node : Node) (taints : List Taint) → P (patch_taints node taints)

module _ (api : Api) {P : Call → Type 0} where
  pub patch_node_labels-Emits :
      (node : Node) (patch : LabelPatch) (h : History)
      → P (patch_labels node patch)
      → Emits P h (patch_node_labels api node patch h).1
  unfolding patch_node_labels
  patch_node_labels-Emits node patch h given =
      elim (Result-cases (api.answer_patch_labels h node patch)) [
        | inl (r, f) ↦ rw f (Emits-one _ h given)
        | inr (x, f) ↦ rw f (Emits-one _ h given)
      ]

  pub patch_node_taints-Emits :
      (node : Node) (taints : List Taint) (h : History)
      → P (patch_taints node taints)
      → Emits P h (patch_node_taints api node taints h).1
  unfolding patch_node_taints
  patch_node_taints-Emits node taints h given =
      elim (Result-cases (api.answer_patch_taints h node taints)) [
        | inl (r, f) ↦ rw f (Emits-one _ h given)
        | inr (x, f) ↦ rw f (Emits-one _ h given)
      ]

module _ (api : Api) {P : Call → Type 0} (patches : AllowsNodePatches P) where
  set_node_taint-Emits :
      (node : Node) (key : String) (want : Option Taint) (h : History)
      → Emits P h (set_node_taint api node key want h).1
  unfolding set_node_taint
  set_node_taint-Emits node key want h = elim (Bool-cases (next_taints key want node.taints).1) [
    | inl e ↦ rw (e, if◌then◌else◌) (patch_node_taints-Emits api node _ h (patches.taints node _))
    | inr e ↦ rw (e, if◌then◌else◌) (Emits-nothing h)
  ]

  after_label-Emits :
      (key : String) (want : Option Taint) (r : Option Error × Node) (h : History)
      → Emits P h (after_label api key want r h).1
  unfolding after_label
  after_label-Emits key want (some x, node) h = Emits-nothing h
  after_label-Emits key want (none, node) h = set_node_taint-Emits node key want h

  set_node_key-Emits :
      (node : Node) (key want_label : String) (want : Option Taint) (h : History)
      → Emits P h (set_node_key api node key want_label want h).1
  unfolding set_node_key
  set_node_key-Emits node key want_label want h =
      elim (Bool-cases (label_differs node.labels key want_label)) [
        | inr e ↦ rw (e, if◌then◌else◌) (set_node_taint-Emits node key want h)
        | inl e ↦
            rw (e, if◌then◌else◌)
              (Emits-then (patch_node_labels-Emits api node _ h (patches.labels node _))
                (after_label-Emits key want _ _))
      ]

  pub sync_node_eligibility-Emits :
      (node : Option Node) (plan : NodePlan) (st : NodeState) (label_in_use : Bool) (h : History)
      → Emits P h (sync_node_eligibility api node plan st label_in_use h).1
  unfolding sync_node_eligibility
  sync_node_eligibility-Emits none plan st label_in_use h = Emits-nothing h
  sync_node_eligibility-Emits (some node) plan st label_in_use h = set_node_key-Emits node _ _ _ h

module _ (p : Platform) (api : Api) (a : PodAction) where
  -- The pod as the action's constraints leave it.
  abbrev pub constrained : Pod
  constrained = record (a.pod) { spec = (constrain p a a.pod.spec).0 }

  -- What the server may make of the action's pod.
  pub data IsOfAction (pod : Pod) : Type 0 where
    planned : pod ≡ a.pod → IsOfAction pod
    kept : pod ≡ constrained → IsOfAction pod
    answered : (h : History) → api.answer_patch_pod h a.pod constrained ≡ ok pod → IsOfAction pod

module _ (p : Platform) (api : Api) (a : PodAction) (gate : String) {P : Call → Type 0} where
  pub apply_pod_action-Emits :
      (h : History)
      → (is_constrained a ≡ true → P (patch_pod a.pod (constrained p api a)))
      → ((pod : Pod)
          → IsOfAction p api a pod
          → has_gate pod gate ≡ true
          → P (patch_pod pod (without_gate pod gate)))
      → Emits P h (apply_pod_action p api a gate h).1
  unfolding apply_pod_action
  apply_pod_action-Emits h first last = elim (Bool-cases (is_constrained a)) [
    | inr n ↦ rw (n, if◌then◌else◌) (remove_gate-Emits api a.pod gate h (last a.pod (planned refl)))
    | inl c ↦ elim (Bool-cases (constrain p a a.pod.spec).1) [
      | inr same ↦
          rw (c, same, if◌then◌else◌)
            (remove_gate-Emits api (constrained p api a) gate h
              (last (constrained p api a) (kept refl)))
      | inl e ↦ elim (Result-cases (api.answer_patch_pod h a.pod (constrained p api a))) [
        | inr (x, f) ↦ rw (c, e, if◌then◌else◌, f) (Emits-one _ h (first c))
        | inl (r, f) ↦
            rw (c, e, if◌then◌else◌, f)
              (Emits-then (Emits-one _ h (first c))
                (remove_gate-Emits api r gate _ (last r (answered h f))))
      ]
    ]
  ]
