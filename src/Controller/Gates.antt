-- ===== src/Controller/Gates.antt =====
-- internal/controller/podsequence_controller.go: `removeGate` and `applyPodAction`.
use podsequencing.Base.{
  String, Bool, true, false, not, ◌||◌, Option, none, some, [], ok, err, Error, ◌==◌, string_eq,
  if◌then◌else◌, keep,
}
use podsequencing.Kubernetes.{Pod, PodSpec}
use podsequencing.Kubernetes.Platform.{Platform}
use podsequencing.Sequence.Pods.{has_gate}
use podsequencing.Sequence.Steering.{add_tolerations, add_required_node_affinity}
use podsequencing.Plan.Data.{PodAction}
use podsequencing.Controller.Api.{Api, Action, pure, ask, ◌>>=◌, patch_pod}

-- The pod without the gate.
unfoldable pub without_gate : Pod → String → Pod
without_gate pod gate = record pod {
  spec = record pod.spec {
    scheduling_gates = keep (λ g. not (g == gate)) pod.spec.scheduling_gates;
  };
}

module _ (api : Api) where
  -- The error, and the pod object afterwards: the server's answer, or the pod as changed locally.
  unfoldable pub remove_gate : Pod → String → Action (Option Error × Pod)
  remove_gate pod gate = if not (has_gate pod gate) then pure (none, pod) else (do
    let new = without_gate pod gate
    r ← ask (patch_pod pod new) (λ h. api.answer_patch_pod h pod new)
    elim r [ ok pod' ↦ pure (none, pod') | err e ↦ pure (api.ignore_not_found (some e), new) ])

  abbrev pub finish : Pod → String → Action (Option Error)
  finish pod gate = do (e, pod') ← remove_gate pod gate; pure e

-- The constraints of an action on a spec, and whether they changed it.
unfoldable pub constrain : Platform → PodAction → PodSpec → PodSpec × Bool
constrain p a spec =
    let (spec', changed) = add_tolerations p spec a.add_tolerations in
    elim a.add_affinity [
      | none ↦ (spec', changed)
      | some req ↦
          let (spec'', more) = add_required_node_affinity spec' req in (spec'', changed || more)
    ]

-- `len(a.AddTolerations) > 0 || a.AddAffinity != nil`
abbrev pub is_constrained : PodAction → Bool
is_constrained a = elim a.add_affinity [
  | some req ↦ true
  | none ↦ elim a.add_tolerations [ [] ↦ false | _ ↦ true ]
]

module _ (p : Platform) (api : Api) where
  unfoldable pub apply_pod_action : PodAction → String → Action (Option Error)
  apply_pod_action a gate =
      let (spec, changed) = constrain p a a.pod.spec in
      let new = record (a.pod) { spec = spec } in
      if is_constrained a
      then (if changed
          then (do
            r ← ask (patch_pod a.pod new) (λ h. api.answer_patch_pod h a.pod new)
            elim r [ err e ↦ pure (api.ignore_not_found (some e)) | ok pod ↦ finish api pod gate ])
          else finish api new gate)
      else finish api a.pod gate
