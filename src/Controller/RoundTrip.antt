-- ===== src/Controller/RoundTrip.antt =====
-- The pod webhook's gate (internal/webhook/podsequence_webhook.go) and the reconciler's `removeGate`
-- (internal/controller/podsequence_controller.go).
use podsequencing.Base.{
  String, ◌≡◌, refl, sym, ap, ◌∙◌, true, false, not, none, some, List, [], ◌∷◌, ◌++◌, ok, arith,
  ◌==◌, string_eq, str_eq_iff, if◌then◌else◌, any, keep, value_of,
}
use podsequencing.Kubernetes.{Pod}
use podsequencing.Kubernetes.Platform.{Platform}
use podsequencing.Types.{PodSequence}
use podsequencing.Sequence.Keys.{sequence_label}
use podsequencing.Sequence.Fields.{gate_name}
use podsequencing.Sequence.Pods.{has_gate}
use podsequencing.Webhook.Handlers.{Reader, patched, find_sequence, with_gate, admit_pod}
use podsequencing.Webhook.Gating.{admit_pod-patched_iff}
use podsequencing.Controller.Api.{Api, History, patch_pod}
use podsequencing.Controller.Echo.{IsEchoing}
use podsequencing.Controller.Gates.{without_gate, remove_gate}

keep-missing :
    (gate : String) (gates : List String)
    → any (λ g. g == gate) gates ≡ false
    → keep (λ g. not (g == gate)) (gates ++ (gate ∷ [])) ≡ gates
keep-missing gate [] h = ground (arith, str_eq_iff gate gate)
keep-missing gate (g ∷ gates) h = ground (arith, keep-missing gate gates, h)

any-appended :
    (gate : String) (gates : List String) → any (λ g. g == gate) (gates ++ (gate ∷ [])) ≡ true
any-appended gate [] = ground (arith, str_eq_iff gate gate)
any-appended gate (g ∷ gates) = ground (arith, any-appended gate gates)

without_gate-with_gate :
    (pod : Pod) (gate : String)
    → has_gate pod gate ≡ false
    → without_gate (with_gate pod gate) gate ≡ pod
unfolding without_gate has_gate
without_gate-with_gate pod gate h =
    ap (λ gates. record pod { spec = record (pod.spec) { scheduling_gates = gates } })
      (keep-missing gate pod.spec.scheduling_gates h)

has_gate-with_gate : (pod : Pod) (gate : String) → has_gate (with_gate pod gate) gate ≡ true
unfolding has_gate
has_gate-with_gate pod gate = any-appended gate pod.spec.scheduling_gates

remove_gate-with_gate :
    (api : Api)
    → IsEchoing api
    → (pod : Pod) (gate : String) (h : History) → has_gate pod gate ≡ false
    → remove_gate api (with_gate pod gate) gate h
      ≡ ((none, pod), patch_pod (with_gate pod gate) pod ∷ h)
unfolding remove_gate
remove_gate-with_gate api echoing pod gate h missing =
    rw
      (
        has_gate-with_gate pod gate,
        if◌then◌else◌,
        without_gate-with_gate pod gate missing,
        echoing.echo_pod h (with_gate pod gate) pod,
      )
      refl

-- Where pods can be encoded and the API server accepts patches: of a pod that the pod webhook
-- patched, `removeGate` with the gate of the sequence found takes exactly what the webhook added,
-- with one patch and no error.
pub remove_gate-admit_pod :
    (p : Platform) (r : Reader) (api : Api)
    → ((pod : Pod) → r.marshal_pod pod ≡ none)
    → IsEchoing api
    → (pod new : Pod) (h : History) → admit_pod p r pod ≡ patched new
    → (seq : PodSequence) × (find_sequence r pod.namespace (value_of sequence_label pod.labels)
        ≡ ok (some seq))
      × (remove_gate api new (gate_name seq) h ≡ ((none, pod), patch_pod new pod ∷ h))
remove_gate-admit_pod p r api marshals echoing pod new h admitted =
    let g = (admit_pod-patched_iff p r marshals pod new).0 admitted in
    (
      g.seq,
      g.found,
      ap (λ q. remove_gate api q (gate_name g.seq) h) g.gated
          ∙ remove_gate-with_gate api echoing pod (gate_name g.seq) h g.missing
          ∙ ap (λ q. ((none, pod), patch_pod q pod ∷ h)) (sym g.gated),
    )
