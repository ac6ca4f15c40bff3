-- ===== src/Sequence/Fields.antt =====
-- internal/sequence/sequence.go: the settings of a sequence and of a group, defaults put in.
use podsequencing.Base.{
  ℕ, ◌+◌, String, ◌<>◌, Option, none, some, Result, ok, ◌>>=◌, ◌==◌, ◌!=◌, string_eq, if◌then◌else◌,
  itoa,
}
use podsequencing.Kubernetes.{ℤ, pos}
use podsequencing.Kubernetes.Platform.{Platform, Selector}
use podsequencing.Types.{PodSequence, PodGroup, scope_cluster, method_node_label, policy_skip}
use podsequencing.Sequence.Keys.{default_scheduling_gate}

unfoldable pub target_namespace : PodSequence → String
target_namespace seq = if seq.spec.namespace != "" then seq.spec.namespace else seq.namespace

unfoldable pub gate_name : PodSequence → String
gate_name seq =
    if seq.spec.scheduling_gate_name != ""
    then seq.spec.scheduling_gate_name
    else default_scheduling_gate

unfoldable pub scope : PodSequence → String
scope seq = if seq.spec.scope == "" then scope_cluster else seq.spec.scope

unfoldable pub eligibility_method : PodSequence → String
eligibility_method seq = elim seq.spec.node_eligibility [
  | none ↦ method_node_label
  | some e ↦ if e.method == "" then method_node_label else e.method
]

unfoldable pub group_policy : PodGroup → String
group_policy g = if g.policy == "" then policy_skip else g.policy

unfoldable pub group_name : PodGroup → ℕ → String
group_name g i = if g.name != "" then g.name else "Group " <> itoa (i + 1)

module _ (p : Platform) where
  unfoldable pub wait_duration : PodGroup → Result ℤ
  wait_duration g = if g.wait_duration == "" then ok (pos 0) else p.parse_duration g.wait_duration

  -- `none` for a group that lists its pods by name.
  unfoldable pub group_selector : PodGroup → Result (Option Selector)
  group_selector g = elim g.pod_selector [
    | none ↦ ok none
    | some s ↦ p.as_selector s >>= λ sel. ok (some sel)
  ]
