-- ===== src/Sequence/Pods.antt =====
-- internal/sequence/sequence.go and daemonset.go: what the code reads off one pod.
use podsequencing.Base.{
  ℕ, ◌+◌, ◌-◌, String, Bool, false, ◌&&◌, ◌||◌, Option, none, some, List, [], ◌∷◌, ◌==◌, ◌!=◌,
  string_eq, nat_eq, if◌then◌else◌, any, find_first, value_of,
}
use podsequencing.Kubernetes.{
  ℤ, pos_part, Pod, PodSpec, PodCondition, NodeSelectorRequirement, NodeSelectorTerm, in_operator,
}
use podsequencing.Sequence.Keys.{bypass_annotation}

-- The required node selector terms, past the three nil checks.
unfoldable pub required_terms : PodSpec → Option (List NodeSelectorTerm)
required_terms spec = elim spec.affinity [
  | none ↦ none
  | some a ↦ elim a.node_affinity [ none ↦ none | some na ↦ na.required ]
]

-- The node that one field requirement pins.
unfoldable pub pinned_node : NodeSelectorRequirement → Option String
pinned_node f = elim f.values [
  | n ∷ [] ↦ if f.key == "metadata.name" && f.operator == in_operator then some n else none
  | _ ↦ none
]

-- The inner loop of `TargetNode`: the last pinning field wins.
unfoldable pub term_node : List NodeSelectorRequirement → String → String
term_node [] found = found
term_node (f ∷ fields) found = term_node fields (elim (pinned_node f) [ none ↦ found | some n ↦ n ])

-- The outer loop.
unfoldable pub terms_node : List NodeSelectorTerm → String → String
terms_node [] node = node
terms_node (term ∷ terms) node =
    let here = term_node term.match_fields "" in
    let rest = terms_node terms here in
    if here == "" || (node != "" && node != here) then "" else rest

unfoldable pub target_node : Pod → String
target_node pod =
    if pod.spec.node_name != ""
    then pod.spec.node_name
    else elim (required_terms pod.spec) [ none ↦ "" | some terms ↦ terms_node terms "" ]

unfoldable pub is_active : Pod → Bool
is_active pod = elim pod.deletion_timestamp [
  | none ↦ pod.phase != "Succeeded" && pod.phase != "Failed"
  | some t ↦ false
]

unfoldable pub has_gate : Pod → String → Bool
has_gate pod gate = any (λ g. g == gate) pod.spec.scheduling_gates

unfoldable pub is_bypassed : Pod → Bool
is_bypassed pod = value_of bypass_annotation pod.annotations == "true"

unfoldable pub ready_condition : Pod → Option PodCondition
ready_condition pod = find_first (λ c. c.type == "Ready") pod.conditions

unfoldable pub is_pod_ready : Pod → Bool
is_pod_ready pod = elim (ready_condition pod) [ none ↦ false | some c ↦ c.status == "True" ]

-- The result is never negative: `-` stops at 0 where the code returns 0. Go's instants and
-- durations saturate after 292 years; these do not.
unfoldable pub ready_remaining : Pod → ℤ → ℕ → ℕ
ready_remaining pod wait now = if pos_part wait == 0 then 0 else elim (ready_condition pod) [
  | none ↦ 0
  | some c ↦ if c.last_transition_time == 0 then 0 else c.last_transition_time + pos_part wait - now
]

unfoldable pub owned_by : Pod → String → Bool
owned_by pod uid =
    any (λ r. elim r.controller [ none ↦ false | some b ↦ b && r.uid == uid ]) pod.owner_references
