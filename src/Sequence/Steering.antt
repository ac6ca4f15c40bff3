-- ===== src/Sequence/Steering.antt =====
-- internal/sequence/sequence.go: how unpinned pods are kept off nodes that are not ready for them.
use podsequencing.Base.{
  ℕ, zero, suc, ◌-◌, String, Bool, true, false, ◌&&◌, none, some, List, [], ◌∷◌, ◌++◌, ◌==◌,
  string_eq, nat_eq, if◌then◌else◌, any, join, itoa,
}
use podsequencing.Kubernetes.{
  Pod, PodSpec, NodeSelectorRequirement, NodeSelectorTerm, Toleration, gt_operator, equal_operator,
  exists_operator, no_schedule,
}
use podsequencing.Kubernetes.Platform.{Platform}
use podsequencing.Sequence.Keys.{is_eligibility_key}
use podsequencing.Sequence.Pods.{required_terms, is_active}

-- `strconv.Itoa(i - 1)`
abbrev pred_text : ℕ → String
pred_text zero = "-1"
pred_text (suc i) = itoa i

unfoldable pub eligibility_requirement : String → ℕ → NodeSelectorRequirement
eligibility_requirement key group_index = record {
  key = key;
  operator = gt_operator;
  values = pred_text group_index ∷ [];
}

unfoldable pub exists_toleration : String → Toleration
exists_toleration key = record {
  key = key;
  operator = exists_operator;
  value = "";
  effect = no_schedule;
}

unfoldable pub equal_toleration : String → ℕ → Toleration
equal_toleration key v = record {
  key = key;
  operator = equal_operator;
  value = itoa v;
  effect = no_schedule;
}

-- The loop from `v` for the given number of rounds.
unfoldable pub tolerations_from : String → ℕ → ℕ → List Toleration
tolerations_from key v zero = []
tolerations_from key v (suc rounds) = equal_toleration key v ∷ tolerations_from key (suc v) rounds

unfoldable pub eligibility_tolerations : String → ℕ → ℕ → List Toleration
eligibility_tolerations key group_index num_groups =
    if group_index == 0
    then exists_toleration key ∷ []
    else tolerations_from key group_index (num_groups - group_index)

-- A function that mutates a spec returns it, with its result.
module _ (p : Platform) where
  unfoldable pub add_missing : List Toleration → PodSpec → Bool → PodSpec × Bool
  add_missing [] spec changed = (spec, changed)
  add_missing (t ∷ tols) spec changed =
      let found = any (λ existing. p.match_toleration existing t) spec.tolerations in
      add_missing tols
        (if found then spec else record spec { tolerations = spec.tolerations ++ (t ∷ []) })
        (if found then changed else true)

  unfoldable pub add_tolerations : PodSpec → List Toleration → PodSpec × Bool
  add_tolerations spec tols = add_missing tols spec false

unfoldable pub has_requirement : List NodeSelectorRequirement → NodeSelectorRequirement → Bool
has_requirement reqs req =
    any
      (λ r.
        r.key == req.key
        && (r.operator == req.operator && join r.values "," == join req.values ","))
      reqs

-- The loop over the terms.
unfoldable pub require_in_terms :
    List NodeSelectorTerm → NodeSelectorRequirement → Bool → List NodeSelectorTerm × Bool
require_in_terms [] req changed = ([], changed)
require_in_terms (term ∷ terms) req changed =
    let found = has_requirement term.match_expressions req in
    let (terms', changed') = require_in_terms terms req (if found then changed else true) in
    (
      (if found
            then term
            else record term { match_expressions = term.match_expressions ++ (req ∷ []) })
          ∷ terms',
      changed',
    )

abbrev pub with_required : PodSpec → List NodeSelectorTerm → PodSpec
with_required spec terms = record spec {
  affinity = some (record { node_affinity = some (record { required = some terms }) });
}

unfoldable pub add_required_node_affinity : PodSpec → NodeSelectorRequirement → PodSpec × Bool
add_required_node_affinity spec req = elim (required_terms spec) [
  | some (term ∷ terms) ↦
      let (terms', changed) = require_in_terms (term ∷ terms) req false in
      (with_required spec terms', changed)
  | _ ↦ (with_required spec (record { match_expressions = req ∷ []; match_fields = [] } ∷ []), true)
]

-- The eligibility keys of one term list, before `keys`. A `map[string]bool` whose values are all
-- true is the list of its keys.
unfoldable pub expression_keys : List NodeSelectorRequirement → List String → List String
expression_keys [] keys = keys
expression_keys (e ∷ es) keys =
    if is_eligibility_key e.key then e.key ∷ expression_keys es keys else expression_keys es keys

unfoldable pub term_keys : List NodeSelectorTerm → List String → List String
term_keys [] keys = keys
term_keys (term ∷ terms) keys = expression_keys term.match_expressions (term_keys terms keys)

-- The keys of one pod, before `keys`.
unfoldable pub pod_keys : Pod → List String → List String
pod_keys pod keys =
    if pod.spec.node_name == "" && is_active pod
    then elim (required_terms pod.spec) [ none ↦ keys | some terms ↦ term_keys terms keys ]
    else keys

unfoldable pub pending_required_keys : List Pod → List String
pending_required_keys [] = []
pending_required_keys (pod ∷ pods) = pod_keys pod (pending_required_keys pods)
