-- ===== src/Controller/NodeKeys.antt =====
-- internal/controller/podsequence_controller.go: `syncNodeEligibility`, `setNodeKey` and
-- `releaseNodeKeys`.
use podsequencing.Base.{
  String, Bool, true, false, not, ◌&&◌, ◌||◌, Option, none, some, List, [], ◌∷◌, ◌++◌, ok, err,
  Error, ◌==◌, ◌!=◌, string_eq, nat_eq, if◌then◌else◌, keep, ltb, itoa, lookup, value_of, length,
}
use podsequencing.Kubernetes.{Node, Taint, Labels, no_schedule}
use podsequencing.Types.{method_taint}
use podsequencing.Sequence.Keys.{released_label_value}
use podsequencing.Plan.Data.{NodeState, NodePlan}
use podsequencing.Controller.Api.{
  Api, Action, LabelPatch, pure, ask, ◌>>=◌, patch_labels, patch_taints,
}

-- The loop over the taints: `newTaints`, `changed` and `found`.
unfoldable pub scan_taints : String → Option Taint → List Taint → Bool → List Taint × Bool × Bool
scan_taints key want [] found = ([], false, found)
scan_taints key want (t ∷ taints) found =
    let wanted : Bool = elim want [
      | none ↦ false
      | some w ↦ not found && (t.value == w.value && t.effect == w.effect)
    ] in
    let (rest, changed, found') = scan_taints key want taints (found || (t.key == key && wanted)) in
    if t.key != key
    then (t ∷ rest, changed, found')
    else if wanted
    then (t ∷ rest, changed, found')
    else (rest, true, found')

-- The new taints, and whether they differ.
unfoldable pub next_taints : String → Option Taint → List Taint → List Taint × Bool
next_taints key want taints =
    let (new, changed, found) = scan_taints key want taints false in
    elim want [
      | none ↦ (new, changed)
      | some w ↦ if found then (new, changed) else (new ++ (w ∷ []), true)
    ]

-- The test before the label is patched.
unfoldable pub label_differs : Labels → String → String → Bool
label_differs labels key want =
    if want == ""
    then elim (lookup key labels) [ none ↦ false | some v ↦ true ]
    else value_of key labels != want

module _ (api : Api) where
  -- `patchNodeLabels` and `patchNodeTaints`: the error, and the node object afterwards.
  unfoldable pub patch_node_labels : Node → LabelPatch → Action (Option Error × Node)
  patch_node_labels node patch = do
    r ← ask (patch_labels node patch) (λ h. api.answer_patch_labels h node patch)
    elim r [ ok node' ↦ pure (none, node') | err e ↦ pure (api.ignore_not_found (some e), node) ]

  unfoldable pub patch_node_taints : Node → List Taint → Action (Option Error)
  patch_node_taints node taints = do
    r ← ask (patch_taints node taints) (λ h. api.answer_patch_taints h node taints)
    elim r [ ok node' ↦ pure none | err e ↦ pure (api.ignore_not_found (some e)) ]

  -- The second half of `setNodeKey`.
  unfoldable pub set_node_taint : Node → String → Option Taint → Action (Option Error)
  set_node_taint node key want =
      let (new, changed) = next_taints key want node.taints in
      if not changed then pure none else patch_node_taints node new

  -- What follows the patch of the label.
  unfoldable pub after_label : String → Option Taint → Option Error × Node → Action (Option Error)
  after_label key want_taint (some e, node) = pure (some e)
  after_label key want_taint (none, node) = set_node_taint node key want_taint

  unfoldable pub set_node_key : Node → String → String → Option Taint → Action (Option Error)
  set_node_key node key want_label want_taint =
      if label_differs node.labels key want_label
      then (do
        r ← patch_node_labels node ((key, if want_label == "" then none else some want_label) ∷ [])
        after_label key want_taint r)
      else set_node_taint node key want_taint

-- The label and the taint that a node should have.
unfoldable pub wanted_label : Node → NodePlan → NodeState → Bool → String
wanted_label node plan st label_in_use =
    let taints = plan.method == method_taint in
    let has : Bool = elim (lookup plan.key node.labels) [ none ↦ false | some v ↦ true ] in
    if has && (label_in_use && taints)
    then released_label_value
    else if st.participating && not taints
    then itoa st.satisfied
    else ""

unfoldable pub wanted_taint : NodePlan → NodeState → Option Taint
wanted_taint plan st =
    if st.participating && (plan.method == method_taint && ltb st.satisfied plan.num_groups)
    then some (record { key = plan.key; value = itoa st.satisfied; effect = no_schedule })
    else none

module _ (api : Api) where
  unfoldable pub sync_node_eligibility :
      Option Node → NodePlan → NodeState → Bool → Action (Option Error)
  sync_node_eligibility none plan st label_in_use = pure none
  sync_node_eligibility (some node) plan st label_in_use =
      set_node_key api node plan.key (wanted_label node plan st label_in_use) (wanted_taint plan st)

-- The loop over the labels. A `map[string]bool` is its test.
unfoldable pub release_labels : (String → Bool) → (String → Bool) → Labels → LabelPatch
release_labels stale in_use [] = []
release_labels stale in_use ((k, v) ∷ labels) =
    let rest = release_labels stale in_use labels in
    if not (stale k)
    then rest
    else if in_use k
    then if v != released_label_value then (k, some released_label_value) ∷ rest else rest
    else (k, none) ∷ rest

module _ (api : Api) where
  -- The second half of `releaseNodeKeys`.
  unfoldable pub release_taints : Node → (String → Bool) → Action (Option Error)
  release_taints node stale =
      let new = keep (λ t. not (stale t.key)) node.taints in
      if length new == length node.taints then pure none else patch_node_taints api node new

  -- What follows the patch of the labels.
  unfoldable pub after_labels : (String → Bool) → Option Error × Node → Action (Option Error)
  after_labels stale (some e, node) = pure (some e)
  after_labels stale (none, node) = release_taints node stale

  unfoldable pub release_by : Node → (String → Bool) → LabelPatch → Action (Option Error)
  release_by node stale [] = release_taints node stale
  release_by node stale (change ∷ changes) = do
    r ← patch_node_labels api node (change ∷ changes)
    after_labels stale r

  unfoldable pub release_node_keys :
      Node → (String → Bool) → (String → Bool) → Action (Option Error)
  release_node_keys node stale in_use =
      release_by node stale (release_labels stale in_use node.labels)
