-- ===== src/Controller/Deletion.antt =====
-- internal/controller/podsequence_controller.go: `handleDeletion` and `cleanupOrphanedNodeKeys`.
-- `deleteMetrics` is left out.
use podsequencing.Base.{
  String, ◌<>◌, Bool, true, false, not, ◌&&◌, ◌||◌, Option, none, some, List, [], ◌∷◌, ◌++◌, Result,
  ok, err, Error, ◌==◌, string_eq, if◌then◌else◌, any, value_of,
}
use podsequencing.Kubernetes.{Pod, Node}
use podsequencing.Kubernetes.Platform.{Platform}
use podsequencing.Types.{PodSequence, scope_node}
use podsequencing.Sequence.Keys.{
  domain, sequence_label, eligibility_key, is_eligibility_key, is_legacy_group_taint_key,
}
use podsequencing.Sequence.Fields.{target_namespace, gate_name, scope}
use podsequencing.Sequence.Groups.{group_index_for_pod}
use podsequencing.Sequence.Pods.{has_gate}
use podsequencing.Sequence.Steering.{pending_required_keys}
use podsequencing.Controller.Api.{
  Api, Action, pure, ask, tell, ◌>>=◌, ◌>>◌, read, node_list, pod_list, sequence_list, event,
  update_sequence,
}
use podsequencing.Controller.Gates.{remove_gate}
use podsequencing.Controller.NodeKeys.{release_node_keys}
use podsequencing.Controller.Access.{Outcome, no_requeue}

-- `FinalizerKey`
abbrev pub finalizer_key : String
finalizer_key = domain <> "finalizer"

-- The items of a list, none after an error, and the error for `errs`.
abbrev pub items_of : {A : Type 0} → Result (List A) → List A
items_of (ok items) = items
items_of (err x) = []

abbrev pub error_of : {A : Type 0} → Result A → List (Option Error)
error_of (ok a) = []
error_of (err x) = some x ∷ []

abbrev pub error_list : Option Error → List (Option Error)
error_list none = []
error_list (some x) = some x ∷ []

module _ (p : Platform) where
  -- The pod is gated, and in a group or labelled with the sequence.
  unfoldable pub is_claimed : PodSequence → Pod → Bool
  is_claimed seq pod =
      has_gate pod (gate_name seq)
      && (elim (group_index_for_pod p seq pod) [ none ↦ false | some i ↦ true ]
          || value_of sequence_label pod.labels == seq.name)

  module _ (api : Api) where
    -- The loop over the pods: the errors, and the pods afterwards.
    unfoldable pub release_claimed :
        PodSequence → List Pod → Action (List (Option Error) × List Pod)
    release_claimed seq [] = pure ([], [])
    release_claimed seq (pod ∷ pods) =
        let others = release_claimed seq pods in
        if is_claimed seq pod
        then (do
          (e, pod') ← remove_gate api pod (gate_name seq)
          (errs, pods') ← others
          pure (error_list e ++ errs, pod' ∷ pods'))
        else (do (errs, pods') ← others; pure (errs, pod ∷ pods'))

module _ (api : Api) where
  -- The loop over the nodes.
  unfoldable pub release_nodes :
      (String → Bool) → (String → Bool) → List Node → Action (List (Option Error))
  release_nodes stale in_use [] = pure []
  release_nodes stale in_use (node ∷ nodes) = do
    e ← release_node_keys api node stale in_use
    errs ← release_nodes stale in_use nodes
    pure (error_list e ++ errs)

-- A `map[string]bool` of these keys, as its test.
abbrev pub is_among : List String → String → Bool
is_among keys key = any (λ k. k == key) keys

module _ (p : Platform) where
  -- The keys of the node-scoped sequences, `valid`.
  unfoldable pub valid_keys : List PodSequence → List String
  valid_keys [] = []
  valid_keys (seq ∷ seqs) =
      let keys = valid_keys seqs in
      if scope seq == scope_node then eligibility_key p seq.namespace seq.name ∷ keys else keys

  unfoldable pub is_orphaned : List PodSequence → String → Bool
  is_orphaned seqs key =
      is_eligibility_key key && not (is_among (valid_keys seqs) key)
      || is_legacy_group_taint_key key

module _ (p : Platform) (api : Api) where
  -- The part for node scope.
  unfoldable pub release_sequence_key : PodSequence → List Pod → Action (List (Option Error))
  release_sequence_key seq pods = do
    r ← ask (read node_list) api.answer_nodes
    errs ←
        release_nodes api (λ k. k == eligibility_key p seq.namespace seq.name)
          (is_among (pending_required_keys pods)) (items_of r)
    pure (error_of r ++ errs)

  -- The part below the errors.
  unfoldable pub drop_finalizer : PodSequence → Option Error → Action Outcome
  drop_finalizer seq (some x) = pure (no_requeue, some x)
  drop_finalizer seq none = do
    let new = api.remove_finalizer seq finalizer_key
    e ← ask (update_sequence new) (λ h. api.answer_update_sequence h new)
    elim e [
      | some x ↦ pure (no_requeue, api.ignore_not_found (some x))
      | none ↦
          tell (event "Normal" "Deleted" "Pod sequence cleaned up successfully")
          >> pure (no_requeue, none)
    ]

  -- The errors of all that comes before the finalizer.
  unfoldable pub clean_up : Bool → PodSequence → Action (List (Option Error))
  clean_up node_scope_enabled seq = do
    r ← ask (read pod_list) (λ h. api.answer_pods h (some (target_namespace seq)) p.everything)
    (errs, pods) ← release_claimed p api seq (items_of r)
    errs' ←
        if scope seq == scope_node && node_scope_enabled
        then release_sequence_key seq pods
        else pure []
    pure (error_of r ++ (errs ++ errs'))

  unfoldable pub handle_deletion : Bool → PodSequence → Action Outcome
  handle_deletion node_scope_enabled seq =
      if not (api.contains_finalizer seq finalizer_key)
      then pure (no_requeue, none)
      else (do errs ← clean_up node_scope_enabled seq; drop_finalizer seq (api.aggregate errs))

  unfoldable pub cleanup_nodes :
      List PodSequence → List Pod → Result (List Node) → Action (Option Error)
  cleanup_nodes seqs pods (err x) = pure (some x)
  cleanup_nodes seqs pods (ok nodes) = do
    errs ← release_nodes api (is_orphaned p seqs) (is_among (pending_required_keys pods)) nodes
    pure (api.aggregate errs)

  unfoldable pub cleanup_pods : List PodSequence → Result (List Pod) → Action (Option Error)
  cleanup_pods seqs (err x) = pure (some x)
  cleanup_pods seqs (ok pods) = do
    r ← ask (read node_list) api.answer_nodes
    cleanup_nodes seqs pods r

  unfoldable pub cleanup_sequences : Result (List PodSequence) → Action (Option Error)
  cleanup_sequences (err x) = pure (some x)
  cleanup_sequences (ok seqs) = do
    r ← ask (read pod_list) (λ h. api.answer_pods h none p.everything)
    cleanup_pods seqs r

  unfoldable pub cleanup_orphaned_node_keys : Action (Option Error)
  cleanup_orphaned_node_keys = do
    r ← ask (read sequence_list) api.answer_sequences
    cleanup_sequences r
