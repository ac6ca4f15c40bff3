-- ===== src/Controller/DeletionLiveness.antt =====
-- `handleDeletion` (internal/controller/podsequence_controller.go) on a server that accepts its calls.
use mathlib.Core.List.{Memᴰ}
use podsequencing.Base.{
  String, ◌≡◌, inl, inr, refl, ap, ◌∙◌, Bool, true, not, ◌&&◌, Option, none, some, List, [], ◌∷◌,
  ok, length, keep, ◌==◌, string_eq, nat_eq, Bool-cases, if◌then◌else◌,
}
use podsequencing.Kubernetes.{Pod, Node}
use podsequencing.Kubernetes.Platform.{Platform}
use podsequencing.Types.{PodSequence, scope_node}
use podsequencing.Sequence.Keys.{eligibility_key}
use podsequencing.Sequence.Fields.{target_namespace, gate_name, scope}
use podsequencing.Sequence.Pods.{has_gate}
use podsequencing.Sequence.Steering.{pending_required_keys}
use podsequencing.Controller.Api.{
  Api, History, LabelPatch, ◌>>=◌, read, pod_list, node_list, event, update_sequence,
}
use podsequencing.Controller.Echo.{IsEchoing}
use podsequencing.Controller.Gates.{without_gate, remove_gate}
use podsequencing.Controller.NodeKeys.{
  release_labels, patch_node_labels, patch_node_taints, release_taints, after_labels, release_by,
  release_node_keys,
}
use podsequencing.Controller.Access.{no_requeue}
use podsequencing.Controller.Deletion.{
  finalizer_key, is_claimed, release_claimed, release_nodes, is_among, release_sequence_key,
  drop_finalizer, clean_up, handle_deletion,
}
use podsequencing.Controller.Traces.{Includes, Includes-after}
use podsequencing.Controller.DeletionSafety.{clean_up-Fine}

-- The server accepts every call: its lists answer, and its updates and patches succeed. An aggregate
-- of no errors is nil.
pub record IsAccepting (api : Api) : Type 0 where
  pub echoing : IsEchoing api
  pub lists_pods :
      (h : History) (p : Platform) (namespace : Option String)
      → (pods : List Pod) × (api.answer_pods h namespace p.everything ≡ ok pods)
  pub lists_nodes : (h : History) → (nodes : List Node) × (api.answer_nodes h ≡ ok nodes)
  pub updates : (h : History) (seq : PodSequence) → api.answer_update_sequence h seq ≡ none
  pub aggregate_nil : api.aggregate [] ≡ none

module _ (api : Api) (echoing : IsEchoing api) where
  remove_gate_accepted :
      (pod : Pod) (gate : String) (h : History) → (remove_gate api pod gate h).0.0 ≡ none
  unfolding remove_gate
  remove_gate_accepted pod gate h = elim (Bool-cases (has_gate pod gate)) [
    | inr e ↦ rw (e, if◌then◌else◌) refl
    | inl e ↦ rw (e, if◌then◌else◌, echoing.echo_pod h pod (without_gate pod gate)) refl
  ]

  patch_node_taints_accepted :
      (node : Node) (stale : String → Bool) (h : History)
      → (release_taints api node stale h).0 ≡ none
  unfolding release_taints patch_node_taints
  patch_node_taints_accepted node stale h =
      let new = keep (λ t. not (stale t.key)) node.taints in
      elim (Bool-cases (length new == length node.taints)) [
        | inl e ↦ rw (e, if◌then◌else◌) refl
        | inr e ↦ rw (e, if◌then◌else◌, echoing.echo_taints h node new) refl
      ]

  release_by_accepted :
      (node : Node) (stale : String → Bool) (patch : LabelPatch) (h : History)
      → (release_by api node stale patch h).0 ≡ none
  unfolding release_by patch_node_labels after_labels
  release_by_accepted node stale [] h = patch_node_taints_accepted node stale h
  release_by_accepted node stale (change ∷ changes) h =
      rw (echoing.echo_labels h node (change ∷ changes), after_labels)
        (patch_node_taints_accepted _ stale _)

  release_nodes_accepted :
      (stale in_use : String → Bool) (nodes : List Node) (h : History)
      → (release_nodes api stale in_use nodes h).0 ≡ []
  unfolding release_nodes release_node_keys
  release_nodes_accepted stale in_use [] h = refl
  release_nodes_accepted stale in_use (node ∷ nodes) h =
      let patch = release_labels stale in_use node.labels in
      rw
        (
          release_by_accepted node stale patch h,
          release_nodes_accepted stale in_use nodes (release_by api node stale patch h).1,
        )
        refl

module _ (p : Platform) (api : Api) (accepting : IsAccepting api) (seq : PodSequence) where
  release_claimed_accepted :
      (pods : List Pod) (h : History) → (release_claimed p api seq pods h).0.0 ≡ []
  unfolding release_claimed
  release_claimed_accepted [] h = refl
  release_claimed_accepted (pod ∷ pods) h = elim (Bool-cases (is_claimed p seq pod)) [
    | inr e ↦ rw (e, if◌then◌else◌) (release_claimed_accepted pods h)
    | inl e ↦
        rw
          (
            e,
            if◌then◌else◌,
            remove_gate_accepted api accepting.echoing pod (gate_name seq) h,
            release_claimed_accepted pods (remove_gate api pod (gate_name seq) h).1,
          )
          refl
  ]

  release_sequence_key_accepted :
      (pods : List Pod) (h : History) → (release_sequence_key p api seq pods h).0 ≡ []
  unfolding release_sequence_key
  release_sequence_key_accepted pods h =
      let (nodes, e) = accepting.lists_nodes h in
      rw e (
        release_nodes_accepted api accepting.echoing
          (λ k. k == eligibility_key p seq.namespace seq.name)
          (is_among (pending_required_keys pods)) nodes (read node_list ∷ h))

  clean_up_accepted : (enabled : Bool) (h : History) → (clean_up p api enabled seq h).0 ≡ []
  unfolding clean_up
  clean_up_accepted enabled h =
      let (pods, e) = accepting.lists_pods h p (some (target_namespace seq)) in
      let r = release_claimed p api seq pods (read pod_list ∷ h) in
      let released = release_claimed_accepted pods (read pod_list ∷ h) in
      elim (Bool-cases (scope seq == scope_node && enabled)) [
        | inr f ↦ rw (e, f, if◌then◌else◌, ◌>>=◌, released) refl
        | inl f ↦
            rw (e, f, if◌then◌else◌, ◌>>=◌, released, release_sequence_key_accepted r.0.1 r.1) refl
      ]

  -- Where the API server accepts all calls and the sequence has the finalizer, `handleDeletion`
  -- ends without error and asks for no requeue, and it sends the update that takes the finalizer
  -- away.
  pub handle_deletion_accepted :
      (enabled : Bool) (h : History)
      → api.contains_finalizer seq finalizer_key ≡ true
      → ((handle_deletion p api enabled seq h).0 ≡ (no_requeue, none))
        × Includes
            (update_sequence (api.remove_finalizer seq finalizer_key))
            h
            (handle_deletion p api enabled seq h).1
  unfolding handle_deletion drop_finalizer
  handle_deletion_accepted enabled h held =
      let r = clean_up p api enabled seq h in
      let new = api.remove_finalizer seq finalizer_key in
      let clean = ap api.aggregate (clean_up_accepted enabled h) ∙ accepting.aggregate_nil in
      rw (held, if◌then◌else◌, clean, drop_finalizer, accepting.updates r.1 new)
        (
          refl,
          Includes-after (clean_up-Fine p api seq enabled h) (record {
            calls =
                event "Normal" "Deleted" "Pod sequence cleaned up successfully"
                ∷ update_sequence new
                ∷ [];
            extends = refl;
            listed = Memᴰ.tail (Memᴰ.head refl);
          }),
        )
