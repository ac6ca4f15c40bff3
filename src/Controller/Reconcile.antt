-- ===== src/Controller/Reconcile.antt =====
-- internal/controller/podsequence_controller.go: `Reconcile`.
use podsequencing.Base.{
  ℕ, String, ◌<>◌, Bool, not, ◌&&◌, Option, none, some, Result, ok, err, ◌==◌, ◌!=◌, string_eq,
  if◌then◌else◌,
}
use podsequencing.Kubernetes.Platform.{Platform}
use podsequencing.Types.{PodSequence, scope_node, phase_failed, phase_pending}
use podsequencing.Sequence.Fields.{scope}
use podsequencing.Controller.Api.{
  Api, Action, pure, ask, tell, ◌>>=◌, ◌>>◌, read, sequence_by_name, event, update_sequence,
}
use podsequencing.Controller.Access.{Outcome, no_requeue, patch_and_return}
use podsequencing.Controller.ClusterScoped.{with_message, with_phase, reconcile_cluster_scoped}
use podsequencing.Controller.NodeScoped.{reconcile_node_scoped}
use podsequencing.Controller.Deletion.{finalizer_key, handle_deletion}

abbrev pub full_mode_needed : String
full_mode_needed =
    "Node-scoped sequencing requires full mode. "
    <> "Use scope: Cluster or redeploy with --enable-webhook flag."

module _ (p : Platform) (api : Api) where
  unfoldable pub refuse_node_scope : PodSequence → Action Outcome
  refuse_node_scope orig = do
    (if orig.status.message != full_mode_needed
        then tell (
            event "Warning" "WebhookRequired"
              "Node-scoped sequencing requires full mode (--enable-webhook)")
        else pure tt)
    patch_and_return api orig (with_message (with_phase orig phase_failed) full_mode_needed)
        no_requeue

  -- The sequence as it goes on: Pending if it had no phase.
  unfoldable pub initialize : PodSequence → Action PodSequence
  initialize seq =
      if seq.status.phase == ""
      then tell (event "Normal" "Initialized" "Pod sequence initialized")
        >> pure (with_phase seq phase_pending)
      else pure seq

  -- The part for a sequence that has the finalizer.
  unfoldable pub proceed : Bool → PodSequence → Action Outcome
  proceed node_scope_enabled orig =
      if scope orig == scope_node && not node_scope_enabled then refuse_node_scope orig else (do
        seq ← initialize orig
        if scope orig == scope_node
            then reconcile_node_scoped p api orig seq
            else reconcile_cluster_scoped p api orig seq)

  -- `AddFinalizer`, and the update.
  unfoldable pub adopt : PodSequence → Action Outcome
  adopt seq = do
    let new = api.add_finalizer seq finalizer_key
    e ← ask (update_sequence new) (λ h. api.answer_update_sequence h new)
    pure (no_requeue, e)

  -- By the deletion timestamp.
  unfoldable pub dispatch : Bool → PodSequence → Option ℕ → Action Outcome
  dispatch node_scope_enabled seq (some t) = handle_deletion p api node_scope_enabled seq
  dispatch node_scope_enabled seq none =
      if not (api.contains_finalizer seq finalizer_key)
      then adopt seq
      else proceed node_scope_enabled seq

  unfoldable pub handle_sequence : Bool → Result PodSequence → Action Outcome
  handle_sequence node_scope_enabled (err x) = pure (no_requeue, api.ignore_not_found (some x))
  handle_sequence node_scope_enabled (ok seq) =
      dispatch node_scope_enabled seq seq.deletion_timestamp

  unfoldable pub reconcile : Bool → String → String → Action Outcome
  reconcile node_scope_enabled namespace name = do
    r ← ask (read sequence_by_name) (λ h. api.answer_sequence h namespace name)
    handle_sequence node_scope_enabled r
