-- ===== src/Tests/Runs.antt =====
-- Runs of the reconciler and of its watches against an API server that lists a sequence, its pods and
-- a node, and the theorems on them applied.
use mathlib.Core.List.{Memᴰ}
use podsequencing.Base.{◌≡◌, ◌↔◌, refl, true, none, some, [], ◌∷◌, ok, value_of}
use podsequencing.Kubernetes.{DaemonSet}
use podsequencing.Types.{PodSequence, scope_cluster}
use podsequencing.Sequence.Keys.{default_scheduling_gate, sequence_label}
use podsequencing.Sequence.Fields.{gate_name}
use podsequencing.Plan.Accounting.{is_waiting}
use podsequencing.Webhook.Handlers.{find_sequence, search_list, manages, gate_pod, admit_pod}
use podsequencing.Controller.Api.{Api, patch_pod, update_sequence}
use podsequencing.Controller.Gates.{without_gate, remove_gate}
use podsequencing.Controller.Deletion.{
  finalizer_key, is_claimed, handle_deletion, cleanup_orphaned_node_keys,
}
use podsequencing.Controller.ClusterScoped.{reconcile_cluster_scoped}
use podsequencing.Controller.NodeScoped.{reconcile_node_scoped}
use podsequencing.Controller.Reconcile.{reconcile}
use podsequencing.Controller.Watches.{request_for, of_pod, of_daemon_set, map_pod, map_daemon_set}
use podsequencing.Controller.Traces.{Emits, Includes}
use podsequencing.Controller.ClusterRules.{AllowedFor}
use podsequencing.Controller.ClusterSafety.{reconcile_cluster_scoped-IsAllowed}
use podsequencing.Controller.NodeScopedOrder.{
  IsNodeScopedCall, reconcile_node_scoped-IsNodeScopedCall,
}
use podsequencing.Controller.NodeScopedErrors.{reconcile_node_scoped-IsSettled}
use podsequencing.Controller.NodeScopedOutcomes.{IsSettled}
use podsequencing.Controller.DeletionSafety.{
  IsAggregating, IsDeletionCall, handle_deletion-IsDeletionCall,
}
use podsequencing.Controller.DeletionRelease.{handle_deletion-Includes}
use podsequencing.Controller.OrphanSafety.{IsCleanupCall, cleanup_orphaned_node_keys-IsCleanupCall}
use podsequencing.Controller.Permissions.{IsPermitted, reconcile-IsPermitted}
use podsequencing.Controller.Wakeups.{IsConcerned, map_pod_iff, map_pod-wakes, map_daemon_set-wakes}
use podsequencing.Controller.Echo.{IsEchoing}
use podsequencing.Controller.Access.{no_requeue}
use podsequencing.Controller.DeletionLiveness.{IsAccepting, handle_deletion_accepted}
use podsequencing.Controller.NodeScopedRelease.{IsCarried, reconcile_node_scoped-IsCarried}
use podsequencing.Controller.RoundTrip.{remove_gate-admit_pod}
use podsequencing.Tests.Platform.{platform, platform-IsDocumented}
use podsequencing.Tests.Plans.{
  plan, released, compute_node_plan-input, sequence, group_of, net_pod, csi_pod, node_a, spec_on,
  program,
}
use podsequencing.Tests.Server.{api, api-IsAggregating, api-IsEchoing}
use podsequencing.Tests.Admission.{reader, fresh_pod, gated_pod}

abbrev held : PodSequence
held = record sequence { finalizers = finalizer_key ∷ [] }

-- The cluster-scoped sequence, which has passed its first group.
abbrev pub clustered : PodSequence
clustered = record held {
  spec = record (sequence.spec) { scope = scope_cluster };
  status = record (sequence.status) { current_index = 1; phase = "InProgress" };
}

abbrev leaving : PodSequence
leaving = record held { deletion_timestamp = some 15 }

abbrev csi_set : DaemonSet
csi_set = record {
  name = "csi";
  namespace = "infra";
  uid = "1";
  labels = [];
  deletion_timestamp = none;
  template_labels = ("app", "csi") ∷ [];
  template_spec = spec_on "" [];
}

abbrev busy : Api
busy = record api {
  answer_sequence = λ h namespace name. ok held;
  answer_sequences = λ h. ok (held ∷ []);
  answer_pods = λ h namespace selector. ok (net_pod ∷ csi_pod ∷ []);
  answer_nodes = λ h. ok (node_a ∷ []);
  answer_daemon_sets = λ h namespace. ok (csi_set ∷ []);
  time = λ h. 20;
}

busy-IsEchoing : IsEchoing busy
busy-IsEchoing = record {
  echo_pod = api-IsEchoing.echo_pod;
  echo_labels = api-IsEchoing.echo_labels;
  echo_taints = api-IsEchoing.echo_taints;
}

busy-IsAggregating : IsAggregating busy
busy-IsAggregating = record { aggregate_none = api-IsAggregating.aggregate_none }

reconcile_cluster_scoped-IsAllowed_example :
    Emits
      (AllowedFor platform busy clustered)
      []
      (reconcile_cluster_scoped platform busy clustered clustered []).1
reconcile_cluster_scoped-IsAllowed_example =
    reconcile_cluster_scoped-IsAllowed platform busy clustered clustered []

reconcile_node_scoped-IsNodeScopedCall_example :
    Emits
      (IsNodeScopedCall platform busy held)
      []
      (reconcile_node_scoped platform busy held held []).1
reconcile_node_scoped-IsNodeScopedCall_example =
    reconcile_node_scoped-IsNodeScopedCall platform busy held held []

reconcile_node_scoped-IsSettled_example :
    IsSettled platform busy held held (reconcile_node_scoped platform busy held held []).0
reconcile_node_scoped-IsSettled_example =
    reconcile_node_scoped-IsSettled platform busy held held busy-IsAggregating []

handle_deletion-IsDeletionCall_example :
    Emits
      (IsDeletionCall platform busy leaving true)
      []
      (handle_deletion platform busy true leaving []).1
handle_deletion-IsDeletionCall_example =
    handle_deletion-IsDeletionCall platform busy leaving true busy-IsAggregating []

handle_deletion-Includes_example :
    Includes
      (patch_pod csi_pod (without_gate csi_pod default_scheduling_gate))
      []
      (handle_deletion platform busy true leaving []).1
unfolding program is_claimed
handle_deletion-Includes_example =
    handle_deletion-Includes platform busy leaving true (net_pod ∷ csi_pod ∷ []) csi_pod [] refl
      refl (Memᴰ.tail (Memᴰ.head refl)) refl

cleanup_orphaned_node_keys-IsCleanupCall_example :
    Emits (IsCleanupCall platform busy) [] (cleanup_orphaned_node_keys platform busy []).1
cleanup_orphaned_node_keys-IsCleanupCall_example =
    cleanup_orphaned_node_keys-IsCleanupCall platform busy []

reconcile-IsPermitted_example :
    Emits (IsPermitted busy true held) [] (reconcile platform busy true "infra" "boot" []).1
reconcile-IsPermitted_example =
    reconcile-IsPermitted platform busy true held busy-IsAggregating [] "infra" "boot" refl

map_pod_iff_example : Memᴰ (request_for held) (map_pod platform busy (of_pod csi_pod) []).0 ↔ (
    (seq : PodSequence) × Memᴰ seq (held ∷ [])
    × IsConcerned platform csi_pod seq
    × (request_for held ≡ request_for seq))
map_pod_iff_example = map_pod_iff platform csi_pod busy [] (held ∷ []) refl (request_for held)

map_pod-wakes_example : Memᴰ (request_for held) (map_pod platform busy (of_pod csi_pod) []).0
unfolding program is_waiting
map_pod-wakes_example =
    map_pod-wakes platform csi_pod busy [] (held ∷ []) refl held (Memᴰ.head refl) refl

map_daemon_set-wakes_example :
    Memᴰ (request_for held) (map_daemon_set platform busy (of_daemon_set csi_set) []).0
unfolding program
map_daemon_set-wakes_example =
    map_daemon_set-wakes platform csi_set busy [] (held ∷ []) held (csi_set ∷ [])
      (group_of "csi" "30s") refl (Memᴰ.head refl) refl refl (Memᴰ.tail (Memᴰ.head refl))
      (Memᴰ.head refl)

remove_gate-admit_pod_example :
    (seq : PodSequence) × (find_sequence reader "infra" (value_of sequence_label fresh_pod.labels)
      ≡ ok (some seq))
    × (remove_gate api gated_pod (gate_name seq) []
        ≡ ((none, fresh_pod), patch_pod gated_pod fresh_pod ∷ []))
unfolding program admit_pod gate_pod find_sequence search_list manages
remove_gate-admit_pod_example =
    remove_gate-admit_pod platform reader api (λ pod. refl) api-IsEchoing fresh_pod gated_pod []
      refl

busy-IsAccepting : IsAccepting busy
busy-IsAccepting = record {
  echoing = busy-IsEchoing;
  lists_pods = λ h p namespace. (net_pod ∷ csi_pod ∷ [], refl);
  lists_nodes = λ h. (node_a ∷ [], refl);
  updates = λ h seq. refl;
  aggregate_nil = refl;
}

handle_deletion_accepted_example :
    ((handle_deletion platform busy true leaving []).0 ≡ (no_requeue, none))
    × Includes
        (update_sequence (busy.remove_finalizer leaving finalizer_key))
        []
        (handle_deletion platform busy true leaving []).1
handle_deletion_accepted_example =
    handle_deletion_accepted platform busy busy-IsAccepting leaving true [] refl

-- A server whose DaemonSets are not the sequence's, as in the plan of the other tests.
abbrev plain : Api
plain = record busy { answer_daemon_sets = λ h namespace. ok [] }

plain-IsEchoing : IsEchoing plain
plain-IsEchoing = record {
  echo_pod = api-IsEchoing.echo_pod;
  echo_labels = api-IsEchoing.echo_labels;
  echo_taints = api-IsEchoing.echo_taints;
}

reconcile_node_scoped-IsCarried_example :
    IsCarried platform plain sequence released []
      (reconcile_node_scoped platform plain sequence sequence []).1
unfolding program
reconcile_node_scoped-IsCarried_example =
    reconcile_node_scoped-IsCarried platform platform-IsDocumented plain plain-IsEchoing sequence
      sequence (node_a ∷ []) (net_pod ∷ csi_pod ∷ []) [] plan released [] refl refl refl
      compute_node_plan-input (Memᴰ.head refl) refl
