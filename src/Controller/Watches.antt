-- ===== src/Controller/Watches.antt =====
-- internal/controller/podsequence_controller.go: the functions that map a changed object to the
-- sequences to reconcile, and `nodeChangePredicate`.
use podsequencing.Base.{
  String, Bool, true, false, not, ◌&&◌, ◌||◌, none, some, List, [], Result, ok, err, ◌==◌,
  string_eq, any, map, keep, value_of,
}
use podsequencing.Kubernetes.{Pod, Node, DaemonSet}
use podsequencing.Kubernetes.Platform.{Platform}
use podsequencing.Types.{PodGroup, PodSequence, scope_node}
use podsequencing.Sequence.Keys.{sequence_label}
use podsequencing.Sequence.Fields.{target_namespace, scope, group_selector}
use podsequencing.Sequence.Groups.{group_index_for_pod, selects}
use podsequencing.Controller.Api.{Api, Action, pure, ask, ◌>>=◌, read, sequence_list}

-- A `client.Object` of the kinds that are watched.
pub data Object : Type 0 where
  of_pod : Pod → Object
  of_node : Node → Object
  of_daemon_set : DaemonSet → Object

-- `reconcile.Request`
pub record Request : Type 0 where
  pub namespace : String
  pub name : String

unfoldable pub request_for : PodSequence → Request
request_for seq = record { namespace = seq.namespace; name = seq.name }

abbrev items_or_none : Result (List PodSequence) → List PodSequence
items_or_none (ok seqs) = seqs
items_or_none (err x) = []

unfoldable pub list_sequences : Api → Action (List PodSequence)
list_sequences api = do r ← ask (read sequence_list) api.answer_sequences; pure (items_or_none r)

module _ (p : Platform) where
  -- The tests of the loops.
  unfoldable pub concerns_pod : Pod → PodSequence → Bool
  concerns_pod pod seq =
      target_namespace seq == pod.namespace
      && (value_of sequence_label pod.labels == seq.name
          || elim (group_index_for_pod p seq pod) [ none ↦ false | some i ↦ true ])

  unfoldable pub selects_template : DaemonSet → PodGroup → Bool
  selects_template ds g = elim (group_selector p g) [
    | err x ↦ false
    | ok sel ↦ selects sel ds.template_labels
  ]

  unfoldable pub concerns_daemon_set : DaemonSet → PodSequence → Bool
  concerns_daemon_set ds seq =
      scope seq == scope_node
      && (target_namespace seq == ds.namespace
          && (value_of sequence_label ds.labels == seq.name
              || any (selects_template ds) seq.spec.pod_groups))

  module _ (api : Api) where
    unfoldable pub map_pod : Object → Action (List Request)
    map_pod (of_pod pod) = do
      seqs ← list_sequences api
      pure (map request_for (keep (concerns_pod pod) seqs))
    map_pod _ = pure []

    unfoldable pub map_node : Object → Action (List Request)
    map_node object = do
      seqs ← list_sequences api
      pure (map request_for (keep (λ seq. scope seq == scope_node) seqs))

    unfoldable pub map_daemon_set : Object → Action (List Request)
    map_daemon_set (of_daemon_set ds) = do
      seqs ← list_sequences api
      pure (map request_for (keep (concerns_daemon_set ds) seqs))
    map_daemon_set _ = pure []

-- `UpdateFunc`
unfoldable pub node_update_matters : Api → Object → Object → Bool
node_update_matters api (of_node old) (of_node new) =
    not (api.same_labels old.labels new.labels) || not (api.same_taints old.taints new.taints)
node_update_matters api _ _ = true
