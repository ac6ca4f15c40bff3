-- ===== src/Webhook/Handlers.antt =====
-- internal/webhook/podsequence_webhook.go. The client and the JSON encoder are a parameter, and a
-- decoded request is an argument. Logs are left out.
use podsequencing.Base.{
  ℕ, String, ◌<>◌, Bool, true, false, not, ◌&&◌, ◌||◌, Option, none, some, List, [], ◌∷◌, ◌++◌,
  Result, ok, err, Error, ◌==◌, ◌!=◌, string_eq, if◌then◌else◌, find_first, value_of, insert,
}
use podsequencing.Kubernetes.{Pod, DaemonSet}
use podsequencing.Kubernetes.Platform.{Platform}
use podsequencing.Types.{PodSequence, scope_node, method_taint}
use podsequencing.Sequence.Keys.{sequence_label, eligibility_key}
use podsequencing.Sequence.Fields.{target_namespace, gate_name, scope, eligibility_method}
use podsequencing.Sequence.Groups.{group_index_for_pod}
use podsequencing.Sequence.Pods.{has_gate, is_bypassed}
use podsequencing.Sequence.Steering.{exists_toleration, add_tolerations}

-- What the API server holds during one request, read through `client.Reader`, and `json.Marshal`.
pub record Reader : Type 0 where
  pub get : String → String → Result PodSequence
  pub list : Result (List PodSequence)
  pub ignore_not_found : Option Error → Option Error
  pub marshal_pod : Pod → Option Error
  pub marshal_daemon_set : DaemonSet → Option Error

-- `errored` has the HTTP status, `allowed` the reason and the
-- warnings, `patched` the object that the patch leads to.
pub data Response (Object : Type 0) : Type 0 where
  errored : ℕ → Error → Response Object
  allowed : String → List String → Response Object
  patched : Object → Response Object

-- The tests on a sequence but its name.
unfoldable pub manages : String → PodSequence → Bool
manages namespace seq =
    target_namespace seq == namespace
    && elim seq.deletion_timestamp [ none ↦ true | some t ↦ false ]

module _ (r : Reader) where
  -- The part below the first `Get`, given its error.
  unfoldable pub search_list : String → String → Option Error → Result (Option PodSequence)
  search_list namespace name e = elim (r.ignore_not_found e) [
    | some x ↦ err x
    | none ↦ elim r.list [
      | err x ↦ err x
      | ok seqs ↦ ok (find_first (λ s. s.name == name && manages namespace s) seqs)
    ]
  ]

  unfoldable pub find_sequence : String → String → Result (Option PodSequence)
  find_sequence namespace name = elim (r.get namespace name) [
    | ok seq ↦ if manages namespace seq then ok (some seq) else search_list namespace name none
    | err e ↦ search_list namespace name (some e)
  ]

abbrev pub with_gate : Pod → String → Pod
with_gate pod gate = record pod {
  spec = record pod.spec { scheduling_gates = pod.spec.scheduling_gates ++ (gate ∷ []) };
}

abbrev pub placed_in : String → Pod → Pod
placed_in namespace pod = record pod {
  namespace = if pod.namespace == "" then namespace else pod.namespace;
}

abbrev pub labelled_template : DaemonSet → String → DaemonSet
labelled_template ds name =
    if value_of sequence_label ds.template_labels != name
    then record ds { template_labels = insert sequence_label name ds.template_labels }
    else ds

module _ (p : Platform) (r : Reader) where
  -- The part below the lookup, of a sequence that was found.
  unfoldable pub gate_pod : Pod → PodSequence → Response Pod
  gate_pod pod seq = elim (group_index_for_pod p seq pod) [
    | none ↦ allowed "pod matches no group" (
        ("podsequence: pod matches no group of PodSequence "
          <> (value_of sequence_label pod.labels <> "; pod not gated"))
        ∷ [])
    | some i ↦
        let new = with_gate pod (gate_name seq) in
        if has_gate pod (gate_name seq)
        then allowed "gate already present" []
        else elim (r.marshal_pod new) [ some e ↦ errored 500 e | none ↦ patched new ]
  ]

  -- The part below the decoder and the namespace.
  unfoldable pub admit_pod : Pod → Response Pod
  admit_pod pod =
      let name = value_of sequence_label pod.labels in
      if pod.spec.node_name != ""
      then allowed "pod already bound to a node" []
      else if name == ""
      then allowed "not a PodSequence pod" []
      else if is_bypassed pod
      then allowed "bypass annotation set" []
      else elim (find_sequence r pod.namespace name) [
        | err e ↦ allowed "PodSequence lookup failed" []
        | ok none ↦ allowed "PodSequence not found" (
            ("podsequence: no PodSequence "
              <> (name <> (" manages namespace " <> (pod.namespace <> "; pod not gated"))))
            ∷ [])
        | ok (some seq) ↦ gate_pod pod seq
      ]

  unfoldable pub handle_pod : Result Pod → String → Response Pod
  handle_pod decoded namespace = elim decoded [
    | err e ↦ errored 400 e
    | ok pod ↦ admit_pod (placed_in namespace pod)
  ]

  unfoldable pub add_sequence_toleration : DaemonSet → Bool → PodSequence → DaemonSet × Bool
  add_sequence_toleration ds changed seq =
      let key = eligibility_key p seq.namespace seq.name in
      let (spec, more) = add_tolerations p ds.template_spec (exists_toleration key ∷ []) in
      if scope seq == scope_node && eligibility_method seq == method_taint
      then (record ds { template_spec = spec }, changed || more)
      else (ds, changed)

  -- The part below the lookup.
  unfoldable pub after_lookup : DaemonSet → Bool → Result (Option PodSequence) → DaemonSet × Bool
  after_lookup ds changed (err e) = (ds, changed)
  after_lookup ds changed (ok none) = (ds, changed)
  after_lookup ds changed (ok (some seq)) = add_sequence_toleration ds changed seq

  unfoldable pub mutate_daemon_set : DaemonSet → String → DaemonSet × Bool
  mutate_daemon_set ds name =
      after_lookup (labelled_template ds name) (value_of sequence_label ds.template_labels != name)
        (find_sequence r ds.namespace name)

  -- The sequence that a DaemonSet names.
  unfoldable pub named_sequence : DaemonSet → String
  named_sequence ds =
      let name = value_of sequence_label ds.labels in
      if name == "" then value_of sequence_label ds.template_labels else name

  unfoldable pub handle_daemon_set : Result DaemonSet → String → Response DaemonSet
  handle_daemon_set decoded namespace = elim decoded [
    | err e ↦ errored 400 e
    | ok raw ↦
        let ds = record raw {
          namespace = if raw.namespace == "" then namespace else raw.namespace;
        } in
        let name = named_sequence ds in
        let (new, changed) = mutate_daemon_set ds name in
        if name == ""
        then allowed "not a PodSequence DaemonSet" []
        else if not changed
        then allowed "no changes" []
        else elim (r.marshal_daemon_set new) [ some e ↦ errored 500 e | none ↦ patched new ]
  ]
