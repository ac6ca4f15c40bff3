-- ===== src/Controller/Wakeups.antt =====
-- The map functions of the watches, `mapPod` and `mapDaemonSet`
-- (internal/controller/podsequence_controller.go).
use mathlib.Core.List.{Memᴰ}
use podsequencing.Base.{
  ℕ, ◌≡◌, ◌⊎◌, ◌↔◌, inl, inr, refl, sym, subst, Bool, true, false, none, some, List, ok, arith,
  string_eq, str_eq_iff, Option-cases, Result-cases, any_of_mem, keep, map, mem_keep, mem_kept,
  mem_map, mem_mapped, value_of,
}
use podsequencing.Kubernetes.{Pod, DaemonSet}
use podsequencing.Kubernetes.Platform.{Platform}
use podsequencing.Types.{PodGroup, PodSequence, scope_node}
use podsequencing.Sequence.Keys.{sequence_label}
use podsequencing.Sequence.Fields.{target_namespace, scope, group_selector}
use podsequencing.Sequence.Groups.{group_index_for_pod}
use podsequencing.Sequence.DaemonSets.{daemon_sets_for_group}
use podsequencing.Plan.Accounting.{is_waiting}
use podsequencing.Controller.Api.{Api, History}
use podsequencing.Controller.Watches.{
  of_pod, of_daemon_set, Request, request_for, list_sequences, concerns_pod, selects_template,
  concerns_daemon_set, map_pod, map_daemon_set,
}

module _ (p : Platform) (pod : Pod) where
  -- The sequence is asked for by name, or has a group of the pod, in the pod's namespace.
  pub record IsConcerned (seq : PodSequence) : Type 0 where
    pub same_namespace : target_namespace seq ≡ pod.namespace
    pub claims :
        (value_of sequence_label pod.labels ≡ seq.name)
        ⊎ ((i : ℕ) × (group_index_for_pod p seq pod ≡ some i))

  concerns_pod_iff : (seq : PodSequence) → (concerns_pod p pod seq ≡ true) ↔ IsConcerned seq
  unfolding concerns_pod
  concerns_pod_iff seq =
      let space = str_eq_iff (target_namespace seq) pod.namespace in
      let named = str_eq_iff (value_of sequence_label pod.labels) seq.name in
      elim (Option-cases (group_index_for_pod p seq pod)) [
        | inl n ↦ (
          λ h. record {
            same_namespace = ground (arith, h, space, n);
            claims = inl (ground (arith, h, named, n));
          },
          λ c. ground (arith, space, named, n, c.same_namespace, c.claims),
        )
        | inr (i, e) ↦ (
          λ h. record { same_namespace = ground (arith, h, space, e); claims = inr (i, e) },
          λ c. ground (arith, space, e, c.same_namespace),
        )
      ]

  is_waiting-concerns_pod :
      (seq : PodSequence) → is_waiting p seq pod ≡ true → concerns_pod p pod seq ≡ true
  unfolding concerns_pod is_waiting
  is_waiting-concerns_pod seq h =
      let space = str_eq_iff (target_namespace seq) pod.namespace in
      let space' = str_eq_iff pod.namespace (target_namespace seq) in
      elim (Option-cases (group_index_for_pod p seq pod)) [
        | inl n ↦ ground (arith, h, n, space, space')
        | inr (i, e) ↦ ground (arith, h, e, space, space')
      ]

  module _ (api : Api) (h : History) (seqs : List PodSequence)
      (answered : api.answer_sequences h ≡ ok seqs) where
    -- Where the sequences can be listed, `mapPod` asks to reconcile exactly the listed sequences
    -- whose target namespace is the pod's and which the pod's label names or which have a group of
    -- the pod.
    pub map_pod_iff :
        (request : Request)
        → Memᴰ request (map_pod p api (of_pod pod) h).0
          ↔ ((seq : PodSequence) × Memᴰ seq seqs × IsConcerned seq × (request ≡ request_for seq))
    unfolding map_pod list_sequences
    map_pod_iff request = rw answered (
      λ m.
          let (seq, kept, same) = mem_mapped request_for (keep (concerns_pod p pod) seqs) m in
          let (listed, concerned) = mem_kept (concerns_pod p pod) seqs kept in
          (seq, listed, (concerns_pod_iff seq).0 concerned, same),
      λ (seq, listed, concerned, same).
          subst (λ r. Memᴰ r (map request_for (keep (concerns_pod p pod) seqs))) (sym same)
            (mem_map request_for
              (mem_keep (concerns_pod p pod) seqs listed ((concerns_pod_iff seq).1 concerned))),
    )

    -- Where the sequences can be listed, a pod that waits for a listed sequence (`is_waiting`)
    -- makes `mapPod` ask to reconcile it.
    pub map_pod-wakes :
        (seq : PodSequence)
        → Memᴰ seq seqs
        → is_waiting p seq pod ≡ true
        → Memᴰ (request_for seq) (map_pod p api (of_pod pod) h).0
    map_pod-wakes seq listed waiting =
        (map_pod_iff (request_for seq)).1
          (seq, listed, (concerns_pod_iff seq).0 (is_waiting-concerns_pod seq waiting), refl)

module _ (p : Platform) (ds : DaemonSet) where
  daemon_sets_for_group-selects_template :
      (sets : List DaemonSet) (g : PodGroup)
      → Memᴰ ds (daemon_sets_for_group p sets g)
      → selects_template p ds g ≡ true
  unfolding selects_template daemon_sets_for_group
  daemon_sets_for_group-selects_template sets g m = elim (Result-cases (group_selector p g)) [
    | inr (x, f) ↦ elim (rw (f, daemon_sets_for_group) at m) [ ]
    | inl (none, f) ↦ elim (rw (f, daemon_sets_for_group) at m) [ ]
    | inl (some sel, f) ↦
        let test : DaemonSet → Bool =
          λ d. elim d.deletion_timestamp [ none ↦ sel d.template_labels | some t ↦ false ] in
        let (listed, chosen) = mem_kept test sets (rw (f, daemon_sets_for_group) at m) in
        elim (Option-cases ds.deletion_timestamp) [
          | inl n ↦ rw (f, selects_template) (rw n at chosen)
          | inr (t, e) ↦ absurd (cc (rw e at chosen))
        ]
  ]

  -- Where the sequences can be listed, a DaemonSet in the target namespace of a listed node-scoped
  -- sequence that `DaemonSetsForGroup` counts for one of its groups makes `mapDaemonSet` ask to
  -- reconcile the sequence.
  pub map_daemon_set-wakes :
      (api : Api) (h : History) (seqs : List PodSequence) (seq : PodSequence)
      (sets : List DaemonSet) (g : PodGroup)
      → api.answer_sequences h ≡ ok seqs
      → Memᴰ seq seqs
      → scope seq ≡ scope_node
      → target_namespace seq ≡ ds.namespace
      → Memᴰ g seq.spec.pod_groups
      → Memᴰ ds (daemon_sets_for_group p sets g)
      → Memᴰ (request_for seq) (map_daemon_set p api (of_daemon_set ds) h).0
  unfolding map_daemon_set list_sequences concerns_daemon_set
  map_daemon_set-wakes api h seqs seq sets g answered listed node_scope space grouped member =
      let some_group =
        any_of_mem (selects_template p ds) seq.spec.pod_groups grouped
          (daemon_sets_for_group-selects_template sets g member) in
      let concerned : concerns_daemon_set p ds seq ≡ true = ground (
        arith,
        some_group,
        node_scope,
        space,
        str_eq_iff (scope seq) scope_node,
        str_eq_iff (target_namespace seq) ds.namespace,
      ) in
      rw answered (mem_map request_for (mem_keep (concerns_daemon_set p ds) seqs listed concerned))
