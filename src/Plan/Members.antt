-- ===== src/Plan/Members.antt =====
-- internal/controller/nodeplan.go, `ComputeNodePlan`: the checks of the groups and the first loop
-- over the pods.
use podsequencing.Base.{
  ℕ, suc, String, ◌<>◌, Bool, not, ◌&&◌, none, some, List, [], ◌∷◌, ◌++◌, Result, ok, ◌>>=◌,
  wrapping, ◌==◌, ◌!=◌, string_eq, nat_eq, if◌then◌else◌, any, map, keep, value_of,
}
use podsequencing.Kubernetes.{Pod, DaemonSet, no_schedule}
use podsequencing.Kubernetes.Platform.{Platform}
use podsequencing.Types.{PodSequence, PodGroup}
use podsequencing.Sequence.Keys.{sequence_label}
use podsequencing.Sequence.Fields.{
  target_namespace, gate_name, group_name, wait_duration, group_selector,
}
use podsequencing.Sequence.Groups.{group_index_for_pod}
use podsequencing.Sequence.Pods.{target_node, is_active, has_gate}
use podsequencing.Sequence.DaemonSets.{daemon_sets_for_group}
use podsequencing.Plan.Data.{PodAction, Member, GroupInfo, reason_no_group}

module _ (p : Platform) where
  -- The loop over the groups from index `i`.
  unfoldable pub group_infos : List DaemonSet → List PodGroup → ℕ → Result (List GroupInfo)
  group_infos ds_list [] i = ok []
  group_infos ds_list (g ∷ groups) i =
      let rest = group_infos ds_list groups (suc i) in
      wrapping ("invalid waitDuration in " <> group_name g i) (wait_duration p g) >>= λ w.
      wrapping ("invalid podSelector in " <> group_name g i) (group_selector p g) >>= λ sel.
      rest >>= λ infos.
      ok (record { group = g; wait = w; daemon_sets = daemon_sets_for_group p ds_list g } ∷ infos)

  -- `toleratesTaint`, for the taint of a node with no group satisfied.
  unfoldable pub tolerates_probe : String → DaemonSet → Bool
  tolerates_probe key ds =
      any (λ t. p.tolerates_taint t (record { key = key; value = "0"; effect = no_schedule }))
        ds.template_spec.tolerations

  unfoldable pub missing_tolerations : String → List GroupInfo → List String
  missing_tolerations key [] = []
  missing_tolerations key (info ∷ infos) =
      map (λ ds. ds.name) (keep (λ ds. not (tolerates_probe key ds)) info.daemon_sets)
      ++ missing_tolerations key infos

  -- A gated pod that opted in and that no group matches.
  unfoldable pub is_stray : PodSequence → Pod → Bool
  is_stray seq pod =
      has_gate pod (gate_name seq)
      && (value_of sequence_label pod.labels == seq.name && is_active pod)

  abbrev pub stray_action : Pod → PodAction
  stray_action pod = record {
    pod = pod;
    group = none;
    reason = reason_no_group;
    add_affinity = none;
    add_tolerations = [];
  }

  -- The first entries of `plan.Ungate`, and `members`, both in the order of the pods.
  unfoldable pub collect : PodSequence → List Pod → List PodAction × List Member
  collect seq [] = ([], [])
  collect seq (pod ∷ pods) =
      let (strays, members) = collect seq pods in
      if pod.namespace != target_namespace seq
      then (strays, members)
      else elim (group_index_for_pod p seq pod) [
        | none ↦ (if is_stray seq pod then stray_action pod ∷ strays else strays, members)
        | some i ↦ (
          strays,
          if is_active pod
              then record { pod = pod; group = i; node = target_node pod } ∷ members
              else members,
        )
      ]

-- `podsByNodeGroup[node][group]`, which the loop fills in the order of the members.
unfoldable pub pods_of : List Member → String → ℕ → List Pod
pods_of members node group =
    map (λ m. m.pod) (keep (λ m. m.node != "" && (m.node == node && m.group == group)) members)
