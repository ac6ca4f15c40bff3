-- ===== src/Controller/ClusterSafety.antt =====
-- `reconcileClusterScoped` (internal/controller/podsequence_controller.go): its calls and the order of
-- the groups.
use podsequencing.Base.{
  ℕ, ◌≤◌, ◌<◌, String, ◌≡◌, inl, inr, refl, some, List, [], ◌∷◌, arith, nat_eq, length, get_elem?,
  All, All-weaken, indexed, length-le-get_elem?, ◌!=◌, string_eq, Bool-cases, Option-cases,
  Result-cases, if◌then◌else◌,
}
use podsequencing.Kubernetes.Platform.{Platform}
use podsequencing.Types.{PodGroup, PodSequence, phase_completed, phase_in_progress}
use podsequencing.Sequence.Fields.{target_namespace, gate_name}
use podsequencing.Controller.Api.{Api, History, ◌>>=◌}
use podsequencing.Controller.Access.{get_pods_in_group, patch_status}
use podsequencing.Controller.ClusterScoped.{
  with_message, with_phase, release_groups, complete, reconcile_cluster_scoped,
}
use podsequencing.Controller.Traces.{
  Emits, Emits-nothing, Emits-one, Emits-then, patch_status-Emits, get_pods_in_group-Emits,
}
use podsequencing.Controller.ClusterRules.{AllowedFor}
use podsequencing.Controller.ClusterLoops.{release_all-Emits}
use podsequencing.Controller.ClusterReleases.{may_release, with_group-Fine}

module _ (p : Platform) (api : Api) (orig seq : PodSequence)
    (past : length seq.spec.pod_groups ≤ seq.status.current_index) where
  release_groups-Fine :
      (groups : List PodGroup) (h : History)
      → All
          (λ g.
            (i : ℕ) × (get_elem? seq.spec.pod_groups i ≡ some g) × (i < seq.status.current_index))
          groups
      → Emits (AllowedFor p api seq) h (release_groups p api orig seq groups h).1
  unfolding release_groups
  release_groups-Fine [] h before = Emits-nothing h
  release_groups-Fine (g ∷ groups) h ((i, at, lt), before) =
      let r = get_pods_in_group p api g (target_namespace seq) h in
      let fetch = get_pods_in_group-Emits p api (tt, tt) g (target_namespace seq) h in
      elim (Result-cases r.0) [
        | inr (x, f) ↦ rw (f, ◌>>=◌) (Emits-then fetch (release_groups-Fine groups _ before))
        | inl (pods, f) ↦
            rw (f, ◌>>=◌)
              (Emits-then fetch (
                Emits-then
                  (release_all-Emits api seq (λ reason. tt) pods r.1
                    (may_release p api seq i g h pods at f (inl lt)))
                  (release_groups-Fine groups _ before)))
      ]

module _ (p : Platform) (api : Api) (orig seq : PodSequence)
    (past : length seq.spec.pod_groups ≤ seq.status.current_index) where
  complete-Fine : (h : History) → Emits (AllowedFor p api seq) h (complete p api orig seq h).1
  unfolding complete target_namespace gate_name
  complete-Fine h =
      let all_before =
        All-weaken seq.spec.pod_groups (λ g (i, at, lt). (i, at, omega (arith, past, lt)))
          (indexed seq.spec.pod_groups) in
      let message : String = "All pod groups in sequence are ready" in
      let done = with_message (with_phase seq phase_completed) message in
      let rest : (h' : History)
          → Emits (AllowedFor p api seq) h'
              (patch_status api orig done
                (release_groups p api orig done seq.spec.pod_groups h').1).1 =
        λ h'.
          Emits-then (release_groups-Fine p api orig done past seq.spec.pod_groups h' all_before)
            (patch_status-Emits api orig done _ (inl refl)) in
      elim (Bool-cases (seq.status.phase != phase_completed)) [
        | inl e ↦ rw (e, if◌then◌else◌, ◌>>=◌) (Emits-then (Emits-one _ h tt) (rest _))
        | inr e ↦ rw (e, if◌then◌else◌, ◌>>=◌) (rest h)
      ]

-- Whatever the API server answers, every patch that `reconcileClusterScoped` sends takes the gate
-- from a pod that an answer listed in its group, where the group stands before the current one, or
-- is the current one and the first, or is the current one and an answer listed the group before
-- with all pods Ready. Every status that it writes keeps the current index, or moves it on by one.
-- In the second case the status names exactly the pods of a listing of the current group that the
-- server gave, as `removeGate` left them; there is at least one, and as many as the group lists
-- names; all are Ready, and have waited at a time of the server's clock. It writes no node and no
-- finalizer.
pub reconcile_cluster_scoped-IsAllowed :
    (p : Platform) (api : Api) (orig seq : PodSequence) (h : History)
    → Emits (AllowedFor p api seq) h (reconcile_cluster_scoped p api orig seq h).1
unfolding reconcile_cluster_scoped complete target_namespace gate_name
reconcile_cluster_scoped-IsAllowed p api orig seq h =
    elim (Option-cases (get_elem? seq.spec.pod_groups seq.status.current_index)) [
      | inr (group, at) ↦
          rw (at, ◌>>=◌, reconcile_cluster_scoped)
            (Emits-then (get_pods_in_group-Emits p api (tt, tt) group (target_namespace seq) h)
              (with_group-Fine p api orig (with_phase seq phase_in_progress) group at _ h _ refl))
      | inl e ↦
          rw (e, ◌>>=◌, reconcile_cluster_scoped)
            (complete-Fine p api orig seq
              (length-le-get_elem? seq.status.current_index seq.spec.pod_groups e) h)
    ]
