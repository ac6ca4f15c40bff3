-- ===== src/Controller/ClusterProgress.antt =====
-- `reconcileClusterScoped` (internal/controller/podsequence_controller.go) on a group that is done.
use mathlib.Core.List.{Memᴰ}
use podsequencing.Base.{
  ℕ, zero, suc, ◌≡◌, ◌≢◌, inl, inr, refl, sym, ap, subst, arith, true, false, none, some, List, [],
  ◌∷◌, nat_eq, ltb, length, take, count, all, get_elem?, get_elem?-mem, take_before, All-weaken,
  All, Option-cases, if◌then◌else◌,
}
use podsequencing.Kubernetes.{Pod}
use podsequencing.Kubernetes.Platform.{Platform}
use podsequencing.Types.{PodGroup, PodSequence, PodSequenceStatus, phase_in_progress}
use podsequencing.Sequence.Fields.{target_namespace, gate_name}
use podsequencing.Sequence.Pods.{is_pod_ready}
use podsequencing.Controller.Api.{Api, History, ◌>>=◌}
use podsequencing.Controller.Access.{get_pods_in_group}
use podsequencing.Controller.ClusterScoped.{
  with_phase, move_on, longest_remaining, await, conclude, conclude_released, release_passed,
  release_current, check_previous, after_passed, release_earlier, with_group,
  reconcile_cluster_scoped,
}
use podsequencing.Controller.Traces.{
  Emits, Emits-nothing, Emits-one, Emits-then, Includes-after, get_pods_in_group-Emits,
}
use podsequencing.Controller.ClusterSteady.{
  no_wait_left, all_there, IsMovedOn, IsMovedOn-after, IsSteady, IsDone, release_pods_nothing,
  update_due,
}

module _ (p : Platform) (api : Api) (orig seq : PodSequence) (listing : PodGroup → List Pod)
    (steady : IsSteady p api seq listing)
    (differs : (status : PodSequenceStatus)
      → status.current_index ≢ orig.status.current_index
      → api.same_status orig.status status ≡ false)
    (group : PodGroup) (member : Memᴰ group seq.spec.pod_groups)
    (done : IsDone p api seq listing group)
    (current : orig.status.current_index ≡ seq.status.current_index) where
  release_passed_nothing :
      (groups : List PodGroup) (h : History)
      → All (λ g. Memᴰ g seq.spec.pod_groups) groups
      → ((release_passed p api orig seq groups h).0 ≡ none)
        × Emits (λ c. Unit {0}) h (release_passed p api orig seq groups h).1
  unfolding release_passed
  release_passed_nothing [] h members = (refl, Emits-nothing h)
  release_passed_nothing (g ∷ groups) h (m, members) =
      let h' = (get_pods_in_group p api g (target_namespace seq) h).1 in
      let (no_error, emitted) = release_passed_nothing groups h' members in
      rw
        (
          steady.fetches g h m,
          ◌>>=◌,
          release_pods_nothing api seq (listing g) h' (steady.ungated g m),
        )
        (
          no_error,
          Emits-then (get_pods_in_group-Emits p api (tt, tt) g (target_namespace seq) h) emitted,
        )

  conclude-IsMovedOn :
      (h : History)
      → IsMovedOn seq.status.current_index h
          (conclude p api orig seq group seq.status.current_index (listing group) h).1
  unfolding conclude await move_on
  conclude-IsMovedOn h =
      let pods = listing group in
      let ready : ltb (count is_pod_ready pods) (length pods) ≡ false =
        ground (arith, done.ready) in
      let idle : ltb 0 (longest_remaining pods done.wait (api.time h) 0) ≡ false =
        ap (ltb 0) (no_wait_left pods done.wait (api.time h) (done.waited h)) in
      rw
        (
          all_there group.pods (length pods) done.some_pods done.all_pods,
          ready,
          if◌then◌else◌,
          done.wait_read,
          await,
          ◌>>=◌,
          idle,
          move_on,
        )
        (record {
          new = _;
          next = refl;
          sent =
              Includes-after {P = λ c. Unit {0}} (Emits-one _ h tt)
                (update_due api _ orig _ (differs _ (omega (arith, current))));
        })

  release_current-IsMovedOn :
      (h : History)
      → IsMovedOn seq.status.current_index h
          (release_current p api orig seq group seq.status.current_index (listing group) h).1
  unfolding release_current conclude_released
  release_current-IsMovedOn h =
      rw
        (
          release_pods_nothing api seq (listing group) h (steady.ungated group member),
          conclude_released,
        )
        (conclude-IsMovedOn h)

  release_earlier-IsMovedOn :
      (index : ℕ) (h : History)
      → seq.status.current_index ≡ index
      → ((before : ℕ) (prev : PodGroup)
          → seq.status.current_index ≡ suc before
          → get_elem? seq.spec.pod_groups before ≡ some prev
          → all is_pod_ready (listing prev) ≡ true)
      → IsMovedOn seq.status.current_index h
          (release_earlier p api orig seq group seq.status.current_index (listing group) h).1
  unfolding release_earlier after_passed check_previous
  release_earlier-IsMovedOn zero h e previous =
      subst
        (λ i.
          IsMovedOn seq.status.current_index h
            (release_earlier p api orig seq group i (listing group) h).1)
        (sym e)
        (subst
          (λ i.
            IsMovedOn seq.status.current_index h
              (release_current p api orig seq group i (listing group) h).1)
          e (release_current-IsMovedOn h))
  release_earlier-IsMovedOn (suc before) h e previous =
      elim (Option-cases (get_elem? seq.spec.pod_groups before)) [
        | inl missing ↦
            subst
              (λ i.
                IsMovedOn seq.status.current_index h
                  (release_earlier p api orig seq group i (listing group) h).1)
              (sym e)
              (rw (missing, release_earlier)
                (subst
                  (λ i.
                    IsMovedOn seq.status.current_index h
                      (release_current p api orig seq group i (listing group) h).1)
                  e (release_current-IsMovedOn h)))
        | inr (prev, there) ↦
            let members =
              All-weaken (take (suc before) seq.spec.pod_groups)
                (λ g (i, found, lt). get_elem?-mem i seq.spec.pod_groups found)
                (take_before (suc before) seq.spec.pod_groups) in
            let passed = release_passed_nothing (take (suc before) seq.spec.pod_groups) h members in
            let h1 = (release_passed p api orig seq (take (suc before) seq.spec.pod_groups) h).1 in
            let h2 = (get_pods_in_group p api prev (target_namespace seq) h1).1 in
            let ready = previous before prev e there in
            subst
              (λ i.
                IsMovedOn seq.status.current_index h
                  (release_earlier p api orig seq group i (listing group) h).1)
              (sym e)
              (rw
                (
                  there,
                  release_earlier,
                  ◌>>=◌,
                  passed.0,
                  after_passed,
                  steady.fetches prev h1 (get_elem?-mem before seq.spec.pod_groups there),
                  check_previous,
                  ready,
                  if◌then◌else◌,
                )
                (IsMovedOn-after
                  (Emits-then passed.1
                    (get_pods_in_group-Emits p api (tt, tt) prev (target_namespace seq) h1))
                  (subst
                    (λ i.
                      IsMovedOn seq.status.current_index h2
                        (release_current p api orig seq group i (listing group) h2).1)
                    e (release_current-IsMovedOn h2))))
      ]

-- Where each group is listed with the same pods throughout, all without the gate, and the
-- comparison of statuses tells different indices apart: if the current group's pods are there,
-- Ready and have waited at any time that the server gives, and the pods of the group before, if
-- there is one, are Ready, `reconcileClusterScoped` writes a status with the next index.
pub reconcile_cluster_scoped-IsMovedOn :
    (p : Platform) (api : Api) (orig seq : PodSequence) (listing : PodGroup → List Pod)
    (group : PodGroup) (h : History)
    → IsSteady p api seq listing
    → ((status : PodSequenceStatus)
        → status.current_index ≢ orig.status.current_index
        → api.same_status orig.status status ≡ false)
    → orig.status.current_index ≡ seq.status.current_index
    → get_elem? seq.spec.pod_groups seq.status.current_index ≡ some group
    → IsDone p api seq listing group
    → ((before : ℕ) (prev : PodGroup)
        → seq.status.current_index ≡ suc before
        → get_elem? seq.spec.pod_groups before ≡ some prev
        → all is_pod_ready (listing prev) ≡ true)
    → IsMovedOn seq.status.current_index h (reconcile_cluster_scoped p api orig seq h).1
unfolding reconcile_cluster_scoped with_group target_namespace gate_name
reconcile_cluster_scoped-IsMovedOn p api orig seq listing group h steady differs current at done
      previous =
    let seq' = with_phase seq phase_in_progress in
    let member = get_elem?-mem seq.status.current_index seq.spec.pod_groups at in
    let steady' : IsSteady p api seq' listing = record {
      fetches = steady.fetches;
      ungated = steady.ungated;
    } in
    let done' : IsDone p api seq' listing group = record {
      some_pods = done.some_pods;
      all_pods = done.all_pods;
      ready = done.ready;
      wait = done.wait;
      wait_read = done.wait_read;
      waited = done.waited;
    } in
    rw (at, ◌>>=◌, reconcile_cluster_scoped, steady.fetches group h member, with_group)
      (IsMovedOn-after (get_pods_in_group-Emits p api (tt, tt) group (target_namespace seq) h) (
        release_earlier-IsMovedOn p api orig seq' listing steady' differs group member done' current
          seq.status.current_index _ refl previous))
