-- ===== src/Controller/ClusterReleases.antt =====
-- The gates that `reconcileClusterScoped` (internal/controller/podsequence_controller.go) removes.
use podsequencing.Base.{
  ℕ, zero, suc, ◌<◌, ◌≡◌, ◌⊎◌, inl, inr, refl, Option, none, some, List, [], ◌∷◌, Result, ok, err,
  Error, nat_eq, take, get_elem?, all, All, All-of_mem, All-weaken, take_before, get_elem?-before,
  subst, Bool-cases, Result-cases, if◌then◌else◌,
}
use podsequencing.Kubernetes.{Pod}
use podsequencing.Kubernetes.Platform.{Platform}
use podsequencing.Types.{PodGroup, PodSequence}
use podsequencing.Sequence.Fields.{target_namespace, gate_name}
use podsequencing.Sequence.Pods.{is_pod_ready}
use podsequencing.Controller.Api.{Api, History, ◌>>=◌}
use podsequencing.Controller.Access.{get_pods_in_group}
use podsequencing.Controller.ClusterScoped.{
  release_pods, release_passed, release_current, check_previous, after_passed, release_earlier,
  with_group,
}
use podsequencing.Controller.Traces.{
  Emits, Emits-nothing, Emits-then, patch_status-Emits, get_pods_in_group-Emits,
}
use podsequencing.Controller.ClusterRules.{PreviousReady, AllowedFor}
use podsequencing.Controller.ClusterLoops.{MayRelease, release_pods-Emits}
use podsequencing.Controller.ClusterOrder.{release_current-Fine}

module _ (p : Platform) (api : Api) (seq : PodSequence) where
  -- All pods of a group that the answers list may be released.
  pub may_release :
      (i : ℕ) (g : PodGroup) (h : History) (pods : List Pod)
      → get_elem? seq.spec.pod_groups i ≡ some g
      → (get_pods_in_group p api g (target_namespace seq) h).0 ≡ ok pods
      → (i < seq.status.current_index)
        ⊎ ((i ≡ seq.status.current_index)
            × ((i ≡ 0) ⊎ PreviousReady p api seq.spec.pod_groups (target_namespace seq) i))
      → All (MayRelease (AllowedFor p api seq) (gate_name seq)) pods
  may_release i g h pods at fetched passed = All-of_mem pods (λ pod m e. record {
    index = i;
    group = g;
    at = at;
    of_group = record { history = h; pods = pods; fetched = fetched; listed = m };
    passed = passed;
    gated = e;
    ungated = refl;
  })

  -- The groups from `i` on, all before the current one.
  release_passed-Fine :
      (orig : PodSequence) (groups : List PodGroup) (h : History)
      → All
          (λ g.
            (i : ℕ) × (get_elem? seq.spec.pod_groups i ≡ some g) × (i < seq.status.current_index))
          groups
      → Emits (AllowedFor p api seq) h (release_passed p api orig seq groups h).1
  unfolding release_passed
  release_passed-Fine orig [] h before = Emits-nothing h
  release_passed-Fine orig (g ∷ groups) h ((i, at, lt), before) =
      let r = get_pods_in_group p api g (target_namespace seq) h in
      let fetch = get_pods_in_group-Emits p api (tt, tt) g (target_namespace seq) h in
      elim (Result-cases r.0) [
        | inr (x, f) ↦ rw (f, ◌>>=◌) fetch
        | inl (pods, f) ↦
            let released =
              release_pods-Emits api seq (λ reason. tt) pods r.1
                (may_release i g h pods at f (inl lt)) in
            elim (Result-cases (release_pods api seq pods r.1).0) [
              | inr (x, e) ↦ rw (f, e, ◌>>=◌) (Emits-then fetch released)
              | inl (pods', e) ↦
                  rw (f, e, ◌>>=◌)
                    (Emits-then (Emits-then fetch released)
                      (release_passed-Fine orig groups _ before))
            ]
      ]

module _ (p : Platform) (api : Api) (orig seq : PodSequence) (group : PodGroup)
    (at : get_elem? seq.spec.pod_groups seq.status.current_index ≡ some group) where
  abbrev Fine : History → History → Type 0
  Fine = Emits (AllowedFor p api seq)

  -- The pods of the current group, as fetched.
  abbrev Current : List Pod → Type 0
  Current pods =
      (h : History) × ((get_pods_in_group p api group (target_namespace seq) h).0 ≡ ok pods)

  check_previous-Fine :
      (pods : List Pod) (prev : PodGroup) (before : ℕ) (r : Result (List Pod)) (h0 h : History)
      → Current pods
      → seq.status.current_index ≡ suc before
      → get_elem? seq.spec.pod_groups before ≡ some prev
      → (get_pods_in_group p api prev (target_namespace seq) h0).0 ≡ r
      → Fine h (check_previous p api orig seq group seq.status.current_index pods prev before r h).1
  unfolding check_previous target_namespace gate_name
  check_previous-Fine pods prev before (err x) h0 h (hc, current) next there fetched =
      Emits-nothing h
  check_previous-Fine pods prev before (ok prev_pods) h0 h (hc, current) next there fetched =
      elim (Bool-cases (all is_pod_ready prev_pods)) [
        | inr e ↦ rw (e, if◌then◌else◌) (patch_status-Emits api orig _ h (inl refl))
        | inl e ↦
            rw (e, if◌then◌else◌)
              (release_current-Fine p api orig seq group at pods hc h current (
                may_release p api seq seq.status.current_index group hc pods at current (
                  inr (
                    refl,
                    inr (record {
                      before = before;
                      next = next;
                      group = prev;
                      at = there;
                      was_ready = record {
                        history = h0;
                        pods = prev_pods;
                        fetched = fetched;
                        ready = e;
                      };
                    }),
                  ))))
      ]

  after_passed-Fine :
      (pods : List Pod) (prev : PodGroup) (before : ℕ) (e : Option Error) (h : History)
      → Current pods
      → seq.status.current_index ≡ suc before
      → get_elem? seq.spec.pod_groups before ≡ some prev
      → Fine h (after_passed p api orig seq group seq.status.current_index pods prev before e h).1
  unfolding after_passed
  after_passed-Fine pods prev before (some x) h current next there = Emits-nothing h
  after_passed-Fine pods prev before none h current next there =
      Emits-then (get_pods_in_group-Emits p api (tt, tt) prev (target_namespace seq) h)
        (check_previous-Fine pods prev before _ h _ current next there refl)

  release_earlier-Fine :
      (index : ℕ) (pods : List Pod) (h : History)
      → seq.status.current_index ≡ index
      → Current pods
      → Fine h (release_earlier p api orig seq group index pods h).1
  unfolding release_earlier
  release_earlier-Fine zero pods h e (hc, current) =
      subst (λ i. Fine h (release_current p api orig seq group i pods h).1) e
        (release_current-Fine p api orig seq group at pods hc h current (
          may_release p api seq seq.status.current_index group hc pods at current
            (inr (refl, inl e))))
  release_earlier-Fine (suc before) pods h e current =
      let groups = seq.spec.pod_groups in
      let (prev, there) =
        get_elem?-before before groups group (subst (λ i. get_elem? groups i ≡ some group) e at) in
      let later = (release_passed p api orig seq (take (suc before) groups) h).1 in
      let passed = release_passed-Fine p api seq orig (take (suc before) groups) h (
        All-weaken (take (suc before) groups) (λ g (i, found, lt). (i, found, rw e lt))
          (take_before (suc before) groups)) in
      rw (there, release_earlier, ◌>>=◌)
        (Emits-then passed (
          subst
            (λ i.
              Fine later
                (after_passed p api orig seq group i pods prev before
                  (release_passed p api orig seq (take (suc before) groups) h).0 later).1)
            e (after_passed-Fine pods prev before _ later current e there)))

  pub with_group-Fine :
      (r : Result (List Pod)) (h0 h : History)
      → (get_pods_in_group p api group (target_namespace seq) h0).0 ≡ r
      → Fine h (with_group p api orig seq group seq.status.current_index r h).1
  unfolding with_group target_namespace gate_name
  with_group-Fine (ok pods) h0 h fetched =
      release_earlier-Fine seq.status.current_index pods h refl (h0, fetched)
  with_group-Fine (err x) h0 h fetched = patch_status-Emits api orig _ h (inl refl)
