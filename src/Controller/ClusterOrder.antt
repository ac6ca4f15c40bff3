-- ===== src/Controller/ClusterOrder.antt =====
-- The part of `reconcileClusterScoped` (internal/controller/podsequence_controller.go) below the release
-- of a group, where the next group is chosen.
use podsequencing.Base.{
  none, ap, subst, Pairwise, Option-cases, Result-cases, ℕ, ◌≤◌, ◌<◌, String, ◌≡◌, inl, inr, refl,
  false, ◌||◌, some, List, [], ◌∷◌, map, Result, ok, err, arith, ◌==◌, nat_eq, ltb, length,
  or_false, count_le, get_elem?, count, All, Bool-cases, if◌then◌else◌,
}
use podsequencing.Kubernetes.{ℤ, Pod}
use podsequencing.Kubernetes.Platform.{Platform}
use podsequencing.Types.{PodGroup, PodSequence}
use podsequencing.Sequence.Fields.{target_namespace, gate_name, wait_duration}
use podsequencing.Sequence.Pods.{has_gate, is_pod_ready, ready_remaining}
use podsequencing.Controller.Api.{Api, History, ◌>>=◌, count_ungated}
use podsequencing.Controller.Access.{get_pods_in_group}
use podsequencing.Controller.Gates.{remove_gate}
use podsequencing.Plan.Data.{reason_satisfied}
use podsequencing.Controller.ClusterScoped.{
  release_pods, move_on, longest_remaining, await, conclude, conclude_released, release_current,
}
use podsequencing.Controller.Traces.{
  Emits, Emits-nothing, Emits-one, Emits-then, patch_status-Emits,
}
use podsequencing.Controller.ClusterRules.{AllowedFor, IsSeen, IsObserved}
use podsequencing.Controller.ClusterLoops.{MayRelease, release_pods-Emits}

waited_all :
    (pods : List Pod) (wait : ℤ) (now so_far : ℕ)
    → longest_remaining pods wait now so_far ≡ 0
    → (so_far ≡ 0) × All (λ pod. ready_remaining pod wait now ≡ 0) pods
unfolding longest_remaining
waited_all [] wait now so_far e = (e, tt)
waited_all (pod ∷ pods) wait now so_far e =
    let rem = ready_remaining pod wait now in
    let (below, rest) = waited_all pods wait now (if ltb so_far rem then rem else so_far) e in
    (ground arith, (ground arith, rest))

remove_gate-IsSeen :
    (api : Api) (pod : Pod) (gate : String)
    → has_gate pod gate ≡ false
    → (h : History) → (remove_gate api pod gate h).0 ≡ (none, pod)
unfolding remove_gate
remove_gate-IsSeen api pod gate n h = rw (n, if◌then◌else◌) refl

-- What the loop over the pods leaves.
release_pods-IsSeen :
    (api : Api) (seq : PodSequence) (pods pods' : List Pod) (h : History)
    → (release_pods api seq pods h).0 ≡ ok pods'
    → Pairwise (IsSeen api (gate_name seq)) pods pods'
unfolding release_pods
release_pods-IsSeen api seq [] pods' h e =
    let empty : [] ≡ pods' = cc e in subst (Pairwise (IsSeen api (gate_name seq)) []) empty tt
release_pods-IsSeen api seq (pod ∷ pods) pods' h e =
    let gate = gate_name seq in
    let r = remove_gate api pod gate h in
    elim (Bool-cases (has_gate pod gate)) [
      | inr n ↦ elim (Result-cases (release_pods api seq pods h).0) [
        | inr (x, f) ↦ absurd (cc (rw (n, f, if◌then◌else◌, release_pods) at e))
        | inl (rest, f) ↦
            let same : pod ∷ rest ≡ pods' = cc (rw (n, f, if◌then◌else◌, release_pods) at e) in
            subst (Pairwise (IsSeen api gate) (pod ∷ pods)) same
              ((h, remove_gate-IsSeen api pod gate n h), release_pods-IsSeen api seq pods rest h f)
      ]
      | inl g ↦ elim (Option-cases r.0.0) [
        | inr (x, f) ↦ absurd (cc (rw (g, if◌then◌else◌, f, ◌>>=◌, release_pods) at e))
        | inl n ↦
            let h' = count_ungated seq.namespace seq.name reason_satisfied ∷ r.1 in
            elim (Result-cases (release_pods api seq pods h').0) [
              | inr (x, f) ↦ absurd (cc (rw (g, if◌then◌else◌, n, ◌>>=◌, f, release_pods) at e))
              | inl (rest, f) ↦
                  let same : r.0.1 ∷ rest ≡ pods' =
                    cc (rw (g, if◌then◌else◌, n, ◌>>=◌, f, release_pods) at e) in
                  subst (Pairwise (IsSeen api gate) (pod ∷ pods)) same
                    ((h, ap (λ x. (x, r.0.1)) n), release_pods-IsSeen api seq pods rest h' f)
            ]
      ]
    ]

module _ (p : Platform) (api : Api) (orig seq : PodSequence) (group : PodGroup)
    (at : get_elem? seq.spec.pod_groups seq.status.current_index ≡ some group) where
  abbrev Fine : History → History → Type 0
  Fine = Emits (AllowedFor p api seq)

  move_on-Fine :
      (pods : List Pod) (h : History) (wait : ℤ) (waited_at : History)
      → IsObserved p api group (target_namespace seq) (gate_name seq) pods
      → seq.status.current_group_pods ≡ map (λ pod. pod.name) pods
      → 0 < length pods
      → length group.pods ≤ length pods
      → count is_pod_ready pods ≡ length pods
      → wait_duration p group ≡ ok wait
      → longest_remaining pods wait (api.time waited_at) 0 ≡ 0
      → Fine h (move_on p api orig seq group seq.status.current_index pods h).1
  unfolding move_on target_namespace gate_name
  move_on-Fine pods h wait waited_at observed named some_pods all_pods ready known waited =
      Emits-then (Emits-one _ h tt) (
        patch_status-Emits api orig _ _ (
          inr (record {
            next = refl;
            group = group;
            at = at;
            pods = pods;
            observed = observed;
            named = named;
            some_pods = some_pods;
            all_pods = all_pods;
            ready = ready;
            wait = wait;
            wait_read = known;
            waited_at = waited_at;
            waited = (waited_all pods wait (api.time waited_at) 0 waited).1;
          })))

  await-Fine :
      (pods : List Pod) (h : History) (r : Result ℤ)
      → wait_duration p group ≡ r
      → IsObserved p api group (target_namespace seq) (gate_name seq) pods
      → seq.status.current_group_pods ≡ map (λ pod. pod.name) pods
      → 0 < length pods
      → length group.pods ≤ length pods
      → count is_pod_ready pods ≡ length pods
      → Fine h (await p api orig seq group seq.status.current_index pods r h).1
  unfolding await target_namespace gate_name
  await-Fine pods h (err x) known observed named some_pods all_pods ready =
      patch_status-Emits api orig _ h (inl refl)
  await-Fine pods h (ok wait) known observed named some_pods all_pods ready =
      elim (Bool-cases (ltb 0 (longest_remaining pods wait (api.time h) 0))) [
        | inl e ↦ rw (e, if◌then◌else◌, ◌>>=◌) (patch_status-Emits api orig _ h (inl refl))
        | inr e ↦
            rw (e, if◌then◌else◌, ◌>>=◌)
              (move_on-Fine pods h wait h observed named some_pods all_pods ready known
                (ground arith))
      ]

enough :
    (names : List String) (n m : ℕ)
    → ltb n (elim names as (λ _. ℕ) [ [] ↦ n | _ ↦ m ]) ≡ false
    → m ≡ length names
    → length names ≤ n
enough [] n m h e = omega arith
enough (name ∷ names) n m h e = ground arith

module _ (p : Platform) (api : Api) (orig seq : PodSequence) (group : PodGroup)
    (at : get_elem? seq.spec.pod_groups seq.status.current_index ≡ some group) where
  -- The observed pods of the group.
  abbrev Observed : List Pod → Type 0
  Observed = IsObserved p api group (target_namespace seq) (gate_name seq)

  conclude-Fine :
      (pods : List Pod) (h : History)
      → Observed pods
      → Emits
          (AllowedFor p api seq)
          h
          (conclude p api orig seq group seq.status.current_index pods h).1
  unfolding conclude target_namespace gate_name
  conclude-Fine pods h observed =
      let expected : ℕ = elim group.pods [ [] ↦ length pods | _ ↦ length group.pods ] in
      elim (Bool-cases (length pods == 0 || ltb (length pods) expected)) [
        | inl e ↦ rw (e, if◌then◌else◌) (patch_status-Emits api orig _ h (inl refl))
        | inr e ↦ elim (Bool-cases (ltb (count is_pod_ready pods) (length pods))) [
          | inl f ↦ rw (e, f, if◌then◌else◌) (patch_status-Emits api orig _ h (inl refl))
          | inr f ↦
              let (present, known) = or_false (length pods == 0) (ltb (length pods) expected) e in
              let some_pods : 0 < length pods = ground arith in
              let ready : count is_pod_ready pods ≡ length pods =
                ground (arith, count_le is_pod_ready pods) in
              rw (e, f, if◌then◌else◌)
                (await-Fine p api orig
                  (record seq {
                    status = record (seq.status) {
                      current_group_pods = map (λ pod. pod.name) pods;
                      ready_pods_in_current_group = count is_pod_ready pods;
                    };
                  })
                  group at pods h (wait_duration p group) refl observed refl some_pods
                  (enough group.pods (length pods) (length group.pods) known refl) ready)
        ]
      ]

  abbrev Fine' : History → History → Type 0
  Fine' = Emits (AllowedFor p api seq)

  conclude_released-Fine :
      (r : Result (List Pod)) (h : History)
      → ((pods : List Pod) → r ≡ ok pods → Observed pods)
      → Fine' h (conclude_released p api orig seq group seq.status.current_index r h).1
  unfolding conclude_released
  conclude_released-Fine (err x) h observed = Emits-nothing h
  conclude_released-Fine (ok pods) h observed = conclude-Fine pods h (observed pods refl)

  pub release_current-Fine :
      (pods : List Pod) (listed_at h : History)
      → (get_pods_in_group p api group (target_namespace seq) listed_at).0 ≡ ok pods
      → All (MayRelease (AllowedFor p api seq) (gate_name seq)) pods
      → Fine' h (release_current p api orig seq group seq.status.current_index pods h).1
  unfolding release_current
  release_current-Fine pods listed_at h fetched may =
      Emits-then (release_pods-Emits api seq (λ reason. tt) pods h may) (
        conclude_released-Fine (release_pods api seq pods h).0 _ (λ pods' e. record {
          listed_at = listed_at;
          listing = pods;
          fetched = fetched;
          seen = release_pods-IsSeen api seq pods pods' h e;
        }))
